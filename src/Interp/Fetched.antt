-- ===== src/Interp/Fetched.antt =====
-- vm/vm/interp_vm.cpp: getting the operands keeps the types of the objects, where forcing does.
use letin.Common.{
  ℕ, ◌+◌, Bool, List, Option, none, some, length, leb, get_elem?, ◌==◌, if◌then◌else◌, ◌≡◌, refl,
}
use letin.Interp.Fetch.{Reader, in_cell, put_back_at, popped, immediate, fetch, global, pop_index}
use letin.Interp.Grows.{
  Ensures, Extends, Any, IfDone, bind-Ensures, pure-Ensures, thread-Ensures, fail-Ensures,
  finish-Ensures, if-Ensures, if_result, same_result, heap-Ensures,
}
use letin.Interp.Outcome.{
  Outcome, done, failed, incorrect_instr, empty_stack, no_global_var, no_local_var, no_arg,
  no_expr_value,
}
use letin.Interp.World.{World, on_thread}
use letin.Opcode.{
  arg_type_lvar, arg_type_arg, arg_type_imm, arg_type_gvar, arg_type_pop, arg_type_eval,
}
use letin.Thread.Exprs.{get_expr_value, set_expr_value, read_expr, write_expr, expr_index}
use letin.Thread.State.{Value, Method, lvbp, read, write}

-- A property of a result, where there is one.
abbrev pub Gives : {A : Type 0} → (A → Type 0) → Outcome A → Type 0
Gives Q (done a) = Q a
Gives Q (failed e) = Unit {0}

abbrev pub Given : {A : Type 0} → (A → Type 0) → A → World → Type 0
Given Q a w = Q a

-- The property of what is read in a cell.
abbrev pub OnCell : {A : Type 0} → (A → Type 0) → Outcome A × Value → World → Type 0
OnCell Q p w = Gives Q p.0

abbrev pub Whatever : {A : Type 0} → A → Type 0
Whatever a = Unit {0}

pub given :
    {A : Type 0} (Q : A → Type 0) (o : Outcome A) (w : World) → Gives Q o → IfDone (Given Q) o w
given Q (done a) w h = h
given Q (failed e) w h = tt

-- A reader whose parts keep the types of the objects and give what has the property.
pub record IsSafeReader {A : Type 0} (Q : A → Type 0) (reader : Reader A) : Type 0 where
  pub of_cell : (v : Value) (w : World) → Ensures w (reader.of_cell v) (OnCell Q)
  pub of_const : (v : Value) (w : World) → Ensures w (reader.of_const v) (IfDone (Given Q))
  pub of_imm : (i : ℕ) (a : A) → reader.of_imm i ≡ some a → Q a

module _ {A : Type 0} {Q : A → Type 0} (globals : List Value) (reader : Reader A)
    (safe : IsSafeReader Q reader) where
  pub in_cell-Ensures :
      {w : World} (get : Method Value) (put : Value → Method (Unit {0}))
      → Ensures w (in_cell globals reader get put) (IfDone (Given Q))
  unfolding in_cell
  in_cell-Ensures get put = bind-Ensures (on_thread get) _ (thread-Ensures get) λ v w1 t.
      bind-Ensures (reader.of_cell v) _ (safe.of_cell v w1) λ (a, x) w2 t2.
        bind-Ensures (on_thread (put x)) _ (thread-Ensures (put x))
          λ u w3 t3. pure-Ensures a (given Q a w3 t2)

  put_back_at-Ensures :
      {w : World} (k : ℕ) (o : Outcome A) (v : Option Value)
      → Gives Q o
      → Ensures w (put_back_at globals reader k o v) (IfDone (Given Q))
  unfolding put_back_at
  put_back_at-Ensures k (failed e) v q = pure-Ensures (failed e) tt
  put_back_at-Ensures k (done a) none q = finish-Ensures a q
  put_back_at-Ensures k (done a) (some v) q =
      bind-Ensures (on_thread (set_expr_value k v)) _ (thread-Ensures (set_expr_value k v))
        λ b w' t. if-Ensures b _ _ (finish-Ensures a q) (fail-Ensures empty_stack)

  popped-Ensures :
      {w : World} (k : ℕ) (o : Option Value)
      → Ensures w (popped globals reader k o) (IfDone (Given Q))
  unfolding popped
  popped-Ensures k none = fail-Ensures empty_stack
  popped-Ensures {w = w} k (some v) =
      bind-Ensures (reader.of_cell v) _ (safe.of_cell v w)
        λ (a, x) w' t. put_back_at-Ensures k a (reader.put_back x) t

  immediate-Ensures :
      {w : World} (o : Option A)
      → ((a : A) → o ≡ some a → Q a)
      → Ensures w (immediate globals reader o) (IfDone (Given Q))
  unfolding immediate
  immediate-Ensures none h = fail-Ensures incorrect_instr
  immediate-Ensures (some a) h = finish-Ensures a (h a refl)

  global-Ensures : {w : World} (i : ℕ) → Ensures w (global globals i) Any
  unfolding global
  global-Ensures {w = w} i =
      heap-Ensures (global globals i) (λ v w' e. cases (get_elem? globals i) v w' e)
    where
      cases :
          (x : Option Value) (v : Value) (w' : World)
          → elim (x) as (λ y. Option (Value × World)) [ none ↦ none | some u ↦ some (u, w) ]
            ≡ some (v, w')
          → (w'.heap ≡ w.heap) × Unit {0}
      cases none v w' e = absurd cc
      cases (some u) v w' e = same_result (λ x y. (y.heap ≡ w.heap) × Unit {0}) e (refl, tt)

  either :
      (w : World) (b : Bool) {x y : Option (Outcome A × World)}
      → ((o : Outcome A) (w' : World)
          → x ≡ some (o, w')
          → Extends w.heap w'.heap × IfDone (Given Q) o w')
      → ((o : Outcome A) (w' : World)
          → y ≡ some (o, w')
          → Extends w.heap w'.heap × IfDone (Given Q) o w')
      → (o : Outcome A) (w' : World) → (if b then x else y) ≡ some (o, w')
      → Extends w.heap w'.heap × IfDone (Given Q) o w'
  either w b h k = if_result (IfDone (Given Q)) w b h k

  pub fetch-Ensures :
      {w : World} (arg_type arg j n : ℕ)
      → Ensures w (fetch globals reader arg_type arg j n) (IfDone (Given Q))
  unfolding fetch
  fetch-Ensures {w = w} t i j n =
      let c = w.machine.context in
      let lvar = in_cell-Ensures {w = w} (read (lvbp c.regs + i)) (write (lvbp c.regs + i)) in
      let arg = in_cell-Ensures {w = w} (read (c.abp + i)) (write (c.abp + i)) in
      let eval =
        in_cell-Ensures {w = w} (read_expr (expr_index c.regs (i + n)))
          (write_expr (expr_index c.regs (i + n))) in
      let gvar =
        bind-Ensures (global globals i) reader.of_const (global-Ensures {w = w} i)
          (λ v w' u. safe.of_const v w') in
      let pop =
        bind-Ensures (on_thread (get_expr_value (pop_index n j)))
          (popped globals reader (pop_index n j))
          (thread-Ensures {w = w} (get_expr_value (pop_index n j)))
          (λ o w' u. popped-Ensures (pop_index n j) o) in
      record {
        holds =
            either w (t == arg_type_lvar)
              (if-Ensures (leb c.lvc i) _ _ (fail-Ensures no_local_var) lvar).holds
              (either w (t == arg_type_arg)
                (if-Ensures (leb c.ac i) _ _ (fail-Ensures no_arg) arg).holds
                (either w (t == arg_type_imm)
                  (immediate-Ensures (reader.of_imm i) (safe.of_imm i)).holds
                  (either w (t == arg_type_gvar)
                    (if-Ensures (leb (length globals) i) _ _ (fail-Ensures no_global_var)
                      gvar).holds
                    (either w (t == arg_type_pop) pop.holds (
                      either w (t == arg_type_eval)
                        (if-Ensures (leb c.evc (i + n)) _ _ (fail-Ensures no_expr_value) eval).holds
                        (fail-Ensures incorrect_instr).holds)))));
      }
