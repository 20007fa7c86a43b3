-- ===== src/Interp/Reads.antt =====
-- vm/vm/interp_vm.cpp: the readers of operands, and the operands of an operation, keep the types of the objects.
use letin.Common.{ℕ, Bool, true, ◌==◌, ◌≡◌, refl, sym, ◌⊎◌, inl, inr}
use letin.Interp.Fetch.{fail_cell, object_at, pop_values, expr_pop_arg_count, expr_pop_arg_count2}
use letin.Interp.Fetched.{IsSafeReader, Given, OnCell, Whatever, given, fetch-Ensures}
use letin.Interp.Grows.{
  Ensures, Any, IfDone, bind-Ensures, step-Ensures, pure-Ensures, thread-Ensures,
  raise_code-Ensures, fail-Ensures, finish-Ensures, if-Ensures, object_at-Ensures,
}
use letin.Interp.Operands.{Getter, with_one, with_two, after_first}
use letin.Interp.Outcome.{
  Outcome, done, failed, ErrorCode, error_number, incorrect_value, unique_object, again_used_unique,
  empty_stack,
}
use letin.Interp.Readers.{
  kept, after_read, of_unchanged, force, forced, int_of_cell, float_of_cell, ref_of_cell,
  get_int_for_const_value, get_float_for_const_value, get_ref_for_const_value, int_reader,
  float_reader, ref_reader, get_int, get_float, get_ref, lazily, int_value_of_cell,
  float_value_of_cell, ref_value_of_cell, get_ref_value_for_const_value, int_value_reader,
  float_value_reader, ref_value_reader, get_int_value, get_float_value, get_ref_value,
}
use letin.Interp.World.{World, Act, Step, Runtime, on_thread, raise, finish}
use letin.Thread.Saved.{sign_extend}
use letin.Loader.Format.{Instruction, value_type_int, value_type_float, value_type_ref}
use letin.Opcode.{opcode_to_arg_type1, opcode_to_arg_type2}
use letin.Thread.Exprs.{pop_expr_values}
use letin.Thread.State.{
  Value, int, float, ref, pair, canceled_ref, lazy_value_ref, locked_lazy_value_ref, error,
}
use letin.Values.{is_unique_object}

-- Forcing a value keeps the types of the objects.
pub record IsSafeRuntime (rt : Runtime) : Type 0 where
  pub force_value : (v : Value) (w : World) → Ensures w (rt.force_value v) Any

raise-Ensures : {w : World} (c : ErrorCode) → Ensures w (raise c) Any
unfolding raise
raise-Ensures c = raise_code-Ensures (error_number c) 0

-- Integers, doubles and references, and references to lazy values.
abbrev pub IsIntValue : Value → Type 0
IsIntValue v = (i : ℕ) × (v ≡ int i)

abbrev pub IsFloatValue : Value → Type 0
IsFloatValue v = (f : ℕ) × (v ≡ float f)

abbrev pub IsRefValue : Value → Type 0
IsRefValue v = (r : ℕ) × (v ≡ ref r)

abbrev pub MayBeLazy : (Value → Type 0) → Value → Type 0
MayBeLazy P v = P v ⊎ ((r : ℕ) × (b : Bool) × (v ≡ lazy_value_ref r b))

fail_cell-Ensures :
    {A : Type 0} {Q : A → Type 0} {w : World} (c : ErrorCode) (v : Value)
    → Ensures w (fail_cell {A = A} c v) (OnCell Q)
fail_cell-Ensures c v =
    bind-Ensures (raise c) _ (raise-Ensures c) λ u w' t. pure-Ensures (failed c, v) tt

module _ (rt : Runtime) (safe : IsSafeRuntime rt) where
  forced-Ensures :
      {A : Type 0} {w : World} (f : Value → A) (t r : ℕ) (b : Bool)
      → Ensures w (forced rt f t r b) (OnCell Whatever)
  unfolding forced force
  forced-Ensures f t r b = bind-Ensures (object_at r) _ (object_at-Ensures r) λ o w1 is.
      if-Ensures (o.value_type == t) _ _
        (bind-Ensures (rt.force_value (lazy_value_ref r b)) _
          (safe.force_value (lazy_value_ref r b) w1) λ (x, v) w2 u. kept-Ensures x v)
        (fail_cell-Ensures incorrect_value (lazy_value_ref r b))
    where
      kept-Ensures :
          {w : World} (x : Outcome (Unit {0})) (v : Value)
          → Ensures w (kept f (x, v)) (OnCell Whatever)
      kept-Ensures (done u) v = pure-Ensures (done (f v), v) tt
      kept-Ensures (failed e) v = pure-Ensures (failed e, v) tt

  int_of_cell-Ensures : (v : Value) (w : World) → Ensures w (int_of_cell rt v) (OnCell Whatever)
  unfolding int_of_cell
  int_of_cell-Ensures (int i) w = pure-Ensures (done i, int i) tt
  int_of_cell-Ensures (float f) w = fail_cell-Ensures incorrect_value (float f)
  int_of_cell-Ensures (ref r) w = fail_cell-Ensures incorrect_value (ref r)
  int_of_cell-Ensures (pair a b) w = fail_cell-Ensures incorrect_value (pair a b)
  int_of_cell-Ensures (canceled_ref r) w = fail_cell-Ensures incorrect_value (canceled_ref r)
  int_of_cell-Ensures (lazy_value_ref r b) w = forced-Ensures _ value_type_int r b
  int_of_cell-Ensures (locked_lazy_value_ref r) w =
      fail_cell-Ensures incorrect_value (locked_lazy_value_ref r)
  int_of_cell-Ensures error w = fail_cell-Ensures incorrect_value error

  float_of_cell-Ensures : (v : Value) (w : World) → Ensures w (float_of_cell rt v) (OnCell Whatever)
  unfolding float_of_cell
  float_of_cell-Ensures (int i) w = fail_cell-Ensures incorrect_value (int i)
  float_of_cell-Ensures (float f) w = pure-Ensures (done f, float f) tt
  float_of_cell-Ensures (ref r) w = fail_cell-Ensures incorrect_value (ref r)
  float_of_cell-Ensures (pair a b) w = fail_cell-Ensures incorrect_value (pair a b)
  float_of_cell-Ensures (canceled_ref r) w = fail_cell-Ensures incorrect_value (canceled_ref r)
  float_of_cell-Ensures (lazy_value_ref r b) w = forced-Ensures _ value_type_float r b
  float_of_cell-Ensures (locked_lazy_value_ref r) w =
      fail_cell-Ensures incorrect_value (locked_lazy_value_ref r)
  float_of_cell-Ensures error w = fail_cell-Ensures incorrect_value error

  ref_of_cell-Ensures : (v : Value) (w : World) → Ensures w (ref_of_cell rt v) (OnCell Whatever)
  unfolding ref_of_cell
  ref_of_cell-Ensures (int i) w = fail_cell-Ensures incorrect_value (int i)
  ref_of_cell-Ensures (float f) w = fail_cell-Ensures incorrect_value (float f)
  ref_of_cell-Ensures (ref r) w =
      bind-Ensures (object_at r) _ (object_at-Ensures r)
        λ o w1 is. pure-Ensures (done r, after_read rt o r) tt
  ref_of_cell-Ensures (pair a b) w = fail_cell-Ensures incorrect_value (pair a b)
  ref_of_cell-Ensures (canceled_ref r) w = fail_cell-Ensures again_used_unique (canceled_ref r)
  ref_of_cell-Ensures (lazy_value_ref r b) w = forced-Ensures _ value_type_ref r b
  ref_of_cell-Ensures (locked_lazy_value_ref r) w =
      fail_cell-Ensures incorrect_value (locked_lazy_value_ref r)
  ref_of_cell-Ensures error w = fail_cell-Ensures incorrect_value error

  lazily-Ensures :
      {P : Value → Type 0} {w : World} (t r : ℕ) (b : Bool) (v : Value)
      → Ensures w (lazily rt t r b v) (OnCell (MayBeLazy P))
  unfolding lazily
  lazily-Ensures t r b v = bind-Ensures (object_at r) _ (object_at-Ensures r) λ o w1 is.
      if-Ensures (o.value_type == t) _ _
        (pure-Ensures (done (lazy_value_ref r b), v) (inr (r, b, refl)))
        (fail_cell-Ensures incorrect_value (lazy_value_ref r b))

  int_value_of_cell-Ensures :
      (v : Value) (w : World) → Ensures w (int_value_of_cell rt v) (OnCell (MayBeLazy IsIntValue))
  unfolding int_value_of_cell
  int_value_of_cell-Ensures (int i) w = pure-Ensures (done (int i), int i) (inl (i, refl))
  int_value_of_cell-Ensures (float f) w = fail_cell-Ensures incorrect_value (float f)
  int_value_of_cell-Ensures (ref r) w = fail_cell-Ensures incorrect_value (ref r)
  int_value_of_cell-Ensures (pair a b) w = fail_cell-Ensures incorrect_value (pair a b)
  int_value_of_cell-Ensures (canceled_ref r) w = fail_cell-Ensures incorrect_value (canceled_ref r)
  int_value_of_cell-Ensures (lazy_value_ref r b) w =
      lazily-Ensures value_type_int r b (lazy_value_ref r b)
  int_value_of_cell-Ensures (locked_lazy_value_ref r) w =
      fail_cell-Ensures incorrect_value (locked_lazy_value_ref r)
  int_value_of_cell-Ensures error w = fail_cell-Ensures incorrect_value error

  float_value_of_cell-Ensures :
      (v : Value) (w : World)
      → Ensures w (float_value_of_cell rt v) (OnCell (MayBeLazy IsFloatValue))
  unfolding float_value_of_cell
  float_value_of_cell-Ensures (int i) w = fail_cell-Ensures incorrect_value (int i)
  float_value_of_cell-Ensures (float f) w = pure-Ensures (done (float f), float f) (inl (f, refl))
  float_value_of_cell-Ensures (ref r) w = fail_cell-Ensures incorrect_value (ref r)
  float_value_of_cell-Ensures (pair a b) w = fail_cell-Ensures incorrect_value (pair a b)
  float_value_of_cell-Ensures (canceled_ref r) w =
      fail_cell-Ensures incorrect_value (canceled_ref r)
  float_value_of_cell-Ensures (lazy_value_ref r b) w =
      lazily-Ensures value_type_float r b (lazy_value_ref r b)
  float_value_of_cell-Ensures (locked_lazy_value_ref r) w =
      fail_cell-Ensures incorrect_value (locked_lazy_value_ref r)
  float_value_of_cell-Ensures error w = fail_cell-Ensures incorrect_value error

  ref_value_of_cell-Ensures :
      (v : Value) (w : World) → Ensures w (ref_value_of_cell rt v) (OnCell (MayBeLazy IsRefValue))
  unfolding ref_value_of_cell
  ref_value_of_cell-Ensures (int i) w = fail_cell-Ensures incorrect_value (int i)
  ref_value_of_cell-Ensures (float f) w = fail_cell-Ensures incorrect_value (float f)
  ref_value_of_cell-Ensures (ref r) w =
      bind-Ensures (object_at r) _ (object_at-Ensures r)
        λ o w1 is. pure-Ensures (done (ref r), after_read rt o r) (inl (r, refl))
  ref_value_of_cell-Ensures (pair a b) w = fail_cell-Ensures incorrect_value (pair a b)
  ref_value_of_cell-Ensures (canceled_ref r) w =
      fail_cell-Ensures again_used_unique (canceled_ref r)
  ref_value_of_cell-Ensures (lazy_value_ref r b) w =
      lazily-Ensures value_type_ref r b (lazy_value_ref r true)
  ref_value_of_cell-Ensures (locked_lazy_value_ref r) w =
      fail_cell-Ensures incorrect_value (locked_lazy_value_ref r)
  ref_value_of_cell-Ensures error w = fail_cell-Ensures incorrect_value error

  get_int_for_const_value-Ensures :
      (v : Value) (w : World) → Ensures w (get_int_for_const_value rt v) (IfDone Any)
  unfolding get_int_for_const_value
  get_int_for_const_value-Ensures (int i) w = finish-Ensures i tt
  get_int_for_const_value-Ensures (float f) w = fail-Ensures incorrect_value
  get_int_for_const_value-Ensures (ref r) w = fail-Ensures incorrect_value
  get_int_for_const_value-Ensures (pair a b) w = fail-Ensures incorrect_value
  get_int_for_const_value-Ensures (canceled_ref r) w = fail-Ensures incorrect_value
  get_int_for_const_value-Ensures (lazy_value_ref r b) w = fail-Ensures incorrect_value
  get_int_for_const_value-Ensures (locked_lazy_value_ref r) w = fail-Ensures incorrect_value
  get_int_for_const_value-Ensures error w = fail-Ensures incorrect_value

  get_float_for_const_value-Ensures :
      (v : Value) (w : World) → Ensures w (get_float_for_const_value rt v) (IfDone Any)
  unfolding get_float_for_const_value
  get_float_for_const_value-Ensures (int i) w = fail-Ensures incorrect_value
  get_float_for_const_value-Ensures (float f) w = finish-Ensures f tt
  get_float_for_const_value-Ensures (ref r) w = fail-Ensures incorrect_value
  get_float_for_const_value-Ensures (pair a b) w = fail-Ensures incorrect_value
  get_float_for_const_value-Ensures (canceled_ref r) w = fail-Ensures incorrect_value
  get_float_for_const_value-Ensures (lazy_value_ref r b) w = fail-Ensures incorrect_value
  get_float_for_const_value-Ensures (locked_lazy_value_ref r) w = fail-Ensures incorrect_value
  get_float_for_const_value-Ensures error w = fail-Ensures incorrect_value

  get_ref_for_const_value-Ensures :
      (v : Value) (w : World) → Ensures w (get_ref_for_const_value rt v) (IfDone Any)
  unfolding get_ref_for_const_value
  get_ref_for_const_value-Ensures (int i) w = fail-Ensures incorrect_value
  get_ref_for_const_value-Ensures (float f) w = fail-Ensures incorrect_value
  get_ref_for_const_value-Ensures (ref r) w =
      bind-Ensures (object_at r) _ (object_at-Ensures r) λ o w1 is.
        if-Ensures (is_unique_object o) _ _ (fail-Ensures unique_object) (finish-Ensures r tt)
  get_ref_for_const_value-Ensures (pair a b) w = fail-Ensures incorrect_value
  get_ref_for_const_value-Ensures (canceled_ref r) w = fail-Ensures incorrect_value
  get_ref_for_const_value-Ensures (lazy_value_ref r b) w = fail-Ensures incorrect_value
  get_ref_for_const_value-Ensures (locked_lazy_value_ref r) w = fail-Ensures incorrect_value
  get_ref_for_const_value-Ensures error w = fail-Ensures incorrect_value

  get_ref_value_for_const_value-Ensures :
      (v : Value) (w : World)
      → Ensures w (get_ref_value_for_const_value rt v) (IfDone (Given (MayBeLazy IsRefValue)))
  unfolding get_ref_value_for_const_value
  get_ref_value_for_const_value-Ensures (int i) w = fail-Ensures incorrect_value
  get_ref_value_for_const_value-Ensures (float f) w = fail-Ensures incorrect_value
  get_ref_value_for_const_value-Ensures (ref r) w =
      bind-Ensures (object_at r) _ (object_at-Ensures r) λ o w1 is.
        if-Ensures (is_unique_object o) _ _ (fail-Ensures unique_object)
          (finish-Ensures (ref r) (inl (r, refl)))
  get_ref_value_for_const_value-Ensures (pair a b) w = fail-Ensures incorrect_value
  get_ref_value_for_const_value-Ensures (canceled_ref r) w = fail-Ensures again_used_unique
  get_ref_value_for_const_value-Ensures (lazy_value_ref r b) w = fail-Ensures incorrect_value
  get_ref_value_for_const_value-Ensures (locked_lazy_value_ref r) w = fail-Ensures incorrect_value
  get_ref_value_for_const_value-Ensures error w = fail-Ensures incorrect_value

  unchanged-Ensures :
      {P : Value → Type 0} (of_cell : Value → Act (Outcome Value × Value))
      → ((v : Value) (w : World) → Ensures w (of_cell v) (OnCell P))
      → (v : Value) (w : World) → Ensures w (of_unchanged rt of_cell v) (IfDone (Given P))
  unchanged-Ensures {P = P} of_cell h v w =
      bind-Ensures (of_cell v) _ (h v w) λ (o, x) w1 t. pure-Ensures o (given P o w1 t)

  pub int_reader-IsSafe : IsSafeReader Whatever (int_reader rt)
  int_reader-IsSafe = record {
    of_cell = int_of_cell-Ensures;
    of_const = get_int_for_const_value-Ensures;
    of_imm = λ i a e. tt;
  }

  pub get_int-Ensures : (w : World) (t i j n : ℕ) → Ensures w (get_int rt t i j n) (IfDone Any)
  unfolding get_int
  get_int-Ensures w t i j n = fetch-Ensures rt.globals (int_reader rt) int_reader-IsSafe t i j n

  pub float_reader-IsSafe : IsSafeReader Whatever (float_reader rt)
  float_reader-IsSafe = record {
    of_cell = float_of_cell-Ensures;
    of_const = get_float_for_const_value-Ensures;
    of_imm = λ i a e. tt;
  }

  pub get_float-Ensures : (w : World) (t i j n : ℕ) → Ensures w (get_float rt t i j n) (IfDone Any)
  unfolding get_float
  get_float-Ensures w t i j n =
      fetch-Ensures rt.globals (float_reader rt) float_reader-IsSafe t i j n

  pub ref_reader-IsSafe : IsSafeReader Whatever (ref_reader rt)
  ref_reader-IsSafe = record {
    of_cell = ref_of_cell-Ensures;
    of_const = get_ref_for_const_value-Ensures;
    of_imm = λ i a e. tt;
  }

  pub get_ref-Ensures : (w : World) (t i j n : ℕ) → Ensures w (get_ref rt t i j n) (IfDone Any)
  unfolding get_ref
  get_ref-Ensures w t i j n = fetch-Ensures rt.globals (ref_reader rt) ref_reader-IsSafe t i j n

  pub get_int_value-Ensures :
      (w : World) (t i j n : ℕ)
      → Ensures w (get_int_value rt t i j n) (IfDone (Given (MayBeLazy IsIntValue)))
  unfolding get_int_value
  get_int_value-Ensures w t i j n =
      fetch-Ensures rt.globals (int_value_reader rt)
        (record {
          of_cell = int_value_of_cell-Ensures;
          of_const = unchanged-Ensures (int_value_of_cell rt) int_value_of_cell-Ensures;
          of_imm = λ k a e. let q : int (sign_extend k) ≡ a = cc in inl (sign_extend k, sym q);
        })
        t i j n

  pub get_float_value-Ensures :
      (w : World) (t i j n : ℕ)
      → Ensures w (get_float_value rt t i j n) (IfDone (Given (MayBeLazy IsFloatValue)))
  unfolding get_float_value
  get_float_value-Ensures w t i j n =
      fetch-Ensures rt.globals (float_value_reader rt)
        (record {
          of_cell = float_value_of_cell-Ensures;
          of_const = unchanged-Ensures (float_value_of_cell rt) float_value_of_cell-Ensures;
          of_imm =
              λ k a e. let q : float (rt.format_float k) ≡ a = cc in inl (rt.format_float k, sym q);
        })
        t i j n

  pub get_ref_value-Ensures :
      (w : World) (t i j n : ℕ)
      → Ensures w (get_ref_value rt t i j n) (IfDone (Given (MayBeLazy IsRefValue)))
  unfolding get_ref_value
  get_ref_value-Ensures w t i j n =
      fetch-Ensures rt.globals (ref_value_reader rt)
        (record {
          of_cell = ref_value_of_cell-Ensures;
          of_const = get_ref_value_for_const_value-Ensures;
          of_imm = λ k a e. absurd cc;
        })
        t i j n

pub pop_values-Ensures : {w : World} (n : ℕ) → Ensures w (pop_values n) (IfDone Any)
unfolding pop_values
pop_values-Ensures n =
    bind-Ensures (on_thread (pop_expr_values n)) _ (thread-Ensures (pop_expr_values n))
      λ b w' t. if-Ensures b _ _ (finish-Ensures tt tt) (fail-Ensures empty_stack)

-- A getter that keeps the types of the objects.
abbrev pub SafeGetter : {A : Type 0} → Getter A → Type 0
SafeGetter get = (w : World) (t i j n : ℕ) → Ensures w (get t i j n) (IfDone Any)

pub with_one-Ensures :
    {A : Type 0} {Q : Value → World → Type 0} {w : World} (get : Getter A) (instr : Instruction)
    (k : A → Step Value)
    → SafeGetter get
    → ((a : A) (w' : World) → Ensures w' (k a) (IfDone Q))
    → Ensures w (with_one get instr k) (IfDone Q)
unfolding with_one
with_one-Ensures get instr k h later =
    let t = opcode_to_arg_type1 instr.opcode in
    let n = expr_pop_arg_count t in
    step-Ensures (get t instr.arg1 0 n) _ (h _ t instr.arg1 0 n)
      λ a w1 u. step-Ensures (pop_values n) _ (pop_values-Ensures n) λ v w2 s. later a w2

-- A value that is got and that is the result.
pub with_value-Ensures :
    {P : Value → Type 0} {w : World} (get : Getter Value) (instr : Instruction)
    → ((w : World) (t i j n : ℕ) → Ensures w (get t i j n) (IfDone (Given P)))
    → Ensures w (with_one get instr finish) (IfDone (Given P))
unfolding with_one
with_value-Ensures get instr h =
    let t = opcode_to_arg_type1 instr.opcode in
    let n = expr_pop_arg_count t in
    step-Ensures (get t instr.arg1 0 n) _ (h _ t instr.arg1 0 n)
      λ a w1 q. step-Ensures (pop_values n) _ (pop_values-Ensures n) λ v w2 s. finish-Ensures a q

pub with_two-Ensures :
    {A B : Type 0} {Q : Value → World → Type 0} {w : World} (get1 : Getter A) (get2 : Getter B)
    (instr : Instruction) (k : A → B → Step Value)
    → SafeGetter get1
    → SafeGetter get2
    → ((a : A) (b : B) (w' : World) → Ensures w' (k a b) (IfDone Q))
    → Ensures w (with_two get1 get2 instr k) (IfDone Q)
unfolding with_two
with_two-Ensures get1 get2 instr k h1 h2 later =
    let t = opcode_to_arg_type1 instr.opcode in
    let u = opcode_to_arg_type2 instr.opcode in
    let n = expr_pop_arg_count2 t u in
    step-Ensures (get1 t instr.arg1 0 n) _ (h1 _ t instr.arg1 0 n) λ a w1 x.
      step-Ensures (get2 u instr.arg2 (after_first t) n) _ (h2 w1 u instr.arg2 (after_first t) n)
        λ b w2 y. step-Ensures (pop_values n) _ (pop_values-Ensures n) λ v w3 s. later a b w3
