-- ===== src/Interp/Fetch.antt =====
-- vm/vm/interp_vm.cpp: how an operation gets an operand: an integer, a float or a reference, forced where
-- it is lazy, or a value that may stay lazy. The registers that hold a popped value meanwhile, for the
-- garbage collector alone, and the list of canceled cells, which a forced call looks at, are left out.
use letin.Common.{
  ℕ, ◌+◌, ◌-◌, ◌%◌, ◌^◌, List, Option, none, some, length, get_elem?, leb, ◌==◌, if◌then◌else◌,
}
use letin.Interp.Outcome.{
  Outcome, done, failed, ErrorCode, incorrect_instr, empty_stack, no_global_var, no_local_var,
  no_arg, no_expr_value,
}
use letin.Interp.World.{Act, ◌>>=◌, ◌>>◌, pure, on_thread, raise, Step, finish, fail}
use letin.Opcode.{
  arg_type_lvar, arg_type_arg, arg_type_imm, arg_type_gvar, arg_type_pop, arg_type_eval,
}
use letin.Thread.Exprs.{
  get_expr_value, set_expr_value, pop_expr_values, read_expr, write_expr, expr_index,
}
use letin.Thread.State.{Value, Method, lvbp, read, write}
use letin.Values.{Object}

unfoldable pub expr_pop_arg_count : ℕ → ℕ
expr_pop_arg_count arg_type = if arg_type == arg_type_pop then 1 else 0

unfoldable pub expr_pop_arg_count2 : ℕ → ℕ → ℕ
unfolding expr_pop_arg_count
expr_pop_arg_count2 t u = expr_pop_arg_count t + expr_pop_arg_count u

unfoldable pub pop_values : ℕ → Step (Unit {0})
unfolding pop_expr_values
pop_values n = on_thread (pop_expr_values n) >>= λ b. if b then finish tt else fail empty_stack

-- The place of the value that is popped as number `j` of `n`.
abbrev pub pop_index : ℕ → ℕ → ℕ
pop_index n j = (n + 2 ^ 64 - j - 1) % 2 ^ 64

-- An element that must be there.
unfoldable pub global : List Value → ℕ → Act Value
global globals i w = elim (get_elem? globals i) [ none ↦ none | some v ↦ some (v, w) ]

-- The object of a reference.
unfoldable pub object_at : ℕ → Act Object
object_at r w = elim (get_elem? w.heap r) [ none ↦ none | some o ↦ some (o, w) ]

-- How the value of a cell is read, and what the cell holds then; how a global variable and an immediate
-- value are read; and what the cell of a popped value gets back.
pub record Reader (A : Type 0) : Type 0 where
  pub of_cell : Value → Act (Outcome A × Value)
  pub of_const : Value → Step A
  pub of_imm : ℕ → Option A
  pub put_back : Value → Option Value

abbrev pub fail_cell : {A : Type 0} → ErrorCode → Value → Act (Outcome A × Value)
fail_cell e v = raise e >> pure (failed e, v)

module _ {A : Type 0} (globals : List Value) (reader : Reader A) where
  -- The operand in a cell, which reading may change.
  unfoldable pub in_cell : Method Value → (Value → Method (Unit {0})) → Step A
  in_cell get put = do v ← on_thread get; (a, w) ← reader.of_cell v; on_thread (put w); pure a

  unfoldable pub put_back_at : ℕ → Outcome A → Option Value → Step A
  unfolding set_expr_value fail
  put_back_at k (failed e) v = pure (failed e)
  put_back_at k (done a) none = finish a
  put_back_at k (done a) (some v) =
      on_thread (set_expr_value k v) >>= λ b. if b then finish a else fail empty_stack

  unfoldable pub popped : ℕ → Option Value → Step A
  unfolding put_back_at fail
  popped k none = fail empty_stack
  popped k (some v) = do (a, w) ← reader.of_cell v; put_back_at k a (reader.put_back w)

  unfoldable pub immediate : Option A → Step A
  unfolding fail
  immediate none = fail incorrect_instr
  immediate (some a) = finish a

  -- The operand, with `j` popped before it.
  unfoldable pub fetch : ℕ → ℕ → ℕ → ℕ → Step A
  unfolding in_cell popped immediate global read_expr write_expr get_expr_value fail
  fetch arg_type arg j n w =
      let c = w.machine.context in
      if arg_type == arg_type_lvar
      then (if leb c.lvc arg
            then fail no_local_var
            else in_cell (read (lvbp c.regs + arg)) (write (lvbp c.regs + arg)))
          w
      else if arg_type == arg_type_arg
      then (if leb c.ac arg
            then fail no_arg
            else in_cell (read (c.abp + arg)) (write (c.abp + arg)))
          w
      else if arg_type == arg_type_imm
      then immediate (reader.of_imm arg) w
      else if arg_type == arg_type_gvar
      then (if leb (length globals) arg
            then fail no_global_var
            else global globals arg >>= reader.of_const)
          w
      else if arg_type == arg_type_pop
      then (on_thread (get_expr_value (pop_index n j)) >>= popped (pop_index n j)) w
      else if arg_type == arg_type_eval
      then (if leb c.evc (arg + n)
            then fail no_expr_value
            else in_cell (read_expr (expr_index c.regs (arg + n)))
                (write_expr (expr_index c.regs (arg + n))))
          w
      else fail incorrect_instr w
