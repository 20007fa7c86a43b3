-- ===== src/Interp/Ops.antt =====
-- vm/vm/interp_vm.cpp: the operations of `interpret_op` that give integers from integers.
use letin.Common.{ℕ, Option, none, some}
use letin.Interp.Arith.{IntOp, UnaryOp, binary, unary}
use letin.Interp.Operands.{with_one, with_two}
use letin.Interp.Outcome.{Outcome, done, failed}
use letin.Interp.Readers.{get_int_value, get_int}
use letin.Interp.World.{Runtime, Step, finish, fail}
use letin.Loader.Format.{Instruction}
use letin.Thread.State.{Value, int}

-- An error of an operation comes after its operands are popped.
unfoldable pub give : Option (Outcome ℕ) → Step Value
unfolding fail
give none w = none
give (some (done i)) w = finish (int i) w
give (some (failed e)) w = fail e w

module _ (rt : Runtime) where
  -- OP_ILOAD
  unfoldable pub interpret_iload : Instruction → Step Value
  unfolding get_int_value with_one
  interpret_iload instr = with_one (get_int_value rt) instr finish

  -- OP_INEG, OP_INOT
  unfoldable pub interpret_unary : UnaryOp → Instruction → Step Value
  unfolding get_int unary with_one
  interpret_unary op instr = with_one (get_int rt) instr λ i. finish (int (unary op i))

  -- The other operations, from OP_ILOAD2 to OP_ILE.
  unfoldable pub interpret_binary : IntOp → Instruction → Step Value
  unfolding get_int binary give with_two
  interpret_binary op instr =
      with_two (get_int rt) (get_int rt) instr λ i1 i2. give (binary op i1 i2)
