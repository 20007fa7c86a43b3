-- ===== src/Interp/Operands.antt =====
-- vm/vm/interp_vm.cpp: the operands that an operation of `interpret_op` takes before anything else.
use letin.Common.{ℕ, ◌==◌, if◌then◌else◌}
use letin.Interp.Fetch.{expr_pop_arg_count, expr_pop_arg_count2, pop_values}
use letin.Interp.World.{Step, ◌>=>◌}
use letin.Loader.Format.{Instruction}
use letin.Opcode.{opcode_to_arg_type1, opcode_to_arg_type2, arg_type_pop}
use letin.Thread.State.{Value}

-- The number of values that are popped for the first argument.
abbrev pub after_first : ℕ → ℕ
after_first arg_type = if arg_type == arg_type_pop then 1 else 0

-- How an operand is got from its type and argument, the number of values popped before it, and the number
-- that the operation pops.
abbrev pub Getter : Type 0 → Type 0
Getter A = ℕ → ℕ → ℕ → ℕ → Step A

unfoldable pub with_one : {A : Type 0} → Getter A → Instruction → (A → Step Value) → Step Value
unfolding pop_values expr_pop_arg_count
with_one get instr k =
    let t = opcode_to_arg_type1 instr.opcode in
    let n = expr_pop_arg_count t in get t instr.arg1 0 n >=> λ a. pop_values n >=> λ _. k a

unfoldable pub with_two :
    {A B : Type 0} → Getter A → Getter B → Instruction → (A → B → Step Value) → Step Value
unfolding pop_values expr_pop_arg_count2
with_two get1 get2 instr k =
    let t = opcode_to_arg_type1 instr.opcode in
    let u = opcode_to_arg_type2 instr.opcode in
    let n = expr_pop_arg_count2 t u in
    get1 t instr.arg1 0 n >=> λ a.
    get2 u instr.arg2 (after_first t) n >=> λ b. pop_values n >=> λ _. k a b
