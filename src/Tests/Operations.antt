-- ===== src/Tests/Operations.antt =====
-- vm/vm/interp_vm.cpp: the addition of two popped values, as an operation of the machine.
use letin.Common.{◌≡◌, [], none, some, true, false, get_elem?}
use letin.Interp.Calls.{Code}
use letin.Interp.Dispatch.{OtherOp, ops, interpret_op, interpret_op_of, interpret_case}
use letin.Interp.Floats.{FloatArith}
use letin.Interp.Grows.{Extends, IfDone, pure-Ensures}
use letin.Interp.Outcome.{done, failed, incorrect_instr, incorrect_value}
use letin.Interp.Types.{IsSafeMachine, HasResultOf, interpret_op_typed}
use letin.Interp.World.{World, Step, with_context, context_of, pure}
use letin.Loader.Format.{Instruction}
use letin.Opcode.{opcode_to_op}
use letin.Tests.Arithmetic.{two_values, popped_sum}
use letin.Tests.Worlds.{plain_runtime}
use letin.Thread.State.{Value, int}

abbrev plain_floats : FloatArith
plain_floats = record {
  unary = λ op f. f;
  binary = λ op f g. f;
  test = λ op f g. false;
  from_int = λ i. i;
  to_int = λ f. f;
  from_pattern = λ f. f;
}

-- Every function is entered, and left.
abbrev plain_code : Code
plain_code = record {
  funs = [];
  pre_enter_to_fun = λ i t w. some (none, w);
  post_leave_from_fun = λ i t w. some (true, w);
  post_leave_from_fun_for_force = λ i t w. some (true, w);
}

abbrev no_others : OtherOp → Instruction → Step Value
no_others op instr = pure (failed incorrect_instr)

plain_IsSafe : IsSafeMachine plain_runtime plain_code no_others
plain_IsSafe = record {
  runtime = record { force_value = λ v w. pure-Ensures (failed incorrect_value, v) tt };
  strategy = record {
    pre_enter = λ i t w. record { holds = (pure-Ensures none tt).holds };
    post_leave = λ i t w. record { holds = (pure-Ensures true tt).holds };
  };
  other_op = λ op instr w. record { holds = (pure-Ensures (failed incorrect_instr) tt).holds };
}

-- IADD, with both operands popped.
abbrev add_popped : Instruction
add_popped = record { opcode = 0x440300; arg1 = 0; arg2 = 0 }

abbrev after_add : World
after_add = with_context two_values (record (context_of two_values) {
  regs = record (context_of two_values).regs { evc = 0; esec = 0 };
})

added :
    interpret_op plain_runtime plain_floats plain_code no_others add_popped two_values
    ≡ some (done (int 42), after_add)
unfolding interpret_op interpret_op_of interpret_case opcode_to_op
added = popped_sum

interpret_op_typed_example :
    Extends two_values.heap after_add.heap
    × IfDone (HasResultOf (get_elem? ops (opcode_to_op 0x440300))) (done (int 42)) after_add
interpret_op_typed_example =
    interpret_op_typed plain_runtime plain_floats plain_code no_others plain_IsSafe add_popped
      two_values after_add (done (int 42)) added
