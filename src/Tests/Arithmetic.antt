-- ===== src/Tests/Arithmetic.antt =====
-- vm/vm/interp_vm.cpp: -7 divided by 2, and an addition of two popped values.
use letin.Common.{
  ◌+◌, ◌-◌, ◌*◌, ◌^◌, ◌<◌, ◌≡◌, ◌⊎◌, ℕ, refl, false, [], ◌∷◌, some, replicate, arith,
}
use letin.Interp.Arith.{is_negative, magnitude, overflows, idiv, imod, iadd, binary}
use letin.Interp.Fetch.{fetch, popped, put_back_at, pop_values, expr_pop_arg_count2}
use letin.Interp.Operands.{with_two}
use letin.Interp.Ops.{give, interpret_binary}
use letin.Interp.Outcome.{done}
use letin.Interp.Readers.{get_int, int_of_cell}
use letin.Interp.Words.{xor, division}
use letin.Interp.World.{World, context_of, with_context}
use letin.Opcode.{opcode_to_arg_type1, opcode_to_arg_type2}
use letin.Thread.Exprs.{get_expr_value, set_expr_value, pop_expr_values, read_expr, write_expr}
use letin.Tests.Worlds.{plain_runtime, thread_world}
use letin.Thread.State.{int, initial_registers}

not_least : overflows (2 ^ 64 - 7) 2 ≡ false
unfolding overflows
not_least = refl

division_example :
    (q : ℕ) × (r : ℕ) × (binary idiv (2 ^ 64 - 7) 2 ≡ some (done q))
    × (binary imod (2 ^ 64 - 7) 2 ≡ some (done r))
    × (magnitude 2 * magnitude q + magnitude r ≡ magnitude (2 ^ 64 - 7))
    × (magnitude r < magnitude 2)
    × ((r ≡ 0) ⊎ (is_negative r ≡ is_negative (2 ^ 64 - 7)))
    × ((q ≡ 0) ⊎ (is_negative q ≡ xor (is_negative (2 ^ 64 - 7)) (is_negative 2)))
division_example = division (2 ^ 64 - 7) 2 (omega arith) (omega arith) (omega arith) not_least

abbrev pub two_values : World
two_values = thread_world (record {
  regs = record initial_registers { evc = 2; esec = 2 };
  stack = [];
  expr_stack = int 30 ∷ int 12 ∷ replicate 2 (int 0);
})

-- IADD with two popped values.
pub popped_sum :
    interpret_binary plain_runtime iadd
      (record { opcode = 0x440300; arg1 = 0; arg2 = 0 })
      two_values
    ≡ some (
      done (int 42),
      with_context two_values (record (context_of two_values) {
        regs = record (context_of two_values).regs { evc = 0; esec = 0 };
      }),
    )
unfolding interpret_binary get_int fetch popped put_back_at int_of_cell with_two get_expr_value
    set_expr_value read_expr write_expr pop_values pop_expr_values expr_pop_arg_count2 binary give
    opcode_to_arg_type1 opcode_to_arg_type2
popped_sum = refl
