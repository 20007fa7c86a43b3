-- ===== src/Tests/Words.antt =====
-- include/letin/opcode.hpp on two opcodes.
use letin.Common.{◌≡◌, arith, refl}
use letin.Opcode.{
  opcode, opcode_to_instr, opcode_to_op, opcode_to_arg_type1, opcode_to_arg_type2,
  opcode_to_local_var_count,
}
use letin.Opcode.Codec.{opcode_readers, opcode_rebuilds}

-- LET IADD, with an argument and an immediate value.
let_iadd : opcode 1 3 1 2 2 ≡ 0x210301
unfolding opcode
let_iadd = refl

opcode_readers_example :
    (opcode_to_instr (opcode 1 3 1 2 2) ≡ 1)
    × (opcode_to_op (opcode 1 3 1 2 2) ≡ 3)
    × (opcode_to_arg_type1 (opcode 1 3 1 2 2) ≡ 1)
    × (opcode_to_arg_type2 (opcode 1 3 1 2 2) ≡ 2)
    × (opcode_to_local_var_count (opcode 1 3 1 2 2) ≡ 2)
opcode_readers_example = opcode_readers 1 3 1 2 2

opcode_rebuilds_example :
    opcode
      (opcode_to_instr 0x210301)
      (opcode_to_op 0x210301)
      (opcode_to_arg_type1 0x210301)
      (opcode_to_arg_type2 0x210301)
      (opcode_to_local_var_count 0x210301)
    ≡ 0x210301
opcode_rebuilds_example = opcode_rebuilds 0x210301 (omega arith)
