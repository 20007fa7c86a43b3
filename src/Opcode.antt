-- ===== src/Opcode.antt =====
-- include/letin/opcode.hpp: the 32-bit word that names an instruction, its operation, the kinds of
-- its two arguments and its number of local variables. All values are `uint32_t`.
pub mod Codec
use letin.Common.{ℕ, ◌+◌, ◌-◌, ◌*◌, ◌/◌, ◌%◌, ◌^◌, bit_and, bit_or}

abbrev pub u32 : ℕ → ℕ
u32 x = x % 2 ^ 32

-- INSTR_LET, ...
pub data Instr : Type 0 where
  let_ in_ ret jc jump arg retry lettuple throw push pop rethrow : Instr

abbrev pub instr_number : Instr → ℕ
instr_number let_ = 0x00
instr_number in_ = 0x01
instr_number ret = 0x02
instr_number jc = 0x03
instr_number jump = 0x04
instr_number arg = 0x05
instr_number retry = 0x06
instr_number lettuple = 0x07
instr_number throw = 0x08
instr_number push = 0x09
instr_number pop = 0x0a
instr_number rethrow = 0x0b

-- ARG_TYPE_LVAR, ...
abbrev pub arg_type_lvar : ℕ
arg_type_lvar = 0

abbrev pub arg_type_arg : ℕ
arg_type_arg = 1

abbrev pub arg_type_imm : ℕ
arg_type_imm = 2

abbrev pub arg_type_gvar : ℕ
arg_type_gvar = 3

abbrev pub arg_type_pop : ℕ
arg_type_pop = 4

abbrev pub arg_type_eval : ℕ
arg_type_eval = 5

unfoldable pub opcode : ℕ → ℕ → ℕ → ℕ → ℕ → ℕ
opcode instr op arg_type1 arg_type2 local_var_count =
    bit_or
      (bit_or
        (bit_or (bit_or (bit_and instr 0xff) (u32 (bit_and op 0xff * 2 ^ 8)))
          (u32 (bit_and arg_type1 0xf * 2 ^ 16)))
        (u32 (bit_and arg_type2 0xf * 2 ^ 20)))
      (u32 (u32 (local_var_count + 2 ^ 32 - 2) * 2 ^ 24))

unfoldable pub opcode_to_instr : ℕ → ℕ
opcode_to_instr w = bit_and w 0xff

unfoldable pub opcode_to_op : ℕ → ℕ
opcode_to_op w = bit_and (w / 2 ^ 8) 0xff

unfoldable pub opcode_to_arg_type1 : ℕ → ℕ
opcode_to_arg_type1 w = bit_and (w / 2 ^ 16) 0xf

unfoldable pub opcode_to_arg_type2 : ℕ → ℕ
opcode_to_arg_type2 w = bit_and (w / 2 ^ 20) 0xf

unfoldable pub opcode_to_local_var_count : ℕ → ℕ
opcode_to_local_var_count w = u32 (bit_and (w / 2 ^ 24) 0xff + 2)
