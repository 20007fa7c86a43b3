-- ===== src/Opcode/Codec.antt =====
-- include/letin/opcode.hpp: `opcode` and the five readers are inverse.
use letin.Common.{ℕ, ◌+◌, ◌-◌, ◌*◌, ◌/◌, ◌%◌, ◌^◌, ◌<◌, ◌≡◌, refl, ◌∙◌, arith, bit_and}
use letin.Common.Bits.{bit_and_mask, bit_or_fields}
use letin.Opcode.{
  opcode, opcode_to_instr, opcode_to_op, opcode_to_arg_type1, opcode_to_arg_type2,
  opcode_to_local_var_count,
}

mask_byte : (a : ℕ) → bit_and a 0xff ≡ a % 256
mask_byte a = bit_and_mask 8 a

mask_nibble : (a : ℕ) → bit_and a 0xf ≡ a % 16
mask_nibble a = bit_and_mask 4 a

-- The word as a sum of its fields.
opcode_fields :
    (i o a b n : ℕ)
    → opcode i o a b n
      ≡ i % 256
        + o % 256 * 2 ^ 8
        + a % 16 * 2 ^ 16
        + b % 16 * 2 ^ 20
        + (n + 2 ^ 32 - 2) % 256 * 2 ^ 24
unfolding opcode
opcode_fields i o a b n =
    rw (mask_byte i, mask_byte o, mask_nibble a, mask_nibble b)
      (let e1 : o % 256 * 2 ^ 8 % 2 ^ 32 ≡ o % 256 * 2 ^ 8 = omega arith in
        let e2 : a % 16 * 2 ^ 16 % 2 ^ 32 ≡ a % 16 * 2 ^ 16 = omega arith in
        let e3 : b % 16 * 2 ^ 20 % 2 ^ 32 ≡ b % 16 * 2 ^ 20 = omega arith in
        let e4 : (n + 2 ^ 32 - 2) % 2 ^ 32 * 2 ^ 24 % 2 ^ 32 ≡ (n + 2 ^ 32 - 2) % 256 * 2 ^ 24 =
          omega arith in
        rw
          (
            e1,
            e2,
            e3,
            e4,
            bit_or_fields 8 (i % 256) (o % 256) (omega arith),
            bit_or_fields 16 (i % 256 + o % 256 * 2 ^ 8) (a % 16) (omega arith),
            bit_or_fields 20 (i % 256 + o % 256 * 2 ^ 8 + a % 16 * 2 ^ 16) (b % 16) (omega arith),
            bit_or_fields 24 (i % 256 + o % 256 * 2 ^ 8 + a % 16 * 2 ^ 16 + b % 16 * 2 ^ 20)
                ((n + 2 ^ 32 - 2) % 256) (omega arith),
          )
          refl)

-- Each reader gives back the low bits of the field that `opcode` was given, whatever the fields
-- are: 8 bits of the instruction and of the operation, 4 of each argument type, and the count
-- less 2 in 8 bits.
pub opcode_readers :
    (i o a b n : ℕ)
    → (opcode_to_instr (opcode i o a b n) ≡ i % 256)
      × (opcode_to_op (opcode i o a b n) ≡ o % 256)
      × (opcode_to_arg_type1 (opcode i o a b n) ≡ a % 16)
      × (opcode_to_arg_type2 (opcode i o a b n) ≡ b % 16)
      × (opcode_to_local_var_count (opcode i o a b n) ≡ (n + 2 ^ 32 - 2) % 256 + 2)
unfolding opcode_to_instr opcode_to_op opcode_to_arg_type1 opcode_to_arg_type2
    opcode_to_local_var_count
opcode_readers i o a b n = rw (opcode_fields i o a b n) (
  mask_byte _ ∙ omega arith,
  mask_byte _ ∙ omega arith,
  mask_nibble _ ∙ omega arith,
  mask_nibble _ ∙ omega arith,
  rw mask_byte (omega arith),
)

-- Putting the fields that the readers take from a 32-bit word together again gives the word.
pub opcode_rebuilds :
    (w : ℕ)
    → w < 2 ^ 32
    → opcode
        (opcode_to_instr w)
        (opcode_to_op w)
        (opcode_to_arg_type1 w)
        (opcode_to_arg_type2 w)
        (opcode_to_local_var_count w)
      ≡ w
unfolding opcode_to_instr opcode_to_op opcode_to_arg_type1 opcode_to_arg_type2
    opcode_to_local_var_count
opcode_rebuilds w h =
    rw
      (
        opcode_fields,
        mask_byte w,
        mask_byte (w / 2 ^ 8),
        mask_nibble (w / 2 ^ 16),
        mask_nibble (w / 2 ^ 20),
        mask_byte (w / 2 ^ 24),
      )
      (omega arith)
