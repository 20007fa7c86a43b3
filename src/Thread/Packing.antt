-- ===== src/Thread/Packing.antt =====
-- vm/vm.cpp: the word of a frame that holds the function index and two flags.
use letin.Common.{ℕ, ◌+◌, ◌-◌, ◌*◌, ◌/◌, ◌%◌, ◌^◌, ◌<◌, ◌≡◌, ◌⊎◌, bit_or, arith}
use letin.Common.Bits.{bit_or_step, bit_or_comm, bit_or_fields}
use letin.Thread.Calls.{pack_fp, unpack_fp}
use letin.Thread.State.{Registers, u64}

-- The parts of the word do not overlap.
or_flag : (a x c i : ℕ) → c < 2 → i < 2 → a ≡ x * 256 + i → bit_or a (c * 2) ≡ x * 256 + c * 2 + i
or_flag a x c i hc hi e =
    let half : a / 2 ≡ x * 2 ^ 7 = omega arith in
    let same : c * 2 / 2 ≡ c = omega arith in
    let up : bit_or (a / 2) (c * 2 / 2) ≡ c + x * 2 ^ 7 =
      rw (half, same, bit_or_comm (x * 2 ^ 7) c) (bit_or_fields 7 c x (omega arith)) in
    omega (arith, bit_or_step a (c * 2))

or_parts : (x c i : ℕ) → c < 2 → i < 2 → bit_or (bit_or (x * 256) i) (c * 2) ≡ x * 256 + c * 2 + i
or_parts x c i hc hi =
    let low : bit_or (x * 256) i ≡ x * 256 + i =
      rw (bit_or_comm (x * 256) i) (omega (arith, bit_or_fields 8 i x (omega arith))) in
    or_flag (bit_or (x * 256) i) x c i hc hi low

pub pack_fp_lem :
    (r : Registers)
    → pack_fp r
      ≡ r.fp % 2 ^ 56 * 256 + r.cached_fun_result_flag % 2 * 2 + r.after_leaving_flag_index % 2
unfolding pack_fp
pack_fp_lem r =
    let e : u64 (r.fp * 2 ^ 8) ≡ r.fp % 2 ^ 56 * 256 = omega arith in
    rw e (
      or_parts (r.fp % 2 ^ 56) (r.cached_fun_result_flag % 2) (r.after_leaving_flag_index % 2)
        (omega arith) (omega arith))

-- A function index, or -1 for none, comes back, and so do the two flags.
pub unpack-pack :
    (r : Registers)
    → (r.fp < 2 ^ 55) ⊎ (r.fp ≡ 2 ^ 64 - 1)
    → (unpack_fp (pack_fp r) ≡ r.fp)
      × (pack_fp r % 2 ≡ r.after_leaving_flag_index % 2)
      × (pack_fp r / 2 % 2 ≡ r.cached_fun_result_flag % 2)
unfolding unpack_fp
unpack-pack r h = rw (pack_fp_lem r) (ground arith)
