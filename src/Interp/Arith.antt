-- ===== src/Interp/Arith.antt =====
-- vm/vm/interp_vm.cpp: the arithmetic of `interpret_op` on `std::int64_t`, as 64-bit patterns. What the
-- language leaves undefined (the quotient of the least number by -1, a shift by 64 or more) has no
-- result; signed sums, differences and products wrap around, as the compiled code does.
use letin.Common.{
  ℕ, ◌+◌, ◌-◌, ◌*◌, ◌/◌, ◌%◌, ◌^◌, Bool, true, false, not, ◌&&◌, Option, none, some, ltb, leb, ◌==◌,
  bit_and, bit_or, bit_xor, if◌then◌else◌,
}
use letin.Thread.State.{u64}
use letin.Interp.Outcome.{Outcome, done, failed, div_by_zero}

unfoldable pub is_negative : ℕ → Bool
is_negative x = leb (2 ^ 63) x

unfoldable pub magnitude : ℕ → ℕ
unfolding is_negative
magnitude x = if is_negative x then 2 ^ 64 - x else x

unfoldable pub negated : ℕ → ℕ
negated x = u64 (2 ^ 64 - x)

-- `a < b` on signed words
unfoldable pub less : ℕ → ℕ → Bool
less a b = ltb (u64 (a + 2 ^ 63)) (u64 (b + 2 ^ 63))

abbrev pub truth : Bool → ℕ
truth true = 1
truth false = 0

unfoldable pub overflows : ℕ → ℕ → Bool
overflows a b = a == 2 ^ 63 && b == 2 ^ 64 - 1

-- Division rounds towards zero, and a remainder has the sign of the dividend.
unfoldable pub quotient : ℕ → ℕ → ℕ
unfolding magnitude negated is_negative
quotient a b =
    let q = magnitude a / magnitude b in
    if is_negative a
    then (if is_negative b then q else negated q)
    else (if is_negative b then negated q else q)

unfoldable pub remainder : ℕ → ℕ → ℕ
unfolding magnitude negated is_negative
remainder a b = let r = magnitude a % magnitude b in if is_negative a then negated r else r

unfoldable pub divided : (ℕ → ℕ → ℕ) → ℕ → ℕ → Option (Outcome ℕ)
unfolding overflows
divided f a b =
    if b == 0
    then some (failed div_by_zero)
    else if overflows a b
    then none
    else some (done (f a b))

unfoldable pub shifted : (ℕ → ℕ → ℕ) → ℕ → ℕ → Option (Outcome ℕ)
shifted f a b = if ltb b 64 then some (done (f a b)) else none

-- `>>` on signed words
unfoldable pub shift_right : ℕ → ℕ → ℕ
unfolding is_negative
shift_right a k = if is_negative a then a / 2 ^ k + 2 ^ 64 - 2 ^ 64 / 2 ^ k else a / 2 ^ k

pub data IntOp : Type 0 where
  iload2 : IntOp
  iadd : IntOp
  isub : IntOp
  imul : IntOp
  idiv : IntOp
  imod : IntOp
  iand : IntOp
  ior : IntOp
  ixor : IntOp
  ishl : IntOp
  ishr : IntOp
  ishru : IntOp
  ieq : IntOp
  ine : IntOp
  ilt : IntOp
  ige : IntOp
  igt : IntOp
  ile : IntOp

unfoldable pub binary : IntOp → ℕ → ℕ → Option (Outcome ℕ)
unfolding divided shifted quotient remainder shift_right less
binary iload2 a b = some (done (bit_or (u64 (a * 2 ^ 32)) (bit_and b 0xffffffff)))
binary iadd a b = some (done (u64 (a + b)))
binary isub a b = some (done (u64 (a + 2 ^ 64 - b)))
binary imul a b = some (done (u64 (a * b)))
binary idiv a b = divided quotient a b
binary imod a b = divided remainder a b
binary iand a b = some (done (bit_and a b))
binary ior a b = some (done (bit_or a b))
binary ixor a b = some (done (bit_xor a b))
binary ishl a b = shifted (λ x k. u64 (x * 2 ^ k)) a b
binary ishr a b = shifted shift_right a b
binary ishru a b = shifted (λ x k. x / 2 ^ k) a b
binary ieq a b = some (done (truth (a == b)))
binary ine a b = some (done (truth (not (a == b))))
binary ilt a b = some (done (truth (less a b)))
binary ige a b = some (done (truth (not (less a b))))
binary igt a b = some (done (truth (less b a)))
binary ile a b = some (done (truth (not (less b a))))

pub data UnaryOp : Type 0 where
  ineg : UnaryOp
  inot : UnaryOp

unfoldable pub unary : UnaryOp → ℕ → ℕ
unfolding negated
unary ineg a = negated a
unary inot a = 2 ^ 64 - 1 - a
