-- ===== src/Interp/Words.antt =====
-- vm/vm/interp_vm.cpp: the results of the arithmetic of `interpret_op` are words, and division rounds
-- towards zero.
use letin.Common.{
  ℕ, ◌+◌, ◌*◌, ◌/◌, ◌%◌, ◌^◌, ◌≤◌, ◌<◌, ◌≡◌, refl, inl, inr, ◌⊎◌, Bool, true, false, not, some,
  ◌==◌, arith, if◌then◌else◌, Bool-cases,
}
use native.Mathlib.Nat.{div-lt_iff_lt-mul, mod-lt, div-add-mod}
use letin.Interp.Arith.{
  is_negative, magnitude, negated, overflows, quotient, remainder, divided, idiv, imod, binary,
}
use letin.Interp.Outcome.{done}

magnitude-negated : (x : ℕ) → x ≤ 2 ^ 63 → magnitude (negated x) ≡ x
unfolding magnitude negated is_negative
magnitude-negated x h = ground arith

magnitude_small : (x : ℕ) → x < 2 ^ 63 → magnitude x ≡ x
unfolding magnitude is_negative
magnitude_small x h = ground arith

magnitude_range :
    (x : ℕ)
    → x < 2 ^ 64
    → (magnitude x ≤ 2 ^ 63)
      × (is_negative x ≡ false → x < 2 ^ 63)
      × (is_negative x ≡ false → magnitude x ≡ x)
unfolding magnitude is_negative
magnitude_range x h = ground arith

quotient_le : (x y : ℕ) → x ≤ 2 ^ 63 → 0 < y → x / y ≤ 2 ^ 63
quotient_le x y h pos =
    let lt : x / y < 2 ^ 63 + 1 =
      (div-lt_iff_lt-mul {k = y} {x = x} {y = 2 ^ 63 + 1} pos).1 (omega arith) in
    omega arith

quotient_lt : (x y : ℕ) → x ≤ 2 ^ 63 → 0 < y → (x < 2 ^ 63) ⊎ (2 ≤ y) → x / y < 2 ^ 63
quotient_lt x y h pos small = (div-lt_iff_lt-mul {k = y} {x = x} {y = 2 ^ 63} pos).1 (omega arith)

abbrev pub xor : Bool → Bool → Bool
xor a b = if a then not b else b

-- The sign of a negated magnitude.
negated_sign : (x : ℕ) → x ≤ 2 ^ 63 → (negated x ≡ 0) ⊎ (is_negative (negated x) ≡ true)
unfolding negated is_negative
negated_sign x h = ground arith

sign_small : (x : ℕ) → x < 2 ^ 63 → is_negative x ≡ false
unfolding is_negative
sign_small x h = ground arith

magnitude_pos : (b : ℕ) → b < 2 ^ 64 → 0 < b → 0 < magnitude b
unfolding magnitude is_negative
magnitude_pos b h pos = ground arith

-- The one quotient that is not a word.
no_overflow :
    (a b : ℕ)
    → a < 2 ^ 64
    → b < 2 ^ 64
    → 0 < b
    → overflows a b ≡ false
    → is_negative a ≡ true
    → is_negative b ≡ true
    → (magnitude a < 2 ^ 63) ⊎ (2 ≤ magnitude b)
unfolding overflows magnitude is_negative
no_overflow a b ha hb pos o na nb = ground arith

abbrev ratio : ℕ → ℕ → ℕ
ratio a b = magnitude a / magnitude b

quotient_same :
    (a b : ℕ) (s : Bool) → is_negative a ≡ s → is_negative b ≡ s → quotient a b ≡ ratio a b
unfolding quotient
quotient_same a b true x y = rw (x, y) refl
quotient_same a b false x y = rw (x, y) refl

quotient_other :
    (a b : ℕ) (s : Bool)
    → is_negative a ≡ s
    → is_negative b ≡ not s
    → quotient a b ≡ negated (ratio a b)
unfolding quotient
quotient_other a b true x y = rw (x, y) refl
quotient_other a b false x y = rw (x, y) refl

remainder_negative :
    (a b : ℕ) → is_negative a ≡ true → remainder a b ≡ negated (magnitude a % magnitude b)
unfolding remainder
remainder_negative a b x = rw x refl

remainder_positive : (a b : ℕ) → is_negative a ≡ false → remainder a b ≡ magnitude a % magnitude b
unfolding remainder
remainder_positive a b x = rw x refl

HasRatio : ℕ → ℕ → Type 0
HasRatio a b =
    (magnitude (quotient a b) ≡ magnitude a / magnitude b)
    × ((quotient a b ≡ 0) ⊎ (is_negative (quotient a b) ≡ xor (is_negative a) (is_negative b)))

quotient-HasRatio :
    (a b : ℕ) → a < 2 ^ 64 → b < 2 ^ 64 → 0 < b → overflows a b ≡ false → HasRatio a b
unfolding HasRatio
quotient-HasRatio a b ha hb pos o =
    let q = magnitude a / magnitude b in
    let (ma, pa, sa) = magnitude_range a ha in
    let mb = magnitude_pos b hb pos in
    let le = quotient_le (magnitude a) (magnitude b) ma mb in
    elim (Bool-cases (is_negative a)) [
      | inl x ↦ elim (Bool-cases (is_negative b)) [
        | inl y ↦
            let lt =
              quotient_lt (magnitude a) (magnitude b) ma mb (no_overflow a b ha hb pos o x y) in
            rw (quotient_same a b true x y, x, y) (magnitude_small q lt, inr (sign_small q lt))
        | inr y ↦ rw (quotient_other a b true x y, x, y) (magnitude-negated q le, negated_sign q le)
      ]
      | inr x ↦ elim (Bool-cases (is_negative b)) [
        | inl y ↦
            rw (quotient_other a b false x y, x, y) (magnitude-negated q le, negated_sign q le)
        | inr y ↦
            let small : magnitude a < 2 ^ 63 = omega (arith, pa x, sa x) in
            let lt = quotient_lt (magnitude a) (magnitude b) ma mb (inl small) in
            rw (quotient_same a b false x y, x, y) (magnitude_small q lt, inr (sign_small q lt))
      ]
    ]

HasRest : ℕ → ℕ → Type 0
HasRest a b =
    (magnitude (remainder a b) ≡ magnitude a % magnitude b)
    × ((remainder a b ≡ 0) ⊎ (is_negative (remainder a b) ≡ is_negative a))

remainder-HasRest : (a b : ℕ) → a < 2 ^ 64 → b < 2 ^ 64 → 0 < b → HasRest a b
unfolding HasRest
remainder-HasRest a b ha hb pos =
    let r = magnitude a % magnitude b in
    let mb = (magnitude_range b hb).0 in
    let lt = mod-lt (magnitude a) {m = magnitude b} (magnitude_pos b hb pos) in
    elim (Bool-cases (is_negative a)) [
      | inl x ↦
          rw (remainder_negative a b x, x)
            (magnitude-negated r (omega arith), negated_sign r (omega arith))
      | inr x ↦
          rw (remainder_positive a b x, x)
            (magnitude_small r (omega arith), inr (sign_small r (omega arith)))
    ]

-- Division of two words as signed numbers, with a divisor that is not zero and not of the least number
-- by -1, gives a quotient and a remainder. Quotient times divisor plus remainder is the dividend, as
-- magnitudes; the remainder is smaller than the divisor and has the sign of the dividend, or is zero;
-- the quotient, when not zero, is negative where just one of the two is.
pub division :
    (a b : ℕ)
    → a < 2 ^ 64
    → b < 2 ^ 64
    → 0 < b
    → overflows a b ≡ false
    → (q : ℕ) × (r : ℕ) × (binary idiv a b ≡ some (done q))
      × (binary imod a b ≡ some (done r))
      × (magnitude b * magnitude q + magnitude r ≡ magnitude a)
      × (magnitude r < magnitude b)
      × ((r ≡ 0) ⊎ (is_negative r ≡ is_negative a))
      × ((q ≡ 0) ⊎ (is_negative q ≡ xor (is_negative a) (is_negative b)))
unfolding binary divided HasRatio HasRest
division a b ha hb pos o =
    let (mq, sq) = quotient-HasRatio a b ha hb pos o in
    let (mr, sr) = remainder-HasRest a b ha hb pos in
    let z : (b == 0) ≡ false = ground arith in
    (
      quotient a b,
      remainder a b,
      rw (z, o) refl,
      rw (z, o) refl,
      rw (mq, mr) (div-add-mod (magnitude a) (magnitude b)),
      rw mr (mod-lt (magnitude a) {m = magnitude b} (magnitude_pos b hb pos)),
      sr,
      sq,
    )
