-- ===== src/Values/Size.antt =====
-- vm/vm.cpp: `object_size`, in `size_t`. How the compiler lays the headers out is a parameter; a
-- reference, a float element and a tuple element have the sizes they have on 64-bit processors.
use letin.Common.{
  ℕ, ◌+◌, ◌-◌, ◌*◌, ◌/◌, ◌^◌, ◌≤◌, ◌<◌, ◌≡◌, inl, inr, ◌⊎◌, refl, true, false, not, ◌&&◌, Option,
  none, some, ltb, ◌==◌, ==_iff, bit_or, lt→ltb, ltb→lt, ap, ◌∙◌, arith, if◌then◌else◌, Bool-cases,
}
use native.Mathlib.Nat.{div-lt_iff_lt-mul, mul-div_cancel, mul-zero}
use letin.Common.Bits.{bit_or_range}
use letin.Thread.State.{u64}
use letin.Values.{
  Kind, iarray8, iarray16, iarray32, iarray64, sfarray, dfarray, rarray, tuple, io, lazy_value,
  native_object, nil,
}

-- `offsetof(ObjectRaw, is8)`, `offsetof(ObjectRaw, lzv.args)` and `offsetof(ObjectRaw, ntvo.bs)`
pub record Layout : Type 0 where
  pub plain : ℕ
  pub lazy_args : ℕ
  pub native_bytes : ℕ

abbrev pub header_size : Layout → Kind → ℕ
header_size l lazy_value = l.lazy_args
header_size l native_object = l.native_bytes
header_size l _ = l.plain

abbrev pub elem_size : Kind → Option ℕ
elem_size iarray8 = some 1
elem_size iarray16 = some 2
elem_size iarray32 = some 4
elem_size iarray64 = some 8
elem_size sfarray = some 4
elem_size dfarray = some 8
elem_size rarray = some 8
elem_size tuple = some 9
elem_size io = some 0
elem_size lazy_value = some 16
elem_size native_object = some 1
elem_size nil = none

-- `0` where the size is not a `size_t`.
unfoldable pub sized : ℕ → ℕ → ℕ → ℕ
sized header elem count =
    let array = u64 (count * elem) in
    let size = u64 (header + array) in
    if not (elem == 0) && not (array / elem == count)
    then 0
    else if ltb size (bit_or header array)
    then 0
    else size

unfoldable pub object_size : Layout → Kind → ℕ → ℕ
unfolding sized
object_size l k count =
    if ltb (2 ^ 63 - 1) count
    then 0
    else elim (elem_size k) [ none ↦ 0 | some e ↦ sized (header_size l k) e count ]

-- The size that is meant.
abbrev exact : ℕ → ℕ → ℕ → ℕ
exact h e n = h + n * e

unfoldable pub Fits : ℕ → ℕ → ℕ → Type 0
Fits h e n = (n < 2 ^ 63) × (exact h e n < 2 ^ 64)

positive : {e : ℕ} → (e == 0) ≡ false → 0 < e
positive {e} z = ground arith

module _ (h e n : ℕ) where
  array_fits : 0 < e → n * e < 2 ^ 64 → (u64 (n * e) / e == n) ≡ true
  array_fits pos lt =
      let same : u64 (n * e) ≡ n * e = omega arith in
      rw same ((==_iff (n * e / e) n).1 (mul-div_cancel n {n = e} pos))

  array_wraps : 0 < e → 2 ^ 64 ≤ n * e → (u64 (n * e) / e == n) ≡ false
  array_wraps pos le =
      let lt : u64 (n * e) / e < n =
        (div-lt_iff_lt-mul {k = e} {x = u64 (n * e)} {y = n} pos).1 (omega arith) in
      different (u64 (n * e) / e) n lt
    where
      different : (a b : ℕ) → a < b → (a == b) ≡ false
      different a b lt = ground arith

  sum_fits : exact h e n < 2 ^ 64 → ltb (u64 (h + n * e)) (bit_or h (n * e)) ≡ false
  sum_fits lt =
      let up = (bit_or_range h (n * e)).2 in
      not_less (u64 (h + n * e)) (bit_or h (n * e)) (omega arith)
    where
      not_less : (a b : ℕ) → b ≤ a → ltb a b ≡ false
      not_less a b le = ground arith

  sum_wraps :
      h < 2 ^ 16
      → n * e < 2 ^ 64
      → 2 ^ 64 ≤ exact h e n
      → ltb (u64 (h + n * e)) (bit_or h (n * e)) ≡ true
  sum_wraps small word le =
      let low = (bit_or_range h (n * e)).1 in
      lt→ltb (u64 (h + n * e)) (bit_or h (n * e)) (omega arith)

  sized_fits : exact h e n < 2 ^ 64 → sized h e n ≡ exact h e n
  unfolding sized
  sized_fits lt =
      let same : u64 (n * e) ≡ n * e = omega arith in
      let whole : u64 (h + n * e) ≡ exact h e n = omega arith in
      elim (Bool-cases (e == 0)) [
        | inl z ↦ rw (z, same, sum_fits lt) whole
        | inr z ↦ rw (z, array_fits (positive z) (omega arith), same, sum_fits lt) whole
      ]

  sized_wraps : h < 2 ^ 16 → 2 ^ 64 ≤ exact h e n → sized h e n ≡ 0
  unfolding sized
  sized_wraps small le = elim (Bool-cases (e == 0)) [
    | inl z ↦ absurd (no_room z)
    | inr z ↦ elim (Bool-cases (ltb (n * e) (2 ^ 64))) [
      | inl l ↦
          let word : n * e < 2 ^ 64 = ltb→lt _ _ l in
          let same : u64 (n * e) ≡ n * e = omega arith in
          rw (z, array_fits (positive z) word, same, sum_wraps small word le) refl
      | inr g ↦ rw (z, array_wraps (positive z) (at_least g)) refl
    ]
  ]
    where
      no_room : (e == 0) ≡ true → ⊥
      no_room z =
          let zero_size : n * e ≡ 0 = ap (λ x. n * x) ((==_iff e 0).0 z) ∙ mul-zero n in omega arith

      at_least : ltb (n * e) (2 ^ 64) ≡ false → 2 ^ 64 ≤ n * e
      at_least g = ground arith

-- The size of an object of any kind but nil, whose header is below 2^16, for any number of elements: where
-- there are fewer than 2^63 elements, and the header with all of them is below 2^64, the answer is that sum;
-- in all other cases it is 0.
pub object_size_lem :
    (l : Layout) (k : Kind) (n e : ℕ)
    → elem_size k ≡ some e
    → header_size l k < 2 ^ 16
    → (Fits (header_size l k) e n × (object_size l k n ≡ header_size l k + n * e))
      ⊎ ((Fits (header_size l k) e n → ⊥) × (object_size l k n ≡ 0))
unfolding object_size Fits
object_size_lem l k n e is small = elim (Bool-cases (ltb (2 ^ 63 - 1) n)) [
  | inl many ↦ inr (λ f. too_many n many f.0, rw many refl)
  | inr few ↦ elim (Bool-cases (ltb (exact (header_size l k) e n) (2 ^ 64))) [
    | inl fits ↦
        let lt = ltb→lt _ _ fits in
        inl ((enough n few, lt), rw (few, is) (sized_fits (header_size l k) e n lt))
    | inr wraps ↦
        let le = at_least _ _ wraps in
        inr (λ f. less_not _ _ le f.1, rw (few, is) (sized_wraps (header_size l k) e n small le))
  ]
]
  where
    too_many : (n : ℕ) → ltb (2 ^ 63 - 1) n ≡ true → n < 2 ^ 63 → ⊥
    too_many n g lt = ground arith

    less_not : (a b : ℕ) → b ≤ a → a < b → ⊥
    less_not a b le lt = omega arith

    enough : (n : ℕ) → ltb (2 ^ 63 - 1) n ≡ false → n < 2 ^ 63
    enough n g = ground arith

    at_least : (a b : ℕ) → ltb a b ≡ false → b ≤ a
    at_least a b g = ground arith
