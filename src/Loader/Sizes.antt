-- ===== src/Loader/Sizes.antt =====
-- vm/impl_loader.cpp: the tests that stand before each section, and the offset after it.
use letin.Common.{
  ℕ, ◌+◌, ◌*◌, ◌/◌, ◌%◌, ◌^◌, ◌≤◌, ◌<◌, ◌≡◌, true, not, ◌&&◌, bit_or, arith, leb, ◌==◌, ap, ==_iff,
}
use native.Mathlib.Nat.{div-add-mod}
use letin.Common.Bits.{bit_or_range}
use letin.Loader.Result.{Load, ok, guard, ◌>>◌, Ensures, gives, Ensures-guard}
use letin.Loader.Format.{u32, u64, align}

-- `if(n != 0 && align(n, 8) == 0) return nullptr;`
unfoldable pub check_align : ℕ → Load (Unit {0})
check_align n = guard (not (not (n == 0) && align n 8 == 0))

-- The bytes of `count` elements of `elem` bytes, with the test that the product did not wrap.
unfoldable pub array_bytes : ℕ → ℕ → Load ℕ
unfolding check_align
array_bytes elem count = do
  let n = u64 (elem * count)
  guard (n / elem == count)
  check_align n
  ok n

-- `tmp_idx2 = tmp_idx + align(n, 8)`, the test that it did not wrap, and that it is in the buffer.
unfoldable pub advance : ℕ → ℕ → ℕ → Load ℕ
advance size idx n = do
  let step = align n 8
  let idx2 = u64 (idx + step)
  guard (leb (bit_or idx step) idx2)
  guard (leb idx2 size)
  ok idx2

-- An addition whose result is at least the `|` of its parts did not wrap.
pub add_exact64 :
    (a b : ℕ)
    → a < 2 ^ 64
    → b < 2 ^ 64
    → leb (bit_or a b) (u64 (a + b)) ≡ true
    → u64 (a + b) ≡ a + b
add_exact64 a b ha hb h = ground (arith, bit_or_range a b)

pub add_exact32 :
    (a b : ℕ)
    → a < 2 ^ 32
    → b < 2 ^ 32
    → leb (bit_or a b) (u32 (a + b)) ≡ true
    → u32 (a + b) ≡ a + b
add_exact32 a b ha hb h = ground (arith, bit_or_range a b)

align-lt : (n : ℕ) → align n 8 < 2 ^ 64
unfolding align
align-lt n = omega arith

-- Where the alignment did not wrap to 0, it is the next multiple of 8.
pub align_exact :
    (n : ℕ)
    → n < 2 ^ 64
    → (not (not (n == 0) && align n 8 == 0)) ≡ true
    → (n ≤ align n 8) × (align n 8 ≤ n + 7) × (align n 8 % 8 ≡ 0)
unfolding align
align_exact n h e = ground arith

-- A size of the section tests, with what its alignment adds.
pub record IsSize (n total : ℕ) : Type 0 where
  pub exact : n ≡ total
  pub lt : n < 2 ^ 64
  pub aligned : (not (not (n == 0) && align n 8 == 0)) ≡ true

-- A product that may have wrapped, and that divides back, did not.
pub product_exact :
    (n elem count : ℕ) → n ≤ elem * count → (n / elem == count) ≡ true → n ≡ elem * count
product_exact n elem count le h =
    let q : n / elem ≡ count = (==_iff _ _).0 h in
    omega (arith, div-add-mod n elem, ap (λ (t : ℕ). elem * t) q)

pub array_bytes-Ensures :
    (elem count : ℕ) → 0 < elem → Ensures (λ n. IsSize n (elem * count)) (array_bytes elem count)
unfolding array_bytes
array_bytes-Ensures elem count pos = Ensures-guard _ λ e. Ensures-guard _ λ f.
    gives
      (record { exact = product_exact _ elem count (omega arith) e; lt = omega arith; aligned = f })

advanced :
    (size idx n total : ℕ)
    → size < 2 ^ 64
    → idx < 2 ^ 64
    → idx % 8 ≡ 0
    → IsSize n total
    → leb (bit_or idx (align n 8)) (u64 (idx + align n 8)) ≡ true
    → leb (u64 (idx + align n 8)) size ≡ true
    → (let j = u64 (idx + align n 8) in
        (j % 8 ≡ 0) × (idx + total ≤ j) × (j ≤ idx + total + 7) × (j ≤ size))
advanced size idx n total hs hi al h e f =
    let st : align n 8 < 2 ^ 64 = align-lt n in
    ground (arith, add_exact64 idx (align n 8), align_exact n)

pub advance-Ensures :
    (size idx n total : ℕ)
    → size < 2 ^ 64
    → idx < 2 ^ 64
    → idx % 8 ≡ 0
    → IsSize n total
    → Ensures
        (λ j. (j % 8 ≡ 0) × (idx + total ≤ j) × (j ≤ idx + total + 7) × (j ≤ size))
        (advance size idx n)
unfolding advance
advance-Ensures size idx n total hs hi al h =
    Ensures-guard _ λ e. Ensures-guard _ λ f. gives (advanced size idx n total hs hi al h e f)
