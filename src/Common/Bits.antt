-- ===== src/Common/Bits.antt =====
-- `|` and `&` on unsigned words, as arithmetic: fields side by side, low masks, bounds.
use Prim.Native.Nat.{
  ℕ, zero, suc, ◌+◌, ◌-◌, ◌*◌, ◌/◌, ◌%◌, ◌^◌, ◌≤◌, ◌<◌, min, max, bit_and, bit_or, digits,
  bit_and-bitwise, bit_or-bitwise,
}
use mathlib.Core.Path.{◌≡◌, refl, ap, sym, ◌∙◌}
use native.Mathlib.Omega.{arith}
use native.Mathlib.Nat.{pow-suc, one-le-pow}

-- Two runs of the digit recursion that the native operations stand for, on fuels that both suffice.
module _ (rest : ℕ → ℕ) (digit : ℕ → ℕ → ℕ) where
  more_fuel :
      (x y fuel enough : ℕ)
      → x ≤ fuel
      → x ≤ enough
      → digits rest digit enough x y ≡ digits rest digit fuel x y
  more_fuel zero y zero zero lo hi = refl
  more_fuel zero y (suc f) zero lo hi = refl
  more_fuel zero y zero (suc e) lo hi = refl
  more_fuel zero y (suc f) (suc e) lo hi = refl
  more_fuel (suc x) y zero e lo hi = elim lo [ ]
  more_fuel (suc x) y (suc f) zero lo hi = elim hi [ ]
  more_fuel (suc x) y (suc f) (suc e) lo hi =
      let half = suc x / 2 in
      ap (λ (t : ℕ). t * 2 + digit (suc x % 2) (y % 2))
        (more_fuel half (y / 2) f e (omega arith) (omega arith))

  -- One digit, where an operation is the recursion on its first argument as fuel.
  low_digit :
      (op : ℕ → ℕ → ℕ)
      → ((x y : ℕ) → op x y ≡ digits rest digit x x y)
      → (x y : ℕ) → op (suc x) y ≡ op (suc x / 2) (y / 2) * 2 + digit (suc x % 2) (y % 2)
  low_digit op is x y =
      is (suc x) y
      ∙ ap (λ (t : ℕ). t * 2 + digit (suc x % 2) (y % 2))
          (more_fuel (suc x / 2) (y / 2) (suc x / 2) x (omega arith) (omega arith)
            ∙ sym (is (suc x / 2) (y / 2)))

zero-bit_or : (y : ℕ) → bit_or 0 y ≡ y
zero-bit_or = bit_or-bitwise 0

zero-bit_and : (y : ℕ) → bit_and 0 y ≡ 0
zero-bit_and = bit_and-bitwise 0

pub bit_or_step : (a b : ℕ) → bit_or a b ≡ bit_or (a / 2) (b / 2) * 2 + max (a % 2) (b % 2)
bit_or_step zero y = omega (arith, zero-bit_or y, zero-bit_or (y / 2))
bit_or_step (suc x) y = low_digit (λ t. t) max bit_or bit_or-bitwise x y

bit_and_step : (a b : ℕ) → bit_and a b ≡ min (a % 2) (b % 2) + 2 * bit_and (a / 2) (b / 2)
bit_and_step zero y = omega (arith, zero-bit_and y, zero-bit_and (y / 2))
bit_and_step (suc x) y = omega (arith, low_digit (λ t. zero) min bit_and bit_and-bitwise x y)

-- `a | b` lies between the larger of the two and their sum.
bit_or_range_fuel : (n a b : ℕ) → a ≤ n → (a ≤ bit_or a b) × (b ≤ bit_or a b) × (bit_or a b ≤ a + b)
bit_or_range_fuel n zero b h = omega (arith, zero-bit_or b)
bit_or_range_fuel zero (suc a) b h = absurd (omega arith)
bit_or_range_fuel (suc n) (suc a) b h =
    omega (arith, bit_or_step (suc a) b, bit_or_range_fuel n (suc a / 2) (b / 2) (omega arith))

pub bit_or_range : (a b : ℕ) → (a ≤ bit_or a b) × (b ≤ bit_or a b) × (bit_or a b ≤ a + b)
bit_or_range a b = bit_or_range_fuel a a b (omega arith)

bit_or-zero : (n a : ℕ) → a ≤ n → bit_or a 0 ≡ a
bit_or-zero n zero h = refl
bit_or-zero zero (suc a) h = absurd (omega arith)
bit_or-zero (suc n) (suc a) h =
    omega (arith, bit_or_step (suc a) 0, bit_or-zero n (suc a / 2) (omega arith))

bit_or_comm_fuel : (n a b : ℕ) → a ≤ n → bit_or a b ≡ bit_or b a
bit_or_comm_fuel n zero b h = omega (arith, zero-bit_or b, bit_or-zero b b (omega arith))
bit_or_comm_fuel zero (suc a) b h = absurd (omega arith)
bit_or_comm_fuel (suc n) (suc a) b h = omega (
  arith,
  bit_or_step (suc a) b,
  bit_or_step b (suc a),
  bit_or_comm_fuel n (suc a / 2) (b / 2) (omega arith),
)

pub bit_or_comm : (a b : ℕ) → bit_or a b ≡ bit_or b a
bit_or_comm a b = bit_or_comm_fuel a a b (omega arith)

two_pow_suc : (k : ℕ) → 2 ^ suc k ≡ 2 ^ k * 2
two_pow_suc k = omega (arith, pow-suc 2 k)

mul-two_pow_suc : (q k : ℕ) → q * 2 ^ suc k ≡ q * 2 ^ k * 2
mul-two_pow_suc q k = omega (arith, ap (λ (t : ℕ). q * t) (two_pow_suc k))

-- A field of `k` low bits and one above it: `r | (q << k)`.
pub bit_or_fields : (k r q : ℕ) → r < 2 ^ k → bit_or r (q * 2 ^ k) ≡ r + q * 2 ^ k
bit_or_fields zero r q h = let e : r ≡ 0 = omega arith in ground (arith, zero-bit_or (q * 1))
bit_or_fields (suc k) r q h = ground (
  arith,
  two_pow_suc k,
  mul-two_pow_suc q k,
  bit_or_step r (q * 2 ^ suc k),
  bit_or_fields k (r / 2) q (omega (arith, two_pow_suc k)),
)

no_bits : (x fuel : ℕ) → x ≤ fuel → 0 ≡ bit_and x 0
no_bits zero fuel le = refl
no_bits (suc x) zero le = elim le [ ]
no_bits (suc x) (suc fuel) le =
    let below = no_bits (suc x / 2) fuel (omega arith) in
    omega (arith, below, bit_and_step (suc x) 0)

bit_and_fields : (k q r : ℕ) → r < 2 ^ k → bit_and (q * 2 ^ k + r) (2 ^ k - 1) ≡ r
bit_and_fields zero q r h = omega (arith, no_bits (q * 1 + r) (q * 1 + r) (omega arith))
bit_and_fields (suc k) q r h = ground (
  arith,
  two_pow_suc k,
  mul-two_pow_suc q k,
  one-le-pow k 2,
  bit_and_step (q * 2 ^ suc k + r) (2 ^ suc k - 1),
  bit_and_fields k q (r / 2) (omega (arith, two_pow_suc k)),
)

-- A mask of `k` low bits is the remainder by `2 ^ k`.
pub bit_and_mask : (k a : ℕ) → bit_and a (2 ^ k - 1) ≡ a % 2 ^ k
bit_and_mask k a = ground (arith, one-le-pow k 2, bit_and_fields k (a / 2 ^ k) (a % 2 ^ k))
