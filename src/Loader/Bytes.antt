-- ===== src/Loader/Bytes.antt =====
-- Reads of the buffer that `ImplLoader::load` is given. The code converts each word in place with
-- `ntohs`, `ntohl` or `ntohll`, once, before it reads it: that is a big-endian read.
use letin.Common.{
  ℕ, zero, suc, ◌+◌, ◌*◌, ◌^◌, ◌≤◌, ◌<◌, ◌≡◌, refl, List, [], ◌∷◌, Option, none, some, arith,
  length, get_elem?, All, ap,
}
use native.Mathlib.Nat.{pow-suc}
use letin.Loader.Result.{Load, ok, fault, ◌>>=◌, Ensures, gives, Ensures-bind}

abbrev pub IsByte : ℕ → Type 0
IsByte b = b < 256

byte_or_fault : Option ℕ → Load ℕ
byte_or_fault none = fault
byte_or_fault (some b) = ok b

unfoldable pub big_endian_loop : ℕ → List ℕ → ℕ
big_endian_loop acc [] = acc
big_endian_loop acc (b ∷ xs) = big_endian_loop (acc * 256 + b) xs

unfoldable pub big_endian : List ℕ → ℕ
unfolding big_endian_loop
big_endian xs = big_endian_loop 0 xs

module _ (bs : List ℕ) where
  unfoldable pub read_byte : ℕ → Load ℕ
  unfolding byte_or_fault
  read_byte p = byte_or_fault (get_elem? bs p)

  unfoldable pub read_bytes : ℕ → ℕ → Load (List ℕ)
  unfolding read_byte
  read_bytes p zero = ok []
  read_bytes p (suc k) = do b ← read_byte p; rest ← read_bytes (p + 1) k; ok (b ∷ rest)

  -- A word of `k` bytes.
  unfoldable pub read_word : ℕ → ℕ → Load ℕ
  unfolding read_bytes big_endian
  read_word k p = do xs ← read_bytes p k; ok (big_endian xs)

  unfoldable pub read_words : ℕ → ℕ → ℕ → Load (List ℕ)
  unfolding read_word
  read_words k p zero = ok []
  read_words k p (suc n) = do w ← read_word k p; rest ← read_words k (p + k) n; ok (w ∷ rest)

pow_step : (n k : ℕ) → n * 256 ^ suc k ≡ n * 256 * 256 ^ k
pow_step n k = omega (arith, ap (λ (t : ℕ). n * t) (pow-suc 256 k))

big_endian_loop-lt :
    (acc n : ℕ) (xs : List ℕ)
    → All IsByte xs
    → acc < n
    → big_endian_loop acc xs < n * 256 ^ length xs
unfolding big_endian_loop
big_endian_loop-lt acc n [] h lt = omega arith
big_endian_loop-lt acc n (x ∷ xs) h lt =
    rw (pow_step n (length xs)) (big_endian_loop-lt (acc * 256 + x) (n * 256) xs h.1 (omega arith))

module _ (bs : List ℕ) (bytes : All IsByte bs) where
  get-IsByte :
      (xs : List ℕ) (p : ℕ)
      → All IsByte xs
      → p < length xs
      → Ensures IsByte (byte_or_fault (get_elem? xs p))
  unfolding byte_or_fault
  get-IsByte [] p h lt = elim lt [ ]
  get-IsByte (x ∷ xs) zero h lt = gives h.0
  get-IsByte (x ∷ xs) (suc p) h lt = get-IsByte xs p h.1 (omega arith)

  pub read_byte-Ensures : (p : ℕ) → p < length bs → Ensures IsByte (read_byte bs p)
  unfolding read_byte
  read_byte-Ensures p lt = get-IsByte bs p bytes lt

  pub read_bytes-Ensures :
      (p k : ℕ)
      → p + k ≤ length bs
      → Ensures (λ xs. (length xs ≡ k) × All IsByte xs) (read_bytes bs p k)
  unfolding read_bytes
  read_bytes-Ensures p zero h = gives (refl, tt)
  read_bytes-Ensures p (suc k) h = Ensures-bind (read_byte-Ensures p (omega arith)) λ b hb.
      Ensures-bind (read_bytes-Ensures (p + 1) k (omega arith))
        λ xs hx. gives (ap suc hx.0, (hb, hx.1))

  pub read_word-Ensures :
      (k p : ℕ) → p + k ≤ length bs → Ensures (λ w. w < 256 ^ k) (read_word bs k p)
  unfolding read_word big_endian
  read_word-Ensures k p h =
      Ensures-bind (read_bytes-Ensures p k h)
        λ xs hx. gives (rw (← hx.0) (omega (arith, big_endian_loop-lt 0 1 xs hx.1 (omega arith))))

  pub read_words-Ensures :
      (k p n : ℕ)
      → p + n * k ≤ length bs
      → Ensures (λ xs. (length xs ≡ n) × All (λ w. w < 256 ^ k) xs) (read_words bs k p n)
  unfolding read_words
  read_words-Ensures k p zero h = gives (refl, tt)
  read_words-Ensures k p (suc n) h = Ensures-bind (read_word-Ensures k p (omega arith)) λ w hw.
      Ensures-bind (read_words-Ensures k (p + k) n (omega arith))
        λ xs hx. gives (ap suc hx.0, (hw, hx.1))
