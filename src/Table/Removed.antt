-- ===== src/Table/Removed.antt =====
-- vm/hash_table.hpp: the entries of a bucket without the one that `del` takes out.
use letin.Common.{
  ℕ, ◌≤◌, ◌≡◌, refl, ap, subst, ◌∙◌, ◌⊎◌, inl, inr, Bool, true, false, List, [], ◌∷◌, Option, none,
  some, ◌==◌, Bool-cases, ==_iff, length, arith,
}
use letin.Gc.Headers.{put}
use letin.Gc.Chains.{has, has-none, has-head, has-first, has-tail, has-cases, has-other}
use letin.Table.Ops.{Keys, TableRaw}
use letin.Table.Links.{Dll, ==_flip}
use letin.Table.Cuts.{without, Dll-after}
use letin.Table.Held.{found}

unfoldable pub without_entry : ℕ → ℕ → (ℕ → List ℕ) → ℕ → List ℕ
unfolding put
without_entry i e cells = put cells i (without e (cells i))

unfoldable pub is_none {ℓ} : {A : Type ℓ} → Option A → Bool
is_none none = true
is_none (some a) = false

-- The entries that stay were there before.
pub has-without : (a e : ℕ) (xs : List ℕ) → has a (without e xs) ≡ true → has a xs ≡ true
unfolding without
has-without a e [] h = h
has-without a e (x ∷ xs) h = elim (Bool-cases (x == e)) [
  | inl y ↦ has-tail a x xs (rw y at h)
  | inr n ↦ elim (has-cases a x (without e xs) (rw n at h)) [
    | inl same ↦ has-first a x xs same
    | inr t ↦ has-tail a x xs (has-without a e xs t)
  ]
]

pub length-without : (e : ℕ) (xs : List ℕ) → length (without e xs) ≤ length xs
unfolding without
length-without e [] = omega arith
length-without e (x ∷ xs) =
    let rest = length-without e xs in
    elim (Bool-cases (x == e)) [ inl y ↦ rw y (omega arith) | inr n ↦ rw n (omega arith) ]

-- An entry that is once in a list is not in it any more.
pub has-without_self :
    (prv nxt : ℕ → ℕ) (b p l e : ℕ) (xs : List ℕ)
    → Dll prv nxt b p l xs
    → has e (without e xs) ≡ false
unfolding without Dll
has-without_self prv nxt b p l e [] d = has-none e
has-without_self prv nxt b p l e (x ∷ xs) d = elim (Bool-cases (x == e)) [
  | inl y ↦ rw y (subst (λ q. has q xs ≡ false) ((==_iff x e).0 y) (d.2))
  | inr n ↦ rw n (
      has-other e x (without e xs) (==_flip x e n)
        (has-without_self prv nxt x (nxt x) l e xs (d.4)))
]

pub after_cases :
    (prv nxt : ℕ → ℕ) (b p l e : ℕ) (xs : List ℕ)
    → Dll prv nxt b p l xs
    → has e xs ≡ true
    → (nxt e ≡ 0) ⊎ (has (nxt e) xs ≡ true)
after_cases prv nxt b p l e [] d h = cc (has-none e, h)
after_cases prv nxt b p l e (x ∷ xs) d h = elim (Dll-after prv nxt b p l e x xs d h) [
  | inl z ↦ inl z
  | inr m ↦ inr (has-tail (nxt e) x xs m)
]

pub le_trans : {a b c : ℕ} → a ≤ b → b ≤ c → a ≤ c
le_trans h g = omega arith

module _ {K V : Type 0} (keys : Keys K) where
  pub found-without :
      (t : TableRaw K V) (k : K) (e : ℕ) (xs : List ℕ)
      → keys.equal (t.key e) k ≡ false
      → found keys t k (without e xs) ≡ found keys t k xs
  unfolding found without
  found-without t k e [] ne = refl
  found-without t k e (x ∷ xs) ne = elim (Bool-cases (x == e)) [
    | inl y ↦ rw (y, ap (λ q. keys.equal (t.key q) k) ((==_iff x e).0 y) ∙ ne) refl
    | inr m ↦ rw (m, found-without t k e xs ne) refl
  ]

  pub found-absent :
      (t : TableRaw K V) (k : K) (xs : List ℕ)
      → ((x : ℕ) → has x xs ≡ true → keys.equal (t.key x) k ≡ false)
      → found keys t k xs ≡ 0
  unfolding found
  found-absent t k [] h = refl
  found-absent t k (x ∷ xs) h =
      rw (h x (has-head x xs)) (found-absent t k xs (λ a m. h a (has-tail a x xs m)))
