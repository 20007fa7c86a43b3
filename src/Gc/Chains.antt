-- ===== src/Gc/Chains.antt =====
-- vm/gc/mark_sweep_gc.hpp: lists of headers linked by a field, and the lists of addresses they are.
use letin.Common.{
  ℕ, ◌+◌, ◌≤◌, ◌<◌, ◌≡◌, ◌≢◌, refl, sym, ap, subst, ◌∙◌, ◌⊎◌, ◌↔◌, inl, inr, Bool, true, false,
  List, [], ◌∷◌, Option, some, ◌==◌, ◌||◌, if◌then◌else◌, Bool-cases, ==_iff, length, arith,
}
use letin.Gc.Headers.{put, is_some}

unfoldable pub has : ℕ → List ℕ → Bool
has p [] = false
has p (x ∷ xs) = (p == x) || has p xs

unfoldable pub keep : (ℕ → Bool) → List ℕ → List ℕ
keep f [] = []
keep f (x ∷ xs) = if f x then x ∷ keep f xs else keep f xs

-- The headers from `p` on along `next`, each once, up to `_S_nil`.
unfoldable pub Chain : (ℕ → ℕ) → ℕ → List ℕ → Type 0
unfolding has
Chain next p [] = p ≡ 0
Chain next p (x ∷ xs) = (p ≡ x) × (x ≢ 0) × (has x xs ≡ false) × Chain next (next x) xs

-- The headers from `p` on along `prev`, up to `_S_nil`.
unfoldable pub StackIs : (ℕ → Option ℕ) → ℕ → List ℕ → Type 0
StackIs prev p [] = p ≡ 0
StackIs prev p (x ∷ xs) = (p ≡ x) × (x ≢ 0) × (q : ℕ) × (prev x ≡ some q) × StackIs prev q xs

-- How many of the addresses are not marked.
unfoldable pub unmarked : (ℕ → Option ℕ) → List ℕ → ℕ
unmarked prev [] = 0
unmarked prev (x ∷ xs) = (if is_some (prev x) then 0 else 1) + unmarked prev xs

pub put_self {ℓ} : {A : Type ℓ} (f : ℕ → A) (p : ℕ) (v : A) → put f p v p ≡ v
unfolding put
put_self f p v = rw ((==_iff p p).1 refl) refl

pub put-ne {ℓ} :
    {A : Type ℓ} (f : ℕ → A) (p : ℕ) (v : A) (a : ℕ) → (a == p) ≡ false → put f p v a ≡ f a
unfolding put
put-ne f p v a ne = rw ne refl

pub has-none : (p : ℕ) → has p [] ≡ false
unfolding has
has-none p = refl

pub has-head : (x : ℕ) (xs : List ℕ) → has x (x ∷ xs) ≡ true
unfolding has
has-head x xs = rw ((==_iff x x).1 refl) refl

pub has-first : (a x : ℕ) (xs : List ℕ) → a ≡ x → has a (x ∷ xs) ≡ true
has-first a x xs e = ap (λ q. has q (x ∷ xs)) e ∙ has-head x xs

pub has-tail : (p x : ℕ) (xs : List ℕ) → has p xs ≡ true → has p (x ∷ xs) ≡ true
unfolding has
has-tail p x xs h = elim (Bool-cases (p == x)) [ inl y ↦ rw y refl | inr n ↦ rw (n, h) refl ]

pub has-cases : (p x : ℕ) (xs : List ℕ) → has p (x ∷ xs) ≡ true → (p ≡ x) ⊎ (has p xs ≡ true)
unfolding has
has-cases p x xs h = elim (Bool-cases (p == x)) [
  | inl y ↦ inl ((==_iff p x).0 y)
  | inr n ↦ inr (rw n at h)
]

-- An address of the list is not one that the list has not.
pub has-ne : (p x : ℕ) (xs : List ℕ) → has x xs ≡ false → has p xs ≡ true → (p == x) ≡ false
has-ne p x xs out h = elim (Bool-cases (p == x)) [
  | inr n ↦ n
  | inl y ↦ cc (out, rw ((==_iff p x).0 y) at h)
]

pub has-out :
    (p x : ℕ) (xs : List ℕ) → has p (x ∷ xs) ≡ false → ((x == p) ≡ false) × (has p xs ≡ false)
unfolding has
has-out p x xs h = elim (Bool-cases (x == p)) [
  | inl y ↦ elim (Bool-cases (p == x)) [
    | inl z ↦ cc (rw z at h)
    | inr z ↦ cc (z, (==_iff p x).1 (sym ((==_iff x p).0 y)))
  ]
  | inr n ↦ elim (Bool-cases (p == x)) [ inl z ↦ cc (rw z at h) | inr z ↦ (n, rw z at h) ]
]

pub has-not :
    (p x : ℕ) (xs : List ℕ) → has p (x ∷ xs) ≡ false → ((p == x) ≡ false) × (has p xs ≡ false)
unfolding has
has-not p x xs h = elim (Bool-cases (p == x)) [ inl z ↦ cc (rw z at h) | inr z ↦ (z, rw z at h) ]

pub has-other :
    (p x : ℕ) (xs : List ℕ) → (p == x) ≡ false → has p xs ≡ false → has p (x ∷ xs) ≡ false
unfolding has
has-other p x xs n h = rw (n, h) refl

pub has-keep : (f : ℕ → Bool) (p : ℕ) (xs : List ℕ) → has p xs ≡ false → has p (keep f xs) ≡ false
unfolding keep has
has-keep f p [] h = refl
has-keep f p (x ∷ xs) h =
    let o = has-not p x xs h in
    let rest = has-keep f p xs (o.1) in
    elim (Bool-cases (f x)) [ inl y ↦ rw (y, o.0) rest | inr n ↦ rw n rest ]

pub keep-agree :
    (f g : ℕ → Bool) (xs : List ℕ) → ((p : ℕ) → has p xs ≡ true → f p ≡ g p) → keep f xs ≡ keep g xs
unfolding keep
keep-agree f g [] h = refl
keep-agree f g (x ∷ xs) h =
    rw (h x (has-head x xs), keep-agree f g xs (λ p e. h p (has-tail p x xs e))) refl

has-keep_in :
    (f : ℕ → Bool) (p : ℕ) (xs : List ℕ)
    → has p (keep f xs) ≡ true
    → (has p xs ≡ true) × (f p ≡ true)
unfolding keep
has-keep_in f p [] h = cc (has-none p, h)
has-keep_in f p (x ∷ xs) h = elim (Bool-cases (f x)) [
  | inl y ↦ elim (has-cases p x (keep f xs) (rw y at h)) [
    | inl e ↦ (rw e (has-head x xs), rw e y)
    | inr t ↦ let r = has-keep_in f p xs t in (has-tail p x xs (r.0), r.1)
  ]
  | inr n ↦ let r = has-keep_in f p xs (rw n at h) in (has-tail p x xs (r.0), r.1)
]

has-keep_of :
    (f : ℕ → Bool) (p : ℕ) (xs : List ℕ) → has p xs ≡ true → f p ≡ true → has p (keep f xs) ≡ true
unfolding keep
has-keep_of f p [] h fp = h
has-keep_of f p (x ∷ xs) h fp = elim (has-cases p x xs h) [
  | inl e ↦ rw (sym (ap f e) ∙ fp) (rw e (has-head x (keep f xs)))
  | inr t ↦
      let r = has-keep_of f p xs t fp in
      elim (Bool-cases (f x)) [ inl y ↦ rw y (has-tail p x (keep f xs) r) | inr n ↦ rw n r ]
]

-- An address is kept when it is in the list and passes the test.
pub has-keep_iff :
    (f : ℕ → Bool) (p : ℕ) (xs : List ℕ)
    → (has p (keep f xs) ≡ true) ↔ ((has p xs ≡ true) × (f p ≡ true))
has-keep_iff f p xs = (has-keep_in f p xs, λ h. has-keep_of f p xs (h.0) (h.1))

pub Chain-put :
    (next : ℕ → ℕ) (a v p : ℕ) (xs : List ℕ)
    → has a xs ≡ false
    → Chain next p xs
    → Chain (put next a v) p xs
unfolding Chain has
Chain-put next a v p [] out h = h
Chain-put next a v p (x ∷ xs) out h =
    let o = has-out a x xs out in
    (
      h.0,
      h.1,
      h.2,
      subst (λ q. Chain (put next a v) q xs) (sym (put-ne next a v x (o.0)))
          (Chain-put next a v (next x) xs (o.1) (h.3)),
    )

pub StackIs-put :
    (prev : ℕ → Option ℕ) (a : ℕ) (v : Option ℕ) (p : ℕ) (xs : List ℕ)
    → is_some (prev a) ≡ false
    → StackIs prev p xs
    → StackIs (put prev a v) p xs
unfolding StackIs
StackIs-put prev a v p [] out h = h
StackIs-put prev a v p (x ∷ xs) out h =
    let q = h.2 in
    let e = h.3 in
    (
      h.0,
      h.1,
      q,
      elim (Bool-cases (x == a)) [
        | inl y ↦ cc (e, out, (==_iff x a).0 y)
        | inr n ↦ put-ne prev a v x n ∙ e
      ],
      StackIs-put prev a v q xs out (h.4),
    )

pub unmarked-put_le :
    (prev : ℕ → Option ℕ) (a v : ℕ) (us : List ℕ)
    → unmarked (put prev a (some v)) us ≤ unmarked prev us
unfolding unmarked
unmarked-put_le prev a v [] = omega arith
unmarked-put_le prev a v (x ∷ us) =
    let rest = unmarked-put_le prev a v us in
    elim (Bool-cases (x == a)) [
      | inl y ↦ rw ((==_iff x a).0 y, put_self prev a (some v)) ground arith
      | inr n ↦ rw (put-ne prev a (some v) x n) omega arith
    ]

pub unmarked-put_lt :
    (prev : ℕ → Option ℕ) (a v : ℕ) (us : List ℕ)
    → has a us ≡ true
    → is_some (prev a) ≡ false
    → unmarked (put prev a (some v)) us < unmarked prev us
unfolding unmarked has
unmarked-put_lt prev a v [] h m = cc
unmarked-put_lt prev a v (x ∷ us) h m = elim (Bool-cases (x == a)) [
  | inl y ↦
      let e = (==_iff x a).0 y in
      let le = unmarked-put_le prev a v us in rw (e, put_self prev a (some v), m) omega arith
  | inr n ↦
      let rest =
        unmarked-put_lt prev a v us
          (elim (has-cases a x us h) [ inl e ↦ cc (n, (==_iff x a).1 (sym e)) | inr t ↦ t ]) m in
      rw (put-ne prev a (some v) x n) omega arith
]

pub unmarked-length : (prev : ℕ → Option ℕ) (us : List ℕ) → unmarked prev us ≤ length us
unfolding unmarked
unmarked-length prev [] = omega arith
unmarked-length prev (x ∷ us) = let rest = unmarked-length prev us in ground arith
