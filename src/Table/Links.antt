-- ===== src/Table/Links.antt =====
-- vm/hash_table.hpp: the doubly linked lists of the buckets.
use letin.Common.{
  ℕ, ◌≡◌, ◌≢◌, refl, sym, subst, ◌∙◌, ◌⊎◌, inl, inr, Bool, true, false, List, [], ◌∷◌, ◌++◌, ◌==◌,
  if◌then◌else◌, Bool-cases, arith,
}
use letin.Gc.Headers.{put}
use letin.Gc.Chains.{
  has, has-none, has-head, has-tail, has-cases, has-ne, has-not, has-other, put_self, put-ne,
}
use letin.Table.Ops.{set_link}

-- The entries from `p` to `l`, behind the entry `b`: each once, linked both ways.
unfoldable pub Dll : (ℕ → ℕ) → (ℕ → ℕ) → ℕ → ℕ → ℕ → List ℕ → Type 0
unfolding has
Dll prv nxt b p l [] = (p ≡ 0) × (l ≡ b)
Dll prv nxt b p l (x ∷ xs) =
    (p ≡ x) × (x ≢ 0) × (has x xs ≡ false) × (prv x ≡ b) × Dll prv nxt x (nxt x) l xs

pub set_link-ne : (f : ℕ → ℕ) (p v a : ℕ) → (a == p) ≡ false → set_link f p v a ≡ f a
unfolding set_link
set_link-ne f p v a n = elim (Bool-cases (p == 0)) [
  | inl y ↦ rw y refl
  | inr z ↦ rw z (put-ne f p v a n)
]

pub set_link_self : (f : ℕ → ℕ) (p v : ℕ) → (p == 0) ≡ false → set_link f p v p ≡ v
unfolding set_link
set_link_self f p v n = rw n (put_self f p v)

pub ==_false : (a b : ℕ) → a ≢ b → (a == b) ≡ false
==_false a b n = ground arith

pub ==_flip : (a b : ℕ) → (a == b) ≡ false → (b == a) ≡ false
==_flip a b n = ground arith

pub Dll-frame :
    (prv nxt prv' nxt' : ℕ → ℕ) (b p l : ℕ) (xs : List ℕ)
    → ((a : ℕ) → has a xs ≡ true → prv' a ≡ prv a)
    → ((a : ℕ) → has a xs ≡ true → nxt' a ≡ nxt a)
    → Dll prv nxt b p l xs
    → Dll prv' nxt' b p l xs
unfolding Dll
Dll-frame prv nxt prv' nxt' b p l [] hp hn d = d
Dll-frame prv nxt prv' nxt' b p l (x ∷ xs) hp hn d = (
  d.0,
  d.1,
  d.2,
  hp x (has-head x xs) ∙ d.3,
  subst (λ q. Dll prv' nxt' x q l xs) (sym (hn x (has-head x xs)))
      (Dll-frame prv nxt prv' nxt' x (nxt x) l xs (λ a h. hp a (has-tail a x xs h))
        (λ a h. hn a (has-tail a x xs h)) (d.4)),
)

-- The last entry is one of the list, unless the list is empty.
pub Dll-last :
    (prv nxt : ℕ → ℕ) (b p l x : ℕ) (xs : List ℕ)
    → Dll prv nxt b p l (x ∷ xs)
    → has l (x ∷ xs) ≡ true
unfolding Dll
Dll-last prv nxt b p l x [] d = rw (d.4.1) (has-head x [])
Dll-last prv nxt b p l x (y ∷ ys) d =
    has-tail l x (y ∷ ys) (Dll-last prv nxt x (nxt x) l y ys (d.4))

pub Dll-nonzero :
    (prv nxt : ℕ → ℕ) (b p l a : ℕ) (xs : List ℕ) → Dll prv nxt b p l xs → has a xs ≡ true → a ≢ 0
unfolding Dll
Dll-nonzero prv nxt b p l a [] d h z = cc (has-none a, h)
Dll-nonzero prv nxt b p l a (x ∷ xs) d h z = elim (has-cases a x xs h) [
  | inl e ↦ d.1 (sym e ∙ z)
  | inr t ↦ Dll-nonzero prv nxt x (nxt x) l a xs (d.4) t z
]

-- The last entry of a list that nothing is behind is one of the list, or nil.
pub Dll-last_cases :
    (prv nxt : ℕ → ℕ) (p l : ℕ) (xs : List ℕ) → Dll prv nxt 0 p l xs → (l ≡ 0) ⊎ (has l xs ≡ true)
unfolding Dll
Dll-last_cases prv nxt p l [] d = inl (d.1)
Dll-last_cases prv nxt p l (x ∷ xs) d = inr (Dll-last prv nxt 0 p l x xs d)

pub Dll-cast :
    (prv nxt : ℕ → ℕ) (b : ℕ) {p p' l l' : ℕ} {xs xs' : List ℕ}
    → p' ≡ p
    → l' ≡ l
    → xs' ≡ xs
    → Dll prv nxt b p l xs
    → Dll prv nxt b p' l' xs'
Dll-cast prv nxt b {p} {p'} {l} {l'} {xs} {xs'} ep el exs d =
    subst (λ q. Dll prv nxt b q l' xs') (sym ep)
      (subst (λ q. Dll prv nxt b p q xs') (sym el) (subst (λ q. Dll prv nxt b p l q) (sym exs) d))

has-append_other :
    (a n : ℕ) (xs : List ℕ) → (a == n) ≡ false → has a xs ≡ false → has a (xs ++ n ∷ []) ≡ false
has-append_other a n [] ne h = has-other a n [] ne h
has-append_other a n (x ∷ xs) ne h =
    let o = has-not a x xs h in
    has-other a x (xs ++ n ∷ []) (o.0) (has-append_other a n xs ne (o.1))

-- What `add` does to the links of a bucket that is not empty.
pub Dll-append :
    (prv nxt : ℕ → ℕ) (b p l n x : ℕ) (xs : List ℕ)
    → n ≢ 0
    → has n (x ∷ xs) ≡ false
    → Dll prv nxt b p l (x ∷ xs)
    → Dll (put prv n l) (set_link (put nxt n 0) l n) b p n (x ∷ (xs ++ n ∷ []))
unfolding Dll
Dll-append prv nxt b p l n x [] nz new d =
    let ne = has-not n x [] new in
    let l_is : l ≡ x = d.4.1 in
    let x_n = ==_flip n x (ne.0) in
    let l_nz : (x == 0) ≡ false = ==_false x 0 (d.1) in
    (
      d.0,
      d.1,
      has-append_other x n [] x_n (has-none x),
      put-ne prv n l x x_n ∙ d.3,
      rw l_is (
        set_link_self (put nxt n 0) x n l_nz,
        nz,
        has-none n,
        put_self prv n x,
        (set_link-ne (put nxt n 0) x n n (ne.0) ∙ put_self nxt n 0, refl),
      ),
    )
Dll-append prv nxt b p l n x (y ∷ ys) nz new d =
    let ne = has-not n x (y ∷ ys) new in
    let x_n = ==_flip n x (ne.0) in
    let x_l = ==_flip l x (has-ne l x (y ∷ ys) (d.2) (Dll-last prv nxt x (nxt x) l y ys (d.4))) in
    let same : set_link (put nxt n 0) l n x ≡ nxt x =
      set_link-ne (put nxt n 0) l n x x_l ∙ put-ne nxt n 0 x x_n in
    (
      d.0,
      d.1,
      has-append_other x n (y ∷ ys) x_n (d.2),
      put-ne prv n l x x_n ∙ d.3,
      subst (λ q. Dll (put prv n l) (set_link (put nxt n 0) l n) x q n (y ∷ (ys ++ n ∷ [])))
          (sym same) (Dll-append prv nxt x (nxt x) l n y ys nz (ne.1) (d.4)),
    )

-- What `add` does to the links of a bucket, empty or not.
pub Dll-add :
    (prv nxt : ℕ → ℕ) (p l n : ℕ) (xs : List ℕ)
    → n ≢ 0
    → has n xs ≡ false
    → Dll prv nxt 0 p l xs
    → Dll (put prv n l) (set_link (put nxt n 0) l n) 0 (if l == 0 then n else p) n (xs ++ n ∷ [])
unfolding Dll set_link
Dll-add prv nxt p l n [] nz new d =
    rw (d.1) (refl, nz, has-none n, put_self prv n 0, (put_self nxt n 0, refl))
Dll-add prv nxt p l n (x ∷ xs) nz new d =
    let l_nz : (l == 0) ≡ false =
      ==_false l 0 (Dll-nonzero prv nxt 0 p l l (x ∷ xs) d (Dll-last prv nxt 0 p l x xs d)) in
    subst (λ q. Dll (put prv n l) (set_link (put nxt n 0) l n) 0 q n (x ∷ (xs ++ n ∷ [])))
      (sym (if-false l_nz n p)) (Dll-append prv nxt 0 p l n x xs nz new d)
  where
    if-false : {b : Bool} → b ≡ false → (a c : ℕ) → (if b then a else c) ≡ c
    if-false e a c = rw e refl
