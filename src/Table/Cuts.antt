-- ===== src/Table/Cuts.antt =====
-- vm/hash_table.hpp: what `del` does to the links of a bucket.
use letin.Common.{
  ℕ, ◌≡◌, ◌≢◌, refl, sym, ap, subst, ◌∙◌, ◌⊎◌, inl, inr, true, false, List, [], ◌∷◌, ◌==◌,
  if◌then◌else◌, Bool-cases, ==_iff,
}
use letin.Gc.Headers.{put}
use letin.Gc.Chains.{
  has, has-none, has-head, has-first, has-tail, has-cases, has-ne, has-not, has-other, put-ne,
}
use letin.Table.Ops.{set_link}
use letin.Table.Links.{Dll, set_link-ne, set_link_self, ==_false, ==_flip, Dll-frame, Dll-last}

unfoldable pub without : ℕ → List ℕ → List ℕ
without e [] = []
without e (x ∷ xs) = if x == e then xs else x ∷ without e xs

-- The links once `e` is taken out.
unfoldable pub cut_prev : (ℕ → ℕ) → (ℕ → ℕ) → ℕ → ℕ → ℕ
unfolding put set_link
cut_prev prv nxt e = put (set_link prv (nxt e) (prv e)) e 0

unfoldable pub cut_next : (ℕ → ℕ) → (ℕ → ℕ) → ℕ → ℕ → ℕ
unfolding put set_link
cut_next prv nxt e = put (set_link nxt (prv e) (nxt e)) e 0

pub has-without_not : (a e : ℕ) (xs : List ℕ) → has a xs ≡ false → has a (without e xs) ≡ false
unfolding without
has-without_not a e [] h = h
has-without_not a e (x ∷ xs) h =
    let o = has-not a x xs h in
    elim (Bool-cases (x == e)) [
      | inl y ↦ rw y (o.1)
      | inr n ↦ rw n (has-other a x (without e xs) (o.0) (has-without_not a e xs (o.1)))
    ]

module _ (prv nxt : ℕ → ℕ) where
  pub cut_prev-ne :
      (e a : ℕ) → (a == e) ≡ false → (a == nxt e) ≡ false → cut_prev prv nxt e a ≡ prv a
  unfolding cut_prev
  cut_prev-ne e a ne nn =
      put-ne (set_link prv (nxt e) (prv e)) e 0 a ne ∙ set_link-ne prv (nxt e) (prv e) a nn

  cut_prev-at :
      (e : ℕ) → (nxt e == 0) ≡ false → (nxt e == e) ≡ false → cut_prev prv nxt e (nxt e) ≡ prv e
  unfolding cut_prev
  cut_prev-at e nz ne =
      put-ne (set_link prv (nxt e) (prv e)) e 0 (nxt e) ne ∙ set_link_self prv (nxt e) (prv e) nz

  pub cut_next-ne :
      (e a : ℕ) → (a == e) ≡ false → (a == prv e) ≡ false → cut_next prv nxt e a ≡ nxt a
  unfolding cut_next
  cut_next-ne e a ne np =
      put-ne (set_link nxt (prv e) (nxt e)) e 0 a ne ∙ set_link-ne nxt (prv e) (nxt e) a np

  cut_next-at :
      (e : ℕ) → (prv e == 0) ≡ false → (prv e == e) ≡ false → cut_next prv nxt e (prv e) ≡ nxt e
  unfolding cut_next
  cut_next-at e nz ne =
      put-ne (set_link nxt (prv e) (nxt e)) e 0 (prv e) ne ∙ set_link_self nxt (prv e) (nxt e) nz

  -- The entry before `e` is `b`, or one of the list.
  pub Dll-before :
      (b p l e : ℕ) (xs : List ℕ)
      → Dll prv nxt b p l xs
      → has e xs ≡ true
      → ((p ≡ e) × (prv e ≡ b)) ⊎ (((p == e) ≡ false) × (has (prv e) xs ≡ true))
  unfolding Dll
  Dll-before b p l e [] d h = cc (has-none e, h)
  Dll-before b p l e (x ∷ xs) d h = elim (has-cases e x xs h) [
    | inl same ↦ inl (d.0 ∙ sym same, ap prv same ∙ d.3)
    | inr t ↦
        let p_e = ap (λ q. q == e) (d.0) ∙ ==_flip e x (has-ne e x xs (d.2) t) in
        elim (Dll-before x (nxt x) l e xs (d.4) t) [
          | inl c ↦ inr (p_e, has-first (prv e) x xs (c.1))
          | inr c ↦ inr (p_e, has-tail (prv e) x xs (c.1))
        ]
  ]

  -- The entry after `e` is nil, or one of the list that is not the first.
  pub Dll-after :
      (b p l e x : ℕ) (xs : List ℕ)
      → Dll prv nxt b p l (x ∷ xs)
      → has e (x ∷ xs) ≡ true
      → (nxt e ≡ 0) ⊎ (has (nxt e) xs ≡ true)
  unfolding Dll
  Dll-after b p l e x [] d h = elim (has-cases e x [] h) [
    | inl same ↦ inl (ap nxt same ∙ d.4.0)
    | inr t ↦ cc (has-none e, t)
  ]
  Dll-after b p l e x (y ∷ ys) d h = elim (has-cases e x (y ∷ ys) h) [
    | inl same ↦ inr (has-first (nxt e) y ys (ap nxt same ∙ d.4.0))
    | inr t ↦ elim (Dll-after x (nxt x) l e y ys (d.4) t) [
      | inl z ↦ inl z
      | inr m ↦ inr (has-tail (nxt e) y ys m)
    ]
  ]

  Dll-cut_head :
      (b p l x : ℕ) (xs : List ℕ)
      → has b (x ∷ xs) ≡ false
      → Dll prv nxt b p l (x ∷ xs)
      → Dll (cut_prev prv nxt x) (cut_next prv nxt x) b (nxt x) (if l == x then prv x else l) xs
  unfolding Dll
  Dll-cut_head b p l x [] out d = (d.4.0, rw ((==_iff l x).1 (d.4.1)) (d.3))
  Dll-cut_head b p l x (y ∷ ys) out d =
      let l_x = has-ne l x (y ∷ ys) (d.2) (Dll-last prv nxt x (nxt x) l y ys (d.4)) in
      let x_out = has-not x y ys (d.2) in
      let b_out = has-not b y ys ((has-not b x (y ∷ ys) out).1) in
      let y_x = ==_flip x y (x_out.0) in
      let is_y : nxt x ≡ y = d.4.0 in
      let nz : (nxt x == 0) ≡ false = ap (λ q. q == 0) is_y ∙ ==_false y 0 (d.4.1) in
      let ne : (nxt x == x) ≡ false = ap (λ q. q == x) is_y ∙ y_x in
      let keeps_next : (a : ℕ) → has a (y ∷ ys) ≡ true → cut_next prv nxt x a ≡ nxt a = λ a h.
        cut_next-ne x a (has-ne a x (y ∷ ys) (d.2) h)
          (ap (λ q. a == q) (d.3) ∙ has-ne a b (y ∷ ys) ((has-not b x (y ∷ ys) out).1) h) in
      rw l_x (
        is_y,
        d.4.1,
        d.4.2,
        ap (cut_prev prv nxt x) (sym is_y) ∙ cut_prev-at x nz ne ∙ d.3,
        subst (λ q. Dll (cut_prev prv nxt x) (cut_next prv nxt x) y q l ys)
            (sym (keeps_next y (has-head y ys)))
            (Dll-frame prv nxt (cut_prev prv nxt x) (cut_next prv nxt x) y (nxt y) l ys
              (λ a h.
                cut_prev-ne x a (has-ne a x ys (x_out.1) h)
                  (ap (λ q. a == q) is_y ∙ has-ne a y ys (d.4.2) h))
              (λ a h. keeps_next a (has-tail a y ys h)) (d.4.4)),
      )

  Dll-cut_first :
      (b p l e x : ℕ) (xs : List ℕ)
      → has b (x ∷ xs) ≡ false
      → e ≡ x
      → Dll prv nxt b p l (x ∷ xs)
      → Dll
          (cut_prev prv nxt e)
          (cut_next prv nxt e)
          b
          (if p == e then nxt e else p)
          (if l == e then prv e else l)
          (without e (x ∷ xs))
  unfolding Dll without
  Dll-cut_first b p l e x xs out same d =
      subst
        (λ q.
          Dll (cut_prev prv nxt q) (cut_next prv nxt q) b (if p == q then nxt q else p)
            (if l == q then prv q else l) (without q (x ∷ xs)))
        (sym same) (rw ((==_iff p x).1 (d.0), (==_iff x x).1 refl) (Dll-cut_head b p l x xs out d))

  -- The entry before the rest of the list is the one taken out's, or its link stays.
  cut_next-head :
      (p l e x : ℕ) (xs : List ℕ)
      → x ≢ 0
      → (x == e) ≡ false
      → has x xs ≡ false
      → has e xs ≡ true
      → Dll prv nxt x (nxt x) l xs
      → cut_next prv nxt e x ≡ (if nxt x == e then nxt e else nxt x)
  cut_next-head p l e x xs nz ne out h d = elim (Dll-before x (nxt x) l e xs d h) [
    | inl c ↦ rw ((==_iff (nxt x) e).1 (c.0)) (
        ap (cut_next prv nxt e) (sym (c.1))
        ∙ cut_next-at e (ap (λ q. q == 0) (c.1) ∙ ==_false x 0 nz) (ap (λ q. q == e) (c.1) ∙ ne))
    | inr c ↦ rw (c.0) (cut_next-ne e x ne (==_flip (prv e) x (has-ne (prv e) x xs out (c.1))))
  ]

  cut_prev-head :
      (p l e x : ℕ) (xs : List ℕ)
      → x ≢ 0
      → (x == e) ≡ false
      → has x xs ≡ false
      → has e xs ≡ true
      → Dll prv nxt x (nxt x) l xs
      → cut_prev prv nxt e x ≡ prv x
  cut_prev-head p l e x [] nz ne out h d = cc (has-none e, h)
  cut_prev-head p l e x (y ∷ ys) nz ne out h d =
      cut_prev-ne e x ne (elim (Dll-after x (nxt x) l e y ys d h) [
        | inl z ↦ ap (λ q. x == q) z ∙ ==_false x 0 nz
        | inr m ↦ ==_flip (nxt e) x (has-ne (nxt e) x (y ∷ ys) out (has-tail (nxt e) y ys m))
      ])

  pub Dll-cut :
      (b p l e : ℕ) (xs : List ℕ)
      → has b xs ≡ false
      → has e xs ≡ true
      → Dll prv nxt b p l xs
      → Dll
          (cut_prev prv nxt e)
          (cut_next prv nxt e)
          b
          (if p == e then nxt e else p)
          (if l == e then prv e else l)
          (without e xs)
  unfolding Dll without
  Dll-cut b p l e [] out h d = cc (has-none e, h)
  Dll-cut b p l e (x ∷ xs) out h d = elim (has-cases e x xs h) [
    | inl same ↦ Dll-cut_first b p l e x xs out same d
    | inr t ↦
        let x_e = ==_flip e x (has-ne e x xs (d.2) t) in
        let p_e : (p == e) ≡ false = ap (λ q. q == e) (d.0) ∙ x_e in
        let rest = Dll-cut x (nxt x) l e xs (d.2) t (d.4) in
        rw (p_e, x_e)
          (
            d.0,
            d.1,
            has-without_not x e xs (d.2),
            cut_prev-head p l e x xs (d.1) x_e (d.2) t (d.4) ∙ d.3,
            subst
                (λ q.
                  Dll (cut_prev prv nxt e) (cut_next prv nxt e) x q (if l == e then prv e else l)
                    (without e xs))
                (sym (cut_next-head p l e x xs (d.1) x_e (d.2) t (d.4))) rest,
          )
  ]
