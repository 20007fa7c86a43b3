-- ===== src/Gc/Sweeps.antt =====
-- vm/gc/mark_sweep_gc.cpp: what `sweep` does to the list of the headers.
use letin.Common.{
  ℕ, zero, suc, ◌≤◌, ◌≡◌, ◌≢◌, refl, sym, ap, subst, ◌∙◌, inl, inr, Bool, true, false, List, [],
  ◌∷◌, none, ◌==◌, not, Bool-cases, length, arith,
}
use letin.Gc.Headers.{is_some, Collector, is_marked, done, ◌>>=◌}
use letin.Gc.Chains.{
  has, has-none, keep, has-not, has-keep, keep-agree, Chain, Chain-put, put_self, put-ne, has-ne,
  has-cases,
}
use letin.Gc.Collect.{Place, first, after, read_place, write_place, unmark, sweep_from}
use letin.Gc.Marks.{is_zero_false, no_room}

-- The place is in none of the headers.
unfoldable pub apart : Place → List ℕ → Bool
unfolding has
apart first hs = true
apart (after p) hs = not (has p hs)

pub apart-first : (hs : List ℕ) → apart first hs ≡ true
unfolding apart
apart-first hs = refl

unfoldable pub same_place : Place → Place → Bool
same_place first first = true
same_place first (after q) = false
same_place (after p) first = false
same_place (after p) (after q) = p == q

pub record Swept (place : Place) (c : Collector) (hs : List ℕ) (d : Collector) (freed : List ℕ)
    : Type 0 where
  pub chain : Chain d.list_next (read_place place d) (keep (is_marked c) hs)
  pub gone : freed ≡ keep (λ p. not (is_marked c p)) hs
  pub cleared : (p : ℕ) → has p hs ≡ true → is_marked d p ≡ false
  pub others : (p : ℕ) → has p hs ≡ false → d.stack_prev p ≡ c.stack_prev p
  pub places :
      (q : Place) → same_place q place ≡ false → apart q hs ≡ true → read_place q d ≡ read_place q c
  pub same_top : d.stack_top ≡ c.stack_top

not-true : (b : Bool) → not b ≡ true → b ≡ false
not-true true h = sym h
not-true false h = refl

write-prev :
    (place : Place) (v : ℕ) (c : Collector) (p : ℕ)
    → (write_place place v c).stack_prev p ≡ c.stack_prev p
unfolding write_place
write-prev first v c p = refl
write-prev (after q) v c p = refl

write-top :
    (place : Place) (v : ℕ) (c : Collector) → (write_place place v c).stack_top ≡ c.stack_top
unfolding write_place
write-top first v c = refl
write-top (after q) v c = refl

write_self : (place : Place) (v : ℕ) (c : Collector) → read_place place (write_place place v c) ≡ v
unfolding write_place read_place
write_self first v c = refl
write_self (after q) v c = put_self c.list_next q v

write-other :
    (q place : Place) (v : ℕ) (c : Collector)
    → same_place q place ≡ false
    → read_place q (write_place place v c) ≡ read_place q c
unfolding write_place read_place same_place
write-other first first v c ne = cc
write-other first (after p) v c ne = refl
write-other (after q) first v c ne = refl
write-other (after q) (after p) v c ne = put-ne c.list_next p v q ne

write-Chain :
    (place : Place) (v p : ℕ) (c : Collector) (hs : List ℕ)
    → apart place hs ≡ true
    → Chain c.list_next p hs
    → Chain (write_place place v c).list_next p hs
unfolding write_place apart
write-Chain first v p c hs out ch = ch
write-Chain (after q) v p c hs out ch = Chain-put c.list_next q v p hs (not-true (has q hs) out) ch

unmark-place : (q : Place) (h : ℕ) (c : Collector) → read_place q (unmark h c) ≡ read_place q c
unfolding unmark read_place
unmark-place first h c = refl
unmark-place (after p) h c = refl

-- A place that is apart from a list is not the one after its head, and is apart from its tail.
apart-tail :
    (q : Place) (h : ℕ) (hs : List ℕ)
    → apart q (h ∷ hs) ≡ true
    → (same_place q (after h) ≡ false) × (apart q hs ≡ true)
unfolding apart same_place
apart-tail first h hs out = (refl, refl)
apart-tail (after p) h hs out =
    let o = has-not p h hs (not-true (has p (h ∷ hs)) out) in (o.0, ap not (o.1))

unmark-top : (h : ℕ) (c : Collector) → (unmark h c).stack_top ≡ c.stack_top
unfolding unmark
unmark-top h c = refl

unmark_self : (h : ℕ) (c : Collector) → is_marked (unmark h c) h ≡ false
unfolding unmark is_marked
unmark_self h c = rw (put_self c.stack_prev h none) refl

unmark-ne :
    (h : ℕ) (c : Collector) (p : ℕ) → (p == h) ≡ false → (unmark h c).stack_prev p ≡ c.stack_prev p
unfolding unmark
unmark-ne h c p n = put-ne c.stack_prev h none p n

-- Equal `stack_prev` fields are equal marks.
marked-same :
    (c d : Collector) (p : ℕ) → d.stack_prev p ≡ c.stack_prev p → is_marked d p ≡ is_marked c p
unfolding is_marked
marked-same c d p e = ap is_some e

Swept-none : (place : Place) (c : Collector) → read_place place c ≡ 0 → Swept place c [] c []
unfolding keep Chain
Swept-none place c e = record {
  chain = e;
  gone = refl;
  cleared = λ p h. cc (has-none p, h);
  others = λ p h. refl;
  places = λ q ne out. refl;
  same_top = refl;
}

Swept-free :
    (place : Place) (h : ℕ) (hs : List ℕ) (c d : Collector) (freed : List ℕ)
    → is_marked c h ≡ false
    → has h hs ≡ false
    → Swept place (write_place place (c.list_next h) c) hs d freed
    → Swept place c (h ∷ hs) d (h ∷ freed)
unfolding keep
Swept-free place h hs c d freed m once k =
    let c1 = write_place place (c.list_next h) c in
    let same : (p : ℕ) → is_marked c1 p ≡ is_marked c p =
      λ p. marked-same c c1 p (write-prev place (c.list_next h) c p) in
    record {
      chain = rw m (
          subst (λ xs. Chain d.list_next (read_place place d) xs)
            (keep-agree (is_marked c1) (is_marked c) hs (λ p e. same p)) k.chain);
      gone = rw m (
          ap (λ xs. h ∷ xs)
            (k.gone
              ∙ keep-agree (λ p. not (is_marked c1 p)) (λ p. not (is_marked c p)) hs
                  (λ p e. ap not (same p))));
      cleared = λ p e. elim (has-cases p h hs e) [
        | inl eq ↦ rw eq (marked-same c1 d h (k.others h once) ∙ same h ∙ m)
        | inr t ↦ k.cleared p t
      ];
      others = λ p e. k.others p ((has-not p h hs e).1) ∙ write-prev place (c.list_next h) c p;
      places = λ q ne out.
          k.places q ne ((apart-tail q h hs out).1) ∙ write-other q place (c.list_next h) c ne;
      same_top = k.same_top ∙ write-top place (c.list_next h) c;
    }

Swept-keep :
    (place : Place) (h : ℕ) (hs : List ℕ) (c d : Collector) (freed : List ℕ)
    → read_place place c ≡ h
    → h ≢ 0
    → is_marked c h ≡ true
    → has h hs ≡ false
    → apart place (h ∷ hs) ≡ true
    → Swept (after h) (unmark h c) hs d freed
    → Swept place c (h ∷ hs) d freed
unfolding keep Chain read_place
Swept-keep place h hs c d freed here nz m once out k =
    let c1 = unmark h c in
    let same : (p : ℕ) → has p hs ≡ true → is_marked c1 p ≡ is_marked c p =
      λ p e. marked-same c c1 p (unmark-ne h c p (has-ne p h hs once e)) in
    let o = apart-tail place h hs out in
    let kept = keep-agree (is_marked c1) (is_marked c) hs same in
    record {
      chain = rw m (
        k.places place (o.0) (o.1) ∙ unmark-place place h c ∙ here,
        nz,
        has-keep (is_marked c) h hs once,
        subst (λ xs. Chain d.list_next (d.list_next h) xs) kept k.chain,
      );
      gone = rw m (
          k.gone
          ∙ keep-agree (λ p. not (is_marked c1 p)) (λ p. not (is_marked c p)) hs
              (λ p e. ap not (same p e)));
      cleared = λ p e. elim (has-cases p h hs e) [
        | inl eq ↦ rw eq (marked-same c1 d h (k.others h once) ∙ unmark_self h c)
        | inr t ↦ k.cleared p t
      ];
      others = λ p e. let n = has-not p h hs e in k.others p (n.1) ∙ unmark-ne h c p (n.0);
      places = λ q ne away.
          let a = apart-tail q h hs away in k.places q (a.0) (a.1) ∙ unmark-place q h c;
      same_top = k.same_top ∙ unmark-top h c;
    }

sweep-end :
    (n : ℕ) (place : Place) (c : Collector)
    → read_place place c ≡ 0
    → sweep_from n place c ≡ done (c, [])
unfolding sweep_from
sweep-end zero place c e = rw (e, sweep_from) refl
sweep-end (suc n) place c e = rw (e, sweep_from) refl

sweep-free_here :
    (n : ℕ) (place : Place) (c : Collector)
    → (read_place place c == 0) ≡ false
    → is_marked c (read_place place c) ≡ false
    → sweep_from (suc n) place c ≡ (
        sweep_from n place (write_place place (c.list_next (read_place place c)) c) >>= λ r.
        done (r.0, read_place place c ∷ r.1))
unfolding sweep_from
sweep-free_here n place c nz m = rw (nz, m, sweep_from) refl

sweep-keep_here :
    (n : ℕ) (place : Place) (c : Collector)
    → (read_place place c == 0) ≡ false
    → is_marked c (read_place place c) ≡ true
    → sweep_from (suc n) place c
      ≡ sweep_from n (after (read_place place c)) (unmark (read_place place c) c)
unfolding sweep_from
sweep-keep_here n place c nz m = rw (nz, m, sweep_from) refl

sweep-free :
    (n : ℕ) (place : Place) (c : Collector) (h : ℕ)
    → read_place place c ≡ h
    → (h == 0) ≡ false
    → is_marked c h ≡ false
    → sweep_from (suc n) place c
      ≡ (sweep_from n place (write_place place (c.list_next h) c) >>= λ r. done (r.0, h ∷ r.1))
sweep-free n place c h e =
    subst
      (λ h.
        (h == 0) ≡ false
        → is_marked c h ≡ false
        → sweep_from (suc n) place c
          ≡ (sweep_from n place (write_place place (c.list_next h) c) >>= λ r. done (r.0, h ∷ r.1)))
      e (sweep-free_here n place c)

sweep-keep :
    (n : ℕ) (place : Place) (c : Collector) (h : ℕ)
    → read_place place c ≡ h
    → (h == 0) ≡ false
    → is_marked c h ≡ true
    → sweep_from (suc n) place c ≡ sweep_from n (after h) (unmark h c)
sweep-keep n place c h e =
    subst
      (λ h.
        (h == 0) ≡ false
        → is_marked c h ≡ true
        → sweep_from (suc n) place c ≡ sweep_from n (after h) (unmark h c))
      e (sweep-keep_here n place c)

pub sweep_from_lem :
    (n : ℕ) (hs : List ℕ) (place : Place) (c : Collector)
    → length hs ≤ n
    → Chain c.list_next (read_place place c) hs
    → apart place hs ≡ true
    → (d : Collector) × (freed : List ℕ) × (sweep_from n place c ≡ done (d, freed))
      × Swept place c hs d freed
unfolding Chain unmark read_place apart
sweep_from_lem n [] place c le ch out = (c, [], sweep-end n place c ch, Swept-none place c ch)
sweep_from_lem zero (h ∷ hs) place c le ch out =
    elim (no_room 0 (length hs) (omega (arith, le))) [ ]
sweep_from_lem (suc n) (h ∷ hs) place c le ch out = elim (Bool-cases (is_marked c h)) [
  | inl m ↦
      let r = sweep_from_lem n hs (after h) (unmark h c) (omega arith) (ch.3) (ap not (ch.2)) in
      (
        r.0,
        r.1,
        sweep-keep n place c h (ch.0) (is_zero_false h (ch.1)) m ∙ r.2,
        Swept-keep place h hs c (r.0) (r.1) (ch.0) (ch.1) m (ch.2) out (r.3),
      )
  | inr m ↦
      let c1 = write_place place (c.list_next h) c in
      let o = (apart-tail place h hs out).1 in
      let r =
        sweep_from_lem n hs place c1 (omega arith)
          (subst (λ p. Chain c1.list_next p hs) (sym (write_self place (c.list_next h) c))
            (write-Chain place (c.list_next h) (c.list_next h) c hs o (ch.3)))
          o in
      (
        r.0,
        h ∷ r.1,
        sweep-free n place c h (ch.0) (is_zero_false h (ch.1)) m
            ∙ ap (λ s. s >>= λ x. done (x.0, h ∷ x.1)) (r.2),
        Swept-free place h hs c (r.0) (r.1) m (ch.2) (r.3),
      )
]
