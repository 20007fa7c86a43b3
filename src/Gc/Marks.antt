-- ===== src/Gc/Marks.antt =====
-- vm/gc/mark_sweep_gc.cpp: what the marking loop keeps, while `es` are the objects it has yet to visit
-- and `ps` is its stack. `P` holds of each object that may be marked, and `us` are these objects.
use letin.Common.{
  ℕ, zero, suc, ◌+◌, ◌≤◌, ◌≡◌, ◌≢◌, refl, sym, ap, ◌∙◌, ◌⊎◌, inl, inr, true, false, List, [], ◌∷◌,
  some, ◌==◌, Bool-cases, ==_iff, length, arith,
}
use letin.Gc.Headers.{Collector, is_marked, mark_and_push_header, done}
use letin.Gc.Chains.{
  has, has-none, StackIs, StackIs-put, unmarked, unmarked-put_lt, put_self, put-ne, has-head,
  has-tail, has-cases,
}
use letin.Gc.Collect.{visit, visit_all, drain}

pub no_room : (m l : ℕ) → m + suc l ≤ 0 → ⊥
no_room m l le = omega arith

pub is_zero_false : (x : ℕ) → x ≢ 0 → (x == 0) ≡ false
is_zero_false x nz = ground arith

-- The second state has the first one's marks and lists.
pub record Grows (c d : Collector) : Type 0 where
  pub marks : (p : ℕ) → is_marked c p ≡ true → is_marked d p ≡ true
  pub same_next : d.list_next ≡ c.list_next
  pub same_first : d.list_first ≡ c.list_first

pub Grows-refl : (c : Collector) → Grows c c
Grows-refl c = record { marks = λ p m. m; same_next = refl; same_first = refl }

pub Grows-trans : (c d e : Collector) → Grows c d → Grows d e → Grows c e
Grows-trans c d e g h = record {
  marks = λ p m. h.marks p (g.marks p m);
  same_next = h.same_next ∙ g.same_next;
  same_first = h.same_first ∙ g.same_first;
}

pub marked-push_self : (h : ℕ) (c : Collector) → is_marked (mark_and_push_header h c) h ≡ true
unfolding is_marked mark_and_push_header
marked-push_self h c = rw (put_self c.stack_prev h (some c.stack_top)) refl

pub marked-push_ne :
    (h : ℕ) (c : Collector) (p : ℕ)
    → (p == h) ≡ false
    → is_marked (mark_and_push_header h c) p ≡ is_marked c p
unfolding is_marked mark_and_push_header
marked-push_ne h c p n = rw (put-ne c.stack_prev h (some c.stack_top) p n) refl

pub Grows-push : (h : ℕ) (c : Collector) → Grows c (mark_and_push_header h c)
unfolding mark_and_push_header
Grows-push h c = record {
  marks = λ p m. elim (Bool-cases (p == h)) [
    | inl y ↦ rw ((==_iff p h).0 y) (marked-push_self h c)
    | inr n ↦ marked-push_ne h c p n ∙ m
  ];
  same_next = refl;
  same_first = refl;
}

-- The objects that may be marked are among `us`, and their children may be marked.
pub record Region (children : ℕ → List ℕ) (P : ℕ → Type 0) (us : List ℕ) : Type 0 where
  pub nonzero : (p : ℕ) → P p → p ≢ 0
  pub within : (p : ℕ) → P p → has p us ≡ true
  pub child : (p : ℕ) → P p → (q : ℕ) → has q (children p) ≡ true → P q

module _ (children : ℕ → List ℕ) (P : ℕ → Type 0) (us : List ℕ) where
  pub record Marking (c0 : Collector) (es ps : List ℕ) (fuel : ℕ) (c : Collector) : Type 0 where
    pub stack : StackIs c.stack_prev c.stack_top ps
    pub closed :
        (p : ℕ)
        → is_marked c p ≡ true
        → (has p ps ≡ true)
          ⊎ ((q : ℕ) → has q (children p) ≡ true → (is_marked c q ≡ true) ⊎ (has q es ≡ true))
    pub sound : (p : ℕ) → is_marked c p ≡ true → P p
    pub pending : (p : ℕ) → has p es ≡ true → P p
    pub work : unmarked c.stack_prev us + length ps ≤ fuel
    pub grows : Grows c0 c

  -- The state between two calls of `mark_from_object`.
  pub record Idle (c : Collector) : Type 0 where
    pub empty : c.stack_top ≡ 0
    pub marked_child :
        (p : ℕ) → is_marked c p ≡ true → (q : ℕ) → has q (children p) ≡ true → is_marked c q ≡ true
    pub reached : (p : ℕ) → is_marked c p ≡ true → P p

  module _ (region : Region children P us) (c0 : Collector) where
    Marking-skip :
        (fuel p : ℕ) (es ps : List ℕ) (c : Collector)
        → is_marked c p ≡ true
        → Marking c0 (p ∷ es) ps fuel c
        → Marking c0 es ps fuel c
    Marking-skip fuel p es ps c m k = record {
      stack = k.stack;
      closed = λ a ma. elim (k.closed a ma) [
        | inl h ↦ inl h
        | inr f ↦ inr (λ q hq. elim (f q hq) [
          | inl mq ↦ inl mq
          | inr hp ↦ elim (has-cases q p es hp) [ inl e ↦ inl (rw e m) | inr t ↦ inr t ]
        ])
      ];
      sound = k.sound;
      pending = λ a h. k.pending a (has-tail a p es h);
      work = k.work;
      grows = k.grows;
    }

    -- A marked object is marked after one more is pushed; the new one is the only other.
    marked-push_cases :
        (p : ℕ) (c : Collector) (a : ℕ)
        → is_marked (mark_and_push_header p c) a ≡ true
        → (a ≡ p) ⊎ (is_marked c a ≡ true)
    marked-push_cases p c a m = elim (Bool-cases (a == p)) [
      | inl y ↦ inl ((==_iff a p).0 y)
      | inr n ↦ inr (sym (marked-push_ne p c a n) ∙ m)
    ]

    pub Marking-push :
        (fuel p : ℕ) (es ps : List ℕ) (c : Collector)
        → is_marked c p ≡ false
        → Marking c0 (p ∷ es) ps fuel c
        → Marking c0 es (p ∷ ps) fuel (mark_and_push_header p c)
    unfolding is_marked mark_and_push_header StackIs
    Marking-push fuel p es ps c m k =
        let pp : P p = k.pending p (has-head p es) in
        let grown : Grows c (mark_and_push_header p c) = Grows-push p c in
        record {
          stack = (
            refl,
            region.nonzero p pp,
            c.stack_top,
            put_self c.stack_prev p (some c.stack_top),
            StackIs-put c.stack_prev p (some c.stack_top) c.stack_top ps m k.stack,
          );
          closed = λ a ma. elim (marked-push_cases p c a ma) [
            | inl e ↦ inl (rw e (has-head p ps))
            | inr mc ↦ elim (k.closed a mc) [
              | inl h ↦ inl (has-tail a p ps h)
              | inr f ↦ inr (λ q hq. elim (f q hq) [
                | inl mq ↦ inl (grown.marks q mq)
                | inr hp ↦ elim (has-cases q p es hp) [
                  | inl e ↦ inl (rw e (marked-push_self p c))
                  | inr t ↦ inr t
                ]
              ])
            ]
          ];
          sound =
              λ a ma. elim (marked-push_cases p c a ma) [ inl e ↦ rw e pp | inr mc ↦ k.sound a mc ];
          pending = λ a h. k.pending a (has-tail a p es h);
          work =
              let lt = unmarked-put_lt c.stack_prev p c.stack_top us (region.within p pp) m in
              let le = k.work in omega arith;
          grows = Grows-trans c0 c (mark_and_push_header p c) k.grows grown;
        }

    Marking-visit :
        (fuel p : ℕ) (es ps : List ℕ) (c : Collector)
        → Marking c0 (p ∷ es) ps fuel c
        → (qs : List ℕ) × Marking c0 es qs fuel (visit p c)
    unfolding visit
    Marking-visit fuel p es ps c k = elim (Bool-cases (is_marked c p)) [
      | inl y ↦ (ps, rw y (Marking-skip fuel p es ps c y k))
      | inr n ↦ (p ∷ ps, rw n (Marking-push fuel p es ps c n k))
    ]

    pub Marking-visit_all :
        (fuel : ℕ) (es ps : List ℕ) (c : Collector)
        → Marking c0 es ps fuel c
        → (qs : List ℕ) × Marking c0 [] qs fuel (visit_all es c)
    unfolding visit_all
    Marking-visit_all fuel [] ps c k = (ps, k)
    Marking-visit_all fuel (e ∷ es) ps c k =
        let next = Marking-visit fuel e es ps c k in
        Marking-visit_all fuel es (next.0) (visit e c) (next.1)

    -- `pop_header`: the objects to visit are then the top's children.
    Marking-pop :
        (fuel x q : ℕ) (xs : List ℕ) (c : Collector)
        → is_marked c x ≡ true
        → StackIs c.stack_prev q xs
        → Marking c0 [] (x ∷ xs) (suc fuel) c
        → Marking c0 (children x) xs fuel (record c { stack_top = q })
    unfolding is_marked
    Marking-pop fuel x q xs c mx rest k = record {
      stack = rest;
      closed = λ a ma. elim (k.closed a ma) [
        | inl h ↦ elim (has-cases a x xs h) [
          | inl e ↦ inr (λ r hr. inr (rw e at hr))
          | inr t ↦ inl t
        ]
        | inr f ↦ inr (λ r hr. elim (f r hr) [ inl mr ↦ inl mr | inr none_left ↦ cc (has-none r) ])
      ];
      sound = k.sound;
      pending = λ a h. region.child x (k.sound x mx) a h;
      work = let le = k.work in omega arith;
      grows = record {
        marks = k.grows.marks;
        same_next = k.grows.same_next;
        same_first = k.grows.same_first;
      };
    }

    Marking-Idle : (n : ℕ) (c : Collector) → Marking c0 [] [] n c → Idle c
    unfolding StackIs
    Marking-Idle n c k = record {
      empty = k.stack;
      marked_child = λ p m q h. elim (k.closed p m) [
        | inl none_left ↦ cc (has-none p)
        | inr f ↦ elim (f q h) [ inl mq ↦ mq | inr none_left ↦ cc (has-none q) ]
      ];
      reached = k.sound;
    }

    drain_step :
        (n q : ℕ) (c : Collector)
        → (c.stack_top == 0) ≡ false
        → c.stack_prev c.stack_top ≡ some q
        → drain children (suc n) c
          ≡ drain children n (visit_all (children c.stack_top) (record c { stack_top = q }))
    unfolding drain
    drain_step n q c nz e = rw (nz, e, drain) refl

    -- As much fuel as there are objects to mark and on the stack is enough.
    pub drain_lem :
        (n : ℕ) (ps : List ℕ) (c : Collector)
        → Marking c0 [] ps n c
        → (d : Collector) × (drain children n c ≡ done d) × Idle d × Grows c0 d
    unfolding drain StackIs is_marked
    drain_lem zero [] c k = (c, rw (k.stack) refl, Marking-Idle zero c k, k.grows)
    drain_lem (suc n) [] c k = (c, rw (k.stack) refl, Marking-Idle (suc n) c k, k.grows)
    drain_lem zero (x ∷ xs) c k = elim (no_room (unmarked c.stack_prev us) (length xs) (k.work)) [ ]
    drain_lem (suc n) (x ∷ xs) c k =
        let top : c.stack_top ≡ x = k.stack.0 in
        let q = k.stack.2 in
        let e = k.stack.3 in
        let popped = Marking-pop n x q xs c (rw e refl) (k.stack.4) k in
        let next = Marking-visit_all n (children x) xs (record c { stack_top = q }) popped in
        let rest =
          drain_lem n (next.0) (visit_all (children x) (record c { stack_top = q })) (next.1) in
        (
          rest.0,
          drain_step n q c (ap (λ y. y == 0) top ∙ is_zero_false x (k.stack.1))
                (ap c.stack_prev top ∙ e)
              ∙ ap (λ y. drain children n (visit_all (children y) (record c { stack_top = q }))) top
              ∙ rest.1,
          rest.2,
          rest.3,
        )
