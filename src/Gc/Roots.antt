-- ===== src/Gc/Roots.antt =====
-- vm/gc/mark_sweep_gc.cpp: what `mark_from_object` and `mark` do for the roots of the contexts.
use letin.Common.{
  ℕ, ◌≤◌, ◌≡◌, ◌≢◌, refl, sym, ◌∙◌, ◌⊎◌, inl, inr, Bool, true, false, List, [], ◌∷◌, some, ◌==◌,
  ◌||◌, ◌&&◌, not, Bool-cases, ==_iff, length, arith,
}
use letin.Gc.Headers.{Collector, is_marked, mark_and_push_header, done}
use letin.Gc.Chains.{
  has, has-none, StackIs, unmarked-length, put_self, put-ne, has-head, has-tail, has-cases,
}
use letin.Gc.Collect.{
  ThreadRoots, mark_from_object, mark_from_objects, mark_tmp, mark_threads, mark,
}
use letin.Gc.Marks.{
  is_zero_false, Grows, Grows-refl, Grows-trans, Region, Marking, Idle, Marking-push, Grows-push,
  marked-push_self, drain_lem,
}

-- A root of a thread context, or its `gc_tmp_ptr` where that is not null.
unfoldable pub is_root : ℕ → List ThreadRoots → Bool
unfolding has
is_root p [] = false
is_root p (t ∷ ts) =
    (has p t.roots || (not (t.gc_tmp_ptr == 0) && (p == t.gc_tmp_ptr))) || is_root p ts

-- The object that a thread has just allocated has no children but the thread's roots.
pub record ThreadOk (children : ℕ → List ℕ) (t : ThreadRoots) : Type 0 where
  pub fresh :
      t.gc_tmp_ptr ≢ 0 → (q : ℕ) → has q (children t.gc_tmp_ptr) ≡ true → has q t.roots ≡ true

pub data ThreadsOk (children : ℕ → List ℕ) : List ThreadRoots → Type 0 where
  no_threads : ThreadsOk children []
  a_thread :
      {t : ThreadRoots} {ts : List ThreadRoots}
      → ThreadOk children t
      → ThreadsOk children ts
      → ThreadsOk children (t ∷ ts)

pub is_root-cases :
    (p : ℕ) (t : ThreadRoots) (ts : List ThreadRoots)
    → is_root p (t ∷ ts) ≡ true
    → (has p t.roots ≡ true) ⊎ ((t.gc_tmp_ptr ≢ 0) × (p ≡ t.gc_tmp_ptr)) ⊎ (is_root p ts ≡ true)
unfolding is_root
is_root-cases p t ts h = elim (Bool-cases (has p t.roots)) [
  | inl y ↦ inl y
  | inr n ↦ elim (Bool-cases (t.gc_tmp_ptr == 0)) [
    | inl z ↦ inr (inr (rw (n, z) at h))
    | inr nz ↦ elim (Bool-cases (p == t.gc_tmp_ptr)) [
      | inl e ↦ inr (inl (λ z. cc (nz, (==_iff t.gc_tmp_ptr 0).1 z), (==_iff p t.gc_tmp_ptr).0 e))
      | inr ne ↦ inr (inr (rw (n, nz, ne) at h))
    ]
  ]
]

pub is_root-own :
    (p : ℕ) (t : ThreadRoots) (ts : List ThreadRoots)
    → has p t.roots ≡ true
    → is_root p (t ∷ ts) ≡ true
unfolding is_root
is_root-own p t ts h = rw h refl

pub is_root-tmp :
    (t : ThreadRoots) (ts : List ThreadRoots)
    → t.gc_tmp_ptr ≢ 0
    → is_root t.gc_tmp_ptr (t ∷ ts) ≡ true
unfolding is_root
is_root-tmp t ts nz = elim (Bool-cases (has t.gc_tmp_ptr t.roots)) [
  | inl y ↦ rw y refl
  | inr n ↦ rw (n, is_zero_false t.gc_tmp_ptr nz, (==_iff t.gc_tmp_ptr t.gc_tmp_ptr).1 refl) refl
]

pub is_root-rest :
    (p : ℕ) (t : ThreadRoots) (ts : List ThreadRoots)
    → is_root p ts ≡ true
    → is_root p (t ∷ ts) ≡ true
unfolding is_root
is_root-rest p t ts h =
    elim (Bool-cases (has p t.roots || (not (t.gc_tmp_ptr == 0) && (p == t.gc_tmp_ptr)))) [
      | inl y ↦ rw y refl
      | inr n ↦ rw (n, h) refl
    ]

module _ (children : ℕ → List ℕ) (P : ℕ → Type 0) (us : List ℕ) (region : Region children P us)
    (fuel : ℕ) (enough : length us ≤ fuel) where
  Idle-Marking :
      (p : ℕ) (c : Collector)
      → P p
      → Idle children P us c
      → Marking children P us c (p ∷ []) [] fuel c
  unfolding StackIs
  Idle-Marking p c pp k = record {
    stack = k.empty;
    closed = λ a m. inr (λ q h. inl (k.marked_child a m q h));
    sound = k.reached;
    pending =
        λ a h. elim (has-cases a p [] h) [ inl e ↦ rw e pp | inr none_left ↦ cc (has-none a) ];
    work = let le = unmarked-length c.stack_prev us in omega arith;
    grows = Grows-refl c;
  }

  Marking-again :
      (c : Collector) (n : ℕ) (d : Collector) {es ps : List ℕ}
      → Marking children P us c es ps n d
      → Marking children P us d es ps n d
  Marking-again c n d k = record {
    stack = k.stack;
    closed = k.closed;
    sound = k.sound;
    pending = k.pending;
    work = k.work;
    grows = Grows-refl d;
  }

  mark_from_object_lem :
      (p : ℕ) (c : Collector)
      → P p
      → Idle children P us c
      → (d : Collector) × (mark_from_object children fuel p c ≡ done d)
        × Idle children P us d
        × Grows c d
        × (is_marked d p ≡ true)
  unfolding mark_from_object
  mark_from_object_lem p c pp k = elim (Bool-cases (is_marked c p)) [
    | inl y ↦ (c, rw y refl, k, Grows-refl c, y)
    | inr n ↦
        let pushed = Marking-push children P us region c fuel p [] [] c n (Idle-Marking p c pp k) in
        let d0 = mark_and_push_header p c in
        let r =
          drain_lem children P us region d0 fuel (p ∷ []) d0 (Marking-again c fuel d0 pushed) in
        (
          r.0,
          rw n (r.1),
          r.2,
          Grows-trans c d0 (r.0) (Grows-push p c) (r.3),
          r.3.marks p (marked-push_self p c),
        )
  ]

  mark_from_objects_lem :
      (ps : List ℕ) (c : Collector)
      → ((p : ℕ) → has p ps ≡ true → P p)
      → Idle children P us c
      → (d : Collector) × (mark_from_objects children fuel ps c ≡ done d)
        × Idle children P us d
        × Grows c d
        × ((p : ℕ) → has p ps ≡ true → is_marked d p ≡ true)
  unfolding mark_from_objects
  mark_from_objects_lem [] c h k = (c, refl, k, Grows-refl c, λ p e. cc (has-none p, e))
  mark_from_objects_lem (x ∷ ps) c h k =
      let a = mark_from_object_lem x c (h x (has-head x ps)) k in
      let b = mark_from_objects_lem ps (a.0) (λ p e. h p (has-tail p x ps e)) (a.2) in
      (
        b.0,
        rw (a.1) (b.1),
        b.2,
        Grows-trans c (a.0) (b.0) (a.3) (b.3),
        λ p e. elim (has-cases p x ps e) [ inl eq ↦ rw eq (b.3.marks x (a.4)) | inr t ↦ b.4 p t ],
      )

  mark_tmp_null :
      (t : ℕ) (c : Collector)
      → (t == 0) ≡ true
      → Idle children P us c
      → Idle children P us (mark_tmp t c)
        × Grows c (mark_tmp t c)
        × (t ≢ 0 → is_marked (mark_tmp t c) t ≡ true)
  unfolding mark_tmp
  mark_tmp_null t c y k = rw y (k, Grows-refl c, λ nz. elim (nz ((==_iff t 0).0 y)) [ ])

  tmp_stack : (t : ℕ) (c : Collector) → (t == 0) ≡ false → (mark_tmp t c).stack_top ≡ c.stack_top
  unfolding mark_tmp
  tmp_stack t c n = rw n refl

  marked-tmp_self : (t : ℕ) (c : Collector) → (t == 0) ≡ false → is_marked (mark_tmp t c) t ≡ true
  unfolding mark_tmp is_marked
  marked-tmp_self t c n = rw (n, put_self c.stack_prev t (some 0)) refl

  marked-tmp_ne :
      (t : ℕ) (c : Collector) (p : ℕ)
      → (t == 0) ≡ false
      → (p == t) ≡ false
      → is_marked (mark_tmp t c) p ≡ is_marked c p
  unfolding mark_tmp is_marked
  marked-tmp_ne t c p n ne = rw (n, put-ne c.stack_prev t (some 0) p ne) refl

  Grows-tmp : (t : ℕ) (c : Collector) → (t == 0) ≡ false → Grows c (mark_tmp t c)
  unfolding mark_tmp
  Grows-tmp t c n = record {
    marks = λ p m. elim (Bool-cases (p == t)) [
      | inl y ↦ rw ((==_iff p t).0 y) (marked-tmp_self t c n)
      | inr ne ↦ marked-tmp_ne t c p n ne ∙ m
    ];
    same_next = rw n refl;
    same_first = rw n refl;
  }

  mark_tmp_lem :
      (t : ℕ) (c : Collector)
      → (t ≢ 0 → P t)
      → (t ≢ 0 → (q : ℕ) → has q (children t) ≡ true → is_marked c q ≡ true)
      → Idle children P us c
      → Idle children P us (mark_tmp t c)
        × Grows c (mark_tmp t c)
        × (t ≢ 0 → is_marked (mark_tmp t c) t ≡ true)
  mark_tmp_lem t c pt fresh k = elim (Bool-cases (t == 0)) [
    | inl y ↦ mark_tmp_null t c y k
    | inr n ↦
        let nz : t ≢ 0 = ground arith in
        let g = Grows-tmp t c n in
        (
          record {
            empty = tmp_stack t c n ∙ k.empty;
            marked_child = λ p m q h. elim (Bool-cases (p == t)) [
              | inl y ↦ g.marks q (fresh nz q (rw ((==_iff p t).0 y) at h))
              | inr ne ↦ g.marks q (k.marked_child p (sym (marked-tmp_ne t c p n ne) ∙ m) q h)
            ];
            reached = λ p m. elim (Bool-cases (p == t)) [
              | inl y ↦ rw ((==_iff p t).0 y) (pt nz)
              | inr ne ↦ k.reached p (sym (marked-tmp_ne t c p n ne) ∙ m)
            ];
          },
          g,
          λ z. marked-tmp_self t c n,
        )
  ]

  mark_threads_lem :
      (ts : List ThreadRoots) (c : Collector)
      → ((p : ℕ) → is_root p ts ≡ true → P p)
      → ThreadsOk children ts
      → Idle children P us c
      → (d : Collector) × (mark_threads children fuel ts c ≡ done d)
        × Idle children P us d
        × Grows c d
        × ((p : ℕ) → is_root p ts ≡ true → is_marked d p ≡ true)
  unfolding mark_threads is_root
  mark_threads_lem [] c h ok k = (c, refl, k, Grows-refl c, λ p e. cc (e))
  mark_threads_lem (t ∷ ts) c h (a_thread one others) k =
      let a = mark_from_objects_lem t.roots c (λ p e. h p (is_root-own p t ts e)) k in
      let m =
        mark_tmp_lem t.gc_tmp_ptr (a.0) (λ nz. h t.gc_tmp_ptr (is_root-tmp t ts nz))
          (λ nz q e. a.4 q (one.fresh nz q e)) (a.2) in
      let b =
        mark_threads_lem ts (mark_tmp t.gc_tmp_ptr (a.0)) (λ p e. h p (is_root-rest p t ts e))
          others (m.0) in
      (
        b.0,
        rw (a.1) (b.1),
        b.2,
        Grows-trans c (a.0) (b.0) (a.3)
            (Grows-trans (a.0) (mark_tmp t.gc_tmp_ptr (a.0)) (b.0) (m.1) (b.3)),
        λ p e. elim (is_root-cases p t ts e) [
          | inl own ↦ b.3.marks p (m.1.marks p (a.4 p own))
          | inr (inl tmp) ↦ rw (tmp.1) (b.3.marks t.gc_tmp_ptr (m.2 (tmp.0)))
          | inr (inr rest) ↦ b.4 p rest
        ],
      )

  pub mark_lem :
      (ts : List ThreadRoots) (vm_roots : List ℕ) (c : Collector)
      → ((p : ℕ) → is_root p ts ≡ true → P p)
      → ((p : ℕ) → has p vm_roots ≡ true → P p)
      → ThreadsOk children ts
      → Idle children P us c
      → (d : Collector) × (mark children fuel ts vm_roots c ≡ done d)
        × Idle children P us d
        × Grows c d
        × ((p : ℕ) → is_root p ts ≡ true → is_marked d p ≡ true)
        × ((p : ℕ) → has p vm_roots ≡ true → is_marked d p ≡ true)
  unfolding mark
  mark_lem ts vm_roots c h hv ok k =
      let a = mark_threads_lem ts c h ok k in
      let b = mark_from_objects_lem vm_roots (a.0) hv (a.2) in
      (
        b.0,
        rw (a.1) (b.1),
        b.2,
        Grows-trans c (a.0) (b.0) (a.3) (b.3),
        λ p e. b.3.marks p (a.4 p e),
        b.4,
      )
