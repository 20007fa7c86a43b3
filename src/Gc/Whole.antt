-- ===== src/Gc/Whole.antt =====
-- vm/gc/mark_sweep_gc.cpp: what a whole `collect` does.
use letin.Common.{
  ℕ, ◌≤◌, ◌≡◌, ◌↔◌, inl, inr, sym, ap, subst, ◌∙◌, Bool, true, false, List, not, Bool-cases, length,
}
use letin.Gc.Headers.{Collector, is_marked, done}
use letin.Gc.Chains.{has, keep, has-keep_iff, Chain}
use letin.Gc.Collect.{ThreadRoots, read_place, first, sweep, collect}
use letin.Gc.Marks.{Region, Idle, Grows}
use letin.Gc.Roots.{is_root, ThreadsOk, mark_lem}
use letin.Gc.Sweeps.{apart-first, Swept, sweep_from_lem}

-- The objects that the contexts or the objects marked before reach.
pub data Reach (children : ℕ → List ℕ) (ts : List ThreadRoots) (vm_roots : List ℕ) (c : Collector)
    : ℕ → Type 0 where
  from_thread : {p : ℕ} → is_root p ts ≡ true → Reach children ts vm_roots c p
  from_vm : {p : ℕ} → has p vm_roots ≡ true → Reach children ts vm_roots c p
  marked_before : {p : ℕ} → is_marked c p ≡ true → Reach children ts vm_roots c p
  from_parent :
      {p q : ℕ}
      → Reach children ts vm_roots c p
      → has q (children p) ≡ true
      → Reach children ts vm_roots c q

-- Before a collection: `hs` are the headers of the list, and `us` are objects with everything they refer
-- to, the roots among them.
pub record Start (children : ℕ → List ℕ) (ts : List ThreadRoots) (vm_roots us hs : List ℕ)
    (c : Collector) : Type 0 where
  pub empty : c.stack_top ≡ 0
  pub chain : Chain c.list_next c.list_first hs
  pub marked_child :
      (p : ℕ) → is_marked c p ≡ true → (q : ℕ) → has q (children p) ≡ true → is_marked c q ≡ true
  pub threads : ThreadsOk children ts
  pub nonzero : has 0 us ≡ false
  pub in_threads : (p : ℕ) → is_root p ts ≡ true → has p us ≡ true
  pub in_vm : (p : ℕ) → has p vm_roots ≡ true → has p us ≡ true
  pub in_marked : (p : ℕ) → is_marked c p ≡ true → has p us ≡ true
  pub in_children :
      (p : ℕ) → has p us ≡ true → (q : ℕ) → has q (children p) ≡ true → has q us ≡ true

-- After a collection: the list holds the headers of the reached objects, and the others were freed.
pub record Collected (children : ℕ → List ℕ) (ts : List ThreadRoots) (vm_roots hs : List ℕ)
    (c d : Collector) (freed : List ℕ) : Type 0 where
  pub survivors : List ℕ
  pub chain : Chain d.list_next d.list_first survivors
  pub survivor_iff :
      (p : ℕ) → (has p survivors ≡ true) ↔ ((has p hs ≡ true) × Reach children ts vm_roots c p)
  pub freed_iff :
      (p : ℕ) → (has p freed ≡ true) ↔ ((has p hs ≡ true) × (¬ Reach children ts vm_roots c p))
  pub cleared : (p : ℕ) → has p hs ≡ true → is_marked d p ≡ false
  pub empty : d.stack_top ≡ 0

not_both : (b : Bool) → b ≡ true → not b ≡ true → ⊥
not_both true e h = cc
not_both false e h = cc

not_in : (us : List ℕ) (p : ℕ) → has p us ≡ false → has p us ≡ true → ⊥
not_in us p n y = cc

module _ (children : ℕ → List ℕ) (ts : List ThreadRoots) (vm_roots us hs : List ℕ) (c : Collector)
    (start : Start children ts vm_roots us hs c) where
  Reach-within : (p : ℕ) → Reach children ts vm_roots c p → has p us ≡ true
  Reach-within p (from_thread e) = start.in_threads p e
  Reach-within p (from_vm e) = start.in_vm p e
  Reach-within p (marked_before e) = start.in_marked p e
  Reach-within q (from_parent {p} r e) = start.in_children p (Reach-within p r) q e

  Reach-Region : Region children (Reach children ts vm_roots c) us
  Reach-Region = record {
    nonzero =
        λ p r z. not_in us 0 start.nonzero (subst (λ a. has a us ≡ true) z (Reach-within p r));
    within = Reach-within;
    child = λ p r q e. from_parent r e;
  }

  module _ (d : Collector) (idle : Idle children (Reach children ts vm_roots c) us d)
      (grows : Grows c d) (thread_marks : (p : ℕ) → is_root p ts ≡ true → is_marked d p ≡ true)
      (vm_marks : (p : ℕ) → has p vm_roots ≡ true → is_marked d p ≡ true) where
    Reach-is_marked : (p : ℕ) → Reach children ts vm_roots c p → is_marked d p ≡ true
    Reach-is_marked p (from_thread e) = thread_marks p e
    Reach-is_marked p (from_vm e) = vm_marks p e
    Reach-is_marked p (marked_before e) = grows.marks p e
    Reach-is_marked q (from_parent {p} r e) = idle.marked_child p (Reach-is_marked p r) q e

    Swept-Collected :
        (e : Collector) (freed : List ℕ)
        → Swept first d hs e freed
        → Collected children ts vm_roots hs c e freed
    unfolding read_place
    Swept-Collected e freed k = record {
      survivors = keep (is_marked d) hs;
      chain = k.chain;
      survivor_iff = λ p.
          let i = has-keep_iff (is_marked d) p hs in
          (λ h. ((i.0 h).0, idle.reached p ((i.0 h).1)), λ h. i.1 (h.0, Reach-is_marked p (h.1)));
      freed_iff = λ p.
          let i = has-keep_iff (λ a. not (is_marked d a)) p hs in
          (
            λ h.
                let x = i.0 (subst (λ xs. has p xs ≡ true) k.gone h) in
                (x.0, λ r. not_both (is_marked d p) (Reach-is_marked p r) (x.1)),
            λ h.
                subst (λ xs. has p xs ≡ true) (sym k.gone)
                  (i.1 (
                    h.0,
                    elim (Bool-cases (is_marked d p)) [
                      | inl y ↦ elim (h.1 (idle.reached p y)) [ ]
                      | inr n ↦ ap not n
                    ],
                  )),
          );
      cleared = k.cleared;
      empty = k.same_top ∙ idle.empty;
    }

-- A collection ends with as much fuel as there are objects and headers, and the list it leaves holds
-- exactly the headers that it had of the objects that the roots, or objects marked before, reach, each
-- once; it freed exactly the others, left no header of the list marked, and left its stack empty. Before
-- it, the stack is empty, the list holds each of its headers once, marked objects have marked children,
-- and the object that a thread has just allocated refers to roots of the thread only.
pub collect-Collected :
    (children : ℕ → List ℕ) (ts : List ThreadRoots) (vm_roots us hs : List ℕ) (c : Collector)
    (fuel : ℕ)
    → Start children ts vm_roots us hs c
    → length us ≤ fuel
    → length hs ≤ fuel
    → (d : Collector) × (freed : List ℕ) × (collect children fuel ts vm_roots c ≡ done (d, freed))
      × Collected children ts vm_roots hs c d freed
unfolding collect sweep
collect-Collected children ts vm_roots us hs c fuel start le1 le2 =
    let P : ℕ → Type 0 = Reach children ts vm_roots c in
    let m =
      mark_lem children P us (Reach-Region children ts vm_roots us hs c start) fuel le1 ts vm_roots
        c (λ p e. from_thread e) (λ p e. from_vm e) start.threads
        (record {
          empty = start.empty;
          marked_child = start.marked_child;
          reached = λ p e. marked_before e;
        }) in
    let d = m.0 in
    let ch : Chain d.list_next d.list_first hs =
      subst (λ n. Chain n d.list_first hs) (sym m.3.same_next)
        (subst (λ p. Chain c.list_next p hs) (sym m.3.same_first) start.chain) in
    let s = sweep_from_lem fuel hs first d le2 ch (apart-first hs) in
    (
      s.0,
      s.1,
      rw (m.1) (s.2),
      Swept-Collected children ts vm_roots us hs c start d (m.2) (m.3) (m.4) (m.5) (s.0) (s.1)
          (s.3),
    )
