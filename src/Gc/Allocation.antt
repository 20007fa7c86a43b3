-- ===== src/Gc/Allocation.antt =====
-- vm/gc/mark_sweep_gc.cpp: `allocate` and `allocate_immortal_area`. What the allocator answers is a
-- parameter, `none` for a null pointer; the address of a block stands for its header and its object.
use letin.Common.{
  ℕ, ◌≡◌, ◌≢◌, refl, inl, inr, sym, ◌∙◌, true, false, List, [], ◌∷◌, Option, none, some, ◌==◌,
  Bool-cases, ==_iff, arith,
}
use letin.Gc.Headers.{put, Collector, is_marked, add_header, add_immortal_header}
use letin.Gc.Chains.{
  has, has-none, has-head, has-other, has-tail, has-cases, has-ne, Chain, Chain-put, put_self,
  put-ne,
}
use letin.Gc.Collect.{ThreadRoots}
use letin.Gc.Roots.{
  is_root, is_root-cases, is_root-own, is_root-tmp, is_root-rest, ThreadsOk, a_thread,
}
use letin.Gc.Whole.{Start}

-- `Header()`; the null `list_next` is written as 0 until the header is added to a list.
unfoldable pub new_header : ℕ → Collector → Collector
unfolding put
new_header h c = record c { list_next = put c.list_next h 0; stack_prev = put c.stack_prev h none }

-- `context->regs().gc_tmp_ptr = ptr`, where there is a context
unfoldable pub set_tmp : ℕ → Option ThreadRoots → Option ThreadRoots
set_tmp h none = none
set_tmp h (some t) = some (record t { gc_tmp_ptr = h })

unfoldable pub allocate :
    Option ℕ → Option ThreadRoots → Collector → Option ℕ × Option ThreadRoots × Collector
unfolding new_header add_header set_tmp
allocate none context c = (none, context, c)
allocate (some h) context c = (some h, set_tmp h context, add_header h (new_header h c))

unfoldable pub allocate_immortal_area : Option ℕ → Collector → Option ℕ × Collector
unfolding new_header add_immortal_header
allocate_immortal_area none c = (none, c)
allocate_immortal_area (some h) c = (some h, add_immortal_header h (new_header h c))

zero_is : (h : ℕ) → h ≢ 0 → (0 == h) ≡ false
zero_is h nz = ground arith

marked-new_self : (h : ℕ) (c : Collector) → is_marked (add_header h (new_header h c)) h ≡ false
unfolding is_marked add_header new_header
marked-new_self h c = rw (put_self c.stack_prev h none) refl

marked-new_ne :
    (h : ℕ) (c : Collector) (p : ℕ)
    → (p == h) ≡ false
    → is_marked (add_header h (new_header h c)) p ≡ is_marked c p
unfolding is_marked add_header new_header
marked-new_ne h c p n = rw (put-ne c.stack_prev h none p n) refl

-- Only an object that was marked is marked after an allocation.
marked-new :
    (h : ℕ) (c : Collector) (p : ℕ)
    → is_marked (add_header h (new_header h c)) p ≡ true
    → is_marked c p ≡ true
marked-new h c p m = elim (Bool-cases (p == h)) [
  | inl y ↦ cc (marked-new_self h c, rw ((==_iff p h).0 y) at m)
  | inr n ↦ sym (marked-new_ne h c p n) ∙ m
]

Chain-new :
    (h : ℕ) (c : Collector) (hs : List ℕ)
    → h ≢ 0
    → has h hs ≡ false
    → Chain c.list_next c.list_first hs
    → Chain
        (add_header h (new_header h c)).list_next
        (add_header h (new_header h c)).list_first
        (h ∷ hs)
unfolding add_header new_header Chain
Chain-new h c hs nz out ch = (
  refl,
  nz,
  out,
  rw (put_self (put c.list_next h 0) h c.list_first) (
      Chain-put (put c.list_next h 0) h c.list_first c.list_first hs out
        (Chain-put c.list_next h 0 c.list_first hs out ch)),
)

ThreadsOk-tmp :
    (children : ℕ → List ℕ) (t : ThreadRoots) (ts : List ThreadRoots) (h : ℕ)
    → children h ≡ []
    → ThreadsOk children (t ∷ ts)
    → ThreadsOk children (record t { gc_tmp_ptr = h } ∷ ts)
ThreadsOk-tmp children t ts h leaf (a_thread one others) =
    a_thread (record { fresh = λ nz q e. cc (has-none q, rw leaf at e) }) others

module _ (children : ℕ → List ℕ) (t : ThreadRoots) (ts : List ThreadRoots) (vm_roots us hs : List ℕ)
    (c : Collector) (h : ℕ) where
  -- A block that the allocator answers with, that is not null and is no header of the list and none of the
  -- objects that the roots refer to, is taken up by `allocate` for a thread. Once the object is made without
  -- children, the collector and the contexts can start a collection again, in which the block is a header
  -- of the list and is a root of its thread.
  pub allocate-Start :
      Start children (t ∷ ts) vm_roots us hs c
      → h ≢ 0
      → has h hs ≡ false
      → has h us ≡ false
      → children h ≡ []
      → (d : Collector) × (u : ThreadRoots) × (allocate (some h) (some t) c ≡ (some h, some u, d))
        × (is_root h (u ∷ ts) ≡ true)
        × Start children (u ∷ ts) vm_roots (h ∷ us) (h ∷ hs) d
  unfolding allocate set_tmp
  allocate-Start s nz new apart leaf =
      let d = add_header h (new_header h c) in
      let u : ThreadRoots = record t { gc_tmp_ptr = h } in
      (
        d,
        u,
        refl,
        is_root-tmp u ts nz,
        record {
          empty = s.empty;
          chain = Chain-new h c hs nz new s.chain;
          marked_child = λ p m q e.
              let mq = s.marked_child p (marked-new h c p m) q e in
              marked-new_ne h c q (has-ne q h us apart (s.in_marked q mq)) ∙ mq;
          threads = ThreadsOk-tmp children t ts h leaf s.threads;
          nonzero = has-other 0 h us (zero_is h nz) s.nonzero;
          in_threads = λ p e. elim (is_root-cases p u ts e) [
            | inl own ↦ has-tail p h us (s.in_threads p (is_root-own p t ts own))
            | inr (inl tmp) ↦ rw (tmp.1) (has-head h us)
            | inr (inr rest) ↦ has-tail p h us (s.in_threads p (is_root-rest p t ts rest))
          ];
          in_vm = λ p e. has-tail p h us (s.in_vm p e);
          in_marked = λ p m. has-tail p h us (s.in_marked p (marked-new h c p m));
          in_children = λ p e q eq. elim (has-cases p h us e) [
            | inl same ↦ cc (has-none q, rw (same, leaf) at eq)
            | inr t ↦ has-tail q h us (s.in_children p t q eq)
          ];
        },
      )
