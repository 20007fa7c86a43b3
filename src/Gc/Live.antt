-- ===== src/Gc/Live.antt =====
-- vm/vm.cpp and vm/gc/mark_sweep_gc.cpp: what a thread's stack refers to is not freed.
use letin.Common.{
  ℕ, zero, suc, ◌≤◌, ◌<◌, ◌≡◌, ◌≢◌, Bool, sym, subst, inl, inr, true, false, List, [], ◌∷◌, ◌++◌,
  some, Bool-cases, length, get_elem?, take, arith,
}
use letin.Gc.Headers.{Collector, done}
use letin.Gc.Chains.{has, has-none, has-head, has-first, has-tail, has-cases}
use letin.Gc.Collect.{ThreadRoots, collect}
use letin.Gc.Roots.{is_root-own}
use letin.Gc.Traversal.{GcRegisters, ref_object, value_object, value_objects, traverse_root_objects}
use letin.Gc.Whole.{from_thread, Start, collect-Collected}
use letin.Thread.Outer.{Machine}
use letin.Table.Links.{==_false}
use letin.Thread.State.{Value, ref, canceled_ref, lazy_value_ref, locked_lazy_value_ref}

pub has-append_left : (a : ℕ) (xs ys : List ℕ) → has a xs ≡ true → has a (xs ++ ys) ≡ true
has-append_left a [] ys h = cc (has-none a, h)
has-append_left a (x ∷ xs) ys h = elim (has-cases a x xs h) [
  | inl e ↦ has-first a x (xs ++ ys) e
  | inr t ↦ has-tail a x (xs ++ ys) (has-append_left a xs ys t)
]

pub has-append_right : (a : ℕ) (xs ys : List ℕ) → has a ys ≡ true → has a (xs ++ ys) ≡ true
has-append_right a [] ys h = h
has-append_right a (x ∷ xs) ys h = has-tail a x (xs ++ ys) (has-append_right a xs ys h)

-- The values that refer to an object: references, canceled or not, and those to lazy values, locked or not.
pub data RefersTo : Value → ℕ → Type 0 where
  refers : {r : ℕ} → RefersTo (ref r) r
  refers_canceled : {r : ℕ} → RefersTo (canceled_ref r) r
  refers_lazily : {r : ℕ} {b : Bool} → RefersTo (lazy_value_ref r b) r
  refers_locked : {r : ℕ} → RefersTo (locked_lazy_value_ref r) r

own_object : (r : ℕ) → r ≢ 0 → has r (ref_object r) ≡ true
unfolding ref_object
own_object r nz = rw (==_false r 0 nz) (has-head r [])

RefersTo-value_object : {v : Value} {r : ℕ} → RefersTo v r → r ≢ 0 → has r (value_object v) ≡ true
unfolding value_object
RefersTo-value_object (refers {r = r}) nz = own_object r nz
RefersTo-value_object (refers_canceled {r = r}) nz = own_object r nz
RefersTo-value_object (refers_lazily {r = r}) nz = own_object r nz
RefersTo-value_object (refers_locked {r = r}) nz = own_object r nz

-- A slot below the end, with a value that refers to an object.
slot_object :
    (vs : List Value) (n i r : ℕ) (v : Value)
    → i < n
    → get_elem? vs i ≡ some v
    → has r (value_object v) ≡ true
    → has r (value_objects (take n vs)) ≡ true
unfolding value_objects
slot_object [] n i r v lt e h = cc (e)
slot_object (w ∷ vs) zero i r v lt e h = elim lt [ ]
slot_object (w ∷ vs) (suc n) zero r v lt e h =
    has-append_left r (value_object w) (value_objects (take n vs))
      (subst (λ q. has r (value_object q) ≡ true) (sym (some_eq e)) h)
  where
    some_eq : {a b : Value} → some a ≡ some b → a ≡ b
    some_eq e = cc (e)
slot_object (w ∷ vs) (suc n) (suc i) r v lt e h =
    has-append_right r (value_object w) (value_objects (take n vs))
      (slot_object vs n i r v (omega arith) e h)

stack_root :
    (m : Machine) (g : GcRegisters) (i r : ℕ) (v : Value)
    → i < m.context.sec
    → get_elem? m.context.stack i ≡ some v
    → has r (value_object v) ≡ true
    → has r (traverse_root_objects m g) ≡ true
unfolding traverse_root_objects
stack_root m g i r v lt e h =
    has-append_left r (value_objects (take m.context.sec m.context.stack)) _
      (slot_object m.context.stack m.context.sec i r v lt e h)

-- An object that a value in a thread's stack refers to, in a slot below sec, is not freed by a collection
-- that is given the roots of the thread among the others: by a reference, canceled or not, or by a
-- reference to a lazy value, lazily canceled or not, or locked. The reference is not nil. The collection
-- ends, with as much fuel as there are objects and headers. Before it, the stack is empty, the list holds
-- each of its headers once, marked objects have marked children, and the object that a thread has just
-- allocated refers to roots of the thread only.
pub live_slot_kept :
    (children : ℕ → List ℕ) (m : Machine) (g : GcRegisters) (gc_tmp_ptr : ℕ) (ts : List ThreadRoots)
    (vm_roots us hs : List ℕ) (c : Collector) (fuel i r : ℕ) (v : Value)
    → Start children
        (record { roots = traverse_root_objects m g; gc_tmp_ptr = gc_tmp_ptr } ∷ ts)
        vm_roots
        us
        hs
        c
    → length us ≤ fuel
    → length hs ≤ fuel
    → i < m.context.sec
    → get_elem? m.context.stack i ≡ some v
    → RefersTo v r
    → r ≢ 0
    → (d : Collector) × (freed : List ℕ) × (collect children fuel
          (record { roots = traverse_root_objects m g; gc_tmp_ptr = gc_tmp_ptr } ∷ ts)
          vm_roots
          c
        ≡ done (d, freed))
      × (has r freed ≡ false)
live_slot_kept children m g tmp ts vm_roots us hs c fuel i r v start le1 le2 lt e refer nz =
    let h = RefersTo-value_object refer nz in
    let t : ThreadRoots = record { roots = traverse_root_objects m g; gc_tmp_ptr = tmp } in
    let a = collect-Collected children (t ∷ ts) vm_roots us hs c fuel start le1 le2 in
    (
      a.0,
      a.1,
      a.2,
      elim (Bool-cases (has r (a.1))) [
        | inr n ↦ n
        | inl y ↦
            elim (((a.3.freed_iff r).0 y).1
              (from_thread (is_root-own r t ts (stack_root m g i r v lt e h)))) [ ]
      ],
    )
