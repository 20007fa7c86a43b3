-- ===== src/Interp/Shares.antt =====
-- vm/vm/interp_vm.cpp: `set_lazy_values_as_shared` ends, also where lazy values refer to each other in a circle.
use letin.Common.{
  ℕ, zero, suc, ◌<◌, ◌≡◌, refl, sym, ap, subst, ◌∙◌, inl, inr, ◌⊎◌, Bool, true, false, Option, none,
  some, length, get_elem?, set, get_elem?-set_self, get_elem?-lt, length-set, not, if◌then◌else◌,
  Bool-cases, arith,
}
use letin.Interp.Fetch.{object_at}
use letin.Interp.Outcome.{Outcome, done, failed, unique_object}
use letin.Interp.Sharing.{
  is_lazy_object, next_lazy, mark_shared, unique_value, share_chain, set_lazy_values_as_shared,
}
use letin.Interp.World.{Act, pure, World, ◌>>=◌, ◌>>◌, Step, finish, fail, raise, raise_code}
use letin.Thread.State.{
  Value, int, float, ref, pair, canceled_ref, lazy_value_ref, locked_lazy_value_ref, error,
}
use letin.Values.{Object, Heap, is_unique, is_unique_object}
use letin.Interp.Marking.{
  IsInside, IsClosed, CanRaise, shared, Marked, unshared, unshared_le, unshared-set, set-IsClosed,
  set-Marked,
}

-- The lazy value at the reference, if there is one, must be shared in the second heap.
abbrev pub FirstShared : Option ℕ → Heap → Heap → Type 0
FirstShared none h h' = Unit {0}
FirstShared (some r) h h' =
    (o : Object)
    → get_elem? h r ≡ some o
    → is_lazy_object o ≡ true
    → get_elem? h' r ≡ some (shared o)

-- What a run ends with.
abbrev pub IsShared : Option ℕ → Heap → Outcome (Unit {0}) → Heap → Type 0
IsShared r h (done u) h' = Marked h h' × FirstShared r h h'
IsShared r h (failed e) h' = Marked h h'

abbrev Ends : Step (Unit {0}) → Option ℕ → World → Type 0
Ends m r w =
    (o : Outcome (Unit {0})) × (w' : World) × (m w ≡ some (o, w')) × IsShared r w.heap o w'.heap

same-Marked : (h : Heap) → Marked h h
same-Marked h = record { object = λ r o e. inl e }

-- The rest of a round, at an object.
abbrev visited : ℕ → ℕ → Object → Step (Unit {0})
visited n r o =
    if not (is_lazy_object o)
    then finish tt
    else if o.must_be_shared
    then finish tt
    else unique_value o.value >>= λ b.
        if b then fail unique_object else (mark_shared r o >> share_chain n (next_lazy o.value))

bind_lem :
    {A B : Type 0} (m : Act A) (f : A → Act B) (a : A) (w w' : World)
    → m w ≡ some (a, w')
    → (m >>= f) w ≡ f a w'
bind_lem {B = B} m f a w w' e =
    ap (λ x. elim (x) as (λ y. Option (B × World)) [ none ↦ none | some (b, v) ↦ f b v ]) e

visit_lem :
    (n r : ℕ) (o : Object) (w : World)
    → get_elem? w.heap r ≡ some o
    → share_chain (suc n) (some r) w ≡ visited n r o w
unfolding share_chain object_at
visit_lem n r o w is =
    bind_lem (object_at r) (visited n r) o w w (
      ap (λ x. elim (x) as (λ y. Option (Object × World)) [ none ↦ none | some p ↦ some (p, w) ])
        is)

unique_lem : (h : Heap) (v : Value) → IsInside (length h) v → (b : Bool) × (is_unique h v ≡ some b)
unfolding is_unique
unique_lem h (ref r) lt =
    let (o, is) = get_elem?-lt h r lt in
    (
      is_unique_object o,
      ap (λ x. elim (x) as (λ y. Option Bool) [ none ↦ none | some p ↦ some (is_unique_object p) ])
          is,
    )
unique_lem h (int i) lt = (false, refl)
unique_lem h (float f) lt = (false, refl)
unique_lem h (pair a b) lt = (false, refl)
unique_lem h (canceled_ref r) lt = (false, refl)
unique_lem h (lazy_value_ref r b) lt = (false, refl)
unique_lem h (locked_lazy_value_ref r) lt = (false, refl)
unique_lem h error lt = (false, refl)

abbrev pub IsNext : ℕ → Option ℕ → Type 0
IsNext n none = Unit {0}
IsNext n (some r) = r < n

next_lazy-IsNext : (n : ℕ) (v : Value) → IsInside n v → IsNext n (next_lazy v)
next_lazy-IsNext n (lazy_value_ref r false) lt = lt
next_lazy-IsNext n (lazy_value_ref r true) lt = tt
next_lazy-IsNext n (int i) lt = tt
next_lazy-IsNext n (float f) lt = tt
next_lazy-IsNext n (ref r) lt = tt
next_lazy-IsNext n (pair a b) lt = tt
next_lazy-IsNext n (canceled_ref r) lt = tt
next_lazy-IsNext n (locked_lazy_value_ref r) lt = tt
next_lazy-IsNext n error lt = tt

fail-Ends : (r : Option ℕ) (w : World) → CanRaise w.machine → Ends (fail unique_object) r w
unfolding fail raise raise_code
fail-Ends r w (m, e) = (
  failed unique_object,
  record w { machine = m },
  bind_lem (raise unique_object) (λ u. pure (failed unique_object)) tt w (record w { machine = m })
      (ap
        (λ x. elim (x) as (λ y. Option (Unit {0} × World)) [
          | none ↦ none
          | some k ↦ some (tt, record w { machine = k })
        ])
        e),
  same-Marked w.heap,
)

already : (o : Object) → o.must_be_shared ≡ true → o ≡ shared o
already o e = ap (λ b. record o { must_be_shared = b }) e

mark_shared-Ends :
    (n r : ℕ) (o : Object) (w : World)
    → get_elem? w.heap r ≡ some o
    → r < length w.heap
    → Ends
        (share_chain n (next_lazy o.value))
        (next_lazy o.value)
        (record w { heap = set w.heap r (shared o) })
    → Ends (mark_shared r o >> share_chain n (next_lazy o.value)) (some r) w
unfolding mark_shared
mark_shared-Ends n r o w is lt (done u, w', e, (marked, first)) = (
  done u,
  w',
  e,
  (
    set-Marked w.heap r o is lt w'.heap marked,
    λ p there lazy.
        let q : o ≡ p = cc in
        subst (λ x. get_elem? w'.heap r ≡ some (shared x)) q
          (still (marked.object r (shared o) (get_elem?-set_self w.heap r (shared o) lt))),
  ),
)
  where
    still :
        (get_elem? w'.heap r ≡ some (shared o)) ⊎ (get_elem? w'.heap r ≡ some (shared (shared o)))
        → get_elem? w'.heap r ≡ some (shared o)
    still (inl s) = s
    still (inr s) = s
mark_shared-Ends n r o w is lt (failed c, w', e, marked) =
    (failed c, w', e, set-Marked w.heap r o is lt w'.heap marked)

chosen :
    (a b : Bool) (x y z : Step (Unit {0})) (w : World)
    → a ≡ true
    → b ≡ false
    → (if not a then x else if b then y else z) w ≡ z w
chosen true false x y z w e f = refl
chosen false b x y z w e f = absurd cc
chosen true true x y z w e f = absurd cc

-- The end of a round at a lazy value that is not shared.
abbrev unshared_round : ℕ → ℕ → Object → Bool → Step (Unit {0})
unshared_round n r o b =
    if b then fail unique_object else (mark_shared r o >> share_chain n (next_lazy o.value))

visited_lem :
    (n r : ℕ) (o : Object) (w : World) (b : Bool)
    → is_lazy_object o ≡ true
    → o.must_be_shared ≡ false
    → is_unique w.heap o.value ≡ some b
    → visited n r o w ≡ unshared_round n r o b w
unfolding unique_value
visited_lem n r o w b lazy s u =
    chosen (is_lazy_object o) o.must_be_shared (finish tt) (finish tt)
      (unique_value o.value >>= unshared_round n r o) w lazy s
    ∙ bind_lem (unique_value o.value) (unshared_round n r o) b w w (
        ap (λ x. elim (x) as (λ y. Option (Bool × World)) [ none ↦ none | some c ↦ some (c, w) ]) u)

visited-Ends :
    (n r : ℕ) (o : Object) (w : World)
    → get_elem? w.heap r ≡ some o
    → r < length w.heap
    → IsClosed w.heap
    → CanRaise w.machine
    → (o.must_be_shared ≡ false
        → Ends
            (share_chain n (next_lazy o.value))
            (next_lazy o.value)
            (record w { heap = set w.heap r (shared o) }))
    → Ends (visited n r o) (some r) w
visited-Ends n r o w is lt closed can rest = elim (Bool-cases (is_lazy_object o)) [
  | inr plain ↦ (
    done tt,
    w,
    rw plain refl,
    (same-Marked w.heap, λ p there lazy. let q : o ≡ p = cc in absurd cc),
  )
  | inl lazy ↦ elim (Bool-cases o.must_be_shared) [
    | inl s ↦ (
      done tt,
      w,
      at_shared (is_lazy_object o) o.must_be_shared _ _ w lazy s,
      (
        same-Marked w.heap,
        λ p there lz.
            let q : o ≡ p = cc in
            there ∙ ap some (already p (subst (λ x. x.must_be_shared ≡ true) q s)),
      ),
    )
    | inr s ↦
        let (b, u) = unique_lem w.heap o.value (closed.values r o is) in
        let (x, w', e, q) = on s b in (x, w', visited_lem n r o w b lazy s u ∙ e, q)
  ]
]
  where
    at_shared :
        (a b : Bool) (x z : Step (Unit {0})) (w : World)
        → a ≡ true
        → b ≡ true
        → (if not a then x else if b then finish tt else z) w ≡ some (done tt, w)
    at_shared true true x z w e f = refl
    at_shared false b x z w e f = absurd cc
    at_shared true false x z w e f = absurd cc

    on : o.must_be_shared ≡ false → (b : Bool) → Ends (unshared_round n r o b) (some r) w
    on s true = fail-Ends (some r) w can
    on s false = mark_shared-Ends n r o w is lt (rest s)

share_chain-Ends :
    (n : ℕ) (r : Option ℕ) (w : World)
    → IsClosed w.heap
    → IsNext (length w.heap) r
    → CanRaise w.machine
    → unshared w.heap < n
    → Ends (share_chain n r) r w
unfolding share_chain
share_chain-Ends zero r w closed next can less = absurd (omega arith)
share_chain-Ends (suc n) none w closed next can less = (done tt, w, refl, (same-Marked w.heap, tt))
share_chain-Ends (suc n) (some r) w closed lt can less =
    let (o, is) = get_elem?-lt w.heap r lt in
    let (p, w', e, q) = visited-Ends n r o w is lt closed can λ s.
      let one = unshared-set w.heap r o is s in
      share_chain-Ends n (next_lazy o.value) (record w { heap = set w.heap r (shared o) })
        (set-IsClosed w.heap r o is lt closed)
        (subst (λ k. IsNext k (next_lazy o.value)) (sym (length-set w.heap r (shared o)))
          (next_lazy-IsNext (length w.heap) o.value (closed.values r o is)))
        can (omega arith) in
    (p, w', visit_lem n r o w is ∙ e, q)

-- A value is marked as shared, in a heap in which the references of the lazy values have objects, with a machine
-- in which an error can be set. Then the loop ends, with one round more than there are objects, also where lazy
-- values refer to each other in a circle; the objects are as they were but for must_be_shared, which may be
-- set; and if no error is set, then the lazy value that the value refers to must be shared.
pub set_lazy_values_as_shared_ends :
    (v : Value) (w : World)
    → IsClosed w.heap
    → IsInside (length w.heap) v
    → CanRaise w.machine
    → (o : Outcome (Unit {0})) × (w' : World) × (set_lazy_values_as_shared (suc (length w.heap)) v w
        ≡ some (o, w'))
      × IsShared (next_lazy v) w.heap o w'.heap
unfolding set_lazy_values_as_shared
set_lazy_values_as_shared_ends v w closed inside can =
    let le = unshared_le w.heap in
    share_chain-Ends (suc (length w.heap)) (next_lazy v) w closed
      (next_lazy-IsNext (length w.heap) v inside) can (omega arith)
