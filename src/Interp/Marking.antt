-- ===== src/Interp/Marking.antt =====
-- vm/vm/interp_vm.cpp: heaps in which `set_lazy_values_as_shared` sets must_be_shared.
use letin.Common.{
  ℕ, zero, suc, ◌<◌, ◌≤◌, ◌≡◌, ◌≢◌, refl, sym, ap, subst, ◌∙◌, inl, inr, ◌⊎◌, true, false, [], ◌∷◌,
  some, length, get_elem?, set, get_elem?-set_self, get_elem?-set_ne, length-set, ◌==◌, ==_iff,
  if◌then◌else◌, Bool-cases, arith,
}
use letin.Interp.Outcome.{unique_object, error_number}
use letin.Thread.Errors.{set_error}
use letin.Thread.Outer.{Machine}
use letin.Thread.State.{Value, ref, lazy_value_ref}
use letin.Values.{Object, Heap}

-- The value refers to one of so many objects, if it is a reference to an object or to a lazy value.
abbrev pub IsInside : ℕ → Value → Type 0
IsInside n (ref r) = r < n
IsInside n (lazy_value_ref r b) = r < n
IsInside n v = Unit {0}

-- The values of lazy values are inside the heap.
pub record IsClosed (heap : Heap) : Type 0 where
  pub values : (r : ℕ) (o : Object) → get_elem? heap r ≡ some o → IsInside (length heap) o.value

-- An error can be set: the machine goes to a frame that is there.
abbrev pub CanRaise : Machine → Type 0
CanRaise m = (m' : Machine) × (set_error (error_number unique_object) 0 m ≡ some m')

abbrev pub shared : Object → Object
shared o = record o { must_be_shared = true }

-- The objects are those that were there, some of them with must_be_shared set.
pub record Marked (h h' : Heap) : Type 0 where
  pub object :
      (r : ℕ) (o : Object)
      → get_elem? h r ≡ some o
      → (get_elem? h' r ≡ some o) ⊎ (get_elem? h' r ≡ some (shared o))

unfoldable pub unshared : Heap → ℕ
unshared [] = 0
unshared (o ∷ os) = if o.must_be_shared then unshared os else suc (unshared os)

pub unshared_le : (h : Heap) → unshared h ≤ length h
unfolding unshared
unshared_le [] = omega arith
unshared_le (o ∷ os) = elim (Bool-cases o.must_be_shared) [
  | inl e ↦ let le = unshared_le os in rw e (omega arith)
  | inr e ↦ let le = unshared_le os in rw e (omega arith)
]

pub unshared-set :
    (h : Heap) (r : ℕ) (o : Object)
    → get_elem? h r ≡ some o
    → o.must_be_shared ≡ false
    → unshared h ≡ suc (unshared (set h r (shared o)))
unfolding unshared
unshared-set [] r o is e = absurd cc
unshared-set (p ∷ h) zero o is e =
    let q : p ≡ o = cc in subst (λ x. unshared (x ∷ h) ≡ suc (unshared h)) (sym q) (rw e refl)
unshared-set (p ∷ h) (suc r) o is e = elim (Bool-cases p.must_be_shared) [
  | inl b ↦ rw b (unshared-set h r o is e)
  | inr b ↦ rw b (ap suc (unshared-set h r o is e))
]

module _ (h : Heap) (r : ℕ) (o : Object) (is : get_elem? h r ≡ some o) (lt : r < length h) where
  pub set-IsClosed : IsClosed h → IsClosed (set h r (shared o))
  set-IsClosed closed = record {
    values = λ j p there.
        subst (λ n. IsInside n p.value) (sym (length-set h r (shared o))) (inside j p there);
  }
    where
      inside :
          (j : ℕ) (p : Object)
          → get_elem? (set h r (shared o)) j ≡ some p
          → IsInside (length h) p.value
      inside j p there = elim (Bool-cases (r == j)) [
        | inl e ↦
            let same = (==_iff r j).0 e in
            let at : get_elem? (set h r (shared o)) j ≡ some (shared o) =
              subst (λ k. get_elem? (set h r (shared o)) k ≡ some (shared o)) same
                (get_elem?-set_self h r (shared o) lt) in
            let q : shared o ≡ p = cc in
            subst (λ x. IsInside (length h) x.value) q (closed.values r o is)
        | inr e ↦ closed.values j p (sym (get_elem?-set_ne h (shared o) (differs r j e)) ∙ there)
      ]
        where
          differs : (a b : ℕ) → (a == b) ≡ false → a ≢ b
          differs a b d e = ground arith

  pub set-Marked : (h' : Heap) → Marked (set h r (shared o)) h' → Marked h h'
  set-Marked h' marked = record {
    object = λ j p there. elim (Bool-cases (r == j)) [
      | inl e ↦
          let same = (==_iff r j).0 e in
          let at : get_elem? h j ≡ some o = subst (λ k. get_elem? h k ≡ some o) same is in
          let q : o ≡ p = cc in
          let now : get_elem? (set h r (shared o)) j ≡ some (shared o) =
            subst (λ k. get_elem? (set h r (shared o)) k ≡ some (shared o)) same
              (get_elem?-set_self h r (shared o) lt) in
          inr (
            subst (λ x. get_elem? h' j ≡ some (shared x)) q
              (once h' j (marked.object j (shared o) now)))
      | inr e ↦ marked.object j p (get_elem?-set_ne h (shared o) (differs r j e) ∙ there)
    ];
  }
    where
      differs : (a b : ℕ) → (a == b) ≡ false → a ≢ b
      differs a b d e = ground arith

      once :
          (h' : Heap) (j : ℕ)
          → (get_elem? h' j ≡ some (shared o)) ⊎ (get_elem? h' j ≡ some (shared (shared o)))
          → get_elem? h' j ≡ some (shared o)
      once h' j (inl e) = e
      once h' j (inr e) = e
