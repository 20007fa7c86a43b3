-- ===== src/Values/Tuples.antt =====
-- vm/vm.cpp: what `equal_objects` answers on tuples.
use letin.Common.{
  ℕ, suc, ◌≡◌, refl, sym, ap, ◌∙◌, Bool, true, false, not, List, [], ◌∷◌, Option, some, length, map,
  ◌==◌, ◌&&◌, ==_iff, if◌then◌else◌, Bool-cases, inl, inr, arith,
}
use letin.Thread.State.{Value, int}
use letin.Values.{tuple, Object, fresh_object, type_of, Heap}
use letin.Values.Equal.{equal_objects, equal_content, equal_values_with, none_of}

abbrev ints : List ℕ → List Value
ints is = map int is

abbrev pub int_tuple : Bool → List ℕ → Object
int_tuple u is = fresh_object tuple u (ints is)

-- The two lists have different numbers at each place.
unfoldable pub all_differ : List ℕ → List ℕ → Bool
all_differ [] js = true
all_differ (i ∷ is) [] = true
all_differ (i ∷ is) (j ∷ js) = not (i == j) && all_differ is js

module _ (equal_float equal_single : ℕ → ℕ → Bool) (equal_natives : Object → Object → Bool)
    (heap : Heap) where
  abbrev compared : (Object → Object → Option Bool) → Value → Value → Option Bool
  compared equal = equal_values_with equal_float equal_single equal_natives heap equal

  none_of-step :
      (test : Value → Value → Option Bool) (v w : Value) (vs ws : List Value) (b : Bool)
      → test v w ≡ some b
      → none_of equal_float equal_single equal_natives heap test (v ∷ vs) (w ∷ ws)
        ≡ (if b then some false else none_of equal_float equal_single equal_natives heap test vs ws)
  unfolding none_of
  none_of-step test v w vs ws b e = rw (e, none_of) (by_cases b)
    where
      by_cases :
          (b : Bool)
          → elim (b) as (λ x. Option Bool) [
            | true ↦ some false
            | false ↦ none_of equal_float equal_single equal_natives heap test vs ws
          ]
            ≡ (if b
                then some false
                else none_of equal_float equal_single equal_natives heap test vs ws)
      by_cases true = refl
      by_cases false = refl

  none_of-ints :
      (equal : Object → Object → Option Bool) (is js : List ℕ)
      → length is ≡ length js
      → none_of equal_float equal_single equal_natives heap (compared equal) (ints is) (ints js)
        ≡ some (all_differ is js)
  unfolding equal_values_with none_of all_differ
  none_of-ints equal [] [] same = refl
  none_of-ints equal [] (j ∷ js) same = absurd (omega arith)
  none_of-ints equal (i ∷ is) [] same = absurd (omega arith)
  none_of-ints equal (i ∷ is) (j ∷ js) same = elim (Bool-cases (i == j)) [
    | inl e ↦
        none_of-step (compared equal) (int i) (int j) (ints is) (ints js) true (ap some e)
        ∙ rw e refl
    | inr e ↦
        none_of-step (compared equal) (int i) (int j) (ints is) (ints js) false (ap some e)
        ∙ none_of-ints equal is js (omega arith)
        ∙ rw e refl
  ]

  ints_length : (is : List ℕ) → length (ints is) ≡ length is
  ints_length [] = refl
  ints_length (i ∷ is) = ap suc (ints_length is)

  -- On two tuples of integers of the same type and length, `equal_objects` answers that they are equal just
  -- when they have different integers at every place.
  pub equal_objects-int_tuple :
      (n : ℕ) (u : Bool) (is js : List ℕ)
      → length is ≡ length js
      → equal_objects equal_float equal_single equal_natives heap
          (suc n)
          (int_tuple u is)
          (int_tuple u js)
        ≡ some (all_differ is js)
  unfolding equal_objects equal_content
  equal_objects-int_tuple n u is js same =
      let t = type_of (int_tuple u is) in
      rw
        (
          (==_iff t t).1 refl,
          (==_iff (length (ints is)) (length (ints js))).1
              (ints_length is ∙ same ∙ sym (ints_length js)),
        )
        (none_of-ints (equal_objects equal_float equal_single equal_natives heap n) is js same)
