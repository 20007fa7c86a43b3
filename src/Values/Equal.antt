-- ===== src/Values/Equal.antt =====
-- vm/vm.cpp: `Value::operator==` and `Object::operator==`, and `equal_values` and `equal_objects`, which
-- the memoization cache compares arguments with. The equality of doubles and of floats, and that of two native objects of
-- one class, are parameters.
use letin.Common.{
  ℕ, zero, suc, ◌-◌, ◌^◌, Bool, true, false, ◌&&◌, not, List, [], ◌∷◌, Option, none, some, length,
  get_elem?, ◌==◌, if◌then◌else◌,
}
use letin.Thread.State.{
  Value, int, float, ref, pair, canceled_ref, lazy_value_ref, locked_lazy_value_ref, error,
}
use letin.Values.{
  Kind, sfarray, rarray, tuple, io, lazy_value, native_object, nil, Object, type_of, Heap,
}

-- `type()`, an `int` as 32 bits
unfoldable pub type_tag : Value → ℕ
type_tag (int i) = 0
type_tag (float f) = 1
type_tag (ref r) = 2
type_tag (pair a b) = 3
type_tag (canceled_ref r) = 4
type_tag (lazy_value_ref r false) = 5
type_tag (lazy_value_ref r true) = 69
type_tag (locked_lazy_value_ref r) = 6
type_tag error = 2 ^ 32 - 1

-- `raw().i`, `raw().f` or `raw().r`, and `raw().p.first` of a pair
unfoldable pub raw : Value → ℕ
raw (int i) = i
raw (float f) = f
raw (ref r) = r
raw (pair a b) = a
raw (canceled_ref r) = r
raw (lazy_value_ref r b) = r
raw (locked_lazy_value_ref r) = r
raw error = 0

module _ (equal_float : ℕ → ℕ → Bool) where
  -- `Value::operator==`, which compares the first number of a pair twice
  unfoldable pub value_eq : Value → Value → Bool
  unfolding type_tag raw
  value_eq v w =
      if not (type_tag v == type_tag w)
      then false
      else if type_tag v == 1
      then equal_float (raw v) (raw w)
      else if type_tag v == 2 ^ 32 - 1
      then true
      else raw v == raw w

  unfoldable pub all_eq : List Value → List Value → Bool
  unfolding value_eq
  all_eq [] ws = true
  all_eq (v ∷ vs) [] = false
  all_eq (v ∷ vs) (w ∷ ws) = value_eq v w && all_eq vs ws

-- The equality of doubles, and of floats, which the elements of OBJECT_TYPE_SFARRAY are.
module _ (equal_float equal_single : ℕ → ℕ → Bool) where
  -- The fields of a lazy value, and of a native object.
  unfoldable pub same_fields : Object → Object → Bool
  unfolding value_eq
  same_fields o p =
      if o.value_type == p.value_type
      then (if (if o.must_be_shared then p.must_be_shared else not p.must_be_shared)
          then value_eq equal_float o.value p.value && (o.function == p.function)
          else false)
      else false

  unfoldable pub same_natives : Object → Object → Bool
  same_natives o p = (o.native_type == p.native_type) && (o.native_class == p.native_class)

  unfoldable pub content_eq : Kind → Object → Object → Bool
  unfolding all_eq same_fields same_natives
  content_eq io o p = false
  content_eq nil o p = false
  content_eq lazy_value o p = same_fields o p && all_eq equal_float o.elems p.elems
  content_eq native_object o p = same_natives o p && all_eq equal_float o.elems p.elems
  content_eq sfarray o p = all_eq equal_single o.elems p.elems
  content_eq _ o p = all_eq equal_float o.elems p.elems

  -- `Object::operator==`
  unfoldable pub object_eq : Object → Object → Bool
  unfolding content_eq
  object_eq o p =
      if not (type_of o == type_of p)
      then false
      else if not (length o.elems == length p.elems)
      then false
      else content_eq o.kind o p

  module _ (equal_natives : Object → Object → Bool) (heap : Heap) where
    -- `none` is a reference to no object.
    unfoldable pub object_pair : ℕ → ℕ → Option (Object × Object)
    object_pair r s = elim (get_elem? heap r) [
      | none ↦ none
      | some o ↦ elim (get_elem? heap s) [ none ↦ none | some p ↦ some (o, p) ]
    ]

    abbrev pub on_objects : (Object → Object → Option Bool) → Option (Object × Object) → Option Bool
    on_objects equal none = none
    on_objects equal (some (o, p)) = equal o p

    -- `equal_values`, with `equal_objects` for the objects of two references
    unfoldable pub equal_values_with : (Object → Object → Option Bool) → Value → Value → Option Bool
    unfolding object_pair
    equal_values_with equal (int i) (int j) = some (i == j)
    equal_values_with equal (float f) (float g) = some (equal_float f g)
    equal_values_with equal (ref r) (ref s) =
        if r == s then some true else on_objects equal (object_pair r s)
    equal_values_with equal v w = some false

    -- A loop that returns false at the first pair of which the test holds.
    unfoldable pub none_of : (Value → Value → Option Bool) → List Value → List Value → Option Bool
    none_of test [] ws = some true
    none_of test (v ∷ vs) [] = none
    none_of test (v ∷ vs) (w ∷ ws) = elim (test v w) [
      | none ↦ none
      | some b ↦ elim (b) [ true ↦ some false | false ↦ none_of test vs ws ]
    ]

    -- The test of two references in the loop over reference arrays.
    unfoldable pub other_but_equal : (Object → Object → Option Bool) → Value → Value → Option Bool
    unfolding object_pair
    other_but_equal equal (ref r) (ref s) =
        if r == s then some false else on_objects equal (object_pair r s)
    other_but_equal equal v w = none

    unfoldable pub equal_content :
        (Object → Object → Option Bool) → Kind → Object → Object → Option Bool
    unfolding all_eq equal_values_with none_of other_but_equal
    equal_content equal rarray o p = none_of (other_but_equal equal) o.elems p.elems
    equal_content equal tuple o p = none_of (equal_values_with equal) o.elems p.elems
    equal_content equal native_object o p = some (equal_natives o p)
    equal_content equal io o p = some false
    equal_content equal lazy_value o p = some false
    equal_content equal nil o p = some false
    equal_content equal sfarray o p = some (all_eq equal_single o.elems p.elems)
    equal_content equal _ o p = some (all_eq equal_float o.elems p.elems)

    -- On fuel, for the depth of the objects.
    unfoldable pub equal_objects : ℕ → Object → Object → Option Bool
    unfolding equal_content
    equal_objects zero o p = none
    equal_objects (suc n) o p =
        let rest = equal_objects n in
        if not (type_of o == type_of p)
        then some false
        else if not (length o.elems == length p.elems)
        then some false
        else equal_content rest o.kind o p

    unfoldable pub equal_values : ℕ → Value → Value → Option Bool
    unfolding equal_objects equal_values_with
    equal_values n v w = equal_values_with (equal_objects n) v w
