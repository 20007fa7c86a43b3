-- ===== src/Tests/Objects.antt =====
-- vm/vm.cpp: a tuple of three elements, a byte array, and two pairs of integers.
use letin.Common.{
  ◌+◌, ◌*◌, ◌≡◌, ◌≢◌, ◌⊎◌, ◌↔◌, ℕ, refl, Bool, true, false, [], ◌∷◌, some, length, ◌==◌, arith,
}
use letin.Thread.State.{Value, int}
use letin.Values.{Object, iarray8, tuple, fresh_object, type_of}
use letin.Values.Elems.{Reads, elem, fits8, set_elem, set_elem-elem}
use letin.Values.Equal.{equal_objects, object_eq}
use letin.Values.Identity.{object_eq_iff, is_data, is_plain}
use letin.Values.Size.{Layout, Fits, object_size, object_size_lem, header_size}
use letin.Values.Tuples.{all_differ, int_tuple, equal_objects-int_tuple}

abbrev layout : Layout
layout = record { plain = 16; lazy_args = 88; native_bytes = 32 }

-- The size of a tuple with three elements.
object_size_lem_example :
    (Fits (header_size layout tuple) 9 3
      × (object_size layout tuple 3 ≡ header_size layout tuple + 3 * 9))
    ⊎ ((Fits (header_size layout tuple) 9 3 → ⊥) × (object_size layout tuple 3 ≡ 0))
object_size_lem_example = object_size_lem layout tuple 3 9 refl (omega arith)

abbrev bytes : Object
bytes = fresh_object iarray8 true (int 7 ∷ int 8 ∷ [])

abbrev any_pattern : ℕ → ℕ
any_pattern f = f

set_elem-elem_example :
    (p : Object) × (w : Value) × (set_elem any_pattern 1 (int 300) bytes ≡ some (true, p))
    × (elem any_pattern p 1 ≡ some w)
    × Reads any_pattern any_pattern iarray8 (int 300) w
    × ((j : ℕ) → 1 ≢ j → elem any_pattern p j ≡ elem any_pattern bytes j)
    × (length p.elems ≡ length bytes.elems)
    × (p.kind ≡ bytes.kind)
    × (p.unique ≡ bytes.unique)
set_elem-elem_example = set_elem-elem any_pattern any_pattern 1 (int 300) bytes fits8 (omega arith)

abbrev same_patterns : ℕ → ℕ → Bool
same_patterns a b = a == b

abbrev same_bytes : Object
same_bytes = fresh_object iarray8 true (int 7 ∷ int 8 ∷ [])

int_plain : (i : ℕ) → is_plain (int i) ≡ true
unfolding is_plain
int_plain i = refl

bytes_data : is_data iarray8 ≡ true
unfolding is_data
bytes_data = refl

-- Two arrays of bytes with the same elements.
object_eq_iff_example :
    (object_eq same_patterns same_patterns bytes same_bytes ≡ true)
    ↔ ((type_of bytes ≡ type_of same_bytes) × (bytes.elems ≡ same_bytes.elems))
object_eq_iff_example =
    object_eq_iff same_patterns same_patterns bytes same_bytes bytes_data
      (int_plain 7, (int_plain 8, tt)) (int_plain 7, (int_plain 8, tt))

-- (1, 2) and (1, 2).
equal_objects-int_tuple_example :
    equal_objects same_patterns same_patterns
      (λ o p. false)
      []
      1
      (int_tuple false (1 ∷ 2 ∷ []))
      (int_tuple false (1 ∷ 2 ∷ []))
    ≡ some (all_differ (1 ∷ 2 ∷ []) (1 ∷ 2 ∷ []))
equal_objects-int_tuple_example =
    equal_objects-int_tuple same_patterns same_patterns (λ o p. false) [] 0 false (1 ∷ 2 ∷ [])
      (1 ∷ 2 ∷ []) refl
