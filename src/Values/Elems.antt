-- ===== src/Values/Elems.antt =====
-- vm/vm.cpp: `Object::elem` and `Object::set_elem`. The element of an array of integers is the bits that the
-- element's width keeps, and that of OBJECT_TYPE_SFARRAY is the pattern of a float.
use letin.Common.{
  ℕ, ◌+◌, ◌-◌, ◌*◌, ◌%◌, ◌^◌, ◌<◌, ◌≡◌, ◌≢◌, refl, sym, ap, ◌∙◌, ◌⊎◌, ◌≤◌, Bool, true, false,
  Option, none, some, length, length-set, get_elem?, get_elem?-set_self, get_elem?-set_ne, set, ltb,
  lt→ltb, if◌then◌else◌, arith,
}
use letin.Thread.State.{
  Value, int, float, ref, pair, canceled_ref, lazy_value_ref, locked_lazy_value_ref, error,
}
use letin.Values.{
  Kind, iarray8, iarray16, iarray32, iarray64, sfarray, dfarray, rarray, tuple, io, lazy_value,
  native_object, nil, Object,
}

-- The lower bits of a word, `half` and one more, as a signed number of 64 bits.
unfoldable pub signed : ℕ → ℕ → ℕ
signed half i = let r = i % (half * 2) in if ltb r half then r else r + 2 ^ 64 - half * 2

abbrev pub as_int : (ℕ → ℕ) → Value → Option Value
as_int f (int i) = some (int (f i))
as_int f _ = none

abbrev pub as_float : (ℕ → ℕ) → Value → Option Value
as_float f (float x) = some (float (f x))
as_float f _ = none

abbrev pub as_ref : Value → Option Value
as_ref (ref r) = some (ref r)
as_ref _ = none

-- The bits of an element, whatever was written there.
abbrev bits : Value → ℕ
bits (int i) = i
bits (float f) = f
bits (ref r) = r
bits (pair a b) = a
bits (canceled_ref r) = r
bits (lazy_value_ref r b) = r
bits (locked_lazy_value_ref r) = r
bits error = 0

unfoldable pub has_elems : Kind → Bool
has_elems io = false
has_elems native_object = false
has_elems nil = false
has_elems _ = true

-- The double of a float.
module _ (format_float : ℕ → ℕ) where
  -- The value that the bits of an element are, by the type of the element.
  unfoldable pub loaded : Kind → Value → Value
  unfolding signed
  loaded iarray8 v = int (signed (2 ^ 7) (bits v))
  loaded iarray16 v = int (signed (2 ^ 15) (bits v))
  loaded iarray32 v = int (signed (2 ^ 31) (bits v))
  loaded iarray64 v = int (bits v)
  loaded sfarray v = float (format_float (bits v))
  loaded dfarray v = float (bits v)
  loaded rarray v = ref (bits v)
  loaded _ v = v

  -- `Object::elem`; `none` is a read outside the object.
  unfoldable pub elem : Object → ℕ → Option Value
  unfolding has_elems loaded
  elem o i =
      if has_elems o.kind
      then elim (get_elem? o.elems i) as (λ x. Option Value) [
        | none ↦ none
        | some v ↦ some (loaded o.kind v)
      ]
      else some error

-- The float of a double.
module _ (round_float : ℕ → ℕ) where
  -- What is stored in an element where the value is assigned to it and has the element's type.
  unfoldable pub stored : Kind → Value → Option Value
  stored iarray8 v = as_int (λ i. i % 2 ^ 8) v
  stored iarray16 v = as_int (λ i. i % 2 ^ 16) v
  stored iarray32 v = as_int (λ i. i % 2 ^ 32) v
  stored iarray64 v = as_int (λ i. i) v
  stored sfarray v = as_float round_float v
  stored dfarray v = as_float (λ f. f) v
  stored rarray v = as_ref v
  stored tuple v = some v
  stored lazy_value v = some v
  stored _ v = none

  -- The result, and the object after it; `none` is a write outside the object.
  unfoldable pub set_elem : ℕ → Value → Object → Option (Bool × Object)
  unfolding stored
  set_elem i v o = elim (stored o.kind v) [
    | none ↦ some (false, o)
    | some w ↦
        if ltb i (length o.elems) then some (true, record o { elems = set o.elems i w }) else none
  ]

-- The values that have the type of the elements of an object of the kind.
pub data Fits : Kind → Value → Type 0 where
  fits8 : {i : ℕ} → Fits iarray8 (int i)
  fits16 : {i : ℕ} → Fits iarray16 (int i)
  fits32 : {i : ℕ} → Fits iarray32 (int i)
  fits64 : {i : ℕ} → Fits iarray64 (int i)
  fits_single : {f : ℕ} → Fits sfarray (float f)
  fits_double : {f : ℕ} → Fits dfarray (float f)
  fits_ref : {r : ℕ} → Fits rarray (ref r)
  fits_tuple : {v : Value} → Fits tuple v
  fits_lazy : {v : Value} → Fits lazy_value v

-- `j` is a signed number of `n` bits, on 64 bits, with the lower bits of `i`.
abbrev pub IsSigned : ℕ → ℕ → ℕ → Type 0
IsSigned n i j =
    (j % 2 ^ n ≡ i % 2 ^ n) × ((j < 2 ^ (n - 1)) ⊎ ((2 ^ 64 - 2 ^ (n - 1) ≤ j) × (j < 2 ^ 64)))

module _ (round_float format_float : ℕ → ℕ) where
  -- What is read where the value was written.
  pub data Reads : Kind → Value → Value → Type 0 where
    reads8 : {i j : ℕ} → IsSigned 8 i j → Reads iarray8 (int i) (int j)
    reads16 : {i j : ℕ} → IsSigned 16 i j → Reads iarray16 (int i) (int j)
    reads32 : {i j : ℕ} → IsSigned 32 i j → Reads iarray32 (int i) (int j)
    reads64 : {i : ℕ} → Reads iarray64 (int i) (int i)
    reads_single : {f : ℕ} → Reads sfarray (float f) (float (format_float (round_float f)))
    reads_double : {f : ℕ} → Reads dfarray (float f) (float f)
    reads_ref : {r : ℕ} → Reads rarray (ref r) (ref r)
    reads_tuple : {v : Value} → Reads tuple v v
    reads_lazy : {v : Value} → Reads lazy_value v v

  signed8 : (i : ℕ) → IsSigned 8 i (signed (2 ^ 7) (i % 2 ^ 8))
  unfolding signed
  signed8 i = ground arith

  signed16 : (i : ℕ) → IsSigned 16 i (signed (2 ^ 15) (i % 2 ^ 16))
  unfolding signed
  signed16 i = ground arith

  signed32 : (i : ℕ) → IsSigned 32 i (signed (2 ^ 31) (i % 2 ^ 32))
  unfolding signed
  signed32 i = ground arith

  -- The stored element of a value that fits, and what is read of it.
  abbrev Stored : Kind → Value → Type 0
  Stored k v =
      (x : Value) × (stored round_float k v ≡ some x)
      × (has_elems k ≡ true)
      × Reads k v (loaded format_float k x)

  stored_lem : {k : Kind} {v : Value} → Fits k v → Stored k v
  unfolding stored has_elems loaded
  stored_lem (fits8 {i = i}) = (int (i % 2 ^ 8), refl, refl, reads8 (signed8 i))
  stored_lem (fits16 {i = i}) = (int (i % 2 ^ 16), refl, refl, reads16 (signed16 i))
  stored_lem (fits32 {i = i}) = (int (i % 2 ^ 32), refl, refl, reads32 (signed32 i))
  stored_lem (fits64 {i = i}) = (int i, refl, refl, reads64)
  stored_lem (fits_single {f = f}) = (float (round_float f), refl, refl, reads_single)
  stored_lem (fits_double {f = f}) = (float f, refl, refl, reads_double)
  stored_lem (fits_ref {r = r}) = (ref r, refl, refl, reads_ref)
  stored_lem (fits_tuple {v = v}) = (v, refl, refl, reads_tuple)
  stored_lem (fits_lazy {v = v}) = (v, refl, refl, reads_lazy)

  set_elem-stored :
      (i : ℕ) (v x : Value) (o : Object)
      → stored round_float o.kind v ≡ some x
      → i < length o.elems
      → set_elem round_float i v o ≡ some (true, record o { elems = set o.elems i x })
  unfolding set_elem
  set_elem-stored i v x o e lt = rw (e, set_elem, lt→ltb i (length o.elems) lt) refl

  elem_at :
      (o : Object) (i : ℕ) (x : Option Value)
      → get_elem? o.elems i ≡ x
      → has_elems o.kind ≡ true
      → elem format_float o i ≡ elim (x) as (λ y. Option Value) [
        | none ↦ none
        | some v ↦ some (loaded format_float o.kind v)
      ]
  unfolding elem
  elem_at o i x e has = rw has (
      ap
        (λ y. elim (y) as (λ z. Option Value) [
          | none ↦ none
          | some v ↦ some (loaded format_float o.kind v)
        ])
        e)

  -- An element is set to a value of its type, at an index below the length. Then set_elem succeeds, and elem
  -- reads at the index: in an array of 8, 16 or 32 bits the signed number of this width, on 64 bits, that has
  -- the lower bits of the value; in an array of floats the double of the float of the value; and in all other
  -- objects the value. The other elements, the length and the type are as before.
  pub set_elem-elem :
      (i : ℕ) (v : Value) (o : Object)
      → Fits o.kind v
      → i < length o.elems
      → (p : Object) × (w : Value) × (set_elem round_float i v o ≡ some (true, p))
        × (elem format_float p i ≡ some w)
        × Reads o.kind v w
        × ((j : ℕ) → i ≢ j → elem format_float p j ≡ elem format_float o j)
        × (length p.elems ≡ length o.elems)
        × (p.kind ≡ o.kind)
        × (p.unique ≡ o.unique)
  set_elem-elem i v o fits lt =
      let (x, e, has, reads) = stored_lem fits in
      let p : Object = record o { elems = set o.elems i x } in
      (
        p,
        loaded format_float o.kind x,
        set_elem-stored i v x o e lt,
        elem_at p i (some x) (get_elem?-set_self o.elems i x lt) has,
        reads,
        λ j ne.
            elem_at p j (get_elem? o.elems j) (get_elem?-set_ne o.elems x ne) has
            ∙ sym (elem_at o j (get_elem? o.elems j) refl has),
        length-set o.elems i x,
        refl,
        refl,
      )
