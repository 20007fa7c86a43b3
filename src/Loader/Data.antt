-- ===== src/Loader/Data.antt =====
-- vm/impl_loader.cpp: the loop over the data section. `base` is its offset in the file.
pub mod Layout
use letin.Common.{
  ℕ, zero, suc, ◌+◌, ◌*◌, ◌/◌, ◌%◌, ◌^◌, ◌≤◌, ◌<◌, ◌≡◌, Bool, true, false, List, [], ◌∷◌, Option,
  none, some, bit_or, ltb, leb, ◌==◌, if◌then◌else◌,
}
use letin.Loader.Addrs.{erase}
use letin.Loader.Bytes.{read_byte, read_word, read_words}
use letin.Loader.Format.{
  Object, u32, u64, align, is_value_type, object_type_iarray8, object_type_iarray16,
  object_type_iarray32, object_type_iarray64, object_type_sfarray, object_type_dfarray,
  object_type_rarray, object_type_tuple,
}
use letin.Loader.Result.{Load, ok, reject, stuck, guard, ◌>>=◌, ◌>>◌}
use letin.Loader.Sizes.{check_align}

-- The first `switch`: the bytes of one element.
unfoldable pub elem_size : ℕ → Option ℕ
elem_size type =
    if type == object_type_iarray8
    then some 1
    else if type == object_type_iarray16
    then some 2
    else if type == object_type_iarray32
    then some 4
    else if type == object_type_iarray64
    then some 8
    else if type == object_type_sfarray
    then some 4
    else if type == object_type_dfarray
    then some 8
    else if type == object_type_rarray
    then some 4
    else if type == object_type_tuple
    then some 9
    else none

or_reject : Option ℕ → Load ℕ
or_reject none = reject
or_reject (some n) = ok n

module _ (bs : List ℕ) where
  -- A tuple's elements: the word at `p` and its type at `q`, for each of `n`.
  unfoldable pub read_tuple : ℕ → ℕ → ℕ → Load (List ℕ × List ℕ)
  read_tuple p q zero = ok ([], [])
  read_tuple p q (suc n) = do
    w ← read_word bs 8 p
    t ← read_byte bs q
    guard (is_value_type t)
    (ws, ts) ← read_tuple (p + 8) (q + 1) n
    ok (w ∷ ws, t ∷ ts)

  -- The second `switch`: the elements of an object whose elements start at `p`.
  unfoldable pub read_elems : ℕ → ℕ → ℕ → ℕ → Load (List ℕ × List ℕ)
  unfolding read_tuple
  read_elems type size p n =
      if type == object_type_tuple
      then read_tuple p (p + u32 (n * 8)) n
      else read_words bs size p n >>= λ ws. ok (ws, [])

  module _ (base data_size : ℕ) where
    -- One round of the loop at offset `i`: the object there, and the next offset.
    unfoldable pub read_object : ℕ → Load (Object × ℕ)
    unfolding elem_size or_reject read_elems check_align
    read_object i = do
      type ← read_word bs 4 (base + i)
      length ← read_word bs 4 (base + i + 4)
      let elems_i = u64 (i + 8)
      guard (leb (bit_or i 8) elems_i)
      size ← or_reject (elem_size type)
      let elem_array_size = u64 (length * size)
      guard (elem_array_size / size == length)
      let end_i = u64 (elems_i + elem_array_size)
      guard (leb (bit_or elems_i elem_array_size) end_i)
      guard (leb end_i data_size)
      (elems, elem_types) ← read_elems type size (base + elems_i) length
      check_align end_i
      ok (
          (
            record {
              addr = i;
              type = type;
              length = length;
              elems = elems;
              elem_types = elem_types;
            },
            align end_i 8,
          ))

    -- The loop from offset `i`, with the addresses of variables that no object has met yet.
    unfoldable pub read_data : ℕ → ℕ → List ℕ → Load (List Object × List ℕ)
    read_data zero i var_addrs = elim (ltb i data_size) [
      | true ↦ stuck
      | false ↦ ok ([], var_addrs)
    ]
    read_data (suc fuel) i var_addrs = elim (ltb i data_size) [
      | true ↦ do
        (object, next) ← read_object i
        (objects, left) ← read_data fuel next (erase (u32 i) var_addrs)
        ok (object ∷ objects, left)
      | false ↦ ok ([], var_addrs)
    ]
