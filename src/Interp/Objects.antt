-- ===== src/Interp/Objects.antt =====
-- vm/vm/interp_vm.cpp: how the interpreter makes objects, tests them and writes to them. A new object has
-- the next number as its reference; freed objects stay in the list.
use letin.Common.{
  ℕ, zero, suc, ◌+◌, Bool, true, List, [], ◌∷◌, ◌++◌, Option, none, some, length, get_elem?, set,
  ltb, ◌==◌, bit_or, if◌then◌else◌,
}
use letin.Interp.Fetch.{object_at}
use letin.Interp.Outcome.{
  done, error_number, incorrect_object, incorrect_value, incorrect_arg_count, out_of_memory,
  index_of_out_bounds, unique_object,
}
use letin.Interp.World.{Act, ◌>>=◌, on_thread, Step, ◌>=>◌, finish, fail, Runtime}
use letin.Thread.Outer.{ReturnValue}
use letin.Thread.State.{Value, int, float, ref, lazy_value_ref, u64, read}
use letin.Values.{
  Kind, tuple, Object, type_number, type_of, is_unique_object, is_unique, fresh_object,
}
use letin.Values.Elems.{stored, loaded}
use letin.Values.Size.{object_size}

-- The object of the reference, where it has the type.
unfoldable pub check_object_type : Kind → Bool → ℕ → Step Object
unfolding object_at fail
check_object_type k u r =
    object_at r >>= λ o. if type_of o == type_number k u then finish o else fail incorrect_object

unfoldable pub check_shared_for_object : ℕ → Step (Unit {0})
unfolding object_at fail
check_shared_for_object r =
    object_at r >>= λ o. if is_unique_object o then fail unique_object else finish tt

unfoldable pub check_shared_for_value : Value → Step (Unit {0})
unfolding fail
check_shared_for_value v w = elim (is_unique w.heap v) [
  | none ↦ none
  | some b ↦ (if b then fail unique_object else finish tt) w
]

unfoldable pub add_object_lengths : ℕ → ℕ → Step ℕ
unfolding fail
add_object_lengths m n =
    let sum = u64 (m + n) in if ltb sum (bit_or m n) then fail out_of_memory else finish sum

unfoldable pub check_pushed_arg_count : ℕ → Step (Unit {0})
unfolding fail
check_pushed_arg_count n w =
    (if w.machine.context.ac2 == n then finish tt else fail incorrect_arg_count) w

-- `pushed_arg(i)`
unfoldable pub pushed_arg : ℕ → Act Value
pushed_arg i w = on_thread (read (w.machine.context.abp2 + i)) w

-- The object with its elements replaced.
unfoldable pub put_elems : ℕ → List Value → Act (Unit {0})
put_elems r vs w = elim (get_elem? w.heap r) [
  | none ↦ none
  | some o ↦ some (tt, record w { heap = set w.heap r (record o { elems = vs }) })
]

-- `dst[i] = v` for the first elements; `none` is a write outside the object.
abbrev pub overwritten : List Value → List Value → Option (List Value)
overwritten [] ws = some ws
overwritten (v ∷ vs) [] = none
overwritten (v ∷ vs) (w ∷ ws) = elim (overwritten vs ws) [ none ↦ none | some xs ↦ some (v ∷ xs) ]

unfoldable pub write_first : ℕ → List Value → Act (Unit {0})
unfolding put_elems
write_first r vs w = elim (get_elem? w.heap r) [
  | none ↦ none
  | some o ↦ elim (overwritten vs o.elems) [ none ↦ none | some xs ↦ put_elems r xs w ]
]

-- `a[i] = v` of an element that is there
unfoldable pub write_elem : ℕ → ℕ → Value → Act (Unit {0})
unfolding put_elems
write_elem r i v w = elim (get_elem? w.heap r) [
  | none ↦ none
  | some o ↦ if ltb i (length o.elems) then put_elems r (set o.elems i v) w else none
]

-- The first `n` cells of new memory.
abbrev pub contents : (ℕ → Value) → ℕ → List Value
contents f zero = []
contents f (suc n) = f 0 ∷ contents (λ i. f (suc i)) n

-- `ReturnValue::operator=`, also through `safely_assign_for_gc`
unfoldable pub return_value : Value → ReturnValue
return_value (int i) = record { i = i; f = 0; r = 0; error_code = 0 }
return_value (float f) = record { i = 0; f = f; r = 0; error_code = 0 }
return_value (ref r) = record { i = 0; f = 0; r = r; error_code = 0 }
return_value (lazy_value_ref r b) = record { i = if b then 1 else 0; f = 0; r = r; error_code = 0 }
return_value v = record { i = 0; f = 0; r = 0; error_code = error_number incorrect_value }

-- `rv = value`
unfoldable pub set_rv : Value → Act (Unit {0})
unfolding return_value
set_rv v w = some (
  tt,
  record w {
    machine = record w.machine { outer = record w.machine.outer { rv = return_value v } };
  },
)

module _ (rt : Runtime) where
  -- `new_object`: `object_size` answers 0 where the size is not a `size_t`.
  unfoldable pub new_object : Kind → Bool → ℕ → Step ℕ
  unfolding object_size fail
  new_object k u n w =
      let size = object_size rt.layout k n in
      if size == 0
      then fail out_of_memory w
      else if rt.has_memory w.heap size
      then some (
        done (length w.heap),
        record w { heap = w.heap ++ (fresh_object k u (contents (rt.memory w.heap k) n) ∷ []) },
      )
      else fail out_of_memory w

  unfoldable pub new_unique_pair : Value → Value → Step ℕ
  unfolding new_object write_first
  new_unique_pair v1 v2 =
      new_object tuple true 2 >=> λ r. write_first r (v1 ∷ v2 ∷ []) >>= λ u. finish r

  -- The element at the index, which is read as an unsigned number.
  unfoldable pub check_object_elem_index : Object → ℕ → Step Value
  unfolding loaded fail
  check_object_elem_index o i w = elim (get_elem? o.elems i) [
    | none ↦ fail index_of_out_bounds w
    | some v ↦ finish (loaded rt.format_float o.kind v) w
  ]

  -- A value as an element of the kind, where it has the type that the kind wants.
  unfoldable pub as_elem : Kind → Value → Step Value
  unfolding stored fail
  as_elem k v = elim (stored rt.round_float k v) as (λ x. Step Value) [
    | none ↦ fail incorrect_value
    | some x ↦ finish x
  ]
