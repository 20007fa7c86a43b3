-- ===== src/Values.antt =====
-- include/letin/vm.hpp and vm/vm.cpp: values, objects and the store of objects.
pub mod Size
pub mod Elems
pub mod Equal
pub mod Identity
pub mod Tuples
use letin.Common.{
  ℕ, ◌+◌, ◌-◌, ◌^◌, Bool, true, false, List, Option, none, some, length, get_elem?, ◌==◌,
  if◌then◌else◌,
}
use letin.Thread.State.{
  Value, int, float, ref, pair, canceled_ref, lazy_value_ref, locked_lazy_value_ref, error,
}

-- OBJECT_TYPE_IARRAY8, ... ; `nil` is OBJECT_TYPE_ERROR, the type of the nil object.
pub data Kind : Type 0 where
  iarray8 iarray16 iarray32 iarray64 sfarray dfarray rarray tuple : Kind
  io lazy_value native_object nil : Kind

-- The type is the kind and OBJECT_TYPE_UNIQUE. The elements are the values that `elem` reads, or the bytes
-- of a native object. The other fields of lazy values and native objects stand beside them.
pub record Object : Type 0 where
  pub kind : Kind
  pub unique : Bool
  pub elems : List Value
  pub value_type : ℕ
  pub must_be_shared : Bool
  pub value : Value
  pub function : ℕ
  pub native_type : ℕ
  pub native_class : ℕ

-- The object at a reference.
abbrev pub Heap : Type 0
Heap = List Object

abbrev pub kind_number : Kind → ℕ
kind_number iarray8 = 0
kind_number iarray16 = 1
kind_number iarray32 = 2
kind_number iarray64 = 3
kind_number sfarray = 4
kind_number dfarray = 5
kind_number rarray = 6
kind_number tuple = 7
kind_number io = 8
kind_number lazy_value = 9
kind_number native_object = 10
kind_number nil = 2 ^ 32 - 1

-- An `int`, as 32 bits.
unfoldable pub type_number : Kind → Bool → ℕ
type_number nil u = 2 ^ 32 - 1
type_number k u = if u then kind_number k + 256 else kind_number k

abbrev pub type_of : Object → ℕ
type_of o = type_number o.kind o.unique

-- `Object::is_unique`
unfoldable pub is_unique_object : Object → Bool
is_unique_object o = if kind_number o.kind == kind_number nil then false else o.unique

-- `Value::is_unique`; the reference must have an object.
unfoldable pub is_unique : Heap → Value → Option Bool
unfolding is_unique_object
is_unique heap (ref r) = elim (get_elem? heap r) [
  | none ↦ none
  | some o ↦ some (is_unique_object o)
]
is_unique heap v = some false

-- An object as `new_object` makes it, whose elements are what the memory held.
abbrev pub fresh_object : Kind → Bool → List Value → Object
fresh_object k u vs = record {
  kind = k;
  unique = u;
  elems = vs;
  value_type = 0;
  must_be_shared = false;
  value = error;
  function = 0;
  native_type = 0;
  native_class = 0;
}
