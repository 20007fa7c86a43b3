-- ===== src/Relocate/Elems.antt =====
-- vm/vm.cpp: `Program::get_elem_fun_index` and `Program::set_elem_fun_index`.
use letin.Common.{
  ℕ, ◌+◌, ◌-◌, ◌*◌, ◌/◌, ◌%◌, ◌^◌, Bool, true, false, ◌||◌, List, [], ◌∷◌, Option, none, some, ltb,
  leb, ◌==◌, if◌then◌else◌, set,
}
use letin.Loader.Format.{
  Object, u32, value_type_int, object_type_iarray32, object_type_iarray64, object_type_tuple,
}
use letin.Loader.Result.{Load, ok, reject, guard, ◌>>=◌, ◌>>◌}
use letin.Relocate.Indexes.{Image, widen, found, at}

unfoldable pub last_of : Option Object → Object → ℕ → Option Object
last_of (some x) o addr = some x
last_of none o addr = if leb o.addr addr then some o else none

-- The last object that starts at `addr` or before it. The objects stand in the order of their
-- addresses.
unfoldable pub object_at : List Object → ℕ → Option Object
unfolding last_of
object_at [] addr = none
object_at (o ∷ os) addr = last_of (object_at os addr) o addr

-- The number of the element at `addr`, for elements of `size` bytes.
abbrev pub elem_number : Object → ℕ → ℕ → ℕ
elem_number o size addr = (addr - (o.addr + 8)) / size

unfoldable pub in_elems : Object → ℕ → ℕ → Load (Unit {0})
in_elems o size addr = do
  guard (ltb addr (o.addr + 8 + u32 (o.length * size)))
  guard ((addr - (o.addr + 8)) % size == 0)

-- A word is a function's index, or a native function's, as an `int64_t`.
unfoldable pub is_index : Bool → ℕ → Bool
is_index false w = leb w (2 ^ 32 - 1)
is_index true w = leb w (2 ^ 31 - 1) || leb (2 ^ 64 - 2 ^ 31) w

unfoldable pub get32 : ℕ → Object → Load (ℕ × Object)
unfolding in_elems widen at
get32 addr o = do in_elems o 4 addr; w ← at o.elems (elem_number o 4 addr); ok (widen w, o)

unfoldable pub check_tuple : ℕ → Object → Load (Unit {0})
unfolding at
check_tuple addr o =
    if o.type == object_type_tuple
    then (do t ← at o.elem_types (elem_number o 8 addr); guard (t == value_type_int))
    else ok tt

unfoldable pub get64 : ℕ → Bool → Object → Load (ℕ × Object)
unfolding in_elems at is_index check_tuple
get64 addr is_native_fun_index o = do
  in_elems o 8 addr
  check_tuple addr o
  w ← at o.elems (elem_number o 8 addr)
  guard (is_index is_native_fun_index w)
  ok (w, o)

-- The `switch`.
unfoldable pub get_elem : ℕ → Bool → Object → Load (ℕ × Object)
unfolding get32 get64
get_elem addr is_native_fun_index o =
    if o.type == object_type_iarray32
    then get32 addr o
    else if o.type == object_type_iarray64 || o.type == object_type_tuple
    then get64 addr is_native_fun_index o
    else reject

-- The index at `addr`, as a `size_t`, and the object that it is in.
unfoldable pub get_elem_fun_index : Image → ℕ → Bool → Load (ℕ × Object)
unfolding found object_at get_elem
get_elem_fun_index p addr is_native_fun_index = do
  o ← found (object_at p.objects addr)
  guard (leb (o.addr + 8) addr)
  get_elem addr is_native_fun_index o

-- Element `k` of the object at address `a` is set.
unfoldable pub put_elem : ℕ → ℕ → ℕ → List Object → List Object
put_elem a k w [] = []
put_elem a k w (o ∷ os) =
    let rest = put_elem a k w os in
    if o.addr == a then record o { elems = set o.elems k w } ∷ rest else o ∷ rest

abbrev pub with_elem : Image → Object → ℕ → ℕ → Image
with_elem p o k w = record p {
  program = record p.program { objects = put_elem o.addr k w p.objects };
}

unfoldable pub set_elem_fun_index : Image → ℕ → ℕ → Object → Load Image
unfolding at put_elem
set_elem_fun_index p addr index o =
    if o.type == object_type_iarray32
    then (do
      old ← at o.elems (elem_number o 4 addr)
      ok (with_elem p o (elem_number o 4 addr) (u32 index)))
    else if o.type == object_type_iarray64 || o.type == object_type_tuple
    then (do
      old ← at o.elems (elem_number o 8 addr)
      ok (with_elem p o (elem_number o 8 addr) index))
    else reject
