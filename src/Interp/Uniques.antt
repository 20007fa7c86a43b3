-- ===== src/Interp/Uniques.antt =====
-- vm/vm/interp_vm.cpp: the operations of `interpret_op` on unique arrays and tuples. The register tmp_r,
-- which only the garbage collector reads, is left out.
use letin.Common.{
  ℕ, suc, ◌+◌, true, false, List, [], ◌∷◌, none, some, length, get_elem?, replicate, leb, ◌==◌,
  if◌then◌else◌,
}
use letin.Interp.Arrays.{share, shared_ref}
use letin.Interp.Fetch.{in_cell, object_at, Reader}
use letin.Interp.Objects.{
  check_object_type, check_shared_for_object, check_shared_for_value, check_object_elem_index,
  check_pushed_arg_count, pushed_arg, put_elems, write_first, write_elem, new_object,
  new_unique_pair, as_elem, set_rv,
}
use letin.Interp.Operands.{with_one, with_two}
use letin.Interp.Outcome.{unique_object, again_used_unique}
use letin.Interp.Readers.{get_int, get_float, get_ref}
use letin.Interp.World.{Runtime, Act, Step, ◌>>=◌, ◌>>◌, ◌>=>◌, on_thread, raise, finish, fail}
use letin.Loader.Format.{Instruction}
use letin.Thread.Saved.{sign_extend}
use letin.Thread.State.{Value, int, float, ref, canceled_ref, lazy_value_ref, read, write}
use letin.Values.{Kind, rarray, tuple, kind_number, type_of, is_unique, is_unique_object}

-- `cancel_ref_for_unique`: what the cell holds then
unfoldable pub cancel_ref_for_unique : Value → Act Value
cancel_ref_for_unique (lazy_value_ref r b) w = some (lazy_value_ref r true, w)
cancel_ref_for_unique (ref r) w = elim (is_unique w.heap (ref r)) [
  | none ↦ none
  | some b ↦ some (if b then canceled_ref r else ref r, w)
]
cancel_ref_for_unique v w = some (v, w)

module _ (rt : Runtime) where
  -- A pair of a value and the object that the operation was given.
  unfoldable pub pair_with : Value → ℕ → Step Value
  unfolding new_unique_pair
  pair_with v r = new_unique_pair rt v (ref r) >=> λ s. finish (ref s)

  -- The operand in the pushed argument `i`.
  unfoldable pub from_pushed_arg : Reader ℕ → ℕ → Step ℕ
  unfolding in_cell
  from_pushed_arg reader i w =
      let c = w.machine.context in
      in_cell rt.globals reader (read (c.abp2 + i)) (write (c.abp2 + i)) w

  -- A new unique object with `n` times the value.
  unfoldable pub filled : Kind → ℕ → Value → Step Value
  unfolding new_object as_elem put_elems
  filled k n v = new_object rt k true n >=> λ r.
      as_elem rt k v >=> λ x. put_elems r (replicate n x) >> finish (ref r)

  -- OP_RUIAFILL8 to OP_RUIAFILL64, and OP_RUTFILLI
  unfoldable pub interpret_fill_int : Kind → Instruction → Step Value
  unfolding get_int with_two filled
  interpret_fill_int k instr = with_two (get_int rt) (get_int rt) instr λ n i. filled k n (int i)

  -- OP_RUSFAFILL, OP_RUDFAFILL and OP_RUTFILLF
  unfoldable pub interpret_fill_float : Kind → Instruction → Step Value
  unfolding get_int get_float with_two filled
  interpret_fill_float k instr =
      with_two (get_int rt) (get_float rt) instr λ n f. filled k n (float f)

  -- What OP_RURAFILL does with a number and a reference: the references are written to the object that is
  -- the fill, as the source has it, and not to the new array. That is undefined where it is not an array of
  -- references with as many elements.
  unfoldable pub fill_refs : ℕ → ℕ → Step Value
  unfolding check_shared_for_object new_object write_first object_at
  fill_refs n r = check_shared_for_object r >=> λ u. new_object rt rarray true n >=> λ r2.
      object_at r >>= λ o.
      (if kind_number o.kind == kind_number rarray
        then write_first r (replicate n (ref r))
        else λ w. none)
      >> finish (ref r2)

  unfoldable pub interpret_rurafill : Instruction → Step Value
  unfolding get_int get_ref with_two fill_refs
  interpret_rurafill instr = with_two (get_int rt) (get_ref rt) instr fill_refs

  -- OP_RUTFILLR; where the reference is unique, two errors are raised.
  unfoldable pub fill_tuple_refs : ℕ → ℕ → Step Value
  unfolding new_object put_elems object_at raise fail
  fill_tuple_refs n r = new_object rt tuple true n >=> λ r2. object_at r >>= λ o.
      if leb n 1
      then put_elems r2 (replicate n (ref r)) >> finish (ref r2)
      else if is_unique_object o
      then raise unique_object >> fail again_used_unique
      else put_elems r2 (replicate n (ref r)) >> finish (ref r2)

  unfoldable pub interpret_rutfillr : Instruction → Step Value
  unfolding get_int get_ref with_two fill_tuple_refs
  interpret_rutfillr instr = with_two (get_int rt) (get_ref rt) instr fill_tuple_refs

  -- The cell of a tuple whose value was taken.
  unfoldable pub taken_elem : ℕ → ℕ → Value → Act (Unit {0})
  unfolding cancel_ref_for_unique write_elem
  taken_elem r i v = cancel_ref_for_unique v >>= write_elem r i

  -- What OP_RUIANTH8 to OP_RUTNTH do with the reference and the index.
  unfoldable pub unique_nth : Kind → ℕ → ℕ → Step Value
  unfolding check_object_type check_object_elem_index shared_ref pair_with taken_elem
  unique_nth tuple r i = check_object_type tuple true r >=> λ o.
      check_object_elem_index rt o i >=> λ v. pair_with v r >=> λ p. taken_elem r i v >> finish p
  unique_nth rarray r i = check_object_type rarray true r >=> λ o.
      check_object_elem_index rt o i >=> shared_ref >=> λ v. pair_with v r
  unique_nth k r i =
      check_object_type k true r >=> λ o. check_object_elem_index rt o i >=> λ v. pair_with v r

  unfoldable pub interpret_unique_nth : Kind → Instruction → Step Value
  unfolding get_ref get_int with_two unique_nth
  interpret_unique_nth k instr = with_two (get_ref rt) (get_int rt) instr (unique_nth k)

  -- The element is set, where the object has the type and the index is below its length.
  unfoldable pub set_nth : Kind → ℕ → ℕ → Value → Step Value
  unfolding check_object_type check_object_elem_index as_elem write_elem
  set_nth k r i v = check_object_type k true r >=> λ o. check_object_elem_index rt o i >=> λ old.
      as_elem rt k v >=> λ x. write_elem r i x >> finish (ref r)

  -- OP_RUIASNTH8 to OP_RURASNTH, whose value is got from the pushed argument by the reader
  unfoldable pub interpret_set_nth : Kind → Reader ℕ → (ℕ → Value) → Instruction → Step Value
  unfolding get_ref get_int with_two check_pushed_arg_count from_pushed_arg set_nth
  interpret_set_nth k reader value instr = with_two (get_ref rt) (get_int rt) instr λ r i.
      check_pushed_arg_count 1 >=> λ u. from_pushed_arg reader 0 >=> λ x. set_nth k r i (value x)

  -- OP_RUTSNTH
  unfoldable pub set_tuple_nth : ℕ → ℕ → Step Value
  unfolding check_pushed_arg_count check_object_type check_object_elem_index pushed_arg
      cancel_ref_for_unique write_elem
  set_tuple_nth r i w =
      (check_pushed_arg_count 1 >=> λ u. check_object_type tuple true r >=> λ o.
      check_object_elem_index rt o i >=> λ old. pushed_arg 0 >>= λ v.
      cancel_ref_for_unique v >>= λ x.
      on_thread (write (w.machine.context.abp2 + 0) x) >> write_elem r i v >> finish (ref r))
        w

  unfoldable pub interpret_rutsnth : Instruction → Step Value
  unfolding get_ref get_int with_two set_tuple_nth
  interpret_rutsnth instr = with_two (get_ref rt) (get_int rt) instr set_tuple_nth

  -- OP_RUIALEN8 to OP_RUTLEN
  unfoldable pub interpret_unique_len : Kind → Instruction → Step Value
  unfolding get_ref with_one check_object_type pair_with
  interpret_unique_len k instr =
      with_one (get_ref rt) instr
        λ r. check_object_type k true r >=> λ o. pair_with (int (length o.elems)) r

  -- OP_RUTYPE
  unfoldable pub interpret_rutype : Instruction → Step Value
  unfolding get_ref with_one object_at pair_with
  interpret_rutype instr =
      with_one (get_ref rt) instr
        λ r. object_at r >>= λ o. pair_with (int (sign_extend (type_of o))) r

  -- The reference that memory holds in a cell.
  unfoldable pub new_cell : List Value → ℕ → Step ℕ
  new_cell vs i w = elim (get_elem? vs i) [
    | none ↦ none
    | some (ref s) ↦ finish s w
    | some v ↦ none
  ]

  -- The loops of OP_RURATORA, which tests the elements of the new array, and of OP_RUTTOT.
  unfoldable pub copy_refs : ℕ → ℕ → List Value → Step (Unit {0})
  unfolding object_at new_cell check_shared_for_object write_elem
  copy_refs r2 i [] = finish tt
  copy_refs r2 i (v ∷ vs) =
      let rest = copy_refs r2 (suc i) vs in
      object_at r2 >>= λ o.
      new_cell o.elems i >=> check_shared_for_object >=> λ u. write_elem r2 i v >> rest

  unfoldable pub copy_values : ℕ → ℕ → List Value → Step (Unit {0})
  unfolding check_shared_for_value share write_elem
  copy_values r2 i [] = finish tt
  copy_values r2 i (v ∷ vs) =
      let rest = copy_values r2 (suc i) vs in
      check_shared_for_value v >=> λ u. share v >=> λ s. write_elem r2 i v >> rest

  unfoldable pub copy_elems : Kind → ℕ → List Value → Step (Unit {0})
  unfolding copy_refs copy_values write_first
  copy_elems rarray r2 vs = copy_refs r2 0 vs
  copy_elems tuple r2 vs = copy_values r2 0 vs
  copy_elems k r2 vs = write_first r2 vs >>= finish

  -- What OP_RUIATOIA8 to OP_RUTTOT do with the reference: the new object has as many elements as arguments
  -- are pushed.
  unfoldable pub shared_copy : Kind → ℕ → Step Value
  unfolding check_object_type new_object copy_elems pair_with set_rv
  shared_copy k r w =
      (check_object_type k true r >=> λ o. new_object rt k false w.machine.context.ac2 >=> λ r2.
      copy_elems k r2 o.elems >=> λ u.
      new_unique_pair rt (ref r2) (ref r) >=> λ r3. set_rv (ref r3) >> finish (ref r3))
        w

  unfoldable pub interpret_copy : Kind → Instruction → Step Value
  unfolding get_ref with_one shared_copy
  interpret_copy k instr = with_one (get_ref rt) instr (shared_copy k)
