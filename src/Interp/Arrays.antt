-- ===== src/Interp/Arrays.antt =====
-- vm/vm/interp_vm.cpp: the operations of `interpret_op` on shared arrays and tuples.
use letin.Common.{ℕ, zero, suc, false, ◌++◌, length, ◌==◌, ◌&&◌, not, if◌then◌else◌}
use letin.Interp.Arith.{truth}
use letin.Interp.Objects.{
  check_object_type, check_shared_for_object, check_shared_for_value, check_object_elem_index,
  add_object_lengths, pushed_arg, put_elems, write_elem, new_object, as_elem,
}
use letin.Interp.Fetch.{object_at}
use letin.Interp.Operands.{with_one, with_two}
use letin.Interp.Outcome.{incorrect_instr}
use letin.Interp.Readers.{get_int, get_ref, get_ref_value}
use letin.Interp.Sharing.{set_lazy_values_as_shared, force_pushed_args}
use letin.Interp.World.{Runtime, Step, ◌>>=◌, ◌>>◌, ◌>=>◌, finish, fail}
use letin.Loader.Format.{Instruction}
use letin.Opcode.{opcode_to_arg_type1, opcode_to_arg_type2, arg_type_gvar}
use letin.Thread.Saved.{sign_extend}
use letin.Thread.State.{Value, int, ref}
use letin.Values.{Kind, rarray, tuple, type_of}

-- The marking of lazy values, with fuel for a chain of all objects.
unfoldable pub share : Value → Step (Unit {0})
unfolding set_lazy_values_as_shared
share v w = set_lazy_values_as_shared (suc (suc (length w.heap))) v w

-- A reference that may stand in a shared array.
unfoldable pub shared_ref : Value → Step Value
unfolding check_shared_for_object
shared_ref (ref r) = check_shared_for_object r >=> λ u. finish (ref r)
shared_ref v = finish v

module _ (rt : Runtime) where
  -- A pushed argument as an element.
  unfoldable pub array_elem : Kind → Value → Step Value
  unfolding as_elem shared_ref check_shared_for_value share
  array_elem tuple v = check_shared_for_value v >=> λ u. share v >=> λ s. finish v
  array_elem rarray v = as_elem rt rarray v >=> shared_ref
  array_elem k v = as_elem rt k v

  -- The elements from `i` on, of which `n` are left.
  unfoldable pub fill_array : Kind → ℕ → ℕ → ℕ → Step (Unit {0})
  unfolding array_elem pushed_arg write_elem
  fill_array k r i zero = finish tt
  fill_array k r i (suc n) =
      let rest = fill_array k r (suc i) n in
      pushed_arg i >>= λ v. array_elem k v >=> λ x. write_elem r i x >> rest

  -- A new array or tuple of the pushed arguments.
  unfoldable pub array_of_args : Kind → Step Value
  unfolding new_object fill_array
  array_of_args k w =
      (new_object rt k false w.machine.context.ac2 >=> λ r.
      fill_array k r 0 w.machine.context.ac2 >=> λ u. finish (ref r))
        w

  -- OP_RIARRAY8 to OP_RRARRAY
  unfoldable pub interpret_array : Kind → Step Value
  unfolding array_of_args force_pushed_args
  interpret_array k w =
      (force_pushed_args rt (suc w.machine.context.ac2) >=> λ u. array_of_args k) w

  -- OP_RTUPLE
  unfoldable pub interpret_tuple : Step Value
  unfolding array_of_args
  interpret_tuple = array_of_args tuple

  -- OP_RIANTH8 to OP_RTNTH
  unfoldable pub interpret_nth : Kind → Instruction → Step Value
  unfolding get_ref get_int with_two check_object_type check_object_elem_index
  interpret_nth k instr =
      with_two (get_ref rt) (get_int rt) instr
        λ r i. check_object_type k false r >=> λ o. check_object_elem_index rt o i

  -- OP_RIALEN8 to OP_RTLEN
  unfoldable pub interpret_len : Kind → Instruction → Step Value
  unfolding get_ref with_one check_object_type
  interpret_len k instr =
      with_one (get_ref rt) instr
        λ r. check_object_type k false r >=> λ o. finish (int (length o.elems))

  -- What OP_RIACAT8 to OP_RTCAT do with the two references.
  unfoldable pub concatenate : Kind → ℕ → ℕ → Step Value
  unfolding check_object_type add_object_lengths new_object put_elems
  concatenate k r1 r2 = check_object_type k false r1 >=> λ o1.
      check_object_type k false r2 >=> λ o2.
      add_object_lengths (length o1.elems) (length o2.elems) >=> λ n.
      new_object rt k false n >=> λ r. put_elems r (o1.elems ++ o2.elems) >> finish (ref r)

  unfoldable pub interpret_cat : Kind → Instruction → Step Value
  unfolding get_ref with_two concatenate
  interpret_cat k instr = with_two (get_ref rt) (get_ref rt) instr (concatenate k)

  -- OP_RTYPE
  unfoldable pub interpret_rtype : Instruction → Step Value
  unfolding get_ref with_one object_at
  interpret_rtype instr =
      with_one (get_ref rt) instr λ r. object_at r >>= λ o. finish (int (sign_extend (type_of o)))

  -- OP_RLOAD
  unfoldable pub interpret_rload : Instruction → Step Value
  unfolding get_ref_value with_one
  interpret_rload instr = with_one (get_ref_value rt) instr finish

  -- OP_REQ and OP_RNE; one of the arguments must be a global variable.
  unfoldable pub interpret_ref_test : (ℕ → ℕ → ℕ) → Instruction → Step Value
  unfolding get_ref with_two fail
  interpret_ref_test test instr =
      if not (opcode_to_arg_type1 instr.opcode == arg_type_gvar)
        && not (opcode_to_arg_type2 instr.opcode == arg_type_gvar)
      then fail incorrect_instr
      else with_two (get_ref rt) (get_ref rt) instr λ r1 r2. finish (int (test r1 r2))

  unfoldable pub interpret_req : Instruction → Step Value
  unfolding interpret_ref_test
  interpret_req = interpret_ref_test λ r s. truth (r == s)

  unfoldable pub interpret_rne : Instruction → Step Value
  unfolding interpret_ref_test
  interpret_rne = interpret_ref_test λ r s. truth (not (r == s))
