-- ===== src/Interp/TypedCopies.antt =====
-- vm/vm/interp_vm.cpp: OP_RUIATOIA8 to OP_RUTTOT keep the types of the objects and give a pair.
use letin.Common.{ℕ, suc, true, false, List, [], ◌∷◌, Option, none, some, get_elem?, ◌≡◌}
use letin.Interp.Arrays.{share}
use letin.Interp.Fetch.{object_at}
use letin.Interp.Grows.{
  Extends, Ensures, Any, IfDone, bind-Ensures, step-Ensures, finish-Ensures, object_at-Ensures,
}
use letin.Interp.Made.{
  write_first-Ensures, write_elem-Ensures, check_object_type-Ensures,
  check_shared_for_object-Ensures, check_shared_for_value-Ensures, set_rv-Ensures,
  new_object-Ensures, new_unique_pair-Ensures,
}
use letin.Interp.Objects.{
  check_object_type, check_shared_for_object, check_shared_for_value, write_first, write_elem,
  new_object, new_unique_pair, set_rv,
}
use letin.Interp.Outcome.{Outcome}
use letin.Interp.Reads.{IsSafeRuntime, with_one-Ensures, get_ref-Ensures}
use letin.Interp.Readers.{get_ref}
use letin.Interp.Typed.{RefersTo, then_ref-Ensures, share-Ensures}
use letin.Interp.Uniques.{new_cell, copy_refs, copy_values, copy_elems, shared_copy, interpret_copy}
use letin.Interp.World.{World, Runtime, finish, ◌>>=◌, ◌>=>◌}
use letin.Loader.Format.{Instruction}
use letin.Thread.State.{
  Value, int, float, ref, pair, canceled_ref, lazy_value_ref, locked_lazy_value_ref, error,
}
use letin.Values.{
  Kind, iarray8, iarray16, iarray32, iarray64, sfarray, dfarray, rarray, tuple, io, lazy_value,
  native_object, nil, type_number,
}

module _ (rt : Runtime) (safe : IsSafeRuntime rt) where
  new_cell-Ensures :
      {w : World} (vs : List Value) (i : ℕ) → Ensures w (new_cell rt vs i) (IfDone Any)
  unfolding new_cell
  new_cell-Ensures {w = w} vs i = record { holds = λ o w' e. cases (get_elem? vs i) o w' e }
    where
      cases :
          (x : Option Value) (o : Outcome ℕ) (w' : World)
          → elim (x) as (λ y. Option (Outcome ℕ × World)) [
            | none ↦ none
            | some (ref s) ↦ finish s w
            | some v ↦ none
          ]
            ≡ some (o, w')
          → Extends w.heap w'.heap × IfDone Any o w'
      cases none o w' e = absurd cc
      cases (some (ref s)) o w' e = (finish-Ensures {w = w} s tt).holds o w' e
      cases (some (int i)) o w' e = absurd cc
      cases (some (float f)) o w' e = absurd cc
      cases (some (pair a b)) o w' e = absurd cc
      cases (some (canceled_ref r)) o w' e = absurd cc
      cases (some (lazy_value_ref r b)) o w' e = absurd cc
      cases (some (locked_lazy_value_ref r)) o w' e = absurd cc
      cases (some error) o w' e = absurd cc

  copy_refs-Ensures :
      {w : World} (r2 i : ℕ) (vs : List Value) → Ensures w (copy_refs rt r2 i vs) (IfDone Any)
  unfolding copy_refs
  copy_refs-Ensures r2 i [] = finish-Ensures tt tt
  copy_refs-Ensures r2 i (v ∷ vs) = bind-Ensures (object_at r2) _ (object_at-Ensures r2) λ o w1 is.
      step-Ensures (new_cell rt o.elems i >=> check_shared_for_object) _
        (step-Ensures (new_cell rt o.elems i) check_shared_for_object (new_cell-Ensures o.elems i)
          λ s w2 t. check_shared_for_object-Ensures s)
        λ u w2 t.
          bind-Ensures (write_elem r2 i v) _ (write_elem-Ensures r2 i v)
            λ x w3 y. copy_refs-Ensures r2 (suc i) vs

  copy_values-Ensures :
      {w : World} (r2 i : ℕ) (vs : List Value) → Ensures w (copy_values rt r2 i vs) (IfDone Any)
  unfolding copy_values
  copy_values-Ensures r2 i [] = finish-Ensures tt tt
  copy_values-Ensures r2 i (v ∷ vs) =
      step-Ensures (check_shared_for_value v) _ (check_shared_for_value-Ensures v) λ u w1 t.
        step-Ensures (share v) _ (share-Ensures v) λ s w2 x.
          bind-Ensures (write_elem r2 i v) _ (write_elem-Ensures r2 i v)
            λ y w3 z. copy_values-Ensures r2 (suc i) vs

  plain_copy-Ensures :
      {w : World} (r2 : ℕ) (vs : List Value) → Ensures w (write_first r2 vs >>= finish) (IfDone Any)
  plain_copy-Ensures r2 vs =
      bind-Ensures (write_first r2 vs) finish (write_first-Ensures r2 vs)
        λ u w1 t. finish-Ensures u tt

  copy_elems-Ensures :
      {w : World} (k : Kind) (r2 : ℕ) (vs : List Value)
      → Ensures w (copy_elems rt k r2 vs) (IfDone Any)
  unfolding copy_elems
  copy_elems-Ensures rarray r2 vs = copy_refs-Ensures r2 0 vs
  copy_elems-Ensures tuple r2 vs = copy_values-Ensures r2 0 vs
  copy_elems-Ensures iarray8 r2 vs = plain_copy-Ensures r2 vs
  copy_elems-Ensures iarray16 r2 vs = plain_copy-Ensures r2 vs
  copy_elems-Ensures iarray32 r2 vs = plain_copy-Ensures r2 vs
  copy_elems-Ensures iarray64 r2 vs = plain_copy-Ensures r2 vs
  copy_elems-Ensures sfarray r2 vs = plain_copy-Ensures r2 vs
  copy_elems-Ensures dfarray r2 vs = plain_copy-Ensures r2 vs
  copy_elems-Ensures io r2 vs = plain_copy-Ensures r2 vs
  copy_elems-Ensures lazy_value r2 vs = plain_copy-Ensures r2 vs
  copy_elems-Ensures native_object r2 vs = plain_copy-Ensures r2 vs
  copy_elems-Ensures nil r2 vs = plain_copy-Ensures r2 vs

  shared_copy-Ensures :
      {w : World} (k : Kind) (r : ℕ)
      → Ensures w (shared_copy rt k r) (IfDone (RefersTo (type_number tuple true)))
  unfolding shared_copy
  shared_copy-Ensures {w = w} k r =
      let n = w.machine.context.ac2 in
      record {
        holds =
            (step-Ensures {Q = RefersTo (type_number tuple true)} {w = w}
              (check_object_type k true r) _ (check_object_type-Ensures k true r)
              λ o w1 is.
                step-Ensures (new_object rt k false n) _ (new_object-Ensures rt k false n)
                  λ r2 w2 i2.
                    step-Ensures (copy_elems rt k r2 o.elems) _ (copy_elems-Ensures k r2 o.elems)
                      λ u w3 t.
                        step-Ensures (new_unique_pair rt (ref r2) (ref r)) _
                          (new_unique_pair-Ensures rt (ref r2) (ref r))
                          λ r3 w4 i4.
                            then_ref-Ensures (set_rv (ref r3)) r3 i4
                              (set_rv-Ensures (ref r3))).holds;
      }

  pub interpret_copy-Ensures :
      {w : World} (k : Kind) (instr : Instruction)
      → Ensures w (interpret_copy rt k instr) (IfDone (RefersTo (type_number tuple true)))
  unfolding interpret_copy
  interpret_copy-Ensures k instr =
      with_one-Ensures (get_ref rt) instr (shared_copy rt k) (get_ref-Ensures rt safe)
        (λ r w'. shared_copy-Ensures k r)
