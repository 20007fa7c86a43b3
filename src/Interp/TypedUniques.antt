-- ===== src/Interp/TypedUniques.antt =====
-- vm/vm/interp_vm.cpp: the operations on unique objects keep the types of the objects and give references to
-- objects of the types that are theirs.
use letin.Common.{ℕ, ◌+◌, true, length, replicate, leb, ◌==◌, if◌then◌else◌, refl, sym, subst}
use letin.Interp.Arrays.{shared_ref}
use letin.Interp.Fetch.{object_at, Reader}
use letin.Interp.Fetched.{IsSafeReader, Whatever, in_cell-Ensures}
use letin.Interp.Grows.{
  Ensures, Any, IfDone, bind-Ensures, step-Ensures, pure-Ensures, thread-Ensures,
  raise_code-Ensures, fail-Ensures, if-Ensures, option_result, object_at-Ensures, frame-Ensures,
  frame_step-Ensures, none-Ensures,
}
use letin.Interp.Made.{
  put_elems-Ensures, write_first-Ensures, write_elem-Ensures, check_object_type-Ensures,
  check_shared_for_object-Ensures, check_object_elem_index-Ensures, check_pushed_arg_count-Ensures,
  pushed_arg-Ensures, new_object-Ensures, new_unique_pair-Ensures, as_elem-Ensures,
}
use letin.Interp.Objects.{
  check_object_type, check_shared_for_object, check_object_elem_index, check_pushed_arg_count,
  pushed_arg, put_elems, write_elem, new_object, new_unique_pair, as_elem,
}
use letin.Interp.Outcome.{error_number, unique_object, again_used_unique}
use letin.Interp.Reads.{
  IsSafeRuntime, with_one-Ensures, with_two-Ensures, get_int-Ensures, get_float-Ensures,
  get_ref-Ensures,
}
use letin.Interp.Readers.{get_int, get_float, get_ref}
use letin.Interp.Typed.{RefersTo, finish_ref-Ensures, then_ref-Ensures, shared_ref-Ensures}
use letin.Interp.Uniques.{
  cancel_ref_for_unique, pair_with, from_pushed_arg, filled, interpret_fill_int,
  interpret_fill_float, fill_refs, interpret_rurafill, fill_tuple_refs, interpret_rutfillr,
  taken_elem, unique_nth, interpret_unique_nth, set_nth, interpret_set_nth, set_tuple_nth,
  interpret_rutsnth, interpret_unique_len, interpret_rutype,
}
use letin.Interp.World.{World, Act, Runtime, on_thread, raise, finish, ◌>>=◌, ◌>>◌, ◌>=>◌}
use letin.Loader.Format.{Instruction}
use letin.Thread.Saved.{sign_extend}
use letin.Thread.State.{
  Value, int, float, ref, pair, canceled_ref, lazy_value_ref, locked_lazy_value_ref, error, read,
  write,
}
use letin.Values.{
  Kind, iarray8, iarray16, iarray32, iarray64, sfarray, dfarray, rarray, tuple, io, lazy_value,
  native_object, nil, kind_number, type_of, type_number, is_unique, is_unique_object,
}

-- A step that is followed by a reference that was there.
then_value-Ensures :
    {A : Type 0} {t : ℕ} {w : World} (m : Act A) (v : Value)
    → RefersTo t v w
    → Ensures w m Any
    → Ensures w (m >>= λ a. finish v) (IfDone (RefersTo t))
then_value-Ensures {t = t} {w = w} m v is h =
    subst (λ x. Ensures w (m >>= λ a. finish x) (IfDone (RefersTo t))) (sym is.is_ref)
      (then_ref-Ensures m is.reference is.object h)

cancel-Ensures : {w : World} (v : Value) → Ensures w (cancel_ref_for_unique v) Any
unfolding cancel_ref_for_unique
cancel-Ensures (lazy_value_ref r b) = record {
  holds = (pure-Ensures (lazy_value_ref r true) tt).holds;
}
cancel-Ensures {w = w} (ref r) = record {
  holds =
      option_result Any w (is_unique w.heap (ref r)) _
        λ b is. (pure-Ensures (if b then canceled_ref r else ref r) tt).holds;
}
cancel-Ensures (int i) = record { holds = (pure-Ensures (int i) tt).holds }
cancel-Ensures (float f) = record { holds = (pure-Ensures (float f) tt).holds }
cancel-Ensures (pair a b) = record { holds = (pure-Ensures (pair a b) tt).holds }
cancel-Ensures (canceled_ref r) = record { holds = (pure-Ensures (canceled_ref r) tt).holds }
cancel-Ensures (locked_lazy_value_ref r) = record {
  holds = (pure-Ensures (locked_lazy_value_ref r) tt).holds;
}
cancel-Ensures error = record { holds = (pure-Ensures error tt).holds }

module _ (rt : Runtime) (safe : IsSafeRuntime rt) where
  taken_elem-Ensures : {w : World} (r i : ℕ) (v : Value) → Ensures w (taken_elem rt r i v) Any
  unfolding taken_elem
  taken_elem-Ensures r i v =
      bind-Ensures (cancel_ref_for_unique v) (write_elem r i) (cancel-Ensures v)
        λ x w1 t. write_elem-Ensures r i x

  pair_with-Ensures :
      {w : World} (v : Value) (r : ℕ)
      → Ensures w (pair_with rt v r) (IfDone (RefersTo (type_number tuple true)))
  unfolding pair_with
  pair_with-Ensures v r =
      step-Ensures (new_unique_pair rt v (ref r)) _ (new_unique_pair-Ensures rt v (ref r))
        λ s w1 is. finish_ref-Ensures s is

  from_pushed_arg-Ensures :
      {w : World} (reader : Reader ℕ) (i : ℕ)
      → IsSafeReader Whatever reader
      → Ensures w (from_pushed_arg rt reader i) (IfDone Any)
  unfolding from_pushed_arg
  from_pushed_arg-Ensures {w = w} reader i h =
      let c = w.machine.context in
      record {
        holds =
            (in_cell-Ensures rt.globals reader h {w = w} (read (c.abp2 + i))
              (write (c.abp2 + i))).holds;
      }

  filled-Ensures :
      {w : World} (k : Kind) (n : ℕ) (v : Value)
      → Ensures w (filled rt k n v) (IfDone (RefersTo (type_number k true)))
  unfolding filled
  filled-Ensures k n v =
      step-Ensures (new_object rt k true n) _ (new_object-Ensures rt k true n) λ r w1 is.
        step-Ensures (as_elem rt k v) _ (frame_step-Ensures is (as_elem-Ensures rt k v))
          λ x w2 (u, there).
            then_ref-Ensures (put_elems r (replicate n x)) r there
              (put_elems-Ensures r (replicate n x))

  pub interpret_fill_int-Ensures :
      {w : World} (k : Kind) (instr : Instruction)
      → Ensures w (interpret_fill_int rt k instr) (IfDone (RefersTo (type_number k true)))
  unfolding interpret_fill_int
  interpret_fill_int-Ensures k instr =
      with_two-Ensures (get_int rt) (get_int rt) instr _ (get_int-Ensures rt safe)
        (get_int-Ensures rt safe) (λ n i w'. filled-Ensures k n (int i))

  pub interpret_fill_float-Ensures :
      {w : World} (k : Kind) (instr : Instruction)
      → Ensures w (interpret_fill_float rt k instr) (IfDone (RefersTo (type_number k true)))
  unfolding interpret_fill_float
  interpret_fill_float-Ensures k instr =
      with_two-Ensures (get_int rt) (get_float rt) instr _ (get_int-Ensures rt safe)
        (get_float-Ensures rt safe) (λ n f w'. filled-Ensures k n (float f))

  fill_refs-Ensures :
      {w : World} (n r : ℕ)
      → Ensures w (fill_refs rt n r) (IfDone (RefersTo (type_number rarray true)))
  unfolding fill_refs
  fill_refs-Ensures n r =
      step-Ensures (check_shared_for_object r) _ (check_shared_for_object-Ensures r) λ u w1 t.
        step-Ensures (new_object rt rarray true n) _ (new_object-Ensures rt rarray true n)
          λ r2 w2 is.
            bind-Ensures (object_at r) _ (frame-Ensures is (object_at-Ensures r))
              λ o w3 (here, there). then_ref-Ensures _ r2 there (
                if-Ensures (kind_number o.kind == kind_number rarray) _ _
                  (write_first-Ensures r (replicate n (ref r))) (none-Ensures _ refl))

  pub interpret_rurafill-Ensures :
      {w : World} (instr : Instruction)
      → Ensures w (interpret_rurafill rt instr) (IfDone (RefersTo (type_number rarray true)))
  unfolding interpret_rurafill
  interpret_rurafill-Ensures instr =
      with_two-Ensures (get_int rt) (get_ref rt) instr (fill_refs rt) (get_int-Ensures rt safe)
        (get_ref-Ensures rt safe) (λ n r w'. fill_refs-Ensures n r)

  fill_tuple_refs-Ensures :
      {w : World} (n r : ℕ)
      → Ensures w (fill_tuple_refs rt n r) (IfDone (RefersTo (type_number tuple true)))
  unfolding fill_tuple_refs raise
  fill_tuple_refs-Ensures n r =
      step-Ensures (new_object rt tuple true n) _ (new_object-Ensures rt tuple true n) λ r2 w1 is.
        bind-Ensures (object_at r) _ (frame-Ensures is (object_at-Ensures r)) λ o w2 (here, there).
          let filled_up =
            then_ref-Ensures (put_elems r2 (replicate n (ref r))) r2 there
              (put_elems-Ensures r2 (replicate n (ref r))) in
          if-Ensures (leb n 1) _ _ filled_up (
            if-Ensures (is_unique_object o) _ _
              (bind-Ensures (raise unique_object) _
                (raise_code-Ensures (error_number unique_object) 0)
                λ u w3 t. fail-Ensures again_used_unique)
              filled_up)

  pub interpret_rutfillr-Ensures :
      {w : World} (instr : Instruction)
      → Ensures w (interpret_rutfillr rt instr) (IfDone (RefersTo (type_number tuple true)))
  unfolding interpret_rutfillr
  interpret_rutfillr-Ensures instr =
      with_two-Ensures (get_int rt) (get_ref rt) instr (fill_tuple_refs rt)
        (get_int-Ensures rt safe) (get_ref-Ensures rt safe) (λ n r w'. fill_tuple_refs-Ensures n r)

  plain_nth-Ensures :
      {w : World} (k : Kind) (r i : ℕ)
      → Ensures w
          (check_object_type k true r >=> λ o.
            check_object_elem_index rt o i >=> λ v. pair_with rt v r)
          (IfDone (RefersTo (type_number tuple true)))
  plain_nth-Ensures k r i =
      step-Ensures (check_object_type k true r) _ (check_object_type-Ensures k true r) λ o w1 is.
        step-Ensures (check_object_elem_index rt o i) _ (check_object_elem_index-Ensures rt o i)
          λ v w2 t. pair_with-Ensures v r

  unique_nth-Ensures :
      {w : World} (k : Kind) (r i : ℕ)
      → Ensures w (unique_nth rt k r i) (IfDone (RefersTo (type_number tuple true)))
  unfolding unique_nth
  unique_nth-Ensures tuple r i =
      step-Ensures (check_object_type tuple true r) _ (check_object_type-Ensures tuple true r)
        λ o w1 is.
          step-Ensures (check_object_elem_index rt o i) _ (check_object_elem_index-Ensures rt o i)
            λ v w2 t. step-Ensures (pair_with rt v r) _ (pair_with-Ensures v r) λ p w3 refers.
              then_value-Ensures (taken_elem rt r i v) p refers (taken_elem-Ensures r i v)
  unique_nth-Ensures rarray r i =
      step-Ensures (check_object_type rarray true r) _ (check_object_type-Ensures rarray true r)
        λ o w1 is.
          step-Ensures (check_object_elem_index rt o i >=> shared_ref) _
            (step-Ensures (check_object_elem_index rt o i) shared_ref
              (check_object_elem_index-Ensures rt o i) λ x w2 t. shared_ref-Ensures x)
            λ v w2 t. pair_with-Ensures v r
  unique_nth-Ensures iarray8 r i = plain_nth-Ensures iarray8 r i
  unique_nth-Ensures iarray16 r i = plain_nth-Ensures iarray16 r i
  unique_nth-Ensures iarray32 r i = plain_nth-Ensures iarray32 r i
  unique_nth-Ensures iarray64 r i = plain_nth-Ensures iarray64 r i
  unique_nth-Ensures sfarray r i = plain_nth-Ensures sfarray r i
  unique_nth-Ensures dfarray r i = plain_nth-Ensures dfarray r i
  unique_nth-Ensures io r i = plain_nth-Ensures io r i
  unique_nth-Ensures lazy_value r i = plain_nth-Ensures lazy_value r i
  unique_nth-Ensures native_object r i = plain_nth-Ensures native_object r i
  unique_nth-Ensures nil r i = plain_nth-Ensures nil r i

  pub interpret_unique_nth-Ensures :
      {w : World} (k : Kind) (instr : Instruction)
      → Ensures w (interpret_unique_nth rt k instr) (IfDone (RefersTo (type_number tuple true)))
  unfolding interpret_unique_nth
  interpret_unique_nth-Ensures k instr =
      with_two-Ensures (get_ref rt) (get_int rt) instr (unique_nth rt k) (get_ref-Ensures rt safe)
        (get_int-Ensures rt safe) (λ r i w'. unique_nth-Ensures k r i)

  set_nth-Ensures :
      {w : World} (k : Kind) (r i : ℕ) (v : Value)
      → Ensures w (set_nth rt k r i v) (IfDone (RefersTo (type_number k true)))
  unfolding set_nth
  set_nth-Ensures k r i v =
      step-Ensures (check_object_type k true r) _ (check_object_type-Ensures k true r) λ o w1 is.
        step-Ensures (check_object_elem_index rt o i) _
          (frame_step-Ensures is (check_object_elem_index-Ensures rt o i))
          λ old w2 (t, is2).
            step-Ensures (as_elem rt k v) _ (frame_step-Ensures is2 (as_elem-Ensures rt k v))
              λ x w3 (u, is3). then_ref-Ensures (write_elem r i x) r is3 (write_elem-Ensures r i x)

  pub interpret_set_nth-Ensures :
      {w : World} (k : Kind) (reader : Reader ℕ) (value : ℕ → Value) (instr : Instruction)
      → IsSafeReader Whatever reader
      → Ensures w
          (interpret_set_nth rt k reader value instr)
          (IfDone (RefersTo (type_number k true)))
  unfolding interpret_set_nth
  interpret_set_nth-Ensures k reader value instr h =
      with_two-Ensures (get_ref rt) (get_int rt) instr _ (get_ref-Ensures rt safe)
        (get_int-Ensures rt safe)
        λ r i w'.
          step-Ensures (check_pushed_arg_count 1) _ (check_pushed_arg_count-Ensures 1) λ u w1 t.
            step-Ensures (from_pushed_arg rt reader 0) _ (from_pushed_arg-Ensures reader 0 h)
              λ x w2 s. set_nth-Ensures k r i (value x)

  set_tuple_nth-Ensures :
      {w : World} (r i : ℕ)
      → Ensures w (set_tuple_nth rt r i) (IfDone (RefersTo (type_number tuple true)))
  unfolding set_tuple_nth
  set_tuple_nth-Ensures {w = w} r i =
      let a = w.machine.context.abp2 + 0 in
      record {
        holds =
            (step-Ensures {Q = RefersTo (type_number tuple true)} {w = w} (check_pushed_arg_count 1)
              _ (check_pushed_arg_count-Ensures 1)
              λ u w1 t.
                step-Ensures (check_object_type tuple true r) _
                  (check_object_type-Ensures tuple true r)
                  λ o w2 i2.
                    step-Ensures (check_object_elem_index rt o i) _
                      (frame_step-Ensures i2 (check_object_elem_index-Ensures rt o i))
                      λ old w3 (t3, i3).
                        bind-Ensures (pushed_arg 0) _ (frame-Ensures i3 (pushed_arg-Ensures 0))
                          λ v w4 (t4, i4).
                            bind-Ensures (cancel_ref_for_unique v) _
                              (frame-Ensures i4 (cancel-Ensures v))
                              λ x w5 (t5, i5).
                                then_ref-Ensures (on_thread (write a x) >> write_elem r i v) r i5 (
                                  bind-Ensures (on_thread (write a x)) _
                                    (thread-Ensures (write a x))
                                    λ y w6 t6. write_elem-Ensures r i v)).holds;
      }

  pub interpret_rutsnth-Ensures :
      {w : World} (instr : Instruction)
      → Ensures w (interpret_rutsnth rt instr) (IfDone (RefersTo (type_number tuple true)))
  unfolding interpret_rutsnth
  interpret_rutsnth-Ensures instr =
      with_two-Ensures (get_ref rt) (get_int rt) instr (set_tuple_nth rt) (get_ref-Ensures rt safe)
        (get_int-Ensures rt safe) (λ r i w'. set_tuple_nth-Ensures r i)

  pub interpret_unique_len-Ensures :
      {w : World} (k : Kind) (instr : Instruction)
      → Ensures w (interpret_unique_len rt k instr) (IfDone (RefersTo (type_number tuple true)))
  unfolding interpret_unique_len
  interpret_unique_len-Ensures k instr =
      with_one-Ensures (get_ref rt) instr _ (get_ref-Ensures rt safe) λ r w'.
        step-Ensures (check_object_type k true r) _ (check_object_type-Ensures k true r)
          λ o w1 is. pair_with-Ensures (int (length o.elems)) r

  pub interpret_rutype-Ensures :
      {w : World} (instr : Instruction)
      → Ensures w (interpret_rutype rt instr) (IfDone (RefersTo (type_number tuple true)))
  unfolding interpret_rutype
  interpret_rutype-Ensures instr =
      with_one-Ensures (get_ref rt) instr _ (get_ref-Ensures rt safe) λ r w'.
        bind-Ensures (object_at r) _ (object_at-Ensures r)
          λ o w1 is. pair_with-Ensures (int (sign_extend (type_of o))) r
