-- ===== src/Interp/Typed.antt =====
-- vm/vm/interp_vm.cpp: the operations of `interpret_op` keep the types of the objects and give values of the
-- types that are theirs.
use letin.Common.{
  ℕ, zero, suc, ◌+◌, true, false, ◌++◌, Option, none, some, length, get_elem?, ltb, not, ◌≡◌, refl,
  sym, subst,
}
use letin.Interp.Arrays.{
  share, shared_ref, array_elem, fill_array, array_of_args, interpret_array, interpret_tuple,
  concatenate, interpret_cat,
}
use letin.Interp.Fetch.{object_at}
use letin.Interp.Grows.{
  IsObject, Extends, Ensures, Any, IfDone, bind-Ensures, step-Ensures, pure-Ensures, thread-Ensures,
  fail-Ensures, finish-Ensures, if-Ensures, if_result, option_result, object_at-Ensures,
  same_result,
}
use letin.Interp.Made.{
  set-Extends, put_elems-Ensures, write_elem-Ensures, check_object_type-Ensures,
  check_shared_for_object-Ensures, check_shared_for_value-Ensures, add_object_lengths-Ensures,
  pushed_arg-Ensures, new_object-Ensures, as_elem-Ensures,
}
use letin.Interp.Objects.{
  check_object_type, check_shared_for_object, check_shared_for_value, add_object_lengths,
  pushed_arg, put_elems, write_elem, new_object, as_elem,
}
use letin.Interp.Outcome.{Outcome, done, failed, unique_object}
use letin.Interp.Reads.{IsSafeRuntime, with_two-Ensures, get_ref-Ensures}
use letin.Interp.Readers.{get_ref}
use letin.Interp.Sharing.{
  is_lazy_object, next_lazy, mark_shared, unique_value, share_chain, set_lazy_values_as_shared,
  first_ai, next_ai, next_arg, force_args, force_pushed_args,
}
use letin.Interp.World.{World, Act, Step, Runtime, on_thread, finish, ◌>>=◌, ◌>=>◌}
use letin.Loader.Format.{Instruction}
use letin.Thread.State.{
  Value, int, float, ref, pair, canceled_ref, lazy_value_ref, locked_lazy_value_ref, error, write,
  modify,
}
use letin.Values.{
  Kind, iarray8, iarray16, iarray32, iarray64, sfarray, dfarray, io, lazy_value, native_object, nil,
  rarray, tuple, Object, type_number, is_unique,
}

-- The value refers to an object of the type.
pub record RefersTo (t : ℕ) (v : Value) (w : World) : Type 0 where
  pub reference : ℕ
  pub is_ref : v ≡ ref reference
  pub object : IsObject t reference w.heap

unique_value-Ensures : {w : World} (v : Value) → Ensures w (unique_value v) (λ b w'. w' ≡ w)
unfolding unique_value
unique_value-Ensures {w = w} v = record {
  holds =
      option_result (λ b w'. w' ≡ w) w (is_unique w.heap v) _
        λ b is a w' e.
          same_result (λ x y. Extends w.heap y.heap × (y ≡ w)) e (λ r t there. there, refl);
}

mark_shared-Ensures :
    {w : World} (r : ℕ) (o : Object) → get_elem? w.heap r ≡ some o → Ensures w (mark_shared r o) Any
unfolding mark_shared
mark_shared-Ensures {w = w} r o is = record {
  holds = λ a w' e.
      same_result (λ x y. Extends w.heap y.heap × Unit {0}) e
        (set-Extends w.heap r o (record o { must_be_shared = true }) is refl, tt);
}

share_chain-Ensures : {w : World} (n : ℕ) (x : Option ℕ) → Ensures w (share_chain n x) (IfDone Any)
unfolding share_chain
share_chain-Ensures zero x = record { holds = λ a w' e. absurd cc }
share_chain-Ensures {w = w} (suc n) none = record { holds = (finish-Ensures tt tt).holds }
share_chain-Ensures {w = w} (suc n) (some r) = record {
  holds =
      (bind-Ensures {Q = IfDone Any} {w = w} (object_at r) _ (object_at-Ensures r) λ o w1 is.
        if-Ensures (not (is_lazy_object o)) _ _ (finish-Ensures tt tt) (
          if-Ensures o.must_be_shared _ _ (finish-Ensures tt tt) (
            bind-Ensures (unique_value o.value) _ (unique_value-Ensures o.value) λ b w2 same.
              if-Ensures b _ _ (fail-Ensures unique_object) (
                bind-Ensures (mark_shared r o) _
                  (mark_shared-Ensures r o (subst (λ x. get_elem? x.heap r ≡ some o) (sym same) is))
                  λ u w3 t. share_chain-Ensures n (next_lazy o.value))))).holds;
}

pub share-Ensures : {w : World} (v : Value) → Ensures w (share v) (IfDone Any)
unfolding share set_lazy_values_as_shared
share-Ensures {w = w} v = record {
  holds = (share_chain-Ensures (suc (suc (length w.heap))) (next_lazy v)).holds;
}

-- The value's reference is to an object of the type.
abbrev pub Refers : ℕ → Value → World → Type 0
Refers t v w = RefersTo t v w

refers : {t r : ℕ} {w : World} → IsObject t r w.heap → RefersTo t (ref r) w
refers {r = r} is = record { reference = r; is_ref = refl; object = is }

-- The reference that a step gave, as a value.
pub finish_ref-Ensures :
    {t : ℕ} {w : World} (r : ℕ)
    → IsObject t r w.heap
    → Ensures w (finish (ref r)) (IfDone (RefersTo t))
finish_ref-Ensures r is = finish-Ensures (ref r) (refers is)

-- A step that is followed by the reference to an object that was there.
pub then_ref-Ensures :
    {A : Type 0} {t : ℕ} {w : World} (m : Act A) (r : ℕ)
    → IsObject t r w.heap
    → Ensures w m Any
    → Ensures w (m >>= λ a. finish (ref r)) (IfDone (RefersTo t))
then_ref-Ensures {t = t} {w = w} m r is h = record {
  holds = λ b w' e.
      let first =
        (bind-Ensures {Q = λ o v. o ≡ done (ref r)} m (λ a. finish (ref r)) h
            (λ a v u. pure-Ensures (done (ref r)) refl)).holds
          b w' e in
      (first.0, subst (λ o. IfDone (RefersTo t) o w') (sym first.1) (refers (first.0 r t is)));
}

-- The same, for a step that can fail.
pub step_ref-Ensures :
    {A : Type 0} {t : ℕ} {w : World} (m : Step A) (r : ℕ)
    → IsObject t r w.heap
    → Ensures w m (IfDone Any)
    → Ensures w (m >=> λ a. finish (ref r)) (IfDone (RefersTo t))
step_ref-Ensures {t = t} {w = w} m r is h = record {
  holds = λ b w' e.
      let first =
        (step-Ensures {Q = λ v x. v ≡ ref r} m (λ a. finish (ref r)) h
            (λ a v u. finish-Ensures {Q = λ v x. v ≡ ref r} (ref r) refl)).holds
          b w' e in
      (first.0, result b w' first.1 (first.0 r t is));
}
  where
    result :
        (o : Outcome Value) (w' : World)
        → IfDone (λ v x. v ≡ ref r) o w'
        → IsObject t r w'.heap
        → IfDone (RefersTo t) o w'
    result (done v) w' e is = record { reference = r; is_ref = e; object = is }
    result (failed c) w' e is = tt

pub shared_ref-Ensures : {w : World} (v : Value) → Ensures w (shared_ref v) (IfDone Any)
unfolding shared_ref
shared_ref-Ensures (int i) = finish-Ensures (int i) tt
shared_ref-Ensures (float f) = finish-Ensures (float f) tt
shared_ref-Ensures (ref r) =
    step-Ensures (check_shared_for_object r) _ (check_shared_for_object-Ensures r)
      λ u w1 t. finish-Ensures (ref r) tt
shared_ref-Ensures (pair a b) = finish-Ensures (pair a b) tt
shared_ref-Ensures (canceled_ref r) = finish-Ensures (canceled_ref r) tt
shared_ref-Ensures (lazy_value_ref r b) = finish-Ensures (lazy_value_ref r b) tt
shared_ref-Ensures (locked_lazy_value_ref r) = finish-Ensures (locked_lazy_value_ref r) tt
shared_ref-Ensures error = finish-Ensures error tt

module _ (rt : Runtime) (safe : IsSafeRuntime rt) where
  array_elem-Ensures :
      {w : World} (k : Kind) (v : Value) → Ensures w (array_elem rt k v) (IfDone Any)
  unfolding array_elem
  array_elem-Ensures iarray8 v = as_elem-Ensures rt iarray8 v
  array_elem-Ensures iarray16 v = as_elem-Ensures rt iarray16 v
  array_elem-Ensures iarray32 v = as_elem-Ensures rt iarray32 v
  array_elem-Ensures iarray64 v = as_elem-Ensures rt iarray64 v
  array_elem-Ensures sfarray v = as_elem-Ensures rt sfarray v
  array_elem-Ensures dfarray v = as_elem-Ensures rt dfarray v
  array_elem-Ensures rarray v =
      step-Ensures (as_elem rt rarray v) shared_ref (as_elem-Ensures rt rarray v)
        λ x w1 t. shared_ref-Ensures x
  array_elem-Ensures tuple v =
      step-Ensures (check_shared_for_value v) _ (check_shared_for_value-Ensures v)
        λ u w1 t. step-Ensures (share v) _ (share-Ensures v) λ x w2 y. finish-Ensures v tt
  array_elem-Ensures io v = as_elem-Ensures rt io v
  array_elem-Ensures lazy_value v = as_elem-Ensures rt lazy_value v
  array_elem-Ensures native_object v = as_elem-Ensures rt native_object v
  array_elem-Ensures nil v = as_elem-Ensures rt nil v

  fill_array-Ensures :
      {w : World} (k : Kind) (r i n : ℕ) → Ensures w (fill_array rt k r i n) (IfDone Any)
  unfolding fill_array
  fill_array-Ensures k r i zero = finish-Ensures tt tt
  fill_array-Ensures k r i (suc n) = bind-Ensures (pushed_arg i) _ (pushed_arg-Ensures i) λ v w1 t.
      step-Ensures (array_elem rt k v) _ (array_elem-Ensures k v) λ x w2 u.
        bind-Ensures (write_elem r i x) _ (write_elem-Ensures r i x)
          λ y w3 s. fill_array-Ensures k r (suc i) n

  array_of_args-Ensures :
      {w : World} (k : Kind)
      → Ensures w (array_of_args rt k) (IfDone (RefersTo (type_number k false)))
  unfolding array_of_args
  array_of_args-Ensures {w = w} k =
      let n = w.machine.context.ac2 in
      record {
        holds =
            (step-Ensures {Q = RefersTo (type_number k false)} {w = w} (new_object rt k false n) _
              (new_object-Ensures rt k false n)
              λ r w1 is.
                step_ref-Ensures (fill_array rt k r 0 n) r is (fill_array-Ensures k r 0 n)).holds;
      }

  next_arg-Ensures :
      {w : World} (o : Outcome (Unit {0})) (rest : Step (Unit {0}))
      → ((w' : World) → Ensures w' rest (IfDone Any))
      → Ensures w (next_arg rt o rest) (IfDone Any)
  next_arg-Ensures (failed e) rest h = pure-Ensures (failed e) tt
  next_arg-Ensures (done u) rest h =
      bind-Ensures (on_thread (modify next_ai)) _ (thread-Ensures (modify next_ai)) λ v w1 t. h w1

  force_args-Ensures : (n : ℕ) (w : World) → Ensures w (force_args rt n) (IfDone Any)
  unfolding force_args
  force_args-Ensures zero w = record { holds = λ a w' e. absurd cc }
  force_args-Ensures (suc n) w =
      let c = w.machine.context in
      record {
        holds =
            (if-Ensures {Q = IfDone Any} {w = w} (ltb c.ai c.ac2) _ _
              (bind-Ensures (pushed_arg c.ai) _ (pushed_arg-Ensures c.ai) λ v w1 t.
                bind-Ensures (rt.force_value v) _ (safe.force_value v w1) λ (o, x) w2 u.
                  bind-Ensures (on_thread (write (c.abp2 + c.ai) x)) _
                    (thread-Ensures (write (c.abp2 + c.ai) x))
                    λ y w3 s. next_arg-Ensures o (force_args rt n) (force_args-Ensures n))
              (finish-Ensures tt tt)).holds;
      }

  force_pushed_args-Ensures : {w : World} (n : ℕ) → Ensures w (force_pushed_args rt n) (IfDone Any)
  unfolding force_pushed_args
  force_pushed_args-Ensures {w = w} n = record {
    holds = if_result (IfDone Any) w rt.eager (finish-Ensures tt tt).holds (
        if_result (IfDone Any) w w.machine.context.after_leaving_flag1
          (force_args-Ensures n w).holds
          (bind-Ensures {w = w} (on_thread (modify first_ai)) _ (thread-Ensures (modify first_ai))
            λ u w1 t. force_args-Ensures n w1).holds);
  }

  pub interpret_array-Ensures :
      {w : World} (k : Kind)
      → Ensures w (interpret_array rt k) (IfDone (RefersTo (type_number k false)))
  unfolding interpret_array
  interpret_array-Ensures {w = w} k =
      let n = suc w.machine.context.ac2 in
      record {
        holds =
            (step-Ensures {Q = RefersTo (type_number k false)} {w = w} (force_pushed_args rt n) _
              (force_pushed_args-Ensures n) λ u w1 t. array_of_args-Ensures k).holds;
      }

  pub interpret_tuple-Ensures :
      {w : World} → Ensures w (interpret_tuple rt) (IfDone (RefersTo (type_number tuple false)))
  unfolding interpret_tuple
  interpret_tuple-Ensures = array_of_args-Ensures tuple

  concatenate-Ensures :
      {w : World} (k : Kind) (r1 r2 : ℕ)
      → Ensures w (concatenate rt k r1 r2) (IfDone (RefersTo (type_number k false)))
  unfolding concatenate
  concatenate-Ensures k r1 r2 =
      step-Ensures (check_object_type k false r1) _ (check_object_type-Ensures k false r1)
        λ o1 w1 i1.
          step-Ensures (check_object_type k false r2) _ (check_object_type-Ensures k false r2)
            λ o2 w2 i2.
              step-Ensures (add_object_lengths (length o1.elems) (length o2.elems)) _
                (add_object_lengths-Ensures (length o1.elems) (length o2.elems))
                λ n w3 t.
                  step-Ensures (new_object rt k false n) _ (new_object-Ensures rt k false n)
                    λ r w4 is.
                      then_ref-Ensures (put_elems r (o1.elems ++ o2.elems)) r is
                        (put_elems-Ensures r (o1.elems ++ o2.elems))

  pub interpret_cat-Ensures :
      {w : World} (k : Kind) (instr : Instruction)
      → Ensures w (interpret_cat rt k instr) (IfDone (RefersTo (type_number k false)))
  unfolding interpret_cat
  interpret_cat-Ensures k instr =
      with_two-Ensures (get_ref rt) (get_ref rt) instr (concatenate rt k) (get_ref-Ensures rt safe)
        (get_ref-Ensures rt safe) (λ r1 r2 w'. concatenate-Ensures k r1 r2)
