-- ===== src/Interp/Types.antt =====
-- vm/vm/interp_vm.cpp: the type safety of `interpret_op`.
use letin.Common.{subst, ◌≡◌, refl, true, false, ℕ, Option, none, some, get_elem?}
use letin.Interp.Arith.{binary}
use letin.Interp.Arrays.{
  interpret_nth, interpret_len, interpret_rtype, interpret_rload, interpret_ref_test, interpret_req,
  interpret_rne,
}
use letin.Interp.Calls.{Code}
use letin.Interp.Floats.{
  FloatArith, interpret_fload, interpret_fload2, interpret_float_unary, interpret_float_binary,
  interpret_float_test, interpret_itof, interpret_ftoi,
}
use letin.Interp.Dispatch.{
  OtherOp, Op, iload, fload, fload2, rload, req, rne, rtuple, rtype, itof, ftoi, rurafill, rutfillr,
  rutsnth, rutype, iforce, fforce, rforce, int_unary, int_binary, float_unary, float_binary,
  float_test, array, nth, len, cat, call, fill_int, fill_float, unique_nth, set_int_nth,
  set_float_nth, set_ref_nth, unique_len, copy, other, ops, interpret_case, interpret_op_of,
  interpret_op,
}
use letin.Interp.Grows.{
  Extends, Ensures, Any, IfDone, bind-Ensures, step-Ensures, fail-Ensures, finish-Ensures,
  if-Ensures, object_at-Ensures,
}
use letin.Interp.Fetch.{object_at}
use letin.Interp.Made.{
  check_object_type-Ensures, check_object_type_kind-Ensures,
  check_object_elem_index_of_kind-Ensures, IsElement,
}
use letin.Interp.Objects.{check_object_type, check_object_elem_index}
use letin.Interp.Reads.{
  IsIntValue, IsFloatValue, IsRefValue, MayBeLazy, with_value-Ensures, IsSafeRuntime, SafeGetter,
  with_one-Ensures, with_two-Ensures, get_int-Ensures, get_float-Ensures, get_ref-Ensures,
  get_int_value-Ensures, get_float_value-Ensures, get_ref_value-Ensures, int_reader-IsSafe,
  float_reader-IsSafe, ref_reader-IsSafe,
}
use letin.Interp.Typed.{
  RefersTo, interpret_array-Ensures, interpret_tuple-Ensures, interpret_cat-Ensures,
}
use letin.Interp.TypedCalls.{IsOfType, IsSafeCode, interpret_call-Ensures}
use letin.Interp.TypedUniques.{
  interpret_fill_int-Ensures, interpret_fill_float-Ensures, interpret_rurafill-Ensures,
  interpret_rutfillr-Ensures, interpret_unique_nth-Ensures, interpret_set_nth-Ensures,
  interpret_rutsnth-Ensures, interpret_unique_len-Ensures, interpret_rutype-Ensures,
}
use letin.Interp.TypedCopies.{interpret_copy-Ensures}
use letin.Interp.Ops.{give, interpret_iload, interpret_unary, interpret_binary}
use letin.Interp.Outcome.{Outcome, done, failed, incorrect_instr}
use letin.Interp.Readers.{
  get_int, get_float, get_ref, get_int_value, get_float_value, get_ref_value, int_reader,
  float_reader, ref_reader,
}
use letin.Interp.World.{World, Runtime, Step}
use letin.Loader.Format.{Instruction}
use letin.Opcode.{opcode_to_op}
use letin.Thread.State.{Value, int, float, ref}
use letin.Values.{rarray, tuple, type_number}

-- What the steps that are parameters must ensure: forcing, the strategies, and the operations that run
-- native code or the handlers of a try keep the types of the objects.
pub record IsSafeMachine (rt : Runtime) (code : Code) (others : OtherOp → Instruction → Step Value)
    : Type 0 where
  pub runtime : IsSafeRuntime rt
  pub strategy : IsSafeCode code
  pub other_op :
      (op : OtherOp) (instr : Instruction) (w : World) → Ensures w (others op instr) (IfDone Any)

-- The value is an integer, a double or a reference; a value that is not forced may be a reference to a lazy value.
abbrev pub IsInt : Value → World → Type 0
IsInt v w = IsIntValue v

abbrev pub IsFloat : Value → World → Type 0
IsFloat v w = IsFloatValue v

abbrev pub IsRef : Value → World → Type 0
IsRef v w = IsRefValue v

-- What the value of an operation is.
abbrev pub HasResult : Op → Value → World → Type 0
HasResult iload v w = MayBeLazy IsIntValue v
HasResult fload v w = MayBeLazy IsFloatValue v
HasResult fload2 v w = IsFloat v w
HasResult rload v w = MayBeLazy IsRefValue v
HasResult req v w = IsInt v w
HasResult rne v w = IsInt v w
HasResult rtuple v w = RefersTo (type_number tuple false) v w
HasResult rtype v w = IsInt v w
HasResult itof v w = IsFloat v w
HasResult ftoi v w = IsInt v w
HasResult rurafill v w = RefersTo (type_number rarray true) v w
HasResult rutfillr v w = RefersTo (type_number tuple true) v w
HasResult rutsnth v w = RefersTo (type_number tuple true) v w
HasResult rutype v w = RefersTo (type_number tuple true) v w
HasResult iforce v w = IsInt v w
HasResult fforce v w = IsFloat v w
HasResult rforce v w = IsRef v w
HasResult (int_unary op) v w = IsInt v w
HasResult (int_binary op) v w = IsInt v w
HasResult (float_unary op) v w = IsFloat v w
HasResult (float_binary op) v w = IsFloat v w
HasResult (float_test op) v w = IsInt v w
HasResult (array k) v w = RefersTo (type_number k false) v w
HasResult (nth k) v w = IsElement k v w
HasResult (len k) v w = IsInt v w
HasResult (cat k) v w = RefersTo (type_number k false) v w
HasResult (call t) v w = MayBeLazy (IsOfType t) v
HasResult (fill_int k) v w = RefersTo (type_number k true) v w
HasResult (fill_float k) v w = RefersTo (type_number k true) v w
HasResult (unique_nth k) v w = RefersTo (type_number tuple true) v w
HasResult (set_int_nth k) v w = RefersTo (type_number k true) v w
HasResult (set_float_nth k) v w = RefersTo (type_number k true) v w
HasResult (set_ref_nth k) v w = RefersTo (type_number k true) v w
HasResult (unique_len k) v w = RefersTo (type_number tuple true) v w
HasResult (copy k) v w = RefersTo (type_number tuple true) v w
HasResult (other op) v w = Unit {0}

abbrev pub HasResultOf : Option Op → Value → World → Type 0
HasResultOf none v w = Unit {0}
HasResultOf (some op) v w = HasResult op v w

give-Ensures : {w : World} (o : Option (Outcome ℕ)) → Ensures w (give o) (IfDone IsInt)
unfolding give
give-Ensures none = record { holds = λ a w' e. absurd cc }
give-Ensures (some (done i)) = record { holds = (finish-Ensures (int i) (i, refl)).holds }
give-Ensures (some (failed e)) = record { holds = (fail-Ensures e).holds }

module _ (rt : Runtime) (floats : FloatArith) (code : Code)
    (others : OtherOp → Instruction → Step Value) (safe : IsSafeMachine rt code others) where
  abbrev getting_int : SafeGetter (get_int rt)
  getting_int = get_int-Ensures rt safe.runtime

  abbrev getting_float : SafeGetter (get_float rt)
  getting_float = get_float-Ensures rt safe.runtime

  abbrev getting_ref : SafeGetter (get_ref rt)
  getting_ref = get_ref-Ensures rt safe.runtime

  ref_test-Ensures :
      {w : World} (test : ℕ → ℕ → ℕ) (instr : Instruction)
      → Ensures w (interpret_ref_test rt test instr) (IfDone IsInt)
  unfolding interpret_ref_test
  ref_test-Ensures test instr = if-Ensures _ _ _ (fail-Ensures incorrect_instr) (
      with_two-Ensures (get_ref rt) (get_ref rt) instr _ getting_ref getting_ref
        λ r s w'. finish-Ensures (int (test r s)) (test r s, refl))

  case-Ensures :
      {w : World} (op : Op) (instr : Instruction)
      → Ensures w (interpret_case rt floats code others op instr) (IfDone (HasResult op))
  unfolding interpret_case interpret_iload interpret_unary interpret_binary interpret_fload
      interpret_fload2 interpret_float_unary interpret_float_binary interpret_float_test
      interpret_itof interpret_ftoi interpret_nth interpret_len interpret_rtype interpret_rload
      interpret_req interpret_rne
  case-Ensures iload instr =
      with_value-Ensures (get_int_value rt) instr (get_int_value-Ensures rt safe.runtime)
  case-Ensures fload instr =
      with_value-Ensures (get_float_value rt) instr (get_float_value-Ensures rt safe.runtime)
  case-Ensures rload instr =
      with_value-Ensures (get_ref_value rt) instr (get_ref_value-Ensures rt safe.runtime)
  case-Ensures fload2 instr =
      with_two-Ensures (get_int rt) (get_int rt) instr _ getting_int getting_int
        λ i j w'. finish-Ensures _ (_, refl)
  case-Ensures req instr = ref_test-Ensures _ instr
  case-Ensures rne instr = ref_test-Ensures _ instr
  case-Ensures rtuple instr = interpret_tuple-Ensures rt safe.runtime
  case-Ensures rtype instr = with_one-Ensures (get_ref rt) instr _ getting_ref λ r w'.
      bind-Ensures (object_at r) _ (object_at-Ensures r) λ o w1 is. finish-Ensures _ (_, refl)
  case-Ensures itof instr =
      with_one-Ensures (get_int rt) instr _ getting_int λ i w'. finish-Ensures _ (_, refl)
  case-Ensures ftoi instr =
      with_one-Ensures (get_float rt) instr _ getting_float λ f w'. finish-Ensures _ (_, refl)
  case-Ensures rurafill instr = interpret_rurafill-Ensures rt safe.runtime instr
  case-Ensures rutfillr instr = interpret_rutfillr-Ensures rt safe.runtime instr
  case-Ensures rutsnth instr = interpret_rutsnth-Ensures rt safe.runtime instr
  case-Ensures rutype instr = interpret_rutype-Ensures rt safe.runtime instr
  case-Ensures iforce instr =
      with_one-Ensures (get_int rt) instr _ getting_int λ i w'. finish-Ensures _ (_, refl)
  case-Ensures fforce instr =
      with_one-Ensures (get_float rt) instr _ getting_float λ f w'. finish-Ensures _ (_, refl)
  case-Ensures rforce instr =
      with_one-Ensures (get_ref rt) instr _ getting_ref λ r w'. finish-Ensures (ref r) (r, refl)
  case-Ensures (int_unary op) instr =
      with_one-Ensures (get_int rt) instr _ getting_int λ i w'. finish-Ensures _ (_, refl)
  case-Ensures (int_binary op) instr =
      with_two-Ensures (get_int rt) (get_int rt) instr _ getting_int getting_int
        λ i j w'. give-Ensures (binary op i j)
  case-Ensures (float_unary op) instr =
      with_one-Ensures (get_float rt) instr _ getting_float λ f w'. finish-Ensures _ (_, refl)
  case-Ensures (float_binary op) instr =
      with_two-Ensures (get_float rt) (get_float rt) instr _ getting_float getting_float
        λ f g w'. finish-Ensures _ (_, refl)
  case-Ensures (float_test op) instr =
      with_two-Ensures (get_float rt) (get_float rt) instr _ getting_float getting_float
        λ f g w'. finish-Ensures _ (_, refl)
  case-Ensures (array k) instr = interpret_array-Ensures rt safe.runtime k
  case-Ensures (nth k) instr =
      with_two-Ensures (get_ref rt) (get_int rt) instr _ getting_ref getting_int λ r i w'.
        step-Ensures (check_object_type k false r) _ (check_object_type_kind-Ensures k false r)
          λ o w1 is.
            subst (λ j. Ensures w1 (check_object_elem_index rt o i) (IfDone (IsElement j))) is
              (check_object_elem_index_of_kind-Ensures rt o i)
  case-Ensures (len k) instr = with_one-Ensures (get_ref rt) instr _ getting_ref λ r w'.
      step-Ensures (check_object_type k false r) _ (check_object_type-Ensures k false r)
        λ o w1 is. finish-Ensures _ (_, refl)
  case-Ensures (cat k) instr = interpret_cat-Ensures rt safe.runtime k instr
  case-Ensures (call t) instr = interpret_call-Ensures rt code safe.runtime safe.strategy t instr
  case-Ensures (fill_int k) instr = interpret_fill_int-Ensures rt safe.runtime k instr
  case-Ensures (fill_float k) instr = interpret_fill_float-Ensures rt safe.runtime k instr
  case-Ensures (unique_nth k) instr = interpret_unique_nth-Ensures rt safe.runtime k instr
  case-Ensures (set_int_nth k) instr =
      interpret_set_nth-Ensures rt safe.runtime k (int_reader rt) int instr
        (int_reader-IsSafe rt safe.runtime)
  case-Ensures (set_float_nth k) instr =
      interpret_set_nth-Ensures rt safe.runtime k (float_reader rt) float instr
        (float_reader-IsSafe rt safe.runtime)
  case-Ensures (set_ref_nth k) instr =
      interpret_set_nth-Ensures rt safe.runtime k (ref_reader rt) ref instr
        (ref_reader-IsSafe rt safe.runtime)
  case-Ensures (unique_len k) instr = interpret_unique_len-Ensures rt safe.runtime k instr
  case-Ensures (copy k) instr = interpret_copy-Ensures rt safe.runtime k instr
  case-Ensures {w = w} (other op) instr = safe.other_op op instr w

  op-Ensures :
      {w : World} (op : Option Op) (instr : Instruction)
      → Ensures w (interpret_op_of rt floats code others op instr) (IfDone (HasResultOf op))
  unfolding interpret_op_of
  op-Ensures none instr = fail-Ensures incorrect_instr
  op-Ensures (some op) instr = case-Ensures op instr

  -- Whatever the instruction and the world are, an operation that ends, with a value or with an error,
  -- leaves every object in its place and with its type, unique or not. A value that it gives has the type
  -- of the operation: an integer, a double, or a reference, to an object of the kind that the operation
  -- makes where it makes one, which is unique just when it is to be. ILOAD, FLOAD, RLOAD and the calls may
  -- give a reference to a lazy value instead; an operation that reads an element of an array gives a value
  -- of the element's type, and one that reads an element of a tuple gives any value. Of the values of
  -- native calls, tries and stack traces no type is said. What the machine is given is assumed to keep the
  -- types of the objects: forcing, the strategies and these operations.
  pub interpret_op_typed :
      (instr : Instruction) (w w' : World) (o : Outcome Value)
      → interpret_op rt floats code others instr w ≡ some (o, w')
      → Extends w.heap w'.heap
        × IfDone (HasResultOf (get_elem? ops (opcode_to_op instr.opcode))) o w'
  unfolding interpret_op
  interpret_op_typed instr w w' o e =
      (op-Ensures {w = w} (get_elem? ops (opcode_to_op instr.opcode)) instr).holds o w' e
