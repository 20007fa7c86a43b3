-- ===== src/Interp/TypedCalls.antt =====
-- vm/vm/interp_vm.cpp: calls of functions keep the types of the objects, where the strategies do.
use letin.Common.{
  ℕ, Bool, true, false, inl, inr, refl, not, Option, none, some, get_elem?, ◌==◌, if◌then◌else◌,
  ◌≡◌,
}
use letin.Interp.Calls.{
  Fun, Code, or_fail, stop, ResultType, int_result, float_result, ref_result, result_number,
  result_value, return_value_to_value, check_fun, enter, entered, clear_flag0, call_fun,
  before_call, take_tmp_ac2_back, interpret_call,
}
use letin.Interp.Fetch.{object_at, pop_values, expr_pop_arg_count}
use letin.Interp.Grows.{
  Extends, Ensures, Any, IfDone, bind-Ensures, step-Ensures, pure-Ensures, thread-Ensures,
  fail-Ensures, finish-Ensures, if-Ensures, if_result, object_at-Ensures,
}
use letin.Interp.Outcome.{
  Outcome, failed, success, stack_overflow, empty_stack, no_fun, incorrect_fun, incorrect_arg_count,
}
use letin.Interp.Fetched.{Given}
use letin.Interp.Sharing.{is_lazy_object}
use letin.Thread.Outer.{ReturnValue}
use letin.Interp.Reads.{
  IsIntValue, IsFloatValue, IsRefValue, MayBeLazy, IsSafeRuntime, get_int-Ensures,
  pop_values-Ensures,
}
use letin.Interp.Readers.{get_int}
use letin.Interp.World.{World, Step, Runtime, on_thread, finish, fail, ◌>>◌}
use letin.Loader.Format.{Instruction}
use letin.Opcode.{opcode_to_arg_type1}
use letin.Thread.Calls.{enter_to_fun}
use letin.Thread.Saved.{push_tmp_ac2, pop_tmp_ac2}
use letin.Thread.Stack.{pop_args}
use letin.Thread.State.{Value, lazy_value_ref, Method, modify, u32}

-- The strategy's parts of a call keep the types of the objects.
pub record IsSafeCode (code : Code) : Type 0 where
  pub pre_enter : (i t : ℕ) (w : World) → Ensures w (code.pre_enter_to_fun i t) Any
  pub post_leave : (i t : ℕ) (w : World) → Ensures w (code.post_leave_from_fun i t) Any

-- The type of a function's result.
abbrev pub IsOfType : ResultType → Value → Type 0
IsOfType int_result v = IsIntValue v
IsOfType float_result v = IsFloatValue v
IsOfType ref_result v = IsRefValue v

result_value-IsOfType : (t : ResultType) (rv : ReturnValue) → IsOfType t (result_value t rv)
result_value-IsOfType int_result rv = (rv.i, refl)
result_value-IsOfType float_result rv = (rv.f, refl)
result_value-IsOfType ref_result rv = (rv.r, refl)

or_fail-Ensures :
    {w : World} (m : Method Bool) (e : Step (Unit {0}))
    → ((w' : World) → Ensures w' e (IfDone Any))
    → Ensures w (or_fail m e) (IfDone Any)
or_fail-Ensures m e h =
    bind-Ensures (on_thread m) _ (thread-Ensures m)
      λ b w1 t. if-Ensures b _ _ (finish-Ensures tt tt) (h w1)

stop-Ensures :
    {A : Type 0} {Q : A → World → Type 0} {w : World} → Ensures w (stop {A = A}) (IfDone Q)
stop-Ensures = record { holds = (pure-Ensures (failed success) tt).holds }

module _ (rt : Runtime) (code : Code) (safe : IsSafeRuntime rt) (strategy : IsSafeCode code) where
  return_value_to_value-Ensures :
      {w : World} (t : ResultType)
      → Ensures w (return_value_to_value rt t) (Given (MayBeLazy (IsOfType t)))
  unfolding return_value_to_value
  return_value_to_value-Ensures {w = w} t = record {
    holds =
        if_result (Given (MayBeLazy (IsOfType t))) w rt.eager
          (pure-Ensures (result_value t rv) (inl (result_value-IsOfType t rv))).holds
          (bind-Ensures {Q = Given (MayBeLazy (IsOfType t))} {w = w} (object_at rv.r) _
            (object_at-Ensures rv.r)
            λ o w1 is. pure-Ensures _ (lazy_or_not (is_lazy_object o))).holds;
  }
    where
      rv : ReturnValue
      rv = w.machine.outer.rv

      lazy_or_not :
          (b : Bool)
          → MayBeLazy
              (IsOfType t)
              (if b then lazy_value_ref rv.r (not (rv.i == 0)) else result_value t rv)
      lazy_or_not true = inr (rv.r, not (rv.i == 0), refl)
      lazy_or_not false = inl (result_value-IsOfType t rv)

  check_fun-Ensures : {w : World} (i : ℕ) → Ensures w (check_fun rt code i) (IfDone Any)
  unfolding check_fun
  check_fun-Ensures {w = w} i = record { holds = cases (get_elem? code.funs i) }
    where
      cases :
          (x : Option Fun) (o : Outcome (Unit {0})) (w' : World)
          → elim (x) as (λ y. Option (Outcome (Unit {0}) × World)) [
            | none ↦ fail no_fun w
            | some f ↦
                if f.is_error
                then fail incorrect_fun w
                else if f.arg_count == w.machine.context.ac2
                then finish tt w
                else fail incorrect_arg_count w
          ]
            ≡ some (o, w')
          → Extends w.heap w'.heap × IfDone Any o w'
      cases none = (fail-Ensures no_fun).holds
      cases (some f) = if_result (IfDone Any) w f.is_error (fail-Ensures incorrect_fun).holds (
          if_result (IfDone Any) w (f.arg_count == w.machine.context.ac2)
            (finish-Ensures tt tt).holds (fail-Ensures incorrect_arg_count).holds)

  enter-Ensures : {w : World} (i : ℕ) → Ensures w (enter rt code i) (IfDone Any)
  unfolding enter
  enter-Ensures i =
      step-Ensures (or_fail (enter_to_fun i) (fail stack_overflow)) _
        (or_fail-Ensures (enter_to_fun i) (fail stack_overflow) (λ w'. fail-Ensures stack_overflow))
        λ u w1 t. stop-Ensures

  entered-Ensures :
      {w : World} (i : ℕ) (o : Option Bool) → Ensures w (entered rt code i o) (IfDone Any)
  unfolding entered
  entered-Ensures i none = enter-Ensures i
  entered-Ensures i (some b) = if-Ensures b _ _ (finish-Ensures tt tt) stop-Ensures

  call_fun-Ensures :
      {w : World} (i : ℕ) (t : ResultType) → Ensures w (call_fun rt code i t) (IfDone Any)
  unfolding call_fun
  call_fun-Ensures i t = step-Ensures (check_fun rt code i) _ (check_fun-Ensures i) λ u w1 x.
      bind-Ensures (code.pre_enter_to_fun i (result_number t)) (entered rt code i)
        (strategy.pre_enter i (result_number t) w1) λ o w2 y. entered-Ensures i o

  before_call-Ensures :
      {w : World} (i : ℕ) (t : ResultType) → Ensures w (before_call rt code i t) (IfDone Any)
  unfolding before_call
  before_call-Ensures {w = w} i t = record {
    holds =
        if_result (IfDone Any) w w.machine.context.after_leaving_flag0 (finish-Ensures tt tt).holds
          (if_result (IfDone Any) w w.machine.outer.arg_instr_flag
            (step-Ensures {Q = Any} {w = w} (or_fail push_tmp_ac2 (fail stack_overflow)) _
              (or_fail-Ensures push_tmp_ac2 (fail stack_overflow)
                (λ w'. fail-Ensures stack_overflow))
              λ u w1 x. call_fun-Ensures i t).holds
            (call_fun-Ensures i t).holds);
  }

  take_back-Ensures : {w : World} → Ensures w (take_tmp_ac2_back rt code) (IfDone Any)
  unfolding take_tmp_ac2_back
  take_back-Ensures {w = w} = record {
    holds =
        if_result (IfDone Any) w w.machine.outer.arg_instr_flag
          (or_fail-Ensures pop_tmp_ac2 (fail empty_stack) (λ w'. fail-Ensures empty_stack)).holds
          (finish-Ensures tt tt).holds;
  }

  pub interpret_call-Ensures :
      {w : World} (t : ResultType) (instr : Instruction)
      → Ensures w (interpret_call rt code t instr) (IfDone (Given (MayBeLazy (IsOfType t))))
  unfolding interpret_call
  interpret_call-Ensures t instr =
      let k = opcode_to_arg_type1 instr.opcode in
      let n = expr_pop_arg_count k in
      step-Ensures (get_int rt k instr.arg1 0 n) _ (get_int-Ensures rt safe _ k instr.arg1 0 n)
        λ i w1 a.
          step-Ensures (before_call rt code (u32 i) t) _ (before_call-Ensures (u32 i) t) λ u w2 b.
            step-Ensures (pop_values n) _ (pop_values-Ensures n) λ v w3 c.
              step-Ensures (on_thread (modify clear_flag0) >> take_tmp_ac2_back rt code) _
                (bind-Ensures (on_thread (modify clear_flag0)) _
                  (thread-Ensures (modify clear_flag0)) λ x w4 d. take_back-Ensures)
                λ s w5 e.
                  bind-Ensures (code.post_leave_from_fun (u32 i) (result_number t)) _
                    (strategy.post_leave (u32 i) (result_number t) w5)
                    λ go w6 f.
                      if-Ensures go _ _
                        (bind-Ensures (on_thread pop_args >> return_value_to_value rt t) finish
                          (bind-Ensures (on_thread pop_args) _ (thread-Ensures pop_args)
                            λ x w7 g. return_value_to_value-Ensures t)
                          λ y w8 h. finish-Ensures y h)
                        stop-Ensures
