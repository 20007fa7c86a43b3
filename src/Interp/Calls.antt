-- ===== src/Interp/Calls.antt =====
-- vm/vm/interp_vm.cpp: OP_ICALL, OP_FCALL and OP_RCALL. A call of a function that runs its code enters it and
-- gives no value; when the function has returned, the instruction is interpreted again and gives one.
use letin.Common.{ℕ, Bool, false, List, Option, none, some, get_elem?, ◌==◌, not, if◌then◌else◌}
use letin.Interp.Fetch.{expr_pop_arg_count, pop_values, object_at}
use letin.Interp.Outcome.{
  failed, success, stack_overflow, empty_stack, no_fun, incorrect_fun, incorrect_arg_count,
}
use letin.Interp.Readers.{get_int}
use letin.Interp.Sharing.{is_lazy_object}
use letin.Interp.World.{Act, ◌>>=◌, ◌>>◌, pure, on_thread, Step, ◌>=>◌, finish, fail, Runtime}
use letin.Loader.Format.{Instruction, value_type_int, value_type_float, value_type_ref}
use letin.Opcode.{opcode_to_arg_type1}
use letin.Thread.Calls.{enter_to_fun}
use letin.Thread.Outer.{ReturnValue}
use letin.Thread.Saved.{push_tmp_ac2, pop_tmp_ac2}
use letin.Thread.Stack.{pop_args}
use letin.Thread.State.{Value, int, float, ref, lazy_value_ref, Method, Registers, modify, u32}

pub record Fun : Type 0 where
  pub is_error : Bool
  pub arg_count : ℕ
  pub instrs : List Instruction

-- The functions, and the evaluation strategy: `pre_enter_to_fun` is `none` where the function must be
-- entered, and otherwise says whether it has a result; `post_leave_from_fun` says whether to go on. Each
-- has a variant for forcing.
pub record Code : Type 0 where
  pub funs : List Fun
  pub pre_enter_to_fun : ℕ → ℕ → Act (Option Bool)
  pub post_leave_from_fun : ℕ → ℕ → Act Bool
  pub post_leave_from_fun_for_force : ℕ → ℕ → Act Bool

-- The step returns false, and sets no error itself.
abbrev pub stop : {A : Type 0} → Step A
stop w = some (failed success, w)

-- A method that answers false where it fails with the error.
abbrev pub or_fail : Method Bool → Step (Unit {0}) → Step (Unit {0})
or_fail m e = on_thread m >>= λ b. if b then finish tt else e

-- `VALUE_TYPE_INT`, `VALUE_TYPE_FLOAT` and `VALUE_TYPE_REF` as results of a function.
pub data ResultType : Type 0 where
  int_result float_result ref_result : ResultType

abbrev pub result_number : ResultType → ℕ
result_number int_result = value_type_int
result_number float_result = value_type_float
result_number ref_result = value_type_ref

-- `Value(rv.i)`, `Value(rv.f)` or `Value(rv.r)`
abbrev pub result_value : ResultType → ReturnValue → Value
result_value int_result rv = int rv.i
result_value float_result rv = float rv.f
result_value ref_result rv = ref rv.r

abbrev pub clear_flag0 : Registers → Registers
clear_flag0 r = record r { after_leaving_flag0 = false }

module _ (rt : Runtime) where
  -- `_M_return_value_to_int_value` and the others
  unfoldable pub return_value_to_value : ResultType → Act Value
  unfolding object_at is_lazy_object
  return_value_to_value t w =
      let rv = w.machine.outer.rv in
      if rt.eager
      then pure (result_value t rv) w
      else (object_at rv.r >>= λ o.
            pure (
              if is_lazy_object o
              then lazy_value_ref rv.r (not (rv.i == 0))
              else result_value t rv))
          w

  module _ (code : Code) where
    unfoldable pub check_fun : ℕ → Step (Unit {0})
    unfolding fail
    check_fun i w = elim (get_elem? code.funs i) [
      | none ↦ fail no_fun w
      | some f ↦
          if f.is_error
          then fail incorrect_fun w
          else if f.arg_count == w.machine.context.ac2
          then finish tt w
          else fail incorrect_arg_count w
    ]

    -- The function is entered; its code gives the result later.
    unfoldable pub enter : ℕ → Step (Unit {0})
    unfolding enter_to_fun fail
    enter i = or_fail (enter_to_fun i) (fail stack_overflow) >=> λ u. stop

    -- What the strategy's answer leads to.
    unfoldable pub entered : ℕ → Option Bool → Step (Unit {0})
    unfolding enter
    entered i none = enter i
    entered i (some b) = if b then finish tt else stop

    unfoldable pub call_fun : ℕ → ResultType → Step (Unit {0})
    unfolding check_fun entered
    call_fun i t = check_fun i >=> λ u. code.pre_enter_to_fun i (result_number t) >>= entered i

    -- The part before the function is called, which is left out once it has returned.
    unfoldable pub before_call : ℕ → ResultType → Step (Unit {0})
    unfolding call_fun push_tmp_ac2 fail
    before_call i t w =
        if w.machine.context.after_leaving_flag0
        then finish tt w
        else if w.machine.outer.arg_instr_flag
        then (or_fail push_tmp_ac2 (fail stack_overflow) >=> λ u. call_fun i t) w
        else call_fun i t w

    unfoldable pub take_tmp_ac2_back : Step (Unit {0})
    unfolding pop_tmp_ac2 fail
    take_tmp_ac2_back w =
        if w.machine.outer.arg_instr_flag
        then or_fail pop_tmp_ac2 (fail empty_stack) w
        else finish tt w

    -- OP_ICALL, OP_FCALL and OP_RCALL
    unfoldable pub interpret_call : ResultType → Instruction → Step Value
    unfolding get_int expr_pop_arg_count before_call pop_values take_tmp_ac2_back pop_args
        return_value_to_value
    interpret_call t instr =
        let k = opcode_to_arg_type1 instr.opcode in
        let n = expr_pop_arg_count k in
        get_int rt k instr.arg1 0 n >=> λ i. before_call (u32 i) t >=> λ u. pop_values n >=> λ v.
        on_thread (modify clear_flag0) >> take_tmp_ac2_back >=> λ s.
        code.post_leave_from_fun (u32 i) (result_number t) >>= λ b.
        if b then on_thread pop_args >> return_value_to_value t >>= finish else stop
