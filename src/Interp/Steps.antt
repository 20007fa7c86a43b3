-- ===== src/Interp/Steps.antt =====
-- vm/vm/interp_vm.cpp: the cases of `interpret_instr`. The registers that hold values for the garbage
-- collector alone are left out. What an operation does is a parameter, which `interpret_op` fills.
use letin.Common.{ℕ, zero, suc, ◌+◌, Bool, true, false, List, [], ◌∷◌, ◌==◌, if◌then◌else◌}
use letin.Interp.Fetch.{expr_pop_arg_count, pop_values}
use letin.Interp.Objects.{check_object_type, pushed_arg, set_rv}
use letin.Interp.Outcome.{
  Outcome, done, failed, incorrect_object, empty_stack, stack_overflow, incorrect_arg_count,
  user_exception, no_error,
}
use letin.Interp.Readers.{get_ref}
use letin.Interp.World.{
  Act, ◌>>=◌, ◌>>◌, pure, on_thread, raise_code, raise_with, raise, Step, ◌>=>◌, finish, Runtime,
}
use letin.Loader.Format.{Instruction}
use letin.Opcode.{opcode_to_arg_type1}
use letin.Thread.Calls.{leave_from_fun}
use letin.Thread.Exprs.{pop_all_expr_values}
use letin.Thread.Stack.{
  push_local_var, push_arg, pop_args, pop_args_and_local_vars, set_arg, hide_args,
  restore_abp2_and_ac2,
}
use letin.Thread.State.{Value, error, Method, u32}
use letin.Values.{io, Object}
use letin.Interp.Instrs.{nothing, or_raise, set_regs, set_arg_instr_flag, clear_rv_ref}

unfoldable pub is_error : Value → Bool
is_error error = true
is_error v = false

-- `pushed_arg(i)` to `arg(i)`, for the `n` arguments from `i` on.
unfoldable pub move_args : ℕ → ℕ → Act (Unit {0})
unfolding pushed_arg set_arg
move_args i zero = nothing
move_args i (suc n) =
    let rest = move_args (suc i) n in pushed_arg i >>= λ v. on_thread (set_arg i v) >> rest

unfoldable pub push_elems : List Value → Act (Unit {0})
unfolding push_local_var raise
push_elems [] = nothing
push_elems (v ∷ vs) =
    let rest = push_elems vs in or_raise (push_local_var v) (raise stack_overflow) >> rest

module _ (rt : Runtime) (interpret_op : Instruction → Step Value) where
  -- An operation's value, which is an error where it has none.
  unfoldable pub op_value : Instruction → Act Value
  op_value instr = interpret_op instr >>= of_outcome
    where
      of_outcome : Outcome Value → Act Value
      of_outcome (done v) = pure v
      of_outcome (failed e) = pure error

  -- What is done with an operation's value; the value of an operation that failed is left alone.
  abbrev pub unless_error : Value → Act (Unit {0}) → Act (Unit {0})
  unless_error v m = if is_error v then nothing else m

  -- INSTR_LET and INSTR_PUSH
  unfoldable pub keep_value : (Value → Method Bool) → Instruction → Act (Unit {0})
  unfolding op_value is_error pop_args raise clear_rv_ref
  keep_value keep instr = op_value instr >>= λ v.
      on_thread pop_args
      >> unless_error v (or_raise (keep v) (raise stack_overflow))
      >> clear_rv_ref

  -- INSTR_RET
  unfoldable pub return_value_of : Instruction → Act (Unit {0})
  unfolding op_value is_error leave_from_fun raise set_rv
  return_value_of instr = op_value instr >>= λ v.
      unless_error v (or_raise leave_from_fun (raise empty_stack) >> set_rv v)

  -- An operand of an instruction that is no operation, and what is done with it.
  unfoldable pub with_operand :
      (ℕ → ℕ → ℕ → ℕ → Step ℕ) → Instruction → (ℕ → Act (Unit {0})) → Act (Unit {0})
  unfolding expr_pop_arg_count pop_values
  with_operand get instr k =
      let t = opcode_to_arg_type1 instr.opcode in
      let n = expr_pop_arg_count t in
      (get t instr.arg1 0 n >=> λ x. pop_values n >=> λ u. finish x) >>= of_operand
    where
      of_operand : Outcome ℕ → Act (Unit {0})
      of_operand (done x) = k x
      of_operand (failed e) = nothing

  -- `ip += n`, in `std::uint32_t`
  abbrev pub jump_by : ℕ → Act (Unit {0})
  jump_by n = set_regs λ r. record r { ip = u32 (r.ip + n) }

  -- INSTR_ARG
  unfoldable pub argument : Instruction → Act (Unit {0})
  unfolding op_value is_error hide_args set_arg_instr_flag restore_abp2_and_ac2 push_arg raise
      clear_rv_ref
  argument instr = on_thread hide_args >> set_arg_instr_flag true >> op_value instr >>= λ v.
      set_arg_instr_flag false
      >> unless_error v
          (on_thread restore_abp2_and_ac2 >> or_raise (push_arg v) (raise stack_overflow))
      >> clear_rv_ref

  -- INSTR_RETRY
  unfoldable pub again : Act (Unit {0})
  unfolding move_args pop_args_and_local_vars pop_all_expr_values raise
  again w =
      let c = w.machine.context in
      ((if c.ac == c.ac2
            then move_args 0 c.ac
              >> on_thread pop_args_and_local_vars
              >> on_thread pop_all_expr_values
            else raise incorrect_arg_count)
          >> set_regs (λ r. record r { ip = 0 }))
        w

  -- INSTR_THROW
  unfoldable pub throw_ref : Instruction → Act (Unit {0})
  unfolding get_ref with_operand raise_with
  throw_ref instr = with_operand (get_ref rt) instr (raise_with user_exception)

  -- INSTR_RETHROW; where the object is no unique I/O object, two errors are raised.
  unfoldable pub rethrow_ref : Instruction → Act (Unit {0})
  unfolding get_ref with_operand check_object_type raise_with raise_code
  rethrow_ref instr = with_operand (get_ref rt) instr λ r. check_object_type io true r >>= checked r
    where
      checked : ℕ → Outcome Object → Act (Unit {0})
      checked r (failed e) w = raise_with incorrect_object r w
      checked r (done o) w =
          let c = w.machine.context in
          (if c.try_catch_flag
              then raise_code c.try_catch_error c.try_catch_r
              else raise_with no_error r)
            w
