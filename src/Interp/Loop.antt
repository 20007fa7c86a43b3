-- ===== src/Interp/Loop.antt =====
-- vm/vm/interp_vm.cpp: `interpret_instr`, INSTR_LETTUPLE among its cases, and `interpret`, on fuel for the
-- number of instructions.
use letin.Common.{
  ℕ, zero, suc, ◌+◌, ◌-◌, ◌^◌, Bool, true, false, List, [], ◌∷◌, Option, none, some, length,
  get_elem?, ◌==◌, if◌then◌else◌,
}
use letin.Interp.Calls.{Code}
use letin.Interp.Fetch.{object_at}
use letin.Interp.Outcome.{
  Outcome, done, failed, no_instr, incorrect_instr, incorrect_object, empty_stack, stack_overflow,
}
use letin.Interp.Readers.{get_int, ref_of_cell}
use letin.Interp.World.{World, Act, ◌>>=◌, ◌>>◌, pure, on_thread, raise, Step, Runtime}
use letin.Loader.Format.{Instruction}
use letin.Opcode.{
  Instr, let_, in_, ret, jc, jump, arg, retry, lettuple, throw, push, pop, rethrow, opcode_to_instr,
  opcode_to_local_var_count,
}
use letin.Thread.Exprs.{push_expr_value, pop_expr_values}
use letin.Thread.Saved.{push_tmp_value, pop_tmp_value, get_tmp_value}
use letin.Thread.Stack.{push_local_var, pop_args, close_let}
use letin.Thread.State.{Value, error, u32}
use letin.Values.{tuple, kind_number}
use letin.Interp.Instrs.{nothing, or_raise, set_regs, clear_rv_ref, after_forcing}
use letin.Interp.Steps.{
  is_error, op_value, unless_error, push_elems, keep_value, return_value_of, with_operand, jump_by,
  argument, again, throw_ref, rethrow_ref,
}

-- INSTR_LET, ..., INSTR_RETHROW
abbrev pub instrs_by_number : List Instr
instrs_by_number =
    let_ ∷ in_ ∷ ret ∷ jc ∷ jump ∷ arg ∷ retry ∷ lettuple ∷ throw ∷ push ∷ pop ∷ rethrow ∷ []

module _ (rt : Runtime) (code : Code) (interpret_op : Instruction → Step Value) where
  -- The value of INSTR_LETTUPLE, which lies on the stack while it is forced.
  unfoldable pub fresh_tuple : Instruction → Act Value
  unfolding op_value is_error pop_args push_tmp_value raise
  fresh_tuple instr = op_value rt interpret_op instr >>= λ v.
      on_thread pop_args >> set_regs (λ r. record r { ai = 2 ^ 64 - 1 }) >> kept v
    where
      kept : Value → Act Value
      kept v =
          if is_error v
          then pure v
          else on_thread (push_tmp_value v) >>= λ b.
              if b then pure v else (raise stack_overflow >> pure error)

  unfoldable pub tuple_value : Instruction → Act Value
  unfolding fresh_tuple get_tmp_value raise
  tuple_value instr w =
      if w.machine.context.after_leaving_flag1
      then (if w.machine.context.ai == 2 ^ 64 - 1
            then on_thread get_tmp_value >>= found
            else fresh_tuple instr)
          w
      else (set_regs (λ r. record r { ai = 0 }) >> fresh_tuple instr) w
    where
      found : Option Value → Act Value
      found none = raise empty_stack >> pure error
      found (some v) = pure v

  -- INSTR_LETTUPLE
  unfoldable pub let_tuple : Instruction → Act (Unit {0})
  unfolding tuple_value is_error ref_of_cell pop_tmp_value object_at push_elems raise clear_rv_ref
      opcode_to_local_var_count
  let_tuple instr = tuple_value instr >>= λ v.
      unless_error rt interpret_op v (ref_of_cell rt v >>= λ (o, x). opened o) >> clear_rv_ref
    where
      opened : Outcome ℕ → Act (Unit {0})
      opened (failed e) = nothing
      opened (done r) = on_thread pop_tmp_value >>= λ b.
          if b
          then (object_at r >>= λ o.
              if kind_number o.kind == kind_number tuple
              then (if length o.elems == opcode_to_local_var_count instr.opcode
                  then push_elems o.elems
                  else raise incorrect_object)
              else raise incorrect_object)
          else raise empty_stack

  -- `switch(opcode_to_instr(instr.opcode))`
  unfoldable pub run_instr : Option Instr → Instruction → Act (Unit {0})
  unfolding keep_value push_local_var push_expr_value close_let return_value_of get_int with_operand
      argument again let_tuple throw_ref pop_expr_values rethrow_ref raise
  run_instr none instr = raise incorrect_instr
  run_instr (some let_) instr = keep_value rt interpret_op push_local_var instr
  run_instr (some in_) instr = on_thread close_let
  run_instr (some ret) instr = return_value_of rt interpret_op instr
  run_instr (some jc) instr =
      with_operand rt interpret_op (get_int rt) instr
        λ i. if i == 0 then nothing else jump_by rt interpret_op instr.arg2
  run_instr (some jump) instr = jump_by rt interpret_op instr.arg1
  run_instr (some arg) instr = argument rt interpret_op instr
  run_instr (some retry) instr = again rt interpret_op
  run_instr (some lettuple) instr = let_tuple instr
  run_instr (some throw) instr = throw_ref rt interpret_op instr
  run_instr (some push) instr = keep_value rt interpret_op push_expr_value instr
  run_instr (some pop) instr = or_raise (pop_expr_values instr.arg1) (raise empty_stack)
  run_instr (some rethrow) instr = rethrow_ref rt interpret_op instr

  -- An instruction that is there: whether to go on.
  unfoldable pub run : Instruction → Act Bool
  unfolding after_forcing opcode_to_instr run_instr
  run instr =
      let i = opcode_to_instr instr.opcode in
      set_regs (λ r. record r { ip = u32 (r.ip + 1) }) >> after_forcing code (i == 5) >>= λ o.
      (let rest = run_instr (get_elem? instrs_by_number i) instr in going o rest)
    where
      going : Outcome (Unit {0}) → Act (Unit {0}) → Act Bool
      going (done u) m = m >> pure true
      going (failed e) m = pure false

  unfoldable pub interpret_instr : Act Bool
  unfolding run raise
  interpret_instr w =
      let c = w.machine.context in
      if c.fp == 2 ^ 64 - 1 then some (false, w) else elim (get_elem? code.funs c.fp) [
        | none ↦ none
        | some f ↦ elim (get_elem? f.instrs c.ip) [
          | none ↦ (raise no_instr >> pure true) w
          | some instr ↦ run instr w
        ]
      ]

  unfoldable pub interpret : ℕ → World → Option World
  unfolding interpret_instr
  interpret zero w = none
  interpret (suc n) w = elim (interpret_instr w) [
    | none ↦ none
    | some (b, w') ↦ elim (b) [ false ↦ some w' | true ↦ interpret n w' ]
  ]
