-- ===== src/Interp/Instrs.antt =====
-- vm/vm/interp_vm.cpp: what `interpret_instr` does first where a function that was entered to force a lazy
-- value has returned.
use letin.Common.{ℕ, Bool, true, false, Option, none, some, ◌==◌, if◌then◌else◌}
use letin.Interp.Calls.{Code, or_fail, stop}
use letin.Interp.Fetch.{object_at}
use letin.Interp.Outcome.{empty_stack}
use letin.Interp.World.{Act, ◌>>=◌, ◌>>◌, pure, on_thread, Step, ◌>=>◌, finish, fail}
use letin.Thread.Saved.{
  get_locked_lazy_value_ref, pop_locked_lazy_value_ref, pop_ai, pop_tmp_ac2_and_after_leaving_flag1,
}
use letin.Thread.Stack.{pop_args, restore_abp2_and_ac2}
use letin.Thread.State.{Registers, Method, modify}

abbrev pub nothing : Act (Unit {0})
nothing = pure tt

-- A method that answers false where it fails with the error, which nothing else follows.
abbrev pub or_raise : Method Bool → Act (Unit {0}) → Act (Unit {0})
or_raise m e = on_thread m >>= λ b. if b then nothing else e

abbrev pub set_regs : (Registers → Registers) → Act (Unit {0})
set_regs f = on_thread (modify f)

unfoldable pub set_arg_instr_flag : Bool → Act (Unit {0})
set_arg_instr_flag b w = some (
  tt,
  record w { machine = record w.machine { outer = record w.machine.outer { arg_instr_flag = b } } },
)

-- `rv.raw().r = Reference()`
unfoldable pub clear_rv_ref : Act (Unit {0})
clear_rv_ref w = some (
  tt,
  record w {
    machine = record w.machine {
      outer = record w.machine.outer { rv = record w.machine.outer.rv { r = 0 } };
    };
  },
)

module _ (code : Code) where
  unfoldable pub restore_and_pop_regs_for_force : Step (Unit {0})
  unfolding pop_args pop_locked_lazy_value_ref pop_ai pop_tmp_ac2_and_after_leaving_flag1
      restore_abp2_and_ac2 fail
  restore_and_pop_regs_for_force =
      set_regs (λ r. record r { after_leaving_flag_index = 0 })
      >> on_thread pop_args
      >> or_fail pop_locked_lazy_value_ref (fail empty_stack)
      >=> λ u. or_fail pop_ai (fail empty_stack) >=> λ v.
          or_fail pop_tmp_ac2_and_after_leaving_flag1 (fail empty_stack) >=> λ s w.
          if w.machine.outer.arg_instr_flag
          then finish tt w
          else (on_thread restore_abp2_and_ac2 >>= finish) w

  -- The strategy's part after a lazy value's function has returned.
  unfoldable pub post_leave_for_force : Step (Unit {0})
  unfolding get_locked_lazy_value_ref object_at fail
  post_leave_for_force = on_thread get_locked_lazy_value_ref >>= left
    where
      left : Option ℕ → Step (Unit {0})
      left none = fail empty_stack
      left (some r) = object_at r >>= λ o.
          code.post_leave_from_fun_for_force o.function o.value_type >>= λ b.
          if b then finish tt else stop

  abbrev with_arg_flag : Bool → Step (Unit {0}) → Step (Unit {0})
  with_arg_flag is_arg m =
      if is_arg
      then (set_arg_instr_flag true >> m >=> λ u.
          set_arg_instr_flag false >> on_thread restore_abp2_and_ac2 >>= finish)
      else m

  -- The part of `interpret_instr` where a function that was entered to force a value has returned.
  unfoldable pub after_forcing : Bool → Step (Unit {0})
  unfolding set_arg_instr_flag post_leave_for_force restore_and_pop_regs_for_force
      restore_abp2_and_ac2
  after_forcing is_arg w =
      if w.machine.context.after_leaving_flag1
      then (if w.machine.outer.rv.error_code == 0
            then (post_leave_for_force >=> λ u. with_arg_flag is_arg restore_and_pop_regs_for_force)
            else with_arg_flag is_arg restore_and_pop_regs_for_force)
          w
      else finish tt w
