-- ===== src/Tests/Threads.antt =====
-- vm/vm.hpp and vm/vm.cpp on a thread with a stack of twelve slots.
use letin.Common.{
  ◌+◌, ℕ, ◌<◌, get_elem?, ◌-◌, ◌^◌, ◌≡◌, refl, inl, true, false, ◌∷◌, none, some, replicate, arith,
}
use letin.Thread.Balance.{entered, enter_lem}
use letin.Thread.Calls.{leave_from_fun}
use letin.Thread.Frames.{Run, stop, step, local_var, expr}
use letin.Thread.Exprs.{push_expr_value, expr_value_pushed}
use letin.Thread.Returns.{IsCaller, Returns, call_balanced}
use letin.Thread.Saved.{push_try_regs, pop_try_regs}
use letin.Thread.Stack.{push_local_var, local_var_pushed}
use letin.Thread.State.{int, Context, u32, initial_registers}
use letin.Thread.Errors.{error_value, set_error, error_caught}
use letin.Thread.Outer.{ReturnValue, Machine, SavedRegisters, save_regs_and_set_regs, restore_regs}
use letin.Thread.Restores.{regs_restored}
use letin.Thread.TryPops.{with_try, try_regs_balanced, pop_try_regs_short}

-- Two values, the second of which is an argument of the call to come.
abbrev caller : Context
caller = record {
  regs = record initial_registers { abp2 = 1; ac2 = 1; sec = 2; evc = 1; esec = 1; fp = 7; ip = 3 };
  stack = int 5 ∷ int 6 ∷ replicate 10 (int 0);
  expr_stack = int 1 ∷ replicate 3 (int 0);
}

caller-IsCaller : IsCaller caller
caller-IsCaller = record {
  small = omega arith;
  args = omega arith;
  small_exprs = omega arith;
  exprs = omega arith;
  fun_index = inl (omega arith);
}

-- The function pushes a local variable and an expression value.
abbrev with_local : Context
with_local = local_var_pushed (int 8) (entered 2 caller)

abbrev with_both : Context
with_both = expr_value_pushed (int 9) with_local

body : Run (entered 2 caller) with_both
unfolding push_local_var push_expr_value
body = step (step (stop refl) (local_var (int 8) true refl)) (expr (int 9) true refl)

call_balanced_example :
    (f : Context) × (leave_from_fun with_both ≡ some (true, f)) × Returns caller f
call_balanced_example =
    call_balanced 2 caller (entered 2 caller) with_both caller-IsCaller (omega arith)
      (enter_lem 2 caller (omega arith) (omega arith)) body

-- The code after the push clears a flag and overwrites a register.
abbrev forget : Context → Context
forget d = record d { regs = record d.regs { try_flag = false; try_abp = 0; ai = 4 } }

abbrev in_try : Context
in_try = record caller {
  regs = record caller.regs {
    try_flag = true;
    try_abp = 6;
    try_ac = 2;
    try_catch_error = 2 ^ 32 - 1;
  };
}

try_regs_balanced_example :
    (d : Context) × (push_try_regs in_try ≡ some (true, d))
    × (pop_try_regs (forget d)
        ≡ some (true, record (forget d) { regs = with_try in_try.regs (forget d).regs }))
try_regs_balanced_example =
    try_regs_balanced in_try forget (omega arith) (omega arith)
      (record { abp_fits = omega arith; ac_fits = omega arith; error_fits = omega arith })
      (λ d. record { top_stays = refl; slots_stay = λ i h. refl })

-- Four values on the stack.
abbrev four_values : Context
four_values = record caller { regs = record caller.regs { abp2 = 4; ac2 = 0; sec = 4 } }

pop_try_regs_short_example : pop_try_regs four_values ≡ none
pop_try_regs_short_example = pop_try_regs_short four_values (omega arith) (omega arith)

abbrev no_value : ReturnValue
no_value = record { i = 0; f = 0; r = 0; error_code = 0 }

-- The caller, with nothing forced.
abbrev caller_machine : Machine
caller_machine = record {
  context = caller;
  outer = record {
    nfbp = 0;
    enfbp = 0;
    arg_instr_flag = true;
    rv = no_value;
    force_tmp_rv = no_value;
    force_tmp_r = 8;
    force_tmp_r2 = 0;
    force_tmp_rv2 = no_value;
  };
}

regs_restored_example :
    (s : SavedRegisters) × (inner : Machine) × (save_regs_and_set_regs caller_machine
      ≡ some ((true, s), inner))
    × ((p : ℕ) → p < 2 → get_elem? inner.context.stack p ≡ get_elem? caller_machine.context.stack p)
    × ((later : Machine)
        → ((p : ℕ)
            → p < inner.outer.nfbp
            → get_elem? later.context.stack p ≡ get_elem? inner.context.stack p)
        → restore_regs s later
          ≡ some (
            true,
            record {
              context = record later.context {
                regs = record caller.regs {
                  ai = later.context.ai;
                  tmp_ac2 = later.context.tmp_ac2;
                };
              };
              outer = record caller_machine.outer { rv = later.outer.rv };
            },
          ))
regs_restored_example = regs_restored caller_machine (omega arith) (omega arith) refl refl

-- An error while the function runs that the caller tried, with other registers and another top of the stack.
abbrev failing : Machine
failing = record caller_machine {
  context = record (entered 2 caller) {
    regs = record (entered 2 caller).regs {
      abp = 7;
      ac = 0;
      try_flag = true;
      try_abp = 1;
      try_ac = 1;
    };
  };
}

error_caught_example :
    (after : Machine) × (set_error 6 9 failing ≡ some after)
    × (after.outer.rv ≡ error_value 6 9)
    × (after.context.abp ≡ 0)
    × (after.context.ac ≡ 0)
    × (after.context.lvc ≡ 0)
    × (after.context.abp2 ≡ 1)
    × (after.context.ac2 ≡ 1)
    × (after.context.sec ≡ 1)
    × (after.context.evbp ≡ 0)
    × (after.context.evc ≡ 1)
    × (after.context.fp ≡ 7)
    × (after.context.ip ≡ u32 (3 + 2 ^ 32 - 1))
    × ((p : ℕ) → p < 1 → get_elem? after.context.stack p ≡ get_elem? caller.stack p)
error_caught_example =
    error_caught 2 6 9 caller (entered 2 caller) failing caller-IsCaller (omega arith)
      (enter_lem 2 caller (omega arith) (omega arith)) refl refl refl (omega arith) refl
      (λ p lt. refl)
