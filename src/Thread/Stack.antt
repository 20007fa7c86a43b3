-- ===== src/Thread/Stack.antt =====
-- vm/vm.hpp: the methods of `ThreadContext` on arguments and local variables.
use letin.Common.{ℕ, ◌+◌, ◌-◌, ◌^◌, Bool, true, false, some, length, set, ltb, if◌then◌else◌}
use letin.Thread.State.{Value, Context, Method, u32, lvbp, write, modify}

-- The guard of each push is that its slot is in the stack.
abbrev pub local_var_pushed : Value → Context → Context
local_var_pushed v c = record c {
  regs = record c.regs { abp2 = u32 (c.abp2 + 1); ac2 = 0; sec = u32 (c.abp2 + 1) };
  stack = set c.stack c.abp2 v;
}

unfoldable pub push_local_var : Value → Method Bool
push_local_var v c =
    if ltb c.abp2 (length c.stack) then some (true, local_var_pushed v c) else some (false, c)

abbrev pub arg_pushed : Value → Context → Context
arg_pushed v c = record c {
  regs = record c.regs { ac2 = u32 (c.ac2 + 1); sec = u32 (c.sec + 1) };
  stack = set c.stack (u32 (c.abp2 + c.ac2)) v;
}

unfoldable pub push_arg : Value → Method Bool
push_arg v c =
    if ltb (u32 (c.abp2 + c.ac2)) (length c.stack)
    then some (true, arg_pushed v c)
    else some (false, c)

unfoldable pub pop_args : Method (Unit {0})
pop_args = modify λ r. record r { ac2 = 0; sec = r.abp2 }

unfoldable pub pop_args_and_local_vars : Method (Unit {0})
pop_args_and_local_vars = modify λ r. record r { abp2 = lvbp r; lvc = 0; ac2 = 0; sec = lvbp r }

-- The method `in`.
unfoldable pub close_let : Method (Unit {0})
close_let = modify λ r. record r { lvc = u32 (r.abp2 + 2 ^ 32 - lvbp r) }

-- `arg(i) = v`
unfoldable pub set_arg : ℕ → Value → Method (Unit {0})
set_arg i v c = write (u32 c.abp + i) v c

unfoldable pub hide_args : Method (Unit {0})
hide_args = modify λ r. record r { tmp_ac2 = r.ac2; abp2 = u32 (r.abp2 + r.ac2); ac2 = 0 }

unfoldable pub restore_abp2_and_ac2 : Method (Unit {0})
restore_abp2_and_ac2 = modify λ r. record r {
  abp2 = u32 (r.abp2 + 2 ^ 32 - r.tmp_ac2);
  ac2 = r.tmp_ac2;
  sec = u32 (u32 (r.abp2 + 2 ^ 32 - r.tmp_ac2) + r.tmp_ac2);
}
