-- ===== src/Thread/Saved.antt =====
-- vm/vm.hpp: the registers that `ThreadContext` puts on the stack and takes back.
use letin.Common.{
  ℕ, ◌+◌, ◌-◌, ◌*◌, ◌/◌, ◌%◌, ◌^◌, Bool, true, false, Option, none, some, ltb, leb, ◌==◌, bit_or,
  not, if◌then◌else◌,
}
use letin.Thread.Stack.{push_local_var}
use letin.Thread.State.{
  Value, int, ref, pair, locked_lazy_value_ref, Registers, Method, u32, read, modify, pure, ◌>>=◌,
  ◌>>◌,
}

-- An `int` as a `std::int64_t`.
unfoldable pub sign_extend : ℕ → ℕ
sign_extend x = if ltb x (2 ^ 31) then x else x + 2 ^ 64 - 2 ^ 32

abbrev pub to_nat : Bool → ℕ
to_nat true = 1
to_nat false = 0

unfoldable pub push_tmp_ac2 : Method Bool
push_tmp_ac2 c = push_local_var (int c.tmp_ac2) c

unfoldable pub push_ai : Method Bool
push_ai c = push_local_var (int c.ai) c

unfoldable pub push_tmp_ac2_and_after_leaving_flag1 : Method Bool
push_tmp_ac2_and_after_leaving_flag1 c =
    push_local_var (pair c.tmp_ac2 (to_nat c.after_leaving_flag0)) c

unfoldable pub push_locked_lazy_value_ref : ℕ → Method Bool
push_locked_lazy_value_ref r = push_local_var (locked_lazy_value_ref r)

unfoldable pub push_tmp_value : Value → Method Bool
push_tmp_value v = push_local_var v

-- The value under `abp2`, if there is one.
unfoldable pub top : Method (Option Value)
top c = if ltb 0 c.abp2 then (do v ← read (c.abp2 - 1); pure (some v)) c else some (none, c)

-- `sec--; abp2--;`
unfoldable pub drop_top : Method (Unit {0})
drop_top = modify λ r. record r { sec = u32 (r.sec + 2 ^ 32 - 1); abp2 = u32 (r.abp2 + 2 ^ 32 - 1) }

take_tmp_ac2 : Option Value → Method Bool
unfolding drop_top
take_tmp_ac2 (some (int i)) = do drop_top; modify λ r. record r { tmp_ac2 = u32 i }; pure true
take_tmp_ac2 _ = pure false

unfoldable pub pop_tmp_ac2 : Method Bool
unfolding top take_tmp_ac2
pop_tmp_ac2 = do v ← top; take_tmp_ac2 v

take_ai : Option Value → Method Bool
unfolding drop_top
take_ai (some (int i)) = do drop_top; modify λ r. record r { ai = i }; pure true
take_ai _ = pure false

unfoldable pub pop_ai : Method Bool
unfolding top take_ai
pop_ai = do v ← top; take_ai v

take_tmp_ac2_and_flag : Option Value → Method Bool
unfolding drop_top
take_tmp_ac2_and_flag (some (pair a b)) = do
  drop_top
  modify λ r. record r { tmp_ac2 = a; after_leaving_flag0 = not (b == 0) }
  pure true
take_tmp_ac2_and_flag _ = pure false

unfoldable pub pop_tmp_ac2_and_after_leaving_flag1 : Method Bool
unfolding top take_tmp_ac2_and_flag
pop_tmp_ac2_and_after_leaving_flag1 = do v ← top; take_tmp_ac2_and_flag v

take_locked : Option Value → Method Bool
unfolding drop_top
take_locked (some (locked_lazy_value_ref r)) = do drop_top; pure true
take_locked _ = pure false

unfoldable pub pop_locked_lazy_value_ref : Method Bool
unfolding top take_locked
pop_locked_lazy_value_ref = do v ← top; take_locked v

locked_of : Option Value → Method (Option ℕ)
locked_of (some (locked_lazy_value_ref r)) = pure (some r)
locked_of _ = pure none

unfoldable pub get_locked_lazy_value_ref : Method (Option ℕ)
unfolding top locked_of
get_locked_lazy_value_ref = do v ← top; locked_of v

take_any : Option Value → Method Bool
unfolding drop_top
take_any (some v) = do drop_top; pure true
take_any none = pure false

unfoldable pub pop_tmp_value : Method Bool
unfolding top take_any
pop_tmp_value = do v ← top; take_any v

unfoldable pub get_tmp_value : Method (Option Value)
unfolding top
get_tmp_value = top

unfoldable pub set_try_regs : Value → ℕ → Method (Unit {0})
set_try_regs arg2 io_r = modify λ r. record r {
  try_flag = true;
  try_catch_flag = false;
  try_abp = r.abp2;
  try_ac = r.ac2;
  try_arg2 = arg2;
  try_io_r = io_r;
  try_catch_error = 0;
  try_catch_r = 0;
}

unfoldable pub set_try_regs_for_force : Method (Unit {0})
set_try_regs_for_force = modify λ r. record r { try_abp = r.abp2; try_ac = r.ac2 }

-- `if(!m) return false;`
abbrev pub and_then : Method Bool → Method Bool → Method Bool
and_then m k = m >>= λ b. if b then k else pure false

unfoldable pub push_try_regs : Method Bool
unfolding sign_extend
push_try_regs c =
    and_then (push_local_var (int (to_nat c.try_flag + to_nat c.try_catch_flag * 2)))
      (and_then (push_local_var (int (bit_or (c.try_abp * 2 ^ 32) c.try_ac))) (
        and_then (push_local_var c.try_arg2) (
          and_then (push_local_var (ref c.try_io_r)) (
            and_then (push_local_var (int (sign_extend c.try_catch_error)))
              (push_local_var (ref c.try_catch_r))))))
      c

-- The six slots, where they have the tags of saved registers.
unfoldable pub restore_try :
    Value → Value → Value → Value → Value → Value → Registers → Option Registers
restore_try (int flags) (int base) arg2 (ref io_r) (int err) (ref catch_r) r = some (record r {
  sec = u32 (r.sec + 2 ^ 32 - 6);
  abp2 = u32 (r.abp2 + 2 ^ 32 - 6);
  try_catch_r = catch_r;
  try_catch_error = u32 err;
  try_io_r = io_r;
  try_arg2 = arg2;
  try_abp = u32 (base / 2 ^ 32);
  try_ac = base % 2 ^ 32;
  try_flag = not (flags % 2 == 0);
  try_catch_flag = not (flags / 2 % 2 == 0);
})
restore_try _ _ _ _ _ _ r = none

-- The guard is `abp2 >= 4`, as in the source. All six slots are read before their tags are tested:
-- that differs from the source only where `abp2` lies beyond the stack.
unfoldable pub pop_try_regs : Method Bool
pop_try_regs c =
    let base = u32 (c.abp2 + 2 ^ 32 - 6) in
    if leb 4 c.abp2
    then (do
      v0 ← read (u32 (base + 0))
      v1 ← read (u32 (base + 1))
      v3 ← read (u32 (base + 3))
      v4 ← read (u32 (base + 4))
      v5 ← read (u32 (base + 5))
      v2 ← read (u32 (base + 2))
      λ c'. elim (restore_try v0 v1 v2 v3 v4 v5 c'.regs) [
        | none ↦ some (false, c')
        | some r ↦ some (true, record c' { regs = r })
      ])
        c
    else some (false, c)
