-- ===== src/Thread/Calls.antt =====
-- vm/vm.cpp: `ThreadContext::enter_to_fun` and `leave_from_fun`. A frame is four stack slots behind
-- the arguments, in which the caller's registers stand.
use letin.Common.{
  ℕ, ◌+◌, ◌-◌, ◌*◌, ◌/◌, ◌%◌, ◌^◌, Bool, true, false, Option, none, some, length, ltb, ◌==◌, bit_or,
  if◌then◌else◌,
}
use letin.Thread.State.{
  Value, int, pair, Registers, Method, u32, u64, read, write, modify, pure, ◌>>=◌, ◌>>◌,
}

-- `(fp << 8) | (after_leaving_flag_index & 1) | ((cached_fun_result_flag & 1) << 1)` on 64 bits
unfoldable pub pack_fp : Registers → ℕ
pack_fp r =
    bit_or (bit_or (u64 (r.fp * 2 ^ 8)) (r.after_leaving_flag_index % 2))
      (r.cached_fun_result_flag % 2 * 2)

-- `i >> 8` on `std::int64_t`
unfoldable pub unpack_fp : ℕ → ℕ
unpack_fp i = if ltb i (2 ^ 63) then i / 2 ^ 8 else i / 2 ^ 8 + 2 ^ 64 - 2 ^ 56

unfoldable pub enter_to_fun : ℕ → Method Bool
unfolding pack_fp
enter_to_fun i c =
    if ltb (u32 (c.abp2 + c.ac2 + 4)) (length c.stack)
    then (do
      write (u32 (c.abp2 + c.ac2 + 0)) (pair c.abp c.ac)
      write (u32 (c.abp2 + c.ac2 + 1)) (pair c.lvc (u32 (c.ip + 2 ^ 32 - 1)))
      write (u32 (c.abp2 + c.ac2 + 2)) (int (pack_fp c.regs))
      write (u32 (c.abp2 + c.ac2 + 3)) (pair c.evbp c.evc)
      modify λ r. record r {
        abp = r.abp2;
        ac = r.ac2;
        abp2 = u32 (r.abp2 + r.ac2 + 4);
        lvc = 0;
        ac2 = 0;
        sec = u32 (r.abp2 + r.ac2 + 4);
        evbp = u32 (r.evbp + r.evc);
        evc = 0;
        esec = u32 (r.evbp + r.evc);
        fp = i;
        ip = 0;
        after_leaving_flag0 = false;
        after_leaving_flag1 = false;
        after_leaving_flag_index = 0;
      }
      pure true)
        c
    else some (false, c)

-- The four slots at `fbp`, where they have the tags of a frame.
unfoldable pub restore_frame : Value → Value → Value → Value → Registers → Option Registers
unfolding unpack_fp
restore_frame (pair abp ac) (pair lvc ip) (int i) (pair evbp evc) r =
    let index = i % 2 in
    some (record r {
      abp2 = r.abp;
      ac2 = r.ac;
      abp = abp;
      ac = ac;
      lvc = lvc;
      sec = r.abp;
      ip = ip;
      fp = unpack_fp i;
      after_leaving_flag_index = index;
      after_leaving_flag0 = if index == 0 then true else r.after_leaving_flag0;
      after_leaving_flag1 = if index == 0 then r.after_leaving_flag1 else true;
      cached_fun_result_flag = i / 2 % 2;
      evbp = evbp;
      evc = evc;
      esec = u32 (evbp + evc);
    })
restore_frame _ _ _ _ r = none

unfoldable pub leave_from_fun : Method Bool
leave_from_fun c =
    let fbp = u32 (c.abp + c.ac) in
    if ltb (u32 (fbp + 4)) (length c.stack)
    then (do
      v0 ← read (u32 (fbp + 0))
      v1 ← read (u32 (fbp + 1))
      v2 ← read (u32 (fbp + 2))
      v3 ← read (u32 (fbp + 3))
      λ c'. elim (restore_frame v0 v1 v2 v3 c'.regs) [
        | none ↦ some (false, c')
        | some r ↦ some (true, record c' { regs = r })
      ])
        c
    else some (false, c)
