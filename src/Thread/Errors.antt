-- ===== src/Thread/Errors.antt =====
-- vm/vm.cpp: `ThreadContext::set_error_without_try` and `set_error`. That locked lazy values are unlocked
-- and that the stack trace grows changes no register and no stack, and is left out.
use letin.Common.{
  ℕ, ◌+◌, ◌-◌, ◌^◌, ◌≤◌, ◌<◌, ◌≡◌, refl, ◌∙◌, true, false, Option, none, some, length, get_elem?,
  ltb, not, ◌||◌, if◌then◌else◌, arith,
}
use letin.Thread.Balance.{Framed, returned, leave_frame_lem}
use letin.Thread.Calls.{enter_to_fun, leave_from_fun}
use letin.Thread.Outer.{ReturnValue, Machine}
use letin.Thread.Packing.{unpack-pack}
use letin.Thread.Returns.{IsCaller, enter-Entered}
use letin.Thread.State.{Context, u32}

abbrev pub error_value : ℕ → ℕ → ReturnValue
error_value code r = record { i = 0; f = 0; r = r; error_code = code }

unfoldable pub set_error_without_try : ℕ → ℕ → Machine → Machine
set_error_without_try code r m = record {
  context = record m.context {
    regs = record m.context.regs {
      abp = m.outer.nfbp;
      abp2 = m.outer.nfbp;
      sec = m.outer.nfbp;
      esec = m.outer.enfbp;
      evbp = m.outer.enfbp;
      ac = 0;
      lvc = 0;
      ac2 = 0;
      evc = 0;
      fp = 2 ^ 64 - 1;
      ip = 0;
      after_leaving_flag0 = false;
      after_leaving_flag1 = false;
    };
  };
  outer = record m.outer { rv = error_value code r };
}

-- The machine in the frame of the try.
unfoldable pub at_try : ℕ → ℕ → Machine → Machine
at_try code r m = record {
  context = record m.context {
    regs = record m.context.regs {
      abp = m.context.try_abp;
      ac = m.context.try_ac;
      after_leaving_flag_index = 0;
    };
  };
  outer = record m.outer { rv = error_value code r };
}

unfoldable pub set_error : ℕ → ℕ → Machine → Option Machine
unfolding set_error_without_try at_try
set_error code r m =
    if not m.context.try_flag || ltb m.context.try_abp m.outer.nfbp
    then some (set_error_without_try code r m)
    else elim (leave_from_fun (at_try code r m).context) [
      | none ↦ none
      | some (left, c) ↦ some (
          if left
          then record (at_try code r m) { context = c }
          else set_error_without_try code r (record (at_try code r m) { context = c }))
    ]

set_error-left :
    (code r : ℕ) (m : Machine) (c : Context)
    → (not m.context.try_flag || ltb m.context.try_abp m.outer.nfbp) ≡ false
    → leave_from_fun (at_try code r m).context ≡ some (true, c)
    → set_error code r m ≡ some (record (at_try code r m) { context = c })
unfolding set_error
set_error-left code r m c guarded e = rw (guarded, e) refl

try_open :
    (m : Machine)
    → m.context.try_flag ≡ true
    → m.outer.nfbp ≤ m.context.try_abp
    → (not m.context.try_flag || ltb m.context.try_abp m.outer.nfbp) ≡ false
try_open m flag le = rw flag (not_less m.context.try_abp m.outer.nfbp le)
  where
    not_less : (a b : ℕ) → b ≤ a → ltb a b ≡ false
    not_less a b h = ground arith

-- On stacks of fewer than 2^31 slots, a thread `c` enters a function with an index below 2^55, whose
-- frame the try registers of a later machine name, whatever code ran in between and at whatever depth;
-- the slots of the entered frame and below are as they were, the stack has the same length, and the
-- frame lies above nfbp. Then set_error puts the thread back in `c`: its frame's registers are those
-- of `c`, the instruction pointer stands at the call again, the slots below the call's arguments are
-- as they were, and the return value has the error.
pub error_caught :
    (i code r : ℕ) (c e : Context) (m : Machine)
    → IsCaller c
    → i < 2 ^ 55
    → enter_to_fun i c ≡ some (true, e)
    → m.context.try_flag ≡ true
    → m.context.try_abp ≡ c.abp2
    → m.context.try_ac ≡ c.ac2
    → m.outer.nfbp ≤ c.abp2
    → length m.context.stack ≡ length c.stack
    → ((p : ℕ) → p < c.abp2 + c.ac2 + 4 → get_elem? m.context.stack p ≡ get_elem? e.stack p)
    → (after : Machine) × (set_error code r m ≡ some after)
      × (after.outer.rv ≡ error_value code r)
      × (after.context.abp ≡ c.abp)
      × (after.context.ac ≡ c.ac)
      × (after.context.lvc ≡ c.lvc)
      × (after.context.abp2 ≡ c.abp2)
      × (after.context.ac2 ≡ c.ac2)
      × (after.context.sec ≡ c.abp2)
      × (after.context.evbp ≡ c.evbp)
      × (after.context.evc ≡ c.evc)
      × (after.context.fp ≡ c.fp)
      × (after.context.ip ≡ u32 (c.ip + 2 ^ 32 - 1))
      × ((p : ℕ) → p < c.abp2 → get_elem? after.context.stack p ≡ get_elem? c.stack p)
unfolding at_try
error_caught i code r c e m caller lt enter flag tabp tac above size kept =
    let en = enter-Entered i c e caller lt enter in
    let h = en.holds in
    let ea = en.abp in
    let ec = en.ac in
    let k : m.context.try_abp + m.context.try_ac ≡ e.abp + e.ac = omega arith in
    let framed : Framed c.regs (at_try code r m).context = record {
      room = omega (arith, h.room, en.size);
      slot0 = rw k (kept (e.abp + e.ac) (omega arith) ∙ h.slot0);
      slot1 = rw k (kept (e.abp + e.ac + 1) (omega arith) ∙ h.slot1);
      slot2 = rw k (kept (e.abp + e.ac + 2) (omega arith) ∙ h.slot2);
      slot3 = rw k (kept (e.abp + e.ac + 3) (omega arith) ∙ h.slot3);
    } in
    let back =
      leave_frame_lem c.regs (at_try code r m).context (omega (arith, size, caller.small)) framed in
    let flags = unpack-pack c.regs caller.fun_index in
    (
      record (at_try code r m) {
        context = record (at_try code r m).context {
          regs = returned c.regs (at_try code r m).context.regs;
        };
      },
      set_error-left code r m _ (try_open m flag (omega arith)) back,
      refl,
      refl,
      refl,
      refl,
      tabp,
      tac,
      tabp,
      refl,
      refl,
      flags.0,
      refl,
      λ p below. kept p (omega arith) ∙ en.below p (omega arith),
    )
