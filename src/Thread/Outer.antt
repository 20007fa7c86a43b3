-- ===== src/Thread/Outer.antt =====
-- vm/vm.cpp: `ThreadContext::save_regs_and_set_regs` and `restore_regs`, around a run of the machine that
-- native code starts. The registers that only they, errors and forcing use stand beside the context.
use letin.Common.{
  ℕ, zero, suc, ◌+◌, ◌-◌, ◌^◌, Bool, true, false, List, [], ◌∷◌, Option, none, some, length, ltb,
  ◌==◌, ◌&&◌, if◌then◌else◌,
}
use letin.Thread.State.{
  Value, ref, error, Registers, Context, Method, u32, read, write, pure, ◌>>=◌, ◌>>◌,
}

pub record ReturnValue : Type 0 where
  pub i : ℕ
  pub f : ℕ
  pub r : ℕ
  pub error_code : ℕ

pub record OuterRegisters : Type 0 where
  pub nfbp : ℕ
  pub enfbp : ℕ
  pub arg_instr_flag : Bool
  pub rv : ReturnValue
  pub force_tmp_rv : ReturnValue
  pub force_tmp_r : ℕ
  pub force_tmp_r2 : ℕ
  pub force_tmp_rv2 : ReturnValue

pub record Machine : Type 0 where
  pub context : Context
  pub outer : OuterRegisters

-- The fields but sec, evbp and evc have the names of the registers.
pub record SavedRegisters : Type 0 where
  pub saved_regs : Registers
  pub saved_outer : OuterRegisters
  pub saved_sec : ℕ

-- Slots one behind the other, from `a` on.
unfoldable pub write_slots : ℕ → List Value → Method (Unit {0})
write_slots a [] = pure tt
write_slots a (v ∷ vs) = write (u32 a) v >> write_slots (a + 1) vs

unfoldable pub read_slots : ℕ → ℕ → Method (List Value)
read_slots a zero = pure []
read_slots a (suc n) = do v ← read (u32 a); vs ← read_slots (a + 1) n; pure (v ∷ vs)

-- What is written to the stack.
abbrev pub saved_slots : Machine → List Value
saved_slots m =
    m.context.try_arg2
    ∷ ref m.context.try_io_r
    ∷ ref m.outer.force_tmp_rv.r
    ∷ ref m.outer.force_tmp_r
    ∷ ref m.outer.force_tmp_r2
    ∷ ref m.outer.force_tmp_rv2.r
    ∷ ref m.context.try_catch_r
    ∷ []

-- The registers of a run that starts above the frame base `base`.
abbrev pub inner_regs : ℕ → Registers → Registers
inner_regs base r = record r {
  abp = base;
  abp2 = base;
  sec = base;
  ac = 0;
  lvc = 0;
  ac2 = 0;
  fp = 2 ^ 64 - 1;
  ip = 0;
  after_leaving_flag0 = false;
  after_leaving_flag1 = false;
  after_leaving_flag_index = 0;
  cached_fun_result_flag = 0;
  try_flag = false;
  try_catch_flag = false;
  try_arg2 = error;
  try_io_r = 0;
  try_abp = base;
  try_ac = 0;
}

unfoldable pub save_regs_and_set_regs : Machine → Option ((Bool × SavedRegisters) × Machine)
save_regs_and_set_regs m =
    let sec = u32 (m.context.abp2 + m.context.ac2) in
    let saved : SavedRegisters = record {
      saved_regs = m.context.regs;
      saved_outer = m.outer;
      saved_sec = sec;
    } in
    if ltb (length m.context.stack) (u32 (sec + 7))
    then some ((false, saved), m)
    else elim (write_slots sec (saved_slots m) m.context) [
      | none ↦ none
      | some (u, c) ↦ some (
        (true, saved),
        record {
          context = record c { regs = inner_regs (u32 (sec + 7)) c.regs };
          outer = record m.outer { nfbp = u32 (sec + 7); enfbp = c.esec; arg_instr_flag = false };
        },
      )
    ]

-- The try registers, and the references of a forced value, from the slots; `none` where their types or
-- references are not those that were saved.
unfoldable pub restore_slots : SavedRegisters → List Value → Machine → Option Machine
restore_slots s (a ∷ ref io ∷ ref rv ∷ ref r1 ∷ ref r2 ∷ ref rv2 ∷ ref catch ∷ []) m =
    if (rv2 == s.saved_outer.force_tmp_rv2.r) && (rv == s.saved_outer.force_tmp_rv.r)
    then some (record m {
      context = record m.context {
        regs = record m.context.regs {
          try_catch_r = catch;
          try_io_r = io;
          try_arg2 = a;
          try_catch_error = s.saved_regs.try_catch_error;
          try_ac = s.saved_regs.try_ac;
          try_abp = s.saved_regs.try_abp;
          try_catch_flag = s.saved_regs.try_catch_flag;
          try_flag = s.saved_regs.try_flag;
        };
      };
      outer = record m.outer { force_tmp_r2 = r2; force_tmp_r = r1 };
    })
    else none
restore_slots s vs m = none

-- The registers where the slots were not as they were saved.
abbrev pub without_try : SavedRegisters → Machine → Machine
without_try s m = record m {
  context = record m.context {
    regs = record m.context.regs {
      try_catch_r = 0;
      try_flag = false;
      try_catch_flag = false;
      try_arg2 = error;
      try_io_r = 0;
      try_abp = s.saved_outer.nfbp;
      try_catch_error = 0;
      try_ac = 0;
    };
  };
  outer = record m.outer { force_tmp_r2 = 0; force_tmp_r = 0 };
}

-- The registers that are restored in any case.
abbrev pub restore_others : SavedRegisters → Machine → Machine
restore_others s m =
    let r = s.saved_regs in
    record {
      context = record m.context {
        regs = record m.context.regs {
          cached_fun_result_flag = r.cached_fun_result_flag;
          after_leaving_flag_index = r.after_leaving_flag_index;
          after_leaving_flag1 = r.after_leaving_flag1;
          after_leaving_flag0 = r.after_leaving_flag0;
          ip = r.ip;
          fp = r.fp;
          esec = u32 (r.evbp + r.evc);
          evc = r.evc;
          evbp = r.evbp;
          sec = u32 (r.abp2 + r.ac2);
          ac2 = r.ac2;
          abp2 = r.abp2;
          lvc = r.lvc;
          ac = r.ac;
          abp = r.abp;
        };
      };
      outer = record m.outer {
        arg_instr_flag = s.saved_outer.arg_instr_flag;
        enfbp = s.saved_outer.enfbp;
        nfbp = s.saved_outer.nfbp;
        force_tmp_rv = s.saved_outer.force_tmp_rv;
        force_tmp_rv2 = s.saved_outer.force_tmp_rv2;
      };
    }

abbrev pub restored_with : SavedRegisters → Option Machine → Machine → Bool × Machine
restored_with s none m = (false, restore_others s (without_try s m))
restored_with s (some n) m = (true, restore_others s n)

unfoldable pub restore_regs : SavedRegisters → Machine → Option (Bool × Machine)
unfolding restore_slots
restore_regs s m = elim (read_slots s.saved_sec 7 m.context) [
  | none ↦ none
  | some (vs, c) ↦ some (restored_with s (restore_slots s vs m) m)
]
