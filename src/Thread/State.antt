-- ===== src/Thread/State.antt =====
-- vm/vm.hpp: `Registers` and the stacks of `ThreadContext`; include/letin/vm.hpp: `Value`. A word is
-- its bit pattern, a reference is a number, and `none` is an access outside a stack.
use letin.Common.{
  ℕ, ◌+◌, ◌-◌, ◌%◌, ◌^◌, Bool, false, List, Option, none, some, length, get_elem?, set, ltb,
  if◌then◌else◌,
}

abbrev pub u32 : ℕ → ℕ
u32 x = x % 2 ^ 32

abbrev pub u64 : ℕ → ℕ
u64 x = x % 2 ^ 64

-- The constructors are the VALUE_TYPE_ tags. `lazy_value_ref` has the VALUE_TYPE_LAZILY_CANCELED bit.
pub data Value : Type 0 where
  int : ℕ → Value
  float : ℕ → Value
  ref : ℕ → Value
  pair : ℕ → ℕ → Value
  canceled_ref : ℕ → Value
  lazy_value_ref : ℕ → Bool → Value
  locked_lazy_value_ref : ℕ → Value
  error : Value

-- Left out: rv, arg_instr_flag, nfbp, enfbp and the force_tmp registers, which are in OuterRegisters, and
-- gc_tmp_ptr, tmp_r, cutc, cancelation_undo_types and tmp_expr_values.
pub record Registers : Type 0 where
  pub abp : ℕ
  pub ac : ℕ
  pub lvc : ℕ
  pub abp2 : ℕ
  pub ac2 : ℕ
  pub sec : ℕ
  pub evbp : ℕ
  pub evc : ℕ
  pub esec : ℕ
  pub fp : ℕ
  pub ip : ℕ
  pub ai : ℕ
  pub after_leaving_flag0 : Bool
  pub after_leaving_flag1 : Bool
  pub after_leaving_flag_index : ℕ
  pub tmp_ac2 : ℕ
  pub cached_fun_result_flag : ℕ
  pub try_flag : Bool
  pub try_catch_flag : Bool
  pub try_abp : ℕ
  pub try_ac : ℕ
  pub try_arg2 : Value
  pub try_io_r : ℕ
  pub try_catch_error : ℕ
  pub try_catch_r : ℕ

pub record Context : Type 0 where
  pub regs : Registers
  pub open regs use *
  pub stack : List Value
  pub expr_stack : List Value

-- A method: its result and the context after it.
abbrev pub Method : Type 0 → Type 0
Method A = Context → Option (A × Context)

infixl 5 ◌>>=◌ ◌>>◌
abbrev pub ◌>>=◌ : {A B : Type 0} → Method A → (A → Method B) → Method B
◌>>=◌ m f c = elim (m c) [ none ↦ none | some (a, c') ↦ f a c' ]

abbrev pub ◌>>◌ : {A B : Type 0} → Method A → Method B → Method B
m >> k = m >>= λ _. k

abbrev pub pure : {A : Type 0} → A → Method A
pure a c = some (a, c)

abbrev pub modify : (Registers → Registers) → Method (Unit {0})
modify f c = some (tt, record c { regs = f c.regs })

-- `_M_stack[i]`
unfoldable pub read : ℕ → Method Value
read i c = elim (get_elem? c.stack i) [ none ↦ none | some v ↦ some (v, c) ]

-- `_M_stack[i] = v`, also through `safely_assign_for_gc`
unfoldable pub write : ℕ → Value → Method (Unit {0})
write i v c =
    if ltb i (length c.stack) then some (tt, record c { stack = set c.stack i v }) else none

-- The base of the local variables.
abbrev pub lvbp : Registers → ℕ
lvbp r = u32 (r.abp + r.ac + 4)

-- The registers of `ThreadContext::ThreadContext` that are modelled.
abbrev pub initial_registers : Registers
initial_registers = record {
  abp = 0;
  ac = 0;
  lvc = 0;
  abp2 = 0;
  ac2 = 0;
  sec = 0;
  evbp = 0;
  evc = 0;
  esec = 0;
  fp = 2 ^ 64 - 1;
  ip = 0;
  ai = 0;
  after_leaving_flag0 = false;
  after_leaving_flag1 = false;
  after_leaving_flag_index = 0;
  tmp_ac2 = 0;
  cached_fun_result_flag = 0;
  try_flag = false;
  try_catch_flag = false;
  try_abp = 0;
  try_ac = 0;
  try_arg2 = error;
  try_io_r = 0;
  try_catch_error = 0;
  try_catch_r = 0;
}
