-- ===== src/Thread/TryPops.antt =====
-- vm/vm.hpp: `pop_try_regs` takes back what `push_try_regs` put on the stack.
use letin.Common.{
  ℕ, ◌+◌, ◌-◌, ◌*◌, ◌/◌, ◌%◌, ◌^◌, ◌≤◌, ◌<◌, ◌≡◌, refl, ◌∙◌, Bool, true, false, none, some, length,
  get_elem?, leb, bit_or, not, ◌==◌, arith, if◌then◌else◌, Bool-cases, leb→le, get_elem?-out, inl,
  inr,
}
use letin.Common.Bits.{bit_or_fields, bit_or_comm}
use letin.Thread.Balance.{bind_lem, read_lem}
use letin.Thread.Saved.{push_try_regs, pop_try_regs, restore_try, sign_extend, to_nat}
use letin.Thread.State.{int, ref, Registers, Context, Method, u32, read, ◌>>=◌}
use letin.Thread.TryRegs.{Saves, flags_of, base_of, push_Saves}

-- The words of the try registers are those of their C++ types.
pub record IsTryWords (r : Registers) : Type 0 where
  pub abp_fits : r.try_abp < 2 ^ 32
  pub ac_fits : r.try_ac < 2 ^ 32
  pub error_fits : r.try_catch_error < 2 ^ 32

u32-sign_extend : (x : ℕ) → x < 2 ^ 32 → u32 (sign_extend x) ≡ x
unfolding sign_extend
u32-sign_extend x h = ground arith

flags_lem :
    (a b : Bool)
    → (not ((to_nat a + to_nat b * 2) % 2 == 0) ≡ a)
      × (not ((to_nat a + to_nat b * 2) / 2 % 2 == 0) ≡ b)
flags_lem true true = (refl, refl)
flags_lem true false = (refl, refl)
flags_lem false true = (refl, refl)
flags_lem false false = (refl, refl)

base_lem :
    (a b : ℕ)
    → a < 2 ^ 32
    → b < 2 ^ 32
    → (u32 (bit_or (a * 2 ^ 32) b / 2 ^ 32) ≡ a) × (bit_or (a * 2 ^ 32) b % 2 ^ 32 ≡ b)
base_lem a b ha hb =
    let e = bit_or_comm (a * 2 ^ 32) b in
    let f = bit_or_fields 32 b a hb in (omega (arith, e, f), omega (arith, e, f))

-- The registers `r` with the try registers of `saved`.
abbrev pub with_try : Registers → Registers → Registers
with_try saved r = record r {
  sec = u32 (r.sec + 2 ^ 32 - 6);
  abp2 = u32 (r.abp2 + 2 ^ 32 - 6);
  try_flag = saved.try_flag;
  try_catch_flag = saved.try_catch_flag;
  try_abp = saved.try_abp;
  try_ac = saved.try_ac;
  try_arg2 = saved.try_arg2;
  try_io_r = saved.try_io_r;
  try_catch_error = saved.try_catch_error;
  try_catch_r = saved.try_catch_r;
}

restore_lem :
    (saved r : Registers)
    → IsTryWords saved
    → restore_try
        (flags_of saved)
        (base_of saved)
        saved.try_arg2
        (ref saved.try_io_r)
        (int (sign_extend saved.try_catch_error))
        (ref saved.try_catch_r)
        r
      ≡ some (with_try saved r)
unfolding restore_try
restore_lem saved r w =
    let (f1, f2) = flags_lem saved.try_flag saved.try_catch_flag in
    let (b1, b2) = base_lem saved.try_abp saved.try_ac w.abp_fits w.ac_fits in
    rw (f1, f2, b1, b2, u32-sign_extend saved.try_catch_error w.error_fits) refl

-- The two contexts agree on the stack below `abp2`, and on `abp2`.
pub record IsUntouched (d e : Context) : Type 0 where
  pub top_stays : e.abp2 ≡ d.abp2
  pub slots_stay : (i : ℕ) → i < d.abp2 → get_elem? e.stack i ≡ get_elem? d.stack i

Saves-IsUntouched :
    (k : ℕ) (r : Registers) (d e : Context)
    → d.abp2 ≡ k + 6
    → Saves k r d
    → IsUntouched d e
    → Saves k r e
Saves-IsUntouched k r d e h s u = record {
  slot0 = u.slots_stay k (omega arith) ∙ s.slot0;
  slot1 = u.slots_stay (k + 1) (omega arith) ∙ s.slot1;
  slot2 = u.slots_stay (k + 2) (omega arith) ∙ s.slot2;
  slot3 = u.slots_stay (k + 3) (omega arith) ∙ s.slot3;
  slot4 = u.slots_stay (k + 4) (omega arith) ∙ s.slot4;
  slot5 = u.slots_stay (k + 5) (omega arith) ∙ s.slot5;
}

pop-Saves :
    (k : ℕ) (r : Registers) (e : Context)
    → k + 6 < 2 ^ 32
    → e.abp2 ≡ k + 6
    → IsTryWords r
    → Saves k r e
    → pop_try_regs e ≡ some (true, record e { regs = with_try r e.regs })
unfolding pop_try_regs
pop-Saves k r e small top w s =
    let b : u32 (e.abp2 + 2 ^ 32 - 6) ≡ k = omega arith in
    let g : leb 4 e.abp2 ≡ true = ground arith in
    let e0 : u32 (k + 0) ≡ k = omega arith in
    let e1 : u32 (k + 1) ≡ k + 1 = omega arith in
    let e2 : u32 (k + 2) ≡ k + 2 = omega arith in
    let e3 : u32 (k + 3) ≡ k + 3 = omega arith in
    let e4 : u32 (k + 4) ≡ k + 4 = omega arith in
    let e5 : u32 (k + 5) ≡ k + 5 = omega arith in
    rw (b, g, e0, e1, e2, e3, e4, e5)
      (bind_lem (read k) _ e e _ (read_lem k _ e s.slot0)
        ∙ bind_lem (read (k + 1)) _ e e _ (read_lem (k + 1) _ e s.slot1)
        ∙ bind_lem (read (k + 3)) _ e e _ (read_lem (k + 3) _ e s.slot3)
        ∙ bind_lem (read (k + 4)) _ e e _ (read_lem (k + 4) _ e s.slot4)
        ∙ bind_lem (read (k + 5)) _ e e _ (read_lem (k + 5) _ e s.slot5)
        ∙ bind_lem (read (k + 2)) _ e e _ (read_lem (k + 2) _ e s.slot2)
        ∙ (rw (restore_lem r e.regs w, b) refl))

-- On a stack of fewer than 2^31 slots with six free slots above `abp2`, and try registers that are
-- 32-bit words, `push_try_regs` succeeds; and after any later code that leaves `abp2` and the slots
-- below it as they were, `pop_try_regs` succeeds, gives each of the eight try registers the value
-- it had at the push, whatever that code did to them, lowers `abp2` and `sec` by six and changes
-- nothing else.
pub try_regs_balanced :
    (c : Context) (later : Context → Context)
    → length c.stack < 2 ^ 31
    → c.abp2 + 6 ≤ length c.stack
    → IsTryWords c.regs
    → ((d : Context) → IsUntouched d (later d))
    → (d : Context) × (push_try_regs c ≡ some (true, d))
      × (pop_try_regs (later d)
          ≡ some (true, record (later d) { regs = with_try c.regs (later d).regs }))
try_regs_balanced c later small room w u =
    let (d, pushed, s, top, size, below) = push_Saves c small room in
    (
      d,
      pushed,
      pop-Saves c.abp2 c.regs (later d) (omega arith) (omega (arith, (u d).top_stays)) w
          (Saves-IsUntouched c.abp2 c.regs d (later d) top s (u d)),
    )

read_out : (i : ℕ) (c : Context) → length c.stack ≤ i → read i c ≡ none
unfolding read
read_out i c h = rw (get_elem?-out c.stack i h, read) refl

bind_none :
    {A B : Type 0} (m : Method A) (f : A → Method B) (c : Context) → m c ≡ none → (m >>= f) c ≡ none
bind_none m f c h = rw (h, ◌>>=◌) refl

-- On a stack of fewer than 2^31 slots where `abp2` is below six, `pop_try_regs` never succeeds: with
-- `abp2` below four it returns false and changes nothing, and with four or five it goes past its
-- guard and reads the stack out of range.
pub pop_try_regs_short :
    (c : Context)
    → length c.stack < 2 ^ 31
    → c.abp2 < 6
    → pop_try_regs c ≡ (if leb 4 c.abp2 then none else some (false, c))
unfolding pop_try_regs
pop_try_regs_short c small short =
    let i = u32 (u32 (c.abp2 + 2 ^ 32 - 6) + 0) in
    elim (Bool-cases (leb 4 c.abp2)) [
      | inl h ↦
          let l = leb→le 4 c.abp2 h in rw h (bind_none (read i) _ c (read_out i c (omega arith)))
      | inr h ↦ rw h refl
    ]
