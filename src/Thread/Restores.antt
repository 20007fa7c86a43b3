-- ===== src/Thread/Restores.antt =====
-- vm/vm.cpp: a run of the machine between `save_regs_and_set_regs` and `restore_regs`.
use letin.Common.{
  ℕ, zero, suc, ◌+◌, ◌^◌, ◌≤◌, ◌<◌, ◌≡◌, ◌≢◌, refl, sym, ap, ◌∙◌, true, false, List, [], ◌∷◌,
  Option, none, some, length, length-set, get_elem?, get_elem?-set_self, get_elem?-set_ne, set, ltb,
  lt→ltb, ==_iff, arith,
}
use letin.Thread.State.{Value, Context, u32, read, write, pure, ◌>>=◌}
use letin.Thread.Outer.{
  Machine, SavedRegisters, write_slots, read_slots, saved_slots, inner_regs, save_regs_and_set_regs,
  restore_slots, restored_with, restore_regs,
}

u32_small : (a : ℕ) → a < 2 ^ 32 → u32 a ≡ a
u32_small a lt = omega arith

write_in :
    (a : ℕ) (v : Value) (c : Context)
    → a < length c.stack
    → length c.stack < 2 ^ 31
    → write (u32 a) v c ≡ some (tt, record c { stack = set c.stack a v })
unfolding write
write_in a v c lt small = rw (u32_small a (omega arith), lt→ltb a (length c.stack) lt) refl

-- What slots hold once they are written.
pub record Written (a : ℕ) (vs : List Value) (c d : Context) : Type 0 where
  pub same_regs : d.regs ≡ c.regs
  pub same_length : length d.stack ≡ length c.stack
  pub slots : (j : ℕ) → j < length vs → get_elem? d.stack (a + j) ≡ get_elem? vs j
  pub below : (p : ℕ) → p < a → get_elem? d.stack p ≡ get_elem? c.stack p

apart_below : (a p : ℕ) → p < a → a ≢ p
apart_below a p lt = omega arith

slot_cases :
    (a j : ℕ) (v : Value) (vs : List Value) (d : Context)
    → get_elem? d.stack a ≡ some v
    → ((i : ℕ) → i < length vs → get_elem? d.stack (a + 1 + i) ≡ get_elem? vs i)
    → j < length (v ∷ vs)
    → get_elem? d.stack (a + j) ≡ get_elem? (v ∷ vs) j
slot_cases a zero v vs d h later lt = ap (get_elem? d.stack) (at_zero a) ∙ h
  where
    at_zero : (a : ℕ) → a + 0 ≡ a
    at_zero a = omega arith
slot_cases a (suc j) v vs d h later lt =
    ap (get_elem? d.stack) (move_one a j) ∙ later j (omega arith)
  where
    move_one : (a j : ℕ) → a + suc j ≡ a + 1 + j
    move_one a j = omega arith

write_slots-step :
    (a : ℕ) (v : Value) (vs : List Value) (c d : Context)
    → write (u32 a) v c ≡ some (tt, d)
    → write_slots a (v ∷ vs) c ≡ write_slots (a + 1) vs d
unfolding write_slots
write_slots-step a v vs c d e =
    ap
      (λ (o : Option (Unit {0} × Context)). elim o as (λ x. Option (Unit {0} × Context)) [
        | none ↦ none
        | some (u, c') ↦ write_slots (a + 1) vs c'
      ])
      e

pub write_slots_lem :
    (vs : List Value) (a : ℕ) (c : Context)
    → a + length vs ≤ length c.stack
    → length c.stack < 2 ^ 31
    → (d : Context) × (write_slots a vs c ≡ some (tt, d)) × Written a vs c d
unfolding write_slots
write_slots_lem [] a c room small = (
  c,
  refl,
  record {
    same_regs = refl;
    same_length = refl;
    slots = λ j lt. elim lt [ ];
    below = λ p lt. refl;
  },
)
write_slots_lem (v ∷ vs) a c room small =
    let c1 : Context = record c { stack = set c.stack a v } in
    let len : length c1.stack ≡ length c.stack = length-set c.stack a v in
    let r = write_slots_lem vs (a + 1) c1 (omega arith) (omega arith) in
    let w = r.2 in
    (
      r.0,
      write_slots-step a v vs c c1 (write_in a v c (omega arith) small) ∙ r.1,
      record {
        same_regs = w.same_regs;
        same_length = w.same_length ∙ len;
        slots = λ j lt.
            slot_cases a j v vs (r.0)
              (w.below a (omega arith) ∙ get_elem?-set_self c.stack a v (omega arith)) w.slots lt;
        below = λ p lt. w.below p (omega arith) ∙ get_elem?-set_ne c.stack v (apart_below a p lt);
      },
    )

read_slots-step :
    (a n : ℕ) (v : Value) (c : Context)
    → get_elem? c.stack (u32 a) ≡ some v
    → read_slots a (suc n) c
      ≡ elim (read_slots (a + 1) n c) as (λ x. Option (List Value × Context)) [
        | none ↦ none
        | some (vs, d) ↦ some (v ∷ vs, d)
      ]
unfolding read_slots read
read_slots-step a n v c e =
    ap
      (λ (o : Option Value).
        ◌>>=◌
          (λ (c' : Context). elim o as (λ x. Option (Value × Context)) [
            | none ↦ none
            | some w ↦ some (w, c')
          ])
          (λ (w : Value). read_slots (a + 1) n >>= λ (vs : List Value). pure (w ∷ vs)) c)
      e

pub read_slots_lem :
    (vs : List Value) (a : ℕ) (c : Context)
    → a + length vs < 2 ^ 32
    → ((j : ℕ) → j < length vs → get_elem? c.stack (a + j) ≡ get_elem? vs j)
    → read_slots a (length vs) c ≡ some (vs, c)
unfolding read_slots
read_slots_lem [] a c small h = refl
read_slots_lem (v ∷ vs) a c small h =
    let here : get_elem? c.stack (u32 a) ≡ some v =
      ap (get_elem? c.stack) (at_first a (omega arith)) ∙ h 0 (omega arith) in
    let rest =
      read_slots_lem vs (a + 1) c (omega arith)
        (λ j lt. ap (get_elem? c.stack) (move_one a j) ∙ h (suc j) (omega arith)) in
    read_slots-step a (length vs) v c here ∙ rw rest refl
  where
    at_first : (a : ℕ) → a < 2 ^ 32 → u32 a ≡ a + 0
    at_first a lt = omega arith

    move_one : (a j : ℕ) → a + 1 + j ≡ a + suc j
    move_one a j = omega arith

saved_of : Machine → SavedRegisters
saved_of m = record {
  saved_regs = m.context.regs;
  saved_outer = m.outer;
  saved_sec = u32 (m.context.abp2 + m.context.ac2);
}

-- The machine once its registers are saved, with the context `c` that has the slots.
inner_of : Machine → Context → Machine
inner_of m c =
    let base = u32 (u32 (m.context.abp2 + m.context.ac2) + 7) in
    record {
      context = record c { regs = inner_regs base c.regs };
      outer = record m.outer { nfbp = base; enfbp = c.esec; arg_instr_flag = false };
    }

save-written :
    (m : Machine) (c : Context)
    → ltb (length m.context.stack) (u32 (u32 (m.context.abp2 + m.context.ac2) + 7)) ≡ false
    → write_slots (u32 (m.context.abp2 + m.context.ac2)) (saved_slots m) m.context ≡ some (tt, c)
    → save_regs_and_set_regs m ≡ some ((true, saved_of m), inner_of m c)
unfolding save_regs_and_set_regs saved_of inner_of
save-written m c fits e = rw (fits, e) refl

restore-read :
    (s : SavedRegisters) (vs : List Value) (m : Machine) (c : Context)
    → read_slots s.saved_sec 7 m.context ≡ some (vs, c)
    → restore_regs s m ≡ some (restored_with s (restore_slots s vs m) m)
unfolding restore_regs
restore-read s vs m c e = rw (e, restore_regs) refl

-- The slots that were saved have the types and the references that `restore_regs` asks for.
restore-saved :
    (m later : Machine)
    → m.context.sec ≡ u32 (m.context.abp2 + m.context.ac2)
    → m.context.esec ≡ u32 (m.context.evbp + m.context.evc)
    → restored_with (saved_of m) (restore_slots (saved_of m) (saved_slots m) later) later ≡ (
      true,
      record {
        context = record later.context {
          regs = record m.context.regs { ai = later.context.ai; tmp_ac2 = later.context.tmp_ac2 };
        };
        outer = record m.outer { rv = later.outer.rv };
      },
    )
unfolding restore_slots saved_of
restore-saved m later sec_end esec_end =
    rw
      (
        (==_iff m.outer.force_tmp_rv2.r m.outer.force_tmp_rv2.r).1 refl,
        (==_iff m.outer.force_tmp_rv.r m.outer.force_tmp_rv.r).1 refl,
        sec_end,
        esec_end,
      )
      refl

fits_lem : (a l : ℕ) → a + 7 ≤ l → l < 2 ^ 31 → ltb l (u32 (u32 a + 7)) ≡ false
fits_lem a l room small = ground arith

base_lem : (a : ℕ) → a + 7 < 2 ^ 31 → u32 (u32 a + 7) ≡ a + 7
base_lem a small = omega arith

-- The stack has fewer than 2^31 slots, seven of them free behind the arguments, and sec and esec are the
-- ends of the arguments and of the expression values. Then the registers are saved, and the slots below
-- the arguments' end stay. After any run that leaves the slots below the new frame base as they were,
-- these registers are restored: abp, ac, lvc, abp2, ac2, sec, evbp, evc, esec, nfbp, enfbp, fp, ip, both
-- after-leaving flags and their index, arg_instr_flag, cached_fun_result_flag, the eight try registers and
-- the four force_tmp registers; ai, tmp_ac2 and the return value stay as the run left them. The registers
-- gc_tmp_ptr, tmp_r, cutc, cancelation_undo_types and tmp_expr_values, which restore_regs does not touch,
-- are not in the model.
pub regs_restored :
    (m : Machine)
    → m.context.abp2 + m.context.ac2 + 7 ≤ length m.context.stack
    → length m.context.stack < 2 ^ 31
    → m.context.sec ≡ m.context.abp2 + m.context.ac2
    → m.context.esec ≡ u32 (m.context.evbp + m.context.evc)
    → (s : SavedRegisters) × (inner : Machine) × (save_regs_and_set_regs m
        ≡ some ((true, s), inner))
      × ((p : ℕ)
          → p < m.context.sec
          → get_elem? inner.context.stack p ≡ get_elem? m.context.stack p)
      × ((later : Machine)
          → ((p : ℕ)
              → p < inner.outer.nfbp
              → get_elem? later.context.stack p ≡ get_elem? inner.context.stack p)
          → restore_regs s later
            ≡ some (
              true,
              record {
                context = record later.context {
                  regs = record m.context.regs {
                    ai = later.context.ai;
                    tmp_ac2 = later.context.tmp_ac2;
                  };
                };
                outer = record m.outer { rv = later.outer.rv };
              },
            ))
unfolding inner_of saved_of
regs_restored m room small sec_end esec_end =
    let a = m.context.abp2 + m.context.ac2 in
    let at : u32 a ≡ a = u32_small a (omega arith) in
    let r = write_slots_lem (saved_slots m) a m.context room small in
    let c = r.0 in
    let w = r.2 in
    (
      saved_of m,
      inner_of m c,
      save-written m c (fits_lem a (length m.context.stack) room small)
          (ap (λ q. write_slots q (saved_slots m) m.context) at ∙ r.1),
      λ p lt. w.below p (omega arith),
      λ later same.
          restore-read (saved_of m) (saved_slots m) later later.context (
            ap (λ q. read_slots q 7 later.context) at
            ∙ read_slots_lem (saved_slots m) a later.context (omega arith)
                (λ j lt. same (a + j) (within a j (omega arith) lt) ∙ w.slots j lt))
          ∙ ap some (restore-saved m later (sec_end ∙ sym at) esec_end),
    )
  where
    within : (a j : ℕ) → a + 7 < 2 ^ 31 → j < 7 → a + j < u32 (u32 a + 7)
    within a j small lt = omega (arith, base_lem a small)
