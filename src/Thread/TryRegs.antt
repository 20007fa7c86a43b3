-- ===== src/Thread/TryRegs.antt =====
-- vm/vm.hpp: what `push_try_regs` puts on the stack.
use letin.Common.{
  ℕ, ◌+◌, ◌*◌, ◌^◌, ◌≤◌, ◌<◌, ◌≡◌, ◌∙◌, Bool, true, List, subst, some, length, get_elem?,
  length-set, get_elem?-set_ne, get_elem?-set_self, lt→ltb, bit_or, arith,
}
use letin.Thread.Balance.{bind_lem}
use letin.Thread.Saved.{push_try_regs, sign_extend, to_nat, and_then}
use letin.Thread.Stack.{push_local_var, local_var_pushed}
use letin.Thread.State.{Value, int, ref, Registers, Context, Method}

-- A push of `v` that had room.
record Pushed (v : Value) (c d : Context) : Type 0 where
  abp2 : d.abp2 ≡ c.abp2 + 1
  top : get_elem? d.stack c.abp2 ≡ some v
  below : (i : ℕ) → i < c.abp2 → get_elem? d.stack i ≡ get_elem? c.stack i
  size : length d.stack ≡ length c.stack

push_lem :
    (v : Value) (c : Context)
    → length c.stack < 2 ^ 31
    → c.abp2 < length c.stack
    → (push_local_var v c ≡ some (true, local_var_pushed v c)) × Pushed v c (local_var_pushed v c)
unfolding push_local_var
push_lem v c small room = (
  rw (lt→ltb c.abp2 (length c.stack) room),
  record {
    abp2 = omega arith;
    top = get_elem?-set_self c.stack c.abp2 v room;
    below = λ i lt. get_elem?-set_ne c.stack {i = c.abp2} {j = i} v (omega arith);
    size = length-set c.stack c.abp2 v;
  },
)

and_then_lem : (m k : Method Bool) (c d : Context) → m c ≡ some (true, d) → and_then m k c ≡ k d
and_then_lem m k c d h = bind_lem m _ c d true h

-- The six values that are pushed.
abbrev pub flags_of : Registers → Value
flags_of r = int (to_nat r.try_flag + to_nat r.try_catch_flag * 2)

abbrev pub base_of : Registers → Value
base_of r = int (bit_or (r.try_abp * 2 ^ 32) r.try_ac)

-- The slots from `k` on hold the registers `r`.
pub record Saves (k : ℕ) (r : Registers) (c : Context) : Type 0 where
  pub slot0 : get_elem? c.stack k ≡ some (flags_of r)
  pub slot1 : get_elem? c.stack (k + 1) ≡ some (base_of r)
  pub slot2 : get_elem? c.stack (k + 2) ≡ some r.try_arg2
  pub slot3 : get_elem? c.stack (k + 3) ≡ some (ref r.try_io_r)
  pub slot4 : get_elem? c.stack (k + 4) ≡ some (int (sign_extend r.try_catch_error))
  pub slot5 : get_elem? c.stack (k + 5) ≡ some (ref r.try_catch_r)

at_index :
    {k j : ℕ} {v : Value} (s : List Value) → k ≡ j → get_elem? s k ≡ some v → get_elem? s j ≡ some v
at_index {v = v} s e h = subst (λ i. get_elem? s i ≡ some v) e h

pub push_Saves :
    (c : Context)
    → length c.stack < 2 ^ 31
    → c.abp2 + 6 ≤ length c.stack
    → (d : Context) × (push_try_regs c ≡ some (true, d))
      × Saves c.abp2 c.regs d
      × (d.abp2 ≡ c.abp2 + 6)
      × (length d.stack ≡ length c.stack)
      × ((i : ℕ) → i < c.abp2 → get_elem? d.stack i ≡ get_elem? c.stack i)
unfolding push_try_regs
push_Saves c small room =
    let v0 = flags_of c.regs in
    let v1 = base_of c.regs in
    let v4 = int (sign_extend c.try_catch_error) in
    let c1 = local_var_pushed v0 c in
    let c2 = local_var_pushed v1 c1 in
    let c3 = local_var_pushed c.try_arg2 c2 in
    let c4 = local_var_pushed (ref c.try_io_r) c3 in
    let c5 = local_var_pushed v4 c4 in
    let c6 = local_var_pushed (ref c.try_catch_r) c5 in
    let (p1, q1) = push_lem v0 c small (omega arith) in
    let s1 : length c1.stack ≡ length c.stack = q1.size in
    let a1 : c1.abp2 ≡ c.abp2 + 1 = q1.abp2 in
    let (p2, q2) = push_lem v1 c1 (omega arith) (omega arith) in
    let s2 : length c2.stack ≡ length c.stack = q2.size ∙ s1 in
    let a2 : c2.abp2 ≡ c.abp2 + 2 = omega (arith, q2.abp2) in
    let (p3, q3) = push_lem c.try_arg2 c2 (omega arith) (omega arith) in
    let s3 : length c3.stack ≡ length c.stack = q3.size ∙ s2 in
    let a3 : c3.abp2 ≡ c.abp2 + 3 = omega (arith, q3.abp2) in
    let (p4, q4) = push_lem (ref c.try_io_r) c3 (omega arith) (omega arith) in
    let s4 : length c4.stack ≡ length c.stack = q4.size ∙ s3 in
    let a4 : c4.abp2 ≡ c.abp2 + 4 = omega (arith, q4.abp2) in
    let (p5, q5) = push_lem v4 c4 (omega arith) (omega arith) in
    let s5 : length c5.stack ≡ length c.stack = q5.size ∙ s4 in
    let a5 : c5.abp2 ≡ c.abp2 + 5 = omega (arith, q5.abp2) in
    let (p6, q6) = push_lem (ref c.try_catch_r) c5 (omega arith) (omega arith) in
    (
      c6,
      and_then_lem (push_local_var v0) _ c c1 p1
          ∙ and_then_lem (push_local_var v1) _ c1 c2 p2
          ∙ and_then_lem (push_local_var c.try_arg2) _ c2 c3 p3
          ∙ and_then_lem (push_local_var (ref c.try_io_r)) _ c3 c4 p4
          ∙ and_then_lem (push_local_var v4) _ c4 c5 p5
          ∙ p6,
      record {
        slot0 =
            q6.below c.abp2 (omega arith)
            ∙ q5.below c.abp2 (omega arith)
            ∙ q4.below c.abp2 (omega arith)
            ∙ q3.below c.abp2 (omega arith)
            ∙ q2.below c.abp2 (omega arith)
            ∙ q1.top;
        slot1 = at_index c6.stack a1 (
            q6.below c1.abp2 (omega arith)
            ∙ q5.below c1.abp2 (omega arith)
            ∙ q4.below c1.abp2 (omega arith)
            ∙ q3.below c1.abp2 (omega arith)
            ∙ q2.top);
        slot2 = at_index c6.stack a2 (
            q6.below c2.abp2 (omega arith)
            ∙ q5.below c2.abp2 (omega arith)
            ∙ q4.below c2.abp2 (omega arith)
            ∙ q3.top);
        slot3 =
            at_index c6.stack a3
              (q6.below c3.abp2 (omega arith) ∙ q5.below c3.abp2 (omega arith) ∙ q4.top);
        slot4 = at_index c6.stack a4 (q6.below c4.abp2 (omega arith) ∙ q5.top);
        slot5 = at_index c6.stack a5 q6.top;
      },
      omega (arith, q6.abp2),
      q6.size ∙ s5,
      λ i lt.
          q6.below i (omega arith)
          ∙ q5.below i (omega arith)
          ∙ q4.below i (omega arith)
          ∙ q3.below i (omega arith)
          ∙ q2.below i (omega arith)
          ∙ q1.below i lt,
    )
