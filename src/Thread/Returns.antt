-- ===== src/Thread/Returns.antt =====
-- vm/vm.cpp: whatever a function does between `enter_to_fun` and `leave_from_fun`, calls of other
-- functions included, its caller finds its registers and its part of the stacks again.
use letin.Common.{
  ℕ, ◌+◌, ◌-◌, ◌%◌, ◌^◌, ◌≤◌, ◌<◌, ◌≡◌, refl, ap, subst, sym, ◌∙◌, inl, inr, ◌⊎◌, Bool, true, false,
  Option, some, length, get_elem?, ltb, ltb→lt, arith, Bool-cases,
}
use letin.Thread.Balance.{Holds, Keeps-Holds, entered, enter_lem, framed_slots, returned, leave_lem}
use letin.Thread.Calls.{enter_to_fun, leave_from_fun}
use letin.Thread.Frames.{
  IsRunning, Keeps, Keeps-refl, Keeps-trans, Run, stop, step, call, Step-Keeps,
}
use letin.Thread.Packing.{unpack-pack}
use letin.Thread.State.{Context, u32}

-- A thread that may call: its values lie in the stacks.
pub record IsCaller (c : Context) : Type 0 where
  pub small : length c.stack < 2 ^ 31
  pub args : c.abp2 + c.ac2 ≤ length c.stack
  pub small_exprs : length c.expr_stack < 2 ^ 31
  pub exprs : c.evbp + c.evc ≤ length c.expr_stack
  pub fun_index : (c.fp < 2 ^ 55) ⊎ (c.fp ≡ 2 ^ 64 - 1)

-- The thread is back in the caller `c`, at the instruction that called.
pub record Returns (c d : Context) : Type 0 where
  pub abp : d.abp ≡ c.abp
  pub ac : d.ac ≡ c.ac
  pub lvc : d.lvc ≡ c.lvc
  pub abp2 : d.abp2 ≡ c.abp2
  pub ac2 : d.ac2 ≡ c.ac2
  pub sec : d.sec ≡ c.abp2
  pub evbp : d.evbp ≡ c.evbp
  pub evc : d.evc ≡ c.evc
  pub fp : d.fp ≡ c.fp
  pub ip : d.ip ≡ u32 (c.ip + 2 ^ 32 - 1)
  pub index : d.after_leaving_flag_index ≡ c.after_leaving_flag_index % 2
  pub cached : d.cached_fun_result_flag ≡ c.cached_fun_result_flag % 2
  pub size : length d.stack ≡ length c.stack
  pub expr_size : length d.expr_stack ≡ length c.expr_stack
  pub below : (i : ℕ) → i < c.abp2 → get_elem? d.stack i ≡ get_elem? c.stack i
  pub values : (i : ℕ) → i < c.evbp + c.evc → get_elem? d.expr_stack i ≡ get_elem? c.expr_stack i

-- A context that came from a successful entry.
pub record Entered (c e : Context) : Type 0 where
  pub running : IsRunning e
  pub holds : Holds c.regs e
  pub abp : e.abp ≡ c.abp2
  pub ac : e.ac ≡ c.ac2
  pub evbp : e.evbp ≡ c.evbp + c.evc
  pub size : length e.stack ≡ length c.stack
  pub below : (i : ℕ) → i < c.abp2 + c.ac2 → get_elem? e.stack i ≡ get_elem? c.stack i
  pub exprs : e.expr_stack ≡ c.expr_stack

entered-Entered :
    (i : ℕ) (c : Context)
    → IsCaller c
    → i < 2 ^ 55
    → c.abp2 + c.ac2 + 4 < length c.stack
    → Entered c (entered i c)
entered-Entered i c h lt room =
    let f = framed_slots (c.abp2 + c.ac2) c.regs c.stack room in
    let (s0, s1, s2, s3, size, below) = f in
    record {
      running = record {
        small = omega (arith, h.small);
        frame = omega (arith, h.small);
        args = omega (arith, h.small);
        small_exprs = h.small_exprs;
        exprs = omega (arith, h.exprs, h.small_exprs);
        fun_index = inl lt;
      };
      holds = record {
        abp = refl;
        ac = refl;
        evbp = omega (arith, h.exprs, h.small_exprs);
        room = omega arith;
        slot0 = s0;
        slot1 = s1;
        slot2 = s2;
        slot3 = s3;
      };
      abp = refl;
      ac = refl;
      evbp = omega (arith, h.exprs, h.small_exprs);
      size = size;
      below = below;
      exprs = refl;
    }

some_context :
    {b b' : Bool} {c d : Context}
    → ◌≡◌ {A = Option (Bool × Context)} (some (b, c)) (some (b', d))
    → c ≡ d
some_context q = cc

pub enter-Entered :
    (i : ℕ) (c e : Context)
    → IsCaller c
    → i < 2 ^ 55
    → enter_to_fun i c ≡ some (true, e)
    → Entered c e
unfolding enter_to_fun
enter-Entered i c e h lt p = elim (Bool-cases (ltb (u32 (c.abp2 + c.ac2 + 4)) (length c.stack))) [
  | inr n ↦ absurd (absurd_false c e (rw (n, enter_to_fun) at p))
  | inl y ↦
      let room : c.abp2 + c.ac2 + 4 < length c.stack =
        omega (arith, ltb→lt _ _ y, h.small, h.args) in
      subst (Entered c) (some_context (sym (enter_lem i c h.small room) ∙ p))
        (entered-Entered i c h lt room)
]
  where
    absurd_false :
        (c e : Context) → ◌≡◌ {A = Option (Bool × Context)} (some (false, c)) (some (true, e)) → ⊥
    absurd_false c e q = cc

-- The return from a call that kept its frame.
back :
    (c e f : Context)
    → IsCaller c
    → Entered c e
    → Keeps e f
    → (g : Context) × (leave_from_fun f ≡ some (true, g)) × Returns c g
back c e f h en k =
    let held = Keeps-Holds c.regs e f en.holds k in
    let flags = unpack-pack c.regs h.fun_index in
    (
      record f { regs = returned c.regs f.regs },
      leave_lem c.regs f k.running.small held,
      record {
        abp = refl;
        ac = refl;
        lvc = refl;
        abp2 = held.abp;
        ac2 = held.ac;
        sec = held.abp;
        evbp = refl;
        evc = refl;
        fp = flags.0;
        ip = refl;
        index = flags.1;
        cached = flags.2;
        size = k.size ∙ en.size;
        expr_size = k.expr_size ∙ ap length en.exprs;
        below = λ i lt. k.below i (omega (arith, en.abp)) ∙ en.below i (omega arith);
        values = λ i lt. k.values i (omega (arith, en.evbp)) ∙ ap (λ s. get_elem? s i) en.exprs;
      },
    )

IsRunning-IsCaller : (c : Context) → IsRunning c → IsCaller c
IsRunning-IsCaller c r = record {
  small = r.small;
  args = r.args;
  small_exprs = r.small_exprs;
  exprs = r.exprs;
  fun_index = r.fun_index;
}

-- A call that returned to a function's code keeps the call of that function intact.
Returns-Keeps : (c g : Context) → IsRunning c → Returns c g → Keeps c g
Returns-Keeps c g r t = record {
  running = record {
    small = omega (arith, t.size, r.small);
    frame = omega (arith, t.abp, t.ac, t.abp2, r.frame);
    args = omega (arith, t.abp2, t.ac2, t.size, r.args);
    small_exprs = omega (arith, t.expr_size, r.small_exprs);
    exprs = omega (arith, t.evbp, t.evc, t.expr_size, r.exprs);
    fun_index = rw t.fp r.fun_index;
  };
  abp = t.abp;
  ac = t.ac;
  fp = t.fp;
  evbp = t.evbp;
  size = t.size;
  expr_size = t.expr_size;
  below = λ i lt. t.below i (omega (arith, r.frame));
  slots = λ i lo hi. t.below i (omega (arith, r.frame));
  values = λ i lt. t.values i (omega arith);
}

Run-Keeps : {c d : Context} → IsRunning c → Run c d → Keeps c d
Run-Keeps {c} {d} r (stop e) = subst (Keeps c) (sym e) (Keeps-refl c r)
Run-Keeps r (step {c = c} {d = d} {e = e} before s) =
    let k = Run-Keeps r before in Keeps-trans c d e k (Step-Keeps d e k.running s)
Run-Keeps r (call {c = c} {d = d} {e = e} {f = f} {g = g} i before lt enters inside leaves) =
    let k = Run-Keeps r before in
    let caller = IsRunning-IsCaller d k.running in
    let en = enter-Entered i d e caller lt enters in
    let (g', left, t) = back d e f caller en (Run-Keeps en.running inside) in
    Keeps-trans c d g k
      (Returns-Keeps d g k.running (subst (Returns d) (some_context (sym left ∙ leaves)) t))

-- A call is balanced, for stacks of fewer than 2^31 slots and function indexes below 2^55. If a thread
-- whose values lie in its stacks enters a function, and the function then pushes, pops, writes to its
-- arguments and makes whole calls itself, in any order, then leave_from_fun succeeds. Then abp, ac, lvc,
-- abp2, ac2, evbp, evc and fp are those of the caller, sec is abp2, and the instruction pointer stands at
-- the call again; of after_leaving_flag_index and cached_fun_result_flag the lowest bit is kept; both
-- stacks are as long as they were, and the slots below abp2 and the caller's expression values are as they
-- were. Nothing is said of esec, the after-leaving flags and the other registers.
pub call_balanced :
    (i : ℕ) (c d e : Context)
    → IsCaller c
    → i < 2 ^ 55
    → enter_to_fun i c ≡ some (true, d)
    → Run d e
    → (f : Context) × (leave_from_fun e ≡ some (true, f)) × Returns c f
call_balanced i c d e caller lt enters inside =
    let en = enter-Entered i c d caller lt enters in
    back c d e caller en (Run-Keeps en.running inside)
