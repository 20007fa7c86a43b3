-- ===== src/Thread/Frames.antt =====
-- vm/vm.hpp, vm/vm.cpp: what the methods of `ThreadContext` that a function's code uses leave alone.
use letin.Common.{
  ℕ, ◌+◌, ◌-◌, ◌^◌, ◌≤◌, ◌<◌, ◌≡◌, refl, subst, ◌∙◌, inl, inr, ◌⊎◌, Bool, true, false, Option, none,
  some, length, get_elem?, set, length-set, get_elem?-set_ne, ltb, ltb→lt, leb, arith, Bool-cases,
}
use letin.Thread.Calls.{enter_to_fun, leave_from_fun}
use letin.Thread.Exprs.{
  push_expr_value, pop_expr_values, pop_all_expr_values, expr_value_pushed, expr_values_popped,
}
use letin.Thread.Stack.{
  push_local_var, push_arg, pop_args, pop_args_and_local_vars, close_let, set_arg, local_var_pushed,
  arg_pushed,
}
use letin.Thread.State.{Value, Registers, Context, u32, lvbp, write}

-- The thread runs the code of a function: its frame and its values lie in the stacks.
pub record IsRunning (c : Context) : Type 0 where
  pub small : length c.stack < 2 ^ 31
  pub frame : c.abp + c.ac + 4 ≤ c.abp2
  pub args : c.abp2 + c.ac2 ≤ length c.stack
  pub small_exprs : length c.expr_stack < 2 ^ 31
  pub exprs : c.evbp + c.evc ≤ length c.expr_stack
  pub fun_index : (c.fp < 2 ^ 55) ⊎ (c.fp ≡ 2 ^ 64 - 1)

-- `c'` is in the same call as `c`: what lies under its arguments, its frame and the expression values
-- of its callers are as they were.
pub record Keeps (c c' : Context) : Type 0 where
  pub running : IsRunning c'
  pub abp : c'.abp ≡ c.abp
  pub ac : c'.ac ≡ c.ac
  pub fp : c'.fp ≡ c.fp
  pub evbp : c'.evbp ≡ c.evbp
  pub size : length c'.stack ≡ length c.stack
  pub expr_size : length c'.expr_stack ≡ length c.expr_stack
  pub below : (i : ℕ) → i < c.abp → get_elem? c'.stack i ≡ get_elem? c.stack i
  pub slots :
      (i : ℕ) → c.abp + c.ac ≤ i → i < c.abp + c.ac + 4 → get_elem? c'.stack i ≡ get_elem? c.stack i
  pub values : (i : ℕ) → i < c.evbp → get_elem? c'.expr_stack i ≡ get_elem? c.expr_stack i

-- One push, pop or write to an argument.
pub data Step (c d : Context) : Type 0 where
  local_var : (v : Value) (b : Bool) → push_local_var v c ≡ some (b, d) → Step c d
  argument : (v : Value) (b : Bool) → push_arg v c ≡ some (b, d) → Step c d
  no_args : pop_args c ≡ some (tt, d) → Step c d
  no_locals : pop_args_and_local_vars c ≡ some (tt, d) → Step c d
  close : close_let c ≡ some (tt, d) → Step c d
  rewrite_arg : (i : ℕ) (v : Value) → i < c.ac → set_arg i v c ≡ some (tt, d) → Step c d
  expr : (v : Value) (b : Bool) → push_expr_value v c ≡ some (b, d) → Step c d
  no_exprs : (n : ℕ) (b : Bool) → pop_expr_values n c ≡ some (b, d) → Step c d
  all_exprs : pop_all_expr_values c ≡ some (tt, d) → Step c d

-- The code of a function between its entry and its return: steps, and whole calls of functions.
pub data Run : Context → Context → Type 0 where
  stop : {c d : Context} → d ≡ c → Run c d
  step : {c d e : Context} → Run c d → Step d e → Run c e
  call :
      {c d e f g : Context} (i : ℕ)
      → Run c d
      → i < 2 ^ 55
      → enter_to_fun i d ≡ some (true, e)
      → Run e f
      → leave_from_fun f ≡ some (true, g)
      → Run c g

pub Keeps-refl : (c : Context) → IsRunning c → Keeps c c
Keeps-refl c r = record {
  running = r;
  abp = refl;
  ac = refl;
  fp = refl;
  evbp = refl;
  size = refl;
  expr_size = refl;
  below = λ i h. refl;
  slots = λ i h k. refl;
  values = λ i h. refl;
}

pub Keeps-trans : (c d e : Context) → Keeps c d → Keeps d e → Keeps c e
Keeps-trans c d e k l = record {
  running = l.running;
  abp = l.abp ∙ k.abp;
  ac = l.ac ∙ k.ac;
  fp = l.fp ∙ k.fp;
  evbp = l.evbp ∙ k.evbp;
  size = l.size ∙ k.size;
  expr_size = l.expr_size ∙ k.expr_size;
  below = λ i h. l.below i (omega (arith, k.abp)) ∙ k.below i h;
  slots = λ i lo hi.
      l.slots i (omega (arith, k.abp, k.ac)) (omega (arith, k.abp, k.ac)) ∙ k.slots i lo hi;
  values = λ i h. l.values i (omega (arith, k.evbp)) ∙ k.values i h;
}

-- A change of registers that are not the frame's.
Keeps-regs :
    (c : Context) (r : Registers)
    → IsRunning (record c { regs = r })
    → r.abp ≡ c.abp
    → r.ac ≡ c.ac
    → r.fp ≡ c.fp
    → r.evbp ≡ c.evbp
    → Keeps c (record c { regs = r })
Keeps-regs c r running abp ac fp evbp = record {
  running = running;
  abp = abp;
  ac = ac;
  fp = fp;
  evbp = evbp;
  size = refl;
  expr_size = refl;
  below = λ i h. refl;
  slots = λ i h k. refl;
  values = λ i h. refl;
}

-- A write behind the frame or to an argument.
Keeps-set :
    (c : Context) (k : ℕ) (v : Value)
    → IsRunning c
    → (c.abp2 ≤ k) ⊎ ((c.abp ≤ k) × (k < c.abp + c.ac))
    → Keeps c (record c { stack = set c.stack k v })
Keeps-set c k v r at = record {
  running = record {
    small = omega (arith, length-set c.stack k v, r.small);
    frame = r.frame;
    args = omega (arith, length-set c.stack k v, r.args);
    small_exprs = r.small_exprs;
    exprs = r.exprs;
    fun_index = r.fun_index;
  };
  abp = refl;
  ac = refl;
  fp = refl;
  evbp = refl;
  size = length-set c.stack k v;
  expr_size = refl;
  below = λ i h. get_elem?-set_ne c.stack {i = k} {j = i} v (omega (arith, r.frame));
  slots = λ i lo hi. get_elem?-set_ne c.stack {i = k} {j = i} v (omega (arith, r.frame));
  values = λ i h. refl;
}

Keeps-set_expr :
    (c : Context) (k : ℕ) (v : Value)
    → IsRunning c
    → c.evbp ≤ k
    → Keeps c (record c { expr_stack = set c.expr_stack k v })
Keeps-set_expr c k v r at = record {
  running = record {
    small = r.small;
    frame = r.frame;
    args = r.args;
    small_exprs = omega (arith, length-set c.expr_stack k v, r.small_exprs);
    exprs = omega (arith, length-set c.expr_stack k v, r.exprs);
    fun_index = r.fun_index;
  };
  abp = refl;
  ac = refl;
  fp = refl;
  evbp = refl;
  size = refl;
  expr_size = length-set c.expr_stack k v;
  below = λ i h. refl;
  slots = λ i h k. refl;
  values = λ i h. get_elem?-set_ne c.expr_stack {i = k} {j = i} v (omega arith);
}

some-ne-none : {A : Type 0} {a : A} → ◌≡◌ {A = Option A} none (some a) → ⊥
some-ne-none p = cc

-- A method that gives one of two results.
of_result :
    {A : Type 0} (c d e : Context) (a b : A)
    → Keeps c d
    → ◌≡◌ {A = Option (A × Context)} (some (a, d)) (some (b, e))
    → Keeps c e
of_result c d e a b k p = subst (Keeps c) (cc) k

-- What a running thread keeps when it changes registers that are not the frame's, after a write.
IsRunning-regs :
    (c : Context) (r : Registers)
    → IsRunning c
    → r.abp + r.ac + 4 ≤ r.abp2
    → r.abp2 + r.ac2 ≤ length c.stack
    → r.evbp + r.evc ≤ length c.expr_stack
    → r.fp ≡ c.fp
    → IsRunning (record c { regs = r })
IsRunning-regs c r h frame args exprs fp = record {
  small = h.small;
  frame = frame;
  args = args;
  small_exprs = h.small_exprs;
  exprs = exprs;
  fun_index = rw fp h.fun_index;
}

push_local_var-Keeps :
    (c e : Context) (v : Value) (b : Bool)
    → IsRunning c
    → push_local_var v c ≡ some (b, e)
    → Keeps c e
unfolding push_local_var
push_local_var-Keeps c e v b r p = elim (Bool-cases (ltb c.abp2 (length c.stack))) [
  | inr n ↦ of_result c c e false b (Keeps-refl c r) (rw (n, push_local_var) at p)
  | inl y ↦
      let k = Keeps-set c c.abp2 v r (inl (omega arith)) in
      let lt = ltb→lt _ _ y in
      of_result c (local_var_pushed v c) e true b
        (Keeps-trans c _ _ k (
          Keeps-regs _ _
            (IsRunning-regs _ _ k.running (omega arith) (omega (arith, k.size)) r.exprs refl) refl
            refl refl refl))
        (rw (y, push_local_var) at p)
]

push_arg-Keeps :
    (c e : Context) (v : Value) (b : Bool) → IsRunning c → push_arg v c ≡ some (b, e) → Keeps c e
unfolding push_arg
push_arg-Keeps c e v b r p = elim (Bool-cases (ltb (u32 (c.abp2 + c.ac2)) (length c.stack))) [
  | inr n ↦ of_result c c e false b (Keeps-refl c r) (rw (n, push_arg) at p)
  | inl y ↦
      let k = Keeps-set c (u32 (c.abp2 + c.ac2)) v r (inl (omega arith)) in
      let lt = ltb→lt _ _ y in
      of_result c (arg_pushed v c) e true b
        (Keeps-trans c _ _ k (
          Keeps-regs _ _ (IsRunning-regs _ _ k.running r.frame (omega (arith, k.size)) r.exprs refl)
            refl refl refl refl))
        (rw (y, push_arg) at p)
]

push_expr_value-Keeps :
    (c e : Context) (v : Value) (b : Bool)
    → IsRunning c
    → push_expr_value v c ≡ some (b, e)
    → Keeps c e
unfolding push_expr_value
push_expr_value-Keeps c e v b r p =
    elim (Bool-cases (ltb (u32 (c.evbp + c.evc)) (length c.expr_stack))) [
      | inr n ↦ of_result c c e false b (Keeps-refl c r) (rw (n, push_expr_value) at p)
      | inl y ↦
          let k = Keeps-set_expr c (u32 (c.evbp + c.evc)) v r (omega arith) in
          let lt = ltb→lt _ _ y in
          let same = length-set c.expr_stack (u32 (c.evbp + c.evc)) v in
          of_result c (expr_value_pushed v c) e true b
            (Keeps-trans c _ _ k (
              Keeps-regs _ _
                (IsRunning-regs _ _ k.running r.frame r.args (omega (arith, same)) refl) refl refl
                refl refl))
            (rw (y, push_expr_value) at p)
    ]

pop_expr_values-Keeps :
    (c e : Context) (n : ℕ) (b : Bool) → IsRunning c → pop_expr_values n c ≡ some (b, e) → Keeps c e
unfolding pop_expr_values
pop_expr_values-Keeps c e n b r p = elim (Bool-cases (leb n c.evc)) [
  | inr more ↦ of_result c c e false b (Keeps-refl c r) (rw (more, pop_expr_values) at p)
  | inl y ↦
      of_result c (expr_values_popped n c) e true b
        (Keeps-regs c _ (IsRunning-regs c _ r r.frame r.args (omega arith) refl) refl refl refl
          refl)
        (rw (y, pop_expr_values) at p)
]

set_arg-Keeps :
    (c e : Context) (i : ℕ) (v : Value)
    → IsRunning c
    → i < c.ac
    → set_arg i v c ≡ some (tt, e)
    → Keeps c e
unfolding set_arg write
set_arg-Keeps c e i v r lt p =
    let k = Keeps-set c (u32 c.abp + i) v r (inr (omega arith, omega arith)) in
    elim (Bool-cases (ltb (u32 c.abp + i) (length c.stack))) [
      | inl y ↦ of_result c _ e tt tt k (rw (y, set_arg, write) at p)
      | inr n ↦ absurd (some-ne-none (rw (n, set_arg, write) at p))
    ]

-- One step of a function's code keeps its call intact.
pub Step-Keeps : (c d : Context) → IsRunning c → Step c d → Keeps c d
unfolding pop_args pop_args_and_local_vars close_let pop_all_expr_values
Step-Keeps c d r (local_var v b p) = push_local_var-Keeps c d v b r p
Step-Keeps c d r (argument v b p) = push_arg-Keeps c d v b r p
Step-Keeps c d r (no_args p) =
    of_result c _ d tt tt
      (Keeps-regs c (record c.regs { ac2 = 0; sec = c.abp2 })
        (IsRunning-regs c _ r r.frame (omega arith) r.exprs refl) refl refl refl refl)
      p
Step-Keeps c d r (no_locals p) =
    of_result c _ d tt tt
      (Keeps-regs c (record c.regs { abp2 = lvbp c.regs; lvc = 0; ac2 = 0; sec = lvbp c.regs })
        (IsRunning-regs c _ r (omega arith) (omega arith) r.exprs refl) refl refl refl refl)
      p
Step-Keeps c d r (close p) =
    of_result c _ d tt tt
      (Keeps-regs c (record c.regs { lvc = u32 (c.abp2 + 2 ^ 32 - lvbp c.regs) })
        (IsRunning-regs c _ r r.frame r.args r.exprs refl) refl refl refl refl)
      p
Step-Keeps c d r (rewrite_arg i v lt p) = set_arg-Keeps c d i v r lt p
Step-Keeps c d r (expr v b p) = push_expr_value-Keeps c d v b r p
Step-Keeps c d r (no_exprs n b p) = pop_expr_values-Keeps c d n b r p
Step-Keeps c d r (all_exprs p) =
    of_result c _ d tt tt
      (Keeps-regs c (record c.regs { evc = 0; esec = c.evbp })
        (IsRunning-regs c _ r r.frame r.args (omega arith) refl) refl refl refl refl)
      p
