-- ===== src/Relocate/Keeps.antt =====
-- vm/vm.cpp: `Program::relocate` stays inside the program's sections and keeps it well formed.
use letin.Common.{
  ℕ, zero, suc, ◌≡◌, refl, sym, subst, inl, inr, Bool, true, false, ◌||◌, List, [], ◌∷◌, ltb→lt,
  ◌==◌, ==_iff, arith, set, length-set, All, Bool-cases,
}
use letin.Loader.Addrs.{contains}
use letin.Loader.Format.{
  u32, Instruction, Value, Object, is_value_type, value_type_int, value_type_ref,
  object_type_iarray32, object_type_iarray64, object_type_tuple, Symbol,
}
use letin.Loader.Program.Accepts.{IsProgram, Points}
use letin.Loader.Result.{Load, Ensures, gives, rejects, Ensures-bind, Ensures-guard}
use letin.Relocate.Elements.{
  Reads, at-Ensures, IsLaidOut-All, put_elem-IsLaidOut, addrs-put_elem, get_elem_fun_index-Ensures,
}
use letin.Relocate.Elems.{with_elem, set_elem_fun_index}
use letin.Relocate.Indexes.{Image}
use letin.Relocate.Steps.{
  with_instr, with_var, relocate_arg1, relocate_arg2, relocate_elem, relocate_var,
}

All-set {ℓ κ} :
    {A : Type ℓ} (P : A → Type κ) (xs : List A) (i : ℕ) (v : A)
    → All P xs
    → P v
    → All P (set xs i v)
All-set P [] i v h p = tt
All-set P (x ∷ xs) zero v h p = (p, h.1)
All-set P (x ∷ xs) (suc i) v h p = (h.0, All-set P xs i v h.1 p)

-- A computation of an index that does not fault.
abbrev pub IsTotal : (ℕ → Load ℕ) → Type 0
IsTotal move = (i : ℕ) → Ensures (λ _. Unit {0}) (move i)

-- What every step keeps: the program is well formed and its symbols are the old ones.
pub record Kept (symbols : List Symbol) (q : Image) : Type 0 where
  pub program : IsProgram q.program
  pub same : q.symbols ≡ symbols

module _ (p : Image) (symbols : List Symbol) (h : Kept symbols p) where
  with_instr-Kept : (addr : ℕ) (instr : Instruction) → Kept symbols (with_instr p addr instr)
  with_instr-Kept addr instr = record {
    program = record {
      funs = rw (length-set p.code addr instr) h.program.funs;
      vars = h.program.vars;
      points = h.program.points;
      objects = h.program.objects;
      relocs = h.program.relocs;
      names = h.program.names;
      symbols = h.program.symbols;
      fun_infos = h.program.fun_infos;
    };
    same = h.same;
  }

  with_elem-Kept : (o : Object) (k w : ℕ) → Kept symbols (with_elem p o k w)
  with_elem-Kept o k w = record {
    program = record {
      funs = h.program.funs;
      vars = h.program.vars;
      points =
          subst
            (λ addrs. All (λ v. v.type ≡ value_type_ref → contains addrs (u32 v.i) ≡ true) p.vars)
            (sym (addrs-put_elem o.addr k w p.objects)) h.program.points;
      objects = put_elem-IsLaidOut p.data_size 0 o.addr k w p.objects h.program.objects;
      relocs = h.program.relocs;
      names = h.program.names;
      symbols = h.program.symbols;
      fun_infos = h.program.fun_infos;
    };
    same = h.same;
  }

  with_var-Kept :
      (addr : ℕ) (v : Value) → v.type ≡ value_type_int → Kept symbols (with_var p addr v)
  unfolding is_value_type
  with_var-Kept addr v e = record {
    program = record {
      funs = h.program.funs;
      vars = All-set _ p.vars addr v h.program.vars (rw e refl);
      points =
          All-set (Points p.objects) p.vars addr v h.program.points
            (λ f. absurd (omega (arith, e, f)));
      objects = h.program.objects;
      relocs = h.program.relocs;
      names = h.program.names;
      symbols = h.program.symbols;
      fun_infos = h.program.fun_infos;
    };
    same = h.same;
  }

  module _ (move : ℕ → Load ℕ) (total : IsTotal move) where
    pub relocate_arg1-Kept :
        (addr arg_type : ℕ) → Ensures (Kept symbols) (relocate_arg1 p addr arg_type move)
    unfolding relocate_arg1
    relocate_arg1-Kept addr arg_type = Ensures-guard _ λ e.
        Ensures-bind (at-Ensures p.code addr (ltb→lt _ _ e)) λ instr hi.
          Ensures-guard _
            λ f. Ensures-bind (total instr.arg1) λ index hx. gives (with_instr-Kept addr _)

    pub relocate_arg2-Kept :
        (addr arg_type : ℕ) → Ensures (Kept symbols) (relocate_arg2 p addr arg_type move)
    unfolding relocate_arg2
    relocate_arg2-Kept addr arg_type = Ensures-guard _ λ e.
        Ensures-bind (at-Ensures p.code addr (ltb→lt _ _ e)) λ instr hi.
          Ensures-guard _
            λ f. Ensures-bind (total instr.arg2) λ index hx. gives (with_instr-Kept addr _)

    pub relocate_var-Kept :
        (addr : ℕ) (is_native : Bool) → Ensures (Kept symbols) (relocate_var p addr is_native move)
    unfolding relocate_var
    relocate_var-Kept addr is_native = Ensures-guard _ λ e.
        Ensures-bind (at-Ensures p.vars addr (ltb→lt _ _ e)) λ v hv. Ensures-guard _ λ t.
          Ensures-guard _ λ f.
            Ensures-bind (total v.i)
              λ index hx. gives (with_var-Kept addr (record v { i = index }) ((==_iff _ _).0 t))

    set_elem_fun_index-Kept :
        (addr index : ℕ) (o : Object)
        → Reads p.data_size addr (index, o)
        → (w : ℕ) → Ensures (Kept symbols) (set_elem_fun_index p addr w o)
    unfolding set_elem_fun_index Reads
    set_elem_fun_index-Kept addr index o r w = elim (Bool-cases (o.type == object_type_iarray32)) [
      | inl y ↦
          rw y (Ensures-bind (at-Ensures o.elems _ (r.1 y)) λ old _. gives (with_elem-Kept o _ _))
      | inr n ↦ elim (Bool-cases (o.type == object_type_iarray64 || o.type == object_type_tuple)) [
        | inl y ↦
            rw (n, y)
              (Ensures-bind (at-Ensures o.elems _ (r.2 n)) λ old _. gives (with_elem-Kept o _ _))
        | inr m ↦ rw (n, m) rejects
      ]
    ]

    pub relocate_elem-Kept : (addr : ℕ) → Ensures (Kept symbols) (relocate_elem p addr move)
    unfolding relocate_elem
    relocate_elem-Kept addr =
        Ensures-bind
          (get_elem_fun_index-Ensures p.data_size addr p false
            (IsLaidOut-All p.data_size 0 p.objects h.program.objects))
          λ r hr. Ensures-bind (total r.0) λ index hx. set_elem_fun_index-Kept addr r.0 r.1 hr index
