-- ===== src/Relocate/Whole.antt =====
-- vm/vm.cpp: `Program::relocate` as a whole.
use letin.Common.{
  ℕ, inl, inr, refl, Bool, true, false, List, [], ◌∷◌, ◌==◌, if◌then◌else◌, All, Bool-cases,
}
use letin.Loader.Format.{
  u32, Relocation, Symbol, is_symbolic, has_flag, flag_native_fun_symbols, reloc_kind,
}
use letin.Loader.Program.Accepts.{IsProgram, Names}
use letin.Loader.Result.{
  Load, ok, Ensures, gives, rejects, Ensures-bind, Ensures-guard, Ensures-map,
}
use letin.Opcode.{arg_type_imm, arg_type_gvar}
use letin.Relocate.Elements.{at-Ensures, found-Ensures}
use letin.Relocate.Indexes.{
  Image, Indexes, relocate_index, relocate_native_fun_index, symbolic_index, shifted_index,
  native_index, widen,
}
use letin.Relocate.Keeps.{
  IsTotal, Kept, relocate_arg1-Kept, relocate_arg2-Kept, relocate_elem-Kept, relocate_var-Kept,
}
use letin.Relocate.Steps.{
  move_fun, move_var, move_native, relocate_native, relocate_one, relocate_all, relocate,
}

pub Ensures-if {ℓ κ} :
    {A : Type ℓ} {P : A → Type κ} (b : Bool) {m k : Load A}
    → Ensures P m
    → Ensures P k
    → Ensures P (if b then m else k)
Ensures-if true h g = h
Ensures-if false h g = g

module _ (p : Image) (reloc : Relocation) (named : Names p.symbols reloc) (indexes : Indexes) where
  relocate_index-total :
      (index offset symbol_type : ℕ)
      → Ensures (λ _. Unit {0}) (relocate_index p index offset indexes reloc symbol_type)
  unfolding relocate_index symbolic_index shifted_index
  relocate_index-total index offset symbol_type = elim (Bool-cases (is_symbolic reloc.type)) [
    | inl y ↦ rw y (
        Ensures-bind (at-Ensures p.symbols reloc.symbol (named y)) λ symbol _. Ensures-guard _ λ e.
          Ensures-bind (found-Ensures (indexes symbol.name)) λ i _. Ensures-guard _ λ f. gives tt)
    | inr n ↦ rw n (Ensures-guard _ λ e. gives tt)
  ]

  relocate_native_fun_index-total :
      (index : ℕ) → Ensures (λ _. Unit {0}) (relocate_native_fun_index p index indexes reloc)
  unfolding relocate_native_fun_index native_index
  relocate_native_fun_index-total index = elim (Bool-cases (is_symbolic reloc.type)) [
    | inl y ↦ rw y (
        Ensures-bind (at-Ensures p.symbols reloc.symbol (named y)) λ symbol _.
          Ensures-guard _ λ e. Ensures-map (found-Ensures (indexes symbol.name)) λ _ _. tt)
    | inr n ↦ rw n (gives tt)
  ]

module _ (fun_offset var_offset : ℕ) (fun_indexes var_indexes native_fun_indexes : Indexes) where
  module _ (p : Image) (symbols : List Symbol) (h : Kept symbols p) (reloc : Relocation)
      (named : Names symbols reloc) where
    here : Names p.symbols reloc
    here y = rw h.same (named y)

    native-IsTotal :
        IsTotal
          (move_native fun_offset var_offset fun_indexes var_indexes native_fun_indexes p reloc)
    unfolding move_native
    native-IsTotal i = relocate_native_fun_index-total p reloc here native_fun_indexes i

    fun-IsTotal :
        IsTotal (move_fun fun_offset var_offset fun_indexes var_indexes native_fun_indexes p reloc)
    unfolding move_fun
    fun-IsTotal i = relocate_index-total p reloc here fun_indexes i fun_offset _

    var-IsTotal :
        IsTotal (move_var fun_offset var_offset fun_indexes var_indexes native_fun_indexes p reloc)
    unfolding move_var
    var-IsTotal i = relocate_index-total p reloc here var_indexes i var_offset _

    relocate_native-Kept :
        Ensures
          (Kept symbols)
          (relocate_native fun_offset var_offset fun_indexes var_indexes native_fun_indexes p reloc)
    unfolding relocate_native
    relocate_native-Kept =
        let kind = reloc_kind reloc.type in
        let widened = λ (index : ℕ).
          Ensures-bind {f = λ i. ok (widen i)} (native-IsTotal (u32 index)) (λ i _. gives tt) in
        Ensures-if (kind == 6)
          (relocate_arg1-Kept p symbols h _ native-IsTotal reloc.addr arg_type_imm)
          (Ensures-if (kind == 7)
            (relocate_arg2-Kept p symbols h _ native-IsTotal reloc.addr arg_type_imm)
            (Ensures-if (kind == 8) (relocate_elem-Kept p symbols h _ widened reloc.addr) (
              Ensures-if (kind == 9) (relocate_var-Kept p symbols h _ widened reloc.addr true)
                (gives h))))

    relocate_one-Kept :
        Ensures
          (Kept symbols)
          (relocate_one fun_offset var_offset fun_indexes var_indexes native_fun_indexes p reloc)
    unfolding relocate_one
    relocate_one-Kept =
        let kind = reloc_kind reloc.type in
        let wide = λ (index : ℕ). fun-IsTotal (widen index) in
        Ensures-if (kind == 0) (relocate_arg1-Kept p symbols h _ wide reloc.addr arg_type_imm) (
          Ensures-if (kind == 1) (relocate_arg2-Kept p symbols h _ wide reloc.addr arg_type_imm) (
            Ensures-if (kind == 2)
              (relocate_arg1-Kept p symbols h _ var-IsTotal reloc.addr arg_type_gvar)
              (Ensures-if (kind == 3)
                (relocate_arg2-Kept p symbols h _ var-IsTotal reloc.addr arg_type_gvar)
                (Ensures-if (kind == 4) (relocate_elem-Kept p symbols h _ fun-IsTotal reloc.addr) (
                  Ensures-if (kind == 5)
                    (relocate_var-Kept p symbols h _ fun-IsTotal reloc.addr false)
                    (Ensures-if (has_flag p.flags flag_native_fun_symbols) relocate_native-Kept
                      rejects))))))

  relocate_all-Kept :
      (p : Image) (symbols : List Symbol) (relocs : List Relocation)
      → Kept symbols p
      → All (Names symbols) relocs
      → Ensures
          (Kept symbols)
          (relocate_all fun_offset var_offset fun_indexes var_indexes native_fun_indexes p relocs)
  unfolding relocate_all
  relocate_all-Kept p symbols [] h n = gives h
  relocate_all-Kept p symbols (r ∷ rs) h n =
      Ensures-bind (relocate_one-Kept p symbols h r n.0)
        λ q hq. relocate_all-Kept q symbols rs hq n.1

-- Relocating a well-formed program, to any offsets and with any indexes of the names, ends in a
-- program or in a rejection, and a program that it gives is well formed: no relocation goes outside
-- the code, the variables, the symbols or an object's elements, whatever its address is.
pub relocate-IsProgram :
    (p : Image) (fun_offset var_offset : ℕ) (fun_indexes var_indexes native_fun_indexes : Indexes)
    → IsProgram p.program
    → Ensures
        (λ q. IsProgram q.program)
        (relocate fun_offset var_offset fun_indexes var_indexes native_fun_indexes p)
unfolding relocate
relocate-IsProgram p fo vo fs vs ns h =
    Ensures-bind
      (relocate_all-Kept fo vo fs vs ns p p.symbols p.relocs (record { program = h; same = refl })
        h.names)
      λ q hq. gives (record {
        funs = hq.program.funs;
        vars = hq.program.vars;
        points = hq.program.points;
        objects = hq.program.objects;
        relocs = hq.program.relocs;
        names = hq.program.names;
        symbols = hq.program.symbols;
        fun_infos = hq.program.fun_infos;
      })
