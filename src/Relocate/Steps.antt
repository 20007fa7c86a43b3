-- ===== src/Relocate/Steps.antt =====
-- vm/vm.cpp: `Program::relocate`, one relocation and all of them.
use letin.Common.{
  ℕ, ◌+◌, ◌-◌, ◌^◌, Bool, true, false, List, [], ◌∷◌, ltb, ◌==◌, if◌then◌else◌, set, length,
}
use letin.Loader.Format.{
  Relocation, Value, Instruction, u32, u64, has_flag, flag_library, flag_native_fun_symbols,
  value_type_int, reloc_kind, symbol_type_fun, symbol_type_var,
}
use letin.Loader.Result.{Load, ok, reject, guard, ◌>>=◌, ◌>>◌}
use letin.Opcode.{opcode_to_arg_type1, opcode_to_arg_type2, arg_type_imm, arg_type_gvar}
use letin.Relocate.Elems.{get_elem_fun_index, set_elem_fun_index, is_index}
use letin.Relocate.Indexes.{Image, Indexes, widen, at, relocate_index, relocate_native_fun_index}

abbrev pub with_instr : Image → ℕ → Instruction → Image
with_instr p addr instr = record p { program = record p.program { code = set p.code addr instr } }

abbrev pub with_var : Image → ℕ → Value → Image
with_var p addr v = record p { program = record p.program { vars = set p.vars addr v } }

-- RELOC_TYPE_ARG1_..., where `move` gives the new index.
unfoldable pub relocate_arg1 : Image → ℕ → ℕ → (ℕ → Load ℕ) → Load Image
unfolding at
relocate_arg1 p addr arg_type move = do
  guard (ltb addr (length p.code))
  instr ← at p.code addr
  guard (opcode_to_arg_type1 instr.opcode == arg_type)
  index ← move instr.arg1
  ok (with_instr p addr (record instr { arg1 = u32 index }))

unfoldable pub relocate_arg2 : Image → ℕ → ℕ → (ℕ → Load ℕ) → Load Image
unfolding at
relocate_arg2 p addr arg_type move = do
  guard (ltb addr (length p.code))
  instr ← at p.code addr
  guard (opcode_to_arg_type2 instr.opcode == arg_type)
  index ← move instr.arg2
  ok (with_instr p addr (record instr { arg2 = u32 index }))

-- RELOC_TYPE_ELEM_...
unfoldable pub relocate_elem : Image → ℕ → (ℕ → Load ℕ) → Load Image
unfolding get_elem_fun_index set_elem_fun_index
relocate_elem p addr move = do
  (tmp_index, data_object) ← get_elem_fun_index p addr false
  index ← move tmp_index
  set_elem_fun_index p addr index data_object

-- RELOC_TYPE_VAR_...
unfoldable pub relocate_var : Image → ℕ → Bool → (ℕ → Load ℕ) → Load Image
unfolding at is_index
relocate_var p addr is_native move = do
  guard (ltb addr (length p.vars))
  v ← at p.vars addr
  guard (v.type == value_type_int)
  guard (is_index is_native v.i)
  index ← move v.i
  ok (with_var p addr (record v { i = index }))

module _ (fun_offset var_offset : ℕ) (fun_indexes var_indexes native_fun_indexes : Indexes) where
  unfoldable pub move_fun : Image → Relocation → ℕ → Load ℕ
  unfolding relocate_index
  move_fun p reloc index = relocate_index p index fun_offset fun_indexes reloc symbol_type_fun

  unfoldable pub move_var : Image → Relocation → ℕ → Load ℕ
  unfolding relocate_index
  move_var p reloc index = relocate_index p index var_offset var_indexes reloc symbol_type_var

  unfoldable pub move_native : Image → Relocation → ℕ → Load ℕ
  unfolding relocate_native_fun_index
  move_native p reloc index = relocate_native_fun_index p index native_fun_indexes reloc

  -- The inner `switch`. An `int` index goes back into a `size_t` or an `int64_t` widened.
  unfoldable pub relocate_native : Image → Relocation → Load Image
  unfolding move_native relocate_arg1 relocate_arg2 relocate_elem relocate_var widen
  relocate_native p reloc =
      let kind = reloc_kind reloc.type in
      let widened = λ (index : ℕ). (do i ← move_native p reloc (u32 index); ok (widen i)) in
      if kind == 6
      then relocate_arg1 p reloc.addr arg_type_imm (move_native p reloc)
      else if kind == 7
      then relocate_arg2 p reloc.addr arg_type_imm (move_native p reloc)
      else if kind == 8
      then relocate_elem p reloc.addr widened
      else if kind == 9
      then relocate_var p reloc.addr true widened
      else ok p

  -- One round of the loop.
  unfoldable pub relocate_one : Image → Relocation → Load Image
  unfolding move_fun move_var relocate_arg1 relocate_arg2 relocate_elem relocate_var relocate_native
  relocate_one p reloc =
      let kind = reloc_kind reloc.type in
      let wide = λ (index : ℕ). move_fun p reloc (widen index) in
      if kind == 0
      then relocate_arg1 p reloc.addr arg_type_imm wide
      else if kind == 1
      then relocate_arg2 p reloc.addr arg_type_imm wide
      else if kind == 2
      then relocate_arg1 p reloc.addr arg_type_gvar (move_var p reloc)
      else if kind == 3
      then relocate_arg2 p reloc.addr arg_type_gvar (move_var p reloc)
      else if kind == 4
      then relocate_elem p reloc.addr (move_fun p reloc)
      else if kind == 5
      then relocate_var p reloc.addr false (move_fun p reloc)
      else if has_flag p.flags flag_native_fun_symbols
      then relocate_native p reloc
      else reject

  unfoldable pub relocate_all : Image → List Relocation → Load Image
  unfolding relocate_one
  relocate_all p [] = ok p
  relocate_all p (r ∷ rs) = do q ← relocate_one p r; relocate_all q rs

  abbrev pub moved_entry : Image → ℕ
  moved_entry p =
      if has_flag p.flags flag_library
      then p.entry
      else u64 (u64 (p.entry + 2 ^ 64 - p.fun_offset) + fun_offset)

  unfoldable pub relocate : Image → Load Image
  unfolding relocate_all
  relocate p = do
    q ← relocate_all p p.relocs
    ok (record {
      program = record q.program { entry = moved_entry q };
      fun_offset = fun_offset;
      var_offset = var_offset;
    })
