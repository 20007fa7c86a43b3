-- ===== src/Relocate/Indexes.antt =====
-- vm/vm.cpp: `Program::relocate_index` and `Program::relocate_native_fun_index`.
use letin.Common.{
  ℕ, ◌+◌, ◌-◌, ◌^◌, List, Option, none, some, ltb, leb, ◌==◌, if◌then◌else◌, get_elem?,
}
use letin.Loader.Format.{
  Relocation, u64, is_symbolic, symbol_kind, symbol_type_fun, symbol_type_native_fun,
}
use letin.Loader.Program.{Program}
use letin.Loader.Result.{Load, ok, reject, fault, guard, ◌>>=◌, ◌>>◌}

-- A program and the offsets that it has been relocated to.
pub record Image : Type 0 where
  pub program : Program
  pub open program use *
  pub fun_offset : ℕ
  pub var_offset : ℕ

-- `int32_t` to `size_t`
unfoldable pub widen : ℕ → ℕ
widen x = if ltb x (2 ^ 31) then x else x + 2 ^ 64 - 2 ^ 32

-- `if(iter == indexes.end()) return false;`
unfoldable pub found {ℓ} : {A : Type ℓ} → Option A → Load A
found none = reject
found (some a) = ok a

-- An element of an array, which must be there.
unfoldable pub at {ℓ} : {A : Type ℓ} → List A → ℕ → Load A
at xs i = elim (get_elem? xs i) [ none ↦ fault | some a ↦ ok a ]

-- The indexes of the names.
abbrev pub Indexes : Type 0
Indexes = List ℕ → Option ℕ

unfoldable pub symbolic_index : Image → Indexes → Relocation → ℕ → Load ℕ
unfolding found at
symbolic_index p indexes reloc symbol_type = do
  symbol ← at p.symbols reloc.symbol
  guard (symbol_kind symbol.type == symbol_type)
  index ← found (indexes symbol.name)
  guard (leb index (2 ^ 32 - 1))
  ok index

unfoldable pub shifted_index : Image → ℕ → ℕ → ℕ → Load ℕ
shifted_index p index offset symbol_type = do
  let old_offset = if symbol_type == symbol_type_fun then p.fun_offset else p.var_offset
  let tmp_index = u64 (u64 (index + 2 ^ 64 - old_offset) + offset)
  guard (leb tmp_index (2 ^ 32 - 1))
  ok tmp_index

unfoldable pub relocate_index : Image → ℕ → ℕ → Indexes → Relocation → ℕ → Load ℕ
unfolding symbolic_index shifted_index
relocate_index p index offset indexes reloc symbol_type =
    if is_symbolic reloc.type
    then symbolic_index p indexes reloc symbol_type
    else shifted_index p index offset symbol_type

unfoldable pub native_index : Image → Indexes → Relocation → Load ℕ
unfolding found at
native_index p indexes reloc = do
  symbol ← at p.symbols reloc.symbol
  guard (symbol.type == symbol_type_native_fun)
  found (indexes symbol.name)

-- The index is an `int`, as its pattern.
unfoldable pub relocate_native_fun_index : Image → ℕ → Indexes → Relocation → Load ℕ
unfolding native_index
relocate_native_fun_index p index indexes reloc =
    if is_symbolic reloc.type then native_index p indexes reloc else ok index
