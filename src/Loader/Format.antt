-- ===== src/Loader/Format.antt =====
-- include/letin/format.hpp and the constants of include/letin/const.hpp that the loader tests: what
-- a file holds, with every word in host order. A signed word is its bit pattern.
use letin.Common.{ℕ, ◌+◌, ◌-◌, ◌*◌, ◌/◌, ◌%◌, ◌^◌, List, [], ◌∷◌, Bool, ◌||◌, not, bit_and, ◌==◌}

abbrev pub u32 : ℕ → ℕ
u32 x = x % 2 ^ 32

abbrev pub u64 : ℕ → ℕ
u64 x = x % 2 ^ 64

abbrev pub flag_library : ℕ
flag_library = 1

abbrev pub flag_relocatable : ℕ
flag_relocatable = 2

abbrev pub flag_native_fun_symbols : ℕ
flag_native_fun_symbols = 4

abbrev pub flag_fun_infos : ℕ
flag_fun_infos = 8

-- `(flags & flag) != 0`
unfoldable pub has_flag : ℕ → ℕ → Bool
has_flag flags flag = not (bit_and flags flag == 0)

abbrev pub header_magic : List ℕ
header_magic = 0x33 ∷ 0x4c ∷ 0x45 ∷ 0x54 ∷ 0x77 ∷ 0x49 ∷ 0x4e ∷ 0xff ∷ []

pub record Header : Type 0 where
  pub flags : ℕ
  pub entry : ℕ
  pub fun_count : ℕ
  pub var_count : ℕ
  pub code_size : ℕ
  pub data_size : ℕ
  pub reloc_count : ℕ
  pub symbol_count : ℕ

pub record Function : Type 0 where
  pub addr : ℕ
  pub arg_count : ℕ
  pub instr_count : ℕ

-- `i` is the union's 64-bit word: an integer, a float's pattern or an address.
pub record Value : Type 0 where
  pub type : ℕ
  pub i : ℕ

pub record Instruction : Type 0 where
  pub opcode : ℕ
  pub arg1 : ℕ
  pub arg2 : ℕ

-- An object of the data section, at `addr` in it: its elements' words, and a tuple's element types.
pub record Object : Type 0 where
  pub addr : ℕ
  pub type : ℕ
  pub length : ℕ
  pub elems : List ℕ
  pub elem_types : List ℕ

pub record Relocation : Type 0 where
  pub type : ℕ
  pub addr : ℕ
  pub symbol : ℕ

pub record Symbol : Type 0 where
  pub index : ℕ
  pub length : ℕ
  pub type : ℕ
  pub name : List ℕ

pub record FunctionInfo : Type 0 where
  pub fun_index : ℕ
  pub eval_strategy : ℕ
  pub eval_strategy_mask : ℕ

-- VALUE_TYPE_INT, VALUE_TYPE_FLOAT, VALUE_TYPE_REF
abbrev pub value_type_int : ℕ
value_type_int = 0

abbrev pub value_type_float : ℕ
value_type_float = 1

abbrev pub value_type_ref : ℕ
value_type_ref = 2

unfoldable pub is_value_type : ℕ → Bool
is_value_type t = t == value_type_int || t == value_type_float || t == value_type_ref

-- OBJECT_TYPE_IARRAY8, ...
abbrev pub object_type_iarray8 : ℕ
object_type_iarray8 = 0

abbrev pub object_type_iarray16 : ℕ
object_type_iarray16 = 1

abbrev pub object_type_iarray32 : ℕ
object_type_iarray32 = 2

abbrev pub object_type_iarray64 : ℕ
object_type_iarray64 = 3

abbrev pub object_type_sfarray : ℕ
object_type_sfarray = 4

abbrev pub object_type_dfarray : ℕ
object_type_dfarray = 5

abbrev pub object_type_rarray : ℕ
object_type_rarray = 6

abbrev pub object_type_tuple : ℕ
object_type_tuple = 7

-- RELOC_TYPE_SYMBOLIC, and `type & ~RELOC_TYPE_SYMBOLIC`
abbrev pub reloc_type_symbolic : ℕ
reloc_type_symbolic = 256

unfoldable pub is_symbolic : ℕ → Bool
is_symbolic t = not (bit_and t reloc_type_symbolic == 0)

unfoldable pub reloc_kind : ℕ → ℕ
reloc_kind t = bit_and t (2 ^ 32 - 1 - reloc_type_symbolic)

-- SYMBOL_TYPE_FUN, SYMBOL_TYPE_VAR, SYMBOL_TYPE_NATIVE_FUN, and `type & ~SYMBOL_TYPE_DEFINED`
abbrev pub symbol_type_fun : ℕ
symbol_type_fun = 0

abbrev pub symbol_type_var : ℕ
symbol_type_var = 1

abbrev pub symbol_type_native_fun : ℕ
symbol_type_native_fun = 2

abbrev pub symbol_type_defined : ℕ
symbol_type_defined = 16

unfoldable pub symbol_kind : ℕ → ℕ
symbol_kind t = bit_and t (255 - symbol_type_defined)

-- util.hpp: `align`, in `size_t`.
unfoldable pub align : ℕ → ℕ → ℕ
align x y = u64 (u64 (x + (y - 1)) / y * y)
