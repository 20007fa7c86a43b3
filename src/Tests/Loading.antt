-- ===== src/Tests/Loading.antt =====
-- vm/impl_loader.cpp on a small file: one function, variable, instruction, tuple, relocation, symbol
-- and function info.
use letin.Common.{ℕ, ◌≡◌, ◌≢◌, refl, List, [], ◌∷◌, arith, All}
use letin.Loader.Bytes.{IsByte, big_endian, read_byte, read_bytes, read_word, read_words}
use letin.Loader.Sizes.{check_align, array_bytes, advance}
use letin.Loader.Sections.{read_funs, read_vars, read_code, read_fun_infos}
use letin.Loader.Data.{elem_size, read_tuple, read_elems, read_object, read_data}
use letin.Loader.Relocs.{is_reloc_type, reloc_symbols, read_relocs}
use letin.Loader.Symbols.{is_symbol_type, taken, read_symbols}
use letin.Loader.Program.Accepts.{IsProgram, load_safe, load-IsProgram}
use letin.Loader.Program.{
  Program, var_refs, load_header, load_funs, load_vars, load_code, load_data, load_relocs,
  load_fun_infos, load,
}
use letin.Loader.Result.{ok, fault, stuck, guard}
use letin.Loader.Format.{align, has_flag, is_value_type, is_symbolic, reloc_kind, symbol_kind}
use letin.Loader.Addrs.{contains, erase, is_empty}

abbrev pub sample : List ℕ
sample =
    51 ∷ 76 ∷ 69 ∷ 84 ∷ 119 ∷ 73 ∷ 78 ∷ 255 ∷ 0 ∷ 0 ∷ 0 ∷ 10 ∷ 0 ∷ 0 ∷ 0 ∷ 0 ∷ 0 ∷ 0 ∷ 0 ∷ 1 ∷ 0 ∷ 0
    ∷ 0 ∷ 1 ∷ 0 ∷ 0 ∷ 0 ∷ 1 ∷ 0 ∷ 0 ∷ 0 ∷ 17 ∷ 0 ∷ 0 ∷ 0 ∷ 1 ∷ 0 ∷ 0 ∷ 0 ∷ 1 ∷ 0 ∷ 0 ∷ 0 ∷ 1 ∷ 0 ∷ 0
    ∷ 0 ∷ 0 ∷ 0 ∷ 0 ∷ 0 ∷ 0 ∷ 0 ∷ 0 ∷ 0 ∷ 1 ∷ 0 ∷ 0 ∷ 0 ∷ 1 ∷ 0 ∷ 0 ∷ 0 ∷ 0 ∷ 0 ∷ 0 ∷ 0 ∷ 2 ∷ 0 ∷ 0
    ∷ 0 ∷ 0 ∷ 0 ∷ 0 ∷ 0 ∷ 0 ∷ 0 ∷ 0 ∷ 0 ∷ 0 ∷ 0 ∷ 2 ∷ 0 ∷ 2 ∷ 0 ∷ 0 ∷ 0 ∷ 0 ∷ 0 ∷ 0 ∷ 0 ∷ 0 ∷ 0 ∷ 0
    ∷ 0 ∷ 0 ∷ 0 ∷ 0 ∷ 0 ∷ 7 ∷ 0 ∷ 0 ∷ 0 ∷ 1 ∷ 0 ∷ 0 ∷ 0 ∷ 0 ∷ 0 ∷ 0 ∷ 0 ∷ 5 ∷ 0 ∷ 0 ∷ 0 ∷ 0 ∷ 0 ∷ 0
    ∷ 0 ∷ 0 ∷ 0 ∷ 0 ∷ 1 ∷ 0 ∷ 0 ∷ 0 ∷ 0 ∷ 0 ∷ 0 ∷ 0 ∷ 0 ∷ 0 ∷ 0 ∷ 0 ∷ 0 ∷ 0 ∷ 0 ∷ 0 ∷ 0 ∷ 0 ∷ 0 ∷ 1
    ∷ 16 ∷ 102 ∷ 0 ∷ 0 ∷ 0 ∷ 0 ∷ 2 ∷ 255 ∷ 0 ∷ 0 ∷ 0 ∷ 0 ∷ 0 ∷ 0 ∷ 0 ∷ 0 ∷ 0 ∷ 0 ∷ []

abbrev pub sample_program : Program
sample_program = record {
  flags = 10;
  entry = 0;
  funs = record { addr = 0; arg_count = 1; instr_count = 1 } ∷ [];
  vars = record { type = 2; i = 0 } ∷ [];
  code = record { opcode = 0x00020002; arg1 = 0; arg2 = 0 } ∷ [];
  data_size = 17;
  objects = record { addr = 0; type = 7; length = 1; elems = 5 ∷ []; elem_types = 0 ∷ [] } ∷ [];
  relocs = record { type = 256; addr = 0; symbol = 0 } ∷ [];
  symbols = record { index = 0; length = 1; type = 16; name = 102 ∷ [] } ∷ [];
  fun_infos = record { fun_index = 0; eval_strategy = 2; eval_strategy_mask = 255 } ∷ [];
}

sample_loads : load sample ≡ ok sample_program
unfolding load guard load_header load_funs load_vars load_code load_data load_relocs load_fun_infos
    read_byte read_bytes read_word read_words big_endian align array_bytes advance check_align
    read_funs read_vars read_code read_fun_infos is_value_type read_data read_object read_tuple
    read_elems elem_size erase contains is_empty read_relocs reloc_symbols is_reloc_type is_symbolic
    reloc_kind has_flag read_symbols is_symbol_type symbol_kind taken var_refs
sample_loads = refl

pub sample_bytes : All IsByte sample
sample_bytes = omega arith

load_safe_example : (load sample ≢ fault) × (load sample ≢ stuck)
load_safe_example = load_safe sample sample_bytes (omega arith)

load-IsProgram_example : IsProgram sample_program
load-IsProgram_example =
    load-IsProgram sample sample_program sample_bytes (omega arith) sample_loads

-- The same fact, for the other tests.
pub load-IsProgram_sample : IsProgram sample_program
load-IsProgram_sample = load-IsProgram sample sample_program sample_bytes (omega arith) sample_loads
