-- ===== src/Loader/Program.antt =====
-- vm/impl_loader.cpp: `ImplLoader::load` as a whole. A program holds the
-- contents of the sections in place of pointers to them.
pub mod Accepts
use letin.Common.{
  ℕ, ◌+◌, ◌%◌, ◌^◌, ◌≡◌, Bool, true, false, ◌&&◌, List, [], ◌∷◌, ◌==◌, leb, if◌then◌else◌, length,
}
use letin.Loader.Addrs.{is_empty}
use letin.Loader.Bytes.{read_bytes, read_word}
use letin.Loader.Data.{read_data}
use letin.Loader.Format.{
  Header, Function, Value, Instruction, Object, Relocation, Symbol, FunctionInfo, u32, align,
  has_flag, flag_relocatable, flag_fun_infos, header_magic, value_type_ref,
}
use letin.Loader.Relocs.{read_relocs, reloc_symbols}
use letin.Loader.Result.{Load, ok, guard, ◌>>=◌, ◌>>◌}
use letin.Loader.Sections.{read_funs, read_vars, read_code, read_fun_infos}
use letin.Loader.Sizes.{check_align, array_bytes, advance}
use letin.Loader.Symbols.{read_symbols}

pub record Program : Type 0 where
  pub flags : ℕ
  pub entry : ℕ
  pub funs : List Function
  pub vars : List Value
  pub code : List Instruction
  pub data_size : ℕ
  pub objects : List Object
  pub relocs : List Relocation
  pub symbols : List Symbol
  pub fun_infos : List FunctionInfo

bytes_equal : List ℕ → List ℕ → Bool
bytes_equal [] [] = true
bytes_equal (x ∷ xs) (y ∷ ys) = x == y && bytes_equal xs ys
bytes_equal _ _ = false

-- `var_addrs`: the addresses of the variables that are references, as `std::uint32_t`.
unfoldable pub var_refs : List Value → List ℕ
var_refs [] = []
var_refs (v ∷ vs) =
    let rest = var_refs vs in if v.type == value_type_ref then u32 v.i ∷ rest else rest

module _ (bs : List ℕ) where
  unfoldable pub load_header : Load Header
  unfolding bytes_equal
  load_header = do
    guard (leb (align 48 8) (length bs))
    magic ← read_bytes bs 0 8
    guard (bytes_equal magic header_magic)
    flags ← read_word bs 4 8
    entry ← read_word bs 4 12
    fun_count ← read_word bs 4 16
    var_count ← read_word bs 4 20
    code_size ← read_word bs 4 24
    data_size ← read_word bs 4 28
    reloc_count ← read_word bs 4 32
    symbol_count ← read_word bs 4 36
    ok (record {
      flags = flags;
      entry = entry;
      fun_count = fun_count;
      var_count = var_count;
      code_size = code_size;
      data_size = data_size;
      reloc_count = reloc_count;
      symbol_count = symbol_count;
    })

  -- The functions from `idx` on, and the offset behind them; so for the other sections.
  unfoldable pub load_funs : Header → ℕ → Load (List Function × ℕ)
  load_funs h idx = do
    n ← array_bytes 12 h.fun_count
    next ← advance (length bs) idx n
    funs ← read_funs bs h.code_size idx h.fun_count
    ok (funs, next)

  unfoldable pub load_vars : Header → ℕ → Load (List Value × ℕ)
  load_vars h idx = do
    n ← array_bytes 16 h.var_count
    next ← advance (length bs) idx n
    vars ← read_vars bs idx h.var_count
    ok (vars, next)

  unfoldable pub load_code : Header → ℕ → Load (List Instruction × ℕ)
  load_code h idx = do
    n ← array_bytes 12 h.code_size
    next ← advance (length bs) idx n
    code ← read_code bs idx h.code_size
    ok (code, next)

  -- Every address of a variable must be that of an object.
  unfoldable pub load_data : Header → List Value → ℕ → Load (List Object × ℕ)
  load_data h vars idx = do
    check_align h.data_size
    next ← advance (length bs) idx h.data_size
    (objects, left) ← read_data bs idx h.data_size h.data_size 0 (var_refs vars)
    guard (is_empty left)
    ok (objects, next)

  relocatable : Header → ℕ → Load (List Relocation × List Symbol × ℕ)
  relocatable h idx = do
    n ← array_bytes 12 h.reloc_count
    next ← advance (length bs) idx n
    relocs ← read_relocs bs h.flags idx h.reloc_count
    (symbols, left, end_idx) ←
        read_symbols bs (length bs) h.flags next h.symbol_count 0 0 next (reloc_symbols relocs)
    guard (leb end_idx (length bs))
    guard (is_empty left)
    ok (relocs, symbols, end_idx)

  unfoldable pub load_relocs : Header → ℕ → Load (List Relocation × List Symbol × ℕ)
  unfolding relocatable
  load_relocs h idx =
      if has_flag h.flags flag_relocatable then relocatable h idx else ok ([], [], idx)

  with_fun_infos : Header → ℕ → Load (List FunctionInfo)
  with_fun_infos h idx = do
    check_align idx
    let start = align idx 8
    fun_info_count ← read_word bs 4 40
    n ← array_bytes 12 fun_info_count
    end_idx ← advance (length bs) start n
    read_fun_infos bs h.fun_count start fun_info_count

  unfoldable pub load_fun_infos : Header → ℕ → Load (List FunctionInfo)
  unfolding with_fun_infos
  load_fun_infos h idx = if has_flag h.flags flag_fun_infos then with_fun_infos h idx else ok []

  unfoldable pub load : Load Program
  unfolding load_header load_funs load_vars load_code load_data load_relocs load_fun_infos
  load = do
    h ← load_header
    (funs, vars_idx) ← load_funs h (align 48 8)
    (vars, code_idx) ← load_vars h vars_idx
    (code, data_idx) ← load_code h code_idx
    (objects, relocs_idx) ← load_data h vars data_idx
    (relocs, symbols, end_idx) ← load_relocs h relocs_idx
    fun_infos ← load_fun_infos h end_idx
    ok (record {
      flags = h.flags;
      entry = h.entry;
      funs = funs;
      vars = vars;
      code = code;
      data_size = h.data_size;
      objects = objects;
      relocs = relocs;
      symbols = symbols;
      fun_infos = fun_infos;
    })
