-- ===== src/Link/Symbols.antt =====
-- vm/impl_vm_base.cpp: the two loops of `ImplVirtualMachineBase::load` over the symbols of the programs.
-- Offsets are sums of 32-bit counts, which do not reach the width of a `size_t`.
use letin.Common.{
  ℕ, ◌+◌, Bool, true, false, List, [], ◌∷◌, ◌++◌, Option, none, some, leb, ◌==◌, if◌then◌else◌,
  length,
}
use letin.Link.Env.{Env, find, add_fun_index, add_var_index}
use letin.Loader.Format.{Symbol, symbol_type_fun, symbol_type_var, symbol_type_defined}
use letin.Relocate.Indexes.{Image}

pub data LoadingErrorCode : Type 0 where
  io : LoadingErrorCode
  format : LoadingErrorCode
  no_fun_sym : LoadingErrorCode
  fun_sym : LoadingErrorCode
  no_var_sym : LoadingErrorCode
  var_sym : LoadingErrorCode
  reloc : LoadingErrorCode
  entry : LoadingErrorCode
  no_reloc : LoadingErrorCode
  fun_index : LoadingErrorCode
  var_index : LoadingErrorCode
  alloc : LoadingErrorCode
  no_native_fun_sym : LoadingErrorCode

pub record LoadingError : Type 0 where
  pub pair_index : ℕ
  pub error : LoadingErrorCode
  pub symbol_name : List ℕ

-- The environment, the errors, and `is_success`.
pub record Linking : Type 0 where
  pub env : Env
  pub errors : List LoadingError
  pub is_success : Bool

abbrev pub error_at : ℕ → LoadingErrorCode → List ℕ → LoadingError
error_at i code name = record { pair_index = i; error = code; symbol_name = name }

unfoldable pub add_error : ℕ → LoadingErrorCode → List ℕ → Linking → Linking
add_error i code name l = record l {
  errors = l.errors ++ (error_at i code name ∷ []);
  is_success = false;
}

unfoldable pub or_error : ℕ → LoadingErrorCode → List ℕ → Linking → Option Env → Linking
unfolding add_error
or_error i code name l (some env) = record l { env = env }
or_error i code name l none = add_error i code name l

-- One symbol of program `i`, in the first loop.
unfoldable pub define_symbol : ℕ → ℕ → ℕ → Image → Symbol → Linking → Linking
unfolding add_error or_error add_fun_index add_var_index
define_symbol i fun_offset var_offset p s l =
    if s.type == symbol_type_fun + symbol_type_defined
    then (if leb (length p.funs) s.index
        then add_error i fun_index s.name l
        else or_error i fun_sym s.name l (add_fun_index s.name (fun_offset + s.index) l.env))
    else if s.type == symbol_type_var + symbol_type_defined
    then (if leb (length p.vars) s.index
        then add_error i var_index s.name l
        else or_error i var_sym s.name l (add_var_index s.name (var_offset + s.index) l.env))
    else l

unfoldable pub define_each : ℕ → ℕ → ℕ → Image → List Symbol → Linking → Linking
unfolding define_symbol
define_each i fo vo p [] l = l
define_each i fo vo p (s ∷ ss) l = define_each i fo vo p ss (define_symbol i fo vo p s l)

unfoldable pub define_symbols : ℕ → ℕ → ℕ → List Image → Linking → Linking
unfolding define_each
define_symbols i fo vo [] l = l
define_symbols i fo vo (p ∷ ps) l =
    define_symbols (i + 1) (fo + length p.funs) (vo + length p.vars) ps
      (define_each i fo vo p p.symbols l)

unfoldable pub known : Option ℕ → Bool
known none = false
known (some k) = true

-- One symbol of program `i`, in the second loop. The code compares find() and end() of two copies of the map,
-- for which the test stands whether the map has the name.
unfoldable pub check_symbol : ℕ → Symbol → Linking → Linking
unfolding find add_error known
check_symbol i s l =
    if s.type == symbol_type_fun
    then (if known (find l.env.fun_indexes s.name) then l else add_error i no_fun_sym s.name l)
    else if s.type == symbol_type_var
    then (if known (find l.env.var_indexes s.name) then l else add_error i no_var_sym s.name l)
    else l

unfoldable pub check_each : ℕ → List Symbol → Linking → Linking
unfolding check_symbol
check_each i [] l = l
check_each i (s ∷ ss) l = check_each i ss (check_symbol i s l)

unfoldable pub check_symbols : ℕ → List Image → Linking → Linking
unfolding check_each
check_symbols i [] l = l
check_symbols i (p ∷ ps) l = check_symbols (i + 1) ps (check_each i p.symbols l)
