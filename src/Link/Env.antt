-- ===== src/Link/Env.antt =====
-- vm/impl_env.hpp: the maps of `ImplEnvironment` from names to indexes, as association lists.
use letin.Common.{
  ℕ, Bool, true, false, ◌&&◌, List, [], ◌∷◌, Option, none, some, ◌==◌, if◌then◌else◌,
}

pub record Env : Type 0 where
  pub fun_indexes : List (List ℕ × ℕ)
  pub fun_symbols : List (ℕ × List ℕ)
  pub var_indexes : List (List ℕ × ℕ)
  pub native_fun_indexes : List (List ℕ × ℕ)

unfoldable pub same_name : List ℕ → List ℕ → Bool
same_name [] [] = true
same_name (x ∷ xs) (y ∷ ys) = x == y && same_name xs ys
same_name _ _ = false

-- `find(name)`
unfoldable pub find : List (List ℕ × ℕ) → List ℕ → Option ℕ
unfolding same_name
find [] name = none
find (e ∷ es) name = let later = find es name in if same_name e.0 name then some e.1 else later

is_key : ℕ → List (ℕ × List ℕ) → Bool
is_key i [] = false
is_key i (e ∷ es) = let later = is_key i es in if e.0 == i then true else later

-- `insert` into a `std::map`, which keeps an entry that is there.
unfoldable pub insert_symbol : ℕ → List ℕ → List (ℕ × List ℕ) → List (ℕ × List ℕ)
unfolding is_key
insert_symbol i name es = if is_key i es then es else (i, name) ∷ es

-- `none` is the result `false`.
unfoldable pub add_fun_index : List ℕ → ℕ → Env → Option Env
unfolding find insert_symbol
add_fun_index name i env = elim (find env.fun_indexes name) [
  | some k ↦ none
  | none ↦ some (record env {
    fun_indexes = (name, i) ∷ env.fun_indexes;
    fun_symbols = insert_symbol i name env.fun_symbols;
  })
]

unfoldable pub add_var_index : List ℕ → ℕ → Env → Option Env
unfolding find
add_var_index name i env = elim (find env.var_indexes name) [
  | some k ↦ none
  | none ↦ some (record env { var_indexes = (name, i) ∷ env.var_indexes })
]

unfoldable pub reset_without_native_fun_indexes : Env → Env
reset_without_native_fun_indexes env = record env {
  fun_indexes = [];
  fun_symbols = [];
  var_indexes = [];
}
