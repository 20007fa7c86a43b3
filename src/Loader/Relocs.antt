-- ===== src/Loader/Relocs.antt =====
-- vm/impl_loader.cpp: the relocations, and the set of the symbols that they name.
use letin.Common.{
  ℕ, zero, suc, ◌+◌, ◌*◌, ◌≤◌, ◌≡◌, refl, ap, Bool, true, ◌||◌, ◌&&◌, List, [], ◌∷◌, ◌==◌,
  if◌then◌else◌, arith, length, All,
}
use letin.Loader.Bytes.{IsByte, read_word, read_word-Ensures}
use letin.Loader.Format.{Relocation, has_flag, flag_native_fun_symbols, is_symbolic, reloc_kind}
use letin.Loader.Result.{Load, ok, guard, ◌>>=◌, ◌>>◌, Ensures, gives, Ensures-bind, Ensures-guard}

-- RELOC_TYPE_ARG1_FUN, ..., RELOC_TYPE_VAR_FUN, symbolic or not.
unfoldable pub is_plain_reloc : ℕ → Bool
is_plain_reloc type =
    let kind = reloc_kind type in
    kind == 0 || kind == 1 || kind == 2 || kind == 3 || kind == 4 || kind == 5

-- RELOC_TYPE_ARG1_NATIVE_FUN, ..., RELOC_TYPE_VAR_NATIVE_FUN, symbolic.
unfoldable pub is_native_reloc : ℕ → Bool
is_native_reloc type = type == 262 || type == 263 || type == 264 || type == 265

unfoldable pub is_reloc_type : ℕ → ℕ → Bool
unfolding is_plain_reloc is_native_reloc
is_reloc_type flags type =
    is_plain_reloc type || (has_flag flags flag_native_fun_symbols && is_native_reloc type)

-- `reloc_symbol_idxs`
unfoldable pub reloc_symbols : List Relocation → List ℕ
reloc_symbols [] = []
reloc_symbols (r ∷ rs) =
    let rest = reloc_symbols rs in if is_symbolic r.type then r.symbol ∷ rest else rest

module _ (bs : List ℕ) where
  unfoldable pub read_relocs : ℕ → ℕ → ℕ → Load (List Relocation)
  read_relocs flags p zero = ok []
  read_relocs flags p (suc n) = do
    type ← read_word bs 4 p
    addr ← read_word bs 4 (p + 4)
    symbol ← read_word bs 4 (p + 8)
    guard (is_reloc_type flags type)
    relocs ← read_relocs flags (p + 12) n
    ok (record { type = type; addr = addr; symbol = symbol } ∷ relocs)

module _ (bs : List ℕ) (bytes : All IsByte bs) where
  pub read_relocs-Ensures :
      (flags p n : ℕ)
      → p + 12 * n ≤ length bs
      → Ensures
          (λ rs. (length rs ≡ n) × All (λ r. is_reloc_type flags r.type ≡ true) rs)
          (read_relocs bs flags p n)
  unfolding read_relocs
  read_relocs-Ensures flags p zero h = gives (refl, tt)
  read_relocs-Ensures flags p (suc n) h =
      Ensures-bind (read_word-Ensures bs bytes 4 p (omega arith)) λ t ht.
        Ensures-bind (read_word-Ensures bs bytes 4 (p + 4) (omega arith)) λ a ha.
          Ensures-bind (read_word-Ensures bs bytes 4 (p + 8) (omega arith)) λ s hs.
            Ensures-guard _ λ e.
              Ensures-bind (read_relocs-Ensures flags (p + 12) n (omega arith))
                λ rs hr. gives (ap suc hr.0, (e, hr.1))
