-- ===== src/Loader/Symbols.antt =====
-- vm/impl_loader.cpp: the loop over the symbols, which have no fixed size.
use letin.Common.{
  ℕ, zero, suc, ◌+◌, ◌^◌, ◌≤◌, ◌<◌, ◌≡◌, refl, ap, inl, inr, Bool, true, ◌||◌, ◌&&◌, List, [], ◌∷◌,
  bit_or, leb, leb→le, ltb, ◌==◌, arith, length, All, Bool-cases,
}
use letin.Loader.Addrs.{contains, erase, contains-erase}
use letin.Loader.Bytes.{
  IsByte, read_byte, read_bytes, read_word, read_byte-Ensures, read_bytes-Ensures,
  read_word-Ensures,
}
use letin.Loader.Format.{
  Symbol, u32, u64, align, has_flag, flag_native_fun_symbols, symbol_kind, symbol_type_fun,
  symbol_type_var, symbol_type_native_fun,
}
use letin.Loader.Result.{Load, ok, guard, ◌>>=◌, ◌>>◌, Ensures, gives, Ensures-bind, Ensures-guard}
use letin.Loader.Sizes.{check_align, add_exact64, align_exact}

unfoldable pub is_symbol_type : ℕ → ℕ → Bool
is_symbol_type flags type =
    (symbol_kind type == symbol_type_fun || symbol_kind type == symbol_type_var)
    || (has_flag flags flag_native_fun_symbols && type == symbol_type_native_fun)

-- The bytes that a symbol takes up; behind the last one there is no padding.
unfoldable pub taken : ℕ → ℕ → Load ℕ
unfolding check_align
taken zero symbol_size = ok symbol_size
taken (suc later) symbol_size = check_align symbol_size >> ok (align symbol_size 8)

module _ (bs : List ℕ) (size flags symbols : ℕ) where
  -- Symbol `j` at offset `i` of the symbols, with `n` left, the end of what is read, and the symbols
  -- of relocations that have not been met yet.
  unfoldable pub read_symbols : ℕ → ℕ → ℕ → ℕ → List ℕ → Load (List Symbol × List ℕ × ℕ)
  unfolding check_align taken
  read_symbols zero i j tmp_idx idxs = ok ([], idxs, tmp_idx)
  read_symbols (suc n) i j tmp_idx idxs = do
    guard (leb (u64 (tmp_idx + 7)) size)
    type ← read_byte bs (symbols + i + 6)
    guard (is_symbol_type flags type)
    index ← read_word bs 4 (symbols + i)
    length ← read_word bs 2 (symbols + i + 4)
    let symbol_size = u64 (7 + length)
    guard (leb (bit_or 7 length) symbol_size)
    used ← taken n symbol_size
    let tmp_idx2 = u64 (tmp_idx + used)
    guard (leb (bit_or tmp_idx used) tmp_idx2)
    guard (leb tmp_idx2 size)
    check_align symbol_size
    let next = u64 (i + align symbol_size 8)
    guard (leb (bit_or i (align symbol_size 8)) next)
    name ← read_bytes bs (symbols + i + 7) length
    (rest, left, end_idx) ← read_symbols n next (j + 1) tmp_idx2 (erase (u32 j) idxs)
    ok (record { index = index; length = length; type = type; name = name } ∷ rest, left, end_idx)

abbrev pub IsSymbol : ℕ → Symbol → Type 0
IsSymbol flags s = (is_symbol_type flags s.type ≡ true) × (length s.name ≡ s.length)

-- A symbol index that is still looked for is left over, or is the number of a later symbol.
found_later :
    (j n x : ℕ) (idxs left : List ℕ)
    → j < 2 ^ 32
    → contains idxs x ≡ true
    → (contains (erase (u32 j) idxs) x ≡ true
        → (contains left x || (leb (j + 1) x && ltb x (j + 1 + n))) ≡ true)
    → (contains left x || (leb j x && ltb x (j + suc n))) ≡ true
found_later j n x idxs left lt h later = elim (Bool-cases (x == u32 j)) [
  | inl y ↦ ground (arith, y)
  | inr other ↦ let p = later (contains-erase (u32 j) x idxs h other) in ground (arith, p)
]

taken-Ensures :
    (n full : ℕ)
    → full < 2 ^ 20
    → Ensures (λ u. (full ≤ u) × (u ≤ full + 7) × (0 < n → u ≡ align full 8)) (taken n full)
unfolding taken check_align
taken-Ensures zero full h = gives (omega arith)
taken-Ensures (suc n) full h = Ensures-guard _ λ e.
    let (above, close, mult) = align_exact full (omega arith) e in gives (above, close, λ _. refl)

module _ (bs : List ℕ) (bytes : All IsByte bs) (size flags symbols : ℕ) (whole : size ≡ length bs)
    (small : size < 2 ^ 63) where
  pub read_symbols-Ensures :
      (n i j tmp_idx : ℕ) (idxs : List ℕ)
      → (0 < n → symbols + i ≡ tmp_idx)
      → tmp_idx ≤ size
      → j + n ≤ 2 ^ 32
      → Ensures
          (λ r.
            (length r.0 ≡ n)
            × All (IsSymbol flags) r.0
            × ((x : ℕ)
                → contains idxs x ≡ true
                → (contains r.1 x || (leb j x && ltb x (j + n))) ≡ true)
            × (tmp_idx ≤ r.2)
            × (r.2 ≤ size))
          (read_symbols bs size flags symbols n i j tmp_idx idxs)
  unfolding read_symbols check_align
  read_symbols-Ensures zero i j tmp_idx idxs inv le lt =
      gives (refl, tt, (λ x h. ground (arith, h)), omega arith, le)
  read_symbols-Ensures (suc n) i j tmp_idx idxs inv le lt =
      let at : symbols + i ≡ tmp_idx = inv (omega arith) in
      Ensures-guard _ λ e1.
        let room : tmp_idx + 7 ≤ size = ground (arith, e1) in
        Ensures-bind (read_byte-Ensures bs bytes (symbols + i + 6) (omega arith)) λ type ht.
          Ensures-guard _ λ e2.
            Ensures-bind (read_word-Ensures bs bytes 4 (symbols + i) (omega arith)) λ index hi.
              Ensures-bind (read_word-Ensures bs bytes 2 (symbols + i + 4) (omega arith)) λ len hl.
                Ensures-guard _ λ e3.
                  let full : u64 (7 + len) ≡ 7 + len = omega arith in
                  Ensures-bind (taken-Ensures n (u64 (7 + len)) (omega arith)) λ used hu.
                    Ensures-guard _ λ e4. Ensures-guard _ λ e5. Ensures-guard _ λ e6.
                      Ensures-guard _ λ e7.
                        let moved = add_exact64 tmp_idx used (omega arith) (omega arith) e4 in
                        let within = leb→le _ _ e5 in
                        let (above, close, mult) = align_exact (u64 (7 + len)) (omega arith) e6 in
                        let next =
                          add_exact64 i (align (u64 (7 + len)) 8) (omega arith) (omega arith) e7 in
                        Ensures-bind
                          (read_bytes-Ensures bs bytes (symbols + i + 7) len (omega arith))
                          λ name hn.
                            Ensures-bind
                              (read_symbols-Ensures n (u64 (i + align (u64 (7 + len)) 8)) (j + 1)
                                (u64 (tmp_idx + used)) (erase (u32 j) idxs)
                                (λ pos. omega (arith, hu.2 pos)) (omega arith) (omega arith))
                              λ r hr. gives (
                                ap suc hr.0,
                                ((e2, hn.0), hr.1),
                                (λ x h. found_later j n x idxs r.1 (omega arith) h (hr.2 x)),
                                omega arith,
                                hr.4,
                              )
