-- ===== src/Loader/Program/Accepts.antt =====
-- vm/impl_loader.cpp: `ImplLoader::load` reads only inside the buffer and ends, whatever the bytes
-- are, and a program that it accepts is well formed.
use letin.Common.{
  ℕ, ◌%◌, ◌^◌, ◌≤◌, ◌<◌, ◌≡◌, ◌≢◌, refl, subst, inl, inr, true, List, [], ◌∷◌, map, leb→le, arith,
  length, All, Bool-cases,
}
use letin.Loader.Addrs.{contains, contains-is_empty}
use letin.Loader.Bytes.{IsByte, read_bytes-Ensures, read_word-Ensures}
use letin.Loader.Data.Layout.{IsLaidOut, read_data-Ensures}
use letin.Loader.Format.{
  Header, Value, Object, Relocation, Symbol, u32, align, has_flag, flag_relocatable, flag_fun_infos,
  is_symbolic, value_type_ref,
}
use letin.Loader.Program.{
  Program, var_refs, load_header, load_funs, load_vars, load_code, load_data, load_relocs,
  load_fun_infos, load,
}
use letin.Loader.Relocs.{is_reloc_type, reloc_symbols, read_relocs-Ensures}
use letin.Loader.Result.{
  Load, ok, fault, stuck, Ensures, gives, rejects, Ensures-bind, Ensures-guard, Ensures-ok,
  Ensures-map,
}
use letin.Loader.Sections.{
  IsFunction, IsValue, read_funs-Ensures, read_vars-Ensures, read_code-Ensures,
  read_fun_infos-Ensures,
}
use letin.Loader.Sizes.{check_align, array_bytes-Ensures, advance-Ensures, IsSize, align_exact}
use letin.Loader.Symbols.{IsSymbol, read_symbols-Ensures}

-- The lower half of a variable that is a reference is the address of an object.
abbrev pub Points : List Object → Value → Type 0
Points objects v = v.type ≡ value_type_ref → contains (map (λ o. o.addr) objects) (u32 v.i) ≡ true

-- A symbolic relocation names a symbol.
abbrev pub Names : List Symbol → Relocation → Type 0
Names symbols r = is_symbolic r.type ≡ true → r.symbol < length symbols

pub record IsProgram (p : Program) : Type 0 where
  pub funs : All (IsFunction (length p.code)) p.funs
  pub vars : All IsValue p.vars
  pub points : All (Points p.objects) p.vars
  pub objects : IsLaidOut p.data_size 0 p.objects
  pub relocs : All (λ r. is_reloc_type p.flags r.type ≡ true) p.relocs
  pub names : All (Names p.symbols) p.relocs
  pub symbols : All (IsSymbol p.flags) p.symbols
  pub fun_infos : All (λ i. i.fun_index < length p.funs) p.fun_infos

Points-of :
    (vs : List Value) (objects : List Object)
    → ((x : ℕ) → contains (var_refs vs) x ≡ true → contains (map (λ o. o.addr) objects) x ≡ true)
    → All (Points objects) vs
unfolding var_refs contains
Points-of [] objects h = tt
Points-of (v ∷ vs) objects h =
    (λ e. h (u32 v.i) (ground (arith, e)), Points-of vs objects (λ x hx. h x (ground (arith, hx))))

Names-of :
    (rs : List Relocation) (symbols : List Symbol)
    → ((x : ℕ) → contains (reloc_symbols rs) x ≡ true → x < length symbols)
    → All (Names symbols) rs
unfolding reloc_symbols contains
Names-of [] symbols h = tt
Names-of (r ∷ rs) symbols h =
    (λ e. h r.symbol (ground (arith, e)), Names-of rs symbols (λ x hx. h x (ground (arith, hx))))

record IsHeader (h : Header) : Type 0 where
  funs : h.fun_count < 2 ^ 32
  vars : h.var_count < 2 ^ 32
  code : h.code_size < 2 ^ 32
  bytes : h.data_size < 2 ^ 32
  relocs : h.reloc_count < 2 ^ 32
  symbols : h.symbol_count < 2 ^ 32

module _ (bs : List ℕ) (bytes : All IsByte bs) (small : length bs < 2 ^ 63) where
  load_header-Ensures : Ensures (λ h. IsHeader h × (48 ≤ length bs)) (load_header bs)
  unfolding load_header align
  load_header-Ensures = Ensures-guard _ λ e.
      let room : 48 ≤ length bs = leb→le _ _ e in
      let word = λ (p : ℕ) (le : p ≤ 44). read_word-Ensures bs bytes 4 p (omega arith) in
      Ensures-bind (read_bytes-Ensures bs bytes 0 8 (omega arith)) λ magic hm. Ensures-guard _ λ e2.
        Ensures-bind (word 8 (omega arith)) λ a ha. Ensures-bind (word 12 (omega arith)) λ b hb.
          Ensures-bind (word 16 (omega arith)) λ c hc. Ensures-bind (word 20 (omega arith)) λ d hd.
            Ensures-bind (word 24 (omega arith)) λ i hi.
              Ensures-bind (word 28 (omega arith)) λ j hj.
                Ensures-bind (word 32 (omega arith)) λ k hk.
                  Ensures-bind (word 36 (omega arith)) λ l hl. gives (
                    record {
                      funs = hc;
                      vars = hd;
                      code = hi;
                      bytes = hj;
                      relocs = hk;
                      symbols = hl;
                    },
                    room,
                  )

  -- Where a section ends: aligned, in the buffer.
  IsEnd : ℕ → Type 0
  IsEnd idx = (idx % 8 ≡ 0) × (idx ≤ length bs)

  load_funs-Ensures :
      (h : Header) (idx : ℕ)
      → IsEnd idx
      → Ensures
          (λ r. (length r.0 ≡ h.fun_count) × All (IsFunction h.code_size) r.0 × IsEnd r.1)
          (load_funs bs h idx)
  unfolding load_funs IsEnd
  load_funs-Ensures h idx at =
      Ensures-bind (array_bytes-Ensures 12 h.fun_count (omega arith)) λ n hn.
        Ensures-bind (advance-Ensures (length bs) idx n _ (omega arith) (omega arith) at.0 hn)
          λ next hx.
            Ensures-bind (read_funs-Ensures bs bytes h.code_size idx h.fun_count (omega arith))
              λ fs hf. gives (hf.0, hf.1, (hx.0, hx.3))

  load_vars-Ensures :
      (h : Header) (idx : ℕ)
      → IsEnd idx
      → Ensures (λ r. All IsValue r.0 × IsEnd r.1) (load_vars bs h idx)
  unfolding load_vars IsEnd
  load_vars-Ensures h idx at =
      Ensures-bind (array_bytes-Ensures 16 h.var_count (omega arith)) λ n hn.
        Ensures-bind (advance-Ensures (length bs) idx n _ (omega arith) (omega arith) at.0 hn)
          λ next hx.
            Ensures-bind (read_vars-Ensures bs bytes idx h.var_count (omega arith))
              λ vs hv. gives (hv.1, (hx.0, hx.3))

  load_code-Ensures :
      (h : Header) (idx : ℕ)
      → IsEnd idx
      → Ensures (λ r. (length r.0 ≡ h.code_size) × IsEnd r.1) (load_code bs h idx)
  unfolding load_code IsEnd
  load_code-Ensures h idx at =
      Ensures-bind (array_bytes-Ensures 12 h.code_size (omega arith)) λ n hn.
        Ensures-bind (advance-Ensures (length bs) idx n _ (omega arith) (omega arith) at.0 hn)
          λ next hx.
            Ensures-bind (read_code-Ensures bs bytes idx h.code_size (omega arith))
              λ is hi. gives (hi, (hx.0, hx.3))

  load_data-Ensures :
      (h : Header) (vars : List Value) (idx : ℕ)
      → h.data_size < 2 ^ 32
      → IsEnd idx
      → Ensures
          (λ r. IsLaidOut h.data_size 0 r.0 × All (Points r.0) vars × IsEnd r.1)
          (load_data bs h vars idx)
  unfolding load_data IsEnd check_align
  load_data-Ensures h vars idx lt at = Ensures-guard _ λ e.
      let sized : IsSize h.data_size h.data_size = record {
        exact = refl;
        lt = omega arith;
        aligned = e;
      } in
      Ensures-bind
        (advance-Ensures (length bs) idx h.data_size _ (omega arith) (omega arith) at.0 sized)
        λ next hx.
          Ensures-bind
            (read_data-Ensures bs bytes idx h.data_size lt (λ i below al. omega arith) (omega arith)
              h.data_size 0 (var_refs vars) (omega arith) refl)
            λ r hr. Ensures-guard _ λ none_left. gives (
              hr.0,
              Points-of vars r.0
                  (λ x hc. ground (arith, hr.1 x hc, contains-is_empty r.1 x none_left)),
              (hx.0, hx.3),
            )

  load_relocs-Ensures :
      (h : Header) (idx : ℕ)
      → h.symbol_count < 2 ^ 32
      → IsEnd idx
      → Ensures
          (λ r.
            All (λ l. is_reloc_type h.flags l.type ≡ true) r.0
            × All (Names r.1) r.0
            × All (IsSymbol h.flags) r.1
            × (r.2 ≤ length bs))
          (load_relocs bs h idx)
  unfolding load_relocs IsEnd
  load_relocs-Ensures h idx lt at = elim (Bool-cases (has_flag h.flags flag_relocatable)) [
    | inr y ↦ rw y (gives (tt, tt, tt, at.1))
    | inl y ↦ rw y (
        Ensures-bind (array_bytes-Ensures 12 h.reloc_count (omega arith)) λ n hn.
          Ensures-bind (advance-Ensures (length bs) idx n _ (omega arith) (omega arith) at.0 hn)
            λ next hx.
              Ensures-bind (read_relocs-Ensures bs bytes h.flags idx h.reloc_count (omega arith))
                λ rs hr.
                  Ensures-bind
                    (read_symbols-Ensures bs bytes (length bs) h.flags next refl small
                      h.symbol_count 0 0 next (reloc_symbols rs) (λ _. omega arith) (omega arith)
                      (omega arith))
                    λ s hs. Ensures-guard _ λ inside. Ensures-guard _ λ none_left. gives (
                      hr.1,
                      Names-of rs s.0 (λ x hc.
                          ground (arith, hs.2 x hc, contains-is_empty s.1 x none_left, hs.0)),
                      hs.1,
                      hs.4,
                    ))
  ]

  load_fun_infos-Ensures :
      (h : Header) (idx : ℕ)
      → 48 ≤ length bs
      → idx ≤ length bs
      → Ensures (λ is. All (λ i. i.fun_index < h.fun_count) is) (load_fun_infos bs h idx)
  unfolding load_fun_infos check_align
  load_fun_infos-Ensures h idx room at = elim (Bool-cases (has_flag h.flags flag_fun_infos)) [
    | inr y ↦ rw y (gives tt)
    | inl y ↦ rw y (
        Ensures-guard _ λ e.
          let (above, close, mult) = align_exact idx (omega arith) e in
          Ensures-bind (read_word-Ensures bs bytes 4 40 (omega arith)) λ count hc.
            Ensures-bind (array_bytes-Ensures 12 count (omega arith)) λ n hn.
              Ensures-bind
                (advance-Ensures (length bs) (align idx 8) n _ (omega arith) (omega arith) mult hn)
                λ next hx.
                  Ensures-map
                    (read_fun_infos-Ensures bs bytes h.fun_count (align idx 8) count (omega arith))
                    λ is hi. hi.1)
  ]

  pub load-Ensures : Ensures IsProgram (load bs)
  unfolding load IsEnd align
  load-Ensures = Ensures-bind load_header-Ensures λ h hh.
      Ensures-bind (load_funs-Ensures h 48 (refl, hh.1)) λ f hf.
        Ensures-bind (load_vars-Ensures h f.1 hf.2) λ v hv.
          Ensures-bind (load_code-Ensures h v.1 hv.1) λ c hc.
            Ensures-bind (load_data-Ensures h v.0 c.1 hh.0.bytes hc.1) λ d hd.
              Ensures-bind (load_relocs-Ensures h d.1 hh.0.symbols hd.2) λ r hr.
                Ensures-bind (load_fun_infos-Ensures h r.2 hh.1 hr.3) λ is hi. gives (record {
                  funs = rw hc.0 hf.1;
                  vars = hv.0;
                  points = hd.1;
                  objects = hd.0;
                  relocs = hr.0;
                  names = hr.1;
                  symbols = hr.2;
                  fun_infos = rw hf.0 hi;
                })

Ensures-ne-fault {ℓ κ} : {A : Type ℓ} (P : A → Type κ) {m : Load A} → Ensures P m → m ≢ fault
Ensures-ne-fault P (gives h) = λ e. cc
Ensures-ne-fault P rejects = λ e. cc

Ensures-ne-stuck {ℓ κ} : {A : Type ℓ} (P : A → Type κ) {m : Load A} → Ensures P m → m ≢ stuck
Ensures-ne-stuck P (gives h) = λ e. cc
Ensures-ne-stuck P rejects = λ e. cc

-- Loading any buffer of less than 2^63 bytes ends, in a program or in a rejection: it never reads outside
-- the buffer, and the loop over the data section ends.
pub load_safe :
    (bs : List ℕ) → All IsByte bs → length bs < 2 ^ 63 → (load bs ≢ fault) × (load bs ≢ stuck)
load_safe bs bytes small =
    let h = load-Ensures bs bytes small in
    (Ensures-ne-fault IsProgram h, Ensures-ne-stuck IsProgram h)

-- A program that the loader accepts, from a buffer of less than 2^63 bytes, is well formed: the code of
-- each function lies in the code section; a variable is an integer, a float or a reference, and the low 32
-- bits of a reference are the address of an object; the objects have known types, lie in the data section
-- one behind the other at multiples of 8, and a tuple's element types are those of values; relocations and
-- symbols have types that the flags allow, a symbolic relocation names a symbol, and a function info names
-- a function.
pub load-IsProgram :
    (bs : List ℕ) (p : Program) → All IsByte bs → length bs < 2 ^ 63 → load bs ≡ ok p → IsProgram p
load-IsProgram bs p bytes small e =
    Ensures-ok (subst (Ensures IsProgram) e (load-Ensures bs bytes small))
