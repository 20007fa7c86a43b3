-- ===== src/Link/Safe.antt =====
-- vm/impl_vm_base.cpp: linking any files ends, reads nothing outside them, and gives well-formed
-- programs.
use letin.Common.{
  ℕ, ◌+◌, ◌^◌, ◌<◌, Bool, true, false, List, [], ◌∷◌, ◌++◌, Option, none, some, ltb, if◌then◌else◌,
  length, All,
}
use letin.Link.Env.{Env}
use letin.Link.Programs.{
  recover, Gathered, add_prog, gathered, gather, kept, relocate_progs, give_up, give_up_or,
  relocated, link_symbols, link_all, link,
}
use letin.Link.Symbols.{Linking, define_symbols, check_symbols}
use letin.Loader.Bytes.{IsByte}
use letin.Loader.Format.{has_flag, flag_relocatable}
use letin.Loader.Program.{Program}
use letin.Loader.Program.Accepts.{IsProgram, load-Ensures}
use letin.Loader.Result.{Load, Ensures, gives, rejects, Ensures-bind}
use letin.Relocate.Indexes.{Image}
use letin.Relocate.Whole.{relocate-IsProgram, Ensures-if}

abbrev IfSome {ℓ κ} : {A : Type ℓ} → (A → Type κ) → Option A → Type κ
IfSome P none = Unit
IfSome P (some a) = P a

recover-Ensures :
    {A : Type 0} {P : A → Type 0} {m : Load A} → Ensures P m → Ensures (IfSome P) (recover m)
unfolding recover
recover-Ensures (gives h) = gives h
recover-Ensures rejects = gives tt

All-append {ℓ κ} :
    {A : Type ℓ} (P : A → Type κ) (xs : List A) (a : A) → All P xs → P a → All P (xs ++ (a ∷ []))
All-append P [] a h p = (p, tt)
All-append P (x ∷ xs) a h p = (h.0, All-append P xs a h.1 p)

-- A file: bytes, fewer than 2^63.
abbrev pub IsFile : List ℕ → Type 0
IsFile bs = All IsByte bs × (length bs < 2 ^ 63)

abbrev pub AreImages : List Image → Type 0
AreImages ps = All (λ p. IsProgram p.program) ps

AreImages-if :
    (b : Bool) (g h : Gathered)
    → AreImages g.progs
    → AreImages h.progs
    → AreImages (if b then g else h).progs
AreImages-if true g h p q = p
AreImages-if false g h p q = q

gathered-AreImages :
    (i size : ℕ) (o : Option Program) (g : Gathered)
    → IfSome IsProgram o
    → AreImages g.progs
    → AreImages (gathered i size o g).progs
unfolding gathered add_prog
gathered-AreImages i size none g h ps = ps
gathered-AreImages i size (some p) g h ps =
    let more = All-append (λ q. IsProgram q.program) g.progs _ ps h in
    AreImages-if (has_flag p.flags flag_relocatable) _ _ more
      (AreImages-if (ltb 1 size) _ _ ps more)

gather-Ensures :
    (i size : ℕ) (files : List (List ℕ)) (g : Gathered)
    → All IsFile files
    → AreImages g.progs
    → Ensures (λ g. AreImages g.progs) (gather i size files g)
unfolding gather
gather-Ensures i size [] g h ps = gives ps
gather-Ensures i size (bs ∷ files) g h ps =
    Ensures-bind (recover-Ensures (load-Ensures bs h.0.0 h.0.1)) λ o ho.
      gather-Ensures (i + 1) size files (gathered i size o g) h.1
        (gathered-AreImages i size o g ho ps)

kept-IsProgram :
    (p : Image) (o : Option Image)
    → IsProgram p.program
    → IfSome (λ q. IsProgram q.program) o
    → IsProgram (kept p o).program
unfolding kept
kept-IsProgram p none h k = h
kept-IsProgram p (some q) h k = k

relocate_progs-Ensures :
    (i fo vo : ℕ) (ps : List Image) (l : Linking)
    → AreImages ps
    → Ensures (λ r. AreImages r.0) (relocate_progs i fo vo ps l)
unfolding relocate_progs
relocate_progs-Ensures i fo vo [] l h = gives tt
relocate_progs-Ensures i fo vo (p ∷ ps) l h =
    Ensures-bind (recover-Ensures (relocate-IsProgram p fo vo _ _ _ h.0)) λ o ho.
      Ensures-bind (relocate_progs-Ensures (i + 1) _ _ ps _ h.1)
        λ r hr. gives (kept-IsProgram p o h.0 ho, hr)

abbrev Links : List Image × Linking → Type 0
Links r = AreImages r.0

give_up-Ensures : (l : Linking) → Ensures Links (give_up l)
unfolding give_up
give_up-Ensures l = gives tt

give_up_or-Ensures :
    (l : Linking) (k : Load (List Image × Linking))
    → Ensures Links k
    → Ensures Links (give_up_or l k)
unfolding give_up_or
give_up_or-Ensures l k h = Ensures-if l.is_success h (give_up-Ensures l)

relocated-Ensures : (r : List Image × Linking) → Links r → Ensures Links (relocated r)
unfolding relocated
relocated-Ensures r h = Ensures-if r.1.is_success (gives h) (give_up-Ensures r.1)

link_symbols-Ensures :
    (ps : List Image) (l : Linking) → AreImages ps → Ensures Links (link_symbols ps l)
unfolding link_symbols
link_symbols-Ensures ps l h =
    let defined = define_symbols 0 0 0 ps l in
    let checked = check_symbols 0 ps defined in
    give_up_or-Ensures defined _ (
      give_up_or-Ensures checked _
        (Ensures-bind (relocate_progs-Ensures 0 0 0 ps checked h) λ r hr. relocated-Ensures r hr))

-- Linking any files of fewer than 2^63 bytes each, from any environment, ends, and the programs that
-- it gives are well formed. No file is read outside its bytes, and no relocation goes outside its
-- program.
link-AreImages :
    (env : Env) (files : List (List ℕ))
    → All IsFile files
    → Ensures (λ r. AreImages r.0) (link env files)
unfolding link link_all
link-AreImages env files h = Ensures-bind (gather-Ensures 0 (length files) files _ h tt) λ g hg.
    give_up_or-Ensures g.linking _
      (Ensures-if g.is_relocable (link_symbols-Ensures g.progs g.linking hg) (gives hg))
