-- ===== src/Link/Resolved.antt =====
-- vm/impl_vm_base.cpp: what holds of the symbols once the programs are linked.
use letin.Common.{
  ℕ, ◌+◌, ◌≡◌, refl, sym, ap, subst, ◌∙◌, inl, inr, true, false, List, [], ◌∷◌, Option, none, some,
  length, Bool-cases,
}
use letin.Link.Env.{find}
use letin.Link.Symbols.{Linking, add_error, define_symbols, check_symbols}
use letin.Link.Programs.{
  recover, noted, kept, relocate_progs, give_up, give_up_or, relocated, link_symbols,
}
use letin.Loader.Result.{Load, ok, reject, fault, stuck, ◌>>=◌}
use letin.Relocate.Indexes.{Image}
use letin.Relocate.Steps.{relocate}
use letin.Link.Names.{Grows}
use letin.Link.Loops.{AreDefined, AreKnown, symbols_resolved}

bind_ok :
    {A B : Type 0} (m : Load A) (f : A → Load B) (b : B)
    → (m >>= f) ≡ ok b
    → (a : A) × (m ≡ ok a) × (f a ≡ ok b)
bind_ok (ok a) f b e = (a, refl, e)
bind_ok reject f b e = absurd cc
bind_ok fault f b e = absurd cc
bind_ok stuck f b e = absurd cc

ok_injective : {A : Type 0} {a b : A} → ◌≡◌ {A = Load A} (ok a) (ok b) → a ≡ b
ok_injective e = cc

noted-env : (i : ℕ) (o : Option Image) (l : Linking) → (noted i o l).env ≡ l.env
unfolding noted add_error
noted-env i none l = refl
noted-env i (some q) l = refl

-- Relocation changes no index.
relocate_progs-env :
    (i fo vo : ℕ) (ps : List Image) (l : Linking) (r : List Image × Linking)
    → relocate_progs i fo vo ps l ≡ ok r
    → r.1.env ≡ l.env
unfolding relocate_progs
relocate_progs-env i fo vo [] l r e = ap (λ x. x.1.env) (sym (ok_injective e))
relocate_progs-env i fo vo (p ∷ ps) l r e =
    let moved = recover (
      relocate fo vo (find l.env.fun_indexes) (find l.env.var_indexes)
        (find l.env.native_fun_indexes) p) in
    let others = λ (o : Option Image).
      relocate_progs (i + 1) (fo + length p.funs) (vo + length p.vars) ps (noted i o l) in
    let first : Option Image → List Image × Linking → Load (List Image × Linking) =
      λ o q. ok (kept p o ∷ q.0, q.1) in
    let (o, e0, e1) = bind_ok moved (λ x. others x >>= first x) r e in
    let (q, e2, e3) = bind_ok (others o) (first o) r e1 in
    let last : r ≡ (kept p o ∷ q.0, q.1) = sym (ok_injective e3) in
    ap (λ x. x.1.env) last
    ∙ relocate_progs-env (i + 1) (fo + length p.funs) (vo + length p.vars) ps (noted i o l) q e2
    ∙ noted-env i o l

give_up_or_lem :
    (l : Linking) (k : Load (List Image × Linking)) (r : List Image × Linking)
    → r.1.is_success ≡ true
    → give_up_or l k ≡ ok r
    → (l.is_success ≡ true) × (k ≡ ok r)
unfolding give_up_or give_up
give_up_or_lem l k r ok_r = elim (Bool-cases l.is_success) [
  | inl y ↦ rw y (λ e. (refl, e))
  | inr n ↦ rw n (λ e.
      let failed : false ≡ r.1.is_success = ap (λ x. x.1.is_success) (ok_injective e) in absurd cc)
]

relocated_lem : (q r : List Image × Linking) → r.1.is_success ≡ true → relocated q ≡ ok r → q ≡ r
unfolding relocated give_up
relocated_lem q r ok_r = elim (Bool-cases q.1.is_success) [
  | inl y ↦ rw y (λ e. ok_injective e)
  | inr n ↦ rw n (λ e.
      let failed : false ≡ r.1.is_success = ap (λ x. x.1.is_success) (ok_injective e) in absurd cc)
]

-- Linking the symbols of programs and relocating them ends in success. Then every function and variable that
-- a program's symbol defines is one that the program has, and its name has its index, plus the number of the
-- functions or variables of the programs before, in the environment; every name of a function or a variable
-- that a program only uses has an index there; and the names that the environment had keep theirs.
pub link_symbols_resolved :
    (ps qs : List Image) (l l' : Linking)
    → link_symbols ps l ≡ ok (qs, l')
    → l'.is_success ≡ true
    → AreDefined l'.env 0 0 ps × AreKnown l'.env ps × Grows l.env l'.env
unfolding link_symbols
link_symbols_resolved ps qs l l' e success =
    let defined = define_symbols 0 0 0 ps l in
    let checked = check_symbols 0 ps defined in
    let (ok1, e1) = give_up_or_lem defined _ (qs, l') success e in
    let (ok2, e2) = give_up_or_lem checked _ (qs, l') success e1 in
    let (r, e3, e4) = bind_ok (relocate_progs 0 0 0 ps checked) relocated (qs, l') e2 in
    let same : l'.env ≡ checked.env =
      ap (λ x. x.1.env) (sym (relocated_lem r (qs, l') success e4))
      ∙ relocate_progs-env 0 0 0 ps checked r e3 in
    let all = symbols_resolved ps l ok2 in
    subst (λ x. AreDefined x 0 0 ps × AreKnown x ps × Grows l.env x) (sym same) all
