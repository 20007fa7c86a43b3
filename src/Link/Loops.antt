-- ===== src/Link/Loops.antt =====
-- vm/impl_vm_base.cpp: what holds of the symbols once both loops have gone through without an error.
use letin.Common.{
  ℕ, ◌+◌, ◌<◌, ◌≡◌, ◌≢◌, refl, sym, subst, ◌∙◌, inl, inr, true, false, List, [], ◌∷◌, Option, none,
  some, All, ◌==◌, ==_iff, leb, length, Bool-cases, arith,
}
use letin.Link.Env.{Env, find}
use letin.Link.Symbols.{
  Linking, add_error, define_symbol, define_each, define_symbols, known, check_symbol, check_each,
  check_symbols,
}
use letin.Loader.Format.{Symbol, symbol_type_fun, symbol_type_var, symbol_type_defined}
use letin.Relocate.Indexes.{Image}
use letin.Link.Names.{Grows, Grows-refl, Grows-trans, Went, fun_defined, var_defined}

-- A symbol that the program defines has the index of what it names, which the program has, plus the offset.
pub record IsDefined (env : Env) (fo vo : ℕ) (p : Image) (s : Symbol) : Type 0 where
  pub fun_symbol :
      s.type ≡ symbol_type_fun + symbol_type_defined
      → (s.index < length p.funs) × (find env.fun_indexes s.name ≡ some (fo + s.index))
  pub var_symbol :
      s.type ≡ symbol_type_var + symbol_type_defined
      → (s.index < length p.vars) × (find env.var_indexes s.name ≡ some (vo + s.index))

-- A symbol that the program only uses has an index.
pub record IsKnown (env : Env) (s : Symbol) : Type 0 where
  pub fun_symbol : s.type ≡ symbol_type_fun → (k : ℕ) × (find env.fun_indexes s.name ≡ some k)
  pub var_symbol : s.type ≡ symbol_type_var → (k : ℕ) × (find env.var_indexes s.name ≡ some k)

-- The symbols of each program, whose functions and variables start where those of the programs before end.
abbrev pub AreDefined : Env → ℕ → ℕ → List Image → Type 0
AreDefined env fo vo [] = Unit {0}
AreDefined env fo vo (p ∷ ps) =
    All (IsDefined env fo vo p) p.symbols
    × AreDefined env (fo + length p.funs) (vo + length p.vars) ps

IsDefined-Grows :
    (e e' : Env) (fo vo : ℕ) (p : Image) (s : Symbol)
    → Grows e e'
    → IsDefined e fo vo p s
    → IsDefined e' fo vo p s
IsDefined-Grows e e' fo vo p s g d = record {
  fun_symbol = λ t. let (lt, f) = d.fun_symbol t in (lt, g.funs s.name (fo + s.index) f);
  var_symbol = λ t. let (lt, f) = d.var_symbol t in (lt, g.vars s.name (vo + s.index) f);
}

apart : (t a b : ℕ) → t ≡ a → t ≡ b → a ≢ b → ⊥
apart t a b e f ne = ne (sym e ∙ f)

few : (a b : ℕ) → leb a b ≡ false → b < a
few a b e = ground arith

differs : (a b : ℕ) → (a == b) ≡ false → a ≢ b
differs a b e f = ground arith

define_symbol_lem :
    (i fo vo : ℕ) (p : Image) (s : Symbol) (l : Linking)
    → (define_symbol i fo vo p s l).is_success ≡ true
    → Went l (define_symbol i fo vo p s l) × IsDefined (define_symbol i fo vo p s l).env fo vo p s
unfolding define_symbol add_error
define_symbol_lem i fo vo p s l =
    elim (Bool-cases (s.type == symbol_type_fun + symbol_type_defined)) [
      | inl y ↦
          let is = (==_iff s.type (symbol_type_fun + symbol_type_defined)).0 y in
          elim (Bool-cases (leb (length p.funs) s.index)) [
            | inl m ↦ rw (y, m) (λ h. absurd cc)
            | inr n ↦
                rw (y, n)
                  (λ h.
                    let (went, at) = fun_defined i _ (fo + s.index) s.name l h in
                    (
                      went,
                      record {
                        fun_symbol = λ t. (few (length p.funs) s.index n, at);
                        var_symbol = λ t. absurd (apart s.type _ _ is t (omega arith));
                      },
                    ))
          ]
      | inr x ↦ elim (Bool-cases (s.type == symbol_type_var + symbol_type_defined)) [
        | inl y ↦
            let is = (==_iff s.type (symbol_type_var + symbol_type_defined)).0 y in
            elim (Bool-cases (leb (length p.vars) s.index)) [
              | inl m ↦ rw (x, y, m) (λ h. absurd cc)
              | inr n ↦
                  rw (x, y, n)
                    (λ h.
                      let (went, at) = var_defined i _ (vo + s.index) s.name l h in
                      (
                        went,
                        record {
                          fun_symbol = λ t. absurd (differs _ _ x t);
                          var_symbol = λ t. (few (length p.vars) s.index n, at);
                        },
                      ))
            ]
        | inr z ↦
            rw (x, z)
              (λ h. (
                (h, Grows-refl l.env),
                record {
                  fun_symbol = λ t. absurd (differs _ _ x t);
                  var_symbol = λ t. absurd (differs _ _ z t);
                },
              ))
      ]
    ]

define_each_lem :
    (i fo vo : ℕ) (p : Image) (ss : List Symbol) (l : Linking)
    → (define_each i fo vo p ss l).is_success ≡ true
    → Went l (define_each i fo vo p ss l)
      × All (IsDefined (define_each i fo vo p ss l).env fo vo p) ss
unfolding define_each
define_each_lem i fo vo p [] l h = ((h, Grows-refl l.env), tt)
define_each_lem i fo vo p (s ∷ ss) l h =
    let m = define_symbol i fo vo p s l in
    let ((fine, grows), later) = define_each_lem i fo vo p ss m h in
    let ((ok1, grows1), here) = define_symbol_lem i fo vo p s l fine in
    let e = (define_each i fo vo p ss m).env in
    (
      (ok1, Grows-trans l.env m.env e grows1 grows),
      (IsDefined-Grows m.env e fo vo p s grows here, later),
    )

All-IsDefined-Grows :
    (e e' : Env) (fo vo : ℕ) (p : Image) (ss : List Symbol)
    → Grows e e'
    → All (IsDefined e fo vo p) ss
    → All (IsDefined e' fo vo p) ss
All-IsDefined-Grows e e' fo vo p [] g h = tt
All-IsDefined-Grows e e' fo vo p (s ∷ ss) g h =
    (IsDefined-Grows e e' fo vo p s g h.0, All-IsDefined-Grows e e' fo vo p ss g h.1)

define_symbols_lem :
    (i fo vo : ℕ) (ps : List Image) (l : Linking)
    → (define_symbols i fo vo ps l).is_success ≡ true
    → Went l (define_symbols i fo vo ps l) × AreDefined (define_symbols i fo vo ps l).env fo vo ps
unfolding define_symbols
define_symbols_lem i fo vo [] l h = ((h, Grows-refl l.env), tt)
define_symbols_lem i fo vo (p ∷ ps) l h =
    let m = define_each i fo vo p p.symbols l in
    let ((fine, grows), later) =
      define_symbols_lem (i + 1) (fo + length p.funs) (vo + length p.vars) ps m h in
    let ((ok1, grows1), here) = define_each_lem i fo vo p p.symbols l fine in
    let e = (define_symbols (i + 1) (fo + length p.funs) (vo + length p.vars) ps m).env in
    (
      (ok1, Grows-trans l.env m.env e grows1 grows),
      (All-IsDefined-Grows m.env e fo vo p p.symbols grows here, later),
    )

-- A step of the second loop, which changes no index.
abbrev Checked : Linking → Linking → Type 0
Checked l l' = (l.is_success ≡ true) × (l'.env ≡ l.env)

known_lem : (o : Option ℕ) → known o ≡ true → (k : ℕ) × (o ≡ some k)
unfolding known
known_lem none e = absurd cc
known_lem (some k) e = (k, refl)

check_symbol_lem :
    (i : ℕ) (s : Symbol) (l : Linking)
    → (check_symbol i s l).is_success ≡ true
    → Checked l (check_symbol i s l) × IsKnown l.env s
unfolding check_symbol add_error
check_symbol_lem i s l = elim (Bool-cases (s.type == symbol_type_fun)) [
  | inl y ↦
      let is = (==_iff s.type symbol_type_fun).0 y in
      elim (Bool-cases (known (find l.env.fun_indexes s.name))) [
        | inl k ↦
            rw (y, k)
              (λ h. (
                (h, refl),
                record {
                  fun_symbol = λ t. known_lem (find l.env.fun_indexes s.name) k;
                  var_symbol = λ t. absurd (apart s.type _ _ is t (omega arith));
                },
              ))
        | inr n ↦ rw (y, n) (λ h. absurd cc)
      ]
  | inr x ↦ elim (Bool-cases (s.type == symbol_type_var)) [
    | inl y ↦ elim (Bool-cases (known (find l.env.var_indexes s.name))) [
      | inl k ↦
          rw (x, y, k)
            (λ h. (
              (h, refl),
              record {
                fun_symbol = λ t. absurd (differs _ _ x t);
                var_symbol = λ t. known_lem (find l.env.var_indexes s.name) k;
              },
            ))
      | inr n ↦ rw (x, y, n) (λ h. absurd cc)
    ]
    | inr z ↦
        rw (x, z)
          (λ h. (
            (h, refl),
            record {
              fun_symbol = λ t. absurd (differs _ _ x t);
              var_symbol = λ t. absurd (differs _ _ z t);
            },
          ))
  ]
]

check_each_lem :
    (i : ℕ) (ss : List Symbol) (l : Linking)
    → (check_each i ss l).is_success ≡ true
    → Checked l (check_each i ss l) × All (IsKnown l.env) ss
unfolding check_each
check_each_lem i [] l h = ((h, refl), tt)
check_each_lem i (s ∷ ss) l h =
    let ((fine, same), later) = check_each_lem i ss (check_symbol i s l) h in
    let ((ok1, same1), here) = check_symbol_lem i s l fine in
    ((ok1, same ∙ same1), (here, subst (λ e. All (IsKnown e) ss) same1 later))

abbrev pub AreKnown : Env → List Image → Type 0
AreKnown env ps = All (λ p. All (IsKnown env) p.symbols) ps

check_symbols_lem :
    (i : ℕ) (ps : List Image) (l : Linking)
    → (check_symbols i ps l).is_success ≡ true
    → Checked l (check_symbols i ps l) × AreKnown l.env ps
unfolding check_symbols
check_symbols_lem i [] l h = ((h, refl), tt)
check_symbols_lem i (p ∷ ps) l h =
    let ((fine, same), later) = check_symbols_lem (i + 1) ps (check_each i p.symbols l) h in
    let ((ok1, same1), here) = check_each_lem i p.symbols l fine in
    ((ok1, same ∙ same1), (here, subst (λ e. AreKnown e ps) same1 later))

-- Both loops over the symbols went through without an error.
pub symbols_resolved :
    (ps : List Image) (l : Linking)
    → (check_symbols 0 ps (define_symbols 0 0 0 ps l)).is_success ≡ true
    → let e = (check_symbols 0 ps (define_symbols 0 0 0 ps l)).env in
      AreDefined e 0 0 ps × AreKnown e ps × Grows l.env e
symbols_resolved ps l h =
    let m = define_symbols 0 0 0 ps l in
    let ((ok1, same), names) = check_symbols_lem 0 ps m h in
    let ((ok2, grows), defined) = define_symbols_lem 0 0 0 ps l ok1 in
    (
      subst (λ x. AreDefined x 0 0 ps) (sym same) defined,
      subst (λ x. AreKnown x ps) (sym same) names,
      subst (λ x. Grows l.env x) (sym same) grows,
    )
