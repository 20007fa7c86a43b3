-- ===== src/Link/Names.antt =====
-- vm/impl_env.cpp, vm/impl_vm_base.cpp: what adding a name's index to the environment leads to.
use letin.Common.{
  ℕ, ◌≡◌, refl, ap, subst, ◌∙◌, inl, inr, Bool, true, false, List, [], ◌∷◌, Option, none, some,
  ==_iff, ◌&&◌, Bool-cases,
}
use letin.Link.Env.{Env, same_name, find, add_fun_index, add_var_index, insert_symbol}
use letin.Link.Symbols.{LoadingErrorCode, Linking, add_error, or_error}

both : {a b : Bool} → (a && b) ≡ true → (a ≡ true) × (b ≡ true)
both {a = true} e = (refl, e)
both {a = false} e = absurd cc

pub same_name_refl : (a : List ℕ) → same_name a a ≡ true
unfolding same_name
same_name_refl [] = refl
same_name_refl (x ∷ xs) = rw ((==_iff x x).1 refl) (same_name_refl xs)

pub same_name_sound : (a b : List ℕ) → same_name a b ≡ true → a ≡ b
unfolding same_name
same_name_sound [] [] e = refl
same_name_sound [] (y ∷ ys) e = absurd cc
same_name_sound (x ∷ xs) [] e = absurd cc
same_name_sound (x ∷ xs) (y ∷ ys) e =
    let (a, b) = both e in
    ap (λ z. z ∷ xs) ((==_iff x y).0 a) ∙ ap (λ zs. y ∷ zs) (same_name_sound xs ys b)

find_new : (es : List (List ℕ × ℕ)) (n : List ℕ) (i : ℕ) → find ((n, i) ∷ es) n ≡ some i
unfolding find
find_new es n i = rw (same_name_refl n) refl

find_old :
    (es : List (List ℕ × ℕ)) (n m : List ℕ) (i k : ℕ)
    → find es n ≡ none
    → find es m ≡ some k
    → find ((n, i) ∷ es) m ≡ some k
unfolding find
find_old es n m i k free e = elim (Bool-cases (same_name n m)) [
  | inl y ↦
      let gone : find es m ≡ none = subst (λ x. find es x ≡ none) (same_name_sound n m y) free in
      absurd cc
  | inr f ↦ rw f e
]

-- Every name keeps its index.
pub record Grows (e e' : Env) : Type 0 where
  pub funs : (m : List ℕ) (k : ℕ) → find e.fun_indexes m ≡ some k → find e'.fun_indexes m ≡ some k
  pub vars : (m : List ℕ) (k : ℕ) → find e.var_indexes m ≡ some k → find e'.var_indexes m ≡ some k

pub Grows-refl : (e : Env) → Grows e e
Grows-refl e = record { funs = λ m k h. h; vars = λ m k h. h }

pub Grows-trans : (a b c : Env) → Grows a b → Grows b c → Grows a c
Grows-trans a b c g h = record {
  funs = λ m k e. h.funs m k (g.funs m k e);
  vars = λ m k e. h.vars m k (g.vars m k e);
}

-- After a step without an error.
abbrev pub Went : Linking → Linking → Type 0
Went l l' = (l.is_success ≡ true) × Grows l.env l'.env

abbrev with_fun : List ℕ → ℕ → Env → Env
with_fun n k env = record env {
  fun_indexes = (n, k) ∷ env.fun_indexes;
  fun_symbols = insert_symbol k n env.fun_symbols;
}

-- What `add_fun_index` leads to, by what the name has.
abbrev after_fun : ℕ → LoadingErrorCode → ℕ → List ℕ → Linking → Option ℕ → Linking
after_fun i code k n l x =
    or_error i code n l
      (elim (x) as (λ y. Option Env) [ some j ↦ none | none ↦ some (with_fun n k l.env) ])

pub fun_defined :
    (i : ℕ) (code : LoadingErrorCode) (k : ℕ) (n : List ℕ) (l : Linking)
    → (or_error i code n l (add_fun_index n k l.env)).is_success ≡ true
    → Went l (or_error i code n l (add_fun_index n k l.env))
      × (find (or_error i code n l (add_fun_index n k l.env)).env.fun_indexes n ≡ some k)
unfolding or_error add_fun_index add_error
fun_defined i code k n l = cases (find l.env.fun_indexes n) refl
  where
    cases :
        (x : Option ℕ)
        → find l.env.fun_indexes n ≡ x
        → (after_fun i code k n l x).is_success ≡ true
        → Went l (after_fun i code k n l x)
          × (find (after_fun i code k n l x).env.fun_indexes n ≡ some k)
    cases (some j) is h = absurd cc
    cases none is h = (
      (h, record { funs = λ m j e. find_old l.env.fun_indexes n m k j is e; vars = λ m j e. e }),
      find_new l.env.fun_indexes n k,
    )

abbrev with_var : List ℕ → ℕ → Env → Env
with_var n k env = record env { var_indexes = (n, k) ∷ env.var_indexes }

-- What `add_var_index` leads to, by what the name has.
abbrev after_var : ℕ → LoadingErrorCode → ℕ → List ℕ → Linking → Option ℕ → Linking
after_var i code k n l x =
    or_error i code n l
      (elim (x) as (λ y. Option Env) [ some j ↦ none | none ↦ some (with_var n k l.env) ])

pub var_defined :
    (i : ℕ) (code : LoadingErrorCode) (k : ℕ) (n : List ℕ) (l : Linking)
    → (or_error i code n l (add_var_index n k l.env)).is_success ≡ true
    → Went l (or_error i code n l (add_var_index n k l.env))
      × (find (or_error i code n l (add_var_index n k l.env)).env.var_indexes n ≡ some k)
unfolding or_error add_var_index add_error
var_defined i code k n l = cases (find l.env.var_indexes n) refl
  where
    cases :
        (x : Option ℕ)
        → find l.env.var_indexes n ≡ x
        → (after_var i code k n l x).is_success ≡ true
        → Went l (after_var i code k n l x)
          × (find (after_var i code k n l x).env.var_indexes n ≡ some k)
    cases (some j) is h = absurd cc
    cases none is h = (
      (h, record { vars = λ m j e. find_old l.env.var_indexes n m k j is e; funs = λ m j e. e }),
      find_new l.env.var_indexes n k,
    )
