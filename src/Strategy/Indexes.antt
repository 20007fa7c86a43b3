-- ===== src/Strategy/Indexes.antt =====
-- vm/strategy/fun_eval_strategy.cpp: the evaluation strategy of each function, and its index in the cache.
use letin.Common.{
  ℕ, zero, suc, ◌+◌, ◌-◌, ◌*◌, ◌≤◌, ◌<◌, ◌≡◌, ◌≢◌, refl, sym, ap, subst, ◌∙◌, ◌⊎◌, inl, inr, Bool,
  true, List, [], ◌∷◌, some, ◌==◌, if◌then◌else◌, Bool-cases, not, get_elem?, bit_and, bit_or,
  arith,
}
use letin.Common.Bits.{bit_and_mask}
use letin.Loader.Format.{FunctionInfo}

abbrev pub eval_strategy_lazy : ℕ
eval_strategy_lazy = 1

abbrev pub eval_strategy_memo : ℕ
eval_strategy_memo = 2

abbrev pub max_eval_strategy : ℕ
max_eval_strategy = 2

unfoldable pub fun_eval_strategy : FunctionInfo → ℕ → ℕ
fun_eval_strategy fun_info default_fun_eval_strategy =
    bit_and
      (bit_and (bit_or default_fun_eval_strategy fun_info.eval_strategy)
        fun_info.eval_strategy_mask)
      (max_eval_strategy * 2 - 1)

pub record FunctionTriple : Type 0 where
  pub eval_strategy_fun_index : ℕ
  pub eval_strategy_fun_index_for_force : ℕ
  pub eval_strategy : ℕ

abbrev pub is_memo : ℕ → Bool
is_memo s = not (bit_and s eval_strategy_memo == 0)

abbrev pub is_lazy : ℕ → Bool
is_lazy s = not (bit_and s eval_strategy_lazy == 0)

-- The triple of function `i`, where `m` functions before it are memoized.
unfoldable pub fun_triple : ℕ → ℕ → ℕ → FunctionTriple
fun_triple s i m =
    if is_memo s
    then record {
      eval_strategy_fun_index = if is_lazy s then i else m;
      eval_strategy_fun_index_for_force = m;
      eval_strategy = s;
    }
    else record {
      eval_strategy_fun_index = i;
      eval_strategy_fun_index_for_force = i;
      eval_strategy = s;
    }

-- The loop, from function `i` on.
unfoldable pub fun_triples : ℕ → ℕ → ℕ → List FunctionInfo → List FunctionTriple × ℕ
unfolding fun_eval_strategy fun_triple
fun_triples default i m [] = ([], m)
fun_triples default i m (x ∷ xs) =
    let s = fun_eval_strategy x default in
    let rest = fun_triples default (i + 1) (if is_memo s then m + 1 else m) xs in
    (fun_triple s i m ∷ rest.0, rest.1)

-- The triples, and the function count of the cache.
unfoldable pub set_fun_infos_and_fun_count : ℕ → List FunctionInfo → List FunctionTriple × ℕ
unfolding fun_triples
set_fun_infos_and_fun_count default fun_infos = fun_triples default 0 0 fun_infos

pub fun_eval_strategy-lt : (x : FunctionInfo) (default : ℕ) → fun_eval_strategy x default < 4
unfolding fun_eval_strategy
fun_eval_strategy-lt x default =
    omega (arith, bit_and_mask 2 (bit_and (bit_or default x.eval_strategy) x.eval_strategy_mask))

triple-strategy : (s i m : ℕ) → (fun_triple s i m).eval_strategy ≡ s
unfolding fun_triple
triple-strategy s i m = elim (Bool-cases (is_memo s)) [ inl y ↦ rw y refl | inr n ↦ rw n refl ]

triple-memo :
    (s i m : ℕ) → is_memo s ≡ true → (fun_triple s i m).eval_strategy_fun_index_for_force ≡ m
unfolding fun_triple
triple-memo s i m y = rw y refl

index_of_memo :
    (s i m : ℕ)
    → is_memo s ≡ true
    → (fun_triple s i m).eval_strategy_fun_index ≡ (
        if is_lazy (fun_triple s i m).eval_strategy
        then i + 0
        else (fun_triple s i m).eval_strategy_fun_index_for_force)
unfolding fun_triple
index_of_memo s i m y = rw y (ap (λ k. if is_lazy s then k else m) (omega arith))

some_eq {ℓ} : {A : Type ℓ} {a b : A} → some a ≡ some b → a ≡ b
some_eq e = cc (e)

next_count-le : (s m : ℕ) → m ≤ (if is_memo s then m + 1 else m)
next_count-le s m = elim (Bool-cases (is_memo s)) [
  | inl y ↦ rw y (omega arith)
  | inr n ↦ rw n (omega arith)
]

pub triples-count_le :
    (default : ℕ) (xs : List FunctionInfo) (i m : ℕ) → m ≤ (fun_triples default i m xs).1
unfolding fun_triples
triples-count_le default [] i m = omega arith
triples-count_le default (x ∷ xs) i m =
    let s = fun_eval_strategy x default in
    let rest = triples-count_le default xs (i + 1) (if is_memo s then m + 1 else m) in
    let up = next_count-le s m in omega arith

-- What holds of the first of the triples.
first_bounds :
    (s i m count : ℕ)
    → s < 4
    → (if is_memo s then m + 1 else m) ≤ count
    → ((fun_triple s i m).eval_strategy < 4)
      × (is_memo (fun_triple s i m).eval_strategy ≡ true
          → ((fun_triple s i m).eval_strategy_fun_index_for_force ≡ m)
            × ((if is_memo s then m + 1 else m) ≡ m + 1)
            × (m < count))
first_bounds s i m count lt le = (
  rw (triple-strategy s i m) lt,
  λ y.
      let memo : is_memo s ≡ true = rw (triple-strategy s i m) at y in
      (triple-memo s i m memo, rw memo refl, less memo le),
)
  where
    less : is_memo s ≡ true → (if is_memo s then m + 1 else m) ≤ count → m < count
    less memo h = let g : m + 1 ≤ count = rw memo at h in omega arith

-- The indexes of memoized functions go up, from `m` to the function count of the cache.
pub triples_bounds :
    (default : ℕ) (xs : List FunctionInfo) (i m j : ℕ) (a : FunctionTriple)
    → get_elem? ((fun_triples default i m xs).0) j ≡ some a
    → (a.eval_strategy < 4)
      × (is_memo a.eval_strategy ≡ true
          → (m ≤ a.eval_strategy_fun_index_for_force)
            × (a.eval_strategy_fun_index_for_force < (fun_triples default i m xs).1))
unfolding fun_triples
triples_bounds default [] i m j a e = cc (e)
triples_bounds default (x ∷ xs) i m zero a e =
    let s = fun_eval_strategy x default in
    let n = if is_memo s then m + 1 else m in
    subst
      (λ t.
        (t.eval_strategy < 4)
        × (is_memo t.eval_strategy ≡ true
            → (m ≤ t.eval_strategy_fun_index_for_force)
              × (t.eval_strategy_fun_index_for_force < (fun_triples default (i + 1) n xs).1)))
      (some_eq e)
      (let b =
          first_bounds s i m ((fun_triples default (i + 1) n xs).1) (fun_eval_strategy-lt x default)
            (triples-count_le default xs (i + 1) n) in
        (b.0, λ y. let r = b.1 y in (omega arith, omega arith)))
triples_bounds default (x ∷ xs) i m (suc j) a e =
    let s = fun_eval_strategy x default in
    let n = if is_memo s then m + 1 else m in
    let up = next_count-le s m in
    let b = triples_bounds default xs (i + 1) n j a e in
    (b.0, λ y. let r = b.1 y in (omega arith, r.1))

order : (j k : ℕ) → j ≢ k → (j < k) ⊎ (k < j)
order j k ne = omega arith

triples_rise :
    (default : ℕ) (xs : List FunctionInfo) (i m j k : ℕ) (a b : FunctionTriple)
    → j < k
    → get_elem? ((fun_triples default i m xs).0) j ≡ some a
    → get_elem? ((fun_triples default i m xs).0) k ≡ some b
    → is_memo a.eval_strategy ≡ true
    → is_memo b.eval_strategy ≡ true
    → a.eval_strategy_fun_index_for_force < b.eval_strategy_fun_index_for_force
unfolding fun_triples
triples_rise default [] i m j k a b lt ea eb ma mb = cc (ea)
triples_rise default (x ∷ xs) i m j zero a b lt ea eb ma mb = elim lt [ ]
triples_rise default (x ∷ xs) i m zero (suc k) a b lt ea eb ma mb =
    let s = fun_eval_strategy x default in
    let n = if is_memo s then m + 1 else m in
    let same : fun_triple s i m ≡ a = some_eq ea in
    let f =
      (first_bounds s i m ((fun_triples default (i + 1) n xs).1) (fun_eval_strategy-lt x default)
          (triples-count_le default xs (i + 1) n)).1
        (ap (λ t. is_memo t.eval_strategy) same ∙ ma) in
    let at : a.eval_strategy_fun_index_for_force ≡ m =
      sym (ap (λ t. t.eval_strategy_fun_index_for_force) same) ∙ f.0 in
    let r = (triples_bounds default xs (i + 1) n k b eb).1 mb in
    let up : n ≡ m + 1 = f.1 in omega arith
triples_rise default (x ∷ xs) i m (suc j) (suc k) a b lt ea eb ma mb =
    let s = fun_eval_strategy x default in
    triples_rise default xs (i + 1) (if is_memo s then m + 1 else m) j k a b (omega arith) ea eb ma
      mb

-- The index with which a function is entered and left, next to the index with which it is forced.
triples_index :
    (default : ℕ) (xs : List FunctionInfo) (i m j : ℕ) (a : FunctionTriple)
    → get_elem? ((fun_triples default i m xs).0) j ≡ some a
    → is_memo a.eval_strategy ≡ true
    → a.eval_strategy_fun_index
      ≡ (if is_lazy a.eval_strategy then i + j else a.eval_strategy_fun_index_for_force)
unfolding fun_triples
triples_index default [] i m j a e y = cc (e)
triples_index default (x ∷ xs) i m zero a e y =
    let s = fun_eval_strategy x default in
    let same : fun_triple s i m ≡ a = some_eq e in
    subst
      (λ t.
        t.eval_strategy_fun_index
        ≡ (if is_lazy t.eval_strategy then i + 0 else t.eval_strategy_fun_index_for_force))
      same
      (index_of_memo s i m
        (rw (triple-strategy s i m) at (ap (λ t. is_memo t.eval_strategy) same ∙ y)))
triples_index default (x ∷ xs) i m (suc j) a e y =
    let s = fun_eval_strategy x default in
    triples_index default xs (i + 1) (if is_memo s then m + 1 else m) j a e y
    ∙ ap (λ k. if is_lazy a.eval_strategy then k else a.eval_strategy_fun_index_for_force)
        (omega arith)

-- Of two different functions that are both memoized, the indexes with which they are forced are below the
-- function count that the cache is given, and are different; and the index with which each is entered and
-- left is its own index where it is lazy, and otherwise the index with which it is forced.
pub memo_indexes_differ :
    (default : ℕ) (fun_infos : List FunctionInfo) (j k : ℕ) (a b : FunctionTriple)
    → j ≢ k
    → get_elem? ((set_fun_infos_and_fun_count default fun_infos).0) j ≡ some a
    → get_elem? ((set_fun_infos_and_fun_count default fun_infos).0) k ≡ some b
    → is_memo a.eval_strategy ≡ true
    → is_memo b.eval_strategy ≡ true
    → (a.eval_strategy_fun_index_for_force < (set_fun_infos_and_fun_count default fun_infos).1)
      × (b.eval_strategy_fun_index_for_force < (set_fun_infos_and_fun_count default fun_infos).1)
      × (a.eval_strategy_fun_index_for_force ≢ b.eval_strategy_fun_index_for_force)
      × (a.eval_strategy_fun_index
          ≡ (if is_lazy a.eval_strategy then j else a.eval_strategy_fun_index_for_force))
      × (b.eval_strategy_fun_index
          ≡ (if is_lazy b.eval_strategy then k else b.eval_strategy_fun_index_for_force))
unfolding set_fun_infos_and_fun_count
memo_indexes_differ default xs j k a b ne ea eb ma mb = (
  ((triples_bounds default xs 0 0 j a ea).1 ma).1,
  ((triples_bounds default xs 0 0 k b eb).1 mb).1,
  elim (order j k ne) [
    | inl lt ↦ let r = triples_rise default xs 0 0 j k a b lt ea eb ma mb in omega arith
    | inr lt ↦ let r = triples_rise default xs 0 0 k j b a lt eb ea mb ma in omega arith
  ],
  triples_index default xs 0 0 j a ea ma ∙ at_zero a j,
  triples_index default xs 0 0 k b eb mb ∙ at_zero b k,
)
  where
    at_zero :
        (t : FunctionTriple) (i : ℕ)
        → (if is_lazy t.eval_strategy then 0 + i else t.eval_strategy_fun_index_for_force)
          ≡ (if is_lazy t.eval_strategy then i else t.eval_strategy_fun_index_for_force)
    at_zero t i =
        ap (λ n. if is_lazy t.eval_strategy then n else t.eval_strategy_fun_index_for_force)
          (omega arith)
