-- ===== src/Strategy/Dispatch.antt =====
-- vm/strategy: the strategies that FunctionEvaluationStrategy chooses from, and its choice.
use letin.Common.{
  ℕ, ◌<◌, ◌≡◌, refl, ap, ◌∙◌, ◌⊎◌, inl, inr, Bool, true, false, List, Option, none, some, ◌==◌, not,
  ◌&&◌, if◌then◌else◌, get_elem?, arith,
}
use letin.Loader.Format.{FunctionInfo}
use letin.Strategy.Indexes.{
  FunctionTriple, is_memo, is_lazy, set_fun_infos_and_fun_count, triples_bounds,
}

pub data Strategy : Type 0 where
  eager : Strategy
  lazy : Strategy
  memo : Strategy
  memo_lazy : Strategy

-- `_M_eval_strategies`; `none` is an access outside the array.
abbrev pub eval_strategies : ℕ → Option Strategy
eval_strategies s =
    if s == 0
    then some eager
    else if s == 1
    then some lazy
    else if s == 2
    then some memo
    else if s == 3
    then some memo_lazy
    else none

-- `must_pre_enter_to_fun` and `must_post_leave_from_fun` of the strategies, which look at no argument
abbrev pub eager_must_pre_enter : Bool
eager_must_pre_enter = false

abbrev pub eager_must_post_leave : Bool
eager_must_post_leave = false

abbrev pub lazy_must_pre_enter : Bool
lazy_must_pre_enter = true

abbrev pub lazy_must_post_leave : Bool
lazy_must_post_leave = false

abbrev pub memo_must_pre_enter : Bool
memo_must_pre_enter = true

abbrev pub memo_must_post_leave : Bool
memo_must_post_leave = true

abbrev pub memo_lazy_must_pre_enter : Bool
memo_lazy_must_pre_enter = lazy_must_pre_enter

abbrev pub memo_lazy_must_post_leave : Bool
memo_lazy_must_post_leave = lazy_must_post_leave

abbrev pub strategy_must_pre_enter : Strategy → Bool
strategy_must_pre_enter eager = eager_must_pre_enter
strategy_must_pre_enter lazy = lazy_must_pre_enter
strategy_must_pre_enter memo = memo_must_pre_enter
strategy_must_pre_enter memo_lazy = memo_lazy_must_pre_enter

abbrev pub strategy_must_post_leave : Strategy → Bool
strategy_must_post_leave eager = eager_must_post_leave
strategy_must_post_leave lazy = lazy_must_post_leave
strategy_must_post_leave memo = memo_must_post_leave
strategy_must_post_leave memo_lazy = memo_lazy_must_post_leave

-- A call of a method of the strategy of function `i`; `none` is an access outside an array.
abbrev pub of_strategy {ℓ} : {A : Type ℓ} → (Strategy → A) → Option Strategy → Option A
of_strategy f none = none
of_strategy f (some s) = some (f s)

abbrev pub strategy_of_triple : Option FunctionTriple → Option Strategy
strategy_of_triple none = none
strategy_of_triple (some t) = eval_strategies t.eval_strategy

unfoldable pub must_pre_enter_to_fun : List FunctionTriple → ℕ → Option Bool
must_pre_enter_to_fun triples i =
    of_strategy strategy_must_pre_enter (strategy_of_triple (get_elem? triples i))

unfoldable pub must_post_leave_from_fun : List FunctionTriple → ℕ → Option Bool
must_post_leave_from_fun triples i =
    of_strategy strategy_must_post_leave (strategy_of_triple (get_elem? triples i))

four_cases : (s : ℕ) → s < 4 → (s ≡ 0) ⊎ (s ≡ 1) ⊎ (s ≡ 2) ⊎ (s ≡ 3)
four_cases s lt = omega arith

choice :
    (s : ℕ)
    → s < 4
    → (of_strategy strategy_must_pre_enter (eval_strategies s) ≡ some (not (s == 0)))
      × (of_strategy strategy_must_post_leave (eval_strategies s)
          ≡ some (is_memo s && not (is_lazy s)))
choice s lt = elim (four_cases s lt) [
  | inl e ↦ rw e (refl, refl)
  | inr (inl e) ↦ rw e (refl, refl)
  | inr (inr (inl e)) ↦ rw e (refl, refl)
  | inr (inr (inr e)) ↦ rw e (refl, refl)
]

-- For each function, whatever its flags and the default are, the strategy is one of the four; the function
-- is entered through it unless it is eager, and left through it just when it is memoized and not lazy.
pub strategy_chosen :
    (default : ℕ) (fun_infos : List FunctionInfo) (i : ℕ) (a : FunctionTriple)
    → get_elem? ((set_fun_infos_and_fun_count default fun_infos).0) i ≡ some a
    → (must_pre_enter_to_fun ((set_fun_infos_and_fun_count default fun_infos).0) i
        ≡ some (not (a.eval_strategy == 0)))
      × (must_post_leave_from_fun ((set_fun_infos_and_fun_count default fun_infos).0) i
          ≡ some (is_memo a.eval_strategy && not (is_lazy a.eval_strategy)))
unfolding set_fun_infos_and_fun_count must_pre_enter_to_fun must_post_leave_from_fun
strategy_chosen default xs i a e =
    let c = choice a.eval_strategy ((triples_bounds default xs 0 0 i a e).0) in
    (
      ap (λ t. of_strategy strategy_must_pre_enter (strategy_of_triple t)) e ∙ c.0,
      ap (λ t. of_strategy strategy_must_post_leave (strategy_of_triple t)) e ∙ c.1,
    )
