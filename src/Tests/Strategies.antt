-- ===== src/Tests/Strategies.antt =====
-- vm/strategy and vm/cache at concrete inputs.
use letin.Common.{ℕ, ◌<◌, ◌≡◌, ◌≢◌, refl, Bool, true, false, List, [], ◌∷◌, none, some, arith}
use letin.Gc.Headers.{done}
use letin.Gc.Chains.{has}
use letin.Link.Env.{same_name}
use letin.Loader.Format.{FunctionInfo, value_type_int}
use letin.Strategy.Indexes.{FunctionTriple, set_fun_infos_and_fun_count, memo_indexes_differ}
use letin.Strategy.Dispatch.{must_pre_enter_to_fun, must_post_leave_from_fun, strategy_chosen}
use letin.Strategy.Cache.{
  HashTableMemoizationCache, successful, table_of, fun_result, add_fun_result, result_memoized,
}
use letin.Thread.State.{int}
use letin.Tests.Tables.{int_args, int_args-IsEquality, one_entry, one_cell, one_entry-IsTable}

-- Functions that are eager, memoized, and memoized and lazy.
abbrev three_infos : List FunctionInfo
three_infos =
    record { fun_index = 0; eval_strategy = 0; eval_strategy_mask = 255 }
    ∷ record { fun_index = 1; eval_strategy = 2; eval_strategy_mask = 255 }
    ∷ record { fun_index = 2; eval_strategy = 3; eval_strategy_mask = 255 }
    ∷ []

abbrev memo_triple : FunctionTriple
memo_triple = record {
  eval_strategy_fun_index = 0;
  eval_strategy_fun_index_for_force = 0;
  eval_strategy = 2;
}

abbrev memo_lazy_triple : FunctionTriple
memo_lazy_triple = record {
  eval_strategy_fun_index = 2;
  eval_strategy_fun_index_for_force = 1;
  eval_strategy = 3;
}

memo_indexes_differ_example :
    (0 < (set_fun_infos_and_fun_count 0 three_infos).1)
    × (1 < (set_fun_infos_and_fun_count 0 three_infos).1)
    × ◌≢◌ {A = ℕ} 0 1
    × ◌≡◌ {A = ℕ} 0 0
    × ◌≡◌ {A = ℕ} 2 2
unfolding set_fun_infos_and_fun_count
memo_indexes_differ_example =
    memo_indexes_differ 0 three_infos 1 2 memo_triple memo_lazy_triple (omega arith) refl refl refl
      refl

strategy_chosen_example :
    (must_pre_enter_to_fun ((set_fun_infos_and_fun_count 0 three_infos).0) 2 ≡ some true)
    × (must_post_leave_from_fun ((set_fun_infos_and_fun_count 0 three_infos).0) 2 ≡ some false)
unfolding set_fun_infos_and_fun_count
strategy_chosen_example = strategy_chosen 0 three_infos 2 memo_lazy_triple refl

-- A cache for two functions, with one result of the first.
abbrev one_result : HashTableMemoizationCache (List ℕ)
one_result = record {
  fun_results = λ i. record { is = some one_entry; fs = none; rs = none };
  fun_count = 2;
  bucket_count = 1;
}

abbrev any_args : List ℕ → Bool
any_args args = true

result_memoized_example :
    (d : HashTableMemoizationCache (List ℕ)) × (add_fun_result int_args any_args
        (λ v. true)
        2
        (successful true one_entry 4)
        0
        value_type_int
        (6 ∷ [])
        (int 8)
        one_result
      ≡ done (true, d))
    × ((other : List ℕ)
        → any_args other ≡ true
        → same_name (6 ∷ []) other ≡ true
        → fun_result int_args any_args (λ v. true) 2 0 value_type_int other d ≡ done (int 8))
    × ((other : List ℕ)
        → any_args other ≡ true
        → same_name (6 ∷ []) other ≡ false
        → fun_result int_args any_args (λ v. true) 2 0 value_type_int other d
          ≡ fun_result int_args any_args (λ v. true) 2 0 value_type_int other one_result)
    × ((m j other_type : ℕ) (other : List ℕ)
        → j ≢ 0
        → fun_result int_args any_args (λ v. true) m j other_type other d
          ≡ fun_result int_args any_args (λ v. true) m j other_type other one_result)
unfolding table_of has
result_memoized_example =
    result_memoized int_args any_args (λ v. true) int_args-IsEquality 1 2 one_entry one_cell 4 true
      one_entry 0 value_type_int 8 (6 ∷ []) one_result (omega arith) refl refl refl refl
      one_entry-IsTable (omega arith) (omega arith) (λ j lt. refl)
