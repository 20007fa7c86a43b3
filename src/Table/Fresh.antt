-- ===== src/Table/Fresh.antt =====
-- vm/hash_table.hpp: `set_bucket_count` makes an empty table.
use letin.Common.{
  ℕ, ◌<◌, ◌≡◌, refl, Bool, true, false, [], Option, none, some, ◌==◌, if◌then◌else◌, arith,
}
use letin.Gc.Chains.{has-none}
use letin.Table.Ops.{Keys, TableRaw, get_found}
use letin.Table.Links.{Dll}
use letin.Table.Held.{IsTable, view, found}

module _ {K V : Type 0} where
  -- The table that new_object answers with has no fields yet: the model takes any, `heap`.
  unfoldable pub empty_table : ℕ → TableRaw K V → TableRaw K V
  empty_table bucket_count heap = record heap {
    bucket_count = bucket_count;
    entry_count = 0;
    first_entry_r = λ i. 0;
    last_entry_r = λ i. 0;
  }

  -- `allocated` says whether new_object answered with an object.
  unfoldable pub safely_set_bucket_count :
      Bool → ℕ → TableRaw K V → Option (TableRaw K V) → Bool × Option (TableRaw K V)
  unfolding empty_table
  safely_set_bucket_count allocated bucket_count heap table =
      if bucket_count == 0
      then (true, none)
      else if allocated
      then (true, some (empty_table bucket_count heap))
      else (false, table)

  unfoldable pub set_bucket_count_for_nil_ref :
      Bool → ℕ → TableRaw K V → Option (TableRaw K V) → Bool × Option (TableRaw K V)
  unfolding safely_set_bucket_count
  set_bucket_count_for_nil_ref allocated bucket_count heap none =
      safely_set_bucket_count allocated bucket_count heap none
  set_bucket_count_for_nil_ref allocated bucket_count heap (some t) = (true, some t)

module _ {K V : Type 0} (keys : Keys K) (bucket_count : ℕ) (heap : TableRaw K V) where
  pub empty-IsTable : 0 < bucket_count → IsTable keys 0 (empty_table bucket_count heap) (λ i. [])
  unfolding empty_table Dll
  empty-IsTable pos = record {
    some_bucket = pos;
    linked = λ i lt. (refl, refl);
    short = λ i lt. omega arith;
    hashed = λ i x lt h. cc (has-none x, h);
    distinct = λ i x y lt h. cc (has-none x, h);
  }

  pub empty-view : (k : K) → view keys (empty_table bucket_count heap) (λ i. []) k ≡ none
  unfolding view get_found found
  empty-view k = refl
