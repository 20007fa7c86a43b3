-- ===== src/Strategy/Cache.antt =====
-- vm/cache/ht_memo_cache.cpp: the cache of the results of functions. Argument lists are a type `A` with
-- `keys`, and `args_ok` and `result_ok` say what `are_memoizable_fun_args` and `is_memoizable_fun_result`
-- answer, which look at the objects that values refer to.
use letin.Common.{
  ℕ, suc, ◌<◌, ◌≡◌, ◌≢◌, refl, sym, ap, ◌∙◌, inl, inr, Bool, true, false, List, Option, none, some,
  ◌==◌, ltb, lt→ltb, not, if◌then◌else◌, Bool-cases, arith,
}
use letin.Gc.Headers.{put, Run, done, ◌>>=◌}
use letin.Gc.Chains.{has, put_self, put-ne}
use letin.Loader.Format.{value_type_int, value_type_float, value_type_ref}
use letin.Table.Ops.{Keys, TableRaw, get, add}
use letin.Table.Links.{==_false}
use letin.Table.Fresh.{set_bucket_count_for_nil_ref}
use letin.Table.Held.{IsEquality, IsTable, view, get_lem}
use letin.Table.Adds.{add-view}
use letin.Thread.State.{Value, int, float, ref, error}

pub record FunctionResultCache (A : Type 0) : Type 0 where
  pub is : Option (TableRaw A ℕ)
  pub fs : Option (TableRaw A ℕ)
  pub rs : Option (TableRaw A ℕ)

pub record HashTableMemoizationCache (A : Type 0) : Type 0 where
  pub fun_results : ℕ → FunctionResultCache A
  pub fun_count : ℕ
  pub bucket_count : ℕ

-- What the collector answers to the allocations of one call.
pub record Allocations (A : Type 0) : Type 0 where
  pub table_allocated : Bool
  pub heap : TableRaw A ℕ
  pub new_entry : Option ℕ
  pub key_set : Bool
  pub value_set : Bool

-- All allocations succeed, and the new entry is at `n`.
abbrev pub successful : {A : Type 0} → Bool → TableRaw A ℕ → ℕ → Allocations A
successful allocated table n = record {
  table_allocated = allocated;
  heap = table;
  new_entry = some n;
  key_set = true;
  value_set = true;
}

abbrev pub is_type : ℕ → Bool
is_type value_type =
    if value_type == value_type_int
    then true
    else if value_type == value_type_float
    then true
    else value_type == value_type_ref

-- The value of a type with a word, as the cases of `fun_result` build it.
abbrev pub value_of : ℕ → ℕ → Value
value_of value_type i =
    if value_type == value_type_int
    then int i
    else if value_type == value_type_float
    then float i
    else ref i

abbrev pub has_type : Value → ℕ → Bool
has_type (int i) value_type = value_type == value_type_int
has_type (float f) value_type = value_type == value_type_float
has_type (ref r) value_type = value_type == value_type_ref
has_type v value_type = false

abbrev pub word_of : Value → ℕ
word_of (int i) = i
word_of (float f) = f
word_of (ref r) = r
word_of v = 0

abbrev pub found_value : ℕ → Option ℕ → Value
found_value value_type none = error
found_value value_type (some i) = value_of value_type i

if_true {ℓ} : {B : Type ℓ} (a c : B) {b : Bool} → b ≡ true → (if b then a else c) ≡ a
if_true a c e = rw e refl

if_false {ℓ} : {B : Type ℓ} (a c : B) {b : Bool} → b ≡ false → (if b then a else c) ≡ c
if_false a c e = rw e refl

module _ {A : Type 0} where
  -- `new HashTableMemoizationCache(_M_bucket_count, fun_count)`: the constructor's first parameter is the
  -- function count.
  unfoldable pub new_memoization_cache : ℕ → ℕ → HashTableMemoizationCache A
  new_memoization_cache factory_bucket_count fun_count = record {
    fun_results = λ i. record { is = none; fs = none; rs = none };
    fun_count = factory_bucket_count;
    bucket_count = fun_count;
  }

  unfoldable pub table_of : ℕ → FunctionResultCache A → Option (TableRaw A ℕ)
  table_of value_type r =
      if value_type == value_type_int
      then r.is
      else if value_type == value_type_float
      then r.fs
      else r.rs

  unfoldable pub with_table :
      ℕ → Option (TableRaw A ℕ) → FunctionResultCache A → FunctionResultCache A
  with_table value_type t r =
      if value_type == value_type_int
      then record r { is = t }
      else if value_type == value_type_float
      then record r { fs = t }
      else record r { rs = t }

  unfoldable pub with_results :
      ℕ → ℕ → Option (TableRaw A ℕ) → HashTableMemoizationCache A → HashTableMemoizationCache A
  unfolding with_table put
  with_results i value_type t c = record c {
    fun_results = put c.fun_results i (with_table value_type t (c.fun_results i));
  }

  module _ (keys : Keys A) (args_ok : A → Bool) (result_ok : Value → Bool) where
    unfoldable pub fetch : ℕ → ℕ → ℕ → A → HashTableMemoizationCache A → Run Value
    unfolding table_of
    fetch fuel i value_type args c =
        get keys fuel args (table_of value_type (c.fun_results i)) >>= λ (o : Option ℕ).
        done (found_value value_type o)

    unfoldable pub fun_result : ℕ → ℕ → ℕ → A → HashTableMemoizationCache A → Run Value
    unfolding fetch
    fun_result fuel i value_type args c =
        if not (ltb i c.fun_count)
        then done error
        else if not (args_ok args)
        then done error
        else if is_type value_type
        then fetch fuel i value_type args c
        else done error

    unfoldable pub add_to_table :
        ℕ → Allocations A → ℕ → A → ℕ → Option (TableRaw A ℕ) → Run (Bool × Option (TableRaw A ℕ))
    add_to_table fuel new bucket_count args v t =
        let r = set_bucket_count_for_nil_ref new.table_allocated bucket_count new.heap t in
        if r.0
        then add keys fuel new.new_entry new.key_set new.value_set args v (r.1)
        else done (false, r.1)

    unfoldable pub store :
        ℕ
        → Allocations A
        → ℕ
        → ℕ
        → A
        → ℕ
        → HashTableMemoizationCache A
        → Run (Bool × HashTableMemoizationCache A)
    unfolding add_to_table table_of with_results
    store fuel new i value_type args w c =
        add_to_table fuel new c.bucket_count args w (table_of value_type (c.fun_results i))
        >>= λ (r : Bool × Option (TableRaw A ℕ)). done (r.0, with_results i value_type (r.1) c)

    unfoldable pub add_fun_result :
        ℕ
        → Allocations A
        → ℕ
        → ℕ
        → A
        → Value
        → HashTableMemoizationCache A
        → Run (Bool × HashTableMemoizationCache A)
    unfolding store
    add_fun_result fuel new i value_type args v c =
        if not (ltb i c.fun_count)
        then done (true, c)
        else if not (has_type v value_type)
        then done (true, c)
        else if not (args_ok args)
        then done (true, c)
        else if not (result_ok v)
        then done (true, c)
        else if is_type value_type
        then store fuel new i value_type args (word_of v) c
        else done (true, c)

    table-with :
        (value_type : ℕ) (t : Option (TableRaw A ℕ)) (r : FunctionResultCache A)
        → table_of value_type (with_table value_type t r) ≡ t
    unfolding table_of with_table
    table-with value_type t r = elim (Bool-cases (value_type == value_type_int)) [
      | inl y ↦ rw y refl
      | inr n ↦ elim (Bool-cases (value_type == value_type_float)) [
        | inl y ↦ rw (n, y) refl
        | inr m ↦ rw (n, m) refl
      ]
    ]

    fetch-with :
        (fuel i value_type : ℕ) (args : A) (t : Option (TableRaw A ℕ))
        (c : HashTableMemoizationCache A)
        → fetch fuel i value_type args (with_results i value_type t c)
          ≡ (get keys fuel args t >>= λ (o : Option ℕ). done (found_value value_type o))
    unfolding fetch with_results
    fetch-with fuel i value_type args t c =
        ap (λ q. get keys fuel args q >>= λ (o : Option ℕ). done (found_value value_type o))
          (ap (table_of value_type)
              (put_self c.fun_results i (with_table value_type t (c.fun_results i)))
            ∙ table-with value_type t (c.fun_results i))

    fun_result-fetch :
        (fuel i value_type : ℕ) (args : A) (c : HashTableMemoizationCache A)
        → ltb i c.fun_count ≡ true
        → is_type value_type ≡ true
        → args_ok args ≡ true
        → fun_result fuel i value_type args c ≡ fetch fuel i value_type args c
    unfolding fun_result
    fun_result-fetch fuel i value_type args c lt ty ok = rw (lt, ty, ok) refl

    with_results-below :
        (j i value_type : ℕ) (t : Option (TableRaw A ℕ)) (c : HashTableMemoizationCache A)
        → ltb j c.fun_count ≡ true
        → ltb j (with_results i value_type t c).fun_count ≡ true
    unfolding with_results
    with_results-below j i value_type t c lt = lt

    -- A result of another function stays.
    fun_result-other :
        (i value_type : ℕ) (t : Option (TableRaw A ℕ)) (c : HashTableMemoizationCache A)
        (fuel j other_type : ℕ) (args : A)
        → (j == i) ≡ false
        → fun_result fuel j other_type args (with_results i value_type t c)
          ≡ fun_result fuel j other_type args c
    unfolding fun_result fetch with_results
    fun_result-other i value_type t c fuel j other_type args ne =
        rw (put-ne c.fun_results i (with_table value_type t (c.fun_results i)) j ne) refl

    typed_value :
        (value_type w : ℕ)
        → is_type value_type ≡ true
        → (has_type (value_of value_type w) value_type ≡ true)
          × (word_of (value_of value_type w) ≡ w)
    typed_value value_type w ty = elim (Bool-cases (value_type == value_type_int)) [
      | inl y ↦ rw y (y, refl)
      | inr n ↦ elim (Bool-cases (value_type == value_type_float)) [
        | inl y ↦ rw (n, y) (y, refl)
        | inr m ↦ rw (n, m) (rw (n, m) at ty, refl)
      ]
    ]

    add_fun_result-store :
        (fuel : ℕ) (new : Allocations A) (i value_type : ℕ) (args : A) (v : Value)
        (c : HashTableMemoizationCache A)
        → ltb i c.fun_count ≡ true
        → has_type v value_type ≡ true
        → args_ok args ≡ true
        → result_ok v ≡ true
        → is_type value_type ≡ true
        → add_fun_result fuel new i value_type args v c
          ≡ store fuel new i value_type args (word_of v) c
    unfolding add_fun_result
    add_fun_result-store fuel new i value_type args v c lt has ok rok ty =
        rw (lt, has, ok, rok, ty) refl

    fetch-at :
        (fuel i value_type : ℕ) (args : A) (c : HashTableMemoizationCache A) (t : TableRaw A ℕ)
        → table_of value_type (c.fun_results i) ≡ some t
        → fetch fuel i value_type args c
          ≡ (get keys fuel args (some t) >>= λ (o : Option ℕ). done (found_value value_type o))
    unfolding fetch
    fetch-at fuel i value_type args c t here =
        ap (λ q. get keys fuel args q >>= λ (o : Option ℕ). done (found_value value_type o)) here

    store-added :
        (fuel : ℕ) (allocated : Bool) (heap : TableRaw A ℕ) (n i value_type : ℕ) (args : A) (w : ℕ)
        (c : HashTableMemoizationCache A) (t u : TableRaw A ℕ)
        → table_of value_type (c.fun_results i) ≡ some t
        → add keys fuel (some n) true true args w (some t) ≡ done (true, some u)
        → store fuel (successful allocated heap n) i value_type args w c
          ≡ done (true, with_results i value_type (some u) c)
    unfolding store add_to_table set_bucket_count_for_nil_ref
    store-added fuel allocated heap n i value_type args w c t u here e = rw (here, e) refl

    -- For arguments whose equality is an equivalence that the hash respects, as for argument lists of
    -- integers, but not for lists with tuples or arrays of references, of which equal_objects finds
    -- different ones equal: a result of a function is added to a table that the cache has for it, and all
    -- allocations succeed. Then fun_result answers with the result for the arguments and those equal to
    -- them; for other arguments and for other functions it answers as before. The arguments and the result
    -- may be memoized, the function's index is below the function count, and the fuel is more than the
    -- length of a bucket.
    pub result_memoized :
        (laws : IsEquality keys) (room fuel : ℕ) (t : TableRaw A ℕ) (cells : ℕ → List ℕ) (n : ℕ)
        (allocated : Bool) (heap : TableRaw A ℕ) (i value_type w : ℕ) (args : A)
        (c : HashTableMemoizationCache A)
        → i < c.fun_count
        → is_type value_type ≡ true
        → args_ok args ≡ true
        → result_ok (value_of value_type w) ≡ true
        → table_of value_type (c.fun_results i) ≡ some t
        → IsTable keys room t cells
        → room < fuel
        → n ≢ 0
        → ((j : ℕ) → j < t.bucket_count → has n (cells j) ≡ false)
        → (d : HashTableMemoizationCache A) × (add_fun_result fuel
              (successful allocated heap n)
              i
              value_type
              args
              (value_of value_type w)
              c
            ≡ done (true, d))
          × ((other : A)
              → args_ok other ≡ true
              → keys.equal args other ≡ true
              → fun_result fuel i value_type other d ≡ done (value_of value_type w))
          × ((other : A)
              → args_ok other ≡ true
              → keys.equal args other ≡ false
              → fun_result fuel i value_type other d ≡ fun_result fuel i value_type other c)
          × ((m j other_type : ℕ) (other : A)
              → j ≢ i
              → fun_result m j other_type other d ≡ fun_result m j other_type other c)
    result_memoized laws room fuel t cells n allocated heap i value_type w args c lt ty ok rok here
          held le nz new =
        let a = add-view keys laws room fuel t cells n args w held (omega arith) nz new in
        let u = a.0 in
        let d = with_results i value_type (some u) c in
        let v = typed_value value_type w ty in
        let below = lt→ltb i c.fun_count lt in
        let from_d : (other : A)
            → args_ok other ≡ true
            → fun_result fuel i value_type other d
              ≡ done (found_value value_type (view keys u (a.1) other)) =
          λ other ook.
            fun_result-fetch fuel i value_type other d
              (with_results-below i i value_type (some u) c below) ty ook
            ∙ fetch-with fuel i value_type other (some u) c
            ∙ ap then_found (get_lem keys laws (suc room) u (a.1) (a.3) fuel other (omega arith)) in
        (
          d,
          add_fun_result-store fuel (successful allocated heap n) i value_type args
                (value_of value_type w) c below (v.0) ok rok ty
              ∙ ap (λ q. store fuel (successful allocated heap n) i value_type args q c) (v.1)
              ∙ store-added fuel allocated heap n i value_type args w c t u here (a.2),
          λ other ook eq.
              from_d other ook
              ∙ ap (λ o. done (found_value value_type o))
                  (a.4 other ∙ if_true (some w) (view keys t cells other) eq),
          λ other ook ne.
              from_d other ook
              ∙ ap (λ o. done (found_value value_type o))
                  (a.4 other ∙ if_false (some w) (view keys t cells other) ne)
              ∙ sym (
                  fun_result-fetch fuel i value_type other c below ty ook
                  ∙ fetch-at fuel i value_type other c t here
                  ∙ ap then_found (get_lem keys laws room t cells held fuel other (omega arith))),
          λ m j other_type other ne.
              fun_result-other i value_type (some u) c m j other_type other (==_false j i ne),
        )
      where
        then_found : Run (Option ℕ) → Run Value
        then_found r = r >>= λ (o : Option ℕ). done (found_value value_type o)
