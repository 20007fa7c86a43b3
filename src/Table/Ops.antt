-- ===== src/Table/Ops.antt =====
-- vm/hash_table.hpp: `HashTable`. An entry is its reference, with 0 for a nil reference, and the fields of
-- the entries and of the buckets are functions. What new_object answers, what `set_key` and `set_value`
-- answer and the functors `_Hash` and `_Equal` are parameters.
use letin.Common.{
  ℕ, zero, suc, ◌+◌, ◌-◌, ◌%◌, Bool, true, false, Option, none, some, ◌==◌, if◌then◌else◌,
}
use letin.Gc.Headers.{put, Run, done, out_of_fuel, ◌>>=◌}

pub record Keys (K : Type 0) : Type 0 where
  pub hash : K → ℕ
  pub equal : K → K → Bool

pub record TableRaw (K V : Type 0) : Type 0 where
  pub bucket_count : ℕ
  pub entry_count : ℕ
  pub first_entry_r : ℕ → ℕ
  pub last_entry_r : ℕ → ℕ
  pub prev_r : ℕ → ℕ
  pub next_r : ℕ → ℕ
  pub key : ℕ → K
  pub value : ℕ → V

-- A field of an entry is set, unless the reference is nil.
unfoldable pub set_link : (ℕ → ℕ) → ℕ → ℕ → ℕ → ℕ
unfolding put
set_link f p v = if p == 0 then f else put f p v

module _ {K V : Type 0} (keys : Keys K) where
  unfoldable pub bucket_index : K → TableRaw K V → ℕ
  bucket_index k t = keys.hash k % t.bucket_count

  -- The loop of `find_entry_and_set_bucket_index`.
  unfoldable pub find_from : ℕ → K → ℕ → TableRaw K V → Run ℕ
  find_from zero k p t = elim (p == 0) [ true ↦ done 0 | false ↦ out_of_fuel ]
  find_from (suc fuel) k p t = elim (p == 0) [
    | true ↦ done 0
    | false ↦ elim (keys.equal (t.key p) k) [
      | true ↦ done p
      | false ↦ find_from fuel k (t.next_r p) t
    ]
  ]

  unfoldable pub find_entry_and_set_bucket_index : ℕ → K → TableRaw K V → Run ℕ
  unfolding find_from bucket_index
  find_entry_and_set_bucket_index fuel k t = find_from fuel k (t.first_entry_r (bucket_index k t)) t

  unfoldable pub get_found : TableRaw K V → ℕ → Option V
  get_found t e = if e == 0 then none else some (t.value e)

  unfoldable pub get : ℕ → K → Option (TableRaw K V) → Run (Option V)
  unfolding find_entry_and_set_bucket_index get_found
  get fuel k none = done none
  get fuel k (some t) = find_entry_and_set_bucket_index fuel k t >>= λ (e : ℕ). done (get_found t e)

  -- The new entry goes behind the last one of its bucket.
  unfoldable pub link_entry : ℕ → ℕ → K → V → TableRaw K V → TableRaw K V
  unfolding put set_link
  link_entry i n k v t = record t {
    entry_count = t.entry_count + 1;
    first_entry_r = if t.last_entry_r i == 0 then put t.first_entry_r i n else t.first_entry_r;
    last_entry_r = put t.last_entry_r i n;
    prev_r = put t.prev_r n (t.last_entry_r i);
    next_r = set_link (put t.next_r n 0) (t.last_entry_r i) n;
    key = put t.key n k;
    value = put t.value n v;
  }

  unfoldable pub add_new :
      Option ℕ → Bool → Bool → K → V → TableRaw K V → Bool × Option (TableRaw K V)
  unfolding link_entry bucket_index
  add_new none key_set value_set k v t = (false, some t)
  add_new (some n) key_set value_set k v t =
      if key_set
      then if value_set
        then (true, some (link_entry (bucket_index k t) n k v t))
        else (false, some t)
      else (false, some t)

  unfoldable pub add_found :
      Option ℕ → Bool → Bool → K → V → TableRaw K V → ℕ → Bool × Option (TableRaw K V)
  unfolding add_new put
  add_found new_entry key_set value_set k v t e =
      if e == 0
      then add_new new_entry key_set value_set k v t
      else (true, some (record t { value = put t.value e v }))

  unfoldable pub add :
      ℕ
      → Option ℕ
      → Bool
      → Bool
      → K
      → V
      → Option (TableRaw K V)
      → Run (Bool × Option (TableRaw K V))
  unfolding find_entry_and_set_bucket_index add_found
  add fuel new_entry key_set value_set k v none = done (true, none)
  add fuel new_entry key_set value_set k v (some t) =
      find_entry_and_set_bucket_index fuel k t >>= λ (e : ℕ).
      done (add_found new_entry key_set value_set k v t e)

  unfoldable pub unlink_entry : ℕ → ℕ → TableRaw K V → TableRaw K V
  unfolding put set_link
  unlink_entry i e t = record t {
    entry_count = t.entry_count - 1;
    first_entry_r =
        if t.first_entry_r i == e then put t.first_entry_r i (t.next_r e) else t.first_entry_r;
    last_entry_r =
        if t.last_entry_r i == e then put t.last_entry_r i (t.prev_r e) else t.last_entry_r;
    prev_r = put (set_link t.prev_r (t.next_r e) (t.prev_r e)) e 0;
    next_r = put (set_link t.next_r (t.prev_r e) (t.next_r e)) e 0;
  }

  unfoldable pub del_found : K → TableRaw K V → ℕ → Bool × Option (TableRaw K V)
  unfolding unlink_entry bucket_index
  del_found k t e =
      if e == 0 then (false, some t) else (true, some (unlink_entry (bucket_index k t) e t))

  unfoldable pub del : ℕ → K → Option (TableRaw K V) → Run (Bool × Option (TableRaw K V))
  unfolding find_entry_and_set_bucket_index del_found
  del fuel k none = done (false, none)
  del fuel k (some t) =
      find_entry_and_set_bucket_index fuel k t >>= λ (e : ℕ). done (del_found k t e)
