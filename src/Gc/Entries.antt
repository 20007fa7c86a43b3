-- ===== src/Gc/Entries.antt =====
-- vm/vm.cpp and vm/hash_table.hpp: the collector finds every entry of a hash table.
use letin.Common.{
  ℕ, zero, suc, ◌+◌, ◌≤◌, ◌<◌, ◌≡◌, ◌≢◌, refl, ap, subst, ◌∙◌, inl, inr, Bool, true, false, List,
  [], ◌∷◌, ◌++◌, ◌==◌, Bool-cases, ==_iff, length, arith,
}
use letin.Gc.Headers.{done, ◌>>=◌}
use letin.Gc.Chains.{has}
use letin.Gc.Live.{has-append_left, has-append_right}
use letin.Gc.Marks.{no_room}
use letin.Gc.Traversal.{entry_objects, bucket_objects, hash_table, traverse_child_objects}
use letin.Table.Held.{IsTable}
use letin.Table.Links.{Dll, ==_false}
use letin.Table.Ops.{Keys, TableRaw}

-- The first entries of `n` buckets, from bucket `i` on.
abbrev pub first_entries : (ℕ → ℕ) → ℕ → ℕ → List ℕ
first_entries f i zero = []
first_entries f i (suc n) = f i ∷ first_entries f (i + 1) n

entry-next :
    (n : ℕ) (nxt : ℕ → ℕ) (p : ℕ)
    → (p == 0) ≡ false
    → entry_objects (suc n) nxt p ≡ (entry_objects n nxt (nxt p) >>= λ (rs : List ℕ). done (p ∷ rs))
unfolding entry_objects
entry-next n nxt p nz = rw (nz, entry_objects) refl

entry_objects_lem :
    (n : ℕ) (prv nxt : ℕ → ℕ) (b p l : ℕ) (xs : List ℕ)
    → Dll prv nxt b p l xs
    → length xs ≤ n
    → entry_objects n nxt p ≡ done xs
unfolding entry_objects Dll
entry_objects_lem zero prv nxt b p l [] d le = rw (d.0) refl
entry_objects_lem (suc n) prv nxt b p l [] d le = rw (d.0) refl
entry_objects_lem zero prv nxt b p l (x ∷ xs) d le =
    elim (no_room 0 (length xs) (omega (arith, le))) [ ]
entry_objects_lem (suc n) prv nxt b p l (x ∷ xs) d le =
    ap (entry_objects (suc n) nxt) (d.0)
    ∙ entry-next n nxt x (==_false x 0 (d.1))
    ∙ ap (λ r. r >>= λ (rs : List ℕ). done (x ∷ rs))
        (entry_objects_lem n prv nxt x (nxt x) l xs (d.4) (omega arith))

module _ {K V : Type 0} (keys : Keys K) (room fuel : ℕ) (t : TableRaw K V) (cells : ℕ → List ℕ)
    (held : IsTable keys room t cells) (enough : room ≤ fuel) where
  buckets_lem :
      (n i : ℕ)
      → i + n ≤ t.bucket_count
      → (rs : List ℕ) × (bucket_objects fuel t.next_r (first_entries t.first_entry_r i n) ≡ done rs)
        × ((j x : ℕ) → i ≤ j → j < i + n → has x (cells j) ≡ true → has x rs ≡ true)
  unfolding bucket_objects
  buckets_lem zero i le = ([], refl, λ j x a b h. elim (empty i j a b) [ ])
    where
      empty : (i j : ℕ) → i ≤ j → j < i + 0 → ⊥
      empty i j a b = omega arith
  buckets_lem (suc n) i le =
      let lt : i < t.bucket_count = omega arith in
      let here =
        entry_objects_lem fuel t.prev_r t.next_r 0 (t.first_entry_r i) (t.last_entry_r i) (cells i)
          (held.linked i lt) (trans (held.short i lt) enough) in
      let rest = buckets_lem n (i + 1) (omega arith) in
      (
        cells i ++ rest.0,
        rw (here, rest.1) refl,
        λ j x a b h. elim (Bool-cases (j == i)) [
          | inl y ↦
              has-append_left x (cells i) (rest.0)
                (subst (λ q. has x (cells q) ≡ true) ((==_iff j i).0 y) h)
          | inr ne ↦
              has-append_right x (cells i) (rest.0)
                (rest.2 j x (above i j a (λ e. not_same ne ((==_iff j i).1 e))) (omega arith) h)
        ],
      )
    where
      trans : {a b c : ℕ} → a ≤ b → b ≤ c → a ≤ c
      trans h g = omega arith

      above : (i j : ℕ) → i ≤ j → j ≢ i → i + 1 ≤ j
      above i j a ne = omega arith

      not_same : {b : Bool} → b ≡ false → b ≡ true → ⊥
      not_same f t = cc (f, t)

  -- The objects that the collector visits from a hash table are found, with as much fuel as the longest
  -- bucket has entries, and every entry of every bucket is one of them.
  pub table_traversed :
      (rs : List ℕ) × (traverse_child_objects fuel t.next_r
          (hash_table (first_entries t.first_entry_r 0 t.bucket_count))
        ≡ done rs)
      × ((j x : ℕ) → j < t.bucket_count → has x (cells j) ≡ true → has x rs ≡ true)
  unfolding traverse_child_objects
  table_traversed =
      let r = buckets_lem t.bucket_count 0 (omega arith) in
      (r.0, r.1, λ j x lt h. r.2 j x (omega arith) (omega arith) h)
