-- ===== src/Table/Adds.antt =====
-- vm/hash_table.hpp: `add` puts a key's value into the map.
use letin.Common.{
  ℕ, suc, ◌≤◌, ◌<◌, ◌≡◌, ◌≢◌, refl, sym, ap, subst, ◌∙◌, ◌⊎◌, inl, inr, true, false, List, [], ◌∷◌,
  ◌++◌, some, ◌==◌, if◌then◌else◌, Bool-cases, ==_iff, length,
}
use letin.Gc.Headers.{put, done}
use letin.Gc.Chains.{has, has-ne, put_self, put-ne}
use letin.Table.Ops.{
  Keys, TableRaw, bucket_index, get_found, add, add_new, add_found, link_entry, set_link,
}
use letin.Table.Links.{Dll, Dll-frame, Dll-last_cases, Dll-cast, Dll-add, ==_false, set_link-ne}
use letin.Table.Values.{
  has-append_cases, equal_keys, one_more, up, found-append_none, found-append_miss,
  set_value-IsTable, set_value-bucket_view,
}
use letin.Table.Held.{
  absurd_bool, IsEquality, found, IsTable, bucket_view, view, view-bucket_view, found-cases_at,
  found-agree, found-nonzero, equal-same, same_bucket, bucket_index-lt, find_lem,
}

-- The entries with one more at the end of bucket `i`.
unfoldable pub with_entry : ℕ → ℕ → (ℕ → List ℕ) → ℕ → List ℕ
unfolding put
with_entry i n cells = put cells i (cells i ++ n ∷ [])

module _ {K V : Type 0} (keys : Keys K) where
  module _ (laws : IsEquality keys) (room : ℕ) (t : TableRaw K V) (cells : ℕ → List ℕ)
      (held : IsTable keys room t cells) (k : K) (v : V) where
    module _ (i n : ℕ) (here : bucket_index keys k t ≡ i) (nz : n ≢ 0)
        (new : (j : ℕ) → j < t.bucket_count → has n (cells j) ≡ false)
        (absent : (x : ℕ) → has x (cells i) ≡ true → keys.equal (t.key x) k ≡ false) where
      in_range : i < t.bucket_count
      in_range = subst (λ q. q < t.bucket_count) here (bucket_index-lt keys k t held.some_bucket)

      -- The last entry of the bucket is none of another.
      last_apart :
          (j a : ℕ)
          → j < t.bucket_count
          → (j == i) ≡ false
          → has a (cells j) ≡ true
          → (a == t.last_entry_r i) ≡ false
      last_apart j a lt ne h =
          elim (Dll-last_cases t.prev_r t.next_r (t.first_entry_r i) (t.last_entry_r i) (cells i)
            (held.linked i in_range)) [
              | inl z ↦
                  ap (λ q. a == q) z
                  ∙ ==_false a 0 (found-nonzero keys laws room t cells held j a lt h)
              | inr m ↦ ==_false a (t.last_entry_r i) (λ e.
                  absurd_bool
                    ((==_iff j i).1 (
                      sym (held.hashed j a lt h)
                      ∙ ap (λ q. bucket_index keys (t.key q) t) e
                      ∙ held.hashed i (t.last_entry_r i) in_range m))
                    ne)
            ]

      with_entry_self : with_entry i n cells i ≡ cells i ++ n ∷ []
      unfolding with_entry
      with_entry_self = put_self cells i (cells i ++ n ∷ [])

      with_entry-ne : (j : ℕ) → (j == i) ≡ false → with_entry i n cells j ≡ cells j
      unfolding with_entry
      with_entry-ne j ne = put-ne cells i (cells i ++ n ∷ []) j ne

      link-first_self :
          (link_entry keys i n k v t).first_entry_r i
          ≡ (if t.last_entry_r i == 0 then n else t.first_entry_r i)
      unfolding link_entry
      link-first_self = elim (Bool-cases (t.last_entry_r i == 0)) [
        | inl y ↦ rw y (put_self t.first_entry_r i n)
        | inr m ↦ rw m refl
      ]

      link-first_ne :
          (j : ℕ)
          → (j == i) ≡ false
          → (link_entry keys i n k v t).first_entry_r j ≡ t.first_entry_r j
      unfolding link_entry
      link-first_ne j ne = elim (Bool-cases (t.last_entry_r i == 0)) [
        | inl y ↦ rw y (put-ne t.first_entry_r i n j ne)
        | inr m ↦ rw m refl
      ]

      link-linked :
          (j : ℕ)
          → j < t.bucket_count
          → Dll
              (link_entry keys i n k v t).prev_r
              (link_entry keys i n k v t).next_r
              0
              ((link_entry keys i n k v t).first_entry_r j)
              ((link_entry keys i n k v t).last_entry_r j)
              (with_entry i n cells j)
      unfolding link_entry
      link-linked j lt = elim (Bool-cases (j == i)) [
        | inl y ↦
            subst
              (λ q.
                Dll (link_entry keys i n k v t).prev_r (link_entry keys i n k v t).next_r 0
                  ((link_entry keys i n k v t).first_entry_r q)
                  ((link_entry keys i n k v t).last_entry_r q) (with_entry i n cells q))
              (sym ((==_iff j i).0 y))
              (Dll-cast (put t.prev_r n (t.last_entry_r i))
                (set_link (put t.next_r n 0) (t.last_entry_r i) n) 0 link-first_self
                (put_self t.last_entry_r i n) with_entry_self
                (Dll-add t.prev_r t.next_r (t.first_entry_r i) (t.last_entry_r i) n (cells i) nz
                  (new i in_range) (held.linked i in_range)))
        | inr ne ↦
            Dll-cast (put t.prev_r n (t.last_entry_r i))
              (set_link (put t.next_r n 0) (t.last_entry_r i) n) 0 (link-first_ne j ne)
              (put-ne t.last_entry_r i n j ne) (with_entry-ne j ne)
              (Dll-frame t.prev_r t.next_r (put t.prev_r n (t.last_entry_r i))
                (set_link (put t.next_r n 0) (t.last_entry_r i) n) 0 (t.first_entry_r j)
                (t.last_entry_r j) (cells j)
                (λ a h. put-ne t.prev_r n (t.last_entry_r i) a (has-ne a n (cells j) (new j lt) h))
                (λ a h.
                  set_link-ne (put t.next_r n 0) (t.last_entry_r i) n a (last_apart j a lt ne h)
                  ∙ put-ne t.next_r n 0 a (has-ne a n (cells j) (new j lt) h))
                (held.linked j lt))
      ]

      -- An entry of a bucket was one before, or is the new one.
      with_entry-cases :
          (j a : ℕ)
          → has a (with_entry i n cells j) ≡ true
          → (has a (cells j) ≡ true) ⊎ ((j ≡ i) × (a ≡ n))
      with_entry-cases j a h = elim (Bool-cases (j == i)) [
        | inl y ↦
            let e = (==_iff j i).0 y in
            elim (has-append_cases a n (cells i)
              (subst (λ xs. has a xs ≡ true) (ap (with_entry i n cells) e ∙ with_entry_self) h)) [
                | inl m ↦ inl (subst (λ q. has a (cells q) ≡ true) (sym e) m)
                | inr same ↦ inr (e, same)
              ]
        | inr ne ↦ inl (subst (λ xs. has a xs ≡ true) (with_entry-ne j ne) h)
      ]

      link-key_old :
          (j a : ℕ)
          → j < t.bucket_count
          → has a (cells j) ≡ true
          → (link_entry keys i n k v t).key a ≡ t.key a
      unfolding link_entry
      link-key_old j a lt h = put-ne t.key n k a (has-ne a n (cells j) (new j lt) h)

      link-key_new : (a : ℕ) → a ≡ n → (link_entry keys i n k v t).key a ≡ k
      unfolding link_entry
      link-key_new a e = ap (put t.key n k) e ∙ put_self t.key n k

      link-bucket_index :
          (k' : K) → bucket_index keys k' (link_entry keys i n k v t) ≡ bucket_index keys k' t
      unfolding link_entry bucket_index
      link-bucket_index k' = refl

      link-bucket_count : (link_entry keys i n k v t).bucket_count ≡ t.bucket_count
      unfolding link_entry
      link-bucket_count = refl

      -- An old entry's key is not equal to the new one.
      absent_at : (j x : ℕ) → j ≡ i → has x (cells j) ≡ true → keys.equal (t.key x) k ≡ false
      absent_at j x e h = absent x (subst (λ q. has x (cells q) ≡ true) e h)

      link-distinct :
          (j x y : ℕ)
          → j < t.bucket_count
          → has x (with_entry i n cells j) ≡ true
          → has y (with_entry i n cells j) ≡ true
          → keys.equal ((link_entry keys i n k v t).key x) ((link_entry keys i n k v t).key y)
            ≡ true
          → x ≡ y
      link-distinct j x y lt hx hy eq = elim (with_entry-cases j x hx) [
        | inl ox ↦ elim (with_entry-cases j y hy) [
          | inl oy ↦
              held.distinct j x y lt ox oy
                (equal_keys keys (link-key_old j x lt ox) (link-key_old j y lt oy) eq)
          | inr ny ↦
              absurd_bool (equal_keys keys (link-key_old j x lt ox) (link-key_new y (ny.1)) eq)
                (absent_at j x (ny.0) ox)
        ]
        | inr nx ↦ elim (with_entry-cases j y hy) [
          | inl oy ↦
              absurd_bool
                (laws.symmetric k (t.key y)
                  (equal_keys keys (link-key_new x (nx.1)) (link-key_old j y lt oy) eq))
                (absent_at j y (nx.0) oy)
          | inr ny ↦ nx.1 ∙ sym (ny.1)
        ]
      ]

      link-IsTable : IsTable keys (suc room) (link_entry keys i n k v t) (with_entry i n cells)
      unfolding link_entry
      link-IsTable = record {
        some_bucket = held.some_bucket;
        linked = link-linked;
        short = λ j lt. elim (Bool-cases (j == i)) [
          | inl y ↦
              subst (λ q. length (with_entry i n cells q) ≤ suc room) (sym ((==_iff j i).0 y))
                (subst (λ xs. length xs ≤ suc room) (sym with_entry_self)
                  (one_more (cells i) n (held.short i in_range)))
          | inr ne ↦
              subst (λ xs. length xs ≤ suc room) (sym (with_entry-ne j ne)) (up (held.short j lt))
        ];
        hashed = λ j x lt h.
            link-bucket_index ((link_entry keys i n k v t).key x) ∙ elim (with_entry-cases j x h) [
              | inl o ↦
                  ap (λ q. bucket_index keys q t) (link-key_old j x lt o) ∙ held.hashed j x lt o
              | inr m ↦ ap (λ q. bucket_index keys q t) (link-key_new x (m.1)) ∙ here ∙ sym (m.0)
            ];
        distinct = link-distinct;
      }

      -- What is found under a key that is not equal to the new one.
      link-found_other :
          (k' : K)
          → keys.equal k k' ≡ false
          → found keys
              (link_entry keys i n k v t)
              k'
              (with_entry i n cells (bucket_index keys k' t))
            ≡ found keys t k' (cells (bucket_index keys k' t))
      link-found_other k' ne =
          let u = link_entry keys i n k v t in
          let j = bucket_index keys k' t in
          let lt : j < t.bucket_count = bucket_index-lt keys k' t held.some_bucket in
          let old : found keys u k' (cells j) ≡ found keys t k' (cells j) =
            found-agree keys t u k' k' (cells j)
              (λ x h. ap (λ q. keys.equal q k') (link-key_old j x lt h)) in
          elim (Bool-cases (j == i)) [
            | inl y ↦
                let e : j ≡ i = (==_iff j i).0 y in
                ap (found keys u k') (
                  ap (with_entry i n cells) e
                  ∙ with_entry_self
                  ∙ ap (λ q. cells q ++ n ∷ []) (sym e))
                ∙ found-append_miss keys u k' n (cells j)
                    (ap (λ q. keys.equal q k') (link-key_new n refl) ∙ ne)
                ∙ old
            | inr m ↦ ap (found keys u k') (with_entry-ne j m) ∙ old
          ]

      found_if :
          (k' : K)
          → keys.equal k k' ≡ true
          → (if keys.equal ((link_entry keys i n k v t).key n) k' then n else 0) ≡ n
      found_if k' y = rw (link-key_new n refl, y) refl

      link-found_new :
          (k' : K)
          → keys.equal k k' ≡ true
          → found keys
              (link_entry keys i n k v t)
              k'
              (with_entry i n cells (bucket_index keys k' t))
            ≡ n
      link-found_new k' y =
          let u = link_entry keys i n k v t in
          let e : bucket_index keys k' t ≡ i =
            same_bucket keys laws room t cells held k k' y ∙ here in
          ap (found keys u k') (ap (with_entry i n cells) e ∙ with_entry_self)
          ∙ found-append_none keys u k' n (cells i) (λ x h.
            ap (λ q. keys.equal q k') (link-key_old i x in_range h)
            ∙ equal-same keys laws room t cells held (t.key x) k k' y
            ∙ absent x h)
          ∙ found_if k' y

      link-get_found_new : get_found keys (link_entry keys i n k v t) n ≡ some v
      unfolding link_entry get_found
      link-get_found_new = rw (==_false n 0 nz, put_self t.value n v) refl

      link-get_found_other :
          (a : ℕ)
          → (a == n) ≡ false
          → get_found keys (link_entry keys i n k v t) a ≡ get_found keys t a
      unfolding link_entry get_found
      link-get_found_other a ne = rw (put-ne t.value n v a ne) refl

      link-bucket_view :
          (k' : K)
          → bucket_view keys (link_entry keys i n k v t) (with_entry i n cells) k'
            ≡ (if keys.equal k k' then some v else bucket_view keys t cells k')
      unfolding bucket_view
      link-bucket_view k' =
          let u = link_entry keys i n k v t in
          let j = bucket_index keys k' t in
          let lt : j < t.bucket_count = bucket_index-lt keys k' t held.some_bucket in
          ap (λ q. get_found keys u (found keys u k' (with_entry i n cells q)))
            (link-bucket_index k')
          ∙ elim (Bool-cases (keys.equal k k')) [
            | inl y ↦ rw y (ap (get_found keys u) (link-found_new k' y) ∙ link-get_found_new)
            | inr ne ↦ rw ne (
                ap (get_found keys u) (link-found_other k' ne)
                ∙ link-get_found_other (found keys t k' (cells j))
                    (elim (found-cases_at keys laws room t cells held k') [
                      | inl c ↦ ap (λ q. q == n) (c.0) ∙ ==_false 0 n (λ z. nz (sym z))
                      | inr c ↦ has-ne (found keys t k' (cells j)) n (cells j) (new j lt) (c.1)
                    ]))
          ]

  -- What the code finds after an addition.
  add-bucket_view :
      (laws : IsEquality keys) (room fuel : ℕ) (t : TableRaw K V) (cells : ℕ → List ℕ) (n : ℕ)
      (k : K) (v : V)
      → IsTable keys room t cells
      → room ≤ fuel
      → n ≢ 0
      → ((j : ℕ) → j < t.bucket_count → has n (cells j) ≡ false)
      → (u : TableRaw K V) × (cells' : ℕ → List ℕ) × (add keys fuel (some n) true true k v (some t)
          ≡ done (true, some u))
        × IsTable keys (suc room) u cells'
        × ((k' : K)
            → bucket_view keys u cells' k'
              ≡ (if keys.equal k k' then some v else bucket_view keys t cells k'))
  unfolding add add_found add_new
  add-bucket_view laws room fuel t cells n k v held le nz new =
      let i = bucket_index keys k t in
      elim (found-cases_at keys laws room t cells held k) [
        | inl c ↦ (
          link_entry keys i n k v t,
          with_entry i n cells,
          rw (find_lem keys laws room t cells held fuel k le, c.0) refl,
          link-IsTable laws room t cells held k v i n refl nz new (c.1),
          link-bucket_view laws room t cells held k v i n refl nz new (c.1),
        )
        | inr c ↦
            let e = found keys t k (cells i) in
            (
              record t { value = put t.value e v },
              cells,
              rw (find_lem keys laws room t cells held fuel k le, c.0) refl,
              set_value-IsTable keys laws room t cells held k v e,
              λ k'. set_value-bucket_view keys laws room t cells held k v k' e refl (c.0) (c.2),
            )
      ]

  -- Keys with an equality that is an equivalence and that their hashes respect (as argument lists of
  -- integers, but not lists with tuples or arrays of references, of which equal_objects finds different
  -- ones equal): a key with a value is added. Where all allocations succeed, the table then is the map
  -- with the value at the key and the keys equal to it, and the other keys keep what they had. The block
  -- that new_object answers is not null and is no entry of the table; the fuel is at least the length of
  -- the longest bucket.
  pub add-view :
      (laws : IsEquality keys) (room fuel : ℕ) (t : TableRaw K V) (cells : ℕ → List ℕ) (n : ℕ)
      (k : K) (v : V)
      → IsTable keys room t cells
      → room ≤ fuel
      → n ≢ 0
      → ((j : ℕ) → j < t.bucket_count → has n (cells j) ≡ false)
      → (u : TableRaw K V) × (cells' : ℕ → List ℕ) × (add keys fuel (some n) true true k v (some t)
          ≡ done (true, some u))
        × IsTable keys (suc room) u cells'
        × ((k' : K)
            → view keys u cells' k' ≡ (if keys.equal k k' then some v else view keys t cells k'))
  add-view laws room fuel t cells n k v held le nz new =
      let (u, cells', e, table, after) =
        add-bucket_view laws room fuel t cells n k v held le nz new in
      (
        u,
        cells',
        e,
        table,
        λ k'.
            view-bucket_view keys laws (suc room) u cells' table k'
            ∙ after k'
            ∙ ap (λ o. if keys.equal k k' then some v else o)
                (sym (view-bucket_view keys laws room t cells held k')),
      )
