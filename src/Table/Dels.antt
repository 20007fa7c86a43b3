-- ===== src/Table/Dels.antt =====
-- vm/hash_table.hpp: `del` takes a key out of the map.
use letin.Common.{
  ℕ, ◌≤◌, ◌<◌, ◌≡◌, refl, sym, ap, subst, ◌∙◌, inl, inr, true, false, List, not, none, some, ◌==◌,
  if◌then◌else◌, Bool-cases, ==_iff, length,
}
use letin.Gc.Headers.{done}
use letin.Gc.Chains.{has, put_self, put-ne}
use letin.Table.Ops.{Keys, TableRaw, bucket_index, get_found, del, del_found, unlink_entry}
use letin.Table.Links.{Dll, Dll-frame, Dll-cast, ==_false}
use letin.Table.Cuts.{without, cut_prev, cut_next, cut_prev-ne, cut_next-ne, Dll-before, Dll-cut}
use letin.Table.Held.{
  absurd_bool, IsEquality, found, IsTable, bucket_view, view, view-bucket_view, found-cases_at,
  found-agree, found-same, found-nonzero, same_bucket, bucket_index-lt, find_lem,
}
use letin.Table.Removed.{
  is_none, without_entry, has-without, length-without, has-without_self, after_cases, le_trans,
  found-without, found-absent,
}

module _ {K V : Type 0} (keys : Keys K) where
  module _ (laws : IsEquality keys) (room : ℕ) (t : TableRaw K V) (cells : ℕ → List ℕ)
      (held : IsTable keys room t cells) (k : K) (i e : ℕ) (here : bucket_index keys k t ≡ i)
      (member : has e (cells i) ≡ true) (own : keys.equal (t.key e) k ≡ true) where
    in_range : i < t.bucket_count
    in_range = subst (λ q. q < t.bucket_count) here (bucket_index-lt keys k t held.some_bucket)

    without_entry_self : without_entry i e cells i ≡ without e (cells i)
    unfolding without_entry
    without_entry_self = put_self cells i (without e (cells i))

    without_entry-ne : (j : ℕ) → (j == i) ≡ false → without_entry i e cells j ≡ cells j
    unfolding without_entry
    without_entry-ne j ne = put-ne cells i (without e (cells i)) j ne

    no_zero : has 0 (cells i) ≡ false
    no_zero = elim (Bool-cases (has 0 (cells i))) [
      | inl y ↦ elim (found-nonzero keys laws room t cells held i 0 in_range y refl) [ ]
      | inr n ↦ n
    ]

    -- The entries of other buckets are not those of this one.
    apart :
        (j a b : ℕ)
        → j < t.bucket_count
        → (j == i) ≡ false
        → has a (cells j) ≡ true
        → has b (cells i) ≡ true
        → (a == b) ≡ false
    apart j a b lt ne ha hb = ==_false a b (λ eq.
        absurd_bool
          ((==_iff j i).1 (
            sym (held.hashed j a lt ha)
            ∙ ap (λ q. bucket_index keys (t.key q) t) eq
            ∙ held.hashed i b in_range hb))
          ne)

    apart_zero :
        (j a b : ℕ) → j < t.bucket_count → has a (cells j) ≡ true → b ≡ 0 → (a == b) ≡ false
    apart_zero j a b lt ha z =
        ap (λ q. a == q) z ∙ ==_false a 0 (found-nonzero keys laws room t cells held j a lt ha)

    apart_next :
        (j a : ℕ)
        → j < t.bucket_count
        → (j == i) ≡ false
        → has a (cells j) ≡ true
        → (a == t.next_r e) ≡ false
    apart_next j a lt ne ha =
        elim (after_cases t.prev_r t.next_r 0 (t.first_entry_r i) (t.last_entry_r i) e (cells i)
          (held.linked i in_range) member) [
            | inl z ↦ apart_zero j a (t.next_r e) lt ha z
            | inr m ↦ apart j a (t.next_r e) lt ne ha m
          ]

    apart_prev :
        (j a : ℕ)
        → j < t.bucket_count
        → (j == i) ≡ false
        → has a (cells j) ≡ true
        → (a == t.prev_r e) ≡ false
    apart_prev j a lt ne ha =
        elim (Dll-before t.prev_r t.next_r 0 (t.first_entry_r i) (t.last_entry_r i) e (cells i)
          (held.linked i in_range) member) [
            | inl c ↦ apart_zero j a (t.prev_r e) lt ha (c.1)
            | inr c ↦ apart j a (t.prev_r e) lt ne ha (c.1)
          ]

    unlink-first_self :
        (unlink_entry keys i e t).first_entry_r i
        ≡ (if t.first_entry_r i == e then t.next_r e else t.first_entry_r i)
    unfolding unlink_entry
    unlink-first_self = elim (Bool-cases (t.first_entry_r i == e)) [
      | inl y ↦ rw y (put_self t.first_entry_r i (t.next_r e))
      | inr m ↦ rw m refl
    ]

    unlink-first_ne :
        (j : ℕ) → (j == i) ≡ false → (unlink_entry keys i e t).first_entry_r j ≡ t.first_entry_r j
    unfolding unlink_entry
    unlink-first_ne j ne = elim (Bool-cases (t.first_entry_r i == e)) [
      | inl y ↦ rw y (put-ne t.first_entry_r i (t.next_r e) j ne)
      | inr m ↦ rw m refl
    ]

    unlink-last_self :
        (unlink_entry keys i e t).last_entry_r i
        ≡ (if t.last_entry_r i == e then t.prev_r e else t.last_entry_r i)
    unfolding unlink_entry
    unlink-last_self = elim (Bool-cases (t.last_entry_r i == e)) [
      | inl y ↦ rw y (put_self t.last_entry_r i (t.prev_r e))
      | inr m ↦ rw m refl
    ]

    unlink-last_ne :
        (j : ℕ) → (j == i) ≡ false → (unlink_entry keys i e t).last_entry_r j ≡ t.last_entry_r j
    unfolding unlink_entry
    unlink-last_ne j ne = elim (Bool-cases (t.last_entry_r i == e)) [
      | inl y ↦ rw y (put-ne t.last_entry_r i (t.prev_r e) j ne)
      | inr m ↦ rw m refl
    ]

    unlink-linked :
        (j : ℕ)
        → j < t.bucket_count
        → Dll
            (unlink_entry keys i e t).prev_r
            (unlink_entry keys i e t).next_r
            0
            ((unlink_entry keys i e t).first_entry_r j)
            ((unlink_entry keys i e t).last_entry_r j)
            (without_entry i e cells j)
    unfolding unlink_entry cut_prev cut_next
    unlink-linked j lt = elim (Bool-cases (j == i)) [
      | inl y ↦
          subst
            (λ q.
              Dll (unlink_entry keys i e t).prev_r (unlink_entry keys i e t).next_r 0
                ((unlink_entry keys i e t).first_entry_r q)
                ((unlink_entry keys i e t).last_entry_r q) (without_entry i e cells q))
            (sym ((==_iff j i).0 y))
            (Dll-cast (cut_prev t.prev_r t.next_r e) (cut_next t.prev_r t.next_r e) 0
              unlink-first_self unlink-last_self without_entry_self
              (Dll-cut t.prev_r t.next_r 0 (t.first_entry_r i) (t.last_entry_r i) e (cells i)
                no_zero member (held.linked i in_range)))
      | inr ne ↦
          Dll-cast (cut_prev t.prev_r t.next_r e) (cut_next t.prev_r t.next_r e) 0
            (unlink-first_ne j ne) (unlink-last_ne j ne) (without_entry-ne j ne)
            (Dll-frame t.prev_r t.next_r (cut_prev t.prev_r t.next_r e)
              (cut_next t.prev_r t.next_r e) 0 (t.first_entry_r j) (t.last_entry_r j) (cells j)
              (λ a h.
                cut_prev-ne t.prev_r t.next_r e a (apart j a e lt ne h member)
                  (apart_next j a lt ne h))
              (λ a h.
                cut_next-ne t.prev_r t.next_r e a (apart j a e lt ne h member)
                  (apart_prev j a lt ne h))
              (held.linked j lt))
    ]

    stayed : (j a : ℕ) → has a (without_entry i e cells j) ≡ true → has a (cells j) ≡ true
    stayed j a h = elim (Bool-cases (j == i)) [
      | inl y ↦
          let eq = (==_iff j i).0 y in
          subst (λ q. has a (cells q) ≡ true) (sym eq)
            (has-without a e (cells i) (
              subst (λ xs. has a xs ≡ true) (ap (without_entry i e cells) eq ∙ without_entry_self)
                h))
      | inr ne ↦ subst (λ xs. has a xs ≡ true) (without_entry-ne j ne) h
    ]

    unlink-IsTable : IsTable keys room (unlink_entry keys i e t) (without_entry i e cells)
    unfolding unlink_entry bucket_index
    unlink-IsTable = record {
      some_bucket = held.some_bucket;
      linked = unlink-linked;
      short = λ j lt. elim (Bool-cases (j == i)) [
        | inl y ↦
            subst (λ q. length (without_entry i e cells q) ≤ room) (sym ((==_iff j i).0 y))
              (subst (λ xs. length xs ≤ room) (sym without_entry_self)
                (le_trans (length-without e (cells i)) (held.short i in_range)))
        | inr ne ↦ subst (λ xs. length xs ≤ room) (sym (without_entry-ne j ne)) (held.short j lt)
      ];
      hashed = λ j x lt h. held.hashed j x lt (stayed j x h);
      distinct = λ j x y lt hx hy eq. held.distinct j x y lt (stayed j x hx) (stayed j y hy) eq;
    }

    gone : has e (without e (cells i)) ≡ false
    gone =
        has-without_self t.prev_r t.next_r 0 (t.first_entry_r i) (t.last_entry_r i) e (cells i)
          (held.linked i in_range)

    unlink-found :
        (k' : K) (xs : List ℕ) → found keys (unlink_entry keys i e t) k' xs ≡ found keys t k' xs
    unfolding unlink_entry
    unlink-found k' xs = found-agree keys t (unlink_entry keys i e t) k' k' xs (λ x h. refl)

    -- No other entry of the bucket has the key.
    others_differ :
        (k' : K)
        → keys.equal k k' ≡ true
        → (x : ℕ) → has x (without e (cells i)) ≡ true
        → keys.equal (t.key x) k' ≡ false
    others_differ k' y x h = elim (Bool-cases (keys.equal (t.key x) k')) [
      | inr n ↦ n
      | inl z ↦
          let x_k = laws.transitive (t.key x) k' k z (laws.symmetric k k' y) in
          let x_e = laws.transitive (t.key x) k (t.key e) x_k (laws.symmetric (t.key e) k own) in
          let same = held.distinct i x e in_range (has-without x e (cells i) h) member x_e in
          absurd_bool h (ap (λ q. has q (without e (cells i))) same ∙ gone)
    ]

    own_differs : (k' : K) → keys.equal k k' ≡ false → keys.equal (t.key e) k' ≡ false
    own_differs k' ne = elim (Bool-cases (keys.equal (t.key e) k')) [
      | inr n ↦ n
      | inl y ↦ absurd_bool (laws.transitive k (t.key e) k' (laws.symmetric (t.key e) k own) y) ne
    ]

    unlink-found_other :
        (k' : K)
        → keys.equal k k' ≡ false
        → found keys t k' (without_entry i e cells (bucket_index keys k' t))
          ≡ found keys t k' (cells (bucket_index keys k' t))
    unlink-found_other k' ne =
        let j = bucket_index keys k' t in
        elim (Bool-cases (j == i)) [
          | inl y ↦
              let eq : j ≡ i = (==_iff j i).0 y in
              ap (found keys t k') (ap (without_entry i e cells) eq ∙ without_entry_self)
              ∙ found-without keys t k' e (cells i) (own_differs k' ne)
              ∙ ap (λ q. found keys t k' (cells q)) (sym eq)
          | inr m ↦ ap (found keys t k') (without_entry-ne j m)
        ]

    unlink-found_same :
        (k' : K)
        → keys.equal k k' ≡ true
        → found keys t k' (without_entry i e cells (bucket_index keys k' t)) ≡ 0
    unlink-found_same k' y =
        let eq : bucket_index keys k' t ≡ i =
          same_bucket keys laws room t cells held k k' y ∙ here in
        ap (found keys t k') (ap (without_entry i e cells) eq ∙ without_entry_self)
        ∙ found-absent keys t k' (without e (cells i)) (others_differ k' y)

    unlink-bucket_view :
        (k' : K)
        → bucket_view keys (unlink_entry keys i e t) (without_entry i e cells) k'
          ≡ (if keys.equal k k' then none else bucket_view keys t cells k')
    unfolding bucket_view unlink_entry get_found bucket_index
    unlink-bucket_view k' =
        let j = bucket_index keys k' t in
        ap (get_found keys t) (unlink-found k' (without_entry i e cells j))
        ∙ elim (Bool-cases (keys.equal k k')) [
          | inl y ↦ rw y (ap (get_found keys t) (unlink-found_same k' y))
          | inr ne ↦ rw ne (ap (get_found keys t) (unlink-found_other k' ne))
        ]

  absent-bucket_view :
      (laws : IsEquality keys) (room : ℕ) (t : TableRaw K V) (cells : ℕ → List ℕ)
      → IsTable keys room t cells
      → (k : K) → found keys t k (cells (bucket_index keys k t)) ≡ 0
      → (k' : K)
      → bucket_view keys t cells k'
        ≡ (if keys.equal k k' then none else bucket_view keys t cells k')
  unfolding bucket_view get_found
  absent-bucket_view laws room t cells held k z k' = elim (Bool-cases (keys.equal k k')) [
    | inl y ↦ rw y (ap (get_found keys t) (found-same keys laws room t cells held k k' y ∙ z))
    | inr ne ↦ rw ne refl
  ]

  -- What the code finds after a deletion.
  del-bucket_view :
      (laws : IsEquality keys) (room fuel : ℕ) (t : TableRaw K V) (cells : ℕ → List ℕ) (k : K)
      → IsTable keys room t cells
      → room ≤ fuel
      → (u : TableRaw K V) × (cells' : ℕ → List ℕ) × (del keys fuel k (some t)
          ≡ done (not (is_none (bucket_view keys t cells k)), some u))
        × IsTable keys room u cells'
        × ((k' : K)
            → bucket_view keys u cells' k'
              ≡ (if keys.equal k k' then none else bucket_view keys t cells k'))
  unfolding del del_found bucket_view get_found is_none
  del-bucket_view laws room fuel t cells k held le =
      let i = bucket_index keys k t in
      elim (found-cases_at keys laws room t cells held k) [
        | inl c ↦ (
          t,
          cells,
          rw (find_lem keys laws room t cells held fuel k le, c.0) refl,
          held,
          absent-bucket_view laws room t cells held k (c.0),
        )
        | inr c ↦
            let e = found keys t k (cells i) in
            (
              unlink_entry keys i e t,
              without_entry i e cells,
              rw (find_lem keys laws room t cells held fuel k le, c.0) refl,
              unlink-IsTable laws room t cells held k i e refl (c.1) (c.2),
              unlink-bucket_view laws room t cells held k i e refl (c.1) (c.2),
            )
      ]

  -- Keys with an equality that is an equivalence and that their hashes respect (as argument lists of
  -- integers, but not lists with tuples or arrays of references, of which equal_objects finds different
  -- ones equal): a key is deleted. The answer says whether the map had a value at the key, and the table
  -- then is the map without the key and the keys equal to it. The other keys keep what they had; the fuel
  -- is at least the length of the longest bucket.
  pub del-view :
      (laws : IsEquality keys) (room fuel : ℕ) (t : TableRaw K V) (cells : ℕ → List ℕ) (k : K)
      → IsTable keys room t cells
      → room ≤ fuel
      → (u : TableRaw K V) × (cells' : ℕ → List ℕ) × (del keys fuel k (some t)
          ≡ done (not (is_none (view keys t cells k)), some u))
        × IsTable keys room u cells'
        × ((k' : K)
            → view keys u cells' k' ≡ (if keys.equal k k' then none else view keys t cells k'))
  del-view laws room fuel t cells k held le =
      let (u, cells', e, table, after) = del-bucket_view laws room fuel t cells k held le in
      let same = view-bucket_view keys laws room t cells held in
      (
        u,
        cells',
        e ∙ ap (λ o. done (not (is_none o), some u)) (sym (same k)),
        table,
        λ k'.
            view-bucket_view keys laws room u cells' table k'
            ∙ after k'
            ∙ ap (λ o. if keys.equal k k' then none else o) (sym (same k')),
      )
