-- ===== src/Table/Held.antt =====
-- vm/hash_table.hpp: when a table holds what its buckets list, and the map that it then is.
use letin.Common.{
  ℕ, zero, suc, ◌%◌, ◌≤◌, ◌<◌, ◌≡◌, ◌≢◌, refl, sym, ap, subst, ◌∙◌, ◌⊎◌, inl, inr, Bool, true,
  false, List, [], ◌∷◌, Option, none, some, ◌==◌, if◌then◌else◌, Bool-cases, length, arith,
}
use letin.Gc.Headers.{done}
use letin.Gc.Chains.{has, has-none, has-head, has-tail, has-cases}
use letin.Gc.Marks.{no_room}
use letin.Table.Ops.{
  Keys, TableRaw, bucket_index, find_from, find_entry_and_set_bucket_index, get_found, get,
}
use letin.Table.Links.{Dll, Dll-nonzero, ==_false}

pub absurd_bool {ℓ} : {A : Type ℓ} {b : Bool} → b ≡ true → b ≡ false → A
absurd_bool y n = elim (true_false (sym y ∙ n)) [ ]
  where
    true_false : true ≡ false → ⊥
    true_false e = cc

-- `_Equal` is an equality, and equal keys have equal hashes.
pub record IsEquality {K : Type 0} (keys : Keys K) : Type 0 where
  pub reflexive : (k : K) → keys.equal k k ≡ true
  pub symmetric : (a b : K) → keys.equal a b ≡ true → keys.equal b a ≡ true
  pub transitive :
      (a b c : K) → keys.equal a b ≡ true → keys.equal b c ≡ true → keys.equal a c ≡ true
  pub same_hash : (a b : K) → keys.equal a b ≡ true → keys.hash a ≡ keys.hash b

module _ {K V : Type 0} (keys : Keys K) where
  -- The first entry of a list with the key, or 0.
  unfoldable pub found : TableRaw K V → K → List ℕ → ℕ
  found t k [] = 0
  found t k (x ∷ xs) = if keys.equal (t.key x) k then x else found t k xs

  -- `cells` lists the entries of each bucket, at most `room` in one.
  pub record IsTable (room : ℕ) (t : TableRaw K V) (cells : ℕ → List ℕ) : Type 0 where
    pub some_bucket : 0 < t.bucket_count
    pub linked :
        (i : ℕ)
        → i < t.bucket_count
        → Dll t.prev_r t.next_r 0 (t.first_entry_r i) (t.last_entry_r i) (cells i)
    pub short : (i : ℕ) → i < t.bucket_count → length (cells i) ≤ room
    pub hashed :
        (i x : ℕ) → i < t.bucket_count → has x (cells i) ≡ true → bucket_index keys (t.key x) t ≡ i
    pub distinct :
        (i x y : ℕ)
        → i < t.bucket_count
        → has x (cells i) ≡ true
        → has y (cells i) ≡ true
        → keys.equal (t.key x) (t.key y) ≡ true
        → x ≡ y

  -- What the code finds in the bucket of the key.
  unfoldable pub bucket_view : TableRaw K V → (ℕ → List ℕ) → K → Option V
  unfolding bucket_index get_found found
  bucket_view t cells k = get_found keys t (found t k (cells (bucket_index keys k t)))

  -- The value of the first entry of a list with the key.
  unfoldable pub looked_up : TableRaw K V → K → List ℕ → Option V
  looked_up t k [] = none
  looked_up t k (x ∷ xs) = if keys.equal (t.key x) k then some (t.value x) else looked_up t k xs

  -- The map from keys to values that the table is: the entries of the list that the hash of the key names.
  unfoldable pub view : TableRaw K V → (ℕ → List ℕ) → K → Option V
  unfolding looked_up
  view t cells k = looked_up t k (cells (keys.hash k % t.bucket_count))

  find-hit :
      (n : ℕ) (k : K) (p : ℕ) (t : TableRaw K V)
      → (p == 0) ≡ false
      → keys.equal (t.key p) k ≡ true
      → find_from keys (suc n) k p t ≡ done p
  unfolding find_from
  find-hit n k p t nz y = rw (nz, y, find_from) refl

  find-miss :
      (n : ℕ) (k : K) (p : ℕ) (t : TableRaw K V)
      → (p == 0) ≡ false
      → keys.equal (t.key p) k ≡ false
      → find_from keys (suc n) k p t ≡ find_from keys n k (t.next_r p) t
  unfolding find_from
  find-miss n k p t nz y = rw (nz, y, find_from) refl

  pub find_from_lem :
      (n : ℕ) (k : K) (b p l : ℕ) (xs : List ℕ) (t : TableRaw K V)
      → Dll t.prev_r t.next_r b p l xs
      → length xs ≤ n
      → find_from keys n k p t ≡ done (found t k xs)
  unfolding find_from Dll found
  find_from_lem zero k b p l [] t d le = rw (d.0) refl
  find_from_lem (suc n) k b p l [] t d le = rw (d.0) refl
  find_from_lem zero k b p l (x ∷ xs) t d le = elim (no_room 0 (length xs) (omega (arith, le))) [ ]
  find_from_lem (suc n) k b p l (x ∷ xs) t d le =
      let rest = find_from_lem n k x (t.next_r x) l xs t (d.4) (omega arith) in
      subst
        (λ q.
          find_from keys (suc n) k q t ≡ done (if keys.equal (t.key x) k then x else found t k xs))
        (sym (d.0))
        (elim (Bool-cases (keys.equal (t.key x) k)) [
          | inl y ↦ rw y (find-hit n k x t (==_false x 0 (d.1)) y)
          | inr m ↦ rw m (find-miss n k x t (==_false x 0 (d.1)) m ∙ rest)
        ])

  pub bucket_index-lt :
      (k : K) (t : TableRaw K V) → 0 < t.bucket_count → bucket_index keys k t < t.bucket_count
  unfolding bucket_index
  bucket_index-lt k t pos = omega arith

  -- An entry was found, or no key of the list is equal.
  pub found-cases :
      (t : TableRaw K V) (k : K) (xs : List ℕ)
      → ((found t k xs ≡ 0) × ((x : ℕ) → has x xs ≡ true → keys.equal (t.key x) k ≡ false))
        ⊎ ((has (found t k xs) xs ≡ true) × (keys.equal (t.key (found t k xs)) k ≡ true))
  unfolding found
  found-cases t k [] = inl (refl, λ x h. cc (has-none x, h))
  found-cases t k (x ∷ xs) = elim (Bool-cases (keys.equal (t.key x) k)) [
    | inl y ↦ rw y (inr (has-head x xs, y))
    | inr n ↦ rw n (elim (found-cases t k xs) [
      | inl c ↦ inl (
        c.0,
        λ a h. elim (has-cases a x xs h) [
          | inl e ↦ ap (λ q. keys.equal (t.key q) k) e ∙ n
          | inr m ↦ c.1 a m
        ],
      )
      | inr c ↦ inr (has-tail (found t k xs) x xs (c.0), c.1)
    ])
  ]

  -- What is found depends on the keys of the list only.
  pub found-agree :
      (t u : TableRaw K V) (k k' : K) (xs : List ℕ)
      → ((x : ℕ) → has x xs ≡ true → keys.equal (u.key x) k' ≡ keys.equal (t.key x) k)
      → found u k' xs ≡ found t k xs
  unfolding found
  found-agree t u k k' [] h = refl
  found-agree t u k k' (x ∷ xs) h =
      rw (h x (has-head x xs), found-agree t u k k' xs (λ a m. h a (has-tail a x xs m))) refl

  module _ (laws : IsEquality keys) (room : ℕ) (t : TableRaw K V) (cells : ℕ → List ℕ)
      (held : IsTable room t cells) where
    -- Keys equal to equal keys are equal.
    pub equal-same : (a k k' : K) → keys.equal k k' ≡ true → keys.equal a k' ≡ keys.equal a k
    equal-same a k k' e = elim (Bool-cases (keys.equal a k)) [
      | inl y ↦ laws.transitive a k k' y e ∙ sym y
      | inr n ↦ elim (Bool-cases (keys.equal a k')) [
        | inl z ↦ absurd_bool (laws.transitive a k' k z (laws.symmetric k k' e)) n
        | inr z ↦ z ∙ sym n
      ]
    ]

    pub same_bucket :
        (k k' : K) → keys.equal k k' ≡ true → bucket_index keys k' t ≡ bucket_index keys k t
    unfolding bucket_index
    same_bucket k k' e = ap (λ h. h % t.bucket_count) (sym (laws.same_hash k k' e))

    pub found-same :
        (k k' : K)
        → keys.equal k k' ≡ true
        → found t k' (cells (bucket_index keys k' t)) ≡ found t k (cells (bucket_index keys k t))
    found-same k k' e =
        ap (λ i. found t k' (cells i)) (same_bucket k k' e)
        ∙ found-agree t t k k' (cells (bucket_index keys k t)) (λ x h. equal-same (t.key x) k k' e)

    pub find_lem :
        (fuel : ℕ) (k : K)
        → room ≤ fuel
        → find_entry_and_set_bucket_index keys fuel k t
          ≡ done (found t k (cells (bucket_index keys k t)))
    unfolding find_entry_and_set_bucket_index
    find_lem fuel k le =
        let lt = bucket_index-lt k t held.some_bucket in
        let short = held.short (bucket_index keys k t) lt in
        find_from_lem fuel k 0 (t.first_entry_r (bucket_index keys k t))
          (t.last_entry_r (bucket_index keys k t)) (cells (bucket_index keys k t)) t
          (held.linked (bucket_index keys k t) lt) (omega arith)

    pub found-nonzero : (i x : ℕ) → i < t.bucket_count → has x (cells i) ≡ true → x ≢ 0
    found-nonzero i x lt h =
        Dll-nonzero t.prev_r t.next_r 0 (t.first_entry_r i) (t.last_entry_r i) x (cells i)
          (held.linked i lt) h

    -- What is found is 0 when nothing of the bucket has the key.
    pub found-cases_at :
        (k : K)
        → ((found t k (cells (bucket_index keys k t)) ≡ 0)
            × ((x : ℕ)
                → has x (cells (bucket_index keys k t)) ≡ true
                → keys.equal (t.key x) k ≡ false))
          ⊎ (((found t k (cells (bucket_index keys k t)) == 0) ≡ false)
              × (has (found t k (cells (bucket_index keys k t))) (cells (bucket_index keys k t))
                  ≡ true)
              × (keys.equal (t.key (found t k (cells (bucket_index keys k t)))) k ≡ true))
    found-cases_at k =
        let i = bucket_index keys k t in
        let e = found t k (cells i) in
        elim (found-cases t k (cells i)) [
          | inl c ↦ inl c
          | inr c ↦ inr (
            ==_false e 0 (found-nonzero i e (bucket_index-lt k t held.some_bucket) (c.0)),
            c.0,
            c.1,
          )
        ]

    looked_up-found :
        (k : K) (xs : List ℕ)
        → ((x : ℕ) → has x xs ≡ true → x ≢ 0)
        → looked_up t k xs ≡ get_found keys t (found t k xs)
    unfolding looked_up found get_found
    looked_up-found k [] h = refl
    looked_up-found k (x ∷ xs) h = elim (Bool-cases (keys.equal (t.key x) k)) [
      | inl y ↦ rw (y, ==_false x 0 (h x (has-head x xs))) refl
      | inr n ↦ rw n (looked_up-found k xs (λ a m. h a (has-tail a x xs m)))
    ]

    -- The code finds in the bucket what the map has.
    pub view-bucket_view : (k : K) → view t cells k ≡ bucket_view t cells k
    unfolding view bucket_view bucket_index
    view-bucket_view k =
        let lt = bucket_index-lt k t held.some_bucket in
        looked_up-found k (cells (bucket_index keys k t))
          (λ x h. found-nonzero (bucket_index keys k t) x lt h)

    -- Keys with an equality that is an equivalence and that their hashes respect (as argument lists of
    -- integers, but not lists with tuples or arrays of references, of which equal_objects finds different
    -- ones equal): looking a key up gives what the map has at it, with as much fuel as the longest bucket
    -- has entries. The map is the value of the first entry with an equal key, in the list of the entries
    -- of the key's bucket.
    pub get_lem :
        (fuel : ℕ) (k : K) → room ≤ fuel → get keys fuel k (some t) ≡ done (view t cells k)
    unfolding get bucket_view
    get_lem fuel k le = rw (find_lem fuel k le) (ap done (sym (view-bucket_view k)))
