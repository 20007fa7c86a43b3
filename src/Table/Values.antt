-- ===== src/Table/Values.antt =====
-- vm/hash_table.hpp: `add` where the table has the key, and lists with one more entry.
use letin.Common.{
  ℕ, suc, ◌≤◌, ◌≡◌, refl, sym, ap, subst, ◌∙◌, ◌⊎◌, inl, inr, true, false, List, [], ◌∷◌, ◌++◌,
  some, ◌==◌, if◌then◌else◌, Bool-cases, length, length-append, arith,
}
use letin.Gc.Headers.{put}
use letin.Gc.Chains.{has, has-none, has-head, has-first, has-tail, has-cases, put_self, put-ne}
use letin.Table.Ops.{Keys, TableRaw, bucket_index, get_found}
use letin.Table.Links.{==_false, ==_flip}
use letin.Table.Held.{
  absurd_bool, IsEquality, found, IsTable, bucket_view, found-cases_at, found-agree, found-same,
}

pub has-append_cases :
    (a n : ℕ) (xs : List ℕ) → has a (xs ++ n ∷ []) ≡ true → (has a xs ≡ true) ⊎ (a ≡ n)
has-append_cases a n [] h = elim (has-cases a n [] h) [ inl e ↦ inr e | inr t ↦ cc (has-none a, t) ]
has-append_cases a n (x ∷ xs) h = elim (has-cases a x (xs ++ n ∷ []) h) [
  | inl e ↦ inl (has-first a x xs e)
  | inr t ↦ elim (has-append_cases a n xs t) [ inl m ↦ inl (has-tail a x xs m) | inr e ↦ inr e ]
]

pub equal_keys :
    {K : Type 0} (keys : Keys K) {a a' b b' : K}
    → a ≡ a'
    → b ≡ b'
    → keys.equal a b ≡ true
    → keys.equal a' b' ≡ true
equal_keys keys {a} {a'} {b} {b'} ea eb e =
    ap (keys.equal a') (sym eb) ∙ ap (λ q. keys.equal q b) (sym ea) ∙ e

pub one_more :
    (xs : List ℕ) (n : ℕ) {room : ℕ} → length xs ≤ room → length (xs ++ n ∷ []) ≤ suc room
one_more xs n le = omega (arith, length-append xs (n ∷ []))

pub up : {a room : ℕ} → a ≤ room → a ≤ suc room
up le = omega arith

module _ {K V : Type 0} (keys : Keys K) where
  pub found-append_none :
      (t : TableRaw K V) (k : K) (n : ℕ) (xs : List ℕ)
      → ((x : ℕ) → has x xs ≡ true → keys.equal (t.key x) k ≡ false)
      → found keys t k (xs ++ n ∷ []) ≡ (if keys.equal (t.key n) k then n else 0)
  unfolding found
  found-append_none t k n [] h = refl
  found-append_none t k n (x ∷ xs) h =
      rw (h x (has-head x xs)) (found-append_none t k n xs (λ a m. h a (has-tail a x xs m)))

  pub found-append_miss :
      (t : TableRaw K V) (k : K) (n : ℕ) (xs : List ℕ)
      → keys.equal (t.key n) k ≡ false
      → found keys t k (xs ++ n ∷ []) ≡ found keys t k xs
  unfolding found
  found-append_miss t k n [] h = rw h refl
  found-append_miss t k n (x ∷ xs) h = rw (found-append_miss t k n xs h) refl

  module _ (laws : IsEquality keys) (room : ℕ) (t : TableRaw K V) (cells : ℕ → List ℕ)
      (held : IsTable keys room t cells) (k : K) (v : V) where
    -- Entries with keys that are not equal are two.
    other_entry :
        (k' : K) (a b : ℕ)
        → keys.equal (t.key a) k ≡ true
        → keys.equal (t.key b) k' ≡ true
        → keys.equal k k' ≡ false
        → (b == a) ≡ false
    other_entry k' a b own own' ne = ==_false b a (λ e.
        absurd_bool
          (laws.transitive k (t.key a) k' (laws.symmetric (t.key a) k own)
            (subst (λ q. keys.equal (t.key q) k' ≡ true) e own'))
          ne)

    -- The value of an entry is replaced.
    pub set_value-IsTable :
        (e : ℕ) → IsTable keys (suc room) (record t { value = put t.value e v }) cells
    unfolding bucket_index
    set_value-IsTable e = record {
      some_bucket = held.some_bucket;
      linked = held.linked;
      short = λ j lt. up (held.short j lt);
      hashed = held.hashed;
      distinct = held.distinct;
    }

    get_found-set :
        (e a : ℕ)
        → (a == e) ≡ false
        → get_found keys (record t { value = put t.value e v }) a ≡ get_found keys t a
    unfolding get_found
    get_found-set e a ne = rw (put-ne t.value e v a ne) refl

    get_found-set_self :
        (e : ℕ)
        → (e == 0) ≡ false
        → get_found keys (record t { value = put t.value e v }) e ≡ some v
    unfolding get_found
    get_found-set_self e nz = rw (nz, put_self t.value e v) refl

    pub set_value-bucket_view :
        (k' : K) (e : ℕ)
        → found keys t k (cells (bucket_index keys k t)) ≡ e
        → (e == 0) ≡ false
        → keys.equal (t.key e) k ≡ true
        → bucket_view keys (record t { value = put t.value e v }) cells k'
          ≡ (if keys.equal k k' then some v else bucket_view keys t cells k')
    unfolding bucket_view bucket_index
    set_value-bucket_view k' e is nz own =
        let u = record t { value = put t.value e v } in
        let i = bucket_index keys k' t in
        let same : found keys u k' (cells i) ≡ found keys t k' (cells i) =
          found-agree keys t u k' k' (cells i) (λ x h. refl) in
        ap (get_found keys u) same ∙ elim (Bool-cases (keys.equal k k')) [
          | inl y ↦ rw y (
              ap (get_found keys u) (found-same keys laws room t cells held k k' y ∙ is)
              ∙ get_found-set_self e nz)
          | inr ne ↦ rw ne (elim (found-cases_at keys laws room t cells held k') [
            | inl c ↦
                get_found-set e (found keys t k' (cells i))
                  (ap (λ q. q == e) (c.0) ∙ ==_flip e 0 nz)
            | inr c ↦
                get_found-set e (found keys t k' (cells i))
                  (other_entry k' e (found keys t k' (cells i)) own (c.2) ne)
          ])
        ]
