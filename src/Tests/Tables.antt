-- ===== src/Tests/Tables.antt =====
-- vm/hash_table.hpp: tables at concrete inputs.
use letin.Common.{
  ap, subst, length, ℕ, ◌≡◌, refl, sym, ◌∙◌, inl, inr, true, List, [], ◌∷◌, not, none, some,
  if◌then◌else◌, arith,
}
use letin.Gc.Headers.{done}
use letin.Gc.Chains.{has, has-none, has-cases}
use letin.Link.Env.{same_name}
use letin.Link.Names.{same_name_refl, same_name_sound}
use letin.Table.Ops.{Keys, TableRaw, bucket_index, add, del, get}
use letin.Table.Links.{Dll}
use letin.Table.Held.{IsEquality, IsTable, view, get_lem}
use letin.Table.Adds.{add-view}
use letin.Table.Dels.{del-view}
use letin.Table.Removed.{is_none}

-- Argument lists of integers as keys, which are equal where they have the same integers.
abbrev pub int_args : Keys (List ℕ)
int_args = record { hash = λ (k : List ℕ). length k; equal = same_name }

pub int_args-IsEquality : IsEquality int_args
int_args-IsEquality = record {
  reflexive = same_name_refl;
  symmetric = λ a b e. subst (λ x. same_name x a ≡ true) (same_name_sound a b e) (same_name_refl a);
  transitive = λ a b c e f. subst (λ x. same_name a x ≡ true) (same_name_sound b c f) e;
  same_hash = λ a b e. ap length (same_name_sound a b e);
}

-- One bucket with one entry, at 3, that gives 7 for the arguments (5).
abbrev pub one_entry : TableRaw (List ℕ) ℕ
one_entry = record {
  bucket_count = 1;
  entry_count = 1;
  first_entry_r = λ i. 3;
  last_entry_r = λ i. 3;
  prev_r = λ p. 0;
  next_r = λ p. 0;
  key = λ p. 5 ∷ [];
  value = λ p. 7;
}

abbrev pub one_cell : ℕ → List ℕ
one_cell i = 3 ∷ []

only_three : (x : ℕ) → has x (3 ∷ []) ≡ true → x ≡ 3
only_three x h = elim (has-cases x 3 [] h) [ inl e ↦ e | inr t ↦ cc (has-none x, t) ]

pub one_entry-IsTable : IsTable int_args 1 one_entry one_cell
unfolding Dll has bucket_index
one_entry-IsTable = record {
  some_bucket = omega arith;
  linked = λ i lt. (refl, omega arith, refl, refl, (refl, refl));
  short = λ i lt. omega arith;
  hashed = λ i x lt h. omega arith;
  distinct = λ i x y lt hx hy eq. only_three x hx ∙ sym (only_three y hy);
}

get_lem_example :
    get int_args 1 (5 ∷ []) (some one_entry) ≡ done (view int_args one_entry one_cell (5 ∷ []))
get_lem_example =
    get_lem int_args int_args-IsEquality 1 one_entry one_cell one_entry-IsTable 1 (5 ∷ [])
      (omega arith)

add-view_example :
    (u : TableRaw (List ℕ) ℕ) × (cells' : ℕ → List ℕ) × (add int_args 1
        (some 4)
        true
        true
        (6 ∷ [])
        8
        (some one_entry)
      ≡ done (true, some u))
    × IsTable int_args 2 u cells'
    × ((k' : List ℕ)
        → view int_args u cells' k'
          ≡ (if same_name (6 ∷ []) k' then some 8 else view int_args one_entry one_cell k'))
unfolding has
add-view_example =
    add-view int_args int_args-IsEquality 1 1 one_entry one_cell 4 (6 ∷ []) 8 one_entry-IsTable
      (omega arith) (omega arith) (λ j lt. refl)

del-view_example :
    (u : TableRaw (List ℕ) ℕ) × (cells' : ℕ → List ℕ) × (del int_args 1 (5 ∷ []) (some one_entry)
      ≡ done (not (is_none (view int_args one_entry one_cell (5 ∷ []))), some u))
    × IsTable int_args 1 u cells'
    × ((k' : List ℕ)
        → view int_args u cells' k'
          ≡ (if same_name (5 ∷ []) k' then none else view int_args one_entry one_cell k'))
del-view_example =
    del-view int_args int_args-IsEquality 1 1 one_entry one_cell (5 ∷ []) one_entry-IsTable
      (omega arith)
