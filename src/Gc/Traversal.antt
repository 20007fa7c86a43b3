-- ===== src/Gc/Traversal.antt =====
-- vm/vm.cpp: `ThreadContext::traverse_root_objects` and `traverse_child_objects`. The objects that the
-- function is called with are a list, in order; a nil reference is 0.
use letin.Common.{ℕ, zero, suc, true, false, List, [], ◌∷◌, ◌++◌, ◌==◌, if◌then◌else◌, take}
use letin.Gc.Headers.{Run, done, out_of_fuel, ◌>>=◌}
use letin.Thread.State.{
  Value, int, float, ref, pair, canceled_ref, lazy_value_ref, locked_lazy_value_ref, error,
}
use letin.Thread.Outer.{Machine}

-- The registers and references that only the collector looks at: the list of registered references is
-- circular, and starts at the first.
pub record GcRegisters : Type 0 where
  pub tmp_r : ℕ
  pub tmp_expr_value0 : Value
  pub tmp_expr_value1 : Value
  pub registered_refs : List ℕ

unfoldable pub ref_object : ℕ → List ℕ
ref_object r = if r == 0 then [] else r ∷ []

-- `is_ref_value_type_for_gc`, and the reference of the value
unfoldable pub value_object : Value → List ℕ
unfolding ref_object
value_object (int i) = []
value_object (float f) = []
value_object (ref r) = ref_object r
value_object (pair a b) = []
value_object (canceled_ref r) = ref_object r
value_object (lazy_value_ref r canceled) = ref_object r
value_object (locked_lazy_value_ref r) = ref_object r
value_object error = []

unfoldable pub value_objects : List Value → List ℕ
unfolding value_object
value_objects [] = []
value_objects (v ∷ vs) = value_object v ++ value_objects vs

unfoldable pub ref_objects : List ℕ → List ℕ
unfolding ref_object
ref_objects [] = []
ref_objects (r ∷ rs) = ref_object r ++ ref_objects rs

unfoldable pub traverse_root_objects : Machine → GcRegisters → List ℕ
unfolding value_objects ref_objects value_object ref_object
traverse_root_objects m g =
    value_objects (take m.context.sec m.context.stack)
    ++ (value_objects (take m.context.esec m.context.expr_stack)
        ++ (ref_objects (m.outer.rv.r ∷ g.tmp_r ∷ [])
            ++ (value_object m.context.try_arg2
                ++ (ref_objects (
                      m.context.try_io_r ∷ m.context.try_catch_r ∷ m.outer.force_tmp_rv.r
                      ∷ m.outer.force_tmp_r ∷ m.outer.force_tmp_r2 ∷ m.outer.force_tmp_rv2.r ∷ [])
                    ++ (ref_objects g.registered_refs
                        ++ (value_object g.tmp_expr_value0 ++ value_object g.tmp_expr_value1))))))

-- What an object holds, by its type without OBJECT_TYPE_UNIQUE. `without_refs` is an object of the other
-- types, and the two tables with numbers as values have entries of one kind.
pub data ObjectRaw : Type 0 where
  without_refs : ObjectRaw
  rarray : List ℕ → ObjectRaw
  tuple : List Value → ObjectRaw
  lazy_value : Value → List Value → ObjectRaw
  hash_table : List ℕ → ObjectRaw
  number_entry : ℕ → ObjectRaw
  ref_entry : ℕ → ℕ → ObjectRaw

-- The loop over the entries of a bucket.
unfoldable pub entry_objects : ℕ → (ℕ → ℕ) → ℕ → Run (List ℕ)
entry_objects zero next_r p = elim (p == 0) [ true ↦ done [] | false ↦ out_of_fuel ]
entry_objects (suc fuel) next_r p = elim (p == 0) [
  | true ↦ done []
  | false ↦ entry_objects fuel next_r (next_r p) >>= λ (rs : List ℕ). done (p ∷ rs)
]

-- The loop over the first entries of the buckets.
unfoldable pub bucket_objects : ℕ → (ℕ → ℕ) → List ℕ → Run (List ℕ)
unfolding entry_objects
bucket_objects fuel next_r [] = done []
bucket_objects fuel next_r (p ∷ ps) = entry_objects fuel next_r p >>= λ (rs : List ℕ).
    bucket_objects fuel next_r ps >>= λ (qs : List ℕ). done (rs ++ qs)

unfoldable pub traverse_child_objects : ℕ → (ℕ → ℕ) → ObjectRaw → Run (List ℕ)
unfolding bucket_objects value_objects value_object ref_objects
traverse_child_objects fuel next_r without_refs = done []
traverse_child_objects fuel next_r (rarray rs) = done (ref_objects rs)
traverse_child_objects fuel next_r (tuple vs) = done (value_objects vs)
traverse_child_objects fuel next_r (lazy_value v args) = done (value_object v ++ value_objects args)
traverse_child_objects fuel next_r (hash_table buckets) = bucket_objects fuel next_r buckets
traverse_child_objects fuel next_r (number_entry key) = done (ref_objects (key ∷ []))
traverse_child_objects fuel next_r (ref_entry key value) = done (ref_objects (key ∷ value ∷ []))
