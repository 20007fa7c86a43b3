-- ===== src/Gc/Collect.antt =====
-- vm/gc/mark_sweep_gc.cpp: `mark_from_object`, `mark`, `sweep` and `collect`. `children` gives the
-- objects that `traverse_child_objects` calls its function with, in order.
use letin.Common.{ℕ, zero, suc, true, false, List, [], ◌∷◌, none, some, ◌==◌, if◌then◌else◌}
use letin.Gc.Headers.{
  put, Collector, is_marked, mark_and_push_header, Run, done, broken, out_of_fuel, ◌>>=◌,
}

-- What one thread context gives `mark`: the objects of `traverse_root_objects`, and `gc_tmp_ptr`, with
-- 0 for a null pointer.
pub record ThreadRoots : Type 0 where
  pub roots : List ℕ
  pub gc_tmp_ptr : ℕ

unfoldable pub visit : ℕ → Collector → Collector
unfolding is_marked mark_and_push_header
visit p c = if is_marked c p then c else mark_and_push_header p c

unfoldable pub visit_all : List ℕ → Collector → Collector
unfolding visit
visit_all [] c = c
visit_all (p ∷ ps) c = visit_all ps (visit p c)

-- `ptr_to_header(gc_tmp_ptr)->stack_prev = &_S_nil`
unfoldable pub mark_tmp : ℕ → Collector → Collector
unfolding put
mark_tmp t c = if t == 0 then c else record c { stack_prev = put c.stack_prev t (some 0) }

module _ (children : ℕ → List ℕ) where
  -- The loop over the stack.
  unfoldable pub drain : ℕ → Collector → Run Collector
  unfolding visit_all
  drain zero c = elim (c.stack_top == 0) [ true ↦ done c | false ↦ out_of_fuel ]
  drain (suc fuel) c = elim (c.stack_top == 0) [
    | true ↦ done c
    | false ↦ elim (c.stack_prev c.stack_top) [
      | none ↦ broken
      | some q ↦ drain fuel (visit_all (children c.stack_top) (record c { stack_top = q }))
    ]
  ]

  unfoldable pub mark_from_object : ℕ → ℕ → Collector → Run Collector
  unfolding is_marked mark_and_push_header drain
  mark_from_object fuel p c =
      if is_marked c p then done c else drain fuel (mark_and_push_header p c)

  unfoldable pub mark_from_objects : ℕ → List ℕ → Collector → Run Collector
  unfolding mark_from_object
  mark_from_objects fuel [] c = done c
  mark_from_objects fuel (p ∷ ps) c = mark_from_object fuel p c >>= λ d. mark_from_objects fuel ps d

  unfoldable pub mark_threads : ℕ → List ThreadRoots → Collector → Run Collector
  unfolding mark_from_objects mark_tmp
  mark_threads fuel [] c = done c
  mark_threads fuel (t ∷ ts) c =
      mark_from_objects fuel t.roots c >>= λ d. mark_threads fuel ts (mark_tmp t.gc_tmp_ptr d)

  unfoldable pub mark : ℕ → List ThreadRoots → List ℕ → Collector → Run Collector
  unfolding mark_threads mark_from_objects
  mark fuel threads vm_roots c =
      mark_threads fuel threads c >>= λ d. mark_from_objects fuel vm_roots d

-- What `header_ptr` points at: `_M_list_first`, or the `list_next` of a header.
pub data Place : Type 0 where
  first : Place
  after : ℕ → Place

unfoldable pub read_place : Place → Collector → ℕ
read_place first c = c.list_first
read_place (after p) c = c.list_next p

unfoldable pub write_place : Place → ℕ → Collector → Collector
unfolding put
write_place first h c = record c { list_first = h }
write_place (after p) h c = record c { list_next = put c.list_next p h }

unfoldable pub unmark : ℕ → Collector → Collector
unfolding put
unmark h c = record c { stack_prev = put c.stack_prev h none }

-- The collector, and the headers that were finalized and freed, in order.
unfoldable pub sweep_from : ℕ → Place → Collector → Run (Collector × List ℕ)
unfolding read_place write_place unmark is_marked
sweep_from zero place c = elim (read_place place c == 0) [
  | true ↦ done (c, [])
  | false ↦ out_of_fuel
]
sweep_from (suc fuel) place c =
    let h = read_place place c in
    elim (h == 0) [
      | true ↦ done (c, [])
      | false ↦ elim (is_marked c h) [
        | false ↦
            sweep_from fuel place (write_place place (c.list_next h) c) >>= λ r. done (r.0, h ∷ r.1)
        | true ↦ sweep_from fuel (after h) (unmark h c)
      ]
    ]

unfoldable pub sweep : ℕ → Collector → Run (Collector × List ℕ)
unfolding sweep_from
sweep fuel c = sweep_from fuel first c

unfoldable pub collect :
    (ℕ → List ℕ) → ℕ → List ThreadRoots → List ℕ → Collector → Run (Collector × List ℕ)
unfolding mark sweep
collect children fuel threads vm_roots c =
    mark children fuel threads vm_roots c >>= λ d. sweep fuel d
