-- ===== src/Tests/Collecting.antt =====
-- vm/gc/mark_sweep_gc.cpp: collections at concrete inputs.
use letin.Common.{
  ℕ, ◌≡◌, refl, inl, inr, true, List, [], ◌∷◌, none, some, ◌==◌, if◌then◌else◌, arith,
}
use letin.Common.{◌<◌, false}
use letin.Gc.Entries.{first_entries, table_traversed}
use letin.Gc.Live.{refers, live_slot_kept}
use letin.Gc.Traversal.{GcRegisters, hash_table, traverse_root_objects, traverse_child_objects}
use letin.Tests.Tables.{int_args, one_entry, one_cell, one_entry-IsTable}
use letin.Thread.Outer.{ReturnValue, Machine}
use letin.Thread.State.{int, ref, error, initial_registers}
use letin.Gc.Headers.{Collector, is_marked, done}
use letin.Gc.Chains.{has, has-none, has-cases, Chain}
use letin.Gc.Collect.{ThreadRoots, collect}
use letin.Gc.Roots.{is_root, no_threads, a_thread}
use letin.Gc.Whole.{Start, Collected, collect-Collected}
use letin.Gc.Allocation.{allocate, allocate-Start}

-- Two objects that refer to each other.
abbrev pair_children : ℕ → List ℕ
pair_children p = if p == 1 then 2 ∷ [] else if p == 2 then 1 ∷ [] else []

abbrev pair_thread : ThreadRoots
pair_thread = record { roots = 1 ∷ []; gc_tmp_ptr = 0 }

-- The list of the headers 3, 2 and 1.
abbrev three_headers : Collector
three_headers = record {
  list_next = λ p. if p == 3 then 2 else if p == 2 then 1 else 0;
  stack_prev = λ p. none;
  list_first = 3;
  stack_top = 0;
  immortal_list_first = 0;
}

pair-in_children :
    (p : ℕ)
    → has p (1 ∷ 2 ∷ []) ≡ true
    → (q : ℕ) → has q (pair_children p) ≡ true
    → has q (1 ∷ 2 ∷ []) ≡ true
unfolding has
pair-in_children p h q e = elim (has-cases p 1 (2 ∷ []) h) [
  | inl one ↦ elim (has-cases q 2 [] (rw one at e)) [
    | inl two ↦ rw two refl
    | inr none_left ↦ cc (has-none q, none_left)
  ]
  | inr t ↦ elim (has-cases p 2 [] t) [
    | inl two ↦ elim (has-cases q 1 [] (rw two at e)) [
      | inl one ↦ rw one refl
      | inr none_left ↦ cc (has-none q, none_left)
    ]
    | inr none_left ↦ cc (has-none p, none_left)
  ]
]

pair-in_threads : (p : ℕ) → is_root p (pair_thread ∷ []) ≡ true → has p (1 ∷ 2 ∷ []) ≡ true
unfolding is_root has
pair-in_threads p e = ground arith

pair-Start : Start pair_children (pair_thread ∷ []) [] (1 ∷ 2 ∷ []) (3 ∷ 2 ∷ 1 ∷ []) three_headers
unfolding Chain has is_marked is_root
pair-Start = record {
  empty = refl;
  chain = (refl, omega arith, refl, (refl, omega arith, refl, (refl, omega arith, refl, refl)));
  marked_child = λ p m. cc (m);
  threads = a_thread (record { fresh = λ nz. elim (nz refl) [ ] }) no_threads;
  nonzero = refl;
  in_threads = pair-in_threads;
  in_vm = λ p h. cc (h);
  in_marked = λ p m. cc (m);
  in_children = pair-in_children;
}

collect-Collected_example :
    (d : Collector) × (freed : List ℕ) × (collect pair_children 3
        (pair_thread ∷ [])
        []
        three_headers
      ≡ done (d, freed))
    × Collected pair_children (pair_thread ∷ []) [] (3 ∷ 2 ∷ 1 ∷ []) three_headers d freed
collect-Collected_example =
    collect-Collected pair_children (pair_thread ∷ []) [] (1 ∷ 2 ∷ []) (3 ∷ 2 ∷ 1 ∷ [])
      three_headers 3 pair-Start (omega arith) (omega arith)

allocate-Start_example :
    (d : Collector) × (u : ThreadRoots) × (allocate (some 9) (some pair_thread) three_headers
      ≡ (some 9, some u, d))
    × (is_root 9 (u ∷ []) ≡ true)
    × Start pair_children (u ∷ []) [] (9 ∷ 1 ∷ 2 ∷ []) (9 ∷ 3 ∷ 2 ∷ 1 ∷ []) d
unfolding has
allocate-Start_example =
    allocate-Start pair_children pair_thread [] [] (1 ∷ 2 ∷ []) (3 ∷ 2 ∷ 1 ∷ []) three_headers 9
      pair-Start (omega arith) refl refl refl

abbrev zero_value : ReturnValue
zero_value = record { i = 0; f = 0; r = 0; error_code = 0 }

-- A thread with one value in its stack, a reference to 1.
abbrev live_machine : Machine
live_machine = record {
  context = record {
    regs = record initial_registers { sec = 1 };
    stack = ref 1 ∷ int 0 ∷ [];
    expr_stack = [];
  };
  outer = record {
    nfbp = 0;
    enfbp = 0;
    arg_instr_flag = false;
    rv = zero_value;
    force_tmp_rv = zero_value;
    force_tmp_r = 0;
    force_tmp_r2 = 0;
    force_tmp_rv2 = zero_value;
  };
}

abbrev no_refs : GcRegisters
no_refs = record {
  tmp_r = 0;
  tmp_expr_value0 = error;
  tmp_expr_value1 = error;
  registered_refs = [];
}

live_slot_kept_example :
    (d : Collector) × (freed : List ℕ) × (collect pair_children 3
        (record { roots = traverse_root_objects live_machine no_refs; gc_tmp_ptr = 0 } ∷ [])
        []
        three_headers
      ≡ done (d, freed))
    × (has 1 freed ≡ false)
unfolding traverse_root_objects has
live_slot_kept_example =
    live_slot_kept pair_children live_machine no_refs 0 [] [] (1 ∷ 2 ∷ []) (3 ∷ 2 ∷ 1 ∷ [])
      three_headers 3 0 1 (ref 1) pair-Start (omega arith) (omega arith) (omega arith) refl refers
      (omega arith)

table_traversed_example :
    (rs : List ℕ) × (traverse_child_objects 1 one_entry.next_r
        (hash_table (first_entries one_entry.first_entry_r 0 1))
      ≡ done rs)
    × ((j x : ℕ) → j < 1 → has x (one_cell j) ≡ true → has x rs ≡ true)
table_traversed_example =
    table_traversed int_args 1 1 one_entry one_cell one_entry-IsTable (omega arith)
