-- ===== src/Tests/Circles.antt =====
-- vm/vm/interp_vm.cpp: two lazy values that refer to each other are marked as shared.
use letin.Common.{ℕ, zero, suc, ◌≡◌, refl, subst, [], ◌∷◌, some, get_elem?, arith, false}
use letin.Interp.Marking.{IsInside, CanRaise}
use letin.Interp.Outcome.{Outcome, unique_object, error_number}
use letin.Interp.Shares.{IsShared, set_lazy_values_as_shared_ends}
use letin.Interp.Sharing.{next_lazy, set_lazy_values_as_shared}
use letin.Interp.World.{World}
use letin.Tests.Worlds.{nil_object, thread_world}
use letin.Thread.Errors.{set_error, set_error_without_try}
use letin.Thread.State.{lazy_value_ref, initial_registers}
use letin.Values.{Object, Heap, lazy_value, fresh_object}

abbrev lazy_to : ℕ → Object
lazy_to r = record (fresh_object lazy_value false []) { value = lazy_value_ref r false }

abbrev circle : Heap
circle = nil_object ∷ lazy_to 2 ∷ lazy_to 1 ∷ []

abbrev circle_world : World
circle_world =
    record (thread_world (record { regs = initial_registers; stack = []; expr_stack = [] })) {
      heap = circle;
    }

some-IsInside : (p o : Object) → some p ≡ some o → IsInside 3 p.value → IsInside 3 o.value
some-IsInside p o e h = let q : p ≡ o = cc in subst (λ x. IsInside 3 x.value) q h

circle-IsInside : (r : ℕ) (o : Object) → get_elem? circle r ≡ some o → IsInside 3 o.value
circle-IsInside zero o e = some-IsInside nil_object o e tt
circle-IsInside (suc zero) o e = some-IsInside (lazy_to 2) o e (omega arith)
circle-IsInside (suc (suc zero)) o e = some-IsInside (lazy_to 1) o e (omega arith)
circle-IsInside (suc (suc (suc r))) o e = absurd cc

can_raise : CanRaise circle_world.machine
unfolding set_error
can_raise = (set_error_without_try (error_number unique_object) 0 circle_world.machine, refl)

set_lazy_values_as_shared_ends_example :
    (o : Outcome (Unit {0})) × (w' : World) × (set_lazy_values_as_shared 4
        (lazy_value_ref 1 false)
        circle_world
      ≡ some (o, w'))
    × IsShared (next_lazy (lazy_value_ref 1 false)) circle o w'.heap
set_lazy_values_as_shared_ends_example =
    set_lazy_values_as_shared_ends (lazy_value_ref 1 false) circle_world
      (record { values = circle-IsInside }) (omega arith) can_raise
