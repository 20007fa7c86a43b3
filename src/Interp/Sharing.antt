-- ===== src/Interp/Sharing.antt =====
-- vm/vm/interp_vm.cpp: `set_lazy_values_as_shared`, on fuel for the length of the chain of lazy values, and
-- `force_pushed_args_for_lazy_eval`. The locks of the lazy values are left out.
use letin.Common.{
  ℕ, zero, suc, ◌+◌, Bool, true, false, Option, none, some, set, not, ltb, ◌==◌, if◌then◌else◌,
}
use letin.Interp.Fetch.{object_at}
use letin.Interp.Objects.{pushed_arg}
use letin.Interp.Outcome.{Outcome, done, failed, unique_object}
use letin.Interp.World.{Act, ◌>>=◌, ◌>>◌, pure, on_thread, Step, finish, fail, Runtime}
use letin.Thread.State.{Value, lazy_value_ref, Registers, modify, write}
use letin.Values.{lazy_value, Object, type_of, type_number, is_unique}

-- `r->type() == OBJECT_TYPE_LAZY_VALUE`
unfoldable pub is_lazy_object : Object → Bool
is_lazy_object o = type_of o == type_number lazy_value false

-- The reference of a value of type VALUE_TYPE_LAZY_VALUE_REF.
abbrev pub next_lazy : Value → Option ℕ
next_lazy (lazy_value_ref r false) = some r
next_lazy v = none

-- `must_be_shared = true`
unfoldable pub mark_shared : ℕ → Object → Act (Unit {0})
mark_shared r o w = some (tt, record w { heap = set w.heap r (record o { must_be_shared = true }) })

-- `lzv.value.is_unique()`
unfoldable pub unique_value : Value → Act Bool
unique_value v w = elim (is_unique w.heap v) [ none ↦ none | some b ↦ some (b, w) ]

unfoldable pub share_chain : ℕ → Option ℕ → Step (Unit {0})
unfolding object_at is_lazy_object unique_value mark_shared fail
share_chain zero r w = none
share_chain (suc n) none w = finish tt w
share_chain (suc n) (some r) w =
    (object_at r >>= λ o.
    let rest = share_chain n (next_lazy o.value) in
    if not (is_lazy_object o)
    then finish tt
    else if o.must_be_shared
    then finish tt
    else unique_value o.value >>= λ b. if b then fail unique_object else (mark_shared r o >> rest))
      w

unfoldable pub set_lazy_values_as_shared : ℕ → Value → Step (Unit {0})
unfolding share_chain
set_lazy_values_as_shared n v = share_chain n (next_lazy v)

abbrev pub first_ai : Registers → Registers
first_ai r = record r { ai = 0 }

abbrev pub next_ai : Registers → Registers
next_ai r = record r { ai = r.ai + 1 }

module _ (rt : Runtime) where
  -- The next argument, where this one was forced.
  abbrev pub next_arg : Outcome (Unit {0}) → Step (Unit {0}) → Step (Unit {0})
  next_arg (failed e) rest = pure (failed e)
  next_arg (done u) rest = on_thread (modify next_ai) >> rest

  -- The loop over the pushed arguments; its index is the register ai.
  unfoldable pub force_args : ℕ → Step (Unit {0})
  unfolding pushed_arg
  force_args zero w = none
  force_args (suc n) w =
      let c = w.machine.context in
      let rest = force_args n in
      (if ltb c.ai c.ac2
          then (pushed_arg c.ai >>= λ v.
              rt.force_value v >>= λ (o, x). on_thread (write (c.abp2 + c.ai) x) >> next_arg o rest)
          else finish tt)
        w

  unfoldable pub force_pushed_args : ℕ → Step (Unit {0})
  unfolding force_args
  force_pushed_args n w =
      if rt.eager
      then finish tt w
      else if w.machine.context.after_leaving_flag1
      then force_args n w
      else (on_thread (modify first_ai) >> force_args n) w
