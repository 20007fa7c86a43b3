-- ===== src/Gc/Headers.antt =====
-- vm/gc/mark_sweep_gc.hpp: the headers of the collector's objects. A header's fields are functions of
-- its address; address 0 is `_S_nil`, and `none` is a null pointer.
use letin.Common.{ℕ, Bool, true, false, Option, none, some, ◌==◌, if◌then◌else◌}

-- A field of the header at `p` is set.
unfoldable pub put {ℓ} : {A : Type ℓ} → (ℕ → A) → ℕ → A → ℕ → A
put f p v a = if a == p then v else f a

pub record Collector : Type 0 where
  pub list_next : ℕ → ℕ
  pub stack_prev : ℕ → Option ℕ
  pub list_first : ℕ
  pub stack_top : ℕ
  pub immortal_list_first : ℕ

abbrev pub is_some : Option ℕ → Bool
is_some none = false
is_some (some p) = true

unfoldable pub is_marked : Collector → ℕ → Bool
is_marked c p = is_some (c.stack_prev p)

unfoldable pub add_header : ℕ → Collector → Collector
unfolding put
add_header h c = record c { list_next = put c.list_next h c.list_first; list_first = h }

unfoldable pub add_immortal_header : ℕ → Collector → Collector
unfolding put
add_immortal_header h c = record c {
  list_next = put c.list_next h c.immortal_list_first;
  immortal_list_first = h;
}

unfoldable pub mark_and_push_header : ℕ → Collector → Collector
unfolding put
mark_and_push_header h c = record c {
  stack_prev = put c.stack_prev h (some c.stack_top);
  stack_top = h;
}

-- How a run of the collector ends; `broken` goes on through a null pointer.
pub data Run {ℓ} (A : Type ℓ) : Type ℓ where
  done : A → Run A
  broken : Run A
  out_of_fuel : Run A

infixl 5 ◌>>=◌
abbrev pub ◌>>=◌ {ℓ κ} : {A : Type ℓ} {B : Type κ} → Run A → (A → Run B) → Run B
done a >>= f = f a
broken >>= f = broken
out_of_fuel >>= f = out_of_fuel
