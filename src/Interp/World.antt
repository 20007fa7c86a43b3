-- ===== src/Interp/World.antt =====
-- vm/vm/interp_vm.cpp: the state that a step of the interpreter works on, which is a thread and the
-- objects, and how an error is raised. A step is `none` where the source leaves what happens undefined.
use letin.Common.{ℕ, Bool, List, Option, none, some}
use letin.Interp.Outcome.{ErrorCode, error_number, Outcome, done, failed}
use letin.Thread.Errors.{set_error}
use letin.Thread.Outer.{Machine}
use letin.Thread.State.{Value, Context, Method}
use letin.Values.{Kind, Heap}
use letin.Values.Size.{Layout}

pub record World : Type 0 where
  pub machine : Machine
  pub heap : Heap

abbrev pub context_of : World → Context
context_of w = w.machine.context

abbrev pub Act : Type 0 → Type 0
Act A = World → Option (A × World)

infixl 5 ◌>>=◌ ◌>>◌
abbrev pub ◌>>=◌ : {A B : Type 0} → Act A → (A → Act B) → Act B
◌>>=◌ m f w = elim (m w) [ none ↦ none | some (a, w') ↦ f a w' ]

abbrev pub ◌>>◌ : {A B : Type 0} → Act A → Act B → Act B
m >> k = m >>= λ _. k

abbrev pub pure : {A : Type 0} → A → Act A
pure a w = some (a, w)

abbrev pub with_context : World → Context → World
with_context w c = record w { machine = record w.machine { context = c } }

abbrev pub on_thread : {A : Type 0} → Method A → Act A
on_thread m w = elim (m w.machine.context) [
  | none ↦ none
  | some (a, c) ↦ some (a, with_context w c)
]

-- `context.set_error(code, r)`
unfoldable pub raise_code : ℕ → ℕ → Act (Unit {0})
raise_code e r w = elim (set_error e r w.machine) [
  | none ↦ none
  | some m ↦ some (tt, record w { machine = m })
]

unfoldable pub raise_with : ErrorCode → ℕ → Act (Unit {0})
unfolding raise_code
raise_with e = raise_code (error_number e)

-- `context.set_error(code)`
unfoldable pub raise : ErrorCode → Act (Unit {0})
unfolding raise_code
raise e = raise_code (error_number e) 0

abbrev pub Step : Type 0 → Type 0
Step A = Act (Outcome A)

-- `if(!m) return false;`
infixl 5 ◌>=>◌
abbrev pub ◌>=>◌ : {A B : Type 0} → Step A → (A → Step B) → Step B
◌>=>◌ m f w = elim (m w) [
  | none ↦ none
  | some (done a, w') ↦ f a w'
  | some (failed e, w') ↦ some (failed e, w')
]

abbrev pub finish : {A : Type 0} → A → Step A
finish a w = some (done a, w)

-- The error is set, and the step returns false.
unfoldable pub fail : {A : Type 0} → ErrorCode → Step A
unfolding raise
fail e = raise e >> pure (failed e)

-- What the interpreter is given: the global variables; the forcing of a lazy value, which takes the value in
-- a cell to what the cell holds then and runs the interpreter again; whether the evaluation is eager; the
-- layout of objects, whether there is memory for a size, and what each cell of new memory holds; the conversions
-- from a `float` pattern to a double, and from a double to a `float` pattern.
pub record Runtime : Type 0 where
  pub globals : List Value
  pub force_value : Value → Act (Outcome (Unit {0}) × Value)
  pub eager : Bool
  pub layout : Layout
  pub has_memory : Heap → ℕ → Bool
  pub memory : Heap → Kind → ℕ → Value
  pub format_float : ℕ → ℕ
  pub round_float : ℕ → ℕ
