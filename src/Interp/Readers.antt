-- ===== src/Interp/Readers.antt =====
-- vm/vm/interp_vm.cpp: `get_int`, `get_float` and `get_ref`, and `get_int_value`, `get_float_value` and
-- `get_ref_value`, which pass a lazy value on.
use letin.Common.{ℕ, Bool, true, none, some, ◌==◌, if◌then◌else◌}
use letin.Interp.Fetch.{Reader, fetch, fail_cell, object_at}
use letin.Interp.Outcome.{Outcome, done, failed, incorrect_value, unique_object, again_used_unique}
use letin.Interp.World.{Act, ◌>>=◌, pure, Step, finish, fail, Runtime}
use letin.Loader.Format.{value_type_int, value_type_float, value_type_ref}
use letin.Thread.Saved.{sign_extend}
use letin.Thread.State.{Value, int, float, ref, canceled_ref, lazy_value_ref}
use letin.Values.{Object, is_unique_object}

-- `value.i()`, `value.f()` and `value.r()`
abbrev int_of : Value → ℕ
int_of (int i) = i
int_of v = 0

abbrev float_of : Value → ℕ
float_of (float f) = f
float_of v = 0

abbrev ref_of : Value → ℕ
ref_of (ref r) = r
ref_of (canceled_ref r) = r
ref_of v = 0

abbrev pub kept : {A : Type 0} → (Value → A) → Outcome (Unit {0}) × Value → Act (Outcome A × Value)
kept f (done u, v) = pure (done (f v), v)
kept f (failed e, v) = pure (failed e, v)

module _ (rt : Runtime) where
  -- `force_int`, `force_float` and `force_ref`
  unfoldable pub force : {A : Type 0} → (Value → A) → Value → Act (Outcome A × Value)
  force f v = do x ← rt.force_value v; kept f x

  -- A lazy value of the type is forced; others are not values of the type.
  unfoldable pub forced : {A : Type 0} → (Value → A) → ℕ → ℕ → Bool → Act (Outcome A × Value)
  unfolding force object_at
  forced f t r b = object_at r >>= λ o.
      if o.value_type == t
      then force f (lazy_value_ref r b)
      else fail_cell incorrect_value (lazy_value_ref r b)

  unfoldable pub int_of_cell : Value → Act (Outcome ℕ × Value)
  unfolding forced
  int_of_cell (int i) = pure (done i, int i)
  int_of_cell (lazy_value_ref r b) = forced int_of value_type_int r b
  int_of_cell v = fail_cell incorrect_value v

  unfoldable pub float_of_cell : Value → Act (Outcome ℕ × Value)
  unfolding forced
  float_of_cell (float f) = pure (done f, float f)
  float_of_cell (lazy_value_ref r b) = forced float_of value_type_float r b
  float_of_cell v = fail_cell incorrect_value v

  -- A reference to a unique object is canceled where it is read.
  abbrev pub after_read : Object → ℕ → Value
  after_read o r = if is_unique_object o then canceled_ref r else ref r

  unfoldable pub ref_of_cell : Value → Act (Outcome ℕ × Value)
  unfolding forced object_at
  ref_of_cell (ref r) = object_at r >>= λ o. pure (done r, after_read o r)
  ref_of_cell (lazy_value_ref r b) = forced ref_of value_type_ref r b
  ref_of_cell (canceled_ref r) = fail_cell again_used_unique (canceled_ref r)
  ref_of_cell v = fail_cell incorrect_value v

  unfoldable pub get_int_for_const_value : Value → Step ℕ
  unfolding fail
  get_int_for_const_value (int i) = finish i
  get_int_for_const_value v = fail incorrect_value

  unfoldable pub get_float_for_const_value : Value → Step ℕ
  unfolding fail
  get_float_for_const_value (float f) = finish f
  get_float_for_const_value v = fail incorrect_value

  unfoldable pub get_ref_for_const_value : Value → Step ℕ
  unfolding fail object_at
  get_ref_for_const_value (ref r) =
      object_at r >>= λ o. if is_unique_object o then fail unique_object else finish r
  get_ref_for_const_value v = fail incorrect_value

  -- A popped reference stays a reference in its cell.
  abbrev pub uncanceled : Value → Value
  uncanceled (canceled_ref r) = ref r
  uncanceled v = v

  abbrev pub int_reader : Reader ℕ
  int_reader = record {
    of_cell = int_of_cell;
    of_const = get_int_for_const_value;
    of_imm = λ i. some (sign_extend i);
    put_back = λ v. some v;
  }

  abbrev pub float_reader : Reader ℕ
  float_reader = record {
    of_cell = float_of_cell;
    of_const = get_float_for_const_value;
    of_imm = λ i. some (rt.format_float i);
    put_back = λ v. some v;
  }

  abbrev pub ref_reader : Reader ℕ
  ref_reader = record {
    of_cell = ref_of_cell;
    of_const = get_ref_for_const_value;
    of_imm = λ i. none;
    put_back = λ v. some (uncanceled v);
  }

  unfoldable pub get_int : ℕ → ℕ → ℕ → ℕ → Step ℕ
  unfolding fetch
  get_int = fetch rt.globals int_reader

  unfoldable pub get_float : ℕ → ℕ → ℕ → ℕ → Step ℕ
  unfolding fetch
  get_float = fetch rt.globals float_reader

  unfoldable pub get_ref : ℕ → ℕ → ℕ → ℕ → Step ℕ
  unfolding fetch
  get_ref = fetch rt.globals ref_reader

  -- A lazy value of the type is passed on.
  unfoldable pub lazily : ℕ → ℕ → Bool → Value → Act (Outcome Value × Value)
  unfolding object_at
  lazily t r b after = object_at r >>= λ o.
      if o.value_type == t
      then pure (done (lazy_value_ref r b), after)
      else fail_cell incorrect_value (lazy_value_ref r b)

  unfoldable pub int_value_of_cell : Value → Act (Outcome Value × Value)
  unfolding lazily
  int_value_of_cell (int i) = pure (done (int i), int i)
  int_value_of_cell (lazy_value_ref r b) = lazily value_type_int r b (lazy_value_ref r b)
  int_value_of_cell v = fail_cell incorrect_value v

  unfoldable pub float_value_of_cell : Value → Act (Outcome Value × Value)
  unfolding lazily
  float_value_of_cell (float f) = pure (done (float f), float f)
  float_value_of_cell (lazy_value_ref r b) = lazily value_type_float r b (lazy_value_ref r b)
  float_value_of_cell v = fail_cell incorrect_value v

  unfoldable pub ref_value_of_cell : Value → Act (Outcome Value × Value)
  unfolding lazily object_at
  ref_value_of_cell (ref r) = object_at r >>= λ o. pure (done (ref r), after_read o r)
  ref_value_of_cell (lazy_value_ref r b) = lazily value_type_ref r b (lazy_value_ref r true)
  ref_value_of_cell (canceled_ref r) = fail_cell again_used_unique (canceled_ref r)
  ref_value_of_cell v = fail_cell incorrect_value v

  unfoldable pub get_ref_value_for_const_value : Value → Step Value
  unfolding fail object_at
  get_ref_value_for_const_value (ref r) =
      object_at r >>= λ o. if is_unique_object o then fail unique_object else finish (ref r)
  get_ref_value_for_const_value (canceled_ref r) = fail again_used_unique
  get_ref_value_for_const_value v = fail incorrect_value

  -- The outcome for a global variable, which reading does not change.
  abbrev pub of_unchanged : (Value → Act (Outcome Value × Value)) → Value → Step Value
  of_unchanged of_cell v = of_cell v >>= λ (o, w). pure o

  abbrev pub int_value_reader : Reader Value
  int_value_reader = record {
    of_cell = int_value_of_cell;
    of_const = of_unchanged int_value_of_cell;
    of_imm = λ i. some (int (sign_extend i));
    put_back = λ v. none;
  }

  abbrev pub float_value_reader : Reader Value
  float_value_reader = record {
    of_cell = float_value_of_cell;
    of_const = of_unchanged float_value_of_cell;
    of_imm = λ i. some (float (rt.format_float i));
    put_back = λ v. none;
  }

  abbrev pub ref_value_reader : Reader Value
  ref_value_reader = record {
    of_cell = ref_value_of_cell;
    of_const = get_ref_value_for_const_value;
    of_imm = λ i. none;
    put_back = λ v. none;
  }

  unfoldable pub get_int_value : ℕ → ℕ → ℕ → ℕ → Step Value
  unfolding fetch
  get_int_value = fetch rt.globals int_value_reader

  unfoldable pub get_float_value : ℕ → ℕ → ℕ → ℕ → Step Value
  unfolding fetch
  get_float_value = fetch rt.globals float_value_reader

  unfoldable pub get_ref_value : ℕ → ℕ → ℕ → ℕ → Step Value
  unfolding fetch
  get_ref_value = fetch rt.globals ref_value_reader
