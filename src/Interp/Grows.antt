-- ===== src/Interp/Grows.antt =====
-- vm/vm/interp_vm.cpp: what a step of the interpreter ensures of the objects.
use letin.Common.{
  ℕ, ◌≡◌, refl, sym, subst, ◌∙◌, Bool, true, false, Option, none, some, get_elem?, if◌then◌else◌,
}
use letin.Interp.Fetch.{object_at}
use letin.Interp.Outcome.{ErrorCode, Outcome, done, failed}
use letin.Interp.World.{
  World, Act, ◌>>=◌, pure, with_context, on_thread, raise_code, raise, Step, ◌>=>◌, finish, fail,
}
use letin.Interp.Outcome.{error_number}
use letin.Thread.Errors.{set_error}
use letin.Thread.Outer.{Machine}
use letin.Thread.State.{Context, Method}
use letin.Values.{Object, Heap, type_of}

-- The object at the reference has the type.
pub record IsObject (t : ℕ) (r : ℕ) (heap : Heap) : Type 0 where
  pub object : Object
  pub is_there : get_elem? heap r ≡ some object
  pub type : type_of object ≡ t

-- Every object is still there, with its type.
abbrev pub Extends : Heap → Heap → Type 0
Extends h h' = (r t : ℕ) → IsObject t r h → IsObject t r h'

-- Whatever the step ends with from the world, the objects keep their types and the result is as said.
pub record Ensures {A : Type 0} (w : World) (m : Act A) (Q : A → World → Type 0) : Type 0 where
  pub holds : (a : A) (w' : World) → m w ≡ some (a, w') → Extends w.heap w'.heap × Q a w'

abbrev pub Any : {A : Type 0} → A → World → Type 0
Any a w = Unit {0}

-- A result where there is one.
abbrev pub IfDone : {A : Type 0} → (A → World → Type 0) → Outcome A → World → Type 0
IfDone Q (done a) w = Q a w
IfDone Q (failed e) w = Unit {0}

pub same_result :
    {A : Type 0} (P : A → World → Type 0) {a b : A} {w w' : World}
    → ◌≡◌ {A = Option (A × World)} (some (a, w)) (some (b, w'))
    → P a w
    → P b w'
same_result {A = A} P {a = a} {b = b} {w = w} {w' = w'} e p =
    let q : ◌≡◌ {A = A × World} (a, w) (b, w') = cc in subst (λ x. P x.0 x.1) q p

-- The step does from the world what another does.
pub as-Ensures :
    {A : Type 0} {Q : A → World → Type 0} {w : World} (m n : Act A)
    → m w ≡ n w
    → Ensures w n Q
    → Ensures w m Q
as-Ensures m n e h = record { holds = λ a w' is. h.holds a w' (sym e ∙ is) }

pub bind-Ensures :
    {A B : Type 0} {P : A → World → Type 0} {Q : B → World → Type 0} {w : World} (m : Act A)
    (f : A → Act B)
    → Ensures w m P
    → ((a : A) (w' : World) → P a w' → Ensures w' (f a) Q)
    → Ensures w (m >>= f) Q
bind-Ensures {A = A} {B = B} {P = P} {Q = Q} {w = w} m f h k = record {
  holds = λ b w'' e. cases (m w) refl b w'' e;
}
  where
    cases :
        (x : Option (A × World))
        → m w ≡ x
        → (b : B) (w'' : World)
        → elim (x) as (λ y. Option (B × World)) [ none ↦ none | some (a, w') ↦ f a w' ]
          ≡ some (b, w'')
        → Extends w.heap w''.heap × Q b w''
    cases none is b w'' e = absurd cc
    cases (some (a, w')) is b w'' e =
        let first = h.holds a w' is in
        let later = (k a w' first.1).holds b w'' e in
        (λ r t there. later.0 r t (first.0 r t there), later.1)

pub step-Ensures :
    {A B : Type 0} {P : A → World → Type 0} {Q : B → World → Type 0} {w : World} (m : Step A)
    (f : A → Step B)
    → Ensures w m (IfDone P)
    → ((a : A) (w' : World) → P a w' → Ensures w' (f a) (IfDone Q))
    → Ensures w (m >=> f) (IfDone Q)
step-Ensures {A = A} {B = B} {P = P} {Q = Q} {w = w} m f h k = record {
  holds = λ b w'' e. cases (m w) refl b w'' e;
}
  where
    cases :
        (x : Option (Outcome A × World))
        → m w ≡ x
        → (b : Outcome B) (w'' : World)
        → elim (x) as (λ y. Option (Outcome B × World)) [
          | none ↦ none
          | some (done a, w') ↦ f a w'
          | some (failed c, w') ↦ some (failed c, w')
        ]
          ≡ some (b, w'')
        → Extends w.heap w''.heap × IfDone Q b w''
    cases none is b w'' e = absurd cc
    cases (some (done a, w')) is b w'' e =
        let first = h.holds (done a) w' is in
        let later = (k a w' first.1).holds b w'' e in
        (λ r t there. later.0 r t (first.0 r t there), later.1)
    cases (some (failed c, w')) is b w'' e =
        same_result (λ o v. Extends w.heap v.heap × IfDone Q o v) e
          ((h.holds (failed c) w' is).0, tt)

pub pure-Ensures :
    {A : Type 0} {Q : A → World → Type 0} {w : World} (a : A) → Q a w → Ensures w (pure a) Q
pure-Ensures {Q = Q} {w = w} a q = record {
  holds = λ b w' e. same_result (λ x v. Extends w.heap v.heap × Q x v) e (λ r t there. there, q);
}

-- A step that leaves the objects as they are.
pub heap-Ensures :
    {A : Type 0} {Q : A → World → Type 0} {w : World} (m : Act A)
    → ((a : A) (w' : World) → m w ≡ some (a, w') → (w'.heap ≡ w.heap) × Q a w')
    → Ensures w m Q
heap-Ensures {w = w} m h = record {
  holds = λ a w' e.
      let (same, q) = h a w' e in (λ r t there. subst (λ x. IsObject t r x) (sym same) there, q);
}

pub thread-Ensures : {A : Type 0} {w : World} (m : Method A) → Ensures w (on_thread m) Any
thread-Ensures {A = A} {w = w} m =
    heap-Ensures (on_thread m) (λ a w' e. cases (m w.machine.context) a w' e)
  where
    cases :
        (x : Option (A × Context)) (a : A) (w' : World)
        → elim (x) as (λ y. Option (A × World)) [
          | none ↦ none
          | some (b, c) ↦ some (b, with_context w c)
        ]
          ≡ some (a, w')
        → (w'.heap ≡ w.heap) × Unit {0}
    cases none a w' e = absurd cc
    cases (some (b, c)) a w' e = same_result (λ x v. (v.heap ≡ w.heap) × Unit {0}) e (refl, tt)

pub raise_code-Ensures : {w : World} (e r : ℕ) → Ensures w (raise_code e r) Any
unfolding raise_code
raise_code-Ensures {w = w} c r =
    heap-Ensures (raise_code c r) (λ a w' e. cases (set_error c r w.machine) a w' e)
  where
    cases :
        (x : Option Machine) (a : Unit {0}) (w' : World)
        → elim (x) as (λ y. Option (Unit {0} × World)) [
          | none ↦ none
          | some m ↦ some (tt, record w { machine = m })
        ]
          ≡ some (a, w')
        → (w'.heap ≡ w.heap) × Unit {0}
    cases none a w' e = absurd cc
    cases (some m) a w' e = same_result (λ x v. (v.heap ≡ w.heap) × Unit {0}) e (refl, tt)

pub fail-Ensures :
    {A : Type 0} {Q : A → World → Type 0} {w : World} (c : ErrorCode)
    → Ensures w (fail {A = A} c) (IfDone Q)
unfolding fail raise
fail-Ensures {Q = Q} {w = w} c =
    bind-Ensures (raise_code (error_number c) 0) (λ u. pure (failed c))
      (raise_code-Ensures (error_number c) 0) (λ u w' t. pure-Ensures {Q = IfDone Q} (failed c) tt)

pub finish-Ensures :
    {A : Type 0} {Q : A → World → Type 0} {w : World} (a : A)
    → Q a w
    → Ensures w (finish a) (IfDone Q)
finish-Ensures {Q = Q} a q = pure-Ensures {Q = IfDone Q} (done a) q

-- A step that a test chooses.
pub if-Ensures :
    {A : Type 0} {Q : A → World → Type 0} {w : World} (b : Bool) (x y : Act A)
    → Ensures w x Q
    → Ensures w y Q
    → Ensures w (if b then x else y) Q
if-Ensures true x y h k = h
if-Ensures false x y h k = k

-- The object of a reference; the step has no result where there is none.
pub object_at-Ensures :
    {w : World} (r : ℕ) → Ensures w (object_at r) (λ o w'. get_elem? w'.heap r ≡ some o)
unfolding object_at
object_at-Ensures {w = w} r =
    heap-Ensures (object_at r) (λ o w' e. cases (get_elem? w.heap r) refl o w' e)
  where
    cases :
        (x : Option Object)
        → get_elem? w.heap r ≡ x
        → (o : Object) (w' : World)
        → elim (x) as (λ y. Option (Object × World)) [ none ↦ none | some p ↦ some (p, w) ]
          ≡ some (o, w')
        → (w'.heap ≡ w.heap) × (get_elem? w'.heap r ≡ some o)
    cases none is o w' e = absurd cc
    cases (some p) is o w' e =
        same_result (λ x v. (v.heap ≡ w.heap) × (get_elem? v.heap r ≡ some x)) e (refl, is)

pub weaken-Ensures :
    {A : Type 0} {P Q : A → World → Type 0} {w : World} {m : Act A}
    → Ensures w m P
    → ((a : A) (w' : World) → P a w' → Q a w')
    → Ensures w m Q
weaken-Ensures h k = record {
  holds = λ a w' e. let (grows, p) = h.holds a w' e in (grows, k a w' p);
}

pub Any-done : {A : Type 0} (o : Outcome A) (w : World) → IfDone Any o w
Any-done (done a) w = tt
Any-done (failed e) w = tt

-- A result that a test chooses.
pub if_result :
    {A : Type 0} (Q : A → World → Type 0) (w : World) (b : Bool) {x y : Option (A × World)}
    → ((a : A) (w' : World) → x ≡ some (a, w') → Extends w.heap w'.heap × Q a w')
    → ((a : A) (w' : World) → y ≡ some (a, w') → Extends w.heap w'.heap × Q a w')
    → (a : A) (w' : World) → (if b then x else y) ≡ some (a, w')
    → Extends w.heap w'.heap × Q a w'
if_result Q w true h k = h
if_result Q w false h k = k

-- A result that depends on something optional, and is missing with it.
pub option_result :
    {A B : Type 0} (Q : A → World → Type 0) (w : World) (x : Option B) (f : B → Option (A × World))
    → ((b : B)
        → x ≡ some b
        → (a : A) (w' : World) → f b ≡ some (a, w')
        → Extends w.heap w'.heap × Q a w')
    → (a : A) (w' : World)
    → elim (x) as (λ y. Option (A × World)) [ none ↦ none | some b ↦ f b ] ≡ some (a, w')
    → Extends w.heap w'.heap × Q a w'
option_result Q w none f h a w' e = absurd cc
option_result Q w (some b) f h a w' e = h b refl a w' e

-- A reference that a step is followed by: its object has the type that it had before.
pub keep-Ensures :
    {A : Type 0} {t : ℕ} {w : World} (m : Act A) (r : ℕ)
    → IsObject t r w.heap
    → Ensures w m Any
    → Ensures w (m >>= λ a. finish r) (IfDone (λ s w'. IsObject t s w'.heap))
keep-Ensures {t = t} {w = w} m r is h = record {
  holds = λ b w' e.
      let first =
        (bind-Ensures {Q = λ o v. o ≡ done r} m (λ a. finish r) h
            (λ a v u. pure-Ensures (done r) refl)).holds
          b w' e in
      (
        first.0,
        subst (λ o. IfDone (λ s v. IsObject t s v.heap) o w') (sym first.1) (first.0 r t is),
      );
}

-- An object that a step is given keeps its type.
pub frame-Ensures :
    {A : Type 0} {Q : A → World → Type 0} {t r : ℕ} {w : World} {m : Act A}
    → IsObject t r w.heap
    → Ensures w m Q
    → Ensures w m (λ a w'. Q a w' × IsObject t r w'.heap)
frame-Ensures {t = t} {r = r} is h = record {
  holds = λ a w' e. let (grows, q) = h.holds a w' e in (grows, (q, grows r t is));
}

pub frame_step-Ensures :
    {A : Type 0} {Q : A → World → Type 0} {t r : ℕ} {w : World} {m : Step A}
    → IsObject t r w.heap
    → Ensures w m (IfDone Q)
    → Ensures w m (IfDone (λ a w'. Q a w' × IsObject t r w'.heap))
frame_step-Ensures {A = A} {Q = Q} {t = t} {r = r} is h = weaken-Ensures (frame-Ensures is h) both
  where
    both :
        (o : Outcome A) (w' : World)
        → IfDone Q o w' × IsObject t r w'.heap
        → IfDone (λ a v. Q a v × IsObject t r v.heap) o w'
    both (done a) w' h = h
    both (failed e) w' h = tt

pub none-Ensures :
    {A : Type 0} {Q : A → World → Type 0} {w : World} (m : Act A) → m w ≡ none → Ensures w m Q
none-Ensures m e = record { holds = λ a w' is. absurd cc }
