-- ===== src/Interp/Made.antt =====
-- vm/vm/interp_vm.cpp: making objects and writing to them keeps the types of the objects.
use letin.Common.{
  ◌%◌, ap, sym, ◌∙◌, ℕ, zero, suc, ◌+◌, ◌<◌, ◌≡◌, ◌≢◌, refl, sym, ap, subst, ◌∙◌, inl, inr, Bool,
  true, false, List, [], ◌∷◌, ◌++◌, Option, none, some, length, get_elem?, set, get_elem?-set_self,
  get_elem?-set_ne, if◌then◌else◌, ◌==◌, ==_iff, ltb, bit_or, arith, Bool-cases,
}
use letin.Interp.Fetch.{object_at}
use letin.Interp.Grows.{
  IsObject, Extends, Ensures, Any, IfDone, bind-Ensures, step-Ensures, thread-Ensures, fail-Ensures,
  finish-Ensures, if-Ensures, if_result, option_result, keep-Ensures, object_at-Ensures,
  same_result, heap-Ensures, weaken-Ensures, Any-done,
}
use letin.Interp.Objects.{
  check_object_type, check_shared_for_object, check_shared_for_value, check_object_elem_index,
  add_object_lengths, check_pushed_arg_count, pushed_arg, put_elems, overwritten, write_first,
  write_elem, contents, set_rv, new_object, new_unique_pair, as_elem,
}
use letin.Interp.Outcome.{
  Outcome, incorrect_object, incorrect_value, incorrect_arg_count, out_of_memory,
  index_of_out_bounds, unique_object,
}
use letin.Interp.World.{World, Step, Runtime, finish, fail}
use letin.Thread.State.{Value, int, float, ref, read, u64}
use letin.Values.{
  Kind, iarray8, iarray16, iarray32, iarray64, sfarray, dfarray, rarray, tuple, io, lazy_value,
  native_object, nil, Object, Heap, type_number, type_of, is_unique_object, is_unique, fresh_object,
}
use letin.Values.Elems.{stored, loaded}
use letin.Values.Size.{object_size}

get_elem?-append :
    {A : Type 0} (xs ys : List A) (i : ℕ) (a : A)
    → get_elem? xs i ≡ some a
    → get_elem? (xs ++ ys) i ≡ some a
get_elem?-append [] ys i a e = absurd cc
get_elem?-append (x ∷ xs) ys zero a e = e
get_elem?-append (x ∷ xs) ys (suc i) a e = get_elem?-append xs ys i a e

get_elem?-last :
    {A : Type 0} (xs : List A) (a : A) → get_elem? (xs ++ (a ∷ [])) (length xs) ≡ some a
get_elem?-last [] a = refl
get_elem?-last (x ∷ xs) a = get_elem?-last xs a

get_elem?-bound :
    {A : Type 0} (xs : List A) (i : ℕ) (a : A) → get_elem? xs i ≡ some a → i < length xs
get_elem?-bound [] i a e = absurd cc
get_elem?-bound (x ∷ xs) zero a e = omega arith
get_elem?-bound (x ∷ xs) (suc i) a e = omega (arith, get_elem?-bound xs i a e)

append-Extends : (heap : Heap) (o : Object) → Extends heap (heap ++ (o ∷ []))
append-Extends heap o r t there = record {
  object = there.object;
  is_there = get_elem?-append heap (o ∷ []) r there.object there.is_there;
  type = there.type;
}

some_same : {A : Type 0} {a b : A} → ◌≡◌ {A = Option A} (some a) (some b) → a ≡ b
some_same e = cc

pub set-Extends :
    (heap : Heap) (r : ℕ) (o p : Object)
    → get_elem? heap r ≡ some o
    → type_of p ≡ type_of o
    → Extends heap (set heap r p)
set-Extends heap r o p is same s t there = elim (Bool-cases (r == s)) [
  | inl e ↦
      let q = (==_iff r s).0 e in
      subst (λ x. IsObject t x (set heap r p)) q
        (record {
          object = p;
          is_there = get_elem?-set_self heap r p (get_elem?-bound heap r o is);
          type =
              same
              ∙ ap type_of (some_same (sym is ∙ ap (get_elem? heap) q ∙ there.is_there))
              ∙ there.type;
        })
  | inr ne ↦ record {
    object = there.object;
    is_there = get_elem?-set_ne heap p (differs r s ne) ∙ there.is_there;
    type = there.type;
  }
]
  where
    differs : (a b : ℕ) → (a == b) ≡ false → a ≢ b
    differs a b d e = ground arith

pub put_elems-Ensures : {w : World} (r : ℕ) (vs : List Value) → Ensures w (put_elems r vs) Any
unfolding put_elems
put_elems-Ensures {w = w} r vs = record {
  holds = option_result Any w (get_elem? w.heap r) _ λ o is a w' e.
      same_result (λ x v. Extends w.heap v.heap × Unit {0}) e
        (set-Extends w.heap r o (record o { elems = vs }) is refl, tt);
}

pub write_first-Ensures : {w : World} (r : ℕ) (vs : List Value) → Ensures w (write_first r vs) Any
unfolding write_first
write_first-Ensures {w = w} r vs = record {
  holds = option_result Any w (get_elem? w.heap r) _ λ o is.
      option_result Any w (overwritten vs o.elems) _ λ xs has. (put_elems-Ensures r xs).holds;
}

no_result :
    {A : Type 0} (Q : A → World → Type 0) (w : World) (a : A) (w' : World)
    → ◌≡◌ {A = Option (A × World)} none (some (a, w'))
    → Extends w.heap w'.heap × Q a w'
no_result Q w a w' e = absurd cc

pub write_elem-Ensures : {w : World} (r i : ℕ) (v : Value) → Ensures w (write_elem r i v) Any
unfolding write_elem
write_elem-Ensures {w = w} r i v = record {
  holds = option_result Any w (get_elem? w.heap r) _ λ o is.
      if_result Any w (ltb i (length o.elems)) (put_elems-Ensures r (set o.elems i v)).holds
        (no_result Any w);
}

pub check_object_type-Ensures :
    {w : World} (k : Kind) (u : Bool) (r : ℕ)
    → Ensures w (check_object_type k u r) (IfDone (λ o w'. IsObject (type_number k u) r w'.heap))
unfolding check_object_type
check_object_type-Ensures k u r = bind-Ensures (object_at r) _ (object_at-Ensures r) λ o w' is.
    checked o (type_of o == type_number k u)
      (λ e. record { object = o; is_there = is; type = (==_iff (type_of o) (type_number k u)).0 e })
  where
    checked :
        {t r : ℕ} {w : World} (o : Object) (b : Bool)
        → (b ≡ true → IsObject t r w.heap)
        → Ensures w
            (if b then finish o else fail incorrect_object)
            (IfDone (λ p w'. IsObject t r w'.heap))
    checked o true h = finish-Ensures o (h refl)
    checked o false h = fail-Ensures incorrect_object

pub check_shared_for_object-Ensures :
    {w : World} (r : ℕ) → Ensures w (check_shared_for_object r) (IfDone Any)
unfolding check_shared_for_object
check_shared_for_object-Ensures r = bind-Ensures (object_at r) _ (object_at-Ensures r) λ o w' is.
    if-Ensures (is_unique_object o) _ _ (fail-Ensures unique_object) (finish-Ensures tt tt)

pub check_shared_for_value-Ensures :
    {w : World} (v : Value) → Ensures w (check_shared_for_value v) (IfDone Any)
unfolding check_shared_for_value
check_shared_for_value-Ensures {w = w} v = record {
  holds =
      option_result (IfDone Any) w (is_unique w.heap v) _
        λ b is. (if-Ensures b _ _ (fail-Ensures unique_object) (finish-Ensures tt tt)).holds;
}

-- The kind of a type without OBJECT_TYPE_UNIQUE.
abbrev kind_of : ℕ → Kind
kind_of n = elim (get_elem? all_kinds n) [ none ↦ nil | some k ↦ k ]
  where
    all_kinds : List Kind
    all_kinds =
        iarray8 ∷ iarray16 ∷ iarray32 ∷ iarray64 ∷ sfarray ∷ dfarray ∷ rarray ∷ tuple ∷ io
        ∷ lazy_value ∷ native_object ∷ []

kind_of-type_number : (k : Kind) (u : Bool) → kind_of (type_number k u % 256) ≡ k
unfolding type_number
kind_of-type_number iarray8 true = refl
kind_of-type_number iarray8 false = refl
kind_of-type_number iarray16 true = refl
kind_of-type_number iarray16 false = refl
kind_of-type_number iarray32 true = refl
kind_of-type_number iarray32 false = refl
kind_of-type_number iarray64 true = refl
kind_of-type_number iarray64 false = refl
kind_of-type_number sfarray true = refl
kind_of-type_number sfarray false = refl
kind_of-type_number dfarray true = refl
kind_of-type_number dfarray false = refl
kind_of-type_number rarray true = refl
kind_of-type_number rarray false = refl
kind_of-type_number tuple true = refl
kind_of-type_number tuple false = refl
kind_of-type_number io true = refl
kind_of-type_number io false = refl
kind_of-type_number lazy_value true = refl
kind_of-type_number lazy_value false = refl
kind_of-type_number native_object true = refl
kind_of-type_number native_object false = refl
kind_of-type_number nil true = refl
kind_of-type_number nil false = refl

same_kind : (k j : Kind) (u v : Bool) → type_number k u ≡ type_number j v → k ≡ j
same_kind k j u v e =
    sym (kind_of-type_number k u) ∙ ap (λ n. kind_of (n % 256)) e ∙ kind_of-type_number j v

-- The object that was tested is of the kind.
pub check_object_type_kind-Ensures :
    {w : World} (k : Kind) (u : Bool) (r : ℕ)
    → Ensures w (check_object_type k u r) (IfDone (λ o w'. o.kind ≡ k))
unfolding check_object_type
check_object_type_kind-Ensures k u r = bind-Ensures (object_at r) _ (object_at-Ensures r) λ o w' is.
    checked o (type_of o == type_number k u)
      (λ e. same_kind o.kind k o.unique u ((==_iff (type_of o) (type_number k u)).0 e))
  where
    checked :
        {w : World} (o : Object) (b : Bool)
        → (b ≡ true → o.kind ≡ k)
        → Ensures w (if b then finish o else fail incorrect_object) (IfDone (λ p w'. p.kind ≡ k))
    checked o true h = finish-Ensures o (h refl)
    checked o false h = fail-Ensures incorrect_object

-- What is read in an object has the type of its elements.
abbrev pub IsElement : Kind → Value → World → Type 0
IsElement iarray8 v w = (i : ℕ) × (v ≡ int i)
IsElement iarray16 v w = (i : ℕ) × (v ≡ int i)
IsElement iarray32 v w = (i : ℕ) × (v ≡ int i)
IsElement iarray64 v w = (i : ℕ) × (v ≡ int i)
IsElement sfarray v w = (f : ℕ) × (v ≡ float f)
IsElement dfarray v w = (f : ℕ) × (v ≡ float f)
IsElement rarray v w = (r : ℕ) × (v ≡ ref r)
IsElement k v w = Unit {0}

loaded-IsElement : (f : ℕ → ℕ) (k : Kind) (v : Value) (w : World) → IsElement k (loaded f k v) w
unfolding loaded
loaded-IsElement f iarray8 v w = (_, refl)
loaded-IsElement f iarray16 v w = (_, refl)
loaded-IsElement f iarray32 v w = (_, refl)
loaded-IsElement f iarray64 v w = (_, refl)
loaded-IsElement f sfarray v w = (_, refl)
loaded-IsElement f dfarray v w = (_, refl)
loaded-IsElement f rarray v w = (_, refl)
loaded-IsElement f tuple v w = tt
loaded-IsElement f io v w = tt
loaded-IsElement f lazy_value v w = tt
loaded-IsElement f native_object v w = tt
loaded-IsElement f nil v w = tt

pub check_object_elem_index_of_kind-Ensures :
    {w : World} (rt : Runtime) (o : Object) (i : ℕ)
    → Ensures w (check_object_elem_index rt o i) (IfDone (IsElement o.kind))
unfolding check_object_elem_index
check_object_elem_index_of_kind-Ensures {w = w} rt o i = record {
  holds = cases (get_elem? o.elems i);
}
  where
    cases :
        (x : Option Value) (a : Outcome Value) (w' : World)
        → elim (x) as (λ y. Option (Outcome Value × World)) [
          | none ↦ fail index_of_out_bounds w
          | some v ↦ finish (loaded rt.format_float o.kind v) w
        ]
          ≡ some (a, w')
        → Extends w.heap w'.heap × IfDone (IsElement o.kind) a w'
    cases none = (fail-Ensures index_of_out_bounds).holds
    cases (some v) =
        (finish-Ensures (loaded rt.format_float o.kind v)
          (loaded-IsElement rt.format_float o.kind v w)).holds

pub check_object_elem_index-Ensures :
    {w : World} (rt : Runtime) (o : Object) (i : ℕ)
    → Ensures w (check_object_elem_index rt o i) (IfDone Any)
check_object_elem_index-Ensures rt o i =
    weaken-Ensures (check_object_elem_index_of_kind-Ensures rt o i) λ a w p. Any-done a w

pub add_object_lengths-Ensures :
    {w : World} (m n : ℕ) → Ensures w (add_object_lengths m n) (IfDone Any)
unfolding add_object_lengths
add_object_lengths-Ensures m n =
    if-Ensures (ltb (u64 (m + n)) (bit_or m n)) _ _ (fail-Ensures out_of_memory)
      (finish-Ensures (u64 (m + n)) tt)

pub check_pushed_arg_count-Ensures :
    {w : World} (n : ℕ) → Ensures w (check_pushed_arg_count n) (IfDone Any)
unfolding check_pushed_arg_count
check_pushed_arg_count-Ensures {w = w} n = record {
  holds =
      (if-Ensures (w.machine.context.ac2 == n) _ _ (finish-Ensures tt tt)
        (fail-Ensures incorrect_arg_count)).holds;
}

pub pushed_arg-Ensures : {w : World} (i : ℕ) → Ensures w (pushed_arg i) Any
unfolding pushed_arg
pushed_arg-Ensures {w = w} i = record {
  holds = (thread-Ensures (read (w.machine.context.abp2 + i))).holds;
}

pub set_rv-Ensures : {w : World} (v : Value) → Ensures w (set_rv v) Any
unfolding set_rv
set_rv-Ensures {w = w} v =
    heap-Ensures (set_rv v) λ a w' e. same_result (λ x y. (y.heap ≡ w.heap) × Unit {0}) e (refl, tt)

module _ (rt : Runtime) where
  -- The new object has the type, whatever memory it was made in.
  pub new_object-Ensures :
      {w : World} (k : Kind) (u : Bool) (n : ℕ)
      → Ensures w (new_object rt k u n) (IfDone (λ r w'. IsObject (type_number k u) r w'.heap))
  unfolding new_object
  new_object-Ensures {w = w} k u n =
      let Q = IfDone (λ r (v : World). IsObject (type_number k u) r v.heap) in
      let o = fresh_object k u (contents (rt.memory w.heap k) n) in
      let made : IsObject (type_number k u) (length w.heap) (w.heap ++ (o ∷ [])) = record {
        object = o;
        is_there = get_elem?-last w.heap o;
        type = refl;
      } in
      record {
        holds = if_result Q w (object_size rt.layout k n == 0) (fail-Ensures out_of_memory).holds (
            if_result Q w (rt.has_memory w.heap (object_size rt.layout k n))
              (λ a w' e.
                same_result (λ x v. Extends w.heap v.heap × Q x v) e
                  (append-Extends w.heap o, made))
              (fail-Ensures out_of_memory).holds);
      }

  pub new_unique_pair-Ensures :
      {w : World} (v1 v2 : Value)
      → Ensures w
          (new_unique_pair rt v1 v2)
          (IfDone (λ r w'. IsObject (type_number tuple true) r w'.heap))
  unfolding new_unique_pair
  new_unique_pair-Ensures v1 v2 =
      step-Ensures (new_object rt tuple true 2) _ (new_object-Ensures tuple true 2) λ r w1 is.
        keep-Ensures (write_first r (v1 ∷ v2 ∷ [])) r is (write_first-Ensures r (v1 ∷ v2 ∷ []))

  pub as_elem-Ensures : {w : World} (k : Kind) (v : Value) → Ensures w (as_elem rt k v) (IfDone Any)
  unfolding as_elem
  as_elem-Ensures k v = cases (stored rt.round_float k v)
    where
      cases :
          {w : World} (x : Option Value)
          → Ensures w
              (elim (x) as (λ y. Step Value) [ none ↦ fail incorrect_value | some z ↦ finish z ])
              (IfDone Any)
      cases none = fail-Ensures incorrect_value
      cases (some z) = finish-Ensures z tt
