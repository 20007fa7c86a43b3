-- ===== src/Values/Identity.antt =====
-- vm/vm.cpp: `Object::operator==` is the identity of the elements.
use letin.Common.{
  ℕ, ◌-◌, ◌^◌, ◌≡◌, ◌≢◌, ◌↔◌, refl, sym, ap, subst, ◌∙◌, Bool, true, false, not, ◌&&◌, List, [],
  ◌∷◌, length, All, ◌==◌, ==_iff, if◌then◌else◌, Bool-cases, inl, inr, arith,
}
use letin.Thread.State.{
  Value, int, float, ref, pair, canceled_ref, lazy_value_ref, locked_lazy_value_ref, error,
}
use letin.Values.{
  Kind, iarray8, iarray16, iarray32, iarray64, sfarray, dfarray, rarray, tuple, io, lazy_value,
  native_object, nil, Object, type_of,
}
use letin.Values.Equal.{type_tag, raw, value_eq, all_eq, content_eq, object_eq}

-- Neither a double, whose equality is the processor's, nor a pair, which stands in frames only.
unfoldable pub is_plain : Value → Bool
is_plain (float f) = false
is_plain (pair a b) = false
is_plain v = true

abbrev pub IsPlain : Value → Type 0
IsPlain v = is_plain v ≡ true

-- The kinds of arrays and tuples.
unfoldable pub is_data : Kind → Bool
is_data io = false
is_data lazy_value = false
is_data native_object = false
is_data nil = false
is_data k = true

abbrev build : ℕ → ℕ → Value
build t r =
    if t == 0
    then int r
    else if t == 2
    then ref r
    else if t == 4
    then canceled_ref r
    else if t == 5
    then lazy_value_ref r false
    else if t == 69
    then lazy_value_ref r true
    else if t == 6
    then locked_lazy_value_ref r
    else error

build_lem : (v : Value) → IsPlain v → build (type_tag v) (raw v) ≡ v
unfolding is_plain type_tag raw
build_lem (int i) h = refl
build_lem (float f) h = absurd cc
build_lem (ref r) h = refl
build_lem (pair a b) h = absurd cc
build_lem (canceled_ref r) h = refl
build_lem (lazy_value_ref r true) h = refl
build_lem (lazy_value_ref r false) h = refl
build_lem (locked_lazy_value_ref r) h = refl
build_lem error h = refl

parts :
    (t u r s : ℕ) (b : Bool)
    → (if not (t == u)
        then false
        else if t == 1
        then b
        else if t == 2 ^ 32 - 1
        then true
        else r == s)
      ≡ true
    → (t ≡ u) × (t ≢ 1 → t ≢ 2 ^ 32 - 1 → r ≡ s)
parts t u r s b e = ground arith

not_float : (v : Value) → IsPlain v → type_tag v ≢ 1
unfolding is_plain type_tag
not_float (int i) h = λ e. omega arith
not_float (float f) h = absurd cc
not_float (ref r) h = λ e. omega arith
not_float (pair a b) h = absurd cc
not_float (canceled_ref r) h = λ e. omega arith
not_float (lazy_value_ref r true) h = λ e. omega arith
not_float (lazy_value_ref r false) h = λ e. omega arith
not_float (locked_lazy_value_ref r) h = λ e. omega arith
not_float error h = λ e. omega arith

module _ (equal_float : ℕ → ℕ → Bool) where
  value_eq_sound : (v w : Value) → IsPlain v → IsPlain w → value_eq equal_float v w ≡ true → v ≡ w
  unfolding value_eq
  value_eq_sound v w hv hw e =
      let (tags, raws) =
        parts (type_tag v) (type_tag w) (raw v) (raw w) (equal_float (raw v) (raw w)) e in
      elim (Bool-cases (type_tag v == 2 ^ 32 - 1)) [
        | inl is ↦
            let t = (==_iff (type_tag v) (2 ^ 32 - 1)).0 is in
            let u : type_tag w ≡ 2 ^ 32 - 1 = sym tags ∙ t in
            sym (build_lem v hv)
            ∙ ap (λ x. build x (raw v)) t
            ∙ sym (ap (λ x. build x (raw w)) u)
            ∙ build_lem w hw
        | inr not_error ↦
            let same = raws (not_float v hv) (differs _ _ not_error) in
            sym (build_lem v hv)
            ∙ ap (λ x. build x (raw v)) tags
            ∙ ap (build (type_tag w)) same
            ∙ build_lem w hw
      ]
    where
      differs : (a b : ℕ) → (a == b) ≡ false → a ≢ b
      differs a b d e = ground arith

  value_eq_refl : (v : Value) → IsPlain v → value_eq equal_float v v ≡ true
  unfolding value_eq
  value_eq_refl v h = itself (type_tag v) (raw v) (equal_float (raw v) (raw v)) (not_float v h)
    where
      itself :
          (t r : ℕ) (b : Bool)
          → t ≢ 1
          → (if not (t == t)
              then false
              else if t == 1
              then b
              else if t == 2 ^ 32 - 1
              then true
              else r == r)
            ≡ true
      itself t r b h = ground arith

  all_eq_sound :
      (vs ws : List Value)
      → All IsPlain vs
      → All IsPlain ws
      → length vs ≡ length ws
      → all_eq equal_float vs ws ≡ true
      → vs ≡ ws
  unfolding all_eq
  all_eq_sound [] [] hv hw same e = refl
  all_eq_sound [] (w ∷ ws) hv hw same e = absurd (omega arith)
  all_eq_sound (v ∷ vs) [] hv hw same e = absurd (omega arith)
  all_eq_sound (v ∷ vs) (w ∷ ws) hv hw same e =
      let (a, b) = both _ _ e in
      ap (λ x. x ∷ vs) (value_eq_sound v w hv.0 hw.0 a)
      ∙ ap (λ xs. w ∷ xs) (all_eq_sound vs ws hv.1 hw.1 (omega arith) b)
    where
      both : (a b : Bool) → (a && b) ≡ true → (a ≡ true) × (b ≡ true)
      both true b e = (refl, e)
      both false b e = absurd cc

  all_eq_refl : (vs : List Value) → All IsPlain vs → all_eq equal_float vs vs ≡ true
  unfolding all_eq
  all_eq_refl [] h = refl
  all_eq_refl (v ∷ vs) h = rw (value_eq_refl v h.0) (all_eq_refl vs h.1)

module _ (equal_float equal_single : ℕ → ℕ → Bool) where
  content_lem :
      (k : Kind) (o p : Object)
      → is_data k ≡ true
      → (f : ℕ → ℕ → Bool) × (content_eq equal_float equal_single k o p ≡ all_eq f o.elems p.elems)
  unfolding content_eq is_data
  content_lem iarray8 o p h = (equal_float, refl)
  content_lem iarray16 o p h = (equal_float, refl)
  content_lem iarray32 o p h = (equal_float, refl)
  content_lem iarray64 o p h = (equal_float, refl)
  content_lem sfarray o p h = (equal_single, refl)
  content_lem dfarray o p h = (equal_float, refl)
  content_lem rarray o p h = (equal_float, refl)
  content_lem tuple o p h = (equal_float, refl)
  content_lem io o p h = absurd cc
  content_lem lazy_value o p h = absurd cc
  content_lem native_object o p h = absurd cc
  content_lem nil o p h = absurd cc

  -- Two arrays or tuples, whose elements are neither doubles nor pairs, are equal by `operator==` just when
  -- they have the same type and the same elements.
  pub object_eq_iff :
      (o p : Object)
      → is_data o.kind ≡ true
      → All IsPlain o.elems
      → All IsPlain p.elems
      → (object_eq equal_float equal_single o p ≡ true)
        ↔ ((type_of o ≡ type_of p) × (o.elems ≡ p.elems))
  unfolding object_eq
  object_eq_iff o p kind ho hp =
      let (f, content) = content_lem o.kind o p kind in
      (
        λ e.
            let (types, lengths, same) = tests _ _ _ _ _ e in
            (types, all_eq_sound f o.elems p.elems ho hp lengths (sym content ∙ same)),
        λ (types, elems).
            all_tests _ _ _ _ _ types (ap length elems)
              (content ∙ subst (λ ws. all_eq f o.elems ws ≡ true) elems (all_eq_refl f o.elems ho)),
      )
    where
      tests :
          (t u l m : ℕ) (b : Bool)
          → (if not (t == u) then false else if not (l == m) then false else b) ≡ true
          → (t ≡ u) × (l ≡ m) × (b ≡ true)
      tests t u l m b e = ground arith

      all_tests :
          (t u l m : ℕ) (b : Bool)
          → t ≡ u
          → l ≡ m
          → b ≡ true
          → (if not (t == u) then false else if not (l == m) then false else b) ≡ true
      all_tests t u l m b e f g = ground arith
