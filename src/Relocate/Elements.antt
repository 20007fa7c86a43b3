-- ===== src/Relocate/Elements.antt =====
-- vm/vm.cpp: what `get_elem_fun_index` and `set_elem_fun_index` read and write lies in an object of
-- the data section, and the section stays well formed.
use letin.Common.{
  ℕ, ◌+◌, ◌*◌, ◌≤◌, ◌<◌, ◌≡◌, refl, ap, ◌∙◌, subst, inl, inr, Bool, true, false, ◌||◌, List, [],
  ◌∷◌, map, Option, none, some, leb, ltb→lt, leb→le, ◌==◌, ==_iff, arith, length, length-set,
  get_elem?, get_elem?-lt, All, Bool-cases,
}
use letin.Loader.Data.Layout.{IsObject, IsLaidOut}
use letin.Loader.Format.{Object, u32, object_type_iarray32, object_type_iarray64, object_type_tuple}
use letin.Loader.Result.{guard, Ensures-map, Ensures, gives, rejects, Ensures-bind, Ensures-guard}
use letin.Relocate.Elems.{
  object_at, last_of, put_elem, elem_number, in_elems, get32, get64, check_tuple, get_elem,
  get_elem_fun_index,
}
use letin.Relocate.Indexes.{Image, at, found}

pub at-Ensures {ℓ} :
    {A : Type ℓ} (xs : List A) (i : ℕ)
    → i < length xs
    → Ensures (λ a. get_elem? xs i ≡ some a) (at xs i)
unfolding at
at-Ensures xs i h = let (a, e) = get_elem?-lt xs i h in rw (e, at) (gives refl)

pub found-Ensures {ℓ} : {A : Type ℓ} (o : Option A) → Ensures (λ a. o ≡ some a) (found o)
unfolding found
found-Ensures none = rejects
found-Ensures (some a) = gives refl

last_of-All :
    (P : Object → Type 0) (m : Option Object) (x : Object) (addr : ℕ) (o : Object)
    → ((y : Object) → m ≡ some y → P y)
    → P x
    → last_of m x addr ≡ some o
    → P o
unfolding last_of
last_of-All P (some y) x addr o h p e = h o e
last_of-All P none x addr o h p e = elim (Bool-cases (leb x.addr addr)) [
  | inl y ↦ let f : some x ≡ some o = (rw y at e) in let g : x ≡ o = cc in subst P g p
  | inr n ↦ let f : none ≡ some o = (rw n at e) in absurd (cc)
]

guard-Ensures : (b : Bool) → Ensures (λ _. b ≡ true) (guard b)
unfolding guard
guard-Ensures true = gives refl
guard-Ensures false = rejects

pub object_at-All :
    (P : Object → Type 0) (os : List Object) (addr : ℕ) (o : Object)
    → All P os
    → object_at os addr ≡ some o
    → P o
unfolding object_at
object_at-All P [] addr o h e = absurd (cc)
object_at-All P (x ∷ xs) addr o h e =
    last_of-All P (object_at xs addr) x addr o (λ y f. object_at-All P xs addr y h.1 f) h.0 e

pub IsLaidOut-All :
    (data_size i : ℕ) (os : List Object) → IsLaidOut data_size i os → All (IsObject data_size) os
IsLaidOut-All n i [] h = tt
IsLaidOut-All n i (o ∷ os) h = (h.0, IsLaidOut-All n (o.addr + 8 + o.length * h.0.size) os h.3)

pub put_elem-IsLaidOut :
    (data_size i a k w : ℕ) (os : List Object)
    → IsLaidOut data_size i os
    → IsLaidOut data_size i (put_elem a k w os)
unfolding put_elem
put_elem-IsLaidOut n i a k w [] h = tt
put_elem-IsLaidOut n i a k w (o ∷ os) h = elim (Bool-cases (o.addr == a)) [
  | inl y ↦ rw y (
    record {
      size = h.0.size;
      known = h.0.known;
      within = h.0.within;
      elems = (length-set o.elems k w ∙ h.0.elems.0, h.0.elems.1);
    },
    h.1,
    h.2,
    put_elem-IsLaidOut n (o.addr + 8 + o.length * h.0.size) a k w os h.3,
  )
  | inr y ↦
      rw y (h.0, h.1, h.2, put_elem-IsLaidOut n (o.addr + 8 + o.length * h.0.size) a k w os h.3)
]

pub addrs-put_elem :
    (a k w : ℕ) (os : List Object) → map (λ o. o.addr) (put_elem a k w os) ≡ map (λ o. o.addr) os
unfolding put_elem
addrs-put_elem a k w [] = refl
addrs-put_elem a k w (o ∷ os) = elim (Bool-cases (o.addr == a)) [
  | inl y ↦ rw y (ap (λ (t : List ℕ). o.addr ∷ t) (addrs-put_elem a k w os))
  | inr y ↦ rw y (ap (λ (t : List ℕ). o.addr ∷ t) (addrs-put_elem a k w os))
]

-- An index that has been read comes from an object with the element that its address names.
unfoldable pub Reads : ℕ → ℕ → ℕ × Object → Type 0
Reads data_size addr r =
    IsObject data_size r.1
    × ((r.1.type == object_type_iarray32) ≡ true → elem_number r.1 4 addr < length r.1.elems)
    × ((r.1.type == object_type_iarray32) ≡ false → elem_number r.1 8 addr < length r.1.elems)

in_elems-Ensures :
    (size addr : ℕ) (o : Object)
    → Ensures (λ _. addr < o.addr + 8 + u32 (o.length * size)) (in_elems o size addr)
unfolding in_elems
in_elems-Ensures size addr o =
    Ensures-guard _ λ e. let lt = ltb→lt _ _ e in Ensures-map (guard-Ensures _) λ _ _. lt

types_in :
    (data_size addr : ℕ) (o : Object)
    → (h : IsObject data_size o) → (o.type == object_type_tuple) ≡ true
    → elem_number o 8 addr < length o.elems
    → elem_number o 8 addr < length o.elem_types
types_in n addr o h e lt =
    let (same, typed) = h.elems in omega (arith, same, (typed ((==_iff _ _).0 e)).0)

module _ (data_size addr : ℕ) where
  get32-Ensures :
      (o : Object)
      → IsObject data_size o
      → o.addr + 8 ≤ addr
      → (o.type == object_type_iarray32) ≡ true
      → Ensures (Reads data_size addr) (get32 addr o)
  unfolding get32 Reads
  get32-Ensures o h le t = Ensures-bind (in_elems-Ensures 4 addr o) λ _ lt.
      let same : length o.elems ≡ o.length = h.elems.0 in
      let inside : elem_number o 4 addr < length o.elems = omega arith in
      Ensures-bind (at-Ensures o.elems (elem_number o 4 addr) inside)
        λ w hw. gives (h, (λ _. inside), λ f. absurd (cc))

  check_tuple-Ensures :
      (o : Object)
      → IsObject data_size o
      → elem_number o 8 addr < length o.elems
      → Ensures (λ _. Unit {0}) (check_tuple addr o)
  unfolding check_tuple
  check_tuple-Ensures o h inside = elim (Bool-cases (o.type == object_type_tuple)) [
    | inl y ↦ rw y (
        Ensures-bind
          (at-Ensures o.elem_types (elem_number o 8 addr) (types_in data_size addr o h y inside))
          λ t ht. Ensures-map (guard-Ensures _) λ _ _. tt)
    | inr y ↦ rw y (gives tt)
  ]

  get64-Ensures :
      (is_native : Bool) (o : Object)
      → IsObject data_size o
      → o.addr + 8 ≤ addr
      → (o.type == object_type_iarray32) ≡ false
      → Ensures (Reads data_size addr) (get64 addr is_native o)
  unfolding get64 Reads
  get64-Ensures is_native o h le t = Ensures-bind (in_elems-Ensures 8 addr o) λ _ lt.
      let same : length o.elems ≡ o.length = h.elems.0 in
      let inside : elem_number o 8 addr < length o.elems = omega arith in
      Ensures-bind (check_tuple-Ensures o h inside) λ _ _.
        Ensures-bind (at-Ensures o.elems (elem_number o 8 addr) inside)
          λ w hw. Ensures-guard _ λ e. gives (h, (λ f. absurd (cc)), λ _. inside)

  get_elem-Ensures :
      (is_native : Bool) (o : Object)
      → IsObject data_size o
      → o.addr + 8 ≤ addr
      → Ensures (Reads data_size addr) (get_elem addr is_native o)
  unfolding get_elem
  get_elem-Ensures is_native o h le = elim (Bool-cases (o.type == object_type_iarray32)) [
    | inl y ↦ rw y (get32-Ensures o h le y)
    | inr n ↦ elim (Bool-cases (o.type == object_type_iarray64 || o.type == object_type_tuple)) [
      | inl y ↦ rw (n, y) (get64-Ensures is_native o h le n)
      | inr m ↦ rw (n, m) rejects
    ]
  ]

  -- An index is read inside an object of the section.
  pub get_elem_fun_index-Ensures :
      (p : Image) (is_native : Bool)
      → All (IsObject data_size) p.objects
      → Ensures (Reads data_size addr) (get_elem_fun_index p addr is_native)
  unfolding get_elem_fun_index
  get_elem_fun_index-Ensures p is_native h =
      Ensures-bind (found-Ensures (object_at p.objects addr)) λ o ho. Ensures-guard _ λ e.
        get_elem-Ensures is_native o (object_at-All (IsObject data_size) p.objects addr o h ho)
          (leb→le _ _ e)
