-- ===== src/Loader/Data/Layout.antt =====
-- vm/impl_loader.cpp: the objects of an accepted data section are well formed, lie in the section
-- one behind the other, and are found by the addresses of the variables.
use letin.Common.{
  ℕ, zero, suc, ◌+◌, ◌*◌, ◌/◌, ◌%◌, ◌^◌, ◌≤◌, ◌<◌, ◌≡◌, ◌≢◌, refl, sym, ap, subst, inl, inr, true,
  false, ◌||◌, List, [], ◌∷◌, Option, none, some, arith, bit_or, ltb, leb, leb→le, ltb→lt, ◌==◌,
  ==_iff, length, All, map, Bool-cases,
}
use letin.Loader.Addrs.{contains, erase, contains-erase}
use letin.Loader.Bytes.{IsByte, read_byte-Ensures, read_word-Ensures, read_words-Ensures}
use letin.Loader.Data.{elem_size, or_reject, read_tuple, read_elems, read_object, read_data}
use letin.Loader.Format.{Object, u32, u64, is_value_type, object_type_tuple}
use letin.Loader.Result.{Ensures, gives, rejects, Ensures-bind, Ensures-guard}
use letin.Loader.Sizes.{check_align, add_exact64, align_exact, product_exact}

==_ne : (a b : ℕ) → (a == b) ≡ false → a ≢ b
==_ne a b h = ground arith

-- The element types of a tuple, and no more, are kept beside the elements.
abbrev pub HasElems : ℕ → ℕ → List ℕ × List ℕ → Type 0
HasElems type n e =
    (length e.0 ≡ n)
    × (type ≡ object_type_tuple → (length e.1 ≡ n) × All (λ t. is_value_type t ≡ true) e.1)

-- An object of a known type, with its elements in the section.
pub record IsObject (data_size : ℕ) (o : Object) : Type 0 where
  pub size : ℕ
  pub known : elem_size o.type ≡ some size
  pub within : o.addr + 8 + o.length * size ≤ data_size
  pub elems : HasElems o.type o.length (o.elems, o.elem_types)

-- The objects stand one behind the other from `i` on, at multiples of 8.
abbrev pub IsLaidOut : ℕ → ℕ → List Object → Type 0
IsLaidOut data_size i [] = Unit
IsLaidOut data_size i (o ∷ os) =
    (h : IsObject data_size o) × (i ≤ o.addr)
    × (o.addr % 8 ≡ 0)
    × IsLaidOut data_size (o.addr + 8 + o.length * h.size) os

elem_size-bounds : (type size : ℕ) → elem_size type ≡ some size → (0 < size) × (size ≤ 9)
unfolding elem_size
elem_size-bounds type size h = ground arith

elem_size-tuple : (type size : ℕ) → type ≡ object_type_tuple → elem_size type ≡ some size → size ≡ 9
unfolding elem_size
elem_size-tuple type size e h = ground arith

IsLaidOut-mono :
    (data_size i j : ℕ) (os : List Object)
    → i ≤ j
    → IsLaidOut data_size j os
    → IsLaidOut data_size i os
IsLaidOut-mono ds i j [] le h = tt
IsLaidOut-mono ds i j (o ∷ os) le h = (h.0, omega arith, h.2, h.3)

-- An address is that of this object, or is still looked for among the later ones.
found_here :
    (i x addr : ℕ) (vs left addrs : List ℕ)
    → addr ≡ i
    → contains vs x ≡ true
    → (contains (erase i vs) x ≡ true → (contains left x || contains addrs x) ≡ true)
    → (contains left x || contains (addr ∷ addrs) x) ≡ true
unfolding contains
found_here i x addr vs left addrs e h later = elim (Bool-cases (x == i)) [
  | inl y ↦ rw e (ground arith)
  | inr n ↦ let p = later (contains-erase i x vs h n) in ground arith
]

-- None of the sums of a round that passes its tests wrapped.
round_exact :
    (i len size data_size : ℕ)
    → i < data_size
    → data_size < 2 ^ 32
    → (u64 (len * size) / size == len) ≡ true
    → leb (bit_or (u64 (i + 8)) (u64 (len * size))) (u64 (u64 (i + 8) + u64 (len * size))) ≡ true
    → leb (u64 (u64 (i + 8) + u64 (len * size))) data_size ≡ true
    → (u64 (i + 8) ≡ i + 8)
      × (u64 (u64 (i + 8) + u64 (len * size)) ≡ i + 8 + len * size)
      × (i + 8 + len * size ≤ data_size)
round_exact i len size ds lt small e2 e3 e4 =
    let p : u64 (len * size) ≡ size * len = product_exact _ size len (omega arith) e2 in
    let s = add_exact64 (u64 (i + 8)) (u64 (len * size)) (omega arith) (omega arith) e3 in
    let le = leb→le _ _ e4 in omega arith

module _ (bs : List ℕ) (bytes : All IsByte bs) where
  read_tuple-Ensures :
      (p q n : ℕ)
      → p + 8 * n ≤ length bs
      → q + n ≤ length bs
      → Ensures (HasElems object_type_tuple n) (read_tuple bs p q n)
  unfolding read_tuple
  read_tuple-Ensures p q zero hp hq = gives (refl, λ _. (refl, tt))
  read_tuple-Ensures p q (suc n) hp hq =
      Ensures-bind (read_word-Ensures bs bytes 8 p (omega arith)) λ w hw.
        Ensures-bind (read_byte-Ensures bs bytes q (omega arith)) λ t ht. Ensures-guard _ λ e.
          Ensures-bind (read_tuple-Ensures (p + 8) (q + 1) n (omega arith) (omega arith))
            λ r hr. gives (ap suc hr.0, λ _. (ap suc (hr.1 refl).0, (e, (hr.1 refl).1)))

  read_elems-Ensures :
      (type size p n : ℕ)
      → elem_size type ≡ some size
      → n * size < 2 ^ 32
      → p + n * size ≤ length bs
      → Ensures (HasElems type n) (read_elems bs type size p n)
  unfolding read_elems
  read_elems-Ensures type size p n e small h = elim (Bool-cases (type == object_type_tuple)) [
    | inl y ↦
        let te : type ≡ object_type_tuple = (==_iff _ _).0 y in
        let size_9 : size ≡ 9 = elem_size-tuple type size te e in
        let small_9 : n * 9 < 2 ^ 32 = rw size_9 at small in
        let h_9 : p + n * 9 ≤ length bs = rw size_9 at h in
        rw y (
          subst (λ t. Ensures (HasElems t n) (read_tuple bs p (p + u32 (n * 8)) n)) (sym te)
            (read_tuple-Ensures p (p + u32 (n * 8)) n (omega arith) (omega arith)))
    | inr y ↦ rw y (
        Ensures-bind (read_words-Ensures bs bytes size p n h)
          λ ws hw. gives (hw.0, λ te. absurd (==_ne _ _ y te)))
  ]

  module _ (base data_size : ℕ) (small : data_size < 2 ^ 32)
      (room : (i : ℕ) → i < data_size → i % 8 ≡ 0 → base + i + 8 ≤ length bs)
      (fits : base + data_size ≤ length bs) where
    abbrev Reads : ℕ → Object × ℕ → Type 0
    Reads i r =
        (h : IsObject data_size r.0) × (r.0.addr ≡ i)
        × (r.1 % 8 ≡ 0)
        × (r.0.addr + 8 + r.0.length * h.size ≤ r.1)

    or_reject-Ensures : (o : Option ℕ) → Ensures (λ n. o ≡ some n) (or_reject o)
    unfolding or_reject
    or_reject-Ensures none = rejects
    or_reject-Ensures (some n) = gives refl

    read_object-Ensures :
        (i : ℕ) → i < data_size → i % 8 ≡ 0 → Ensures (Reads i) (read_object bs base data_size i)
    unfolding read_object check_align
    read_object-Ensures i lt al =
        let r : base + i + 8 ≤ length bs = room i lt al in
        Ensures-bind (read_word-Ensures bs bytes 4 (base + i) (omega arith)) λ type ht.
          Ensures-bind (read_word-Ensures bs bytes 4 (base + i + 4) (omega arith)) λ len hl.
            Ensures-guard _ λ e1. Ensures-bind (or_reject-Ensures (elem_size type)) λ size hs.
              Ensures-guard _ λ e2. Ensures-guard _ λ e3. Ensures-guard _ λ e4.
                let (start, end_i, within) = round_exact i len size data_size lt small e2 e3 e4 in
                Ensures-bind
                  (read_elems-Ensures type size (base + u64 (i + 8)) len hs (omega arith)
                    (omega arith))
                  λ el he. Ensures-guard _ λ e5.
                    let (above, close, mult) = align_exact _ (omega arith) e5 in
                    gives (
                      record { size = size; known = hs; within = within; elems = he },
                      refl,
                      mult,
                      omega arith,
                    )

    -- The loop ends, and the addresses that it leaves are those of no object.
    pub read_data-Ensures :
        (fuel i : ℕ) (var_addrs : List ℕ)
        → data_size ≤ i + fuel
        → i % 8 ≡ 0
        → Ensures
            (λ r.
              IsLaidOut data_size i r.0
              × ((x : ℕ)
                  → contains var_addrs x ≡ true
                  → (contains r.1 x || contains (map (λ o. o.addr) r.0) x) ≡ true))
            (read_data bs base data_size fuel i var_addrs)
    unfolding read_data
    read_data-Ensures zero i vs h al = elim (Bool-cases (ltb i data_size)) [
      | inl y ↦ absurd (omega (arith, ltb→lt _ _ y))
      | inr y ↦ rw (y, read_data) (gives (tt, λ x hx. ground (arith, hx)))
    ]
    read_data-Ensures (suc fuel) i vs h al = elim (Bool-cases (ltb i data_size)) [
      | inr y ↦ rw (y, read_data) (gives (tt, λ x hx. ground (arith, hx)))
      | inl y ↦
          rw (y, read_data)
            (Ensures-bind (read_object-Ensures i (ltb→lt _ _ y) al) λ r hr.
              Ensures-bind (read_data-Ensures fuel r.1 (erase (u32 i) vs) (omega arith) hr.2)
                λ t ht. gives (
                  (hr.0, omega arith, omega arith, IsLaidOut-mono data_size _ _ t.0 hr.3 ht.0),
                  λ x hx. found_here (u32 i) x r.0.addr vs _ _ (omega arith) hx (ht.1 x),
                ))
    ]
