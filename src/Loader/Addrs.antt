-- ===== src/Loader/Addrs.antt =====
-- The `std::set<std::uint32_t>` of vm/impl_loader.cpp, as a list of numbers.
use letin.Common.{ℕ, ◌≡◌, refl, Bool, true, false, ◌||◌, List, [], ◌∷◌, ◌==◌, if◌then◌else◌, arith}

unfoldable pub contains : List ℕ → ℕ → Bool
contains [] a = false
contains (x ∷ xs) a = a == x || contains xs a

-- `s.erase(a)`
unfoldable pub erase : ℕ → List ℕ → List ℕ
erase a [] = []
erase a (x ∷ xs) = let rest = erase a xs in if a == x then rest else x ∷ rest

unfoldable pub is_empty : List ℕ → Bool
is_empty [] = true
is_empty (x ∷ xs) = false

-- What is not the erased element stays.
pub contains-erase :
    (a x : ℕ) (xs : List ℕ)
    → contains xs x ≡ true
    → (x == a) ≡ false
    → contains (erase a xs) x ≡ true
unfolding contains erase
contains-erase a x [] h n = h
contains-erase a x (y ∷ xs) h n = ground (arith, contains-erase a x xs)

pub contains-is_empty : (xs : List ℕ) (x : ℕ) → is_empty xs ≡ true → contains xs x ≡ false
unfolding contains is_empty
contains-is_empty [] x h = refl
contains-is_empty (y ∷ xs) x h = ground arith
