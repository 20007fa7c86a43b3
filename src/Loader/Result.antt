-- ===== src/Loader/Result.antt =====
-- The ways a run of `ImplLoader::load` (vm/impl_loader.cpp) can end.
use letin.Common.{◌≡◌, Bool, true, false}

pub data Load {ℓ} (A : Type ℓ) : Type ℓ where
  ok : A → Load A
  -- `return nullptr`
  reject : Load A
  -- a read outside the buffer
  fault : Load A
  -- the rounds of a loop ran out
  stuck : Load A

infixl 5 ◌>>=◌ ◌>>◌
abbrev pub ◌>>=◌ {ℓ κ} : {A : Type ℓ} {B : Type κ} → Load A → (A → Load B) → Load B
ok a >>= f = f a
reject >>= f = reject
fault >>= f = fault
stuck >>= f = stuck

abbrev pub ◌>>◌ {ℓ} : {B : Type ℓ} → Load (Unit {0}) → Load B → Load B
m >> k = m >>= λ _. k

-- `if(!b) return nullptr;`
unfoldable pub guard : Bool → Load (Unit {0})
guard true = ok tt
guard false = reject

-- The run rejects its input or ends in a value with `P`: no read outside, no endless loop.
pub data Ensures {ℓ κ} {A : Type ℓ} (P : A → Type κ) : Load A → Type (ℓ ⊔ κ) where
  gives : {a : A} → P a → Ensures P (ok a)
  rejects : Ensures P reject

pub Ensures-bind {ℓ κ μ ν} :
    {A : Type ℓ} {B : Type κ} {P : A → Type μ} {Q : B → Type ν} {m : Load A} {f : A → Load B}
    → Ensures P m
    → ((a : A) → P a → Ensures Q (f a))
    → Ensures Q (m >>= f)
Ensures-bind (gives h) k = k _ h
Ensures-bind rejects k = rejects

pub Ensures-guard {κ ν} :
    {B : Type κ} {Q : B → Type ν} (b : Bool) {k : Load B}
    → (b ≡ true → Ensures Q k)
    → Ensures Q (guard b >> k)
unfolding guard
Ensures-guard true h = h (λ i. true)
Ensures-guard false h = rejects

pub Ensures-ok {ℓ κ} : {A : Type ℓ} {P : A → Type κ} {a : A} → Ensures P (ok a) → P a
Ensures-ok (gives h) = h

pub Ensures-map {ℓ κ μ} :
    {A : Type ℓ} {P : A → Type κ} {Q : A → Type μ} {m : Load A}
    → Ensures P m
    → ((a : A) → P a → Q a)
    → Ensures Q m
Ensures-map (gives h) k = gives (k _ h)
Ensures-map rejects k = rejects
