-- ===== src/Base/Outcome.antt =====
-- How a call of a C function ends: with a value, with an access that the program has no right to
-- (a NULL or out-of-range pointer), or never (a loop that spins, or that outlives its fuel).
use mathlib.Core.Path.{◌≡◌, refl}

pub data Outcome {ℓ} (A : Type ℓ) : Type ℓ where
  ok : A → Outcome A
  fault : Outcome A
  hang : Outcome A
  out_of_fuel : Outcome A

infixl 5 ◌>>=◌ ◌>>◌
abbrev pub ◌>>=◌ {ℓ κ} : {A : Type ℓ} {B : Type κ} → Outcome A → (A → Outcome B) → Outcome B
ok a >>= f = f a
fault >>= f = fault
hang >>= f = hang
out_of_fuel >>= f = out_of_fuel

abbrev pub ◌>>◌ {ℓ} : {B : Type ℓ} → Outcome (Unit {0}) → Outcome B → Outcome B
m >> k = m >>= λ _. k

-- Total correctness: the call returns, and its value meets `P`.
pub data Returns {ℓ κ} {A : Type ℓ} (P : A → Type κ) : Outcome A → Type (ℓ ⊔ κ) where
  returns : {a : A} → P a → Returns P (ok a)

module _ {ℓ κ} {A : Type ℓ} {P : A → Type κ} where
  pub Returns-ok : {r : Outcome A} → Returns P r → (a : A) × (r ≡ ok a) × P a
  Returns-ok (returns {a} h) = (a, refl, h)

  pub Returns-mono {μ} :
      {Q : A → Type μ} {r : Outcome A} → ((a : A) → P a → Q a) → Returns P r → Returns Q r
  Returns-mono f (returns {a} h) = returns (f a h)

  pub Returns-bind {β μ} :
      {B : Type β} {Q : B → Type μ} {r : Outcome A} {f : A → Outcome B}
      → Returns P r
      → ((a : A) → P a → Returns Q (f a))
      → Returns Q (r >>= f)
  Returns-bind (returns {a} h) k = k a h

pub ok-injective {ℓ} : {A : Type ℓ} {a b : A} → ok a ≡ ok b → a ≡ b
ok-injective h = cc
