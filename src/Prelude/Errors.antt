-- ===== src/Prelude/Errors.antt =====
-- The result of code that may raise, with the exceptions that the program tells apart
-- (sentinel/utils/errors.py); a message is not kept. `raised` stands for any other exception.
use mathlib.Core.Path.{◌≡◌, refl}
use mathlib.Core.Logic.{◌⊎◌, inl, inr}

pub data Error : Type 0 where
  policy_error identity_error dependency_unavailable tenant_not_found : Error
  sentinel_error type_error key_error runtime_error not_implemented raised : Error

pub data Outcome {ℓ} (A : Type ℓ) : Type ℓ where
  ok : A → Outcome A
  err : Error → Outcome A

infixl 5 ◌>>=◌
abbrev pub ◌>>=◌ {ℓ κ} : {A : Type ℓ} {B : Type κ} → Outcome A → (A → Outcome B) → Outcome B
ok a >>= f = f a
err e >>= f = err e

pub ok-injective {ℓ} : {A : Type ℓ} {a b : A} → ok a ≡ ok b → a ≡ b
ok-injective h = cc

-- A chain returns only what its second step makes of the value of its first.
pub >>=-returns {ℓ κ} :
    {A : Type ℓ} {B : Type κ} (step : Outcome A) (k : A → Outcome B) {y : B}
    → (step >>= k) ≡ ok y
    → (x : A) × (step ≡ ok x) × (k x ≡ ok y)
>>=-returns (err e) k returned = cc
>>=-returns (ok x) k returned = (x, refl, returned)

pub Outcome-cases {ℓ} :
    {A : Type ℓ} (o : Outcome A) → ((a : A) × (o ≡ ok a)) ⊎ ((e : Error) × (o ≡ err e))
Outcome-cases (ok a) = inl (a, refl)
Outcome-cases (err e) = inr (e, refl)
