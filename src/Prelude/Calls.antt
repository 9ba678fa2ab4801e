-- ===== src/Prelude/Calls.antt =====
-- What a call of a Python function hands back: a value, or an exception that goes to the caller.
use mathlib.Core.Path.{◌≡◌, refl}
use mathlib.Core.Logic.{◌⊎◌, inl, inr}

pub data Reply {ℓ} (A : Type ℓ) : Type ℓ where
  returned : A → Reply A
  raised : Reply A

-- To split on the answer of a call and keep the equation.
pub Reply-cases : (r : Reply (Unit {0})) → (r ≡ returned tt) ⊎ (r ≡ raised)
Reply-cases (returned _) = inl refl
Reply-cases raised = inr refl

pub Returned-cases {ℓ} : {A : Type ℓ} (r : Reply A) → ((a : A) × (r ≡ returned a)) ⊎ (r ≡ raised)
Returned-cases (returned a) = inl (a, refl)
Returned-cases raised = inr refl
