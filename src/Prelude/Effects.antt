-- ===== src/Prelude/Effects.antt =====
-- Statements that change a state and may raise. What was changed by then stays changed.
use caqrs.Prelude.Calls.{Reply, returned, raised}

abbrev pub Action {ℓ κ} : Type ℓ → Type κ → Type (ℓ ⊔ κ)
Action S A = S → Reply A × S

module _ {ℓ κ} {S : Type ℓ} {A : Type κ} where
  abbrev pub pure : A → Action S A
  pure a s = (returned a, s)

  abbrev pub throw : Action S A
  throw s = (raised, s)

module _ {ℓ κ μ} {S : Type ℓ} {A : Type κ} {B : Type μ} where
  -- What follows a call: nothing, if it raised.
  abbrev pub and_then : Reply A → (A → Action S B) → Action S B
  and_then (returned a) f s = f a s
  and_then raised f s = (raised, s)

  infixl 5 ◌>>=◌ ◌>>◌
  abbrev pub ◌>>=◌ : Action S A → (A → Action S B) → Action S B
  m >>= f = λ s. and_then (m s).0 f (m s).1

  abbrev pub ◌>>◌ : Action S A → Action S B → Action S B
  m >> k = m >>= λ _. k

module _ {ℓ κ} {S : Type ℓ} {A : Type κ} where
  -- `try: … finally: …`, for a cleanup that does not raise.
  abbrev pub finally : Action S A → (S → S) → Action S A
  finally m cleanup s = ((m s).0, cleanup (m s).1)

  -- A statement keeps a relation between the state before it and the state after it.
  abbrev pub Keeps {ν} : (S → S → Type ν) → Action S A → Type (ℓ ⊔ ν)
  Keeps R m = (s : S) → R s (m s).1
