-- ===== src/Prelude/Holds.antt =====
-- What holds after a statement that may raise: `Q` of its value and the state, or `N` if it raised.
use mathlib.Core.Path.{◌≡◌, refl, subst}
use native.Mathlib.Omega.{arith}
use caqrs.Prelude.Calls.{Reply, returned, raised}
use caqrs.Prelude.Effects.{Action, and_then}

module _ {ℓ ν} {S : Type ℓ} (N : Type ν) where
  abbrev pub Holds {κ} : {A : Type κ} → (A → S → Type ν) → Reply A × S → Type ν
  Holds Q (returned a, s) = Q a s
  Holds Q (raised, s) = N

  pub Holds-cases {κ} :
      {A : Type κ} (Q : A → S → Type ν) (r : Reply A) (s : S)
      → ((a : A) → r ≡ returned a → Q a s)
      → (r ≡ raised → N)
      → Holds Q (r, s)
  Holds-cases Q (returned a) s done failed = done a refl
  Holds-cases Q raised s done failed = failed refl

  pub Holds-raised {κ} :
      {A : Type κ} (Q : A → S → Type ν) (r : Reply A × S) → r.0 ≡ raised → N → Holds Q r
  Holds-raised Q r e n = Holds-cases Q r.0 r.1 (λ a f. ground (arith, e, f)) (λ _. n)

  -- A statement and what follows it.
  pub and_then-Holds {κ μ} :
      {A : Type κ} {B : Type μ} (Q : A → S → Type ν) (R : B → S → Type ν) (r : Reply A × S)
      (k : A → Action S B)
      → Holds Q r
      → ((a : A) (s : S) → Q a s → Holds R (k a s))
      → Holds R (and_then r.0 k r.1)
  and_then-Holds Q R (returned a, s) k h next = next a s h
  and_then-Holds Q R (raised, s) k h next = h

  pub Holds-map {κ} :
      {A : Type κ} (Q R : A → S → Type ν) (r : Reply A × S)
      → Holds Q r
      → ((a : A) (s : S) → Q a s → R a s)
      → Holds R r
  Holds-map Q R (returned a, s) h f = f a s h
  Holds-map Q R (raised, s) h f = h

  -- What held of a returned value, and that a value was returned.
  pub Holds-returned {κ} :
      {A : Type κ} (Q : A → S → Type ν) (r : Reply A × S) (a : A)
      → r.0 ≡ returned a
      → Holds Q r
      → Q a r.1
  Holds-returned Q r a e h = subst (λ x. Holds Q (x, r.1)) e h

  pub Holds-not-raised {κ} :
      {A : Type κ} (Q : A → S → Type ν) (r : Reply A × S)
      → Holds Q r
      → ¬ N
      → (a : A) × (r.0 ≡ returned a)
  Holds-not-raised Q (returned a, s) h quiet = (a, refl)
  Holds-not-raised Q (raised, s) h quiet = absurd (quiet h)
