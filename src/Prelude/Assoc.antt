-- ===== src/Prelude/Assoc.antt =====
-- Python's `dict` with keys of any type whose equality is decided by a test: the entries in insertion
-- order.
use mathlib.Core.Path.{◌≡◌, refl}
use mathlib.Core.Bool.{Bool, true}
use mathlib.Core.Logic.{◌↔◌}
use mathlib.Core.Option.{Option, none, some}
use mathlib.Core.List.{List, [], ◌∷◌}
use native.Mathlib.Omega.{arith}
use caqrs.Prelude.Tests.{if◌then◌else◌}

module _ {ℓ κ} {K : Type ℓ} {V : Type κ} (same : K → K → Bool) where
  unfoldable pub find : K → List (K × V) → Option V
  find k [] = none
  find k ((j, v) ∷ rest) = if same j k then some v else find k rest

  unfoldable pub store : K → V → List (K × V) → List (K × V)
  store k v [] = (k, v) ∷ []
  store k v ((j, w) ∷ rest) = if same j k then (j, v) ∷ rest else (j, w) ∷ store k v rest

  unfoldable pub discard : K → List (K × V) → List (K × V)
  discard k [] = []
  discard k ((j, w) ∷ rest) =
      let others = discard k rest in if same j k then others else (j, w) ∷ others

  module _ (decides : (a b : K) → (same a b ≡ true) ↔ (a ≡ b)) where
    pub find-store :
        (k j : K) (v : V) (d : List (K × V))
        → find j (store k v d) ≡ (if same k j then some v else find j d)
    unfolding find store
    find-store k j v [] = refl
    find-store k j v ((i, w) ∷ rest) =
        ground (arith, decides i k, decides k j, decides i j, find-store k j v rest)

    pub find-discard :
        (k j : K) (d : List (K × V)) → find j (discard k d) ≡ (if same k j then none else find j d)
    unfolding find discard
    find-discard k j [] = ground arith
    find-discard k j ((i, w) ∷ rest) =
        ground (arith, decides i k, decides k j, decides i j, find-discard k j rest)
