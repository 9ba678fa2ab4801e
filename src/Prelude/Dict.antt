-- ===== src/Prelude/Dict.antt =====
-- Python's `dict` with text keys: the entries in insertion order, a key at most once.
use mathlib.Core.Path.{◌≡◌, refl}
use mathlib.Core.Option.{Option, none, some}
use mathlib.Core.List.{List, [], ◌∷◌}
use Prim.Native.String.{String}
use mathlib.Core.Logic.{inl, inr}
use native.Mathlib.Omega.{arith}
use caqrs.Prelude.Tests.{if◌then◌else◌, Bool-cases}
use caqrs.Prelude.Strings.{str_eq, str_eq_iff}

abbrev pub Dict {ℓ} : Type ℓ → Type ℓ
Dict V = List (String × V)

module _ {ℓ} {V : Type ℓ} where
  -- `d.get(k)`
  unfoldable pub get : String → Dict V → Option V
  get k [] = none
  get k ((j, v) ∷ rest) = if str_eq j k then some v else get k rest

  -- `d[k] = v`: in place, or at the end.
  unfoldable pub put : String → V → Dict V → Dict V
  put k v [] = (k, v) ∷ []
  put k v ((j, w) ∷ rest) = if str_eq j k then (j, v) ∷ rest else (j, w) ∷ put k v rest

  -- `del d[k]`, where the key is there.
  unfoldable pub remove : String → Dict V → Dict V
  remove k [] = []
  remove k ((j, w) ∷ rest) =
      let others = remove k rest in if str_eq j k then others else (j, w) ∷ others

  unfoldable pub keys : Dict V → List String
  keys [] = []
  keys ((k, v) ∷ rest) = k ∷ keys rest

  -- No key stands twice.
  abbrev pub IsDistinct : Dict V → Type ℓ
  IsDistinct [] = Unit
  IsDistinct ((k, v) ∷ rest) = (get k rest ≡ none) × IsDistinct rest

  pub get-put :
      (k j : String) (v : V) (d : Dict V)
      → get j (put k v d) ≡ (if str_eq k j then some v else get j d)
  unfolding get put
  get-put k j v [] = refl
  get-put k j v ((i, w) ∷ rest) =
      ground (arith, str_eq_iff i k, str_eq_iff k j, str_eq_iff i j, get-put k j v rest)

  pub get-remove :
      (k j : String) (d : Dict V) → get j (remove k d) ≡ (if str_eq k j then none else get j d)
  unfolding get remove
  get-remove k j [] = ground arith
  get-remove k j ((i, w) ∷ rest) =
      ground (arith, str_eq_iff i k, str_eq_iff k j, str_eq_iff i j, get-remove k j rest)

  pub put-IsDistinct : (k : String) (v : V) (d : Dict V) → IsDistinct d → IsDistinct (put k v d)
  unfolding put
  put-IsDistinct k v [] h = (unfold get in refl, tt)
  put-IsDistinct k v ((i, w) ∷ rest) h = elim (Bool-cases (str_eq i k)) [
    | inl same ↦ rw same h
    | inr other ↦ rw other (
      ground (arith, get-put k i v rest, str_eq_iff k i, str_eq_iff i k),
      put-IsDistinct k v rest h.1,
    )
  ]

  pub remove-IsDistinct : (k : String) (d : Dict V) → IsDistinct d → IsDistinct (remove k d)
  unfolding remove
  remove-IsDistinct k [] h = tt
  remove-IsDistinct k ((i, w) ∷ rest) h = elim (Bool-cases (str_eq i k)) [
    | inl same ↦ rw same (remove-IsDistinct k rest h.1)
    | inr other ↦ rw other (ground (arith, get-remove k i rest), remove-IsDistinct k rest h.1)
  ]

  -- Removing an absent key changes nothing.
  pub remove_absent : (k : String) (d : Dict V) → get k d ≡ none → remove k d ≡ d
  unfolding get remove
  remove_absent k [] h = refl
  remove_absent k ((i, w) ∷ rest) h = ground (arith, remove_absent k rest)
