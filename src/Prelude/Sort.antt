-- ===== src/Prelude/Sort.antt =====
-- `sorted` and `list.sort` with a key that is text: the stable sort, by insertion from the right.
use mathlib.Core.Path.{◌≡◌, refl, ◌∙◌}
use mathlib.Core.Bool.{false}
use mathlib.Core.Option.{none, some}
use mathlib.Core.List.{[], ◌∷◌}
use Prim.Native.String.{String}
use native.Mathlib.Omega.{arith}
use caqrs.Prelude.Tests.{if◌then◌else◌, Bool-cases}
use mathlib.Core.Logic.{inl, inr}
use caqrs.Prelude.Strings.{str_eq, str_eq_iff, str_le}
use caqrs.Prelude.Dict.{Dict, get, IsDistinct}

module _ {ℓ} {V : Type ℓ} where
  unfoldable pub insert_sorted : String → V → Dict V → Dict V
  insert_sorted k v [] = (k, v) ∷ []
  insert_sorted k v ((j, w) ∷ rest) =
      if str_le k j then (k, v) ∷ (j, w) ∷ rest else (j, w) ∷ insert_sorted k v rest

  -- Pairs sorted by their first component.
  unfoldable pub sort_by_key : Dict V → Dict V
  sort_by_key [] = []
  sort_by_key ((k, v) ∷ rest) = insert_sorted k v (sort_by_key rest)

  get-insert_sorted :
      (k j : String) (v : V) (d : Dict V)
      → get j (insert_sorted k v d) ≡ (if str_eq k j then some v else get j d)
  unfolding get insert_sorted
  get-insert_sorted k j v [] = refl
  get-insert_sorted k j v ((i, w) ∷ rest) = ground (
    arith,
    str_eq_iff k i,
    str_eq_iff i j,
    str_eq_iff k j,
    str_eq_iff i k,
    get-insert_sorted k j v rest,
  )

  -- Sorting keeps what each key stands for.
  pub get-sort_by_key : (j : String) (d : Dict V) → get j (sort_by_key d) ≡ get j d
  unfolding get sort_by_key
  get-sort_by_key j [] = refl
  get-sort_by_key j ((k, v) ∷ rest) =
      get-insert_sorted k j v (sort_by_key rest) ∙ rw (get-sort_by_key j rest)

  insert_sorted-IsDistinct :
      (k : String) (v : V) (d : Dict V)
      → get k d ≡ none
      → IsDistinct d
      → IsDistinct (insert_sorted k v d)
  unfolding insert_sorted
  insert_sorted-IsDistinct k v [] h distinct = (h, tt)
  insert_sorted-IsDistinct k v ((j, w) ∷ rest) h distinct = elim (Bool-cases (str_le k j)) [
    | inl first ↦ rw first (h, distinct)
    | inr later ↦
        let absent : (get k rest ≡ none) × (str_eq k j ≡ false) =
          unfold get in ground (arith, str_eq_iff j k, str_eq_iff k j) in
        rw later (
          ground (arith, get-insert_sorted k j v rest),
          insert_sorted-IsDistinct k v rest absent.0 distinct.1,
        )
  ]

  -- Sorting keeps the keys distinct.
  pub sort_by_key-IsDistinct : (d : Dict V) → IsDistinct d → IsDistinct (sort_by_key d)
  unfolding sort_by_key
  sort_by_key-IsDistinct [] h = tt
  sort_by_key-IsDistinct ((k, v) ∷ rest) h =
      insert_sorted-IsDistinct k v (sort_by_key rest) (get-sort_by_key k rest ∙ h.0)
        (sort_by_key-IsDistinct rest h.1)
