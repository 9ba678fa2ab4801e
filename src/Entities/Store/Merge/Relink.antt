-- ===== src/Entities/Store/Merge/Relink.antt =====
-- The loops of in_memory.py over the identifiers of two issuers that are merged.
use caqrs.Prelude.{
  true, false, ◌||◌, String, List, [], ◌∷◌, ◌++◌, none, some, str_eq, str_eq_iff, str_eq_refl, ◌⊎◌,
  ◌≡◌, refl, sym, ap, ◌∙◌, arith, if◌then◌else◌, Bool-cases, inl, inr,
}
use caqrs.Prelude.Dict.{Dict, get}
use caqrs.Prelude.Assoc.{find, store, find-store}
use caqrs.Entities.Types.{Identifier, same_key, same_key_iff, Issuer}
use caqrs.Entities.Store.{Keyed, conflict_in, has_key, identifier_union, relink}

has_key-append :
    (k i : Identifier) (is : List Identifier)
    → has_key k (is ++ i ∷ []) ≡ (has_key k is || same_key i k)
unfolding has_key
has_key-append k i [] = ground arith
has_key-append k i (j ∷ is) = ground (arith, has_key-append k i is)

pub has_key-identifier_union :
    (k : Identifier) (known is : List Identifier)
    → has_key k (identifier_union known is) ≡ (has_key k known || has_key k is)
unfolding identifier_union has_key
has_key-identifier_union k known [] = ground arith
has_key-identifier_union k known (i ∷ is) = ground (
  arith,
  has_key-identifier_union k known is,
  has_key-identifier_union k (known ++ i ∷ []) is,
  has_key-append k i known,
  same_key_iff i k,
)

-- Each of the identifiers is assigned to one of the two issuers.
abbrev pub IsLinked : String → String → List Identifier → Keyed → Type 0
IsLinked keep drop is keyed =
    (k : Identifier)
    → has_key k is ≡ true
    → (find same_key k keyed ≡ some keep) ⊎ (find same_key k keyed ≡ some drop)

has_key_self : (i : Identifier) (is : List Identifier) → has_key i (i ∷ is) ≡ true
unfolding has_key
has_key_self i is = ground (arith, same_key_iff i i)

has_key_later :
    (k i : Identifier) (is : List Identifier) → has_key k is ≡ true → has_key k (i ∷ is) ≡ true
unfolding has_key
has_key_later k i is h = ground (arith, h)

relink_step :
    (keep drop : String) (i : Identifier) (is : List Identifier) (keyed : Keyed)
    → (find same_key i keyed ≡ some keep) ⊎ (find same_key i keyed ≡ some drop)
    → relink keep drop (i ∷ is) keyed ≡ relink keep drop is (store same_key i keep keyed)
unfolding relink
relink_step keep drop i is keyed (inl h) = rw (relink, h, str_eq_refl keep) refl
relink_step keep drop i is keyed (inr h) = elim (Bool-cases (str_eq drop keep)) [
  | inl same ↦ rw (relink, h, same) refl
  | inr other ↦ rw (relink, h, other, str_eq_refl drop) refl
]

-- The loop over the identifiers of the dropped issuer finds no conflict and assigns them all.
pub relink_clear :
    (keep drop : String) (is : List Identifier) (keyed : Keyed)
    → IsLinked keep drop is keyed
    → ((relink keep drop is keyed).0 ≡ none)
      × ((k : Identifier)
          → find same_key k (relink keep drop is keyed).1
            ≡ (if has_key k is then some keep else find same_key k keyed))
relink_clear keep drop [] keyed linked = unfold relink has_key in (refl, λ k. refl)
relink_clear keep drop (i ∷ is) keyed linked =
    let step = relink_step keep drop i is keyed (linked i (has_key_self i is)) in
    let (clear, found) = relink_clear keep drop is (store same_key i keep keyed) (λ k h.
      elim (Bool-cases (same_key i k)) [
        | inl mine ↦ inl (find-store same_key same_key_iff i k keep keyed ∙ rw mine refl)
        | inr other ↦
            let same : find same_key k (store same_key i keep keyed) ≡ find same_key k keyed =
              find-store same_key same_key_iff i k keep keyed ∙ rw other refl in
            elim (linked k (has_key_later k i is h)) [
              | inl a ↦ inl (same ∙ a)
              | inr b ↦ inr (same ∙ b)
            ]
      ]) in
    (
      ap (λ x. x.0) step ∙ clear,
      λ k.
          ap (λ x. find same_key k x.1) step
          ∙ (found k
              ∙ (unfold has_key in
                  ground (arith, find-store same_key same_key_iff i k keep keyed))),
    )

pub conflict_in-clear :
    (id : String) (is : List Identifier) (keyed : Keyed)
    → ((k : Identifier) → has_key k is ≡ true → find same_key k keyed ≡ some id)
    → conflict_in keyed id is ≡ none
unfolding conflict_in
conflict_in-clear id [] keyed mine = refl
conflict_in-clear id (i ∷ is) keyed mine =
    rw (conflict_in, mine i (has_key_self i is), str_eq_refl id)
      (conflict_in-clear id is keyed (λ k h. mine k (has_key_later k i is h)))

pub some_injective {ℓ} : {B : Type ℓ} {a b : B} → some a ≡ some b → a ≡ b
some_injective h = ground arith

-- Two records, one with a key and one without, are not stored under one id.
pub differs :
    (issuers : Dict Issuer) (one other : String) (first second : Issuer) (k : Identifier)
    → get one issuers ≡ some first
    → get other issuers ≡ some second
    → has_key k second.identifiers ≡ true
    → has_key k first.identifiers ≡ false
    → str_eq one other ≡ false
differs issuers one other first second k here there has lacks =
    elim (Bool-cases (str_eq one other)) [
      | inr apart ↦ apart
      | inl same ↦
          let e : first ≡ second =
            some_injective
              (sym here ∙ (ap (λ i. get i issuers) ((str_eq_iff one other).0 same) ∙ there)) in
          absurd (ground (arith, ap (λ (i : Issuer). has_key k i.identifiers) e, has, lacks))
    ]
