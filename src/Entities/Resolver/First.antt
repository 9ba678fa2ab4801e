-- ===== src/Entities/Resolver/First.antt =====
-- What the resolver of resolver.py finds in a store whose index is right.
use caqrs.Prelude.{
  String, List, [], ◌∷◌, ◌++◌, none, some, All, ◌≡◌, ◌⊎◌, inl, inr, refl, ap, ◌∙◌, Option-cases,
}
use caqrs.Prelude.Dict.{get}
use caqrs.Prelude.Assoc.{find}
use caqrs.Entities.Types.{Identifier, IdentifierKind, Issuer, same_key}
use caqrs.Entities.Store.{InMemoryEntityStore, returned, lookup_issuer}
use caqrs.Entities.Store.Index.{IsIndexed}
use caqrs.Entities.Resolver.{IdentifierResolution, resolve_ticker}

module _ {ℓ} {A : Type ℓ} (s : InMemoryEntityStore A) (ticker : String) where
  abbrev pub key : IdentifierKind → Identifier
  key kind = record { kind = kind; value = ticker }

  abbrev pub IsAbsent : IdentifierKind → Type 0
  IsAbsent kind = find same_key (key kind) s.identifiers ≡ none

  -- No kind has the ticker, or the first one that has it gives the issuer.
  abbrev pub IsFirst : List IdentifierKind → IdentifierResolution → Type 0
  IsFirst kinds r =
      (All IsAbsent kinds × (r.canonical_issuer_id ≡ none) × (r.matched_kind ≡ none))
      ⊎ ((before : List IdentifierKind) × (kind : IdentifierKind) × (after : List IdentifierKind)
          × (hit : Issuer) × (kinds ≡ before ++ kind ∷ after)
          × All IsAbsent before
          × (lookup_issuer s (key kind) ≡ returned (some hit))
          × (r.canonical_issuer_id ≡ some hit.id)
          × (r.matched_kind ≡ some kind))

  lookup_absent :
      (kind : IdentifierKind) → IsAbsent kind → lookup_issuer s (key kind) ≡ returned none
  unfolding lookup_issuer
  lookup_absent kind h = rw (lookup_issuer, h) refl

  lookup_there :
      (kind : IdentifierKind) (id : String) (hit : Issuer)
      → find same_key (key kind) s.identifiers ≡ some id
      → get id s.issuers ≡ some hit
      → lookup_issuer s (key kind) ≡ returned (some hit)
  unfolding lookup_issuer
  lookup_there kind id hit h there = rw (lookup_issuer, h, there) refl

  resolve_absent :
      (kind : IdentifierKind) (kinds : List IdentifierKind)
      → lookup_issuer s (key kind) ≡ returned none
      → resolve_ticker s ticker (kind ∷ kinds) ≡ resolve_ticker s ticker kinds
  unfolding resolve_ticker
  resolve_absent kind kinds h = rw (resolve_ticker, h) refl

  resolve_hit :
      (kind : IdentifierKind) (kinds : List IdentifierKind) (hit : Issuer)
      → lookup_issuer s (key kind) ≡ returned (some hit)
      → resolve_ticker s ticker (kind ∷ kinds)
        ≡ returned (record {
          input_ticker = ticker;
          canonical_issuer_id = some hit.id;
          matched_kind = some kind;
        })
  unfolding resolve_ticker
  resolve_hit kind kinds hit h = rw (resolve_ticker, h) refl

  -- In a store whose index agrees with its records the resolver never raises: a ticker resolves to the
  -- issuer of the first kind, in the order of the kinds, under which the ticker is assigned, and to
  -- nothing if there is none.
  pub resolve_ticker-IsFirst :
      (kinds : List IdentifierKind)
      → IsIndexed s
      → (r : IdentifierResolution) × (resolve_ticker s ticker kinds ≡ returned r)
        × (r.input_ticker ≡ ticker)
        × IsFirst kinds r
  resolve_ticker-IsFirst [] indexed = (
    record { input_ticker = ticker; canonical_issuer_id = none; matched_kind = none },
    (unfold resolve_ticker in refl),
    refl,
    inl (tt, refl, refl),
  )
  resolve_ticker-IsFirst (kind ∷ kinds) indexed =
      elim (Option-cases (find same_key (key kind) s.identifiers)) [
        | inr (id, h) ↦
            let (hit, there, _) = indexed.owned (key kind) id h in
            let found = lookup_there kind id hit h there in
            (
              record {
                input_ticker = ticker;
                canonical_issuer_id = some hit.id;
                matched_kind = some kind;
              },
              resolve_hit kind kinds hit found,
              refl,
              inr ([], kind, kinds, hit, refl, tt, found, refl, refl),
            )
        | inl absent ↦
            let (r, same, input, first) = resolve_ticker-IsFirst kinds indexed in
            (
              r,
              resolve_absent kind kinds (lookup_absent kind absent) ∙ same,
              input,
              elim first [
                | inl (others, none_id, none_kind) ↦ inl ((absent, others), none_id, none_kind)
                | inr (before, k, after, hit, split, others, found, id, matched) ↦ inr (
                  kind ∷ before,
                  k,
                  after,
                  hit,
                  ap (λ ks. kind ∷ ks) split,
                  (absent, others),
                  found,
                  id,
                  matched,
                )
              ],
            )
      ]
