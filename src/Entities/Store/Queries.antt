-- ===== src/Entities/Store/Queries.antt =====
-- The queries of in_memory.py about filings and relations.
use caqrs.Prelude.{
  ℕ, Bool, true, String, List, [], ◌∷◌, Option, none, some, filter, contains, leb, ltb, ◌==◌, ◌&&◌,
  ◌||◌, str_eq, if◌then◌else◌,
}
use caqrs.Prelude.Dict.{get}
use caqrs.Entities.Types.{Issuer, Filing, Relation, RelationKind, relation_index, subsidiary_of}
use caqrs.Entities.Store.{InMemoryEntityStore, StoreReply, returned, key_error}

-- `sorted(…, key=submitted_at)`: the stable sort, by insertion from the right.
unfoldable pub insert_filing : Filing → List Filing → List Filing
insert_filing f [] = f ∷ []
insert_filing f (g ∷ rest) =
    if leb f.submitted_at g.submitted_at then f ∷ g ∷ rest else g ∷ insert_filing f rest

unfoldable pub sort_filings : List Filing → List Filing
sort_filings [] = []
sort_filings (f ∷ rest) = insert_filing f (sort_filings rest)

abbrev pub is_allowed_code : Option (List String) → String → Bool
is_allowed_code none code = true
is_allowed_code (some codes) code = contains code codes

-- `_relation_active_at`
unfoldable pub relation_active_at : Relation → ℕ → Bool
relation_active_at r at =
    leb r.valid_from at
    && (elim r.valid_to as (λ _. Bool) [ none ↦ true | some until ↦ ltb at until ])

abbrev pub is_kind : Option RelationKind → RelationKind → Bool
is_kind none kind = true
is_kind (some wanted) kind = relation_index kind == relation_index wanted

abbrev pub is_active : Option ℕ → Relation → Bool
is_active none r = true
is_active (some at) r = relation_active_at r at

module _ {ℓ} {A : Type ℓ} where
  unfoldable pub filings_for :
      InMemoryEntityStore A → String → ℕ × ℕ → Option (List String) → List Filing
  filings_for s issuer_id range doc_type_codes = sort_filings (
      filter
        (λ f.
          str_eq f.issuer_id issuer_id
          && (leb range.0 f.submitted_at
              && (leb f.submitted_at range.1 && is_allowed_code doc_type_codes f.doc_type_code)))
        s.filings)

  -- The subsidiaries of the relations left; one whose record is gone is a `KeyError`.
  unfoldable pub subsidiaries_in :
      InMemoryEntityStore A → String → ℕ → List Relation → StoreReply (List Issuer)
  subsidiaries_in s issuer_id at [] = returned []
  subsidiaries_in s issuer_id at (r ∷ rest) =
      let others = subsidiaries_in s issuer_id at rest in
      if is_kind (some subsidiary_of) r.kind
        && (str_eq r.to_id issuer_id && relation_active_at r at)
      then (elim (get r.from_id s.issuers) as (λ _. StoreReply (List Issuer)) [
        | none ↦ key_error
        | some issuer ↦ elim others as (λ _. StoreReply (List Issuer)) [
          | returned found ↦ returned (issuer ∷ found)
          | _ ↦ key_error
        ]
      ])
      else others

  unfoldable pub subsidiaries_of : InMemoryEntityStore A → String → ℕ → StoreReply (List Issuer)
  subsidiaries_of s issuer_id at = subsidiaries_in s issuer_id at s.relations

  unfoldable pub relations_for :
      InMemoryEntityStore A → String → Option RelationKind → Option ℕ → List Relation
  relations_for s issuer_id kind at =
      filter
        (λ r.
          (str_eq r.from_id issuer_id || str_eq r.to_id issuer_id)
          && (is_kind kind r.kind && is_active at r))
        s.relations
