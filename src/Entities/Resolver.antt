-- ===== src/Entities/Resolver.antt =====
-- src/caqrs/entities/resolver.py: the resolver over the store in memory. A universe is its tickers.
pub mod First
mod Tests
use caqrs.Prelude.{String, List, [], ◌∷◌, Option, none, some}
use caqrs.Entities.Types.{
  IdentifierKind, jquants_code, sec_code, yfinance_ticker, edinet_code, jcn, lei, polymarket_token,
}
use caqrs.Entities.Store.{
  InMemoryEntityStore, StoreReply, returned, identifier_conflict, unknown_issuer, key_error,
  lookup_issuer,
}

pub record IdentifierResolution : Type 0 where
  pub input_ticker : String
  pub canonical_issuer_id : Option String
  pub matched_kind : Option IdentifierKind

-- The kinds in the order of the enum.
abbrev pub all_kinds : List IdentifierKind
all_kinds =
    jquants_code ∷ sec_code ∷ yfinance_ticker ∷ edinet_code ∷ jcn ∷ lei ∷ polymarket_token ∷ []

module _ {ℓ} {A : Type ℓ} where
  -- The loop over the kinds, which ends at the first hit.
  unfoldable pub resolve_ticker :
      InMemoryEntityStore A → String → List IdentifierKind → StoreReply IdentifierResolution
  resolve_ticker s ticker [] =
      returned (record { input_ticker = ticker; canonical_issuer_id = none; matched_kind = none })
  resolve_ticker s ticker (kind ∷ kinds) =
      let later = resolve_ticker s ticker kinds in
      elim (lookup_issuer s (record { kind = kind; value = ticker }))
        as (λ _. StoreReply IdentifierResolution) [
          | returned none ↦ later
          | returned (some hit) ↦ returned (record {
            input_ticker = ticker;
            canonical_issuer_id = some hit.id;
            matched_kind = some kind;
          })
          | identifier_conflict i e p ↦ identifier_conflict i e p
          | unknown_issuer id ↦ unknown_issuer id
          | key_error ↦ key_error
        ]

  unfoldable pub resolve :
      InMemoryEntityStore A → List String → StoreReply (List IdentifierResolution)
  resolve s [] = returned []
  resolve s (ticker ∷ universe) =
      let rest = resolve s universe in
      elim (resolve_ticker s ticker all_kinds) as (λ _. StoreReply (List IdentifierResolution)) [
        | returned r ↦ elim rest as (λ _. StoreReply (List IdentifierResolution)) [
          | returned rs ↦ returned (r ∷ rs)
          | identifier_conflict i e p ↦ identifier_conflict i e p
          | unknown_issuer id ↦ unknown_issuer id
          | key_error ↦ key_error
        ]
        | identifier_conflict i e p ↦ identifier_conflict i e p
        | unknown_issuer id ↦ unknown_issuer id
        | key_error ↦ key_error
      ]
