-- ===== src/Entities/Resolver/Tests.antt =====
-- A run of the resolver of resolver.py.
use caqrs.Prelude.{String, [], ◌∷◌, none, some, ◌≡◌, refl}
use caqrs.Prelude.Assoc.{find, store, discard}
use caqrs.Prelude.Dict.{get, put}
use caqrs.Entities.Types.{sec_code, Issuer, same_key}
use caqrs.Entities.Store.{
  InMemoryEntityStore, returned, upsert_issuer, lookup_issuer, has_key, conflict_in, forget, assign,
}
use caqrs.Entities.Store.Index.{IsIndexed, upsert_issuer-IsIndexed}
use caqrs.Entities.Resolver.{IdentifierResolution, all_kinds, resolve_ticker, resolve}
use caqrs.Entities.Resolver.First.{IsFirst, resolve_ticker-IsFirst}

abbrev empty : InMemoryEntityStore String
empty = record { issuers = []; identifiers = []; market_points = []; filings = []; relations = [] }

no_id : (id : String) → none ≡ some id → ⊥
no_id id h = cc

no_issuer : (i : Issuer) → none ≡ some i → ⊥
no_issuer i h = cc

empty-IsIndexed : IsIndexed empty
unfolding find get
empty-IsIndexed = record {
  owned = λ k id h. absurd (no_id id h);
  assigned = λ k id i h has. absurd (no_issuer i h);
  named = λ id i h. absurd (no_issuer i h);
}

abbrev toyota : Issuer
toyota = record {
  id = "I1";
  lei = none;
  jcn = none;
  display_name = "Toyota";
  identifiers = record { kind = sec_code; value = "7203" } ∷ [];
}

resolve-run :
    resolve (upsert_issuer empty toyota).1 ("7203" ∷ "9999" ∷ [])
    ≡ returned (
        record {
          input_ticker = "7203";
          canonical_issuer_id = some "I1";
          matched_kind = some sec_code;
        }
        ∷ record { input_ticker = "9999"; canonical_issuer_id = none; matched_kind = none }
        ∷ [])
unfolding resolve resolve_ticker lookup_issuer upsert_issuer conflict_in forget assign find store
    discard get put same_key has_key
resolve-run = refl

resolve_ticker-IsFirst_example :
    (r : IdentifierResolution) × (resolve_ticker (upsert_issuer empty toyota).1 "7203" all_kinds
      ≡ returned r)
    × (r.input_ticker ≡ "7203")
    × IsFirst (upsert_issuer empty toyota).1 "7203" all_kinds r
resolve_ticker-IsFirst_example =
    resolve_ticker-IsFirst (upsert_issuer empty toyota).1 "7203" all_kinds
      (upsert_issuer-IsIndexed empty toyota empty-IsIndexed)
