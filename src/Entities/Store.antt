-- ===== src/Entities/Store.antt =====
-- src/caqrs/entities/in_memory.py: the store in memory. A method that
-- raises leaves what it had changed by then.
pub mod Index
pub mod Merge
pub mod Queries
pub mod Series
mod Tests
use caqrs.Prelude.{
  ℕ, Bool, true, false, not, String, List, [], ◌∷◌, ◌++◌, map, Option, none, some, filter, any,
  contains, leb, ltb, ◌==◌, ◌&&◌, ◌||◌, str_eq, if◌then◌else◌,
}
use caqrs.Prelude.Dict.{Dict, get, put, remove}
use caqrs.Prelude.Assoc.{find, store, discard}
use caqrs.Entities.Types.{
  Identifier, same_key, Issuer, Source, MarketSeriesKind, source_index, series_index, MarketPoint,
  Filing, Relation, RelationKind, subsidiary_of,
}

-- A method returns, or raises one of the errors of errors.py.
pub data StoreReply {ℓ} (B : Type ℓ) : Type ℓ where
  returned : B → StoreReply B
  identifier_conflict : Identifier → String → String → StoreReply B
  unknown_issuer : String → StoreReply B
  key_error : StoreReply B

abbrev pub Keyed : Type 0
Keyed = List (Identifier × String)

pub record MarketKey : Type 0 where
  pub issuer_id : String
  pub kind : MarketSeriesKind
  pub source : Source

unfoldable pub same_series : MarketKey → MarketKey → Bool
same_series a b =
    str_eq a.issuer_id b.issuer_id
    && (series_index a.kind == series_index b.kind
        && source_index a.source == source_index b.source)

pub record InMemoryEntityStore {ℓ} (A : Type ℓ) : Type ℓ where
  pub issuers : Dict Issuer
  pub identifiers : Keyed
  pub market_points : List (MarketKey × List (MarketPoint A))
  pub filings : List Filing
  pub relations : List Relation

-- The first identifier that another issuer has, with that issuer.
unfoldable pub conflict_in : Keyed → String → List Identifier → Option (Identifier × String)
conflict_in keyed id [] = none
conflict_in keyed id (i ∷ is) =
    let later = conflict_in keyed id is in
    elim (find same_key i keyed) [
      | none ↦ later
      | some existing ↦ if str_eq existing id then later else some (i, existing)
    ]

-- `key in new_keys`
unfoldable pub has_key : Identifier → List Identifier → Bool
has_key k [] = false
has_key k (i ∷ is) = let rest = has_key k is in if same_key i k then true else rest

-- `self._identifiers.get(key) == issuer.id`
abbrev pub is_owner : String → Option String → Bool
is_owner id none = false
is_owner id (some owner) = str_eq owner id

-- The keys of the previous record that are not among the new ones are forgotten.
unfoldable pub forget : String → List Identifier → List Identifier → Keyed → Keyed
forget id new [] keyed = keyed
forget id new (i ∷ previous) keyed =
    let kept = forget id new previous keyed in
    let dropped = forget id new previous (discard same_key i keyed) in
    if not (has_key i new) && is_owner id (find same_key i keyed) then dropped else kept

-- Every identifier is assigned to the issuer.
unfoldable pub assign : String → List Identifier → Keyed → Keyed
assign id [] keyed = keyed
assign id (i ∷ is) keyed = assign id is (store same_key i id keyed)

abbrev pub previous_identifiers : Option Issuer → List Identifier
previous_identifiers none = []
previous_identifiers (some issuer) = issuer.identifiers

-- `_identifier_union`
unfoldable pub identifier_union : List Identifier → List Identifier → List Identifier
identifier_union known [] = known
identifier_union known (i ∷ is) =
    let skipped = identifier_union known is in
    let added = identifier_union (known ++ i ∷ []) is in if has_key i known then skipped else added

-- The loop of `merge_issuers`: a conflict ends it with what was assigned by then.
unfoldable pub relink :
    String → String → List Identifier → Keyed → Option (Identifier × String) × Keyed
relink keep drop [] keyed = (none, keyed)
relink keep drop (i ∷ is) keyed =
    let later = relink keep drop is (store same_key i keep keyed) in
    elim (find same_key i keyed) [
      | none ↦ later
      | some existing ↦
          if str_eq existing keep || str_eq existing drop
          then later
          else (some (i, existing), keyed)
    ]

abbrev pub renamed : String → String → String → String
renamed keep drop id = if str_eq id drop then keep else id

abbrev pub rename_filing : String → String → Filing → Filing
rename_filing keep drop f = record f { issuer_id = renamed keep drop f.issuer_id }

abbrev pub rename_relation : String → String → Relation → Relation
rename_relation keep drop r = record r {
  from_id = renamed keep drop r.from_id;
  to_id = renamed keep drop r.to_id;
}

module _ {ℓ} {A : Type ℓ} where
  -- `__init__`
  unfoldable pub init : InMemoryEntityStore A
  init = record { issuers = []; identifiers = []; market_points = []; filings = []; relations = [] }

  unfoldable pub get_issuer : InMemoryEntityStore A → String → Option Issuer
  get_issuer s issuer_id = get issuer_id s.issuers

  -- An identifier whose issuer is gone is a `KeyError`.
  unfoldable pub lookup_issuer : InMemoryEntityStore A → Identifier → StoreReply (Option Issuer)
  lookup_issuer s key = elim (find same_key key s.identifiers) [
    | none ↦ returned none
    | some id ↦ elim (get id s.issuers) [ none ↦ key_error | some issuer ↦ returned (some issuer) ]
  ]

  unfoldable pub upsert_issuer :
      InMemoryEntityStore A → Issuer → StoreReply Issuer × InMemoryEntityStore A
  upsert_issuer s issuer = elim (conflict_in s.identifiers issuer.id issuer.identifiers) [
    | some (i, existing) ↦ (identifier_conflict i existing issuer.id, s)
    | none ↦ (
      returned issuer,
      record s {
        issuers = put issuer.id issuer s.issuers;
        identifiers = assign issuer.id issuer.identifiers (
            forget issuer.id issuer.identifiers (previous_identifiers (get issuer.id s.issuers))
              s.identifiers);
      },
    )
  ]

  -- `self._market_points[key].extend(points)` on a `defaultdict`.
  unfoldable pub extend_series :
      MarketKey
      → List (MarketPoint A)
      → List (MarketKey × List (MarketPoint A))
      → List (MarketKey × List (MarketPoint A))
  extend_series key points series = elim (find same_series key series) [
    | none ↦ store same_series key points series
    | some old ↦ store same_series key (old ++ points) series
  ]

  -- `_transfer_market_points`, from an empty dict.
  unfoldable pub transfer_market_points :
      String
      → String
      → List (MarketKey × List (MarketPoint A))
      → List (MarketKey × List (MarketPoint A))
      → List (MarketKey × List (MarketPoint A))
  transfer_market_points keep drop [] transferred = transferred
  transfer_market_points keep drop ((key, points) ∷ rest) transferred =
      transfer_market_points keep drop rest (
        extend_series (record key { issuer_id = renamed keep drop key.issuer_id }) points
          transferred)

  -- The end of `merge_issuers`: what is one issuer's becomes the other's.
  unfoldable pub transfer : String → String → InMemoryEntityStore A → InMemoryEntityStore A
  transfer keep drop s = record s {
    market_points = transfer_market_points keep drop s.market_points [];
    filings = map (rename_filing keep drop) s.filings;
    relations = map (rename_relation keep drop) s.relations;
    issuers = remove drop s.issuers;
  }

  unfoldable pub merge_issuers :
      InMemoryEntityStore A → String → String → StoreReply Issuer × InMemoryEntityStore A
  merge_issuers s keep drop = elim (get keep s.issuers) [
    | none ↦ (unknown_issuer keep, s)
    | some keep_issuer ↦
        if str_eq keep drop then (returned keep_issuer, s) else elim (get drop s.issuers) [
          | none ↦ (returned keep_issuer, s)
          | some drop_issuer ↦
              let merged = record keep_issuer {
                identifiers =
                    identifier_union (identifier_union [] keep_issuer.identifiers)
                      drop_issuer.identifiers;
              } in
              let (conflict, keyed) = relink keep drop drop_issuer.identifiers s.identifiers in
              let linked = record s { identifiers = keyed } in
              let (answer, upserted) = upsert_issuer linked merged in
              elim conflict [
                | some (i, existing) ↦ (identifier_conflict i existing keep, linked)
                | none ↦ elim answer [
                  | returned _ ↦ (returned merged, transfer keep drop upserted)
                  | identifier_conflict i e p ↦ (identifier_conflict i e p, upserted)
                  | unknown_issuer id ↦ (unknown_issuer id, upserted)
                  | key_error ↦ (key_error, upserted)
                ]
              ]
        ]
  ]

  -- `_require_issuer` does not raise.
  unfoldable pub is_known : InMemoryEntityStore A → String → Bool
  is_known s issuer_id = elim (get issuer_id s.issuers) [ none ↦ false | some _ ↦ true ]

  -- The loop of `append_market_points`.
  unfoldable pub add_points :
      String
      → MarketSeriesKind
      → List (MarketPoint A)
      → List (MarketKey × List (MarketPoint A))
      → List (MarketKey × List (MarketPoint A))
  add_points issuer_id kind [] series = series
  add_points issuer_id kind (p ∷ points) series = add_points issuer_id kind points (
      extend_series (record { issuer_id = issuer_id; kind = kind; source = p.provenance.source })
        (p ∷ []) series)

  unfoldable pub append_market_points :
      InMemoryEntityStore A
      → String
      → MarketSeriesKind
      → List (MarketPoint A)
      → StoreReply (Unit {0}) × InMemoryEntityStore A
  append_market_points s issuer_id kind points =
      if is_known s issuer_id
      then (
        returned tt,
        record s { market_points = add_points issuer_id kind points s.market_points },
      )
      else (unknown_issuer issuer_id, s)

  unfoldable pub append_filing :
      InMemoryEntityStore A → Filing → StoreReply (Unit {0}) × InMemoryEntityStore A
  append_filing s filing =
      if is_known s filing.issuer_id
      then (returned tt, record s { filings = s.filings ++ filing ∷ [] })
      else (unknown_issuer filing.issuer_id, s)

  unfoldable pub append_relation :
      InMemoryEntityStore A → Relation → StoreReply (Unit {0}) × InMemoryEntityStore A
  append_relation s relation =
      if not (is_known s relation.from_id)
      then (unknown_issuer relation.from_id, s)
      else if not (is_known s relation.to_id)
      then (unknown_issuer relation.to_id, s)
      else (returned tt, record s { relations = s.relations ++ relation ∷ [] })
