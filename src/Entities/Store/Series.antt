-- ===== src/Entities/Store/Series.antt =====
-- `get_market_series` of in_memory.py and `_choose_point`: one series out of what the sources say.
mod Tests
use caqrs.Prelude.{
  ℕ, Bool, String, List, [], ◌∷◌, Option, none, some, filter, map, not, leb, ltb, ◌==◌, ◌&&◌,
  str_eq, if◌then◌else◌, Reply, returned, raised,
}
use caqrs.Prelude.Assoc.{find, store}
use caqrs.Prelude.Decimal.{Decimal}
use caqrs.Entities.Types.{
  Source, jquants, yfinance, polymarket_clob, polymarket_gamma, polymarket_archive, edinet,
  edinetdb, source_index, MarketSeriesKind, series_index, MarketPoint,
}
use caqrs.Entities.Store.{InMemoryEntityStore, MarketKey}

abbrev same_source : Source → Source → Bool
same_source a b = source_index a == source_index b

-- The position of a source's name in the order of text, by which `sorted` compares sources.
abbrev source_order : Source → ℕ
source_order edinet = 0
source_order edinetdb = 1
source_order jquants = 2
source_order polymarket_archive = 3
source_order polymarket_clob = 4
source_order polymarket_gamma = 5
source_order yfinance = 6

pub record ConflictRecord {ℓ} (A : Type ℓ) : Type ℓ where
  pub timestamp : ℕ
  pub chosen : MarketPoint A
  pub discarded : List (MarketPoint A)

pub record MarketSeries {ℓ} (A : Type ℓ) : Type ℓ where
  pub issuer_id : String
  pub kind : MarketSeriesKind
  pub points : List (MarketPoint A)
  pub conflict_log : List (ConflictRecord A)

-- What `by_timestamp` is at one time: at most one point of each source.
abbrev SourcePoints {ℓ} : Type ℓ → Type ℓ
SourcePoints A = List (Source × MarketPoint A)

abbrev ByTimestamp {ℓ} : Type ℓ → Type ℓ
ByTimestamp A = List (ℕ × SourcePoints A)

module _ {ℓ} {A : Type ℓ} where
  abbrev or_empty : Option (SourcePoints A) → SourcePoints A
  or_empty none = []
  or_empty (some ps) = ps

  -- `by_timestamp[point.timestamp][source] = point` on a `defaultdict`.
  unfoldable pub observe : Source → MarketPoint A → ByTimestamp A → ByTimestamp A
  observe source point by =
      store (λ a b. a == b) point.timestamp
        (store same_source source point (or_empty (find (λ a b. a == b) point.timestamp by))) by

  unfoldable pub observe_all : ℕ × ℕ → Source → List (MarketPoint A) → ByTimestamp A → ByTimestamp A
  observe_all range source [] by = by
  observe_all range source (p ∷ ps) by =
      observe_all range source ps
        (if leb range.0 p.timestamp && leb p.timestamp range.1 then observe source p by else by)

  unfoldable pub group_points :
      String
      → MarketSeriesKind
      → ℕ × ℕ
      → List (MarketKey × List (MarketPoint A))
      → ByTimestamp A
      → ByTimestamp A
  group_points issuer_id kind range [] by = by
  group_points issuer_id kind range ((key, points) ∷ rest) by =
      group_points issuer_id kind range rest (
        if str_eq key.issuer_id issuer_id && series_index key.kind == series_index kind
        then observe_all range key.source points by
        else by)

  -- `sorted(by_timestamp)`, with the entry of each time.
  unfoldable pub insert_time : ℕ × SourcePoints A → ByTimestamp A → ByTimestamp A
  insert_time e [] = e ∷ []
  insert_time e (f ∷ rest) = if leb e.0 f.0 then e ∷ f ∷ rest else f ∷ insert_time e rest

  unfoldable pub sort_times : ByTimestamp A → ByTimestamp A
  sort_times [] = []
  sort_times (e ∷ rest) = insert_time e (sort_times rest)

  -- `source_points[sorted(source_points)[0]]`, which an empty dict raises an `IndexError` at.
  unfoldable pub first_by_name : SourcePoints A → Option (Source × MarketPoint A)
  first_by_name [] = none
  first_by_name ((source, p) ∷ rest) = elim (first_by_name rest) [
    | none ↦ some (source, p)
    | some (other, q) ↦
        if ltb (source_order other) (source_order source) then some (other, q) else some (source, p)
  ]

  unfoldable pub choose_point : SourcePoints A → List Source → Reply (MarketPoint A)
  choose_point source_points [] = elim (first_by_name source_points) [
    | none ↦ raised
    | some (source, p) ↦ returned p
  ]
  choose_point source_points (source ∷ rest) =
      let later = choose_point source_points rest in
      elim (find same_source source source_points) [ none ↦ later | some p ↦ returned p ]

module _ {ℓ} {A : Type ℓ} (d : Decimal A) where
  -- The points of other sources that disagree with the chosen one.
  unfoldable pub discarded_by : MarketPoint A → SourcePoints A → List (MarketPoint A)
  discarded_by chosen source_points =
      filter
        (λ p.
          not (same_source p.provenance.source chosen.provenance.source)
          && not (d.leb p.value chosen.value && d.leb chosen.value p.value))
        (map (λ e. e.1) source_points)

  abbrev add_conflict :
      ℕ → MarketPoint A → List (MarketPoint A) → List (ConflictRecord A) → List (ConflictRecord A)
  add_conflict timestamp chosen [] log = log
  add_conflict timestamp chosen (p ∷ ps) log =
      record { timestamp = timestamp; chosen = chosen; discarded = p ∷ ps } ∷ log

  -- The loop over the times in order: the points chosen and the conflicts.
  unfoldable pub select_points :
      List Source → ByTimestamp A → Reply (List (MarketPoint A) × List (ConflictRecord A))
  select_points source_priority [] = returned ([], [])
  select_points source_priority ((timestamp, source_points) ∷ rest) =
      let later = select_points source_priority rest in
      elim (choose_point source_points source_priority) [
        | raised ↦ raised
        | returned chosen ↦ elim later [
          | raised ↦ raised
          | returned (points, log) ↦ returned (
            chosen ∷ points,
            add_conflict timestamp chosen (discarded_by chosen source_points) log,
          )
        ]
      ]

  unfoldable pub get_market_series :
      InMemoryEntityStore A
      → String
      → MarketSeriesKind
      → ℕ × ℕ
      → List Source
      → Reply (MarketSeries A)
  get_market_series s issuer_id kind range source_priority =
      elim (select_points source_priority
        (sort_times (group_points issuer_id kind range s.market_points []))) [
          | raised ↦ raised
          | returned (points, log) ↦
              returned
                (record { issuer_id = issuer_id; kind = kind; points = points; conflict_log = log })
        ]
