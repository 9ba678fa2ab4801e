-- ===== src/Entities/Store/Series/Tests.antt =====
-- A run of `get_market_series` of in_memory.py.
use caqrs.Prelude.{ℕ, [], ◌∷◌, none, returned, ◌≡◌, refl}
use caqrs.Prelude.Int.{ℤ, pos}
use caqrs.Prelude.Decimal.Whole.{whole}
use caqrs.Prelude.Dict.{get}
use caqrs.Prelude.Assoc.{find, store}
use caqrs.Entities.Types.{
  Issuer, Source, jquants, yfinance, polymarket_clob, MarketPoint, daily_close,
}
use caqrs.Entities.Store.{
  InMemoryEntityStore, same_series, is_known, extend_series, add_points, append_market_points,
}
use caqrs.Entities.Store.Series.{
  get_market_series, observe, observe_all, group_points, insert_time, sort_times, first_by_name,
  choose_point, discarded_by, select_points,
}

abbrev issuer : Issuer
issuer = record { id = "I1"; lei = none; jcn = none; display_name = "Toyota"; identifiers = [] }

abbrev point_of : Source → ℕ → ℤ → MarketPoint ℤ
point_of source timestamp value = record {
  timestamp = timestamp;
  value = value;
  provenance = record { source = source; fetched_at = 9; payload_hash = "0a"; cache_key = none };
}

abbrev quotes : InMemoryEntityStore ℤ
quotes = record {
  issuers = ("I1", issuer) ∷ [];
  identifiers = [];
  market_points = [];
  filings = [];
  relations = [];
}

-- Two sources have a price at the time 2: the preferred one is taken and the other one, which differs,
-- is kept as a conflict. The later time comes last, and the point at 7 is out of range.
series-two_sources :
    get_market_series whole
      (append_market_points quotes "I1" daily_close (
        point_of yfinance 3 (pos 30)
        ∷ point_of yfinance 2 (pos 21)
        ∷ point_of jquants 2 (pos 20)
        ∷ point_of jquants 7 (pos 70)
        ∷ [])).1
      "I1"
      daily_close
      (1, 5)
      (polymarket_clob ∷ yfinance ∷ [])
    ≡ returned (record {
      issuer_id = "I1";
      kind = daily_close;
      points = point_of yfinance 2 (pos 21) ∷ point_of yfinance 3 (pos 30) ∷ [];
      conflict_log =
          record {
            timestamp = 2;
            chosen = point_of yfinance 2 (pos 21);
            discarded = point_of jquants 2 (pos 20) ∷ [];
          }
          ∷ [];
    })
unfolding append_market_points add_points extend_series is_known find store get same_series
    get_market_series observe observe_all group_points insert_time sort_times first_by_name
    choose_point discarded_by select_points
series-two_sources = refl
