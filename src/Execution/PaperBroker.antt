-- ===== src/Execution/PaperBroker.antt =====
-- src/caqrs/execution/paper_broker.py: the in-memory broker. A method that raises leaves what it had
-- changed by then.
pub mod Guards
pub mod Orders
pub mod Deltas
pub mod Holdings
pub mod Worth
pub mod Rebalance
pub mod Targets
mod Tests
use caqrs.Prelude.{
  ℕ, Bool, true, false, String, Text, List, [], ◌∷◌, ◌++◌, map, Option, none, some, contains, not,
  ◌&&◌, Reply, returned, raised, codes, join_commas, if◌then◌else◌,
}
use caqrs.Prelude.Decimal.{Decimal, lt_dec}
use caqrs.Prelude.Dict.{Dict, get, put, remove, keys}
use caqrs.Prelude.Sort.{sort_by_key}
use caqrs.Schemas.Decision.{
  is_adopt, DecisionAction, adopt, reject, defer, Side, buy, sell, TargetPosition,
}
use caqrs.Policy.Gateway.{FeasibleAction}
use caqrs.Execution.Report.{
  Fill, FillStatus, ExecutionStatus, ExecutionReport, make_fill, make_report,
}

pub record Position {ℓ} (A : Type ℓ) : Type ℓ where
  pub qty : A
  pub avg_cost_usd : A

pub record PaperBroker {ℓ} (A : Type ℓ) : Type ℓ where
  pub cash : A
  pub positions : Dict (Position A)
  pub realized_pnl_usd : A

-- An order of `_compute_deltas`: how much, and at what price. The ticker is the key.
pub record Order {ℓ} (A : Type ℓ) : Type ℓ where
  pub qty : A
  pub price : A

-- The elements of a set of tickers, sorted.
unfoldable pub sorted_set : List String → Dict (Unit {0})
sorted_set [] = []
sorted_set (t ∷ ts) = put t tt (sorted_set ts)

unfoldable pub value_of : DecisionAction → Text
value_of adopt = codes "adopt"
value_of reject = codes "reject"
value_of defer = codes "defer"

module _ {ℓ} {A : Type ℓ} (d : Decimal A) where
  -- `__init__`
  unfoldable pub init : A → Reply (PaperBroker A)
  init initial_capital_usd =
      if d.leb initial_capital_usd d.zero
      then raised
      else returned
          (record { cash = initial_capital_usd; positions = []; realized_pnl_usd = d.zero })

  -- `prices[ticker]`. It is read only behind the guard on missing prices, where the key is there.
  unfoldable pub price_of : Dict A → String → A
  price_of prices ticker = elim (get ticker prices) [ none ↦ d.zero | some p ↦ p ]

  -- `Position(…)`
  unfoldable pub make_position : A → A → Reply (Position A)
  make_position qty avg =
      if d.leb d.zero qty && d.leb d.zero avg
      then returned (record { qty = qty; avg_cost_usd = avg })
      else raised

  -- `a == b`
  abbrev pub eq_dec : A → A → Bool
  eq_dec a b = d.leb a b && d.leb b a

  -- The tickers of the set, sorted, that have no price.
  unfoldable pub missing_prices : Dict A → List String → List String
  missing_prices prices [] = []
  missing_prices prices (t ∷ ts) =
      let rest = missing_prices prices ts in elim (get t prices) [ none ↦ t ∷ rest | some p ↦ rest ]

  -- `sum(pos.qty * prices[ticker] …, start=Decimal(0))`
  unfoldable pub sum_values : A → Dict A → Dict (Position A) → A
  sum_values acc prices [] = acc
  sum_values acc prices ((t, pos) ∷ rest) =
      sum_values (d.add acc (d.mul pos.qty (price_of prices t))) prices rest

  unfoldable pub equity : PaperBroker A → Dict A → A
  equity b prices = d.add b.cash (sum_values d.zero prices b.positions)

  -- `{ticker: Decimal(0) for ticker in self._positions}`
  unfoldable pub zero_targets : Dict (Position A) → Dict A
  zero_targets [] = []
  zero_targets ((t, pos) ∷ rest) = (t, d.zero) ∷ zero_targets rest

  -- The loop that sets the target quantity of each target.
  unfoldable pub add_targets : A → Dict A → List (TargetPosition A) → Dict A → Dict A
  add_targets worth prices [] wanted = wanted
  add_targets worth prices (t ∷ ts) wanted =
      let price = price_of prices t.ticker in
      add_targets worth prices ts (
        put t.ticker (if lt_dec d d.zero price then d.div (d.mul worth t.weight) price else d.zero)
          wanted)

  unfoldable pub target_quantities : PaperBroker A → Dict A → List (TargetPosition A) → Dict A
  target_quantities b prices targets =
      add_targets (equity b prices) prices targets (zero_targets b.positions)

  -- The quantity held: zero of a ticker without a position.
  unfoldable pub held : Dict (Position A) → String → A
  held positions ticker = elim (get ticker positions) [ none ↦ d.zero | some pos ↦ pos.qty ]

  -- The loop of `_compute_deltas`: the sells and the buys.
  unfoldable pub deltas : Dict (Position A) → Dict A → Dict A → Dict (Order A) × Dict (Order A)
  deltas positions prices [] = ([], [])
  deltas positions prices ((t, target) ∷ rest) =
      let (sells, buys) = deltas positions prices rest in
      let delta = d.sub target (held positions t) in
      if lt_dec d d.zero delta
      then (sells, (t, record { qty = delta; price = price_of prices t }) ∷ buys)
      else if lt_dec d delta d.zero
      then ((t, record { qty = d.sub d.zero delta; price = price_of prices t }) ∷ sells, buys)
      else (sells, buys)

  unfoldable pub compute_deltas :
      Dict (Position A) → Dict A → Dict A → Dict (Order A) × Dict (Order A)
  compute_deltas positions prices wanted =
      let (sells, buys) = deltas positions prices wanted in (sort_by_key sells, sort_by_key buys)

  -- `_apply_sell`: no position is a `KeyError`; the money moves before the position is made anew.
  unfoldable pub apply_sell : PaperBroker A → String → Order A → Reply (Unit {0}) × PaperBroker A
  apply_sell b ticker o = elim (get ticker b.positions) [
    | none ↦ (raised, b)
    | some pos ↦
        let new_qty = d.sub pos.qty o.qty in
        let paid : PaperBroker A = record b {
          cash = d.add b.cash (d.mul o.qty o.price);
          realized_pnl_usd =
              d.add b.realized_pnl_usd (d.mul (d.sub o.price pos.avg_cost_usd) o.qty);
        } in
        if eq_dec new_qty d.zero
        then (returned tt, record paid { positions = remove ticker b.positions })
        else elim (make_position new_qty pos.avg_cost_usd) [
          | raised ↦ (raised, paid)
          | returned p ↦ (returned tt, record paid { positions = put ticker p b.positions })
        ]
  ]

  -- The position that `_apply_buy` makes.
  unfoldable pub bought : Option (Position A) → Order A → Reply (Position A)
  bought none o = make_position o.qty o.price
  bought (some existing) o =
      let total_cost = d.add (d.mul existing.qty existing.avg_cost_usd) (d.mul o.qty o.price) in
      let new_qty = d.add existing.qty o.qty in
      make_position new_qty (if lt_dec d d.zero new_qty then d.div total_cost new_qty else d.zero)

  unfoldable pub apply_buy : PaperBroker A → String → Order A → Reply (Unit {0}) × PaperBroker A
  apply_buy b ticker o = elim (bought (get ticker b.positions) o) [
    | raised ↦ (raised, b)
    | returned p ↦ (
      returned tt,
      record b { cash = d.sub b.cash (d.mul o.qty o.price); positions = put ticker p b.positions },
    )
  ]

  abbrev pub order_fill : Side → String → Order A → Fill A
  order_fill side ticker o = record {
    ticker = ticker;
    side = side;
    status = FillStatus.filled;
    quantity = o.qty;
    fill_price_usd = o.price;
    notional_usd = d.mul o.qty o.price;
    reason = none;
  }

  -- The two loops of `execute` that carry out the orders of one side.
  unfoldable pub run_orders :
      (PaperBroker A → String → Order A → Reply (Unit {0}) × PaperBroker A)
      → Side
      → Dict (Order A)
      → PaperBroker A
      → Reply (List (Fill A)) × PaperBroker A
  run_orders step side [] b = (returned [], b)
  run_orders step side ((t, o) ∷ rest) b =
      let (done, b') = step b t o in
      let (fills, b'') = run_orders step side rest b' in
      elim done [
        | raised ↦ (raised, b')
        | returned _ ↦ elim (make_fill d (order_fill side t o)) [
          | raised ↦ (raised, b')
          | returned f ↦ elim fills [
            | raised ↦ (raised, b'')
            | returned fs ↦ (returned (f ∷ fs), b'')
          ]
        ]
      ]

  -- The fills of `_reject_report`.
  abbrev pub rejected_fill : List String → String → Fill A
  rejected_fill missing ticker = record {
    ticker = ticker;
    side = buy;
    status = FillStatus.rejected;
    quantity = d.zero;
    fill_price_usd = d.zero;
    notional_usd = d.zero;
    reason =
        some (if contains ticker missing then codes "price unavailable" else codes "rolled back");
  }

  unfoldable pub reject_report :
      FeasibleAction A → List String → List String → Reply (ExecutionReport A)
  reject_report action involved missing = make_report (record {
    source_decision_run_id = action.source_decision_run_id;
    status = ExecutionStatus.rejected;
    fills = map (rejected_fill missing) involved;
    reason = some (codes "missing prices for: " ++ join_commas (map codes missing));
  })

  unfoldable pub skip_report : FeasibleAction A → Reply (ExecutionReport A)
  skip_report action = make_report (record {
    source_decision_run_id = action.source_decision_run_id;
    status = ExecutionStatus.skipped;
    fills = [];
    reason = some (codes "action=" ++ (value_of action.action ++ codes "; no broker work"));
  })

  abbrev pub target_tickers : List (TargetPosition A) → List String
  target_tickers = map (λ t. t.ticker)

  -- The tickers of the targets and of the positions, each once, sorted.
  unfoldable pub involved_tickers : PaperBroker A → List (TargetPosition A) → List String
  involved_tickers b targets =
      keys (sort_by_key (sorted_set (target_tickers targets ++ keys b.positions)))

  -- The part of `execute` behind its guards.
  unfoldable pub rebalance :
      PaperBroker A → FeasibleAction A → Dict A → Reply (ExecutionReport A) × PaperBroker A
  rebalance b action prices =
      let wanted = target_quantities b prices action.targets in
      let (sells, buys) = compute_deltas b.positions prices wanted in
      let (sold, b') = run_orders apply_sell sell sells b in
      let (bought_fills, b'') = run_orders apply_buy buy buys b' in
      elim sold [
        | raised ↦ (raised, b')
        | returned sell_fills ↦ elim bought_fills [
          | raised ↦ (raised, b'')
          | returned buy_fills ↦ (
            make_report (record {
              source_decision_run_id = action.source_decision_run_id;
              status = ExecutionStatus.filled;
              fills = sell_fills ++ buy_fills;
              reason = none;
            }),
            b'',
          )
        ]
      ]

  unfoldable pub execute :
      PaperBroker A → FeasibleAction A → Dict A → Reply (ExecutionReport A) × PaperBroker A
  execute b action prices =
      let involved = involved_tickers b action.targets in
      let missing = missing_prices prices involved in
      if not (is_adopt action.action) then (skip_report action, b) else elim missing [
        | [] ↦ rebalance b action prices
        | m ∷ ms ↦ (reject_report action involved (m ∷ ms), b)
      ]
