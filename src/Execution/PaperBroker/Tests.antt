-- ===== src/Execution/PaperBroker/Tests.antt =====
-- Runs of the broker of paper_broker.py on whole numbers.
use caqrs.Prelude.{
  true, String, List, [], ◌∷◌, ◌++◌, map, none, some, contains, join_commas, ◌≡◌, ◌≢◌, refl, arith,
  codes, returned, raised, ap, length,
}
use Prim.Native.String.{◌++◌ as ◌+◌}
use caqrs.Prelude.Int.{ℤ, pos, ◌+ℤ◌, ◌-ℤ◌, ◌*ℤ◌}
use caqrs.Prelude.Dict.{Dict, get, put, remove, keys, IsDistinct}
use caqrs.Prelude.Sort.{sort_by_key, insert_sorted}
use caqrs.Prelude.Decimal.Whole.{whole, quotient, whole-IsOrdered, whole-IsExact}
use caqrs.Schemas.Decision.{adopt, Side, buy, sell, TargetPosition, is_adopt}
use caqrs.Policy.Gateway.{FeasibleAction}
use caqrs.Execution.Report.{
  Fill, FillStatus, ExecutionStatus, ExecutionReport, make_fill, make_report,
}
use caqrs.Execution.PaperBroker.{
  PaperBroker, execute, rebalance, equity, sum_values, price_of, held, zero_targets, add_targets,
  target_quantities, deltas, compute_deltas, apply_sell, apply_buy, bought, make_position,
  run_orders, sorted_set, involved_tickers, missing_prices, reject_report, rejected_fill,
}
use caqrs.Execution.PaperBroker.Guards.{execute_unchanged, execute_priced, execute_reject_overflow}
use caqrs.Execution.PaperBroker.Worth.{execute-equity}
use caqrs.Execution.PaperBroker.Targets.{quantity_at, execute_reaches_target, execute_closes}

abbrev two_stocks : PaperBroker ℤ
two_stocks = record {
  cash = pos 100;
  positions =
      ("AAPL", record { qty = pos 10; avg_cost_usd = pos 5 })
      ∷ ("MSFT", record { qty = pos 4; avg_cost_usd = pos 20 })
      ∷ [];
  realized_pnl_usd = pos 0;
}

abbrev quotes : Dict ℤ
quotes = ("AAPL", pos 10) ∷ ("MSFT", pos 25) ∷ ("NVDA", pos 5) ∷ []

abbrev all_in : TargetPosition ℤ
all_in = record { ticker = "NVDA"; side = buy; weight = pos 1 }

abbrev rotate : FeasibleAction ℤ
rotate = record {
  action = adopt;
  targets = all_in ∷ [];
  violations = [];
  source_decision_run_id = "run-1";
}

abbrev fill_of : String → Side → ℤ → ℤ → ℤ → Fill ℤ
fill_of ticker side quantity price notional = record {
  ticker = ticker;
  side = side;
  status = FillStatus.filled;
  quantity = quantity;
  fill_price_usd = price;
  notional_usd = notional;
  reason = none;
}

abbrev rotated : PaperBroker ℤ
rotated = record {
  cash = pos 0;
  positions = ("NVDA", record { qty = pos 60; avg_cost_usd = pos 5 }) ∷ [];
  realized_pnl_usd = pos 70;
}

abbrev filled_report : ExecutionReport ℤ
filled_report = record {
  source_decision_run_id = "run-1";
  status = ExecutionStatus.filled;
  fills =
      fill_of "AAPL" sell (pos 10) (pos 10) (pos 100)
      ∷ fill_of "MSFT" sell (pos 4) (pos 25) (pos 100)
      ∷ fill_of "NVDA" buy (pos 60) (pos 5) (pos 300)
      ∷ [];
  reason = none;
}

-- Both holdings are sold before the new one is bought.
execute-rotates : execute whole two_stocks rotate quotes ≡ (returned filled_report, rotated)
unfolding execute rebalance involved_tickers sorted_set missing_prices target_quantities
    zero_targets add_targets equity sum_values price_of held deltas compute_deltas run_orders
    apply_sell apply_buy bought make_position make_fill make_report get put remove keys sort_by_key
    insert_sorted contains quotient ◌+ℤ◌ ◌-ℤ◌ ◌*ℤ◌
execute-rotates = refl

two_stocks-IsDistinct : IsDistinct two_stocks.positions
unfolding get
two_stocks-IsDistinct = (refl, (refl, tt))

rotates : (execute whole two_stocks rotate quotes).0 ≡ returned filled_report
rotates = ap (λ e. e.0) execute-rotates

execute-equity_example :
    IsDistinct (execute whole two_stocks rotate quotes).1.positions
    × (equity whole (execute whole two_stocks rotate quotes).1 quotes
        ≡ equity whole two_stocks quotes)
execute-equity_example =
    execute-equity whole whole-IsExact whole-IsOrdered two_stocks rotate quotes
      two_stocks-IsDistinct rotates

execute_reaches_target_example :
    held whole (execute whole two_stocks rotate quotes).1.positions "NVDA"
    ≡ quantity_at whole (equity whole two_stocks quotes) quotes all_in
execute_reaches_target_example =
    execute_reaches_target whole whole-IsExact whole-IsOrdered two_stocks rotate quotes [] all_in []
      two_stocks-IsDistinct refl (unfold contains in refl) rotates refl

msft_there : get "MSFT" two_stocks.positions ≡ some (record { qty = pos 4; avg_cost_usd = pos 20 })
unfolding get
msft_there = refl

execute_closes_example :
    held whole (execute whole two_stocks rotate quotes).1.positions "MSFT" ≡ pos 0
execute_closes_example =
    execute_closes whole whole-IsExact whole-IsOrdered two_stocks rotate quotes "MSFT"
      two_stocks-IsDistinct msft_there (unfold contains in refl) rotates refl

execute_priced_test : (is_adopt rotate.action ≡ true) × (get "MSFT" quotes ≢ none)
execute_priced_test =
    execute_priced whole two_stocks rotate quotes "MSFT" rotates refl (unfold contains keys in refl)

-- A held ticker has no price: the report is a rejection.
abbrev no_msft : Dict ℤ
no_msft = ("AAPL", pos 10) ∷ ("NVDA", pos 5) ∷ []

abbrev rejection : ExecutionReport ℤ
rejection = record {
  source_decision_run_id = "run-1";
  status = ExecutionStatus.rejected;
  fills = map (rejected_fill whole ("MSFT" ∷ [])) ("AAPL" ∷ "MSFT" ∷ "NVDA" ∷ []);
  reason = some (codes "missing prices for: MSFT");
}

execute-rejects : (execute whole two_stocks rotate no_msft).0 ≡ returned rejection
unfolding execute involved_tickers sorted_set missing_prices reject_report make_report get put keys
    sort_by_key insert_sorted contains codes join_commas
execute-rejects = refl

rejected-not-filled : ExecutionStatus.rejected ≢ ExecutionStatus.filled
rejected-not-filled e = cc

execute_unchanged_example : (execute whole two_stocks rotate no_msft).1 ≡ two_stocks
execute_unchanged_example =
    execute_unchanged whole two_stocks rotate no_msft execute-rejects rejected-not-filled

-- A hundred and ninety-six tickers, each held once, none of them with a price.
abbrev letters : List String
letters = "A" ∷ "B" ∷ "C" ∷ "D" ∷ "E" ∷ "F" ∷ "G" ∷ "H" ∷ "I" ∷ "J" ∷ "K" ∷ "L" ∷ "M" ∷ "N" ∷ []

abbrev pairs_of : List String → List String → List String
pairs_of [] seconds = []
pairs_of (first ∷ rest) seconds = map (λ second. first + second) seconds ++ pairs_of rest seconds

abbrev many_stocks : PaperBroker ℤ
many_stocks = record {
  cash = pos 100;
  positions =
      map (λ t. (t, record { qty = pos 1; avg_cost_usd = pos 1 })) (pairs_of letters letters);
  realized_pnl_usd = pos 0;
}

many_missing :
    length (missing_prices whole [] (involved_tickers whole many_stocks rotate.targets)) ≡ 197
unfolding involved_tickers sorted_set missing_prices get put keys sort_by_key insert_sorted
many_missing = refl

execute_reject_overflow_example : execute whole many_stocks rotate [] ≡ (raised, many_stocks)
execute_reject_overflow_example =
    execute_reject_overflow whole many_stocks rotate [] refl (omega (arith, many_missing))
