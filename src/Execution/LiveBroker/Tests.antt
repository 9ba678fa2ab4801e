-- ===== src/Execution/LiveBroker/Tests.antt =====
-- Runs of the live broker of live_broker_alpaca.py.
use caqrs.Prelude.{
  String, ap, any, contains, ℕ, ◌+◌, true, [], ◌∷◌, none, codes, ◌≡◌, refl, returned, inl, not,
  ◌||◌, ◌==◌, if◌then◌else◌,
}
use caqrs.Prelude.Int.{ℤ, pos, ◌+ℤ◌, ◌-ℤ◌, ◌*ℤ◌}
use caqrs.Prelude.Sort.{sort_by_key, insert_sorted}
use caqrs.Prelude.Decimal.Whole.{whole, quotient, whole-IsOrdered}
use caqrs.Prelude.Dict.{Dict, get, put, remove, keys}
use caqrs.Schemas.Decision.{adopt, Side, buy, sell}
use caqrs.Policy.Gateway.{FeasibleAction}
use caqrs.Execution.Report.{
  Fill, FillStatus, ExecutionReport, ExecutionStatus, make_fill, make_report,
}
use caqrs.Execution.PaperBroker
use caqrs.Execution.PaperBroker.{
  PaperBroker, rebalance, equity, sum_values, price_of, held, zero_targets, add_targets,
  target_quantities, deltas, compute_deltas, apply_sell, apply_buy, bought, make_position,
  run_orders, sorted_set, involved_tickers, missing_prices,
}
use caqrs.Execution.AlpacaRest.{
  AlpacaOrder, Http, response, order, not_json, cancel_all_orders, submit_order, order_response,
  read_order, cancel_response,
}
use caqrs.Execution.LiveBroker.{
  LiveBrokerAlpaca, Live, init, new_broker, emit, emit_rejected, emit_kill_switch, end_with,
}
use caqrs.Execution.LiveBroker.Submit.{
  Digest, anticipated, execute, after_preflight, submit_fills, accept, refuse, rollback, register,
  emit_submitted, compute_idempotency_key, prefix,
}
use caqrs.Execution.LiveBroker.Recording.{
  noting, noted, notes, is_refused, taken, refused, uncancelled,
}
use caqrs.Execution.LiveBroker.Refusal.{IsRolledBack}
use caqrs.Execution.LiveBroker.Submitted.{IsSubmission, execute_submits}
use caqrs.Execution.LiveBroker.Rollback.{execute_rolls_back}
use caqrs.Execution.LiveBroker.Books.{IsFramed, execute-IsFramed}
use caqrs.Execution.LiveBroker.Silence.{EndsWith, execute_silent}
use caqrs.Execution.LiveBroker.Loss.{
  losing, executing, detaching, run, IsSafe, kill_is_final, loss_is_capped,
}
use caqrs.Execution.LiveBroker.Protocol.{protocol_of, protocol_of-IsGrown}
use caqrs.Orchestrator.CycleRunner.Quiet.{IsGrown}
use caqrs.Orchestrator.EventLog.{Codec, EventLog}

abbrev codec : Codec
codec = record { dump_json = λ e. []; validate_json = λ t. none }

abbrev digest : Digest
digest = record { dumps = λ fields. "{}"; sha256 = λ s. "abc" }

abbrev taken_order : AlpacaOrder ℤ
taken_order = record {
  order_id = "o-1";
  client_order_id = "abc";
  symbol = "AAPL";
  qty = pos 10;
  side = "buy";
  status = "accepted";
}

-- A venue that takes the first order and refuses the others, and one that is down.
abbrev moody : Http ℤ ℕ
moody = record {
  post = λ body n. (response (if n == 0 then 200 else 422) (order taken_order), n + 1);
  delete = λ n. (response 503 not_json, n + 1);
}

abbrev down : Http ℤ ℕ
down = record {
  post = λ body n. (response 503 not_json, n);
  delete = λ n. (response 503 not_json, n);
}

abbrev cash_only : PaperBroker ℤ
cash_only = record { cash = pos 100; positions = []; realized_pnl_usd = pos 0 }

abbrev buy_apple : FeasibleAction ℤ
buy_apple = record {
  action = adopt;
  targets = record { ticker = "AAPL"; side = buy; weight = pos 1 } ∷ [];
  violations = [];
  source_decision_run_id = "run-1";
}

abbrev apple_fill : Fill ℤ
apple_fill = record {
  ticker = "AAPL";
  side = buy;
  status = FillStatus.filled;
  quantity = pos 10;
  fill_price_usd = pos 10;
  notional_usd = pos 100;
  reason = none;
}

abbrev prices : Dict ℤ
prices = ("AAPL", pos 10) ∷ []

abbrev log : EventLog ℕ
log = record { events = []; persist_to = none; listeners = [] }

abbrev live : Live ℤ ℕ
live = record { broker = new_broker whole cash_only (pos 50) true none true; log = log; world = 0 }

abbrev killed : Live ℤ ℕ
killed = record live { broker = record live.broker { kill_switch_engaged = true } }

execute-IsFramed_example :
    IsFramed
      (if live.broker.kill_switch_engaged || not live.broker.enable_live_orders
        then live.broker
        else record live.broker {
          paper_broker = (PaperBroker.execute whole cash_only buy_apple prices).1;
        })
      (execute codec whole digest moody buy_apple prices live).1.broker
execute-IsFramed_example = execute-IsFramed codec whole digest moody buy_apple prices live

execute_silent_example :
    (execute codec whole digest moody buy_apple prices killed
      ≡ execute codec whole digest down buy_apple prices killed)
    × EndsWith ExecutionStatus.skipped (execute codec whole digest moody buy_apple prices killed).0
execute_silent_example =
    execute_silent codec whole digest buy_apple prices killed moody down (inl refl)

-- A holding is sold, and the order that follows is refused.
abbrev holding : PaperBroker ℤ
holding = record {
  cash = pos 50;
  positions = ("NVDA", record { qty = pos 5; avg_cost_usd = pos 8 }) ∷ [];
  realized_pnl_usd = pos 0;
}

abbrev quotes : Dict ℤ
quotes = ("AAPL", pos 10) ∷ ("NVDA", pos 10) ∷ []

abbrev trading : Live ℤ ℕ
trading = record live { broker = new_broker whole holding (pos 50) true none true }

trading-notes :
    notes (execute codec whole digest (noting moody) buy_apple quotes (noted trading)).1
    ≡ uncancelled ∷ refused ∷ taken ∷ []
unfolding execute after_preflight submit_fills accept refuse rollback register emit_submitted emit
    emit_rejected emit_kill_switch end_with submit_order order_response read_order cancel_all_orders
    cancel_response compute_idempotency_key prefix PaperBroker.execute rebalance involved_tickers
    sorted_set missing_prices target_quantities zero_targets add_targets equity sum_values price_of
    held deltas compute_deltas run_orders apply_sell apply_buy bought make_position make_fill
    make_report get put remove keys sort_by_key insert_sorted contains quotient codes ◌+ℤ◌ ◌-ℤ◌ ◌*ℤ◌
trading-notes = refl

execute_rolls_back_example :
    let (answer, after) =
      execute codec whole digest (noting moody) buy_apple quotes (noted trading) in
    EndsWith ExecutionStatus.rejected answer × IsRolledBack after
execute_rolls_back_example =
    execute_rolls_back codec whole digest moody buy_apple quotes trading
      (ap (any is_refused) trading-notes)

-- A venue that takes every order.
abbrev willing : Http ℤ ℕ
willing = record {
  post = λ body n. (response 200 (order taken_order), n + 1);
  delete = λ n. (response 503 not_json, n + 1);
}

abbrev submitted_fill : String → Side → Fill ℤ
submitted_fill ticker side =
    anticipated codec whole digest willing quotes
      (record {
        ticker = ticker;
        side = side;
        status = FillStatus.filled;
        quantity = pos 10;
        fill_price_usd = pos 10;
        notional_usd = pos 100;
        reason = none;
      })
      taken_order

abbrev submitted_report : ExecutionReport ℤ
submitted_report = record {
  source_decision_run_id = "run-1";
  status = ExecutionStatus.submitted;
  fills = submitted_fill "NVDA" sell ∷ submitted_fill "AAPL" buy ∷ [];
  reason = none;
}

trading-submits :
    (execute codec whole digest (noting willing) buy_apple quotes (noted trading)).0
    ≡ returned submitted_report
unfolding execute after_preflight submit_fills accept refuse rollback register emit_submitted emit
    emit_rejected emit_kill_switch end_with submit_order order_response read_order cancel_all_orders
    cancel_response compute_idempotency_key prefix PaperBroker.execute rebalance involved_tickers
    sorted_set missing_prices target_quantities zero_targets add_targets equity sum_values price_of
    held deltas compute_deltas run_orders apply_sell apply_buy bought make_position make_fill
    make_report get put remove keys sort_by_key insert_sorted contains quotient codes ◌+ℤ◌ ◌-ℤ◌ ◌*ℤ◌
trading-submits = refl

execute_submits_example :
    (preflight : ExecutionReport ℤ) × ((PaperBroker.execute whole holding buy_apple quotes).0
      ≡ returned preflight)
    × IsSubmission preflight.fills submitted_report
        (execute codec whole digest (noting willing) buy_apple quotes (noted trading)).1
execute_submits_example =
    execute_submits codec whole digest willing buy_apple quotes trading submitted_report
      trading-submits refl

kill_is_final_example :
    let after = run codec whole digest moody (detaching ∷ executing buy_apple prices ∷ []) killed in
    (after.broker.kill_switch_engaged ≡ true)
    × (execute codec whole digest moody buy_apple prices after
        ≡ execute codec whole digest down buy_apple prices after)
    × EndsWith ExecutionStatus.skipped (execute codec whole digest moody buy_apple prices after).0
kill_is_final_example =
    kill_is_final codec whole digest moody (detaching ∷ executing buy_apple prices ∷ []) killed
      buy_apple prices down refl

new-live : init whole cash_only (pos 50) true none true ≡ returned live.broker
unfolding init
new-live = refl

loss_is_capped_example :
    IsSafe whole (run codec whole digest moody (losing (pos 30) ∷ losing (pos 30) ∷ []) live).broker
loss_is_capped_example =
    loss_is_capped codec whole digest moody whole-IsOrdered cash_only (pos 50) true true none
      (losing (pos 30) ∷ losing (pos 30) ∷ []) live new-live

-- A log of the world that the live broker is in.
abbrev shared_log : EventLog (LiveBrokerAlpaca ℤ × ℕ)
shared_log = record { events = []; persist_to = none; listeners = [] }

protocol_of-IsGrown_test :
    IsGrown shared_log
      ((protocol_of codec whole digest moody).execute buy_apple prices
        (shared_log, (live.broker, 0))).1
protocol_of-IsGrown_test =
    protocol_of-IsGrown codec whole digest moody buy_apple prices shared_log (live.broker, 0)
