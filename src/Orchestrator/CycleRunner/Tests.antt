-- ===== src/Orchestrator/CycleRunner/Tests.antt =====
-- Runs of the runner of cycle_runner.py on documents that are numbers.
use caqrs.Prelude.{
  ℕ, ◌+◌, Text, [], ◌∷◌, none, some, true, contains, codes, ◌≡◌, ◌≢◌, refl, Reply, returned, raised,
  arith,
}
use caqrs.Prelude.Int.{ℤ, pos, ◌-ℤ◌, ◌+ℤ◌}
use caqrs.Prelude.Decimal.Whole.{whole}
use caqrs.Schemas.Decision.{
  adopt, buy, StrategyDecision, decision_is_valid, weights_within_envelope, no_duplicate_tickers,
}
use caqrs.Policy.Gateway.{
  FeasibleAction, PolicyGatewayConfig, apply_policy_gateway, collect_violations,
  notional_violations, budget_violations, target_violations, ticker_violations, is_not_allowed,
  feasible_action, is_consistent,
}
use caqrs.Execution.Report.{ExecutionReport, ExecutionStatus}
use caqrs.Orchestrator.StateMachine
use caqrs.Orchestrator.EventLog.{Codec, EventLog, append}
use caqrs.Orchestrator.Budget
use caqrs.Orchestrator.CycleRunner.{
  SkepticReport, proceed, kill, pass, AgentResult, did, CycleResult, plain, CycleRunner,
}
use caqrs.Orchestrator.CycleRunner.Quiet.{IsQuiet}
use caqrs.Orchestrator.CycleRunner.Faithful.{proceeded, passed, IsFaithful}
use caqrs.Orchestrator.CycleRunner.Phases.{
  run, observer_step, resolve_with, hypothesis_step, skeptic_step, research_step, auditor_step,
  decider_step, project_with, execute_if, execute_with,
}
use caqrs.Orchestrator.CycleRunner.Steps.{
  call_agent, agent_ended, complete, end_cycle, persist_if_configured,
}
use caqrs.Orchestrator.Listeners.{notify}
use caqrs.Orchestrator.CycleRunner.Outcome.{run-IsFaithful, run_returns, report_needs_gateway}

abbrev codec : Codec
codec = record { dump_json = λ e. []; validate_json = λ t. none }

abbrev one_decimal : ℕ → Text
one_decimal n = codes "0.0"

-- An agent that answers at once, and costs three tokens.
abbrev answers {μ} : {O : Type μ} → O → ℕ → Reply (AgentResult O) × ℕ
answers o w = (
  returned (record { output = some o; error = none; token_in = 2; token_out = 1; latency_ms = 5 }),
  w + 1,
)

abbrev doubtful : SkepticReport ℕ
doubtful = record { verdict = kill; body = 3 }

abbrev decision : StrategyDecision ℤ
decision = record {
  run_id = "run-1";
  action = adopt;
  targets = record { ticker = "NVDA"; side = buy; weight = pos 1 } ∷ [];
  notional_cap_usd = pos 500;
  max_position_weight = pos 1;
  daily_loss_limit_usd = pos 20;
}

abbrev config : PolicyGatewayConfig ℤ
config = record {
  account_notional_cap_usd = none;
  allowed_tickers = none;
  denied_tickers = [];
  daily_realized_loss_usd = pos 0;
}

abbrev traded : ExecutionReport ℤ
traded = record {
  source_decision_run_id = "run-1";
  status = ExecutionStatus.filled;
  fills = [];
  reason = none;
}

abbrev runner : CycleRunner ℤ ℕ ℕ
runner = record {
  observer = λ i. answers 1;
  hypothesis = λ i. answers 2;
  skeptic = λ i. answers (record { verdict = proceed; body = 3 });
  research = λ i. answers 4;
  auditor = λ i. answers (record { verdict = pass; body = 6 });
  decider = λ i. answers decision;
  backtest_executor = λ plan w. (did 5, w);
  budget = record { cycle_id = "c-1"; token_cap = 100; wallclock_cap = 1000 };
  clock = λ w. (w, w);
  new_run_id = λ w. ("r", w);
  cycle_store = none;
  policy_gateway_config = some config;
  broker = some (plain (λ action prices w. (returned traded, w)));
  price_provider = some (λ action w. (did (("NVDA", pos 10) ∷ []), w));
  entity_resolver = none;
}

-- The hypothesis is killed.
abbrev killing : CycleRunner ℤ ℕ ℕ
killing = record runner { skeptic = λ i. answers doubtful }

abbrev log : EventLog ℕ
log = record { events = []; persist_to = none; listeners = [] }

abbrev killed : CycleResult ℤ ℕ
killed = record {
  cycle_id = "c-1";
  terminal_state = StateMachine.scrutinizing;
  artifacts = record {
    observer = some 1;
    hypothesis = some 2;
    skeptic = some doubtful;
    research = none;
    backtest = none;
    audit = none;
    decision = none;
    feasible_action = none;
    execution_report = none;
  };
  aborted_reason = none;
  total_token_in = 6;
  total_token_out = 3;
}

abbrev adopted : FeasibleAction ℤ
adopted = record {
  action = adopt;
  targets = decision.targets;
  violations = [];
  source_decision_run_id = "run-1";
}

abbrev completed : CycleResult ℤ ℕ
completed = record {
  cycle_id = "c-1";
  terminal_state = StateMachine.deciding;
  artifacts = record {
    observer = some 1;
    hypothesis = some 2;
    skeptic = some (record { verdict = proceed; body = 3 });
    research = some 4;
    backtest = some 5;
    audit = some (record { verdict = pass; body = 6 });
    decision = some decision;
    feasible_action = some adopted;
    execution_report = some traded;
  };
  aborted_reason = none;
  total_token_in = 12;
  total_token_out = 6;
}

run-killed : (run codec whole one_decimal killing 0 log 7).0 ≡ returned killed
unfolding run observer_step resolve_with hypothesis_step skeptic_step call_agent agent_ended
    complete end_cycle persist_if_configured StateMachine.init StateMachine.on_transition
    StateMachine.transition StateMachine.is_valid notify append Budget.init Budget.consume
    Budget.check Budget.emit_if_first_breach Budget.classify
run-killed = refl

run-completed : (run codec whole one_decimal runner 0 log 7).0 ≡ returned completed
unfolding run observer_step resolve_with hypothesis_step skeptic_step research_step auditor_step
    decider_step project_with execute_if execute_with call_agent agent_ended complete end_cycle
    persist_if_configured StateMachine.init StateMachine.on_transition StateMachine.transition
    StateMachine.is_valid notify append Budget.init Budget.consume Budget.check
    Budget.emit_if_first_breach Budget.classify apply_policy_gateway collect_violations
    notional_violations budget_violations target_violations ticker_violations is_not_allowed
    feasible_action is_consistent contains ◌-ℤ◌
run-completed = refl

run-IsFaithful_example :
    IsFaithful whole killing log killed (run codec whole one_decimal killing 0 log 7).1
run-IsFaithful_example = run-IsFaithful codec whole one_decimal killing 0 log 7 killed tt run-killed

report_needs_gateway_example :
    (proceeded completed.artifacts.skeptic ≡ true)
    × (passed completed.artifacts.audit ≡ true)
    × (c : PolicyGatewayConfig ℤ) × (s : StrategyDecision ℤ) × (f : FeasibleAction ℤ)
    × (runner.policy_gateway_config ≡ some c)
    × (completed.artifacts.decision ≡ some s)
    × (completed.artifacts.feasible_action ≡ some f)
    × (apply_policy_gateway whole s c ≡ returned f)
report_needs_gateway_example =
    report_needs_gateway codec whole one_decimal runner 0 log 7 completed traded tt run-completed
      refl

decision-valid : decision_is_valid whole decision ≡ true
unfolding decision_is_valid weights_within_envelope no_duplicate_tickers contains ◌+ℤ◌
decision-valid = refl

answers_return {μ} : {O : Type μ} (o : O) (w : ℕ) → (answers o w).0 ≢ raised
answers_return o w e = ground (arith, e)

runner-IsQuiet : IsQuiet whole runner log 0
runner-IsQuiet = record {
  listeners = tt;
  clock = λ w. omega arith;
  observer = λ i. answers_return 1;
  hypothesis = λ i. answers_return 2;
  skeptic = λ i. answers_return _;
  research = λ i. answers_return 4;
  auditor = λ i. answers_return _;
  decider = λ i. answers_return decision;
  decisions = λ i w x s e e'. ground (arith, e, e', decision-valid);
  backtest = λ plan w e. ground (arith, e);
  store = tt;
  resolver = tt;
  prices = λ action w e. ground (arith, e);
  broker = λ action prices w e. ground (arith, e);
}

run_returns_example :
    (x : CycleResult ℤ ℕ) × ((run codec whole one_decimal runner 0 log 0).0 ≡ returned x)
run_returns_example = run_returns codec whole one_decimal runner 0 log 0 tt runner-IsQuiet
