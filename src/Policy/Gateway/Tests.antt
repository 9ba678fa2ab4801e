-- ===== src/Policy/Gateway/Tests.antt =====
-- Runs of the gateway of policy/gateway.py on whole numbers.
use caqrs.Prelude.{
  true, [], ◌∷◌, some, contains, count, ◌≡◌, ◌↔◌, refl, returned, if◌then◌else◌, ◌&&◌,
}
use caqrs.Prelude.Int.{ℤ, pos, ◌+ℤ◌, ◌-ℤ◌}
use caqrs.Prelude.Decimal.Whole.{whole, whole-IsOrdered}
use caqrs.Schemas.Decision.{
  adopt, is_adopt, buy, StrategyDecision, decision_is_valid, weights_within_envelope,
  no_duplicate_tickers,
}
use caqrs.Policy.Gateway.{
  PolicyGatewayConfig, apply_policy_gateway, collect_violations, has_violations,
  notional_violations, budget_violations, target_violations, ticker_violations, is_not_allowed,
  feasible_action, is_consistent, empty_config,
}
use caqrs.Policy.Gateway.Violations.{IsClear, is_denial, is_refusal, collect_violations_count}
use caqrs.Policy.Gateway.Outcome.{
  passed, demoted, apply_policy_gateway_total, apply_policy_gateway_iff,
  apply_policy_gateway-empty_config,
}

abbrev decision : StrategyDecision ℤ
decision = record {
  run_id = "run-1";
  action = adopt;
  targets = record { ticker = "NVDA"; side = buy; weight = pos 1 } ∷ [];
  notional_cap_usd = pos 500;
  max_position_weight = pos 1;
  daily_loss_limit_usd = pos 20;
}

abbrev lenient : PolicyGatewayConfig ℤ
lenient = record {
  account_notional_cap_usd = some (pos 500);
  allowed_tickers = some ("NVDA" ∷ "AAPL" ∷ []);
  denied_tickers = "GME" ∷ [];
  daily_realized_loss_usd = pos 19;
}

-- The ticker is on one list and off the other.
abbrev strict : PolicyGatewayConfig ℤ
strict = record lenient { allowed_tickers = some ("AAPL" ∷ []); denied_tickers = "NVDA" ∷ [] }

decision-IsValid : decision_is_valid whole decision ≡ true
unfolding decision_is_valid weights_within_envelope no_duplicate_tickers contains ◌+ℤ◌
decision-IsValid = refl

passes : apply_policy_gateway whole decision lenient ≡ returned (passed whole decision)
unfolding apply_policy_gateway collect_violations notional_violations budget_violations
    target_violations ticker_violations is_not_allowed feasible_action is_consistent contains ◌-ℤ◌
passes = refl

collect_violations_count_test :
    (count is_denial (collect_violations whole decision strict) ≡ 1)
    × (count is_refusal (collect_violations whole decision strict) ≡ 1)
unfolding contains is_not_allowed
collect_violations_count_test = collect_violations_count whole decision strict

apply_policy_gateway_total_example :
    apply_policy_gateway whole decision strict
    ≡ returned (
        if is_adopt decision.action && has_violations (collect_violations whole decision strict)
        then demoted whole decision (collect_violations whole decision strict)
        else passed whole decision)
apply_policy_gateway_total_example =
    apply_policy_gateway_total whole decision strict decision-IsValid

apply_policy_gateway_iff_example :
    (adopt ≡ adopt) ↔ ((decision.action ≡ adopt) × IsClear whole decision lenient)
apply_policy_gateway_iff_example =
    apply_policy_gateway_iff whole whole-IsOrdered decision lenient decision-IsValid passes

-- A decision that allows no loss at all, with no constraint of the account.
abbrev no_loss : StrategyDecision ℤ
no_loss = record decision { daily_loss_limit_usd = pos 0 }

no_loss-IsValid : decision_is_valid whole no_loss ≡ true
unfolding decision_is_valid weights_within_envelope no_duplicate_tickers contains ◌+ℤ◌
no_loss-IsValid = refl

apply_policy_gateway-empty_config_example :
    apply_policy_gateway whole no_loss (empty_config whole)
    ≡ returned (demoted whole no_loss (budget_violations whole no_loss (pos 0)))
apply_policy_gateway-empty_config_example =
    apply_policy_gateway-empty_config whole whole-IsOrdered no_loss no_loss-IsValid
