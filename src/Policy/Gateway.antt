-- ===== src/Policy/Gateway.antt =====
-- src/caqrs/policy/gateway.py: the projection of a decision onto what the account allows. The message
-- of a violation is text made of the values in its context; it is left out, with its limit of 400
-- characters, which only amounts of more than a hundred digits exceed.
pub mod Outcome
pub mod Violations
mod Tests
use caqrs.Prelude.{
  Bool, true, false, String, List, [], ◌∷◌, ◌++◌, Option, none, some, not, ◌&&◌, contains, any,
  Reply, returned, raised, if◌then◌else◌,
}
use caqrs.Prelude.Decimal.{Decimal, lt_dec}
use caqrs.Schemas.Decision.{
  DecisionAction, adopt, reject, defer, is_adopt, TargetPosition, StrategyDecision, has_targets,
  targets_fit_action,
}

pub data PolicyViolationKind : Type 0 where
  notional_cap_exceeded ticker_deny_listed ticker_not_allowed loss_budget_exhausted :
      PolicyViolationKind

pub record PolicyViolation : Type 0 where
  pub kind : PolicyViolationKind
  pub context : List (String × String)

pub record PolicyGatewayConfig {ℓ} (A : Type ℓ) : Type ℓ where
  pub account_notional_cap_usd : Option A
  pub allowed_tickers : Option (List String)
  pub denied_tickers : List String
  pub daily_realized_loss_usd : A

-- `_no_allow_deny_overlap`
unfoldable pub no_allow_deny_overlap {ℓ} : {A : Type ℓ} → PolicyGatewayConfig A → Bool
no_allow_deny_overlap config = elim config.allowed_tickers [
  | none ↦ true
  | some allowed ↦ not (any (λ ticker. contains ticker config.denied_tickers) allowed)
]

-- `PolicyGatewayConfig()`
abbrev pub empty_config {ℓ} : {A : Type ℓ} → Decimal A → PolicyGatewayConfig A
empty_config d = record {
  account_notional_cap_usd = none;
  allowed_tickers = none;
  denied_tickers = [];
  daily_realized_loss_usd = d.zero;
}

pub record FeasibleAction {ℓ} (A : Type ℓ) : Type ℓ where
  pub action : DecisionAction
  pub targets : List (TargetPosition A)
  pub violations : List PolicyViolation
  pub source_decision_run_id : String

abbrev pub has_violations : List PolicyViolation → Bool
has_violations [] = false
has_violations (v ∷ vs) = true

-- `_consistency`
unfoldable pub is_consistent {ℓ} : {A : Type ℓ} → FeasibleAction A → Bool
is_consistent f =
    targets_fit_action f.action f.targets && not (is_adopt f.action && has_violations f.violations)

-- The constructor with its validator.
unfoldable pub feasible_action {ℓ} : {A : Type ℓ} → FeasibleAction A → Reply (FeasibleAction A)
feasible_action f = if is_consistent f then returned f else raised

module _ {ℓ} {A : Type ℓ} (d : Decimal A) where
  unfoldable pub notional_violations : StrategyDecision A → Option A → List PolicyViolation
  notional_violations s none = []
  notional_violations s (some cap) =
      if lt_dec d cap s.notional_cap_usd
      then record {
        kind = notional_cap_exceeded;
        context =
            ("decision_notional", d.text s.notional_cap_usd) ∷ ("account_cap", d.text cap) ∷ [];
      }
        ∷ []
      else []

  unfoldable pub budget_violations : StrategyDecision A → A → List PolicyViolation
  budget_violations s realized =
      let remaining_budget = d.sub s.daily_loss_limit_usd realized in
      if d.leb remaining_budget d.zero
      then record {
        kind = loss_budget_exhausted;
        context =
            ("daily_loss_limit_usd", d.text s.daily_loss_limit_usd)
            ∷ ("daily_realized_loss_usd", d.text realized)
            ∷ ("remaining_budget_usd", d.text remaining_budget)
            ∷ [];
      }
        ∷ []
      else []

-- `allowed is not None and ticker not in allowed`
unfoldable pub is_not_allowed : Option (List String) → String → Bool
is_not_allowed none ticker = false
is_not_allowed (some allowed) ticker = not (contains ticker allowed)

-- The body of the loop over the targets.
unfoldable pub ticker_violations :
    List String → Option (List String) → String → List PolicyViolation
ticker_violations denied allowed ticker =
    (if contains ticker denied
      then record { kind = ticker_deny_listed; context = ("ticker", ticker) ∷ [] } ∷ []
      else [])
    ++ (if is_not_allowed allowed ticker
        then record { kind = ticker_not_allowed; context = ("ticker", ticker) ∷ [] } ∷ []
        else [])

unfoldable pub target_violations {ℓ} :
    {A : Type ℓ}
    → List String
    → Option (List String)
    → List (TargetPosition A)
    → List PolicyViolation
target_violations denied allowed [] = []
target_violations denied allowed (t ∷ ts) =
    ticker_violations denied allowed t.ticker ++ target_violations denied allowed ts

module _ {ℓ} {A : Type ℓ} (d : Decimal A) where
  unfoldable pub collect_violations :
      StrategyDecision A → PolicyGatewayConfig A → List PolicyViolation
  collect_violations s config =
      notional_violations d s config.account_notional_cap_usd
      ++ (budget_violations d s config.daily_realized_loss_usd
          ++ target_violations config.denied_tickers config.allowed_tickers s.targets)

  unfoldable pub apply_policy_gateway :
      StrategyDecision A → PolicyGatewayConfig A → Reply (FeasibleAction A)
  apply_policy_gateway s config =
      let violations = collect_violations s config in
      if not (is_adopt s.action)
      then feasible_action (record {
        action = s.action;
        targets = [];
        violations = [];
        source_decision_run_id = s.run_id;
      })
      else if has_violations violations
      then feasible_action (record {
        action = defer;
        targets = [];
        violations = violations;
        source_decision_run_id = s.run_id;
      })
      else feasible_action (record {
        action = adopt;
        targets = s.targets;
        violations = [];
        source_decision_run_id = s.run_id;
      })
