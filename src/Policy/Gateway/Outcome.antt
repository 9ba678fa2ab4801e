-- ===== src/Policy/Gateway/Outcome.antt =====
-- What `apply_policy_gateway` of policy/gateway.py lets through.
use caqrs.Prelude.{
  true, false, ◌≡◌, ◌↔◌, refl, List, [], ◌∷◌, none, ◌&&◌, contains, arith, returned, if◌then◌else◌,
  append-nil, and-parts,
}
use caqrs.Prelude.Decimal.{Decimal, IsOrdered}
use caqrs.Schemas.Decision.{
  adopt, defer, is_adopt, TargetPosition, StrategyDecision, targets_fit_action, decision_is_valid,
}
use caqrs.Policy.Gateway.{
  PolicyViolation, PolicyGatewayConfig, empty_config, FeasibleAction, feasible_action,
  is_consistent, has_violations, notional_violations, budget_violations, target_violations,
  ticker_violations, is_not_allowed, collect_violations, apply_policy_gateway,
}
use caqrs.Policy.Gateway.Violations.{IsClear, collect_violations_iff}

module _ {ℓ} {A : Type ℓ} (d : Decimal A) where
  targets_fit :
      (s : StrategyDecision A)
      → decision_is_valid d s ≡ true
      → targets_fit_action s.action s.targets ≡ true
  unfolding decision_is_valid
  targets_fit s h = (and-parts (targets_fit_action s.action s.targets) _ h).0

  -- The three ways out, with the violations that go with them.
  abbrev pub passed : StrategyDecision A → FeasibleAction A
  passed s = record {
    action = s.action;
    targets = s.targets;
    violations = [];
    source_decision_run_id = s.run_id;
  }

  abbrev pub demoted : StrategyDecision A → List PolicyViolation → FeasibleAction A
  demoted s violations = record {
    action = defer;
    targets = [];
    violations = violations;
    source_decision_run_id = s.run_id;
  }

  -- Messages apart, a valid decision never makes the gateway raise. It is handed on unchanged, or it is
  -- an adoption with violations: then it is demoted whole, to a deferral with no target and with every
  -- violation.
  pub apply_policy_gateway_total :
      (s : StrategyDecision A) (config : PolicyGatewayConfig A)
      → decision_is_valid d s ≡ true
      → apply_policy_gateway d s config
        ≡ returned (
            if is_adopt s.action && has_violations (collect_violations d s config)
            then demoted s (collect_violations d s config)
            else passed s)
  unfolding apply_policy_gateway feasible_action is_consistent
  apply_policy_gateway_total s config valid = ground (arith, targets_fit s valid)

  adopting :
      (s : StrategyDecision A) (violations : List PolicyViolation) (f : FeasibleAction A)
      → f ≡ (
          if is_adopt s.action && has_violations violations then demoted s violations else passed s)
      → (f.action ≡ adopt) ↔ ((s.action ≡ adopt) × (has_violations violations ≡ false))
  adopting s violations f h = (λ a. (ground arith, ground arith), λ a. ground arith)

  -- A valid decision comes out as an adoption exactly if it is one and the account has nothing against
  -- it: its notional is within the account's cap, today's loss is below its limit, and each of its
  -- tickers is off the deny list and on the allow list, if there is one.
  pub apply_policy_gateway_iff :
      IsOrdered d
      → (s : StrategyDecision A) (config : PolicyGatewayConfig A) {f : FeasibleAction A}
      → decision_is_valid d s ≡ true
      → apply_policy_gateway d s config ≡ returned f
      → (f.action ≡ adopt) ↔ ((s.action ≡ adopt) × IsClear d s config)
  apply_policy_gateway_iff ord s config {f} valid h =
      let violations = collect_violations d s config in
      let total = apply_policy_gateway_total s config valid in
      let (out, back) = adopting s violations f (cc (h, total)) in
      let (clear, unclear) = collect_violations_iff d ord s config in
      (
        λ a. let (adopted, none_found) = out a in (adopted, clear none_found),
        λ a. back (a.0, unclear a.1),
      )

  no_ticker_violations : (ts : List (TargetPosition A)) → target_violations [] none ts ≡ []
  unfolding target_violations ticker_violations is_not_allowed contains
  no_ticker_violations [] = refl
  no_ticker_violations (t ∷ ts) = no_ticker_violations ts

  collect_violations-empty_config :
      (s : StrategyDecision A)
      → collect_violations d s (empty_config d) ≡ budget_violations d s d.zero
  unfolding collect_violations notional_violations
  collect_violations-empty_config s =
      rw (no_ticker_violations s.targets) (append-nil (budget_violations d s d.zero))

  has_violations-budget_violations :
      IsOrdered d
      → (s : StrategyDecision A) (realized : A)
      → has_violations (budget_violations d s realized) ≡ d.leb s.daily_loss_limit_usd realized
  unfolding budget_violations
  has_violations-budget_violations ord s realized =
      ground (arith, ord.sub_leb_zero s.daily_loss_limit_usd realized)

  -- With the configuration that has no constraints a valid decision passes unchanged if its own daily
  -- loss limit is positive or it is no adoption. An adoption with a limit of zero is demoted.
  pub apply_policy_gateway-empty_config :
      IsOrdered d
      → (s : StrategyDecision A) → decision_is_valid d s ≡ true
      → apply_policy_gateway d s (empty_config d)
        ≡ returned (
            if is_adopt s.action && d.leb s.daily_loss_limit_usd d.zero
            then demoted s (budget_violations d s d.zero)
            else passed s)
  apply_policy_gateway-empty_config ord s valid = rw (
    apply_policy_gateway_total s (empty_config d) valid,
    collect_violations-empty_config s,
    has_violations-budget_violations ord s d.zero,
  )
