-- ===== src/Orchestrator/CycleRunner/Settled.antt =====
-- The gateway and the broker of cycle_runner.py: the end of a cycle that has a decision.
use caqrs.Prelude.{ℕ, Text, Option, none, some, true, ◌≡◌, ◌≢◌, refl, sym, codes, arith, returned}
use caqrs.Prelude.Effects.{◌>>◌}
use caqrs.Prelude.Holds.{Holds, Holds-cases, and_then-Holds}
use caqrs.Prelude.Decimal.{Decimal}
use caqrs.Prelude.Dict.{Dict}
use caqrs.Schemas.Decision.{StrategyDecision, decision_is_valid}
use caqrs.Policy.Gateway.{FeasibleAction, PolicyGatewayConfig, apply_policy_gateway}
use caqrs.Policy.Gateway.Outcome.{apply_policy_gateway_total}
use caqrs.Execution.Report.{ExecutionReport}
use caqrs.Orchestrator.StateMachine.{deciding, is_valid}
use caqrs.Orchestrator.EventLog.{Codec, EventLog}
use caqrs.Orchestrator.CycleRunner.{
  SkepticReport, AuditReport, Attempt, escaped, CycleArtifacts, RunContext, Broker, CycleRunner,
}
use caqrs.Orchestrator.CycleRunner.Quiet.{IsQuiet, Noise, IsAppending, IsExecuting, IsPricing}
use caqrs.Orchestrator.CycleRunner.Ready.{
  Ready-world, Ready-artifacts, Ready-fits, append_event-Ready,
}
use caqrs.Orchestrator.CycleRunner.Counted.{Within, Any}
use caqrs.Orchestrator.CycleRunner.Executed.{Deciding, execute_with-Ready}
use caqrs.Orchestrator.CycleRunner.Faithful.{has, only_if, is_chained, reached, IsFaithful, IsGated}
use caqrs.Orchestrator.CycleRunner.Ended.{complete-Faithful, unless_failed-Faithful}
use caqrs.Orchestrator.CycleRunner.Steps.{
  is_proceed, is_pass, append_event, complete, unless_failed,
}
use caqrs.Orchestrator.CycleRunner.Phases.{execute_with, execute_if, project_with, gateway_step}

module _ {ℓ δ} {A : Type ℓ} {D : Type δ} where
  -- The artifacts of a cycle that has a decision.
  abbrev pub decided :
      D
      → D
      → SkepticReport D
      → D
      → D
      → AuditReport D
      → StrategyDecision A
      → Option (FeasibleAction A)
      → Option (ExecutionReport A)
      → CycleArtifacts A D
  decided observer hypothesis skeptic plan backtest audit decision action report = record {
    observer = some observer;
    hypothesis = some hypothesis;
    skeptic = some skeptic;
    research = some plan;
    backtest = some backtest;
    audit = some audit;
    decision = some decision;
    feasible_action = action;
    execution_report = report;
  }

module _ {ℓ δ κ} {A : Type ℓ} {D : Type δ} {W : Type κ} (codec : Codec) (d : Decimal A)
    (one_decimal : ℕ → Text) (r : CycleRunner A D W) (log₀ : EventLog W) (start : ℕ) where
  module _ (o h : D) (sk : SkepticReport D) (plan bt : D) (au : AuditReport D)
      (de : StrategyDecision A) (proceeds : is_proceed sk.verdict ≡ true)
      (passes : is_pass au.verdict ≡ true) where
    decided-chained :
        (f : Option (FeasibleAction A)) (x : Option (ExecutionReport A))
        → only_if x (has f) ≡ true
        → is_chained (decided o h sk plan bt au de f x) ≡ true
    decided-chained f x fits = ground (arith, proceeds, passes, fits)

    decided-reached :
        (f : Option (FeasibleAction A)) (x : Option (ExecutionReport A))
        → deciding ≡ reached (decided o h sk plan bt au de f x)
    decided-reached f x = rw passes refl

    complete-decided :
        (f : Option (FeasibleAction A)) (x : Option (ExecutionReport A)) (s : RunContext A D W)
        → only_if x (has f) ≡ true
        → IsGated d r log₀ (some de) f
        → Deciding codec d one_decimal r log₀ start (decided o h sk plan bt au de f x) s
        → Holds
            (Noise d r log₀ start)
            (IsFaithful d r log₀)
            (complete codec one_decimal r deciding s)
    complete-decided f x s fits gated ready =
        complete-Faithful codec d one_decimal r log₀ start deciding
          (decided o h sk plan bt au de f x) s (unfold is_valid in refl) (decided-chained f x fits)
          gated (decided-reached f x) refl ready

    -- The broker's call, once the prices are asked for.
    priced-Faithful :
        (b : Broker A W) (f : FeasibleAction A) (attempt : Attempt (Dict A)) (s : RunContext A D W)
        → IsAppending (some b)
        → (IsQuiet d r log₀ start → IsExecuting (some b))
        → (IsQuiet d r log₀ start → attempt ≢ escaped)
        → IsGated d r log₀ (some de) (some f)
        → Deciding codec d one_decimal r log₀ start (decided o h sk plan bt au de (some f) none) s
        → Holds (Noise d r log₀ start) (IsFaithful d r log₀) (
            unless_failed codec one_decimal r
              (codes "price_provider: ")
              (λ prices.
                execute_with codec d one_decimal r b
                  (decided o h sk plan bt au de (some f) none)
                  f
                  prices
                >> complete codec one_decimal r deciding)
              attempt
              s)
    priced-Faithful b f attempt s appending executes prices gated ready =
        let a = decided o h sk plan bt au de (some f) none in
        unless_failed-Faithful codec d one_decimal r log₀ start deciding a _ _ attempt s
          (decided-chained (some f) none refl) gated (decided-reached (some f) none)
          (Ready-fits codec d one_decimal r log₀ start (Within r.budget.token_cap) Any deciding a s
            ready tt)
          prices
          (λ quoted.
            and_then-Holds _ _ _ (execute_with codec d one_decimal r b a f quoted s) _
              (execute_with-Ready codec d one_decimal r log₀ start b a f quoted s appending executes
                ready)
              (λ _ s' h'. complete-decided (some f) (some h'.0) s' refl gated h'.1))

    execute_if-Faithful :
        (broker : Option (Broker A W))
        (provider : Option (FeasibleAction A → W → Attempt (Dict A) × W))
        (f : Option (FeasibleAction A)) (s : RunContext A D W)
        → IsAppending broker
        → (IsQuiet d r log₀ start → IsExecuting broker)
        → (IsQuiet d r log₀ start → IsPricing provider)
        → IsGated d r log₀ (some de) f
        → Deciding codec d one_decimal r log₀ start (decided o h sk plan bt au de f none) s
        → Holds (Noise d r log₀ start) (IsFaithful d r log₀) (
            execute_if codec d one_decimal r broker provider f
              (decided o h sk plan bt au de f none)
              s)
    unfolding execute_if
    execute_if-Faithful none provider f s appending executes prices gated ready =
        complete-decided f none s refl gated ready
    execute_if-Faithful (some b) none f s appending executes prices gated ready =
        complete-decided f none s refl gated ready
    execute_if-Faithful (some b) (some provider) none s appending executes prices gated ready =
        complete-decided none none s refl gated ready
    execute_if-Faithful (some b) (some provider) (some f) s appending executes prices gated ready =
        priced-Faithful b f (provider f s.world).0 (record s { world = (provider f s.world).1 })
          appending executes (λ q. prices q f s.world) gated
          (Ready-world codec d one_decimal r log₀ start (Within r.budget.token_cap) deciding _ s _
            ready)

    project_with-Faithful :
        (config : Option (PolicyGatewayConfig A)) (s : RunContext A D W)
        → config ≡ r.policy_gateway_config
        → IsAppending r.broker
        → (IsQuiet d r log₀ start → decision_is_valid d de ≡ true)
        → Deciding codec d one_decimal r log₀ start (decided o h sk plan bt au de none none) s
        → Holds (Noise d r log₀ start) (IsFaithful d r log₀) (
            project_with codec d one_decimal r config (decided o h sk plan bt au de none none) de s)
    unfolding project_with
    project_with-Faithful none s same appending valid ready =
        execute_if-Faithful r.broker r.price_provider none s appending (λ q. q.broker)
          (λ q. q.prices) tt ready
    project_with-Faithful (some config) s same appending valid ready =
        let a = decided o h sk plan bt au de none none in
        and_then-Holds _
          (λ (f : FeasibleAction A) s'.
            Deciding codec d one_decimal r log₀ start a s'
            × (apply_policy_gateway d de config ≡ returned f))
          _ (apply_policy_gateway d de config, s) _
          (Holds-cases _ _ (apply_policy_gateway d de config) s (λ f e'. (ready, e'))
            (λ e' q. ground (arith, apply_policy_gateway_total d de config (valid q), e')))
          (λ f s' ready'.
            let a' = decided o h sk plan bt au de (some f) none in
            and_then-Holds _ _ _ (append_event codec one_decimal r _ (record s' { artifacts = a' }))
              _
              (append_event-Ready codec d one_decimal r log₀ start (Within r.budget.token_cap)
                deciding a' _ _
                (Ready-artifacts codec d one_decimal r log₀ start (Within r.budget.token_cap)
                  deciding a a' s' ready'.0))
              (λ _ s'' ready''.
                execute_if-Faithful r.broker r.price_provider (some f) s'' appending (λ q. q.broker)
                  (λ q. q.prices) (config, sym same, ready'.1) ready''))

    pub gateway_step-Faithful :
        (s : RunContext A D W)
        → IsAppending r.broker
        → (IsQuiet d r log₀ start → decision_is_valid d de ≡ true)
        → Deciding codec d one_decimal r log₀ start (decided o h sk plan bt au de none none) s
        → Holds
            (Noise d r log₀ start)
            (IsFaithful d r log₀)
            (gateway_step codec d one_decimal r (decided o h sk plan bt au de none none) de s)
    gateway_step-Faithful s = project_with-Faithful r.policy_gateway_config s refl
