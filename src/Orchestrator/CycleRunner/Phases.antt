-- ===== src/Orchestrator/CycleRunner/Phases.antt =====
-- `run` of cycle_runner.py: the phases, each with what follows it.
use caqrs.Prelude.{
  ℕ, String, Text, List, [], ◌∷◌, Option, none, some, codes, length, Reply, if◌then◌else◌,
}
use caqrs.Prelude.Effects.{Action, pure, finally, ◌>>=◌, ◌>>◌}
use caqrs.Prelude.Decimal.{Decimal}
use caqrs.Prelude.Dict.{Dict}
use caqrs.Entities.Types
use caqrs.Entities.Types.{IdentifierKind}
use caqrs.Entities.Resolver.{IdentifierResolution}
use caqrs.Schemas.Decision.{StrategyDecision, action_value}
use caqrs.Policy.Gateway.{PolicyGatewayConfig, FeasibleAction, apply_policy_gateway}
use caqrs.Execution.Report.{ExecutionReport, status_value}
use caqrs.Orchestrator.StateMachine
use caqrs.Orchestrator.StateMachine.{
  OrchestratorState, idle, observing, hypothesizing, scrutinizing, researching, auditing, deciding,
  OrchestratorStateMachine, on_transition,
}
use caqrs.Orchestrator.Events.{
  cycle_started_event, policy_gateway_applied_event, broker_executed_event,
  identifier_resolved_event,
}
use caqrs.Orchestrator.EventLog.{Codec, EventLog}
use caqrs.Orchestrator.Budget
use caqrs.Orchestrator.CycleRunner.{
  Attempt, SkepticReport, AuditReport, CycleArtifacts, no_artifacts, CycleResult, RunContext,
  LiveBrokerProtocol, Broker, plain, live, CycleRunner,
}
use caqrs.Orchestrator.CycleRunner.Steps.{
  is_proceed, is_pass, cycle_id, in_world, reading, append_event, emit_state_transition, move,
  put_artifacts, complete, call_agent, unless_halted, unless_failed,
}

-- `matched_kind.value if matched_kind is not None else None`
abbrev pub matched_value : Option IdentifierKind → Option String
matched_value none = none
matched_value (some kind) = some (Types.kind_value kind)

module _ {ℓ δ κ} {A : Type ℓ} {D : Type δ} {W : Type κ} (codec : Codec) (d : Decimal A)
    (one_decimal : ℕ → Text) (r : CycleRunner A D W) where
  -- A live broker's call of `execute` has the log; the cycle is detached whatever it does.
  abbrev pub lend_log :
      LiveBrokerProtocol A W
      → FeasibleAction A
      → Dict A
      → Action (RunContext A D W) (ExecutionReport A)
  lend_log b action prices s =
      let (answer, log, world) = b.execute action prices (s.event_log, s.world) in
      (answer, record s { event_log = log; world = world })

  abbrev pub detach : LiveBrokerProtocol A W → RunContext A D W → RunContext A D W
  detach b s = record s { world = b.detach_cycle_context s.world }

  -- The broker's call, its artifact and its event.
  unfoldable pub execute_with :
      Broker A W
      → CycleArtifacts A D
      → FeasibleAction A
      → Dict A
      → Action (RunContext A D W) (Unit {0})
  execute_with (live b) a action prices = do
    in_world codec one_decimal r (b.attach_cycle_context (cycle_id codec one_decimal r))
    report ← finally (lend_log b action prices) (detach b)
    put_artifacts codec one_decimal r (record a { execution_report = some report })
  execute_with (plain execute) a action prices = do
    report ← in_world codec one_decimal r (execute action prices)
    put_artifacts codec one_decimal r (record a { execution_report = some report })
    append_event codec one_decimal r (
        broker_executed_event (cycle_id codec one_decimal r) action.source_decision_run_id
          (status_value report.status) (length report.fills) report.reason)

  -- The broker's step; without a broker, a provider of prices and an action it is skipped.
  unfoldable pub execute_if :
      Option (Broker A W)
      → Option (FeasibleAction A → W → Attempt (Dict A) × W)
      → Option (FeasibleAction A)
      → CycleArtifacts A D
      → Action (RunContext A D W) (CycleResult A D)
  execute_if (some b) (some provider) (some action) a = do
    asked ← reading codec one_decimal r (provider action)
    unless_failed codec one_decimal r (codes "price_provider: ")
        (λ prices. execute_with b a action prices >> complete codec one_decimal r deciding) asked
  execute_if _ _ _ a = complete codec one_decimal r deciding

  abbrev pub broker_step : CycleArtifacts A D → Action (RunContext A D W) (CycleResult A D)
  broker_step a = execute_if r.broker r.price_provider a.feasible_action a

  -- `apply_policy_gateway(…)`, where there is a configuration; then the broker.
  unfoldable pub project_with :
      Option (PolicyGatewayConfig A)
      → CycleArtifacts A D
      → StrategyDecision A
      → Action (RunContext A D W) (CycleResult A D)
  project_with none a decision = broker_step a
  project_with (some config) a decision = do
    feasible ← (λ s. (apply_policy_gateway d decision config, s))
    put_artifacts codec one_decimal r (record a { feasible_action = some feasible })
    append_event codec one_decimal r (
        policy_gateway_applied_event (cycle_id codec one_decimal r) decision.run_id
          (action_value feasible.action) (length feasible.violations))
    broker_step (record a { feasible_action = some feasible })

  abbrev pub gateway_step :
      CycleArtifacts A D → StrategyDecision A → Action (RunContext A D W) (CycleResult A D)
  gateway_step a decision = project_with r.policy_gateway_config a decision

  -- Each of the following is `run` from a phase on; `a` is what the phases before it have made.
  unfoldable pub decider_step :
      CycleArtifacts A D → D → D → AuditReport D → Action (RunContext A D W) (CycleResult A D)
  decider_step a hypothesis backtest audit = do
    move codec one_decimal r deciding
    outcome ←
        call_agent codec one_decimal r r.decider "decider" "StrategyDecision"
          (hypothesis, backtest, audit)
    unless_halted codec one_decimal r
        (λ decision. do
          put_artifacts codec one_decimal r (record a { decision = some decision })
          gateway_step (record a { decision = some decision }) decision)
        outcome

  unfoldable pub auditor_step :
      CycleArtifacts A D → D → D → Action (RunContext A D W) (CycleResult A D)
  auditor_step a hypothesis backtest = do
    move codec one_decimal r auditing
    outcome ←
        call_agent codec one_decimal r r.auditor "auditor" "AuditReport" (hypothesis, backtest)
    unless_halted codec one_decimal r
        (λ audit. do
          put_artifacts codec one_decimal r (record a { audit = some audit })
          if is_pass audit.verdict
              then decider_step (record a { audit = some audit }) hypothesis backtest audit
              else complete codec one_decimal r auditing)
        outcome

  unfoldable pub research_step :
      CycleArtifacts A D → D → SkepticReport D → Action (RunContext A D W) (CycleResult A D)
  research_step a hypothesis skeptic = do
    move codec one_decimal r researching
    outcome ←
        call_agent codec one_decimal r r.research "research" "ResearchPlan" (hypothesis, skeptic)
    unless_halted codec one_decimal r
        (λ plan. do
          put_artifacts codec one_decimal r (record a { research = some plan })
          ran ← reading codec one_decimal r (r.backtest_executor plan)
          unless_failed codec one_decimal r (codes "backtest_executor: ")
              (λ report. do
                put_artifacts codec one_decimal r
                    (record a { research = some plan; backtest = some report })
                auditor_step (record a { research = some plan; backtest = some report }) hypothesis
                    report)
              ran)
        outcome

  unfoldable pub skeptic_step : CycleArtifacts A D → D → Action (RunContext A D W) (CycleResult A D)
  skeptic_step a hypothesis = do
    move codec one_decimal r scrutinizing
    outcome ← call_agent codec one_decimal r r.skeptic "skeptic" "SkepticReport" hypothesis
    unless_halted codec one_decimal r
        (λ report. do
          put_artifacts codec one_decimal r (record a { skeptic = some report })
          if is_proceed report.verdict
              then research_step (record a { skeptic = some report }) hypothesis report
              else complete codec one_decimal r scrutinizing)
        outcome

  unfoldable pub hypothesis_step :
      CycleArtifacts A D → D → Action (RunContext A D W) (CycleResult A D)
  hypothesis_step a observed = do
    move codec one_decimal r hypothesizing
    outcome ← call_agent codec one_decimal r r.hypothesis "hypothesis" "HypothesisCard" observed
    unless_halted codec one_decimal r
        (λ card. do
          put_artifacts codec one_decimal r (record a { hypothesis = some card })
          skeptic_step (record a { hypothesis = some card }) card)
        outcome

  -- The events of the resolutions, one by one.
  unfoldable pub emit_resolutions : List IdentifierResolution → Action (RunContext A D W) (Unit {0})
  emit_resolutions [] = pure tt
  emit_resolutions (x ∷ rest) = do
    append_event codec one_decimal r (
        identifier_resolved_event (cycle_id codec one_decimal r) x.input_ticker
          x.canonical_issuer_id (matched_value x.matched_kind))
    emit_resolutions rest

  unfoldable pub resolve_with :
      Option (D → W → Reply (List IdentifierResolution) × W)
      → D
      → Action (RunContext A D W) (Unit {0})
  resolve_with none observer_input = pure tt
  resolve_with (some resolver) observer_input =
      in_world codec one_decimal r (resolver observer_input) >>= emit_resolutions

  unfoldable pub observer_step : D → Action (RunContext A D W) (CycleResult A D)
  observer_step observer_input = do
    append_event codec one_decimal r (cycle_started_event (cycle_id codec one_decimal r) none)
    move codec one_decimal r observing
    resolve_with r.entity_resolver observer_input
    outcome ← call_agent codec one_decimal r r.observer "observer" "ObserverArtifact" observer_input
    unless_halted codec one_decimal r
        (λ observed. do
          put_artifacts codec one_decimal r (record no_artifacts { observer = some observed })
          hypothesis_step (record no_artifacts { observer = some observed }) observed)
        outcome

  -- The machine of a run, with the runner's listener.
  abbrev pub new_machine : OrchestratorStateMachine (EventLog W × W)
  new_machine = on_transition (StateMachine.init idle) (emit_state_transition codec one_decimal r)

  -- `_RunContext(…)`, with the guard's reading of the clock.
  abbrev pub new_context : EventLog W → W → RunContext A D W
  new_context log w = record {
    machine = new_machine;
    guard = Budget.init r.budget (r.clock w).0;
    artifacts = no_artifacts;
    token_in = 0;
    token_out = 0;
    event_log = log;
    world = (r.clock w).1;
  }

  unfoldable pub run : D → EventLog W → W → Reply (CycleResult A D) × RunContext A D W
  run observer_input log w = observer_step observer_input (new_context log w)
