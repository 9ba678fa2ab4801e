-- ===== src/Orchestrator/CycleRunner/Outcome.antt =====
-- The result of `run` of cycle_runner.py.
use caqrs.Prelude.{
  ℕ, Text, List, [], ◌∷◌, append-nil, Option, none, some, Option-cases, true, ◌≡◌, ◌≢◌, refl, sym,
  subst, inl, inr, arith, Reply, returned,
}
use caqrs.Prelude.Holds.{Holds, Holds-returned, Holds-not-raised, Holds-cases, and_then-Holds}
use caqrs.Prelude.Decimal.{Decimal}
use caqrs.Entities.Resolver.{IdentifierResolution}
use caqrs.Schemas.Decision.{StrategyDecision}
use caqrs.Policy.Gateway.{FeasibleAction, PolicyGatewayConfig, apply_policy_gateway}
use caqrs.Execution.Report.{ExecutionReport}
use caqrs.Orchestrator.StateMachine
use caqrs.Orchestrator.StateMachine.{
  OrchestratorState, idle, observing, hypothesizing, scrutinizing, researching, auditing, deciding,
  is_valid,
}
use caqrs.Orchestrator.EventLog.{Codec, EventLog}
use caqrs.Orchestrator.Budget
use caqrs.Orchestrator.CycleRunner.{
  output_of, CycleArtifacts, no_artifacts, CycleResult, RunContext, CycleRunner,
}
use caqrs.Orchestrator.CycleRunner.Quiet.{IsQuiet, Noise, IsAppending, IsResolving}
use caqrs.Orchestrator.CycleRunner.Moved.{move-Ready}
use caqrs.Orchestrator.CycleRunner.Ready.{Ready, Ready-world, Ready-artifacts, append_event-Ready}
use caqrs.Orchestrator.CycleRunner.Counted.{Within}
use caqrs.Orchestrator.CycleRunner.Asked.{At, Fine, OnOutput-anything, asked-Faithful}
use caqrs.Orchestrator.CycleRunner.Pipeline.{hypothesis_step-Faithful}
use caqrs.Orchestrator.CycleRunner.Faithful.{
  has, proceeded, passed, is_chained, IsFaithful, IsGated,
}
use caqrs.Orchestrator.CycleRunner.Settled.{decided}
use caqrs.Orchestrator.CycleRunner.Steps.{in_world, append_event, move}
use caqrs.Orchestrator.CycleRunner.Phases.{
  resolve_with, emit_resolutions, observer_step, new_context, run,
}

module _ {ℓ δ κ} {A : Type ℓ} {D : Type δ} {W : Type κ} (codec : Codec) (d : Decimal A)
    (one_decimal : ℕ → Text) (r : CycleRunner A D W) (log₀ : EventLog W) (start : ℕ) where
  emit_resolutions-Ready :
      (xs : List IdentifierResolution) (p : OrchestratorState) (a : CycleArtifacts A D)
      (s : RunContext A D W)
      → At codec d one_decimal r log₀ start p a s
      → Holds
          (Noise d r log₀ start)
          (λ (x : Unit {0}) s'. At codec d one_decimal r log₀ start p a s')
          (emit_resolutions codec d one_decimal r xs s)
  unfolding emit_resolutions
  emit_resolutions-Ready [] p a s h = h
  emit_resolutions-Ready (x ∷ xs) p a s h =
      and_then-Holds _ _ _ (append_event codec one_decimal r _ s) _
        (append_event-Ready codec d one_decimal r log₀ start (Within r.budget.token_cap) p a _ s h)
        (λ _ s' h'. emit_resolutions-Ready xs p a s' h')

  resolve_with-Ready :
      (resolver : Option (D → W → Reply (List IdentifierResolution) × W)) (i : D)
      (p : OrchestratorState) (a : CycleArtifacts A D) (s : RunContext A D W)
      → (IsQuiet d r log₀ start → IsResolving resolver)
      → At codec d one_decimal r log₀ start p a s
      → Holds
          (Noise d r log₀ start)
          (λ (x : Unit {0}) s'. At codec d one_decimal r log₀ start p a s')
          (resolve_with codec d one_decimal r resolver i s)
  unfolding resolve_with
  resolve_with-Ready none i p a s quiet h = h
  resolve_with-Ready (some resolver) i p a s quiet h =
      and_then-Holds _
        (λ (xs : List IdentifierResolution) s'. At codec d one_decimal r log₀ start p a s') _
        (in_world codec one_decimal r (resolver i) s) _
        (Holds-cases _ _ (resolver i s.world).0 (record s { world = (resolver i s.world).1 })
          (λ xs e.
            Ready-world codec d one_decimal r log₀ start (Within r.budget.token_cap) p a s _ h)
          (λ e q. quiet q i s.world e))
        (λ xs s' h'. emit_resolutions-Ready xs p a s' h')

  observer_step-Faithful :
      IsAppending r.broker
      → (i : D) (s : RunContext A D W) → At codec d one_decimal r log₀ start idle no_artifacts s
      → Fine codec d one_decimal r log₀ start (observer_step codec d one_decimal r i s)
  unfolding observer_step
  observer_step-Faithful appending i s h =
      and_then-Holds _ _ _ (append_event codec one_decimal r _ s) _
        (append_event-Ready codec d one_decimal r log₀ start (Within r.budget.token_cap) idle
          no_artifacts _ s h)
        (λ _ s1 h1.
          and_then-Holds _ _ _ (move codec one_decimal r observing s1) _
            (move-Ready codec d one_decimal r log₀ start (Within r.budget.token_cap) idle observing
              no_artifacts s1 (unfold is_valid in refl) h1)
            (λ _ s2 h2.
              and_then-Holds _ _ _ (resolve_with codec d one_decimal r r.entity_resolver i s2) _
                (resolve_with-Ready r.entity_resolver i observing no_artifacts s2 (λ q. q.resolver)
                  h2.0)
                (λ _ s3 h3.
                  asked-Faithful codec d one_decimal r log₀ start (λ _. Unit) observing no_artifacts
                    r.observer "observer" "ObserverArtifact" i _ s3 refl tt refl (λ q. q.observer i)
                    (λ w x e. OnOutput-anything (output_of x.output x.error))
                    (λ o s' _ h'.
                      hypothesis_step-Faithful codec d one_decimal r log₀ start appending o _ (
                        Ready-artifacts codec d one_decimal r log₀ start (Within r.budget.token_cap)
                          observing no_artifacts _ s' h'))
                    h3)))

module _ {ℓ δ κ} {A : Type ℓ} {D : Type δ} {W : Type κ} (d : Decimal A) (r : CycleRunner A D W)
    (log₀ : EventLog W) where
  chained-proceeded :
      (a : CycleArtifacts A D) (action : FeasibleAction A)
      → is_chained a ≡ true
      → a.feasible_action ≡ some action
      → (proceeded a.skeptic ≡ true) × (passed a.audit ≡ true) × (has a.decision ≡ true)
  chained-proceeded a action chained acted = ground (arith, chained, acted)

  chained-acted :
      (a : CycleArtifacts A D) (report : ExecutionReport A)
      → is_chained a ≡ true
      → a.execution_report ≡ some report
      → a.feasible_action ≢ none
  chained-acted a report chained reported missing = ground (arith, chained, reported, missing)

  chained-gated :
      (a : CycleArtifacts A D) (report : ExecutionReport A)
      → is_chained a ≡ true
      → IsGated d r log₀ a.decision a.feasible_action
      → a.execution_report ≡ some report
      → (proceeded a.skeptic ≡ true)
        × (passed a.audit ≡ true)
        × (config : PolicyGatewayConfig A) × (decision : StrategyDecision A)
        × (action : FeasibleAction A) × (r.policy_gateway_config ≡ some config)
        × (a.decision ≡ some decision)
        × (a.feasible_action ≡ some action)
        × (apply_policy_gateway d decision config ≡ returned action)
  chained-gated a report chained gated reported = elim (Option-cases a.feasible_action) [
    | inl missing ↦ absurd (chained-acted a report chained reported missing)
    | inr (action, acted) ↦
        let (p, q, decided) = chained-proceeded a action chained acted in
        elim (Option-cases a.decision) [
          | inl missing ↦ absurd (ground (arith, decided, missing))
          | inr (decision, made) ↦
              let (config, configured, same) =
                subst (λ x. IsGated d r log₀ x (some action)) made
                  (subst (λ y. IsGated d r log₀ a.decision y) acted gated) in
              (p, q, config, decision, action, configured, made, acted, same)
        ]
  ]

module _ {ℓ δ κ} {A : Type ℓ} {D : Type δ} {W : Type κ} (codec : Codec) (d : Decimal A)
    (one_decimal : ℕ → Text) (r : CycleRunner A D W) where
  new_context-Ready :
      (log : EventLog W) (w : W)
      → Ready codec d one_decimal r log
          (r.clock w).0
          (Within r.budget.token_cap)
          idle
          no_artifacts
          (new_context codec d one_decimal r log w)
  unfolding Budget.init StateMachine.init StateMachine.on_transition
  new_context-Ready log w = record {
    machine = refl;
    artifacts = refl;
    budget = refl;
    started = refl;
    totals = refl;
    fits = omega arith;
    log = record { listeners = refl; events = ([], sym (append-nil log.events)) };
  }

  run-Holds :
      (i : D) (log : EventLog W) (w : W)
      → IsAppending r.broker
      → Holds (Noise d r log (r.clock w).0) (IsFaithful d r log) (run codec d one_decimal r i log w)
  unfolding run
  run-Holds i log w appending =
      observer_step-Faithful codec d one_decimal r log (r.clock w).0 appending i _
        (new_context-Ready log w)

  -- Whatever the agents, the broker and the other callables do, as long as a live broker only
  -- appends to the log that it is lent: a run that returns has a result whose artifacts were made in
  -- order, the plan under a skeptic that lets the hypothesis proceed, the decision under an audit
  -- that passes, and the feasible action by the gateway from the decision; whose totals are the
  -- tokens that the guard counted; and whose newest event in the log is its own end. It completed
  -- within its cap of tokens and left the machine idle, or it was aborted with its reason and left
  -- the machine in `error`, either way in the phase that its artifacts lead to.
  pub run-IsFaithful :
      (i : D) (log : EventLog W) (w : W) (x : CycleResult A D)
      → IsAppending r.broker
      → (run codec d one_decimal r i log w).0 ≡ returned x
      → IsFaithful d r log x (run codec d one_decimal r i log w).1
  run-IsFaithful i log w x appending e =
      Holds-returned _ _ (run codec d one_decimal r i log w) x e (run-Holds i log w appending)

  -- Where nothing that the runner calls raises, but for the exceptions that it catches, where the clock
  -- does not go back, the decisions are valid and a live broker only appends to the log: a run returns.
  pub run_returns :
      (i : D) (log : EventLog W) (w : W)
      → IsAppending r.broker
      → IsQuiet d r log (r.clock w).0
      → (x : CycleResult A D) × ((run codec d one_decimal r i log w).0 ≡ returned x)
  run_returns i log w appending quiet =
      Holds-not-raised _ _ (run codec d one_decimal r i log w) (run-Holds i log w appending)
        (λ noise. noise quiet)

  -- A run that returns with an execution report, as long as a live broker only appends to the log that it
  -- is lent: the skeptic let the hypothesis proceed, the audit passed, there is a configuration of the
  -- gateway, and the feasible action is what the gateway makes of the decision.
  pub report_needs_gateway :
      (i : D) (log : EventLog W) (w : W) (x : CycleResult A D) (report : ExecutionReport A)
      → IsAppending r.broker
      → (run codec d one_decimal r i log w).0 ≡ returned x
      → x.artifacts.execution_report ≡ some report
      → (proceeded x.artifacts.skeptic ≡ true)
        × (passed x.artifacts.audit ≡ true)
        × (config : PolicyGatewayConfig A) × (decision : StrategyDecision A)
        × (action : FeasibleAction A) × (r.policy_gateway_config ≡ some config)
        × (x.artifacts.decision ≡ some decision)
        × (x.artifacts.feasible_action ≡ some action)
        × (apply_policy_gateway d decision config ≡ returned action)
  report_needs_gateway i log w x report appending e reported =
      let faithful = run-IsFaithful i log w x appending e in
      chained-gated d r log x.artifacts report faithful.chained faithful.gated reported
