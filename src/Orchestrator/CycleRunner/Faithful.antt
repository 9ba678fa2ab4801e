-- ===== src/Orchestrator/CycleRunner/Faithful.antt =====
-- What a result of cycle_runner.py says, and that the two ends of a cycle say it.
use caqrs.Prelude.{
  ℕ, ◌+◌, ◌≤◌, Text, List, [], ◌∷◌, ◌++◌, append_assoc, Option, none, some, Bool, true, false, ◌&&◌,
  ◌≡◌, ap, ◌∙◌, ◌⊎◌, Reply, returned, if◌then◌else◌,
}
use caqrs.Prelude.Holds.{Holds, Holds-cases, and_then-Holds}
use caqrs.Prelude.Decimal.{Decimal}
use caqrs.Schemas.Decision.{StrategyDecision}
use caqrs.Policy.Gateway.{FeasibleAction, PolicyGatewayConfig, apply_policy_gateway}
use caqrs.Orchestrator.StateMachine.{
  OrchestratorState, idle, observing, hypothesizing, scrutinizing, researching, auditing, deciding,
  error, state_value,
}
use caqrs.Orchestrator.Events.{CycleEvent, cycle_completed_event, cycle_aborted_event}
use caqrs.Orchestrator.EventLog.{Codec, EventLog, filter_by_cycle}
use caqrs.Orchestrator.CycleRunner.{
  SkepticReport, AuditReport, CycleArtifacts, count, CycleResult, RunContext, CycleRunner,
}
use caqrs.Orchestrator.CycleRunner.Quiet.{IsQuiet, IsSaving, IsGrown, Noise}
use caqrs.Orchestrator.CycleRunner.Steps.{
  is_proceed, is_pass, cycle_id, in_world, persist_if_configured, result_of, end_cycle,
}

abbrev pub has {μ} : {X : Type μ} → Option X → Bool
has none = false
has (some x) = true

-- A later artifact is there only under a condition.
abbrev pub only_if {μ} : {X : Type μ} → Option X → Bool → Bool
only_if none b = true
only_if (some x) b = b

module _ {δ} {D : Type δ} where
  abbrev pub proceeded : Option (SkepticReport D) → Bool
  proceeded none = false
  proceeded (some report) = is_proceed report.verdict

  abbrev pub passed : Option (AuditReport D) → Bool
  passed none = false
  passed (some report) = is_pass report.verdict

module _ {ℓ δ} {A : Type ℓ} {D : Type δ} where
  -- Each artifact needs the one before it; the plan needs a skeptic that lets the hypothesis proceed,
  -- and the decision an audit that passes.
  abbrev pub is_chained : CycleArtifacts A D → Bool
  is_chained a =
      only_if a.hypothesis (has a.observer)
      && (only_if a.skeptic (has a.hypothesis)
          && (only_if a.research (proceeded a.skeptic)
              && (only_if a.backtest (has a.research)
                  && (only_if a.audit (has a.backtest)
                      && (only_if a.decision (passed a.audit)
                          && (only_if a.feasible_action (has a.decision)
                              && only_if a.execution_report (has a.feasible_action)))))))

  -- The phase that the artifacts lead to.
  abbrev pub reached : CycleArtifacts A D → OrchestratorState
  reached a =
      if passed a.audit
      then deciding
      else if has a.backtest
      then auditing
      else if proceeded a.skeptic
      then researching
      else if has a.hypothesis
      then scrutinizing
      else if has a.observer
      then hypothesizing
      else observing

  -- The phases that a cycle may complete in, with the artifact of the phase.
  abbrev pub completes : OrchestratorState → CycleArtifacts A D → Bool
  completes scrutinizing a = has a.skeptic
  completes auditing a = has a.audit
  completes deciding a = has a.decision
  completes _ a = false

module _ {ℓ δ κ} {A : Type ℓ} {D : Type δ} {W : Type κ} (r : CycleRunner A D W)
    (log₀ : EventLog W) where
  -- The log is the old one, then some events, and `event` is the newest.
  abbrev pub IsLast : CycleEvent → RunContext A D W → Type 0
  IsLast event s =
      (new : List CycleEvent) × (s.event_log.events ≡ log₀.events ++ (new ++ event ∷ []))

  -- The cycle completed in the phase that its artifacts lead to, within its cap of tokens: the machine
  -- is idle, and the newest event says so.
  pub record Completed (x : CycleResult A D) (s : RunContext A D W) : Type (ℓ ⊔ δ ⊔ κ) where
    pub reason : x.aborted_reason ≡ none
    pub terminal : x.terminal_state ≡ reached x.artifacts
    pub completes : completes x.terminal_state x.artifacts ≡ true
    pub within : x.total_token_in + x.total_token_out ≤ r.budget.token_cap
    pub state : s.machine.state ≡ idle
    pub last :
        IsLast
          (cycle_completed_event x.cycle_id
            (state_value x.terminal_state)
            (count x.artifacts)
            x.total_token_in
            x.total_token_out)
          s

  -- The cycle was aborted in the phase that its artifacts lead to: the machine is in `error`, and the
  -- newest event has the reason and the phase.
  pub record Aborted (x : CycleResult A D) (s : RunContext A D W) : Type (ℓ ⊔ δ ⊔ κ) where
    pub reason :
        (text : Text) × (x.aborted_reason ≡ some text)
        × IsLast (cycle_aborted_event x.cycle_id text (state_value (reached x.artifacts))) s
    pub terminal : x.terminal_state ≡ error
    pub state : s.machine.state ≡ error

module _ {ℓ δ κ} {A : Type ℓ} {D : Type δ} {W : Type κ} (d : Decimal A) (r : CycleRunner A D W)
    (log₀ : EventLog W) where
  -- An action is what the gateway makes of the decision, with the runner's configuration.
  abbrev pub IsGated : Option (StrategyDecision A) → Option (FeasibleAction A) → Type ℓ
  IsGated (some decision) (some action) =
      (config : PolicyGatewayConfig A) × (r.policy_gateway_config ≡ some config)
      × (apply_policy_gateway d decision config ≡ returned action)
  IsGated _ _ = Unit

  pub record IsFaithful (x : CycleResult A D) (s : RunContext A D W) : Type (ℓ ⊔ δ ⊔ κ) where
    pub cycle : x.cycle_id ≡ r.budget.cycle_id
    pub chained : is_chained x.artifacts ≡ true
    pub gated : IsGated x.artifacts.decision x.artifacts.feasible_action
    pub totals : x.total_token_in + x.total_token_out ≡ s.guard.tokens_consumed
    pub ended : Completed r log₀ x s ⊎ Aborted r log₀ x s

module _ {ℓ δ κ} {A : Type ℓ} {D : Type δ} {W : Type κ} (codec : Codec) (d : Decimal A)
    (one_decimal : ℕ → Text) (r : CycleRunner A D W) (log₀ : EventLog W) (start : ℕ) where
  save-Holds :
      (Q : Unit {0} → RunContext A D W → Type (ℓ ⊔ δ ⊔ κ))
      (store : Option (CycleResult A D → List CycleEvent → W → Reply (Unit {0}) × W))
      (x : CycleResult A D) (s : RunContext A D W)
      → (IsQuiet d r log₀ start → IsSaving store)
      → ((w : W) → Q tt (record s { world = w }))
      → Holds (Noise d r log₀ start) Q (elim store [
        | none ↦ (returned tt, s)
        | some save ↦
            in_world codec one_decimal r
              (save x (filter_by_cycle s.event_log (cycle_id codec one_decimal r)))
              s
      ])
  save-Holds Q none x s quiet after = after s.world
  save-Holds Q (some save) x s quiet after =
      let events = filter_by_cycle s.event_log (cycle_id codec one_decimal r) in
      Holds-cases _ _ (save x events s.world).0 (record s { world = (save x events s.world).1 })
        (λ _ e. after (save x events s.world).1) (λ e q. quiet q x events s.world e)

  pub end_cycle-Holds :
      (Q : CycleResult A D → RunContext A D W → Type (ℓ ⊔ δ ⊔ κ)) (terminal : OrchestratorState)
      (reason : Option Text) (s : RunContext A D W)
      → ((w : W) → Q (result_of codec one_decimal r terminal reason s) (record s { world = w }))
      → Holds (Noise d r log₀ start) Q (end_cycle codec one_decimal r terminal reason s)
  unfolding end_cycle persist_if_configured
  end_cycle-Holds Q terminal reason s after =
      let x = result_of codec one_decimal r terminal reason s in
      and_then-Holds _ (λ (y : Unit {0}) s'. Q x s') Q
        (persist_if_configured codec one_decimal r x s) _
        (save-Holds (λ y s'. Q x s') r.cycle_store x s (λ q. q.store) after) (λ _ s' h. h)

  -- The newest event after an append.
  pub IsLast-Appended :
      (s : RunContext A D W) (event : CycleEvent) (s' : RunContext A D W)
      → IsGrown log₀ s.event_log
      → s'.event_log.events ≡ s.event_log.events ++ event ∷ []
      → IsLast r log₀ event s'
  IsLast-Appended s event s' grown last =
      let (new, e) = grown.events in
      (new, last ∙ ap (λ es. es ++ event ∷ []) e ∙ append_assoc log₀.events new (event ∷ []))
