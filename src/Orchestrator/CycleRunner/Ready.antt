-- ===== src/Orchestrator/CycleRunner/Ready.antt =====
-- What holds between two statements of a run, and that the helpers of cycle_runner.py keep it.
use caqrs.Prelude.{
  ℕ, ◌+◌, Text, [], ◌∷◌, ◌++◌, append_assoc, ◌≡◌, refl, sym, subst, arith, returned,
}
use caqrs.Prelude.Holds.{Holds, Holds-cases, Holds-map}
use caqrs.Prelude.Decimal.{Decimal}
use caqrs.Orchestrator.StateMachine.{OrchestratorState, OrchestratorStateMachine}
use caqrs.Orchestrator.Listeners.{AllQuiet, notify_quiet}
use caqrs.Orchestrator.Events.{CycleEvent}
use caqrs.Orchestrator.EventLog.{Codec, EventLog, append}
use caqrs.Orchestrator.Budget.{BudgetGuard}
use caqrs.Orchestrator.CycleRunner.{CycleArtifacts, RunContext, CycleRunner}
use caqrs.Orchestrator.CycleRunner.Quiet.{IsGrown, IsQuiet, Noise}
use caqrs.Orchestrator.CycleRunner.Steps.{append_event, emit_state_transition}

module _ {ℓ δ κ} {A : Type ℓ} {D : Type δ} {W : Type κ} (codec : Codec) (d : Decimal A)
    (one_decimal : ℕ → Text) (r : CycleRunner A D W) (log₀ : EventLog W) (start : ℕ) where
  -- The machine of the run in a phase.
  abbrev pub machine_in : OrchestratorState → OrchestratorStateMachine (EventLog W × W)
  machine_in p = record { state = p; listeners = emit_state_transition codec one_decimal r ∷ [] }

  -- Between two statements, with the machine in phase `p` and the artifacts `a`: the totals are what
  -- the guard counted, `B` holds of the guard, and the log grew.
  pub record Ready (B : BudgetGuard → Type 0) (p : OrchestratorState) (a : CycleArtifacts A D)
      (s : RunContext A D W) : Type (ℓ ⊔ δ ⊔ κ) where
    pub machine : s.machine ≡ machine_in p
    pub artifacts : s.artifacts ≡ a
    pub budget : s.guard.budget ≡ r.budget
    pub started : s.guard.started_at ≡ start
    pub totals : s.token_in + s.token_out ≡ s.guard.tokens_consumed
    pub fits : B s.guard
    pub log : IsGrown log₀ s.event_log

  -- After an event: the log has it last, and the totals stayed.
  pub record Appended (B : BudgetGuard → Type 0) (p : OrchestratorState) (a : CycleArtifacts A D)
      (s : RunContext A D W) (event : CycleEvent) (s' : RunContext A D W) : Type (ℓ ⊔ δ ⊔ κ) where
    pub ready : Ready B p a s'
    pub last : s'.event_log.events ≡ s.event_log.events ++ event ∷ []
    pub token_in : s'.token_in ≡ s.token_in
    pub token_out : s'.token_out ≡ s.token_out

  pub append-IsGrown :
      (log : EventLog W) (event : CycleEvent) (w : W)
      → IsGrown log₀ log
      → IsGrown log₀ (append codec log event w).1
  unfolding append
  append-IsGrown log event w g = record {
    listeners = g.listeners;
    events =
        let (new, e) = g.events in
        (new ++ event ∷ [], rw e (append_assoc log₀.events new (event ∷ [])));
  }

  pub append-events :
      (log : EventLog W) (event : CycleEvent) (w : W)
      → (append codec log event w).1.events ≡ log.events ++ event ∷ []
  unfolding append
  append-events log event w = refl

  pub append-quiet :
      (log : EventLog W) (event : CycleEvent) (w : W)
      → IsGrown log₀ log
      → IsQuiet d r log₀ start
      → (append codec log event w).0 ≡ returned tt
  unfolding append
  append-quiet log event w g q =
      notify_quiet log.listeners event w (subst AllQuiet (sym g.listeners) q.listeners)

  pub append_event-Appended :
      (B : BudgetGuard → Type 0) (p : OrchestratorState) (a : CycleArtifacts A D)
      (event : CycleEvent) (s : RunContext A D W)
      → Ready B p a s
      → Holds
          (Noise d r log₀ start)
          (λ (x : Unit {0}) s'. Appended B p a s event s')
          (append_event codec one_decimal r event s)
  append_event-Appended B p a event s h =
      let done = append codec s.event_log event s.world in
      Holds-cases _ _ done.0 (record s { event_log = done.1; world = done.2 })
        (λ x e. record {
          ready = record {
            machine = h.machine;
            artifacts = h.artifacts;
            budget = h.budget;
            started = h.started;
            totals = h.totals;
            fits = h.fits;
            log = append-IsGrown s.event_log event s.world h.log;
          };
          last = append-events s.event_log event s.world;
          token_in = refl;
          token_out = refl;
        })
        (λ e q. ground (arith, append-quiet s.event_log event s.world h.log q, e))

  pub append_event-Ready :
      (B : BudgetGuard → Type 0) (p : OrchestratorState) (a : CycleArtifacts A D)
      (event : CycleEvent) (s : RunContext A D W)
      → Ready B p a s
      → Holds
          (Noise d r log₀ start)
          (λ (x : Unit {0}) s'. Ready B p a s')
          (append_event codec one_decimal r event s)
  append_event-Ready B p a event s h =
      Holds-map _ _ _ (append_event codec one_decimal r event s)
        (append_event-Appended B p a event s h) (λ x s' after. after.ready)

  -- Only the world changed.
  pub Ready-world :
      (B : BudgetGuard → Type 0) (p : OrchestratorState) (a : CycleArtifacts A D)
      (s : RunContext A D W) (w : W)
      → Ready B p a s
      → Ready B p a (record s { world = w })
  Ready-world B p a s w h = record {
    machine = h.machine;
    artifacts = h.artifacts;
    budget = h.budget;
    started = h.started;
    totals = h.totals;
    fits = h.fits;
    log = h.log;
  }

  pub Ready-artifacts :
      (B : BudgetGuard → Type 0) (p : OrchestratorState) (a a' : CycleArtifacts A D)
      (s : RunContext A D W)
      → Ready B p a s
      → Ready B p a' (record s { artifacts = a' })
  Ready-artifacts B p a a' s h = record {
    machine = h.machine;
    artifacts = refl;
    budget = h.budget;
    started = h.started;
    totals = h.totals;
    fits = h.fits;
    log = h.log;
  }

  pub Ready-fits :
      (B B' : BudgetGuard → Type 0) (p : OrchestratorState) (a : CycleArtifacts A D)
      (s : RunContext A D W)
      → Ready B p a s
      → B' s.guard
      → Ready B' p a s
  Ready-fits B B' p a s h fits = record {
    machine = h.machine;
    artifacts = h.artifacts;
    budget = h.budget;
    started = h.started;
    totals = h.totals;
    fits = fits;
    log = h.log;
  }
