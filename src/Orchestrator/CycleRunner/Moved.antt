-- ===== src/Orchestrator/CycleRunner/Moved.antt =====
-- The moves of the machine by cycle_runner.py: what is ready in one phase is ready in the next.
use caqrs.Prelude.{
  ℕ, Text, [], ◌∷◌, Bool, true, ◌≡◌, refl, sym, ◌∙◌, ap, subst, arith, returned, raised,
  Reply-cases, inl, inr,
}
use caqrs.Prelude.Holds.{Holds, Holds-cases}
use caqrs.Prelude.Decimal.{Decimal}
use caqrs.Orchestrator.StateMachine.{
  StateTransition, state_value, OrchestratorState, OrchestratorStateMachine, transition, is_valid,
}
use caqrs.Orchestrator.Listeners.{Listener, notify}
use caqrs.Orchestrator.Events.{state_transition_event}
use caqrs.Orchestrator.EventLog.{Codec, EventLog, append}
use caqrs.Orchestrator.Budget.{BudgetGuard}
use caqrs.Orchestrator.CycleRunner.{CycleArtifacts, RunContext, CycleRunner}
use caqrs.Orchestrator.CycleRunner.Ready.{Ready, machine_in, append-IsGrown, append-quiet}
use caqrs.Orchestrator.CycleRunner.Quiet.{Noise}
use caqrs.Orchestrator.CycleRunner.Steps.{cycle_id, emit_state_transition, move}

notify-one {ℓ} :
    {V : Type ℓ} (listener : Listener StateTransition V) (t : StateTransition) (v : V)
    → notify (listener ∷ []) t v ≡ listener t v
unfolding notify
notify-one listener t v = elim (Reply-cases (listener t v).0) [
  | inl e ↦ rw e refl
  | inr e ↦ rw e refl
]

-- A valid move of a machine with one listener.
transition-one {ℓ} :
    {V : Type ℓ} (listener : Listener StateTransition V) (p target : OrchestratorState) (v : V)
    → is_valid p target ≡ true
    → transition (record { state = p; listeners = listener ∷ [] }) target v ≡ (
      (elim (listener (record { src = p; dst = target }) v).0 [
        | returned _ ↦ returned true
        | raised ↦ raised
      ]),
      record { state = target; listeners = listener ∷ [] },
      (listener (record { src = p; dst = target }) v).1,
    )
unfolding transition
transition-one {V = V} listener p target v valid =
    let one = notify-one listener (record { src = p; dst = target }) v in
    let told : OrchestratorStateMachine V = record { state = target; listeners = listener ∷ [] } in
    elim (Reply-cases (listener (record { src = p; dst = target }) v).0) [
      | inl e ↦ rw (valid, one, e) (ap (λ x. (returned true, told, x.1)) one)
      | inr e ↦ rw (valid, one, e) (ap (λ x. (raised, told, x.1)) one)
    ]

module _ {ℓ δ κ} {A : Type ℓ} {D : Type δ} {W : Type κ} (codec : Codec) (d : Decimal A)
    (one_decimal : ℕ → Text) (r : CycleRunner A D W) (log₀ : EventLog W) (start : ℕ) where
  move-eq :
      (p target : OrchestratorState) (s : RunContext A D W)
      → s.machine ≡ machine_in codec d one_decimal r log₀ start p
      → is_valid p target ≡ true
      → move codec one_decimal r target s ≡ (
          let told =
            emit_state_transition codec one_decimal r
              (record { src = p; dst = target })
              (s.event_log, s.world) in
          (
            (elim told.0 [ returned _ ↦ returned true | raised ↦ raised ]),
            record s {
              machine = machine_in codec d one_decimal r log₀ start target;
              event_log = told.1.0;
              world = told.1.1;
            },
          ))
  move-eq p target s same v =
      ap (λ x. (x.0, record s { machine = x.1; event_log = x.2.0; world = x.2.1 }))
        (ap (λ m. transition m target (s.event_log, s.world)) same
          ∙ transition-one (emit_state_transition codec one_decimal r) p target
              (s.event_log, s.world) v)

  pub move-Ready :
      (B : BudgetGuard → Type 0) (p target : OrchestratorState) (a : CycleArtifacts A D)
      (s : RunContext A D W)
      → is_valid p target ≡ true
      → Ready codec d one_decimal r log₀ start B p a s
      → Holds
          (Noise d r log₀ start)
          (λ (x : Bool) s'.
            Ready codec d one_decimal r log₀ start B target a s'
            × (s'.token_in ≡ s.token_in)
            × (s'.token_out ≡ s.token_out))
          (move codec one_decimal r target s)
  move-Ready B p target a s v h =
      let event =
        state_transition_event (cycle_id codec one_decimal r) (state_value p)
          (state_value target) in
      let done = append codec s.event_log event s.world in
      subst
        (λ x.
          Holds (Noise d r log₀ start)
            (λ (x : Bool) s'.
              Ready codec d one_decimal r log₀ start B target a s'
              × (s'.token_in ≡ s.token_in)
              × (s'.token_out ≡ s.token_out))
            x)
        (sym (move-eq p target s h.machine v))
        (Holds-cases _ _ (elim done.0 [ returned _ ↦ returned true | raised ↦ raised ])
          (record s {
            machine = machine_in codec d one_decimal r log₀ start target;
            event_log = done.1;
            world = done.2;
          })
          (λ x e. (
            record {
              machine = refl;
              artifacts = h.artifacts;
              budget = h.budget;
              started = h.started;
              totals = h.totals;
              fits = h.fits;
              log = append-IsGrown codec d one_decimal r log₀ start s.event_log event s.world h.log;
            },
            refl,
            refl,
          ))
          (λ e q. ground (
            arith,
            append-quiet codec d one_decimal r log₀ start s.event_log event s.world h.log q,
            e,
          )))
