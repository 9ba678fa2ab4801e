-- ===== src/Orchestrator/CycleRunner/Ended.antt =====
-- The two ends of a cycle, `_complete` and `_finalize` of cycle_runner.py, and what ends a phase early.
use caqrs.Prelude.{
  ℕ, Text, ◌++◌, none, some, true, ◌≡◌, ◌≢◌, refl, sym, subst, ap, ◌∙◌, inl, inr, arith,
}
use caqrs.Prelude.Effects.{Action}
use caqrs.Prelude.Holds.{Holds, and_then-Holds}
use caqrs.Prelude.Decimal.{Decimal}
use caqrs.Orchestrator.StateMachine.{OrchestratorState, idle, error, state_value, is_valid}
use caqrs.Orchestrator.Events.{cycle_aborted_event}
use caqrs.Orchestrator.EventLog.{Codec, EventLog}
use caqrs.Orchestrator.CycleRunner.{
  Attempt, did, failed, escaped, CycleArtifacts, CycleResult, AgentOutcome, halt, output,
  RunContext, CycleRunner,
}
use caqrs.Orchestrator.CycleRunner.Quiet.{IsQuiet, Noise}
use caqrs.Orchestrator.CycleRunner.Moved.{move-Ready}
use caqrs.Orchestrator.CycleRunner.Ready.{Ready, append_event-Appended}
use caqrs.Orchestrator.CycleRunner.Counted.{Within, Any}
use caqrs.Orchestrator.CycleRunner.Called.{Called}
use caqrs.Orchestrator.CycleRunner.Faithful.{
  is_chained, reached, completes, IsFaithful, IsGated, IsLast, end_cycle-Holds, IsLast-Appended,
}
use caqrs.Orchestrator.CycleRunner.Steps.{
  cycle_id, append_event, move, completed_event, complete, finalize, unless_halted, unless_failed,
}

is_valid-error : (p : OrchestratorState) → is_valid p error ≡ true
unfolding is_valid
is_valid-error p = ground arith

module _ {ℓ δ κ} {A : Type ℓ} {D : Type δ} {W : Type κ} (codec : Codec) (d : Decimal A)
    (one_decimal : ℕ → Text) (r : CycleRunner A D W) (log₀ : EventLog W) (start : ℕ) where
  pub complete-Faithful :
      (p : OrchestratorState) (a : CycleArtifacts A D) (s : RunContext A D W)
      → is_valid p idle ≡ true
      → is_chained a ≡ true
      → IsGated d r log₀ a.decision a.feasible_action
      → p ≡ reached a
      → completes p a ≡ true
      → Ready codec d one_decimal r log₀ start (Within r.budget.token_cap) p a s
      → Holds (Noise d r log₀ start) (IsFaithful d r log₀) (complete codec one_decimal r p s)
  unfolding complete
  complete-Faithful p a s valid chained gated phase done h =
      and_then-Holds _ _ _ (move codec one_decimal r idle s) _
        (move-Ready codec d one_decimal r log₀ start (Within r.budget.token_cap) p idle a s valid h)
        (λ _ s1 h1.
          and_then-Holds _ _ _
            (append_event codec one_decimal r (completed_event codec one_decimal r p s1) s1) _
            (append_event-Appended codec d one_decimal r log₀ start (Within r.budget.token_cap) idle
              a _ s1 h1.0)
            (λ _ s2 h2.
              let now = h2.ready in
              let same : completed_event codec one_decimal r p s1
                  ≡ completed_event codec one_decimal r p s2 =
                rw (h2.token_in, h2.token_out, now.artifacts, h1.0.artifacts) refl in
              end_cycle-Holds codec d one_decimal r log₀ start (IsFaithful d r log₀) p none s2 (λ w.
                record {
                  cycle = refl;
                  chained = rw now.artifacts chained;
                  gated =
                      subst (λ a. IsGated d r log₀ a.decision a.feasible_action) (sym now.artifacts)
                        gated;
                  totals = now.totals;
                  ended = inl (record {
                    reason = refl;
                    terminal = rw now.artifacts phase;
                    completes = rw now.artifacts done;
                    within = ground (arith, now.totals, now.fits);
                    state = ap (λ m. m.state) now.machine;
                    last =
                        subst (λ e. IsLast r log₀ e s2) same
                          (IsLast-Appended codec d one_decimal r log₀ start s1 _ s2 h1.0.log
                            h2.last);
                  });
                })))

  pub finalize-Faithful :
      (p : OrchestratorState) (a : CycleArtifacts A D) (s : RunContext A D W) (reason : Text)
      → is_chained a ≡ true
      → IsGated d r log₀ a.decision a.feasible_action
      → p ≡ reached a
      → Ready codec d one_decimal r log₀ start Any p a s
      → Holds (Noise d r log₀ start) (IsFaithful d r log₀) (finalize codec one_decimal r reason s)
  unfolding finalize
  finalize-Faithful p a s reason chained gated phase h =
      and_then-Holds _ _ _ (move codec one_decimal r error s) _
        (move-Ready codec d one_decimal r log₀ start Any p error a s (is_valid-error p) h)
        (λ _ s1 h1.
          and_then-Holds _ _ _ (append_event codec one_decimal r _ s1) _
            (append_event-Appended codec d one_decimal r log₀ start Any error a _ s1 h1.0)
            (λ _ s2 h2.
              let now = h2.ready in
              end_cycle-Holds codec d one_decimal r log₀ start (IsFaithful d r log₀) error
                (some reason) s2
                (λ w. record {
                  cycle = refl;
                  chained = rw now.artifacts chained;
                  gated =
                      subst (λ a. IsGated d r log₀ a.decision a.feasible_action) (sym now.artifacts)
                        gated;
                  totals = now.totals;
                  ended = inr (record {
                    reason = (
                      reason,
                      refl,
                      subst
                          (λ q.
                            IsLast r log₀
                              (cycle_aborted_event (cycle_id codec one_decimal r) reason
                                (state_value q))
                              s2)
                          (ap (λ m. m.state) h.machine ∙ phase ∙ ap reached (sym now.artifacts))
                          (IsLast-Appended codec d one_decimal r log₀ start s1 _ s2 h1.0.log
                            h2.last),
                    );
                    terminal = refl;
                    state = ap (λ m. m.state) now.machine;
                  });
                })))

  pub unless_halted-Faithful {μ} :
      {O : Type μ} (P : O → Type (ℓ ⊔ δ ⊔ κ)) (p : OrchestratorState) (a : CycleArtifacts A D)
      (rest : O → Action (RunContext A D W) (CycleResult A D)) (outcome : AgentOutcome O)
      (s : RunContext A D W)
      → is_chained a ≡ true
      → IsGated d r log₀ a.decision a.feasible_action
      → p ≡ reached a
      → Called codec d one_decimal r log₀ start P p a outcome s
      → ((o : O)
          → P o
          → Ready codec d one_decimal r log₀ start (Within r.budget.token_cap) p a s
          → Holds (Noise d r log₀ start) (IsFaithful d r log₀) (rest o s))
      → Holds
          (Noise d r log₀ start)
          (IsFaithful d r log₀)
          (unless_halted codec one_decimal r rest outcome s)
  unless_halted-Faithful P p a rest (halt reason) s chained gated phase h next =
      finalize-Faithful p a s reason chained gated phase h
  unless_halted-Faithful P p a rest (output o) s chained gated phase h next = next o h.1 h.0

  pub unless_failed-Faithful {μ} :
      {X : Type μ} (p : OrchestratorState) (a : CycleArtifacts A D) (what : Text)
      (rest : X → Action (RunContext A D W) (CycleResult A D)) (attempt : Attempt X)
      (s : RunContext A D W)
      → is_chained a ≡ true
      → IsGated d r log₀ a.decision a.feasible_action
      → p ≡ reached a
      → Ready codec d one_decimal r log₀ start Any p a s
      → (IsQuiet d r log₀ start → attempt ≢ escaped)
      → ((x : X) → Holds (Noise d r log₀ start) (IsFaithful d r log₀) (rest x s))
      → Holds
          (Noise d r log₀ start)
          (IsFaithful d r log₀)
          (unless_failed codec one_decimal r what rest attempt s)
  unless_failed-Faithful p a what rest (did x) s chained gated phase h quiet next = next x
  unless_failed-Faithful p a what rest (failed text) s chained gated phase h quiet next =
      finalize-Faithful p a s (what ++ text) chained gated phase h
  unless_failed-Faithful p a what rest escaped s chained gated phase h quiet next =
      λ q. quiet q refl
