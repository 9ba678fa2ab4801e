-- ===== src/Orchestrator/CycleRunner/Executed.antt =====
-- The broker's call of cycle_runner.py: what is ready before it is ready after it, with the report.
use caqrs.Prelude.{ℕ, Text, some}
use caqrs.Prelude.Effects.{finally}
use caqrs.Prelude.Holds.{Holds, Holds-map, Holds-cases, and_then-Holds}
use caqrs.Prelude.Decimal.{Decimal}
use caqrs.Prelude.Dict.{Dict}
use caqrs.Policy.Gateway.{FeasibleAction}
use caqrs.Execution.Report.{ExecutionReport}
use caqrs.Orchestrator.StateMachine.{deciding}
use caqrs.Orchestrator.EventLog.{Codec, EventLog}
use caqrs.Orchestrator.CycleRunner.{
  CycleArtifacts, RunContext, Broker, LiveBrokerProtocol, plain, live, CycleRunner,
}
use caqrs.Orchestrator.CycleRunner.Quiet.{IsQuiet, Noise, IsGrown-trans, IsAppending, IsExecuting}
use caqrs.Orchestrator.CycleRunner.Ready.{Ready, Ready-world, Ready-artifacts, append_event-Ready}
use caqrs.Orchestrator.CycleRunner.Counted.{Within}
use caqrs.Orchestrator.CycleRunner.Steps.{cycle_id, in_world, append_event}
use caqrs.Orchestrator.CycleRunner.Phases.{lend_log, detach, execute_with}

module _ {ℓ δ κ} {A : Type ℓ} {D : Type δ} {W : Type κ} (codec : Codec) (d : Decimal A)
    (one_decimal : ℕ → Text) (r : CycleRunner A D W) (log₀ : EventLog W) (start : ℕ) where
  -- What is ready while the decision is settled.
  abbrev pub Deciding : CycleArtifacts A D → RunContext A D W → Type (ℓ ⊔ δ ⊔ κ)
  Deciding a s = Ready codec d one_decimal r log₀ start (Within r.budget.token_cap) deciding a s

  -- A live broker's call, once it is detached.
  lent :
      (a : CycleArtifacts A D) (s : RunContext A D W) (b : LiveBrokerProtocol A W)
      (action : FeasibleAction A) (prices : Dict A)
      → IsAppending (some (live b))
      → Deciding a s
      → Deciding a
          (finally
            (lend_log codec d one_decimal r b action prices)
            (detach codec d one_decimal r b)
            s).1
  lent a s b action prices appending h = record {
    machine = h.machine;
    artifacts = h.artifacts;
    budget = h.budget;
    started = h.started;
    totals = h.totals;
    fits = h.fits;
    log = IsGrown-trans h.log (appending action prices s.event_log s.world);
  }

  pub execute_with-Ready :
      (b : Broker A W) (a : CycleArtifacts A D) (action : FeasibleAction A) (prices : Dict A)
      (s : RunContext A D W)
      → IsAppending (some b)
      → (IsQuiet d r log₀ start → IsExecuting (some b))
      → Deciding a s
      → Holds
          (Noise d r log₀ start)
          (λ (x : Unit {0}) s'.
            (report : ExecutionReport A) × Deciding
              (record a { execution_report = some report })
              s')
          (execute_with codec d one_decimal r b a action prices s)
  unfolding execute_with
  execute_with-Ready (plain execute) a action prices s appending quiet h =
      and_then-Holds _ (λ (x : ExecutionReport A) s'. Deciding a s') _
        (in_world codec one_decimal r (execute action prices) s) _
        (Holds-cases _ _ (execute action prices s.world).0
          (record s { world = (execute action prices s.world).1 })
          (λ x e.
            Ready-world codec d one_decimal r log₀ start (Within r.budget.token_cap) deciding a s _
              h)
          (λ e q. quiet q action prices s.world e))
        (λ report s' h'.
          let a' : CycleArtifacts A D = record a { execution_report = some report } in
          Holds-map _ _ _ (append_event codec one_decimal r _ (record s' { artifacts = a' }))
            (append_event-Ready codec d one_decimal r log₀ start (Within r.budget.token_cap)
              deciding a' _ _
              (Ready-artifacts codec d one_decimal r log₀ start (Within r.budget.token_cap) deciding
                a a' s' h'))
            (λ _ s'' h''. (report, h'')))
  execute_with-Ready (live b) a action prices s appending quiet h =
      and_then-Holds _ (λ (x : Unit {0}) s'. Deciding a s') _
        (in_world codec one_decimal r (b.attach_cycle_context (cycle_id codec one_decimal r)) s) _
        (Holds-cases _ _ (b.attach_cycle_context (cycle_id codec one_decimal r) s.world).0
          (record s { world = (b.attach_cycle_context (cycle_id codec one_decimal r) s.world).1 })
          (λ x e.
            Ready-world codec d one_decimal r log₀ start (Within r.budget.token_cap) deciding a s _
              h)
          (λ e q. (quiet q).0 (cycle_id codec one_decimal r) s.world e))
        (λ _ s' h'.
          and_then-Holds _ (λ (x : ExecutionReport A) s''. Deciding a s'') _
            (finally (lend_log codec d one_decimal r b action prices)
              (detach codec d one_decimal r b) s')
            _
            (Holds-cases _ _ (b.execute action prices (s'.event_log, s'.world)).0
              (finally (lend_log codec d one_decimal r b action prices)
                (detach codec d one_decimal r b) s').1
              (λ x e. lent a s' b action prices appending h')
              (λ e q. (quiet q).1 action prices (s'.event_log, s'.world) e))
            (λ report s'' h''. (
              report,
              Ready-artifacts codec d one_decimal r log₀ start (Within r.budget.token_cap) deciding
                  a _ s'' h'',
            )))
