-- ===== src/Orchestrator/CycleRunner/Pipeline.antt =====
-- The phases of `run` of cycle_runner.py after the first, from the last.
use caqrs.Prelude.{ℕ, Text, some, true, ◌≡◌, refl}
use caqrs.Prelude.Decimal.{Decimal}
use caqrs.Schemas.Decision.{decision_is_valid}
use caqrs.Orchestrator.StateMachine.{
  observing, hypothesizing, scrutinizing, researching, auditing, deciding, is_valid,
}
use caqrs.Orchestrator.EventLog.{Codec, EventLog}
use caqrs.Orchestrator.CycleRunner.{
  SkepticReport, AuditReport, output_of, CycleArtifacts, no_artifacts, RunContext, CycleRunner,
}
use caqrs.Orchestrator.CycleRunner.Quiet.{IsQuiet, IsAppending}
use caqrs.Orchestrator.CycleRunner.Ready.{Ready-world, Ready-artifacts, Ready-fits}
use caqrs.Orchestrator.CycleRunner.Counted.{Within, Any}
use caqrs.Orchestrator.CycleRunner.Asked.{
  At, Fine, OnOutput-anything, OnOutput-of, either-Faithful, phase-Faithful,
}
use caqrs.Orchestrator.CycleRunner.Ended.{complete-Faithful, unless_failed-Faithful}
use caqrs.Orchestrator.CycleRunner.Settled.{gateway_step-Faithful}
use caqrs.Orchestrator.CycleRunner.Steps.{is_proceed, is_pass}
use caqrs.Orchestrator.CycleRunner.Phases.{
  decider_step, auditor_step, research_step, skeptic_step, hypothesis_step,
}

module _ {ℓ δ κ} {A : Type ℓ} {D : Type δ} {W : Type κ} (codec : Codec) (d : Decimal A)
    (one_decimal : ℕ → Text) (r : CycleRunner A D W) (log₀ : EventLog W) (start : ℕ) where
  module _ (appending : IsAppending r.broker) (o : D) where
    decider_step-Faithful :
        (h : D) (sk : SkepticReport D) (plan bt : D) (au : AuditReport D) (s : RunContext A D W)
        → is_proceed sk.verdict ≡ true
        → is_pass au.verdict ≡ true
        → (let a = record no_artifacts {
          observer = some o;
          hypothesis = some h;
          skeptic = some sk;
          research = some plan;
          backtest = some bt;
          audit = some au;
        } in
            At codec d one_decimal r log₀ start auditing a s
            → Fine codec d one_decimal r log₀ start
                (decider_step codec d one_decimal r a h bt au s))
    unfolding decider_step
    decider_step-Faithful h sk plan bt au s proceeds passes =
        phase-Faithful codec d one_decimal r log₀ start
          (λ de. IsQuiet d r log₀ start → decision_is_valid d de ≡ true) auditing deciding _
          r.decider "decider" "StrategyDecision" (h, bt, au) _ s (unfold is_valid in refl)
          (rw proceeds refl) tt (rw passes refl) (λ q. q.decider (h, bt, au))
          (λ w x e.
            OnOutput-of _ (output_of x.output x.error)
              (λ de e' q. q.decisions (h, bt, au) w x de e e'))
          (λ de s' valid h'.
            gateway_step-Faithful codec d one_decimal r log₀ start o h sk plan bt au de proceeds
              passes _ appending valid
              (Ready-artifacts codec d one_decimal r log₀ start (Within r.budget.token_cap) deciding
                _ _ s' h'))

    auditor_step-Faithful :
        (h : D) (sk : SkepticReport D) (plan bt : D) (s : RunContext A D W)
        → is_proceed sk.verdict ≡ true
        → (let a = record no_artifacts {
          observer = some o;
          hypothesis = some h;
          skeptic = some sk;
          research = some plan;
          backtest = some bt;
        } in
            At codec d one_decimal r log₀ start researching a s
            → Fine codec d one_decimal r log₀ start (auditor_step codec d one_decimal r a h bt s))
    unfolding auditor_step
    auditor_step-Faithful h sk plan bt s proceeds =
        phase-Faithful codec d one_decimal r log₀ start (λ _. Unit) researching auditing _ r.auditor
          "auditor" "AuditReport" (h, bt) _ s (unfold is_valid in refl) (rw proceeds refl) tt refl
          (λ q. q.auditor (h, bt)) (λ w x e. OnOutput-anything (output_of x.output x.error))
          (λ au s' _ h'.
            let ready =
              Ready-artifacts codec d one_decimal r log₀ start (Within r.budget.token_cap) auditing
                (record no_artifacts {
                  observer = some o;
                  hypothesis = some h;
                  skeptic = some sk;
                  research = some plan;
                  backtest = some bt;
                })
                (record no_artifacts {
                  observer = some o;
                  hypothesis = some h;
                  skeptic = some sk;
                  research = some plan;
                  backtest = some bt;
                  audit = some au;
                })
                s' h' in
            either-Faithful codec d one_decimal r log₀ start (is_pass au.verdict) _ _ _
              (λ passes. (decider_step-Faithful h sk plan bt au _ proceeds passes ready))
              (λ fails.
                (complete-Faithful codec d one_decimal r log₀ start auditing _ _
                  (unfold is_valid in refl) (rw proceeds refl) tt (rw fails refl) refl ready)))

    research_step-Faithful :
        (h : D) (sk : SkepticReport D) (s : RunContext A D W)
        → is_proceed sk.verdict ≡ true
        → (let a = record no_artifacts {
          observer = some o;
          hypothesis = some h;
          skeptic = some sk;
        } in
            At codec d one_decimal r log₀ start scrutinizing a s
            → Fine codec d one_decimal r log₀ start (research_step codec d one_decimal r a h sk s))
    unfolding research_step
    research_step-Faithful h sk s proceeds =
        phase-Faithful codec d one_decimal r log₀ start (λ _. Unit) scrutinizing researching _
          r.research "research" "ResearchPlan" (h, sk) _ s (unfold is_valid in refl) refl tt
          (rw proceeds refl) (λ q. q.research (h, sk))
          (λ w x e. OnOutput-anything (output_of x.output x.error))
          (λ plan s' _ h'.
            let a : CycleArtifacts A D = record no_artifacts {
              observer = some o;
              hypothesis = some h;
              skeptic = some sk;
              research = some plan;
            } in
            let s'' : RunContext A D W = record s' {
              artifacts = a;
              world = (r.backtest_executor plan s'.world).1;
            } in
            let ready =
              Ready-world codec d one_decimal r log₀ start (Within r.budget.token_cap) researching a
                _ _
                (Ready-artifacts codec d one_decimal r log₀ start (Within r.budget.token_cap)
                  researching _ a s' h') in
            unless_failed-Faithful codec d one_decimal r log₀ start researching a _ _
              (r.backtest_executor plan s'.world).0 s'' (rw proceeds refl) tt (rw proceeds refl)
              (Ready-fits codec d one_decimal r log₀ start (Within r.budget.token_cap) Any
                researching a s'' ready tt)
              (λ q. q.backtest plan s'.world)
              (λ bt. auditor_step-Faithful h sk plan bt _ proceeds (
                Ready-artifacts codec d one_decimal r log₀ start (Within r.budget.token_cap)
                  researching a _ s'' ready)))

    skeptic_step-Faithful :
        (h : D) (s : RunContext A D W)
        → (let a = record no_artifacts { observer = some o; hypothesis = some h } in
            At codec d one_decimal r log₀ start hypothesizing a s
            → Fine codec d one_decimal r log₀ start (skeptic_step codec d one_decimal r a h s))
    unfolding skeptic_step
    skeptic_step-Faithful h s =
        phase-Faithful codec d one_decimal r log₀ start (λ _. Unit) hypothesizing scrutinizing _
          r.skeptic "skeptic" "SkepticReport" h _ s (unfold is_valid in refl) refl tt refl
          (λ q. q.skeptic h) (λ w x e. OnOutput-anything (output_of x.output x.error))
          (λ sk s' _ h'.
            let ready =
              Ready-artifacts codec d one_decimal r log₀ start (Within r.budget.token_cap)
                scrutinizing (record no_artifacts { observer = some o; hypothesis = some h })
                (record no_artifacts { observer = some o; hypothesis = some h; skeptic = some sk })
                s' h' in
            either-Faithful codec d one_decimal r log₀ start (is_proceed sk.verdict) _ _ _
              (λ proceeds. (research_step-Faithful h sk _ proceeds ready))
              (λ stops.
                (complete-Faithful codec d one_decimal r log₀ start scrutinizing _ _
                  (unfold is_valid in refl) refl tt (rw stops refl) refl ready)))

  pub hypothesis_step-Faithful :
      IsAppending r.broker
      → (o : D) (s : RunContext A D W)
      → At codec d one_decimal r log₀ start observing (record no_artifacts { observer = some o }) s
      → Fine codec d one_decimal r log₀ start
          (hypothesis_step codec d one_decimal r (record no_artifacts { observer = some o }) o s)
  unfolding hypothesis_step
  hypothesis_step-Faithful appending o s =
      phase-Faithful codec d one_decimal r log₀ start (λ _. Unit) observing hypothesizing _
        r.hypothesis "hypothesis" "HypothesisCard" o _ s (unfold is_valid in refl) refl tt refl
        (λ q. q.hypothesis o) (λ w x e. OnOutput-anything (output_of x.output x.error))
        (λ h s' _ h'. skeptic_step-Faithful appending o h _ (
          Ready-artifacts codec d one_decimal r log₀ start (Within r.budget.token_cap) hypothesizing
            _ _ s' h'))
