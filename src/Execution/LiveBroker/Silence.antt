-- ===== src/Execution/LiveBroker/Silence.antt =====
-- When `execute` of live_broker_alpaca.py does not ask the venue.
use caqrs.Prelude.{
  true, false, not, Text, [], ◌++◌, codes, ◌≡◌, refl, sym, ap, ◌∙◌, ◌⊎◌, inl, inr, arith, Reply,
  returned, raised, Bool-cases, Returned-cases, subst, if-true, if-false,
}
use caqrs.Prelude.Effects.{and_then}
use caqrs.Prelude.Decimal.{Decimal}
use caqrs.Prelude.Dict.{Dict}
use caqrs.Policy.Gateway.{FeasibleAction}
use caqrs.Execution.Report.{
  status_value, ExecutionReport, ExecutionStatus, make_report, reason_fits,
}
use caqrs.Execution.PaperBroker
use caqrs.Execution.AlpacaRest.{Http}
use caqrs.Execution.LiveBroker.{LiveBrokerAlpaca, Live, emit_rejected, end_with}
use caqrs.Execution.LiveBroker.Submit.{
  Digest, execute, after_preflight, is_filled_report, or_no_reason,
}
use caqrs.Orchestrator.EventLog.{Codec}

module _ {ℓ} {A : Type ℓ} where
  -- A call that raises, or reports the status with no fills.
  abbrev pub EndsWith : ExecutionStatus → Reply (ExecutionReport A) → Type ℓ
  EndsWith status answer =
      (answer ≡ raised)
      ⊎ ((r : ExecutionReport A) × (answer ≡ returned r) × (r.status ≡ status) × (r.fills ≡ []))

  report-EndsWith : (r : ExecutionReport A) → r.fills ≡ [] → EndsWith r.status (make_report r)
  unfolding make_report
  report-EndsWith r h = elim (Bool-cases (reason_fits r.reason)) [
    | inl fits ↦ inr (r, if-true (reason_fits r.reason) _ _ fits, refl, h)
    | inr long ↦ inl (if-false (reason_fits r.reason) _ _ long)
  ]

  -- The kill switch is engaged, live orders are off, or the pre-flight does not fill.
  abbrev pub IsBlocked : Decimal A → FeasibleAction A → Dict A → LiveBrokerAlpaca A → Type ℓ
  IsBlocked d action prices b =
      (b.kill_switch_engaged ≡ true)
      ⊎ (b.enable_live_orders ≡ false)
      ⊎ ((r : ExecutionReport A) × ((PaperBroker.execute d b.paper_broker action prices).0
            ≡ returned r)
          × (is_filled_report r.status ≡ false))

module _ {ℓ κ} {A : Type ℓ} {W : Type κ} (codec : Codec) where
  pub end_with-EndsWith :
      (status : ExecutionStatus) (action : FeasibleAction A) (reason : Text) (s : Live A W)
      → EndsWith status (end_with codec status action reason s).0
  unfolding end_with
  end_with-EndsWith status action reason s =
      elim (Returned-cases (emit_rejected codec action.source_decision_run_id reason s).0) [
        | inr e ↦ rw e (inl refl)
        | inl (_, e) ↦ rw e (report-EndsWith _ refl)
      ]

module _ {ℓ κ} {A : Type ℓ} {W : Type κ} (codec : Codec) (d : Decimal A) (digest : Digest) where
  -- A blocked call is its rejection event and a SKIPPED report, whatever the venue is.
  abbrev Skips : FeasibleAction A → Dict A → Live A W → Type (ℓ ⊔ κ)
  Skips action prices s =
      (reason : Text) × (s' : Live A W) × ((http : Http A W)
        → execute codec d digest http action prices s
          ≡ end_with codec ExecutionStatus.skipped action reason s')

  Skips-engaged :
      (action : FeasibleAction A) (prices : Dict A) (s : Live A W)
      → s.broker.kill_switch_engaged ≡ true
      → Skips action prices s
  unfolding execute
  Skips-engaged action prices s engaged =
      (codes "kill switch engaged", s, λ http. if-true s.broker.kill_switch_engaged _ _ engaged)

  Skips-off :
      (action : FeasibleAction A) (prices : Dict A) (s : Live A W)
      → s.broker.kill_switch_engaged ≡ false
      → s.broker.enable_live_orders ≡ false
      → Skips action prices s
  unfolding execute
  Skips-off action prices s free off = (
    codes "live orders disabled",
    s,
    λ http.
        if-false s.broker.kill_switch_engaged _ _ free
        ∙ if-true (not s.broker.enable_live_orders) _ _ (ap not off),
  )

  Skips-unfilled :
      (action : FeasibleAction A) (prices : Dict A) (s : Live A W) (r : ExecutionReport A)
      → s.broker.kill_switch_engaged ≡ false
      → s.broker.enable_live_orders ≡ true
      → (PaperBroker.execute d s.broker.paper_broker action prices).0 ≡ returned r
      → is_filled_report r.status ≡ false
      → Skips action prices s
  unfolding execute after_preflight
  Skips-unfilled action prices s r free on same unfilled =
      let paper = (PaperBroker.execute d s.broker.paper_broker action prices).1 in
      let after : Live A W = record s { broker = record s.broker { paper_broker = paper } } in
      (
        codes "paper pre-flight "
            ++ (codes (status_value r.status) ++ (codes ": " ++ or_no_reason r.reason)),
        after,
        λ http.
            if-false s.broker.kill_switch_engaged _ _ free
            ∙ (if-false (not s.broker.enable_live_orders) _ _ (ap not on)
                ∙ (ap (λ a. and_then a (after_preflight codec d digest http action prices) after)
                      same
                    ∙ if-true (not (is_filled_report r.status)) _ _ (ap not unfilled))),
      )

  skips :
      (action : FeasibleAction A) (prices : Dict A) (s : Live A W)
      → IsBlocked d action prices s.broker
      → Skips action prices s
  skips action prices s blocked = elim (Bool-cases s.broker.kill_switch_engaged) [
    | inl engaged ↦ Skips-engaged action prices s engaged
    | inr free ↦ elim (Bool-cases s.broker.enable_live_orders) [
      | inr off ↦ Skips-off action prices s free off
      | inl on ↦ elim blocked [
        | inl engaged ↦ absurd (ground (arith, free, engaged))
        | inr (inl off) ↦ absurd (ground (arith, on, off))
        | inr (inr (r, same, unfilled)) ↦ Skips-unfilled action prices s r free on same unfilled
      ]
    ]
  ]

  -- With the kill switch engaged, with live orders off, or where the pre-flight returns a report that
  -- is not FILLED: `execute` does the same whatever the venue would answer, and it raises or reports
  -- SKIPPED without fills.
  pub execute_silent :
      (action : FeasibleAction A) (prices : Dict A) (s : Live A W) (http http' : Http A W)
      → IsBlocked d action prices s.broker
      → (execute codec d digest http action prices s ≡ execute codec d digest http' action prices s)
        × EndsWith ExecutionStatus.skipped (execute codec d digest http action prices s).0
  execute_silent action prices s http http' blocked =
      let (reason, s', skipped) = skips action prices s blocked in
      (
        skipped http ∙ sym (skipped http'),
        subst (λ x. EndsWith ExecutionStatus.skipped x.0) (sym (skipped http))
            (end_with-EndsWith codec ExecutionStatus.skipped action reason s'),
      )
