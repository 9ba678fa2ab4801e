-- ===== src/Execution/LiveBroker/Keeping.antt =====
-- A relation between states that the statements of live_broker_alpaca.py keep, `execute` keeps.
use caqrs.Prelude.{
  ℕ, zero, suc, Bool, true, false, String, Text, List, [], ◌∷◌, ◌++◌, inl, inr, Reply, returned,
  raised, if◌then◌else◌, Bool-cases,
}
use caqrs.Prelude.Effects.{Action, Keeps, and_then}
use caqrs.Prelude.Decimal.{Decimal}
use caqrs.Prelude.Dict.{Dict}
use caqrs.Policy.Gateway.{FeasibleAction}
use caqrs.Execution.Report.{Fill, ExecutionReport, ExecutionStatus}
use caqrs.Execution.Journal.{Submission}
use caqrs.Execution.AlpacaRest.{Http, AlpacaOrder, cancel_all_orders, Venue-cases}
use caqrs.Execution.LiveBroker.{Live, emit, emit_rejected, emit_kill_switch, engage, end_with}
use caqrs.Execution.LiveBroker.Submit.{
  Digest, register, emit_submitted, accept, rollback, roll_back_if, refuse, submit_fills,
  after_preflight, ask_venue, is_filled, submission_of, is_filled_report,
}
use caqrs.Orchestrator.Events.{CycleEvent}
use caqrs.Orchestrator.EventLog.{Codec}

-- What a relation between the states before and after a statement needs to be kept by all of them.
pub record IsKept {ℓ κ ρ} {A : Type ℓ} {W : Type κ} (codec : Codec) (d : Decimal A)
    (digest : Digest) (http : Http A W) (R : Live A W → Live A W → Type ρ) : Type (ℓ ⊔ κ ⊔ ρ) where
  pub reflexive : (s : Live A W) → R s s
  pub transitive : (s s' s'' : Live A W) → R s s' → R s' s'' → R s s''
  pub moves : (s : Live A W) (w : W) → R s (record s { world = w })
  pub engages : (s : Live A W) → R s (engage s)
  pub emits : (event : String → CycleEvent) → Keeps R (emit codec event)
  pub registers : (row : Submission) → Keeps R (register codec d digest http row)

module _ {ℓ κ ρ} {A : Type ℓ} {W : Type κ} (codec : Codec) (d : Decimal A) (digest : Digest)
    (http : Http A W) (R : Live A W → Live A W → Type ρ) (law : IsKept codec d digest http R) where
  -- A statement and what follows it, and either of two ways on.
  pub and_then-Kept {μ ν} :
      {B : Type μ} {C : Type ν} (s : Live A W) (r : Reply B) (s' : Live A W)
      (f : B → Action (Live A W) C)
      → R s s'
      → ((b : B) → Keeps R (f b))
      → R s (and_then r f s').1
  and_then-Kept s (returned b) s' f h k = law.transitive _ _ _ h (k b s')
  and_then-Kept s raised s' f h k = h

  pub either-Kept {μ} :
      {B : Type μ} (s : Live A W) (b : Bool) (x y : Reply B × Live A W)
      → R s x.1
      → R s y.1
      → R s (if b then x else y).1
  either-Kept s true x y h k = h
  either-Kept s false x y h k = k

  emit_kill_switch-Kept : (reason : String) → Keeps R (emit_kill_switch codec reason)
  unfolding emit_kill_switch
  emit_kill_switch-Kept reason = law.emits _

  pub end_with-Kept :
      (status : ExecutionStatus) (action : FeasibleAction A) (reason : Text)
      → Keeps R (end_with codec status action reason)
  unfolding end_with emit_rejected
  end_with-Kept status action reason s =
      and_then-Kept s (emit_rejected codec action.source_decision_run_id reason s).0
        (emit_rejected codec action.source_decision_run_id reason s).1 _ (law.emits _ s)
        (λ _ s'. law.reflexive s')

  accept-Kept :
      (action : FeasibleAction A) (prices : Dict A) (f : Fill A) (o : AlpacaOrder A)
      → Keeps R (accept codec d digest http action prices f o)
  unfolding accept emit_submitted
  accept-Kept action prices f o s =
      let row = submission_of codec d digest http s.broker action f o in
      and_then-Kept s (register codec d digest http row s).0 (register codec d digest http row s).1
        _ (law.registers row s)
        (λ _ s'. and_then-Kept s' _ _ _ (law.emits _ s') (λ _ s''. law.reflexive s''))

  rollback-Kept : Keeps R (rollback codec d digest http)
  unfolding rollback
  rollback-Kept s =
      let after : Live A W = record s { world = (cancel_all_orders d http s.world).1 } in
      elim (Venue-cases (cancel_all_orders d http s.world).0) [
        | inl (_, e) ↦ rw (rollback, e) (law.moves s _)
        | inr (inl (text, e)) ↦
            rw (rollback, e)
              (law.transitive _ _ _ (law.moves s _) (
                law.transitive _ _ _ (law.engages after)
                  (emit_kill_switch-Kept "rollback_failed" (engage after))))
        | inr (inr e) ↦ rw (rollback, e) (law.moves s _)
      ]

  roll_back_if-Kept : (n : ℕ) → Keeps R (roll_back_if codec d digest http n)
  roll_back_if-Kept zero s = law.reflexive s
  roll_back_if-Kept (suc n) s = rollback-Kept s

  refuse-Kept :
      (action : FeasibleAction A) (f : Fill A) (text : Text) (n : ℕ)
      → Keeps R (refuse codec d digest http action f text n)
  unfolding refuse
  refuse-Kept action f text n s =
      and_then-Kept s (roll_back_if codec d digest http n s).0
        (roll_back_if codec d digest http n s).1 _ (roll_back_if-Kept n s)
        (λ _. end_with-Kept ExecutionStatus.rejected action _)

  submit_fills-Kept :
      (action : FeasibleAction A) (prices : Dict A) (fills : List (Fill A)) (n : ℕ)
      (live : List (Fill A))
      → Keeps R (submit_fills codec d digest http action prices fills n live)
  unfolding submit_fills
  submit_fills-Kept action prices [] n live s = law.reflexive s
  submit_fills-Kept action prices (f ∷ rest) n live s =
      let asked = ask_venue codec d digest http action f s in
      elim (Bool-cases (is_filled f.status)) [
        | inr other ↦ rw (submit_fills, other) (submit_fills-Kept action prices rest n live s)
        | inl filled ↦ elim (Venue-cases asked.0) [
          | inr (inr e) ↦ rw (submit_fills, filled, e) (law.moves s _)
          | inr (inl (text, e)) ↦
              rw (submit_fills, filled, e)
                (law.transitive _ _ _ (law.moves s _) (refuse-Kept action f text n asked.1))
          | inl (o, e) ↦
              rw (submit_fills, filled, e)
                (and_then-Kept s (accept codec d digest http action prices f o asked.1).0
                  (accept codec d digest http action prices f o asked.1).1 _
                  (law.transitive _ _ _ (law.moves s _) (accept-Kept action prices f o asked.1))
                  (λ x. submit_fills-Kept action prices rest (suc n) (live ++ x ∷ [])))
        ]
      ]

  pub after_preflight-Kept :
      (action : FeasibleAction A) (prices : Dict A) (report : ExecutionReport A)
      → Keeps R (after_preflight codec d digest http action prices report)
  unfolding after_preflight
  after_preflight-Kept action prices report s = elim (Bool-cases (is_filled_report report.status)) [
    | inr other ↦ rw (after_preflight, other) (end_with-Kept ExecutionStatus.skipped action _ s)
    | inl filled ↦
        rw (after_preflight, filled)
          (either-Kept s s.broker.has_client _ _
            (submit_fills-Kept action prices report.fills 0 [] s) (law.reflexive s))
  ]
