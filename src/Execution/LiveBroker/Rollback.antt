-- ===== src/Execution/LiveBroker/Rollback.antt =====
-- What a call of `execute` of live_broker_alpaca.py leaves at the venue when the venue refuses an order.
use caqrs.Prelude.{
  ℕ, suc, Bool, true, false, not, List, [], ◌∷◌, ◌++◌, ◌≡◌, refl, ap, ◌∙◌, inl, inr, arith, any,
  Text, if◌then◌else◌, Reply, raised, Bool-cases, Returned-cases, codes,
}
use caqrs.Prelude.Effects.{and_then}
use caqrs.Prelude.Decimal.{Decimal}
use caqrs.Prelude.Dict.{Dict}
use caqrs.Policy.Gateway.{FeasibleAction}
use caqrs.Execution.Report.{Fill, ExecutionReport, ExecutionStatus}
use caqrs.Execution.PaperBroker
use caqrs.Execution.AlpacaRest.{Http, Venue-cases}
use caqrs.Execution.LiveBroker.{Live, end_with}
use caqrs.Execution.LiveBroker.Submit.{
  Digest, accept, ask_venue, is_filled, submit_fills, order_body, after_preflight, is_filled_report,
  with_paper, execute,
}
use caqrs.Execution.LiveBroker.Silence.{EndsWith}
use caqrs.Execution.LiveBroker.Recording.{
  Request, taken, refused, is_refused, all_taken, none_refused, noting, noted, noted-AllDeaf, notes,
  AllDeaf, end_with-Silent, accept-Silent,
}
use caqrs.Orchestrator.EventLog.{Codec}
use caqrs.Execution.LiveBroker.Refusal.{
  IsRolledBack, Settles, taken-Settles, asked_done, asked_alpaca_error, asked_other_error,
  refuse-Refuses,
}

module _ {ℓ κ} {A : Type ℓ} {W : Type κ} (codec : Codec) (d : Decimal A) (digest : Digest)
    (http : Http A W) where
  -- The loop over the fills counts the orders that the venue took.
  submit_fills-Settles :
      (action : FeasibleAction A) (prices : Dict A) (fills : List (Fill A)) (n : ℕ)
      (live : List (Fill A)) (s : Live A (W × List Request))
      → AllDeaf s
      → notes s ≡ all_taken n
      → Settles (submit_fills codec d digest (noting http) action prices fills n live s)
  unfolding submit_fills
  submit_fills-Settles action prices [] n live s deaf h =
      taken-Settles (submit_fills codec d digest (noting http) action prices [] n live s) n h
  submit_fills-Settles action prices (f ∷ rest) n live s deaf h =
      let body = order_body codec d digest (noting http) s.broker action f in
      let asked = ask_venue codec d digest (noting http) action f s in
      elim (Bool-cases (is_filled f.status)) [
        | inr other ↦
            rw (submit_fills, other) (submit_fills-Settles action prices rest n live s deaf h)
        | inl filled ↦ elim (Venue-cases asked.0) [
          | inr (inr e) ↦
              rw (submit_fills, filled, e)
                (λ some_refused. absurd (
                  ground (
                    arith,
                    some_refused,
                    asked_other_error d http body s.world e,
                    ap (any is_refused) h,
                    none_refused n,
                  )))
          | inr (inl (text, e)) ↦
              rw (submit_fills, filled, e)
                (λ _.
                  refuse-Refuses codec d digest http action f text n asked.1 deaf
                    (asked_alpaca_error d http body s.world text e ∙ ap (λ r. refused ∷ r) h))
          | inl (o, e) ↦
              let (deaf', same) =
                accept-Silent codec d digest (noting http) action prices f o asked.1 deaf in
              let took = same ∙ asked_done d http body s.world o e ∙ ap (λ r. taken ∷ r) h in
              elim (Returned-cases
                (accept codec d digest (noting http) action prices f o asked.1).0) [
                  | inr raises ↦
                      rw (submit_fills, filled, e, raises)
                        (taken-Settles
                          (
                            raised,
                            (accept codec d digest (noting http) action prices f o asked.1).1,
                          )
                          (suc n) took)
                  | inl (x, returns) ↦
                      rw (submit_fills, filled, e, returns)
                        (submit_fills-Settles action prices rest (suc n) (live ++ x ∷ []) _ deaf'
                          took)
                ]
        ]
      ]

  gated-Settles :
      (b : Bool) (x y : Reply (ExecutionReport A) × Live A (W × List Request))
      → Settles x
      → Settles y
      → Settles (if b then x else y)
  gated-Settles true x y h k = h
  gated-Settles false x y h k = k

  skipped-Settles :
      (action : FeasibleAction A) (reason : Text) (s : Live A (W × List Request))
      → AllDeaf s
      → notes s ≡ []
      → Settles (end_with codec ExecutionStatus.skipped action reason s)
  skipped-Settles action reason s deaf h =
      let ended = end_with codec ExecutionStatus.skipped action reason s in
      let (_, same) = end_with-Silent codec ExecutionStatus.skipped action reason s deaf in
      taken-Settles ended 0 (same ∙ h)

  after_preflight-Settles :
      (action : FeasibleAction A) (prices : Dict A) (report : ExecutionReport A)
      (s : Live A (W × List Request))
      → AllDeaf s
      → notes s ≡ []
      → Settles (after_preflight codec d digest (noting http) action prices report s)
  unfolding after_preflight
  after_preflight-Settles action prices report s deaf h =
      gated-Settles (not (is_filled_report report.status)) _ _ (skipped-Settles action _ s deaf h) (
        gated-Settles s.broker.has_client _ _
          (submit_fills-Settles action prices report.fills 0 [] s deaf h)
          (taken-Settles (raised, s) 0 h))

  -- A venue that takes notes may refuse an order of a call of `execute`. Then the call raises, or
  -- reports REJECTED without fills, and one of three holds: the refused order was the only
  -- request, or the last request was a cancellation of all orders that the venue answered without an
  -- error status, or the kill switch is engaged. The venue is any, and so are the listeners of the log,
  -- which leave the notes alone; a body that is not JSON and an error of the transport count as refusals.
  pub execute_rolls_back :
      (action : FeasibleAction A) (prices : Dict A) (s : Live A W)
      → any is_refused (notes (execute codec d digest (noting http) action prices (noted s)).1)
        ≡ true
      → let (answer, after) = execute codec d digest (noting http) action prices (noted s) in
        EndsWith ExecutionStatus.rejected answer × IsRolledBack after
  unfolding execute
  execute_rolls_back action prices s =
      let deaf = noted-AllDeaf s in
      let (preflight, paper) = PaperBroker.execute d s.broker.paper_broker action prices in
      let moved = with_paper codec d digest (noting http) paper (noted s) in
      let submitted : Settles
          (and_then preflight (after_preflight codec d digest (noting http) action prices) moved) =
        elim (Returned-cases preflight) [
          | inr e ↦ rw e (taken-Settles (raised, moved) 0 refl)
          | inl (report, e) ↦ rw e (after_preflight-Settles action prices report moved deaf refl)
        ] in
      gated-Settles s.broker.kill_switch_engaged _ _
        (skipped-Settles action (codes "kill switch engaged") (noted s) deaf refl)
        (gated-Settles (not s.broker.enable_live_orders) _ _
          (skipped-Settles action (codes "live orders disabled") (noted s) deaf refl) submitted)
