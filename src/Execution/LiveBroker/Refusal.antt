-- ===== src/Execution/LiveBroker/Refusal.antt =====
-- What `_submit_to_alpaca` of live_broker_alpaca.py does once the venue has refused an order, in terms
-- of the requests that the venue notes.
use caqrs.Prelude.{
  ℕ, zero, suc, true, String, List, [], ◌∷◌, ◌≡◌, ◌≢◌, refl, ap, ◌∙◌, ◌⊎◌, inl, inr, arith, any,
  Text, some, Reply, Returned-cases,
}
use caqrs.Prelude.Decimal.{Decimal}
use caqrs.Policy.Gateway.{FeasibleAction}
use caqrs.Execution.Report.{Fill, ExecutionReport, ExecutionStatus}
use caqrs.Execution.AlpacaRest.{
  Http, AlpacaOrder, OrderBody, Response, transport_error, response, done, alpaca_error,
  other_error, submit_order, cancel_all_orders, cancel_response, Venue-cases,
}
use caqrs.Execution.LiveBroker.{LiveBrokerAlpaca, Live, emit_kill_switch, end_with, engage}
use caqrs.Execution.LiveBroker.Submit.{Digest, rollback, refuse}
use caqrs.Execution.LiveBroker.Books.{end_with-broker, emit-broker}
use caqrs.Execution.LiveBroker.Silence.{EndsWith, end_with-EndsWith}
use caqrs.Execution.LiveBroker.Recording.{
  Request, taken, refused, cancelled, is_refused, newest, all_taken, none_refused, note_delete,
  noting, notes, AllDeaf, emit-Silent, end_with-Silent, note_done, note_alpaca_error,
  note_other_error,
}
use caqrs.Orchestrator.Events.{CycleEvent, broker_live_kill_switch_event}
use caqrs.Orchestrator.EventLog.{Codec}

module _ {ℓ κ} {A : Type ℓ} {W : Type κ} where
  -- No order that the venue took stands unnoticed: the only request was the refused
  -- one, or the last one was a cancellation of all orders that the venue answered without an error
  -- status, or the kill switch is engaged.
  abbrev pub IsRolledBack : Live A (W × List Request) → Type 0
  IsRolledBack s =
      (notes s ≡ refused ∷ [])
      ⊎ (newest (notes s) ≡ some cancelled)
      ⊎ (s.broker.kill_switch_engaged ≡ true)

  abbrev pub Refuses : Reply (ExecutionReport A) × Live A (W × List Request) → Type ℓ
  Refuses x = EndsWith ExecutionStatus.rejected x.0 × IsRolledBack x.1

  abbrev pub Settles : Reply (ExecutionReport A) × Live A (W × List Request) → Type ℓ
  Settles x = any is_refused (notes x.1) ≡ true → Refuses x

  pub taken-Settles :
      (x : Reply (ExecutionReport A) × Live A (W × List Request)) (n : ℕ)
      → notes x.1 ≡ all_taken n
      → Settles x
  taken-Settles x n h some_refused =
      absurd (ground (arith, some_refused, ap (any is_refused) h, none_refused n))

module _ {ℓ κ} {A : Type ℓ} {W : Type κ} (d : Decimal A) (http : Http A W) where
  pub asked_done :
      (body : OrderBody A) (v : W × List Request) (o : AlpacaOrder A)
      → (submit_order d (noting http) body v).0 ≡ done o
      → (submit_order d (noting http) body v).1.1 ≡ taken ∷ v.1
  unfolding submit_order
  asked_done body v o h = ground (arith, h, note_done d (noting http) (http.post body v.0).0 o)

  pub asked_alpaca_error :
      (body : OrderBody A) (v : W × List Request) (text : Text)
      → (submit_order d (noting http) body v).0 ≡ alpaca_error text
      → (submit_order d (noting http) body v).1.1 ≡ refused ∷ v.1
  unfolding submit_order
  asked_alpaca_error body v text h =
      ground (arith, h, note_alpaca_error d (noting http) (http.post body v.0).0 text)

  pub asked_other_error :
      (body : OrderBody A) (v : W × List Request)
      → (submit_order d (noting http) body v).0 ≡ other_error
      → any is_refused (submit_order d (noting http) body v).1.1 ≡ any is_refused v.1
  unfolding submit_order
  asked_other_error body v h =
      ground (arith, h, note_other_error d (noting http) (http.post body v.0).0)

  cancelled_by :
      (r : Response A) → cancel_response d (noting http) r ≡ done tt → note_delete r ≡ cancelled
  unfolding cancel_response
  cancelled_by (transport_error text) h = cc h
  cancelled_by (response status body) h = ground (arith, h)

  cancelled_all :
      (v : W × List Request)
      → (cancel_all_orders d (noting http) v).0 ≡ done tt
      → newest (cancel_all_orders d (noting http) v).1.1 ≡ some cancelled
  unfolding cancel_all_orders
  cancelled_all v h = ap some (cancelled_by (http.delete v.0).0 h)

  cancel-never-other :
      (v : W × List Request) → (cancel_all_orders d (noting http) v).0 ≢ other_error
  unfolding cancel_all_orders cancel_response
  cancel-never-other v h = ground arith

module _ {ℓ κ} {A : Type ℓ} {W : Type κ} (codec : Codec) (d : Decimal A) (digest : Digest)
    (http : Http A W) where
  -- The orders that were taken are cancelled, or the kill switch is engaged.
  abbrev IsUndone : Live A (W × List Request) → Type 0
  IsUndone s = (newest (notes s) ≡ some cancelled) ⊎ (s.broker.kill_switch_engaged ≡ true)

  rollback-IsUndone :
      (s : Live A (W × List Request))
      → AllDeaf s
      → let x = rollback codec d digest (noting http) s in AllDeaf x.1 × IsUndone x.1
  unfolding rollback emit_kill_switch
  rollback-IsUndone s deaf =
      let after : Live A (W × List Request) = record s {
        world = (cancel_all_orders d (noting http) s.world).1;
      } in
      elim (Venue-cases (cancel_all_orders d (noting http) s.world).0) [
        | inl (_, e) ↦ rw (rollback, e) (deaf, inl (cancelled_all d http s.world e))
        | inr (inl (text, e)) ↦
            let event : String → CycleEvent =
              λ c. broker_live_kill_switch_event c "rollback_failed" in
            rw (rollback, e)
              (
                (emit-Silent codec event (engage after) deaf).0,
                inr (
                    ap (λ (b : LiveBrokerAlpaca A). b.kill_switch_engaged)
                      (emit-broker codec event (engage after))),
              )
        | inr (inr e) ↦ absurd (cancel-never-other d http s.world e)
      ]

  -- The rejection event and the report keep what the rollback did.
  rejected-Refuses :
      (action : FeasibleAction A) (reason : Text) (s : Live A (W × List Request))
      → AllDeaf s
      → IsRolledBack s
      → Refuses (end_with codec ExecutionStatus.rejected action reason s)
  rejected-Refuses action reason s deaf rolled_back =
      let (_, same) = end_with-Silent codec ExecutionStatus.rejected action reason s deaf in
      let broker = end_with-broker codec ExecutionStatus.rejected action reason s in
      let kill = ap (λ (b : LiveBrokerAlpaca A). b.kill_switch_engaged) broker in
      (
        end_with-EndsWith codec ExecutionStatus.rejected action reason s,
        elim rolled_back [
          | inl alone ↦ inl (same ∙ alone)
          | inr (inl undone) ↦ inr (inl (ap newest same ∙ undone))
          | inr (inr engaged) ↦ inr (inr (kill ∙ engaged))
        ],
      )

  pub refuse-Refuses :
      (action : FeasibleAction A) (f : Fill A) (text : Text) (n : ℕ) (s : Live A (W × List Request))
      → AllDeaf s
      → notes s ≡ refused ∷ all_taken n
      → Refuses (refuse codec d digest (noting http) action f text n s)
  unfolding refuse
  refuse-Refuses action f text zero s deaf h = rejected-Refuses action _ s deaf (inl h)
  refuse-Refuses action f text (suc n) s deaf h =
      let (deaf', undone) = rollback-IsUndone s deaf in
      elim (Returned-cases (rollback codec d digest (noting http) s).0) [
        | inr e ↦ rw e (inl refl, inr undone)
        | inl (_, e) ↦ rw e (rejected-Refuses action _ _ deaf' (inr undone))
      ]
