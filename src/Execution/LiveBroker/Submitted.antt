-- ===== src/Execution/LiveBroker/Submitted.antt =====
-- What a SUBMITTED report of `execute` of live_broker_alpaca.py says of the requests to the venue.
use caqrs.Prelude.{
  ℕ, suc, Bool, true, false, not, String, List, [], ◌∷◌, ◌++◌, ◌≡◌, ◌≢◌, refl, sym, ap, ◌∙◌, inl,
  inr, arith, Text, none, if◌then◌else◌, Reply, returned, raised, filter, Bool-cases,
  Returned-cases, codes, map, length, length-append, append_assoc, append-nil,
}
use caqrs.Prelude.Decimal.{Decimal}
use caqrs.Prelude.Dict.{Dict}
use caqrs.Schemas.Decision.{Side}
use caqrs.Policy.Gateway.{FeasibleAction}
use caqrs.Execution.Report.{
  Fill, FillStatus, ExecutionReport, ExecutionStatus, make_fill, make_report,
}
use caqrs.Execution.PaperBroker
use caqrs.Execution.AlpacaRest.{Http, AlpacaOrder, Venue-cases}
use caqrs.Execution.LiveBroker.{Live, end_with}
use caqrs.Execution.LiveBroker.Submit.{
  Digest, accept, anticipated, register, emit_submitted, submission_of, key_of, order_body,
  ask_venue, is_filled, submit_fills, after_preflight, is_filled_report, with_paper, execute,
}
use caqrs.Execution.LiveBroker.Silence.{EndsWith, end_with-EndsWith}
use caqrs.Execution.LiveBroker.Recording.{
  Request, taken, refused, all_taken, noting, noted, noted-AllDeaf, notes, AllDeaf, accept-Silent,
}
use caqrs.Execution.LiveBroker.Refusal.{asked_done, asked_alpaca_error, refuse-Refuses}
use caqrs.Orchestrator.EventLog.{Codec}

rejected-not-submitted :
    {status : ExecutionStatus}
    → status ≡ ExecutionStatus.rejected
    → status ≢ ExecutionStatus.submitted
rejected-not-submitted h k = cc

module _ {ℓ} {A : Type ℓ} where
  -- What a fill of the report says, what it is to say of a fill of the pre-flight, and the fills of the
  -- pre-flight that the broker submits.
  abbrev pub said : Fill A → String × Side × FillStatus
  said f = (f.ticker, f.side, f.status)

  abbrev pub submitted_of : Fill A → String × Side × FillStatus
  submitted_of f = (f.ticker, f.side, FillStatus.submitted)

  abbrev pub to_submit : List (Fill A) → List (Fill A)
  to_submit = filter (λ f. is_filled f.status)

  map-append {κ} :
      {B : Type κ} (f : Fill A → B) (xs ys : List (Fill A))
      → map f (xs ++ ys) ≡ map f xs ++ map f ys
  map-append f [] ys = refl
  map-append f (x ∷ xs) ys = ap (λ r. f x ∷ r) (map-append f xs ys)

  -- One fill of the loop, before and after its order.
  said_next :
      (live rest : List (Fill A)) (f x : Fill A)
      → said x ≡ submitted_of f
      → map said (live ++ x ∷ []) ++ map submitted_of rest
        ≡ map said live ++ submitted_of f ∷ map submitted_of rest
  said_next live rest f x like =
      rw (map-append said live (x ∷ []), like)
        (append_assoc (map said live) (submitted_of f ∷ []) (map submitted_of rest))

  make_fill-returns : (d : Decimal A) (f : Fill A) {x : Fill A} → make_fill d f ≡ returned x → x ≡ f
  unfolding make_fill
  make_fill-returns d f h = ground (arith, h)

  not_submitted :
      (status : ExecutionStatus) (answer : Reply (ExecutionReport A)) (r : ExecutionReport A)
      → EndsWith status answer
      → answer ≡ returned r
      → r.status ≡ status
  not_submitted status answer r (inl e) h = cc (sym e ∙ h)
  not_submitted status answer r (inr (x, e, same, _)) h = cc (sym e ∙ h, same)

module _ {ℓ κ} {A : Type ℓ} {W : Type κ} where
  -- A report is one order for each fill to submit, in their order, and the venue took as many.
  abbrev pub IsSubmission : List (Fill A) → ExecutionReport A → Live A (W × List Request) → Type 0
  IsSubmission fills r s =
      (map said r.fills ≡ map submitted_of (to_submit fills))
      × (notes s ≡ all_taken (length r.fills))

  -- The same from the middle of the loop on.
  abbrev Submits :
      List (Fill A) → List (Fill A) → Reply (ExecutionReport A) × Live A (W × List Request) → Type ℓ
  Submits live fills x =
      (r : ExecutionReport A)
      → x.0 ≡ returned r
      → r.status ≡ ExecutionStatus.submitted
      → (map said r.fills ≡ map said live ++ map submitted_of (to_submit fills))
        × (notes x.1 ≡ all_taken (length r.fills))

  raised-Submits :
      (live fills : List (Fill A)) (s : Live A (W × List Request)) → Submits live fills (raised, s)
  raised-Submits live fills s r h = absurd (cc h)

module _ {ℓ κ} {A : Type ℓ} {W : Type κ} (codec : Codec) (d : Decimal A) (digest : Digest)
    (http : Http A W) where
  accept-said :
      (action : FeasibleAction A) (prices : Dict A) (f : Fill A) (o : AlpacaOrder A) (s : Live A W)
      {x : Fill A}
      → (accept codec d digest http action prices f o s).0 ≡ returned x
      → said x ≡ submitted_of f
  unfolding accept
  accept-said action prices f o s {x} h =
      let row = submission_of codec d digest http s.broker action f o in
      let registered = register codec d digest http row s in
      let emit_it =
        emit_submitted codec d digest http action.source_decision_run_id o
          (key_of codec d digest http s.broker action f) f.side in
      elim (Returned-cases registered.0) [
        | inr e ↦ absurd (ground (arith, e, h))
        | inl (_, e) ↦ elim (Returned-cases (emit_it registered.1).0) [
          | inr e' ↦ absurd (ground (arith, e, e', h))
          | inl (_, e') ↦
              let fill = anticipated codec d digest http prices f o in
              let made : make_fill d fill ≡ returned x = ground (arith, e, e', h) in
              ap said (make_fill-returns d fill made)
        ]
      ]

module _ {ℓ κ} {A : Type ℓ} {W : Type κ} (codec : Codec) (d : Decimal A) (digest : Digest)
    (http : Http A W) where
  returned_report :
      (q : ExecutionReport A) {r : ExecutionReport A}
      → make_report q ≡ returned r
      → q.reason ≡ none
      → r ≡ q
  unfolding make_report
  returned_report q h plain = ground (arith, h, plain)

  submit_fills-Submits :
      (action : FeasibleAction A) (prices : Dict A) (fills : List (Fill A)) (n : ℕ)
      (live : List (Fill A)) (s : Live A (W × List Request))
      → AllDeaf s
      → notes s ≡ all_taken (length live)
      → n ≡ length live
      → Submits live fills (submit_fills codec d digest (noting http) action prices fills n live s)
  unfolding submit_fills
  submit_fills-Submits action prices [] n live s deaf h counted = λ r answer submitted.
      let same = returned_report _ answer refl in rw same (sym (append-nil (map said live)), h)
  submit_fills-Submits action prices (f ∷ rest) n live s deaf h counted =
      let body = order_body codec d digest (noting http) s.broker action f in
      let asked = ask_venue codec d digest (noting http) action f s in
      elim (Bool-cases (is_filled f.status)) [
        | inr other ↦
            rw (submit_fills, other)
              (submit_fills-Submits action prices rest n live s deaf h counted)
        | inl filled ↦ elim (Venue-cases asked.0) [
          | inr (inr e) ↦ rw (submit_fills, filled, e) (λ r answer. absurd (cc answer))
          | inr (inl (text, e)) ↦
              rw (submit_fills, filled, e)
                (λ r answer submitted. absurd (
                  rejected-not-submitted
                    (not_submitted ExecutionStatus.rejected _ r
                      (refuse-Refuses codec d digest http action f text n asked.1 deaf (
                        asked_alpaca_error d http body s.world text e
                        ∙ ap (λ k. refused ∷ k) (h ∙ ap all_taken (sym counted)))).0
                      answer)
                    submitted))
          | inl (o, e) ↦
              let accepted = accept codec d digest (noting http) action prices f o asked.1 in
              let (deaf', same) =
                accept-Silent codec d digest (noting http) action prices f o asked.1 deaf in
              let took = same ∙ asked_done d http body s.world o e ∙ ap (λ k. taken ∷ k) h in
              elim (Returned-cases accepted.0) [
                | inr raises ↦ rw (submit_fills, filled, e, raises) (λ r answer. absurd (cc answer))
                | inl (x, returns) ↦
                    let longer : length (live ++ x ∷ []) ≡ suc (length live) =
                      omega (arith, length-append live (x ∷ [])) in
                    let like =
                      accept-said codec d digest (noting http) action prices f o asked.1 returns in
                    rw (submit_fills, filled, e, returns)
                      (λ r answer submitted.
                        let (trades, requests) =
                          submit_fills-Submits action prices rest (suc n) (live ++ x ∷ [])
                            accepted.1 deaf' (took ∙ ap all_taken (sym longer))
                            (omega (arith, counted, longer)) r answer submitted in
                        (trades ∙ said_next live (to_submit rest) f x like, requests))
              ]
        ]
      ]

  -- Either of two ways on, for any property of the SUBMITTED reports; one that ends another way.
  abbrev OnSubmitted {σ} :
      (ExecutionReport A → Live A (W × List Request) → Type σ)
      → Reply (ExecutionReport A) × Live A (W × List Request)
      → Type (ℓ ⊔ σ)
  OnSubmitted P x =
      (r : ExecutionReport A) → x.0 ≡ returned r → r.status ≡ ExecutionStatus.submitted → P r x.1

  gated-OnSubmitted {σ} :
      (P : ExecutionReport A → Live A (W × List Request) → Type σ) (b : Bool)
      (x y : Reply (ExecutionReport A) × Live A (W × List Request))
      → OnSubmitted P x
      → OnSubmitted P y
      → OnSubmitted P (if b then x else y)
  gated-OnSubmitted P true x y h k = h
  gated-OnSubmitted P false x y h k = k

  skipped-OnSubmitted {σ} :
      (P : ExecutionReport A → Live A (W × List Request) → Type σ) (action : FeasibleAction A)
      (reason : Text) (s : Live A (W × List Request))
      → OnSubmitted P (end_with codec ExecutionStatus.skipped action reason s)
  skipped-OnSubmitted P action reason s r answer submitted =
      let skipped =
        not_submitted ExecutionStatus.skipped _ r
          (end_with-EndsWith codec ExecutionStatus.skipped action reason s) answer in
      absurd (cc (sym skipped ∙ submitted))

  after_preflight-OnSubmitted :
      (action : FeasibleAction A) (prices : Dict A) (report : ExecutionReport A)
      (s : Live A (W × List Request))
      → AllDeaf s
      → notes s ≡ []
      → OnSubmitted
          (IsSubmission report.fills)
          (after_preflight codec d digest (noting http) action prices report s)
  unfolding after_preflight
  after_preflight-OnSubmitted action prices report s deaf h =
      gated-OnSubmitted (IsSubmission report.fills) (not (is_filled_report report.status)) _ _
        (skipped-OnSubmitted (IsSubmission report.fills) action _ s)
        (gated-OnSubmitted (IsSubmission report.fills) s.broker.has_client _ _
          (submit_fills-Submits action prices report.fills 0 [] s deaf h refl)
          (λ r answer. absurd (cc answer)))

  -- Where `execute` returns a SUBMITTED report, the pre-flight returned a report, and the fills of the
  -- SUBMITTED report are those that the pre-flight filled, each with its ticker, its side and the status
  -- SUBMITTED, in their order. The requests of the call to the venue are as many orders, each of which it
  -- took, and no other.
  pub execute_submits :
      (action : FeasibleAction A) (prices : Dict A) (s : Live A W) (r : ExecutionReport A)
      → (execute codec d digest (noting http) action prices (noted s)).0 ≡ returned r
      → r.status ≡ ExecutionStatus.submitted
      → (preflight : ExecutionReport A) × ((PaperBroker.execute d s.broker.paper_broker action
            prices).0
          ≡ returned preflight)
        × IsSubmission preflight.fills r
            (execute codec d digest (noting http) action prices (noted s)).1
  unfolding execute
  execute_submits action prices s =
      let (preflight, paper) = PaperBroker.execute d s.broker.paper_broker action prices in
      let moved = with_paper codec d digest (noting http) paper (noted s) in
      let P : ExecutionReport A → Live A (W × List Request) → Type ℓ = λ r after.
        (report : ExecutionReport A) × (preflight ≡ returned report)
        × IsSubmission report.fills r after in
      gated-OnSubmitted P s.broker.kill_switch_engaged _ _
        (skipped-OnSubmitted P action (codes "kill switch engaged") (noted s))
        (gated-OnSubmitted P (not s.broker.enable_live_orders) _ _
          (skipped-OnSubmitted P action (codes "live orders disabled") (noted s))
          (elim (Returned-cases preflight) [
            | inr e ↦ rw e (λ r answer. absurd (cc answer))
            | inl (report, e) ↦ rw e (λ r answer submitted. (
              report,
              refl,
              after_preflight-OnSubmitted action prices report moved (noted-AllDeaf s) refl r answer
                  submitted,
            ))
          ]))
