-- ===== src/Execution/LiveBroker/Submit.antt =====
-- `execute` and `_submit_to_alpaca` of live_broker_alpaca.py.
use caqrs.Prelude.{
  ℕ, zero, suc, Bool, true, false, not, String, Text, List, [], ◌∷◌, ◌++◌, Option, none, some,
  codes, returned, raised, if◌then◌else◌,
}
use caqrs.Prelude.Effects.{Action, pure, and_then, ◌>>◌}
use caqrs.Prelude.Decimal.{Decimal}
use caqrs.Prelude.Dict.{Dict}
use caqrs.Schemas.Decision.{Side, buy, sell}
use caqrs.Policy.Gateway.{FeasibleAction}
use caqrs.Execution.Report.{
  Fill, FillStatus, ExecutionReport, ExecutionStatus, status_value, make_fill, make_report,
}
use caqrs.Execution.PaperBroker
use caqrs.Execution.PaperBroker.{price_of}
use caqrs.Execution.Journal.{Submission, register_submission}
use caqrs.Execution.AlpacaRest.{
  AlpacaOrder, OrderBody, Http, Venue, done, alpaca_error, other_error, submit_order,
  cancel_all_orders,
}
use caqrs.Execution.LiveBroker.{LiveBrokerAlpaca, Live, emit, emit_kill_switch, engage, end_with}
use caqrs.Orchestrator.Events.{broker_live_submitted_event}
use caqrs.Orchestrator.EventLog.{Codec}

-- `json.dumps` with sorted keys, and `sha256` as hexadecimal digits.
pub record Digest : Type 0 where
  pub dumps : List (String × String) → String
  pub sha256 : String → String

abbrev pub side_value : Side → String
side_value buy = "buy"
side_value sell = "sell"

abbrev pub is_filled : FillStatus → Bool
is_filled FillStatus.filled = true
is_filled _ = false

abbrev pub is_filled_report : ExecutionStatus → Bool
is_filled_report ExecutionStatus.filled = true
is_filled_report _ = false

-- `s[:n]`
unfoldable pub prefix : ℕ → String → String
prefix zero s = String.[]
prefix (suc n) String.[] = String.[]
prefix (suc n) (String.◌∷◌ c s) = String.◌∷◌ c (prefix n s)

-- `reason or "no reason given"`
abbrev pub or_no_reason : Option Text → Text
or_no_reason none = codes "no reason given"
or_no_reason (some []) = codes "no reason given"
or_no_reason (some (c ∷ cs)) = c ∷ cs

abbrev pub or_empty : Option String → String
or_empty none = ""
or_empty (some s) = s

abbrev pub client_order_id_truncation : ℕ
client_order_id_truncation = 48

module _ {ℓ} {A : Type ℓ} (d : Decimal A) (digest : Digest) where
  unfoldable pub compute_idempotency_key : String → String → String → Side → A → String
  compute_idempotency_key cycle_id decision_run_id ticker side quantity = digest.sha256 (
      digest.dumps (
        ("cycle_id", cycle_id)
        ∷ ("decision_run_id", decision_run_id)
        ∷ ("ticker", ticker)
        ∷ ("side", side_value side)
        ∷ ("quantity", d.text quantity)
        ∷ []))

module _ {ℓ κ} {A : Type ℓ} {W : Type κ} (codec : Codec) (d : Decimal A) (digest : Digest)
    (http : Http A W) where
  abbrev pub key_of : LiveBrokerAlpaca A → FeasibleAction A → Fill A → String
  key_of b action f =
      compute_idempotency_key d digest (or_empty b.cycle_id) action.source_decision_run_id f.ticker
        f.side f.quantity

  abbrev pub order_body : LiveBrokerAlpaca A → FeasibleAction A → Fill A → OrderBody A
  order_body b action f = record {
    symbol = f.ticker;
    qty = f.quantity;
    side = f.side;
    client_order_id = prefix client_order_id_truncation (key_of b action f);
  }

  abbrev pub submission_of :
      LiveBrokerAlpaca A → FeasibleAction A → Fill A → AlpacaOrder A → Submission
  submission_of b action f o = record {
    client_order_id = o.client_order_id;
    cycle_id = or_empty b.cycle_id;
    decision_run_id = action.source_decision_run_id;
    order_id = o.order_id;
    idempotency_key = key_of b action f;
    symbol = o.symbol;
    side = side_value f.side;
    qty = d.text o.qty;
  }

  -- `self._journal.register_submission(…)`, where there is a journal.
  unfoldable pub register : Submission → Action (Live A W) (Unit {0})
  register row s = elim s.broker.journal [
    | none ↦ (returned tt, s)
    | some j ↦
        let (answer, j') = register_submission j row in
        (answer, record s { broker = record s.broker { journal = some j' } })
  ]

  -- The anticipated fill of an accepted order.
  abbrev pub anticipated : Dict A → Fill A → AlpacaOrder A → Fill A
  anticipated prices f o = record {
    ticker = f.ticker;
    side = f.side;
    status = FillStatus.submitted;
    quantity = o.qty;
    fill_price_usd = price_of d prices f.ticker;
    notional_usd = d.mul o.qty (price_of d prices f.ticker);
    reason = some (
        codes
          "venue submission accepted; actual fill price via BROKER_LIVE_FILLED event (websocket — next slice)");
  }

  unfoldable pub emit_submitted :
      String → AlpacaOrder A → String → Side → Action (Live A W) (Unit {0})
  emit_submitted decision_run_id o key side = emit codec (λ cycle_id.
      broker_live_submitted_event cycle_id decision_run_id o.order_id o.client_order_id key o.symbol
        (d.text o.qty) (side_value side))

  -- The rest of the loop's body for an order that the venue took.
  unfoldable pub accept :
      FeasibleAction A → Dict A → Fill A → AlpacaOrder A → Action (Live A W) (Fill A)
  accept action prices f o s =
      (do
        register (submission_of s.broker action f o)
        emit_submitted action.source_decision_run_id o (key_of s.broker action f) f.side
        λ s'. (make_fill d (anticipated prices f o), s'))
        s

  -- The rollback: a failure engages the kill switch.
  unfoldable pub rollback : Action (Live A W) (Unit {0})
  rollback s =
      let after = record s { world = (cancel_all_orders d http s.world).1 } in
      elim (cancel_all_orders d http s.world).0 [
        | done _ ↦ (returned tt, after)
        | alpaca_error _ ↦ emit_kill_switch codec "rollback_failed" (engage after)
        | other_error ↦ (raised, after)
      ]

  abbrev pub roll_back_if : ℕ → Action (Live A W) (Unit {0})
  roll_back_if zero = pure tt
  roll_back_if (suc n) = rollback

  abbrev pub refusal_reason : Fill A → Text → Text
  refusal_reason f text =
      codes "Alpaca rejected "
      ++ (codes f.ticker ++ (codes " " ++ (codes (side_value f.side) ++ (codes ": " ++ text))))

  unfoldable pub refuse :
      FeasibleAction A → Fill A → Text → ℕ → Action (Live A W) (ExecutionReport A)
  refuse action f text submitted_count = do
    roll_back_if submitted_count
    end_with codec ExecutionStatus.rejected action (refusal_reason f text)

  abbrev pub ask_venue : FeasibleAction A → Fill A → Live A W → Venue (AlpacaOrder A) × Live A W
  ask_venue action f s =
      let (answer, world) = submit_order d http (order_body s.broker action f) s.world in
      (answer, record s { world = world })

  -- `_submit_to_alpaca`, from a fill of the paper report on.
  unfoldable pub submit_fills :
      FeasibleAction A
      → Dict A
      → List (Fill A)
      → ℕ
      → List (Fill A)
      → Action (Live A W) (ExecutionReport A)
  submit_fills action prices [] submitted_count live_fills s = (
    make_report (record {
      source_decision_run_id = action.source_decision_run_id;
      status = ExecutionStatus.submitted;
      fills = live_fills;
      reason = none;
    }),
    s,
  )
  submit_fills action prices (f ∷ rest) submitted_count live_fills s = elim (is_filled f.status) [
    | false ↦ submit_fills action prices rest submitted_count live_fills s
    | true ↦ elim (ask_venue action f s).0 [
      | other_error ↦ (raised, (ask_venue action f s).1)
      | alpaca_error text ↦ refuse action f text submitted_count (ask_venue action f s).1
      | done o ↦
          and_then (accept action prices f o (ask_venue action f s).1).0
            (λ live.
              submit_fills action prices rest (suc submitted_count) (live_fills ++ live ∷ []))
            (accept action prices f o (ask_venue action f s).1).1
    ]
  ]

  -- `execute` after the pre-flight.
  unfoldable pub after_preflight :
      FeasibleAction A → Dict A → ExecutionReport A → Action (Live A W) (ExecutionReport A)
  after_preflight action prices report s =
      if not (is_filled_report report.status)
      then end_with codec ExecutionStatus.skipped action
          (codes "paper pre-flight "
            ++ (codes (status_value report.status) ++ (codes ": " ++ or_no_reason report.reason)))
          s
      else if s.broker.has_client
      then submit_fills action prices report.fills 0 [] s
      else (raised, s)

  abbrev pub with_paper : PaperBroker.PaperBroker A → Live A W → Live A W
  with_paper paper s = record s { broker = record s.broker { paper_broker = paper } }

  unfoldable pub execute : FeasibleAction A → Dict A → Action (Live A W) (ExecutionReport A)
  execute action prices s =
      let (preflight, paper) = PaperBroker.execute d s.broker.paper_broker action prices in
      if s.broker.kill_switch_engaged
      then end_with codec ExecutionStatus.skipped action (codes "kill switch engaged") s
      else if not s.broker.enable_live_orders
      then end_with codec ExecutionStatus.skipped action (codes "live orders disabled") s
      else and_then preflight (after_preflight action prices) (with_paper paper s)
