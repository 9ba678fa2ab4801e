-- ===== src/Execution/Stream/Consume.antt =====
-- src/caqrs/execution/alpaca_stream.py: the loop that records trade updates.
use caqrs.Prelude.{Bool, String, List, [], ◌∷◌, Option, none, some, returned, raised, if◌then◌else◌}
use caqrs.Prelude.Effects.{Action, pure, ◌>>◌}
use caqrs.Prelude.Decimal.{Decimal}
use caqrs.Orchestrator.Events.{CycleEvent, broker_live_filled_event, broker_live_cancelled_event}
use caqrs.Orchestrator.EventLog.{Codec, EventLog, append}
use caqrs.Execution.Journal.{
  LiveBrokerJournal, FillRow, CancelRow, record_fill, record_cancel, cycle_resolver,
  decision_resolver,
}
use caqrs.Execution.Stream.{
  Fields, AlpacaTradeUpdate, Parsed, is_fill_kind, is_partial_fill, decode_trade_update,
}

-- Where the ids of the cycle and of the decision come from.
pub data Resolvers : Type 0 where
  from_journal : Resolvers
  explicit : (String → Option String) → (String → Option String) → Resolvers

-- The first two tests of `consume`; the second raises.
unfoldable pub resolvers_of :
    Option LiveBrokerJournal
    → Option (String → Option String)
    → Option (String → Option String)
    → Option Resolvers
resolvers_of (some j) none none = some from_journal
resolvers_of journal (some cycle) (some decision) = some (explicit cycle decision)
resolvers_of journal cycle decision = none

abbrev pub both : Option String → Option String → Option (String × String)
both (some cycle_id) (some decision_run_id) = some (cycle_id, decision_run_id)
both _ _ = none

unfoldable pub resolve : Resolvers → Option LiveBrokerJournal → String → Option (String × String)
resolve (explicit cycle decision) journal c = both (cycle c) (decision c)
resolve from_journal (some j) c = both (cycle_resolver j c) (decision_resolver j c)
resolve from_journal none c = none

-- What the loop changes: the journal, the log, and the world of the log's listeners.
pub record Recorder {ℓ} (W : Type ℓ) : Type ℓ where
  pub journal : Option LiveBrokerJournal
  pub log : EventLog W
  pub world : W

module _ {ℓ} {A : Type ℓ} (d : Decimal A) where
  abbrev pub fill_row : AlpacaTradeUpdate A → A × A → FillRow
  fill_row u (qty, price) = record {
    client_order_id = u.client_order_id;
    fill_id = u.fill_id;
    qty = d.text qty;
    fill_price_usd = d.text price;
    is_partial = is_partial_fill u.kind;
  }

  abbrev pub cancel_row : AlpacaTradeUpdate A → CancelRow
  cancel_row u = record { client_order_id = u.client_order_id; reason = u.reason }

  abbrev pub filled_event : String → String → AlpacaTradeUpdate A → A × A → CycleEvent
  filled_event cycle_id decision_run_id u (qty, price) =
      broker_live_filled_event cycle_id decision_run_id u.order_id u.client_order_id u.symbol u.side
        (d.text qty) (d.text price) (is_partial_fill u.kind)

  abbrev pub cancelled_event : String → String → AlpacaTradeUpdate A → CycleEvent
  cancelled_event cycle_id decision_run_id u =
      broker_live_cancelled_event cycle_id decision_run_id u.order_id u.client_order_id u.symbol
        u.side u.reason

module _ {κ} {W : Type κ} (codec : Codec) where
  unfoldable pub emit : CycleEvent → Action (Recorder W) (Unit {0})
  emit event s =
      let (answer, log, world) = append codec s.log event s.world in
      (answer, record s { log = log; world = world })

  -- An event goes to the log if the journal, where there is one, did not have its row.
  unfoldable pub record_and_emit :
      (LiveBrokerJournal → Bool × LiveBrokerJournal) → CycleEvent → Action (Recorder W) (Unit {0})
  record_and_emit insert event s = elim s.journal [
    | none ↦ emit event s
    | some j ↦
        let (inserted, j') = insert j in
        if inserted then emit event (record s { journal = some j' }) else (returned tt, s)
  ]

module _ {ℓ κ} {A : Type ℓ} {W : Type κ} (d : Decimal A) (codec : Codec) where
  -- The rest of the loop's body for an update whose ids are known; an `assert` guards the amounts.
  unfoldable pub record_update :
      AlpacaTradeUpdate A → String → String → Action (Recorder W) (Unit {0})
  record_update u cycle_id decision_run_id s =
      if is_fill_kind u.kind
      then (elim u.filled [
        | none ↦ (raised, s)
        | some amounts ↦
            record_and_emit codec (λ j. record_fill j (fill_row d u amounts))
              (filled_event d cycle_id decision_run_id u amounts) s
      ])
      else record_and_emit codec (λ j. record_cancel j (cancel_row d u))
          (cancelled_event d cycle_id decision_run_id u) s

  unfoldable pub attribute_update : Resolvers → AlpacaTradeUpdate A → Action (Recorder W) (Unit {0})
  attribute_update resolvers u s = elim (resolve resolvers s.journal u.client_order_id) [
    | some (cycle_id, decision_run_id) ↦ record_update u cycle_id decision_run_id s
    | none ↦ (returned tt, s)
  ]

  module _ (parse : String → Parsed A) where
    -- The loop's body: a message that cannot be decoded is dropped, whatever the decoder does.
    unfoldable pub handle : Resolvers → Fields → Action (Recorder W) (Unit {0})
    handle resolvers raw s = elim (decode_trade_update d parse raw) [
      | returned (some u) ↦ attribute_update resolvers u s
      | _ ↦ (returned tt, s)
    ]

    unfoldable pub consume_all : Resolvers → List Fields → Action (Recorder W) (Unit {0})
    consume_all resolvers [] = pure tt
    consume_all resolvers (raw ∷ rest) = handle resolvers raw >> consume_all resolvers rest

    unfoldable pub consume :
        List Fields
        → Option (String → Option String)
        → Option (String → Option String)
        → Action (Recorder W) (Unit {0})
    consume messages cycle decision s = elim (resolvers_of s.journal cycle decision) [
      | none ↦ (raised, s)
      | some resolvers ↦ consume_all resolvers messages s
    ]
