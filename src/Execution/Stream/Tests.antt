-- ===== src/Execution/Stream/Tests.antt =====
-- Runs of the decoder and the loop of alpaca_stream.py.
use caqrs.Prelude.{
  ℕ, ◌+◌, String, [], ◌∷◌, none, some, str_eq, ◌≡◌, refl, returned, raised, if◌then◌else◌, inr, ◌⊎◌,
}
use caqrs.Prelude.Int.{ℤ, pos}
use caqrs.Prelude.Decimal.Whole.{whole}
use caqrs.Orchestrator.Listeners.{Listener, notify}
use caqrs.Orchestrator.Events.{CycleEvent}
use caqrs.Orchestrator.EventLog.{Codec, EventLog, append}
use caqrs.Execution.Journal.{
  LiveBrokerJournal, Submission, register_submission, attribution, attribution_in, record_fill,
  record_cancel, cycle_resolver, decision_resolver,
}
use caqrs.Execution.Journal.Keys.{attribution-register_submission}
use caqrs.Execution.Stream.{
  words, dict, scalar, Fields, end, field, Parsed, number, invalid, AlpacaTradeUpdate, fill, lookup,
  text_at, dict_at, words_at, kind_of, fill_amounts, amount_at, amounts_of, update_of,
  update_of_order, decode_trade_update, make_update,
}
use caqrs.Execution.Stream.Consume.{
  from_journal, handle, consume, consume_all, resolvers_of, resolve, emit, record_and_emit,
  record_update, attribute_update,
}
use caqrs.Execution.Stream.Decoded.{IsSound, decode_trade_update-IsSound}
use caqrs.Execution.Stream.Exact.{recorder}
use caqrs.Execution.Stream.Redelivery.{handle-again}

abbrev parse : String → Parsed ℤ
parse s =
    if str_eq s "10" then number (pos 10) else if str_eq s "180" then number (pos 180) else invalid

abbrev order_fields : Fields
order_fields = field "id" (words "o-1") (
    field "client_order_id" (words "k-1")
      (field "symbol" (words "AAPL") (field "side" (words "buy") end)))

abbrev message : String → Fields → Fields
message event rest = field "stream" (words "trade_updates") (
    field "data"
      (dict "{…}" (field "event" (words event) (field "order" (dict "{…}" order_fields) rest))) end)

abbrev amounts : Fields
amounts =
    field "qty" (words "10") (field "price" (scalar "180") (field "execution_id" (words "e-1") end))

abbrev fill_message : Fields
fill_message = message "fill" amounts

abbrev fill_update : AlpacaTradeUpdate ℤ
fill_update = make_update fill order_fields (some (pos 10, pos 180)) none (some "e-1")

decode-fill : decode_trade_update whole parse fill_message ≡ returned (some fill_update)
unfolding decode_trade_update lookup text_at dict_at words_at kind_of fill_amounts amount_at
    amounts_of update_of update_of_order
decode-fill = refl

decode_drops : decode_trade_update whole parse (message "fill" end) ≡ returned none
unfolding decode_trade_update lookup text_at dict_at words_at kind_of fill_amounts amount_at
    amounts_of update_of update_of_order
decode_drops = refl

abbrev submission : Submission
submission = record {
  client_order_id = "k-1";
  cycle_id = "c-1";
  decision_run_id = "r-1";
  order_id = "o-1";
  idempotency_key = "k-1…";
  symbol = "AAPL";
  side = "buy";
  qty = "10";
}

abbrev journal : LiveBrokerJournal
journal = record { user_version = 1; submissions = submission ∷ []; fills = []; cancellations = [] }

abbrev counter : Listener CycleEvent ℕ
counter e n = (returned tt, n + 1)

abbrev log : EventLog ℕ
log = record { events = []; persist_to = none; listeners = counter ∷ [] }

abbrev codec : Codec
codec = record { dump_json = λ e. []; validate_json = λ t. none }

-- A fill, its redelivery, and a cancellation, twice: two events.
consume-twice :
    (consume whole codec parse
      (fill_message ∷ fill_message ∷ message "canceled" end ∷ message "rejected" end ∷ [])
      none
      none
      (recorder journal log 0)).1.world
    ≡ 2
unfolding consume consume_all handle resolvers_of resolve emit record_and_emit record_update
    attribute_update append notify record_fill record_cancel cycle_resolver decision_resolver
    attribution attribution_in decode_trade_update lookup text_at dict_at words_at kind_of
    fill_amounts amount_at amounts_of update_of update_of_order
consume-twice = refl

attribution-register_submission_example :
    (((register_submission journal submission).0 ≡ returned tt)
      × (attribution (register_submission journal submission).1 "k-1"
          ≡ (if str_eq "k-1" "k-1" then some ("c-1", "r-1") else attribution journal "k-1")))
    ⊎ (register_submission journal submission ≡ (raised, journal))
attribution-register_submission_example = attribution-register_submission journal submission "k-1"

decode_trade_update-IsSound_example : IsSound whole parse fill_update
decode_trade_update-IsSound_example =
    decode_trade_update-IsSound whole parse fill_message fill_update decode-fill

handle-again_example :
    let first = (handle whole codec parse from_journal fill_message (recorder journal log 0)).1 in
    let after =
      (consume_all whole codec parse from_journal (message "canceled" end ∷ []) first).1 in
    handle whole codec parse from_journal fill_message after ≡ (returned tt, after)
handle-again_example =
    handle-again whole codec parse journal log 0 fill_message (message "canceled" end ∷ [])
      fill_update decode-fill (inr ("e-1", refl))
