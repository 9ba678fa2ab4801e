-- ===== src/Execution/Stream/Exact.antt =====
-- The loop of alpaca_stream.py: one event for one row, and each update once.
use caqrs.Prelude.{
  true, false, String, List, [], ◌∷◌, ◌++◌, some, ◌≡◌, refl, sym, ◌⊎◌, inl, inr, append-nil, arith,
  Bool-cases, Option-cases, Returned-cases, ◌++◌, subst,
}
use caqrs.Prelude.Decimal.{Decimal}
use caqrs.Orchestrator.EventLog.{Codec, EventLog, append}
use caqrs.Execution.Journal.{
  LiveBrokerJournal, FillRow, CancelRow, record_fill, record_cancel, attribution, cycle_resolver,
  decision_resolver,
}
use caqrs.Execution.Journal.Keys.{IsCollapsed, fill, cancel, write-IsCollapsed}
use caqrs.Execution.Stream.{Fields, AlpacaTradeUpdate, Parsed, is_fill_kind, decode_trade_update}
use caqrs.Execution.Stream.Consume.{
  from_journal, resolve, Recorder, emit, fill_row, cancel_row, filled_event, cancelled_event,
  record_and_emit, record_update, attribute_update, handle, consume_all,
}
use caqrs.Execution.Stream.Entries.{
  Entry, filling, cancelling, IsRecorded, IsRecorded-refl, IsRecorded-trans,
}

resolve-attribution :
    (j : LiveBrokerJournal) (k : String) {ids : String × String}
    → resolve from_journal (some j) k ≡ some ids
    → attribution j k ≡ some ids
unfolding resolve cycle_resolver decision_resolver
resolve-attribution j k h = ground arith

record_fill-cases :
    (j : LiveBrokerJournal) (row : FillRow)
    → (record_fill j row ≡ (false, j))
      ⊎ (record_fill j row ≡ (true, record j { fills = j.fills ++ row ∷ [] }))
unfolding record_fill
record_fill-cases j row = ground arith

record_cancel-cases :
    (j : LiveBrokerJournal) (row : CancelRow)
    → (record_cancel j row ≡ (false, j))
      ⊎ (record_cancel j row ≡ (true, record j { cancellations = j.cancellations ++ row ∷ [] }))
unfolding record_cancel
record_cancel-cases j row = ground arith

module _ {κ} {W : Type κ} where
  abbrev pub recorder : LiveBrokerJournal → EventLog W → W → Recorder W
  recorder j log world = record { journal = some j; log = log; world = world }

module _ {ℓ κ} {A : Type ℓ} {W : Type κ} (d : Decimal A) (codec : Codec) where
  -- The journal and the log of a state, from those of an earlier one.
  abbrev pub Records : LiveBrokerJournal → EventLog W → Recorder W → Type (ℓ ⊔ κ)
  Records j log s =
      (j' : LiveBrokerJournal) × (log' : EventLog W) × (world' : W) × (entries : List (Entry A))
      × (s ≡ recorder j' log' world')
      × IsRecorded d j j' log.events log'.events entries
      × (IsCollapsed j → IsCollapsed j')

  Records-refl :
      (j : LiveBrokerJournal) (log : EventLog W) (w : W) → Records j log (recorder j log w)
  Records-refl j log w = (j, log, w, [], refl, IsRecorded-refl d j log.events, λ k. k)

  -- A fill, and a cancellation, whose row goes into the journal or is there.
  record-fill :
      (j : LiveBrokerJournal) (log : EventLog W) (w : W) (c r : String) (u : AlpacaTradeUpdate A)
      (amounts : A × A)
      → attribution j u.client_order_id ≡ some (c, r)
      → Records j log
          (record_and_emit codec
            (λ k. record_fill k (fill_row d u amounts))
            (filled_event d c r u amounts)
            (recorder j log w)).1
  unfolding record_and_emit emit append
  record-fill j log w c r u amounts mine =
      let row = fill_row d u amounts in
      let event = filled_event d c r u amounts in
      let kept = write-IsCollapsed j (fill row) in
      elim (record_fill-cases j row) [
        | inl old ↦ rw old (Records-refl j log w)
        | inr new ↦ rw new (
          record j { fills = j.fills ++ row ∷ [] },
          (append codec log event w).1,
          (append codec log event w).2,
          filling c r u amounts ∷ [],
          refl,
          record {
            events = refl;
            fills = refl;
            cancellations = sym (append-nil j.cancellations);
            submissions = refl;
            attributed = (mine, tt);
          },
          λ k. subst (λ x. IsCollapsed x.1) new (kept k),
        )
      ]

  record-cancel :
      (j : LiveBrokerJournal) (log : EventLog W) (w : W) (c r : String) (u : AlpacaTradeUpdate A)
      → attribution j u.client_order_id ≡ some (c, r)
      → Records j log
          (record_and_emit codec
            (λ k. record_cancel k (cancel_row d u))
            (cancelled_event d c r u)
            (recorder j log w)).1
  unfolding record_and_emit emit append
  record-cancel j log w c r u mine =
      let row = cancel_row d u in
      let event = cancelled_event d c r u in
      let kept = write-IsCollapsed j (cancel row) in
      elim (record_cancel-cases j row) [
        | inl old ↦ rw old (Records-refl j log w)
        | inr new ↦ rw new (
          record j { cancellations = j.cancellations ++ row ∷ [] },
          (append codec log event w).1,
          (append codec log event w).2,
          cancelling c r u ∷ [],
          refl,
          record {
            events = refl;
            fills = sym (append-nil j.fills);
            cancellations = refl;
            submissions = refl;
            attributed = (mine, tt);
          },
          λ k. subst (λ x. IsCollapsed x.1) new (kept k),
        )
      ]

  update-Records :
      (j : LiveBrokerJournal) (log : EventLog W) (w : W) (u : AlpacaTradeUpdate A) (c r : String)
      → attribution j u.client_order_id ≡ some (c, r)
      → Records j log (record_update d codec u c r (recorder j log w)).1
  unfolding record_update
  update-Records j log w u c r mine = elim (Bool-cases (is_fill_kind u.kind)) [
    | inr other ↦ rw (record_update, other) (record-cancel j log w c r u mine)
    | inl filled ↦ elim (Option-cases u.filled) [
      | inl missing ↦ rw (record_update, filled, missing) (Records-refl j log w)
      | inr (amounts, there) ↦
          rw (record_update, filled, there) (record-fill j log w c r u amounts mine)
    ]
  ]

  attribute-Records :
      (j : LiveBrokerJournal) (log : EventLog W) (w : W) (u : AlpacaTradeUpdate A)
      → Records j log (attribute_update d codec from_journal u (recorder j log w)).1
  unfolding attribute_update
  attribute-Records j log w u =
      elim (Option-cases (resolve from_journal (some j) u.client_order_id)) [
        | inl unknown ↦ rw (attribute_update, unknown) (Records-refl j log w)
        | inr ((c, r), known) ↦
            rw (attribute_update, known)
              (update-Records j log w u c r (resolve-attribution j u.client_order_id known))
      ]

  module _ (parse : String → Parsed A) where
    pub handle-Records :
        (j : LiveBrokerJournal) (log : EventLog W) (w : W) (raw : Fields)
        → Records j log (handle d codec parse from_journal raw (recorder j log w)).1
    unfolding handle
    handle-Records j log w raw = elim (Returned-cases (decode_trade_update d parse raw)) [
      | inr broken ↦ rw (handle, broken) (Records-refl j log w)
      | inl (o, decoded) ↦ elim (Option-cases o) [
        | inl other ↦ rw (handle, decoded, other) (Records-refl j log w)
        | inr (u, update) ↦ rw (handle, decoded, update) (attribute-Records j log w u)
      ]
    ]

    pub consume_all-Records :
        (messages : List Fields) (j : LiveBrokerJournal) (log : EventLog W) (w : W)
        → Records j log (consume_all d codec parse from_journal messages (recorder j log w)).1
    unfolding consume_all
    consume_all-Records [] j log w = Records-refl j log w
    consume_all-Records (raw ∷ rest) j log w =
        let first = handle d codec parse from_journal raw (recorder j log w) in
        let one = handle-Records j log w raw in
        elim (Returned-cases first.0) [
          | inr stopped ↦ rw stopped one
          | inl (_, went_on) ↦
              let (j', log', w', es, same, recorded, kept) = one in
              let (j'', log'', w'', fs, same', recorded', kept') =
                consume_all-Records rest j' log' w' in
              (
                j'',
                log'',
                w'',
                es ++ fs,
                rw (went_on, same) same',
                IsRecorded-trans d es fs recorded recorded',
                λ k. kept' (kept k),
              )
        ]
