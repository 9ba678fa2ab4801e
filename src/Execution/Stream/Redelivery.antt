-- ===== src/Execution/Stream/Redelivery.antt =====
-- A trade update that the venue sends again.
use caqrs.Prelude.{
  Bool, true, false, String, List, [], ◌∷◌, none, some, returned, ◌≡◌, refl, sym, ap, subst, ◌∙◌,
  ◌⊎◌, inl, inr, arith, Bool-cases, Option-cases, any, str_eq_refl,
}
use caqrs.Prelude.Decimal.{Decimal}
use caqrs.Orchestrator.EventLog.{Codec, EventLog}
use caqrs.Orchestrator.Events.{CycleEvent}
use caqrs.Execution.Journal.{
  LiveBrokerJournal, FillRow, CancelRow, is_fill, is_cancel, record_fill, record_cancel,
  attribution, cycle_resolver, decision_resolver,
}
use caqrs.Execution.Journal.Keys.{any-append}
use caqrs.Execution.Stream.{Fields, AlpacaTradeUpdate, Parsed, is_fill_kind, decode_trade_update}
use caqrs.Execution.Stream.Decoded.{IsSound, decode_trade_update-IsSound}
use caqrs.Execution.Stream.Consume.{
  from_journal, resolve, Recorder, emit, fill_row, cancel_row, filled_event, cancelled_event,
  record_and_emit, record_update, attribute_update, handle, consume_all,
}
use caqrs.Execution.Stream.Exact.{recorder, consume_all-Records, handle-Records}
use caqrs.Execution.Stream.Entries.{Entry, IsRecorded, fill_rows, cancel_rows}

-- An update that the journal can tell from another: a cancellation, or a fill with an id.
abbrev pub IsMarked {ℓ} : {A : Type ℓ} → AlpacaTradeUpdate A → Type 0
IsMarked u = (is_fill_kind u.kind ≡ false) ⊎ ((f : String) × (u.fill_id ≡ some f))

journal_injective : {a b : LiveBrokerJournal} → some a ≡ some b → a ≡ b
journal_injective h = cc

-- The journal has the row of the update, or no submission to attribute it to.
abbrev IsKnown {ℓ} : {A : Type ℓ} → LiveBrokerJournal → AlpacaTradeUpdate A → Type 0
IsKnown j u =
    (resolve from_journal (some j) u.client_order_id ≡ none)
    ⊎ ((is_fill_kind u.kind ≡ true) × (any (is_fill u.client_order_id u.fill_id) j.fills ≡ true))
    ⊎ ((is_fill_kind u.kind ≡ false) × (any (is_cancel u.client_order_id) j.cancellations ≡ true))

record_fill-has :
    (j : LiveBrokerJournal) (row : FillRow) (f : String)
    → row.fill_id ≡ some f
    → any (is_fill row.client_order_id row.fill_id) (record_fill j row).1.fills ≡ true
unfolding record_fill
record_fill-has j row f marked =
    elim (Bool-cases (any (is_fill row.client_order_id row.fill_id) j.fills)) [
      | inl old ↦ rw (record_fill, old) old
      | inr new ↦
          rw (record_fill, new)
            (any-append (is_fill row.client_order_id row.fill_id) j.fills (row ∷ [])
              ∙ rw (new, marked, str_eq_refl row.client_order_id, str_eq_refl f) refl)
    ]

record_cancel-has :
    (j : LiveBrokerJournal) (row : CancelRow)
    → any (is_cancel row.client_order_id) (record_cancel j row).1.cancellations ≡ true
unfolding record_cancel
record_cancel-has j row = elim (Bool-cases (any (is_cancel row.client_order_id) j.cancellations)) [
  | inl old ↦ rw (record_cancel, old) old
  | inr new ↦
      rw (record_cancel, new)
        (any-append (is_cancel row.client_order_id) j.cancellations (row ∷ [])
          ∙ rw (new, str_eq_refl row.client_order_id) refl)
]

resolve_same :
    (j j' : LiveBrokerJournal) (k : String)
    → j'.submissions ≡ j.submissions
    → resolve from_journal (some j') k ≡ resolve from_journal (some j) k
unfolding resolve cycle_resolver decision_resolver attribution
resolve_same j j' k same = rw same refl

module _ {ℓ} {A : Type ℓ} (d : Decimal A) where
  -- What is known stays known, since rows are only added.
  IsKnown-later :
      (j j' : LiveBrokerJournal) (u : AlpacaTradeUpdate A) {old new : List CycleEvent}
      {entries : List (Entry A)}
      → IsRecorded d j j' old new entries
      → IsKnown j u
      → IsKnown j' u
  IsKnown-later j j' u {entries = entries} recorded (inl unknown) =
      inl (resolve_same j j' u.client_order_id recorded.submissions ∙ unknown)
  IsKnown-later j j' u {entries = entries} recorded (inr (inl (filled, there))) = inr (
      inl (
        filled,
        rw recorded.fills (
            any-append (is_fill u.client_order_id u.fill_id) j.fills (fill_rows d entries)
            ∙ rw there refl),
      ))
  IsKnown-later j j' u {entries = entries} recorded (inr (inr (other, there))) = inr (
      inr (
        other,
        rw recorded.cancellations (
            any-append (is_cancel u.client_order_id) j.cancellations (cancel_rows d entries)
            ∙ rw there refl),
      ))

module _ {κ} {W : Type κ} (codec : Codec) where
  record_and_emit-journal :
      (insert : LiveBrokerJournal → Bool × LiveBrokerJournal) (event : CycleEvent)
      (j : LiveBrokerJournal) (log : EventLog W) (w : W)
      → (insert j ≡ (false, j)) ⊎ ((insert j).0 ≡ true)
      → (record_and_emit codec insert event (recorder j log w)).1.journal ≡ some (insert j).1
  unfolding record_and_emit emit
  record_and_emit-journal insert event j log w (inl old) = rw (record_and_emit, old) refl
  record_and_emit-journal insert event j log w (inr new) = rw (record_and_emit, new) refl

  record_and_emit_old :
      (insert : LiveBrokerJournal → Bool × LiveBrokerJournal) (event : CycleEvent)
      (j : LiveBrokerJournal) (log : EventLog W) (w : W)
      → (insert j).0 ≡ false
      → record_and_emit codec insert event (recorder j log w) ≡ (returned tt, recorder j log w)
  unfolding record_and_emit
  record_and_emit_old insert event j log w old = rw old refl

record_fill-cases :
    (j : LiveBrokerJournal) (row : FillRow)
    → (record_fill j row ≡ (false, j)) ⊎ ((record_fill j row).0 ≡ true)
unfolding record_fill
record_fill-cases j row = ground arith

record_cancel-cases :
    (j : LiveBrokerJournal) (row : CancelRow)
    → (record_cancel j row ≡ (false, j)) ⊎ ((record_cancel j row).0 ≡ true)
unfolding record_cancel
record_cancel-cases j row = ground arith

record_fill_old :
    (j : LiveBrokerJournal) (row : FillRow)
    → any (is_fill row.client_order_id row.fill_id) j.fills ≡ true
    → (record_fill j row).0 ≡ false
unfolding record_fill
record_fill_old j row there = rw (record_fill, there) refl

record_cancel_old :
    (j : LiveBrokerJournal) (row : CancelRow)
    → any (is_cancel row.client_order_id) j.cancellations ≡ true
    → (record_cancel j row).0 ≡ false
unfolding record_cancel
record_cancel_old j row there = rw (record_cancel, there) refl

module _ {ℓ κ} {A : Type ℓ} {W : Type κ} (d : Decimal A) (codec : Codec)
    (parse : String → Parsed A) where
  update_known :
      (j : LiveBrokerJournal) (log : EventLog W) (w : W) (u : AlpacaTradeUpdate A) (c r : String)
      → IsSound d parse u
      → ((is_fill_kind u.kind ≡ true) × (any (is_fill u.client_order_id u.fill_id) j.fills ≡ true))
        ⊎ ((is_fill_kind u.kind ≡ false)
            × (any (is_cancel u.client_order_id) j.cancellations ≡ true))
      → record_update d codec u c r (recorder j log w) ≡ (returned tt, recorder j log w)
  unfolding record_update
  update_known j log w u c r sound (inr (other, there)) =
      rw (record_update, other)
        (record_and_emit_old codec (λ k. record_cancel k (cancel_row d u)) (cancelled_event d c r u)
          j log w (record_cancel_old j (cancel_row d u) there))
  update_known j log w u c r sound (inl (filled, there)) = elim sound.amounts [
    | inr (other, _, _) ↦ absurd (ground (arith, filled, other))
    | inl (_, q, p, amounts, _, _) ↦
        rw (record_update, filled, amounts)
          (record_and_emit_old codec (λ k. record_fill k (fill_row d u (q, p)))
            (filled_event d c r u (q, p)) j log w (record_fill_old j (fill_row d u (q, p)) there))
  ]

  -- A known update changes nothing.
  attribute_known :
      (j : LiveBrokerJournal) (log : EventLog W) (w : W) (u : AlpacaTradeUpdate A)
      → IsSound d parse u
      → IsKnown j u
      → attribute_update d codec from_journal u (recorder j log w) ≡ (returned tt, recorder j log w)
  unfolding attribute_update
  attribute_known j log w u sound known =
      elim (Option-cases (resolve from_journal (some j) u.client_order_id)) [
        | inl unknown ↦ rw (attribute_update, unknown) refl
        | inr ((c, r), ids) ↦ elim known [
          | inl unknown ↦ absurd (ground (arith, ids, unknown))
          | inr there ↦ rw (attribute_update, ids) (update_known j log w u c r sound there)
        ]
      ]

  -- An update that was handled is known.
  update-IsKnown :
      (j : LiveBrokerJournal) (log : EventLog W) (w : W) (u : AlpacaTradeUpdate A) (c r : String)
      → IsSound d parse u
      → IsMarked u
      → {j' : LiveBrokerJournal}
      → (record_update d codec u c r (recorder j log w)).1.journal ≡ some j'
      → IsKnown j' u
  unfolding record_update
  update-IsKnown j log w u c r sound marked {j'} same = elim sound.amounts [
    | inr (other, _, _) ↦
        let row = cancel_row d u in
        let made : (record_update d codec u c r (recorder j log w)).1.journal
            ≡ some (record_cancel j row).1 =
          rw (record_update, other)
            (record_and_emit-journal codec (λ k. record_cancel k row) (cancelled_event d c r u) j
              log w (record_cancel-cases j row)) in
        subst (λ k. IsKnown k u) (journal_injective (sym made ∙ same))
          (inr (inr (other, record_cancel-has j row)))
    | inl (filled, q, p, amounts, _, _) ↦ elim marked [
      | inl other ↦ absurd (ground (arith, filled, other))
      | inr (f, has_id) ↦
          let row = fill_row d u (q, p) in
          let made : (record_update d codec u c r (recorder j log w)).1.journal
              ≡ some (record_fill j row).1 =
            rw (record_update, filled, amounts)
              (record_and_emit-journal codec (λ k. record_fill k row) (filled_event d c r u (q, p))
                j log w (record_fill-cases j row)) in
          subst (λ k. IsKnown k u) (journal_injective (sym made ∙ same))
            (inr (inl (filled, record_fill-has j row f has_id)))
    ]
  ]

  attribute-IsKnown :
      (j : LiveBrokerJournal) (log : EventLog W) (w : W) (u : AlpacaTradeUpdate A)
      → IsSound d parse u
      → IsMarked u
      → {j' : LiveBrokerJournal}
      → (attribute_update d codec from_journal u (recorder j log w)).1.journal ≡ some j'
      → IsKnown j' u
  unfolding attribute_update
  attribute-IsKnown j log w u sound marked {j'} same =
      elim (Option-cases (resolve from_journal (some j) u.client_order_id)) [
        | inl unknown ↦
            let made : (attribute_update d codec from_journal u (recorder j log w)).1.journal
                ≡ some j =
              rw (attribute_update, unknown) refl in
            subst (λ k. IsKnown k u) (journal_injective (sym made ∙ same)) (inl unknown)
        | inr ((c, r), ids) ↦
            let made : attribute_update d codec from_journal u (recorder j log w)
                ≡ record_update d codec u c r (recorder j log w) =
              rw (attribute_update, ids) refl in
            update-IsKnown j log w u c r sound marked (sym (ap (λ x. x.1.journal) made) ∙ same)
      ]

  handle_decoded :
      (raw : Fields) (u : AlpacaTradeUpdate A) (s : Recorder W)
      → decode_trade_update d parse raw ≡ returned (some u)
      → handle d codec parse from_journal raw s ≡ attribute_update d codec from_journal u s
  unfolding handle
  handle_decoded raw u s decoded = rw (handle, decoded) refl

  -- A message that the decoder takes for a cancellation, or for a fill with an id, and that the venue
  -- sends again after any other messages: the second time nothing changes, neither the journal nor
  -- the log nor the world of the listeners, and nothing raises.
  pub handle-again :
      (j : LiveBrokerJournal) (log : EventLog W) (w : W) (raw : Fields) (between : List Fields)
      (u : AlpacaTradeUpdate A)
      → decode_trade_update d parse raw ≡ returned (some u)
      → IsMarked u
      → let first = (handle d codec parse from_journal raw (recorder j log w)).1 in
        let after = (consume_all d codec parse from_journal between first).1 in
        handle d codec parse from_journal raw after ≡ (returned tt, after)
  handle-again j log w raw between u decoded marked =
      let sound = decode_trade_update-IsSound d parse raw u decoded in
      let (j', log', w', _, same, _, _) = handle-Records d codec parse j log w raw in
      let (j'', log'', w'', _, same', recorded, _) =
        consume_all-Records d codec parse between j' log' w' in
      let known = attribute-IsKnown j log w u sound marked (
        sym (ap (λ x. x.1.journal) (handle_decoded raw u (recorder j log w) decoded))
        ∙ ap (λ s. s.journal) same) in
      let ends = ap (λ s. (consume_all d codec parse from_journal between s).1) same ∙ same' in
      subst (λ s. handle d codec parse from_journal raw s ≡ (returned tt, s)) (sym ends)
        (handle_decoded raw u (recorder j'' log'' w'') decoded
          ∙ attribute_known j'' log'' w'' u sound (IsKnown-later d j' j'' u recorded known))
