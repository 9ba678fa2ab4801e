-- ===== src/Execution/Stream/Entries.antt =====
-- What the loop of alpaca_stream.py records: an entry is an event and a row.
use caqrs.Prelude.{
  String, List, [], ◌∷◌, ◌++◌, map, All, some, ◌≡◌, refl, sym, ap, ◌∙◌, append-nil, append_assoc,
}
use mathlib.Core.List.{map-append}
use caqrs.Prelude.Decimal.{Decimal}
use caqrs.Orchestrator.Events.{CycleEvent}
use caqrs.Execution.Journal.{LiveBrokerJournal, FillRow, CancelRow, attribution}
use caqrs.Execution.Stream.{AlpacaTradeUpdate}
use caqrs.Execution.Stream.Consume.{fill_row, cancel_row, filled_event, cancelled_event}

-- What the loop records once: a fill or a cancellation, with the ids of its cycle and its decision.
pub data Entry {ℓ} (A : Type ℓ) : Type ℓ where
  filling : String → String → AlpacaTradeUpdate A → A × A → Entry A
  cancelling : String → String → AlpacaTradeUpdate A → Entry A

module _ {ℓ} {A : Type ℓ} (d : Decimal A) where
  abbrev pub event_of : Entry A → CycleEvent
  event_of (filling c r u amounts) = filled_event d c r u amounts
  event_of (cancelling c r u) = cancelled_event d c r u

  abbrev pub fill_rows : List (Entry A) → List FillRow
  fill_rows [] = []
  fill_rows (filling c r u amounts ∷ rest) = fill_row d u amounts ∷ fill_rows rest
  fill_rows (cancelling c r u ∷ rest) = fill_rows rest

  abbrev pub cancel_rows : List (Entry A) → List CancelRow
  cancel_rows [] = []
  cancel_rows (filling c r u amounts ∷ rest) = cancel_rows rest
  cancel_rows (cancelling c r u ∷ rest) = cancel_row d u ∷ cancel_rows rest

  -- The submission of the entry's order has the ids of the entry.
  abbrev pub IsAttributed : LiveBrokerJournal → Entry A → Type 0
  IsAttributed j (filling c r u amounts) = attribution j u.client_order_id ≡ some (c, r)
  IsAttributed j (cancelling c r u) = attribution j u.client_order_id ≡ some (c, r)

  -- From one journal and list of events to another the entries are added, to both.
  pub record IsRecorded (j j' : LiveBrokerJournal) (old new : List CycleEvent)
      (entries : List (Entry A)) : Type ℓ where
    pub events : new ≡ old ++ map event_of entries
    pub fills : j'.fills ≡ j.fills ++ fill_rows entries
    pub cancellations : j'.cancellations ≡ j.cancellations ++ cancel_rows entries
    pub submissions : j'.submissions ≡ j.submissions
    pub attributed : All (IsAttributed j) entries

  pub IsRecorded-refl : (j : LiveBrokerJournal) (old : List CycleEvent) → IsRecorded j j old old []
  IsRecorded-refl j old = record {
    events = sym (append-nil old);
    fills = sym (append-nil j.fills);
    cancellations = sym (append-nil j.cancellations);
    submissions = refl;
    attributed = tt;
  }

  fill_rows-append : (es fs : List (Entry A)) → fill_rows (es ++ fs) ≡ fill_rows es ++ fill_rows fs
  fill_rows-append [] fs = refl
  fill_rows-append (filling c r u amounts ∷ es) fs =
      ap (λ rows. fill_row d u amounts ∷ rows) (fill_rows-append es fs)
  fill_rows-append (cancelling c r u ∷ es) fs = fill_rows-append es fs

  cancel_rows-append :
      (es fs : List (Entry A)) → cancel_rows (es ++ fs) ≡ cancel_rows es ++ cancel_rows fs
  cancel_rows-append [] fs = refl
  cancel_rows-append (filling c r u amounts ∷ es) fs = cancel_rows-append es fs
  cancel_rows-append (cancelling c r u ∷ es) fs =
      ap (λ rows. cancel_row d u ∷ rows) (cancel_rows-append es fs)

  attribution_same :
      (j j' : LiveBrokerJournal) (e : Entry A)
      → j'.submissions ≡ j.submissions
      → IsAttributed j' e
      → IsAttributed j e
  unfolding attribution
  attribution_same j j' (filling c r u amounts) same h = rw same at h
  attribution_same j j' (cancelling c r u) same h = rw same at h

  All-IsAttributed :
      (j j' : LiveBrokerJournal) (es fs : List (Entry A))
      → j'.submissions ≡ j.submissions
      → All (IsAttributed j) es
      → All (IsAttributed j') fs
      → All (IsAttributed j) (es ++ fs)
  All-IsAttributed j j' [] [] same h k = tt
  All-IsAttributed j j' [] (f ∷ fs) same h k =
      (attribution_same j j' f same k.0, All-IsAttributed j j' [] fs same tt k.1)
  All-IsAttributed j j' (e ∷ es) fs same h k = (h.0, All-IsAttributed j j' es fs same h.1 k)

  pub IsRecorded-trans :
      {a b c : LiveBrokerJournal} {x y z : List CycleEvent} (es fs : List (Entry A))
      → IsRecorded a b x y es
      → IsRecorded b c y z fs
      → IsRecorded a c x z (es ++ fs)
  IsRecorded-trans {a} {b} {c} {x} {y} {z} es fs h k = record {
    events =
        k.events
        ∙ rw (h.events, map-append event_of es fs)
            (append_assoc x (map event_of es) (map event_of fs));
    fills =
        k.fills
        ∙ rw (h.fills, fill_rows-append es fs) (append_assoc a.fills (fill_rows es) (fill_rows fs));
    cancellations =
        k.cancellations
        ∙ rw (h.cancellations, cancel_rows-append es fs)
            (append_assoc a.cancellations (cancel_rows es) (cancel_rows fs));
    submissions = k.submissions ∙ h.submissions;
    attributed = All-IsAttributed a b es fs h.submissions h.attributed k.attributed;
  }
