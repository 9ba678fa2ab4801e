-- ===== src/Execution/Journal/Keys.antt =====
-- The keys of the tables of live_broker_journal.py, over any sequence of writes.
use caqrs.Prelude.{
  Bool, true, false, String, List, [], ◌∷◌, ◌++◌, some, any, ◌≡◌, refl, str_eq, str_eq_iff,
  returned, raised, ◌⊎◌, inl, inr, Bool-cases, ◌∙◌, arith, if◌then◌else◌, ap, sym, ◌||◌,
}
use caqrs.Execution.Journal.{
  Submission, FillRow, CancelRow, LiveBrokerJournal, is_submission, is_fill, is_cancel,
  register_submission, record_fill, record_cancel, attribution, attribution_in,
}

pub any-append :
    {A : Type 0} (p : A → Bool) (xs ys : List A) → any p (xs ++ ys) ≡ (any p xs || any p ys)
any-append p [] ys = refl
any-append p (x ∷ xs) ys = ground (arith, any-append p xs ys)

-- No row has the key of an earlier one.
module _ {A : Type 0} (same : A → A → Bool) where
  abbrev pub IsKeyed : List A → Type 0
  IsKeyed [] = Unit
  IsKeyed (x ∷ xs) = (any (λ y. same y x) xs ≡ false) × IsKeyed xs

  IsKeyed-snoc :
      (xs : List A) (y : A) → IsKeyed xs → any (λ x. same y x) xs ≡ false → IsKeyed (xs ++ y ∷ [])
  IsKeyed-snoc [] y k h = (refl, tt)
  IsKeyed-snoc (x ∷ xs) y k h =
      (any-append (λ z. same z x) xs (y ∷ []) ∙ ground arith, IsKeyed-snoc xs y k.1 (ground arith))

abbrev pub same_submission : Submission → Submission → Bool
same_submission new old = is_submission new.client_order_id old

abbrev pub same_fill : FillRow → FillRow → Bool
same_fill new old = is_fill new.client_order_id new.fill_id old

abbrev pub same_cancel : CancelRow → CancelRow → Bool
same_cancel new old = is_cancel new.client_order_id old

-- Each table keeps its key: an order is registered once, a fill with an id is recorded once, and an
-- order is cancelled once.
pub record IsCollapsed (j : LiveBrokerJournal) : Type 0 where
  pub submissions : IsKeyed same_submission j.submissions
  pub fills : IsKeyed same_fill j.fills
  pub cancellations : IsKeyed same_cancel j.cancellations

-- One write.
pub data Write : Type 0 where
  submission : Submission → Write
  fill : FillRow → Write
  cancel : CancelRow → Write

abbrev pub write : LiveBrokerJournal → Write → LiveBrokerJournal
write j (submission row) = (register_submission j row).1
write j (fill row) = (record_fill j row).1
write j (cancel row) = (record_cancel j row).1

abbrev pub write_all : LiveBrokerJournal → List Write → LiveBrokerJournal
write_all j [] = j
write_all j (w ∷ ws) = write_all (write j w) ws

pub write-IsCollapsed :
    (j : LiveBrokerJournal) (w : Write) → IsCollapsed j → IsCollapsed (write j w)
unfolding register_submission record_fill record_cancel
write-IsCollapsed j (submission row) k =
    elim (Bool-cases (any (same_submission row) j.submissions)) [
      | inl old ↦ rw (write, register_submission, old) k
      | inr new ↦
          rw (write, register_submission, new)
            (record {
              submissions = IsKeyed-snoc same_submission j.submissions row k.submissions new;
              fills = k.fills;
              cancellations = k.cancellations;
            })
    ]
write-IsCollapsed j (fill row) k = elim (Bool-cases (any (same_fill row) j.fills)) [
  | inl old ↦ rw (write, record_fill, old) k
  | inr new ↦
      rw (write, record_fill, new)
        (record {
          submissions = k.submissions;
          fills = IsKeyed-snoc same_fill j.fills row k.fills new;
          cancellations = k.cancellations;
        })
]
write-IsCollapsed j (cancel row) k = elim (Bool-cases (any (same_cancel row) j.cancellations)) [
  | inl old ↦ rw (write, record_cancel, old) k
  | inr new ↦
      rw (write, record_cancel, new)
        (record {
          submissions = k.submissions;
          fills = k.fills;
          cancellations = IsKeyed-snoc same_cancel j.cancellations row k.cancellations new;
        })
]

-- Whatever is written to a new journal, once it is opened, and in whatever order: no order is
-- registered twice, no fill with an id stands twice, and no order is cancelled twice.
pub write_all-IsCollapsed :
    (ws : List Write) (j : LiveBrokerJournal) → IsCollapsed j → IsCollapsed (write_all j ws)
write_all-IsCollapsed [] j k = k
write_all-IsCollapsed (w ∷ ws) j k = write_all-IsCollapsed ws (write j w) (write-IsCollapsed j w k)

attribution_in-append :
    (c : String) (rows : List Submission) (row : Submission)
    → any (is_submission c) rows ≡ false
    → is_submission c row ≡ true
    → attribution_in c (rows ++ row ∷ []) ≡ some (row.cycle_id, row.decision_run_id)
unfolding attribution_in
attribution_in-append c [] row h mine = rw mine refl
attribution_in-append c (r ∷ rows) row h mine = ground (arith, attribution_in-append c rows row)

attribution_in-other :
    (c : String) (rows : List Submission) (row : Submission)
    → is_submission c row ≡ false
    → attribution_in c (rows ++ row ∷ []) ≡ attribution_in c rows
unfolding attribution_in
attribution_in-other c [] row h = rw h refl
attribution_in-other c (r ∷ rows) row h = ground (arith, attribution_in-other c rows row)

-- A registration that returns makes its order resolve to its cycle and decision, and one that raises
-- changes nothing; what the other orders resolve to stays.
pub attribution-register_submission :
    (j : LiveBrokerJournal) (row : Submission) (c : String)
    → (((register_submission j row).0 ≡ returned tt)
        × (attribution (register_submission j row).1 c ≡ (
            if str_eq row.client_order_id c
            then some (row.cycle_id, row.decision_run_id)
            else attribution j c)))
      ⊎ (register_submission j row ≡ (raised, j))
unfolding register_submission attribution
attribution-register_submission j row c =
    elim (Bool-cases (any (is_submission row.client_order_id) j.submissions)) [
      | inl old ↦ inr (rw old refl)
      | inr new ↦ inl (
          rw new (
            refl,
            elim (Bool-cases (str_eq row.client_order_id c)) [
              | inl mine ↦
                  let same = (str_eq_iff row.client_order_id c).0 mine in
                  rw mine (
                    attribution_in-append c j.submissions row
                      (ap (λ k. any (is_submission k) j.submissions) (sym same) ∙ new) mine)
              | inr other ↦ rw other (attribution_in-other c j.submissions row other)
            ],
          ))
    ]
