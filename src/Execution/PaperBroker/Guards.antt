-- ===== src/Execution/PaperBroker/Guards.antt =====
-- The guards of `execute` in paper_broker.py: what holds of a report, and when none is made.
use caqrs.Prelude.{
  ◌+◌, ◌≤◌, true, false, String, Text, List, [], ◌∷◌, ◌++◌, map, none, some, contains, returned,
  raised, codes, join_commas, ◌≡◌, ◌≢◌, refl, arith, length, length-append, str_eq_iff, Nil-cases,
  sym, ◌∙◌, Bool-cases, ap, inl, inr,
}
use caqrs.Prelude.Decimal.{Decimal}
use caqrs.Prelude.Dict.{Dict, get, keys, get-put}
use caqrs.Prelude.Sort.{sort_by_key, get-sort_by_key}
use caqrs.Schemas.Decision.{is_adopt}
use caqrs.Policy.Gateway.{FeasibleAction}
use caqrs.Execution.Report.{ExecutionStatus, ExecutionReport, make_report}
use caqrs.Execution.PaperBroker.{
  PaperBroker, execute, rebalance, skip_report, reject_report, missing_prices, involved_tickers,
  target_tickers, sorted_set,
}

module _ {ℓ} {A : Type ℓ} (d : Decimal A) where
  skip_report-status :
      (action : FeasibleAction A) {r : ExecutionReport A}
      → skip_report d action ≡ returned r
      → r.status ≡ ExecutionStatus.skipped
  unfolding skip_report make_report
  skip_report-status action h = ground arith

  reject_report-status :
      (action : FeasibleAction A) (involved missing : List String) {r : ExecutionReport A}
      → reject_report d action involved missing ≡ returned r
      → r.status ≡ ExecutionStatus.rejected
  unfolding reject_report make_report
  reject_report-status action involved missing h = ground arith

  rebalance-status :
      (b : PaperBroker A) (action : FeasibleAction A) (prices : Dict A) {r : ExecutionReport A}
      → (rebalance d b action prices).0 ≡ returned r
      → r.status ≡ ExecutionStatus.filled
  unfolding rebalance make_report
  rebalance-status b action prices h = ground arith

  -- The ways through `execute`.
  pub execute_skips :
      (b : PaperBroker A) (action : FeasibleAction A) (prices : Dict A)
      → is_adopt action.action ≡ false
      → execute d b action prices ≡ (skip_report d action, b)
  unfolding execute
  execute_skips b action prices h = rw h refl

  pub execute_rebalances :
      (b : PaperBroker A) (action : FeasibleAction A) (prices : Dict A)
      → is_adopt action.action ≡ true
      → missing_prices d prices (involved_tickers d b action.targets) ≡ []
      → execute d b action prices ≡ rebalance d b action prices
  unfolding execute
  execute_rebalances b action prices h none_missing = rw (h, none_missing) refl

  pub execute_rejects :
      (b : PaperBroker A) (action : FeasibleAction A) (prices : Dict A) {m : String}
      {ms : List String}
      → is_adopt action.action ≡ true
      → missing_prices d prices (involved_tickers d b action.targets) ≡ m ∷ ms
      → execute d b action prices
        ≡ (reject_report d action (involved_tickers d b action.targets) (m ∷ ms), b)
  unfolding execute
  execute_rejects b action prices h missing = rw (h, missing) refl

  -- If `execute` returns a report that is not FILLED, the broker is as it was.
  pub execute_unchanged :
      (b : PaperBroker A) (action : FeasibleAction A) (prices : Dict A) {r : ExecutionReport A}
      → (execute d b action prices).0 ≡ returned r
      → r.status ≢ ExecutionStatus.filled
      → (execute d b action prices).1 ≡ b
  execute_unchanged b action prices h ne = elim (Bool-cases (is_adopt action.action)) [
    | inr skipped ↦ ap (λ e. e.1) (execute_skips b action prices skipped)
    | inl adopted ↦
        elim (Nil-cases (missing_prices d prices (involved_tickers d b action.targets))) [
          | inl priced ↦ absurd (
              ne (
                rebalance-status b action prices
                  (sym (ap (λ e. e.0) (execute_rebalances b action prices adopted priced)) ∙ h)))
          | inr (m, ms, missing) ↦ ap (λ e. e.1) (execute_rejects b action prices adopted missing)
        ]
  ]

  -- A set of tickers keeps what it was made of.
  get-sorted_set :
      (t : String) (ts : List String) → contains t ts ≡ true → get t (sorted_set ts) ≡ some tt
  unfolding sorted_set contains
  get-sorted_set t [] h = cc
  get-sorted_set t (u ∷ ts) h =
      ground
        (arith, get-put u t tt (sorted_set ts), str_eq_iff u t, str_eq_iff t u, get-sorted_set t ts)

  missing_prices-keys :
      (prices : Dict A) (t : String) (s : Dict (Unit {0}))
      → missing_prices d prices (keys s) ≡ []
      → get t s ≡ some tt
      → get t prices ≢ none
  unfolding missing_prices keys get
  missing_prices-keys prices t [] h e = cc
  missing_prices-keys prices t ((u, _) ∷ s) h e =
      ground (arith, str_eq_iff u t, missing_prices-keys prices t s)

  -- Only an adoption with every price makes a FILLED report.
  pub execute_filled :
      (b : PaperBroker A) (action : FeasibleAction A) (prices : Dict A) {r : ExecutionReport A}
      → (execute d b action prices).0 ≡ returned r
      → r.status ≡ ExecutionStatus.filled
      → (is_adopt action.action ≡ true)
        × (missing_prices d prices (involved_tickers d b action.targets) ≡ [])
  execute_filled b action prices h e = elim (Bool-cases (is_adopt action.action)) [
    | inr skipped ↦
        let s =
          skip_report-status action
            (sym (ap (λ x. x.0) (execute_skips b action prices skipped)) ∙ h) in
        absurd (ground (arith, s, e))
    | inl adopted ↦
        elim (Nil-cases (missing_prices d prices (involved_tickers d b action.targets))) [
          | inl priced ↦ (adopted, priced)
          | inr (m, ms, missing) ↦
              let s =
                reject_report-status action (involved_tickers d b action.targets) (m ∷ ms)
                  (sym (ap (λ x. x.0) (execute_rejects b action prices adopted missing)) ∙ h) in
              absurd (ground (arith, s, e))
        ]
  ]

  -- A FILLED report means that the action was an adoption and that each ticker of its targets and
  -- each ticker held had a price.
  pub execute_priced :
      (b : PaperBroker A) (action : FeasibleAction A) (prices : Dict A) (t : String)
      {r : ExecutionReport A}
      → (execute d b action prices).0 ≡ returned r
      → r.status ≡ ExecutionStatus.filled
      → contains t (target_tickers d action.targets ++ keys b.positions) ≡ true
      → (is_adopt action.action ≡ true) × (get t prices ≢ none)
  unfolding involved_tickers
  execute_priced b action prices t h e c =
      let (adopted, priced) = execute_filled b action prices h e in
      let tickers = target_tickers d action.targets ++ keys b.positions in
      (
        adopted,
        missing_prices-keys prices t (sort_by_key (sorted_set tickers)) priced
            (get-sort_by_key t (sorted_set tickers) ∙ get-sorted_set t tickers c),
      )

  head_length : length (codes "missing prices for: ") ≡ 20
  unfolding codes
  head_length = refl

  -- The text of a missing ticker and the separators after it.
  join_commas-length :
      (first : Text) (rest : List Text)
      → length rest + length rest ≤ length (join_commas (first ∷ rest))
  unfolding join_commas
  join_commas-length first [] = omega arith
  join_commas-length first (next ∷ rest) = omega (
    arith,
    length-append first (b',' ∷ b' ' ∷ join_commas (next ∷ rest)),
    join_commas-length next rest,
  )

  length-map : (ts : List String) → length (map codes ts) ≡ length ts
  length-map [] = refl
  length-map (t ∷ ts) = omega (arith, length-map ts)

  reject_report_overflow :
      (action : FeasibleAction A) (involved : List String) (m : String) (ms : List String)
      → 191 ≤ length ms
      → reject_report d action involved (m ∷ ms) ≡ raised
  unfolding reject_report make_report
  reject_report_overflow action involved m ms h = ground (
    arith,
    join_commas-length (codes m) (map codes ms),
    length-map ms,
    length-append (codes "missing prices for: ") (join_commas (map codes (m ∷ ms))),
    head_length,
  )

  -- An adoption whose involved tickers without a price are 192 or more makes `execute` raise in place
  -- of the REJECTED report, and leaves the broker as it was: the reason is longer than a report may
  -- hold.
  pub execute_reject_overflow :
      (b : PaperBroker A) (action : FeasibleAction A) (prices : Dict A)
      → is_adopt action.action ≡ true
      → 192 ≤ length (missing_prices d prices (involved_tickers d b action.targets))
      → execute d b action prices ≡ (raised, b)
  execute_reject_overflow b action prices h long =
      elim (Nil-cases (missing_prices d prices (involved_tickers d b action.targets))) [
        | inl priced ↦ absurd (omega (arith, ap length priced))
        | inr (m, ms, missing) ↦
            execute_rejects b action prices h missing
            ∙ rw
                (reject_report_overflow action (involved_tickers d b action.targets) m ms
                  (omega (arith, ap length missing)))
                refl
      ]
