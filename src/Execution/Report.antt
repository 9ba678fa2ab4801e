-- ===== src/Execution/Report.antt =====
-- src/caqrs/execution/execution_report.py: fills and reports. Constructing one may raise: a numeric
-- field must not be negative, and a reason has at most 400 characters. `BUY` and `SELL` are those of
-- schemas/decision.py.
use caqrs.Prelude.{
  ℕ, Bool, true, String, Text, List, Option, none, some, length, leb, ◌&&◌, Reply, returned, raised,
  if◌then◌else◌,
}
use caqrs.Prelude.Decimal.{Decimal}
use caqrs.Schemas.Decision.{Side}

pub data FillStatus : Type 0 where
  filled rejected submitted : FillStatus

pub data ExecutionStatus : Type 0 where
  filled skipped rejected submitted : ExecutionStatus

-- `status.value`
abbrev pub status_value : ExecutionStatus → String
status_value ExecutionStatus.filled = "filled"
status_value ExecutionStatus.skipped = "skipped"
status_value ExecutionStatus.rejected = "rejected"
status_value ExecutionStatus.submitted = "submitted"

pub record Fill {ℓ} (A : Type ℓ) : Type ℓ where
  pub ticker : String
  pub side : Side
  pub status : FillStatus
  pub quantity : A
  pub fill_price_usd : A
  pub notional_usd : A
  pub reason : Option Text

pub record ExecutionReport {ℓ} (A : Type ℓ) : Type ℓ where
  pub source_decision_run_id : String
  pub status : ExecutionStatus
  pub fills : List (Fill A)
  pub reason : Option Text

abbrev pub reason_limit : ℕ
reason_limit = 400

abbrev pub reason_fits : Option Text → Bool
reason_fits none = true
reason_fits (some reason) = leb (length reason) reason_limit

-- `Fill(…)`
unfoldable pub make_fill {ℓ} : {A : Type ℓ} → Decimal A → Fill A → Reply (Fill A)
make_fill d f =
    if d.leb d.zero f.quantity
      && (d.leb d.zero f.fill_price_usd && (d.leb d.zero f.notional_usd && reason_fits f.reason))
    then returned f
    else raised

-- `ExecutionReport(…)`
unfoldable pub make_report {ℓ} : {A : Type ℓ} → ExecutionReport A → Reply (ExecutionReport A)
make_report r = if reason_fits r.reason then returned r else raised
