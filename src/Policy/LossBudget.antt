-- ===== src/Policy/LossBudget.antt =====
-- src/caqrs/policy/loss_budget_tracker.py: the tracker that turns a broker's cumulative profit and loss
-- into the loss of the day. A date is its ordinal; the source of the figure is the figure.
pub mod Days
mod Tests
use caqrs.Prelude.{
  ℕ, Bool, true, Option, none, some, ltb, ◌==◌, not, Reply, returned, raised, if◌then◌else◌,
}
use caqrs.Prelude.Decimal.{Decimal, lt_dec}

pub record LossBudgetTracker {ℓ} (A : Type ℓ) : Type ℓ where
  pub baseline_pnl_usd : Option A
  pub current_day : Option ℕ

-- `__init__`
abbrev pub fresh {ℓ} : {A : Type ℓ} → LossBudgetTracker A
fresh = record { baseline_pnl_usd = none; current_day = none }

module _ {ℓ} {A : Type ℓ} where
  snapshot : ℕ → A → LossBudgetTracker A
  snapshot today pnl = record { baseline_pnl_usd = some pnl; current_day = some today }

  -- The answer is `raised` for a day that is earlier than the current one.
  unfoldable pub mark_start_of_day :
      LossBudgetTracker A → ℕ → A → Reply (Unit {0}) × LossBudgetTracker A
  unfolding snapshot
  mark_start_of_day t today pnl = elim t.current_day [
    | none ↦ (returned tt, snapshot today pnl)
    | some day ↦
        if ltb today day
        then (raised, t)
        else if today == day
        then (returned tt, t)
        else (returned tt, snapshot today pnl)
  ]

  unfoldable pub today_realized_loss_usd : Decimal A → LossBudgetTracker A → A → Reply A
  today_realized_loss_usd d t pnl = elim t.baseline_pnl_usd [
    | none ↦ raised
    | some baseline ↦
        let delta = d.sub baseline pnl in returned (if lt_dec d d.zero delta then delta else d.zero)
  ]
