-- ===== src/Policy/LossBudget/Tests.antt =====
-- Runs of the tracker of loss_budget_tracker.py on whole numbers.
use caqrs.Prelude.{ℕ, true, List, [], ◌∷◌, some, ◌≡◌, ◌≢◌, ◌↔◌, refl, returned, contains}
use caqrs.Prelude.Int.{ℤ, pos, negsuc, ◌+ℤ◌, ◌-ℤ◌}
use caqrs.Prelude.Decimal.Whole.{whole, whole-IsOrdered}
use caqrs.Schemas.Decision.{
  adopt, buy, StrategyDecision, decision_is_valid, weights_within_envelope, no_duplicate_tickers,
}
use caqrs.Policy.Gateway.{FeasibleAction, apply_policy_gateway, empty_config}
use caqrs.Policy.LossBudget.{LossBudgetTracker, fresh, today_realized_loss_usd}
use caqrs.Policy.LossBudget.Days.{
  run, run-fresh, today_realized_loss_usd_bounds, no_adoption_after_loss,
}

-- Two days are marked, one of them twice, and then the first day again.
abbrev marks : List (ℕ × ℤ)
marks = (100, pos 8) ∷ (101, pos 5) ∷ (101, pos 40) ∷ (100, pos 9) ∷ []

run-fresh_example :
    ((run ((100, pos 7) ∷ marks) fresh).current_day ≡ some 101)
    × ((run ((100, pos 7) ∷ marks) fresh).baseline_pnl_usd ≡ some (pos 5))
run-fresh_example = run-fresh 100 (pos 7) marks

abbrev second_day : LossBudgetTracker ℤ
second_day = record { baseline_pnl_usd = some (pos 5); current_day = some 101 }

loss : today_realized_loss_usd whole second_day (negsuc 14) ≡ returned (pos 20)
unfolding today_realized_loss_usd ◌-ℤ◌
loss = refl

today_realized_loss_usd_bounds_test :
    (whole.leb whole.zero (pos 20) ≡ true)
    × ((whole.leb (pos 20) whole.zero ≡ true) ↔ (whole.leb (pos 5) (negsuc 14) ≡ true))
today_realized_loss_usd_bounds_test =
    today_realized_loss_usd_bounds whole whole-IsOrdered second_day (pos 5) (negsuc 14) (pos 20)
      refl loss

abbrev decision : StrategyDecision ℤ
decision = record {
  run_id = "run-1";
  action = adopt;
  targets = record { ticker = "NVDA"; side = buy; weight = pos 1 } ∷ [];
  notional_cap_usd = pos 500;
  max_position_weight = pos 1;
  daily_loss_limit_usd = pos 20;
}

decision-IsValid : decision_is_valid whole decision ≡ true
unfolding decision_is_valid weights_within_envelope no_duplicate_tickers contains ◌+ℤ◌
decision-IsValid = refl

drop : whole.leb (pos 20) (whole.sub (pos 5) (negsuc 14)) ≡ true
unfolding ◌-ℤ◌
drop = refl

no_adoption_after_loss_example :
    (loss : ℤ) × (today_realized_loss_usd whole (run ((100, pos 7) ∷ marks) fresh) (negsuc 14)
      ≡ returned loss)
    × (f : FeasibleAction ℤ) × (apply_policy_gateway whole decision
          (record (empty_config whole) { daily_realized_loss_usd = loss })
        ≡ returned f)
    × (f.action ≢ adopt)
no_adoption_after_loss_example =
    no_adoption_after_loss whole whole-IsOrdered 100 (pos 7) marks (negsuc 14) decision
      (empty_config whole) decision-IsValid refl drop
