-- ===== src/Policy/LossBudget/Days.antt =====
-- The baseline of loss_budget_tracker.py over a run of day marks, and the kill switch that the tracker
-- and the gateway make together.
use native.Mathlib.Decide.{dec_lt}
use caqrs.Prelude.{
  ℕ, ◌≤◌, ◌<◌, true, List, [], ◌∷◌, Option, none, some, ◌==◌, returned, if◌then◌else◌, ◌≡◌, ◌≢◌,
  ◌↔◌, refl, sym, subst, arith, max, ◌∙◌, inl, inr, Bool-cases,
}
use caqrs.Prelude.Decimal.{Decimal, IsOrdered}
use caqrs.Schemas.Decision.{adopt, StrategyDecision, decision_is_valid}
use caqrs.Policy.Gateway.{PolicyGatewayConfig, FeasibleAction, apply_policy_gateway}
use caqrs.Policy.Gateway.Outcome.{apply_policy_gateway_iff, apply_policy_gateway_total}
use caqrs.Policy.LossBudget.{
  LossBudgetTracker, fresh, snapshot, mark_start_of_day, today_realized_loss_usd,
}

module _ {ℓ} {A : Type ℓ} where
  -- One mark after another; a mark that raises is dropped.
  abbrev pub run : List (ℕ × A) → LossBudgetTracker A → LossBudgetTracker A
  run [] t = t
  run ((today, pnl) ∷ marks) t = run marks (mark_start_of_day t today pnl).1

  -- The latest day of the marks, and the figure of the first mark of a day.
  abbrev pub latest : ℕ → List (ℕ × A) → ℕ
  latest day [] = day
  latest day ((today, pnl) ∷ marks) = latest (max day today) marks

  abbrev pub first_of : ℕ → List (ℕ × A) → Option A
  first_of day [] = none
  first_of day ((today, pnl) ∷ marks) =
      let later = first_of day marks in if today == day then some pnl else later

  le-latest : (day : ℕ) (marks : List (ℕ × A)) → day ≤ latest day marks
  le-latest day [] = omega arith
  le-latest day ((today, pnl) ∷ marks) = omega (arith, le-latest (max day today) marks)

  abbrev pub Holds : LossBudgetTracker A → ℕ → List (ℕ × A) → Type ℓ
  Holds t day marks = (t.current_day ≡ some day) × (t.baseline_pnl_usd ≡ first_of day marks)

  mark_later :
      (day today : ℕ) (pnl next : A)
      → day < today
      → (mark_start_of_day (snapshot day pnl) today next).1 ≡ snapshot today next
  unfolding mark_start_of_day
  mark_later day today pnl next h = ground arith

  mark_not_later :
      (day today : ℕ) (pnl next : A)
      → today ≤ day
      → (mark_start_of_day (snapshot day pnl) today next).1 ≡ snapshot day pnl
  unfolding mark_start_of_day
  mark_not_later day today pnl next h = ground arith

  run_from :
      (marks : List (ℕ × A)) (day : ℕ) (pnl : A)
      → Holds (run marks (snapshot day pnl)) (latest day marks) ((day, pnl) ∷ marks)
  run_from [] day pnl = unfold snapshot in (refl, ground arith)
  run_from ((today, next) ∷ marks) day pnl =
      let stay = run_from marks day pnl in
      let move = run_from marks today next in
      let next_day = latest (max day today) marks in
      let all_marks : List (ℕ × A) = (day, pnl) ∷ (today, next) ∷ marks in
      elim (dec_lt day today) [
        | yes later ↦
            let day_eq : max day today ≡ today = omega arith in
            subst (λ t. Holds (run marks t) next_day all_marks)
              (sym (mark_later day today pnl next later))
              (subst (λ n. Holds (run marks (snapshot today next)) (latest n marks) all_marks)
                (sym day_eq) (move.0, ground (arith, move.1, le-latest today marks)))
        | no earlier ↦
            let day_eq : max day today ≡ day = omega arith in
            subst (λ t. Holds (run marks t) next_day all_marks)
              (sym (mark_not_later day today pnl next (omega arith)))
              (subst (λ n. Holds (run marks (snapshot day pnl)) (latest n marks) all_marks)
                (sym day_eq) (stay.0, ground (arith, stay.1, le-latest day marks)))
      ]

  -- Whatever days are marked, in whatever order, a new tracker is on the latest of them, and its
  -- baseline is the figure of the first mark of that day: a second mark of a day keeps the baseline,
  -- and an earlier day is refused.
  pub run-fresh :
      (today : ℕ) (pnl : A) (marks : List (ℕ × A))
      → let t = run ((today, pnl) ∷ marks) fresh in
        (t.current_day ≡ some (latest today marks))
        × (t.baseline_pnl_usd ≡ first_of (latest today marks) ((today, pnl) ∷ marks))
  unfolding mark_start_of_day
  run-fresh today pnl marks = run_from marks today pnl

module _ {ℓ} {A : Type ℓ} (d : Decimal A) (ord : IsOrdered d) where
  -- The loss of the day is never negative, and it is zero exactly while the figure is at least the
  -- baseline.
  pub today_realized_loss_usd_bounds :
      (t : LossBudgetTracker A) (baseline pnl loss : A)
      → t.baseline_pnl_usd ≡ some baseline
      → today_realized_loss_usd d t pnl ≡ returned loss
      → (d.leb d.zero loss ≡ true) × ((d.leb loss d.zero ≡ true) ↔ (d.leb baseline pnl ≡ true))
  unfolding today_realized_loss_usd
  today_realized_loss_usd_bounds t baseline pnl loss marked h =
      let law = ord.sub_leb_zero baseline pnl in
      let self = ord.leb_refl d.zero in
      let sign = ord.leb_total (d.sub baseline pnl) d.zero in
      (
        ground (arith, law, self, sign),
        (λ e. ground (arith, law, self), λ e. ground (arith, law, self)),
      )

  -- Where the drop from a baseline reaches a limit, the loss that the tracker computes does too: a drop
  -- that is not positive counts as no loss, but then the limit is not positive either.
  loss_reaches :
      (t : LossBudgetTracker A) (baseline pnl limit : A)
      → t.baseline_pnl_usd ≡ some baseline
      → d.leb limit (d.sub baseline pnl) ≡ true
      → (loss : A) × (today_realized_loss_usd d t pnl ≡ returned loss) × (d.leb limit loss ≡ true)
  unfolding today_realized_loss_usd
  loss_reaches t baseline pnl limit marked dropped =
      let delta = d.sub baseline pnl in
      elim (Bool-cases (d.leb delta d.zero)) [
        | inl gain ↦ (d.zero, rw (marked, gain) refl, ord.leb_trans limit delta d.zero dropped gain)
        | inr drop ↦ (delta, rw (marked, drop) refl, dropped)
      ]

  -- The kill switch of the day. A new tracker is marked at least once, with days in any order, and the
  -- profit and loss has fallen by at least a valid decision's daily limit from the figure of the first
  -- mark of the latest day. Then the tracker tells a loss, and the gateway, configured with that loss,
  -- answers with an action that is not ADOPT.
  pub no_adoption_after_loss :
      (today : ℕ) (first : A) (marks : List (ℕ × A)) (pnl : A) (s : StrategyDecision A)
      (config : PolicyGatewayConfig A) {baseline : A}
      → decision_is_valid d s ≡ true
      → first_of (latest today marks) ((today, first) ∷ marks) ≡ some baseline
      → d.leb s.daily_loss_limit_usd (d.sub baseline pnl) ≡ true
      → (loss : A) × (today_realized_loss_usd d (run ((today, first) ∷ marks) fresh) pnl
          ≡ returned loss)
        × (f : FeasibleAction A) × (apply_policy_gateway d s
              (record config { daily_realized_loss_usd = loss })
            ≡ returned f)
        × (f.action ≢ adopt)
  no_adoption_after_loss today first marks pnl s config {baseline} valid marked dropped =
      let tracker = run ((today, first) ∷ marks) fresh in
      let (day, first_mark) = run-fresh today first marks in
      let (loss, told, reached) =
        loss_reaches tracker baseline pnl s.daily_loss_limit_usd (first_mark ∙ marked) dropped in
      let config' : PolicyGatewayConfig A = record config { daily_realized_loss_usd = loss } in
      let answered = apply_policy_gateway_total d s config' valid in
      (
        loss,
        told,
        _,
        answered,
        λ adopted.
            let clear = ((apply_policy_gateway_iff d ord s config' valid answered).0 adopted).1 in
            cc (reached, clear.budget_left),
      )
