-- ===== src/Policy/Gateway/Violations.antt =====
-- Which violations policy/gateway.py collects.
use caqrs.Prelude.{
  Bool, true, false, String, ◌≡◌, ◌↔◌, refl, List, [], ◌∷◌, ◌++◌, Option, none, some, contains,
  count, count-append, arith, if◌then◌else◌, All,
}
use caqrs.Prelude.Decimal.{Decimal, IsOrdered}
use caqrs.Schemas.Decision.{TargetPosition, StrategyDecision}
use caqrs.Policy.Gateway.{
  PolicyViolation, ticker_deny_listed, ticker_not_allowed, PolicyGatewayConfig, has_violations,
  notional_violations, budget_violations, ticker_violations, target_violations, is_not_allowed,
  collect_violations,
}

-- What the account asks of a ticker: not on the deny list, and on the allow list if there is one.
abbrev pub IsPermitted : List String → Option (List String) → String → Type 0
IsPermitted denied none ticker = contains ticker denied ≡ false
IsPermitted denied (some allowed) ticker =
    (contains ticker denied ≡ false) × (contains ticker allowed ≡ true)

module _ {ℓ} {A : Type ℓ} (d : Decimal A) where
  abbrev pub IsWithinCap : StrategyDecision A → Option A → Type 0
  IsWithinCap s none = Unit
  IsWithinCap s (some cap) = d.leb s.notional_cap_usd cap ≡ true

  -- What the account asks of a decision: its size, loss left to lose, and its tickers.
  pub record IsClear (s : StrategyDecision A) (config : PolicyGatewayConfig A) : Type 0 where
    pub within_cap : IsWithinCap s config.account_notional_cap_usd
    pub budget_left : d.leb s.daily_loss_limit_usd config.daily_realized_loss_usd ≡ false
    pub permitted :
        All
          (λ (t : TargetPosition A).
            IsPermitted config.denied_tickers config.allowed_tickers t.ticker)
          s.targets

has_violations-append :
    (xs ys : List PolicyViolation)
    → (has_violations (xs ++ ys) ≡ false)
      ↔ ((has_violations xs ≡ false) × (has_violations ys ≡ false))
has_violations-append [] ys = (λ h. (refl, h), λ h. h.1)
has_violations-append (x ∷ xs) ys = (λ h. cc, λ h. cc (h.0))

ticker_violations_iff :
    (denied : List String) (allowed : Option (List String)) (ticker : String)
    → (has_violations (ticker_violations denied allowed ticker) ≡ false)
      ↔ IsPermitted denied allowed ticker
unfolding ticker_violations is_not_allowed
ticker_violations_iff denied none ticker = (λ h. ground arith, λ h. ground arith)
ticker_violations_iff denied (some allowed) ticker =
    (λ h. (ground arith, ground arith), λ h. ground arith)

target_violations_iff {ℓ} :
    {A : Type ℓ} (denied : List String) (allowed : Option (List String))
    (ts : List (TargetPosition A))
    → (has_violations (target_violations denied allowed ts) ≡ false)
      ↔ All (λ (t : TargetPosition A). IsPermitted denied allowed t.ticker) ts
unfolding target_violations
target_violations_iff denied allowed [] = (λ h. tt, λ h. refl)
target_violations_iff denied allowed (t ∷ ts) =
    let here = ticker_violations_iff denied allowed t.ticker in
    let later = target_violations_iff denied allowed ts in
    let both =
      has_violations-append (ticker_violations denied allowed t.ticker)
        (target_violations denied allowed ts) in
    (λ h. let (a, b) = both.0 h in (here.0 a, later.0 b), λ h. both.1 (here.1 h.0, later.1 h.1))

module _ {ℓ} {A : Type ℓ} (d : Decimal A) where
  notional_violations_iff :
      (s : StrategyDecision A) (cap : Option A)
      → (has_violations (notional_violations d s cap) ≡ false) ↔ IsWithinCap d s cap
  unfolding notional_violations
  notional_violations_iff s none = (λ h. tt, λ h. refl)
  notional_violations_iff s (some cap) = (λ h. ground arith, λ h. ground arith)

  budget_violations_iff :
      IsOrdered d
      → (s : StrategyDecision A) (realized : A)
      → (has_violations (budget_violations d s realized) ≡ false)
        ↔ (d.leb s.daily_loss_limit_usd realized ≡ false)
  unfolding budget_violations
  budget_violations_iff ord s realized =
      let law = ord.sub_leb_zero s.daily_loss_limit_usd realized in
      (λ h. ground (arith, law), λ h. ground (arith, law))

  -- Nothing is collected exactly if the account has nothing against the decision.
  pub collect_violations_iff :
      IsOrdered d
      → (s : StrategyDecision A) (config : PolicyGatewayConfig A)
      → (has_violations (collect_violations d s config) ≡ false) ↔ IsClear d s config
  unfolding collect_violations
  collect_violations_iff ord s config =
      let cap = notional_violations_iff s config.account_notional_cap_usd in
      let loss = budget_violations_iff ord s config.daily_realized_loss_usd in
      let tickers = target_violations_iff config.denied_tickers config.allowed_tickers s.targets in
      let first = has_violations-append (notional_violations d s config.account_notional_cap_usd) (
        budget_violations d s config.daily_realized_loss_usd
        ++ target_violations config.denied_tickers config.allowed_tickers s.targets) in
      let second =
        has_violations-append (budget_violations d s config.daily_realized_loss_usd)
          (target_violations config.denied_tickers config.allowed_tickers s.targets) in
      (
        λ h.
            let (a, rest) = first.0 h in
            let (b, c) = second.0 rest in
            record { within_cap = cap.0 a; budget_left = loss.0 b; permitted = tickers.0 c },
        λ h. first.1 (cap.1 h.within_cap, second.1 (loss.1 h.budget_left, tickers.1 h.permitted)),
      )

abbrev pub is_denial : PolicyViolation → Bool
is_denial v = elim v.kind [ ticker_deny_listed ↦ true | _ ↦ false ]

abbrev pub is_refusal : PolicyViolation → Bool
is_refusal v = elim v.kind [ ticker_not_allowed ↦ true | _ ↦ false ]

ticker_violations_count :
    (denied : List String) (allowed : Option (List String)) (ticker : String)
    → (count is_denial (ticker_violations denied allowed ticker)
        ≡ (if contains ticker denied then 1 else 0))
      × (count is_refusal (ticker_violations denied allowed ticker)
          ≡ (if is_not_allowed allowed ticker then 1 else 0))
unfolding ticker_violations
ticker_violations_count denied allowed ticker = (ground arith, ground arith)

target_violations_count {ℓ} :
    {A : Type ℓ} (denied : List String) (allowed : Option (List String))
    (ts : List (TargetPosition A))
    → (count is_denial (target_violations denied allowed ts)
        ≡ count (λ (t : TargetPosition A). contains t.ticker denied) ts)
      × (count is_refusal (target_violations denied allowed ts)
          ≡ count (λ (t : TargetPosition A). is_not_allowed allowed t.ticker) ts)
unfolding target_violations
target_violations_count denied allowed [] = (refl, refl)
target_violations_count denied allowed (t ∷ ts) =
    let (deny, refuse) = ticker_violations_count denied allowed t.ticker in
    let (denies, refuses) = target_violations_count denied allowed ts in
    let here = ticker_violations denied allowed t.ticker in
    let later = target_violations denied allowed ts in
    (
      ground (arith, count-append is_denial here later, deny, denies),
      ground (arith, count-append is_refusal here later, refuse, refuses),
    )

module _ {ℓ} {A : Type ℓ} (d : Decimal A) where
  account_violations_count :
      (s : StrategyDecision A) (cap : Option A) (realized : A)
      → (count is_denial (notional_violations d s cap) ≡ 0)
        × (count is_denial (budget_violations d s realized) ≡ 0)
        × (count is_refusal (notional_violations d s cap) ≡ 0)
        × (count is_refusal (budget_violations d s realized) ≡ 0)
  unfolding notional_violations budget_violations
  account_violations_count s none realized = (refl, ground arith, refl, ground arith)
  account_violations_count s (some cap) realized =
      (ground arith, ground arith, ground arith, ground arith)

  -- Every target is held against both lists: there are as many denials as targets on the deny list,
  -- and as many refusals as targets that an allow list lacks.
  pub collect_violations_count :
      (s : StrategyDecision A) (config : PolicyGatewayConfig A)
      → (count is_denial (collect_violations d s config)
          ≡ count (λ (t : TargetPosition A). contains t.ticker config.denied_tickers) s.targets)
        × (count is_refusal (collect_violations d s config)
            ≡ count
                (λ (t : TargetPosition A). is_not_allowed config.allowed_tickers t.ticker)
                s.targets)
  unfolding collect_violations
  collect_violations_count s config =
      let cap = notional_violations d s config.account_notional_cap_usd in
      let loss = budget_violations d s config.daily_realized_loss_usd in
      let tickers = target_violations config.denied_tickers config.allowed_tickers s.targets in
      let (a, b, c, e) =
        account_violations_count s config.account_notional_cap_usd config.daily_realized_loss_usd in
      let (denies, refuses) =
        target_violations_count config.denied_tickers config.allowed_tickers s.targets in
      (
        omega (
          arith,
          count-append is_denial cap (loss ++ tickers),
          count-append is_denial loss tickers,
          a,
          b,
          denies,
        ),
        omega (
          arith,
          count-append is_refusal cap (loss ++ tickers),
          count-append is_refusal loss tickers,
          c,
          e,
          refuses,
        ),
      )
