-- ===== src/Schemas/Decision.antt =====
-- src/caqrs/schemas/decision.py: the strategy decision and its validators. Of the metadata only the
-- run id is read; the rationale, the schema version and the backtest id are not.
use caqrs.Prelude.{
  Bool, true, false, String, List, [], ◌∷◌, not, ◌&&◌, all, contains, leb, length, if◌then◌else◌,
}
use caqrs.Prelude.Decimal.{Decimal, lt_dec}

pub data DecisionAction : Type 0 where
  adopt reject defer : DecisionAction

abbrev pub is_adopt : DecisionAction → Bool
is_adopt adopt = true
is_adopt reject = false
is_adopt defer = false

-- `action.value`
abbrev pub action_value : DecisionAction → String
action_value adopt = "adopt"
action_value reject = "reject"
action_value defer = "defer"

pub data Side : Type 0 where
  buy sell : Side

pub record TargetPosition {ℓ} (A : Type ℓ) : Type ℓ where
  pub ticker : String
  pub side : Side
  pub weight : A

pub record StrategyDecision {ℓ} (A : Type ℓ) : Type ℓ where
  pub run_id : String
  pub action : DecisionAction
  pub targets : List (TargetPosition A)
  pub notional_cap_usd : A
  pub max_position_weight : A
  pub daily_loss_limit_usd : A

abbrev pub has_targets {ℓ} : {A : Type ℓ} → List (TargetPosition A) → Bool
has_targets [] = false
has_targets (t ∷ ts) = true

-- `_adopt_requires_targets`, which `FeasibleAction` repeats.
abbrev pub targets_fit_action {ℓ} : {A : Type ℓ} → DecisionAction → List (TargetPosition A) → Bool
targets_fit_action action targets =
    if is_adopt action then has_targets targets else not (has_targets targets)

-- `_no_duplicate_tickers`
unfoldable pub no_duplicate_tickers {ℓ} :
    {A : Type ℓ} → List (TargetPosition A) → List String → Bool
no_duplicate_tickers [] seen = true
no_duplicate_tickers (t ∷ ts) seen =
    not (contains t.ticker seen) && no_duplicate_tickers ts (t.ticker ∷ seen)

module _ {ℓ} {A : Type ℓ} (d : Decimal A) where
  -- The bounds of the field `weight`.
  abbrev pub weight_in_range : TargetPosition A → Bool
  weight_in_range t = lt_dec d d.zero t.weight && d.leb t.weight d.one

  -- `sum(…, start=Decimal(0))`
  abbrev pub sum_weights : A → List (TargetPosition A) → A
  sum_weights acc [] = acc
  sum_weights acc (t ∷ ts) = sum_weights (d.add acc t.weight) ts

  -- `_weights_within_envelope`
  unfoldable pub weights_within_envelope : StrategyDecision A → Bool
  weights_within_envelope s =
      all (λ t. d.leb t.weight s.max_position_weight) s.targets
      && d.leb (sum_weights d.zero s.targets) d.one

  -- The construction of a decision succeeds.
  unfoldable pub decision_is_valid : StrategyDecision A → Bool
  decision_is_valid s =
      targets_fit_action s.action s.targets
      && (all weight_in_range s.targets
          && (leb (length s.targets) 500
              && (d.leb d.zero s.notional_cap_usd
                  && (d.leb d.zero s.daily_loss_limit_usd
                      && (lt_dec d d.zero s.max_position_weight
                          && (d.leb s.max_position_weight d.one
                              && (weights_within_envelope s
                                  && no_duplicate_tickers s.targets [])))))))
