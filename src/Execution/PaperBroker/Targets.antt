-- ===== src/Execution/PaperBroker/Targets.antt =====
-- The holdings that the targets of `execute` in paper_broker.py lead to. The arithmetic is exact here.
use caqrs.Prelude.{
  false, String, List, [], ◌∷◌, ◌++◌, some, returned, if◌then◌else◌, contains, ◌≡◌, refl, sym, ap,
  ◌∙◌, arith, str_eq_iff, str_eq_refl,
}
use caqrs.Prelude.Decimal.{Decimal, IsExact, IsOrdered, lt_dec}
use caqrs.Prelude.Dict.{Dict, get, put, IsDistinct, get-put}
use caqrs.Schemas.Decision.{TargetPosition}
use caqrs.Policy.Gateway.{FeasibleAction}
use caqrs.Execution.Report.{ExecutionReport, ExecutionStatus}
use caqrs.Execution.PaperBroker.Guards.{execute_filled, execute_rebalances}
use caqrs.Execution.PaperBroker.{
  PaperBroker, Position, execute, target_tickers, price_of, held, target_quantities, zero_targets,
  add_targets, equity,
}
use caqrs.Execution.PaperBroker.Rebalance.{rebalance-held, wanted_of}

module _ {ℓ} {A : Type ℓ} (d : Decimal A) where
  -- The quantity that a target asks for, at an equity and a price.
  abbrev pub quantity_at : A → Dict A → TargetPosition A → A
  quantity_at worth prices t =
      let price = price_of d prices t.ticker in
      if lt_dec d d.zero price then d.div (d.mul worth t.weight) price else d.zero

  get-add_targets_absent :
      (worth : A) (prices : Dict A) (targets : List (TargetPosition A)) (wanted : Dict A)
      (u : String)
      → contains u (target_tickers d targets) ≡ false
      → get u (add_targets d worth prices targets wanted) ≡ get u wanted
  unfolding add_targets contains
  get-add_targets_absent worth prices [] wanted u h = refl
  get-add_targets_absent worth prices (t ∷ ts) wanted u h =
      let q = quantity_at worth prices t in
      get-add_targets_absent worth prices ts (put t.ticker q wanted) u (ground arith)
      ∙ ground (arith, get-put t.ticker u q wanted, str_eq_iff t.ticker u, str_eq_iff u t.ticker)

  get-add_targets :
      (worth : A) (prices : Dict A) (before : List (TargetPosition A)) (t : TargetPosition A)
      (after : List (TargetPosition A)) (wanted : Dict A)
      → contains t.ticker (target_tickers d after) ≡ false
      → get t.ticker (add_targets d worth prices (before ++ t ∷ after) wanted)
        ≡ some (quantity_at worth prices t)
  unfolding add_targets
  get-add_targets worth prices [] t after wanted h =
      let q = quantity_at worth prices t in
      get-add_targets_absent worth prices after (put t.ticker q wanted) t.ticker h
      ∙ ground (arith, get-put t.ticker t.ticker q wanted, str_eq_refl t.ticker)
  get-add_targets worth prices (s ∷ before) t after wanted h =
      get-add_targets worth prices before t after (put s.ticker (quantity_at worth prices s) wanted)
        h

  get-zero_targets :
      (positions : Dict (Position A)) (u : String) (pos : Position A)
      → get u positions ≡ some pos
      → get u (zero_targets d positions) ≡ some d.zero
  unfolding zero_targets get
  get-zero_targets [] u pos h = cc
  get-zero_targets ((t, p) ∷ rest) u pos h = ground (arith, get-zero_targets rest u pos)

module _ {ℓ} {A : Type ℓ} (d : Decimal A) (exact : IsExact d) (ordered : IsOrdered d) where
  execute-held :
      (b : PaperBroker A) (action : FeasibleAction A) (prices : Dict A) (u : String) {w : A}
      {r : ExecutionReport A}
      → IsDistinct b.positions
      → get u (wanted_of d exact ordered b action prices) ≡ some w
      → (execute d b action prices).0 ≡ returned r
      → r.status ≡ ExecutionStatus.filled
      → held d (execute d b action prices).1.positions u ≡ w
  execute-held b action prices u distinct h ran filled =
      let (adopted, priced) = execute_filled d b action prices ran filled in
      let same = execute_rebalances d b action prices adopted priced in
      ap (λ e. held d e.1.positions u) same
      ∙ rebalance-held d exact ordered b action prices u distinct h (sym (ap (λ e. e.0) same) ∙ ran)

  -- After a FILLED report the holding of a target's ticker is the equity before times the weight over
  -- the price, or zero at a price that is not positive, where no later target has the ticker, a ticker
  -- had at most one position and the arithmetic is exact.
  pub execute_reaches_target :
      (b : PaperBroker A) (action : FeasibleAction A) (prices : Dict A)
      (before : List (TargetPosition A)) (t : TargetPosition A) (after : List (TargetPosition A))
      {r : ExecutionReport A}
      → IsDistinct b.positions
      → action.targets ≡ before ++ t ∷ after
      → contains t.ticker (target_tickers d after) ≡ false
      → (execute d b action prices).0 ≡ returned r
      → r.status ≡ ExecutionStatus.filled
      → held d (execute d b action prices).1.positions t.ticker
        ≡ quantity_at d (equity d b prices) prices t
  unfolding target_quantities
  execute_reaches_target b action prices before t after distinct split last ran filled =
      execute-held b action prices t.ticker distinct
        (ap
            (λ ts.
              get t.ticker
                (add_targets d (equity d b prices) prices ts (zero_targets d b.positions)))
            split
          ∙ get-add_targets d (equity d b prices) prices before t after (zero_targets d b.positions)
              last)
        ran filled

  -- After a FILLED report nothing is held of a ticker that was held and is in no target,
  -- where a ticker had at most one position and the arithmetic is exact.
  pub execute_closes :
      (b : PaperBroker A) (action : FeasibleAction A) (prices : Dict A) (u : String)
      {pos : Position A} {r : ExecutionReport A}
      → IsDistinct b.positions
      → get u b.positions ≡ some pos
      → contains u (target_tickers d action.targets) ≡ false
      → (execute d b action prices).0 ≡ returned r
      → r.status ≡ ExecutionStatus.filled
      → held d (execute d b action prices).1.positions u ≡ d.zero
  unfolding target_quantities
  execute_closes b action prices u {pos = pos} distinct there dropped ran filled =
      execute-held b action prices u distinct
        (get-add_targets_absent d (equity d b prices) prices action.targets
            (zero_targets d b.positions) u dropped
          ∙ get-zero_targets d b.positions u pos there)
        ran filled
