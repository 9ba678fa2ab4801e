-- ===== src/Execution/PaperBroker/Worth.antt =====
-- The equity of paper_broker.py at one set of prices, through the trades of `execute`. The
-- arithmetic is exact here: rounding may create or lose the last digit.
use caqrs.Prelude.{
  String, List, [], ◌∷◌, Reply, returned, ◌≡◌, refl, sym, ap, ◌∙◌, Nil-cases, Bool-cases, subst,
  inl, inr,
}
use caqrs.Prelude.Decimal.{Decimal, IsExact, IsOrdered}
use caqrs.Prelude.Dict.{Dict, put, IsDistinct, put-IsDistinct, remove-IsDistinct}
use caqrs.Schemas.Decision.{Side}
use caqrs.Policy.Gateway.{FeasibleAction}
use caqrs.Execution.Report.{ExecutionReport, Fill}
use caqrs.Execution.PaperBroker.Holdings.{
  swap, cancel, zero_add, sum_values-put, sum_values-remove, sold_part, apply_sell-cash,
  apply_sell-positions, apply_buy-cash, apply_buy-positions,
}
use caqrs.Execution.PaperBroker.Orders.{
  AtPrices, compute_deltas-AtPrices, run_orders-nil, run_orders-cons, orders_of, sold,
  rebalance-parts,
}
use caqrs.Execution.PaperBroker.Guards.{execute_skips, execute_rebalances, execute_rejects}
use caqrs.Schemas.Decision.{is_adopt}
use caqrs.Execution.PaperBroker.{
  missing_prices, involved_tickers, target_quantities, PaperBroker, Order, execute, rebalance,
  equity, sum_values, price_of, held, apply_sell, apply_buy, run_orders,
}

module _ {ℓ} {A : Type ℓ} (d : Decimal A) (exact : IsExact d) (ordered : IsOrdered d) where
  -- The positions lose by a sale what the cash gains.
  apply_sell-worth :
      (prices : Dict A) (b : PaperBroker A) (t : String) (o : Order A)
      → IsDistinct b.positions
      → (apply_sell d b t o).0 ≡ returned tt
      → d.add
          (sum_values d d.zero prices (apply_sell d b t o).1.positions)
          (d.mul o.qty (price_of d prices t))
        ≡ sum_values d d.zero prices b.positions
  apply_sell-worth prices b t o distinct h =
      let q = held d b.positions t in
      let price = price_of d prices t in
      elim (apply_sell-positions d exact b t o h) [
        | inl (below, above, removed) ↦
            let all_sold : q ≡ o.qty =
              sym (exact.sub_add q o.qty)
              ∙ (ap (λ x. d.add x o.qty) (ordered.leb_antisym (d.sub q o.qty) d.zero below above)
                  ∙ zero_add d exact o.qty) in
            rw (removed, ← all_sold) (sum_values-remove d exact prices t b.positions distinct)
        | inr (p, left, made) ↦ rw made (
            cancel d exact
              (d.add (sum_values d d.zero prices (put t p b.positions)) (d.mul o.qty price))
              (sum_values d d.zero prices b.positions) (d.mul (d.sub q o.qty) price)
              (swap d exact (sum_values d d.zero prices (put t p b.positions)) (d.mul o.qty price)
                  (d.mul (d.sub q o.qty) price)
                ∙ (exact.add_assoc (sum_values d d.zero prices (put t p b.positions))
                      (d.mul (d.sub q o.qty) price) (d.mul o.qty price)
                    ∙ (ap (d.add (sum_values d d.zero prices (put t p b.positions)))
                          (sold_part d exact prices t q o.qty)
                        ∙ (sum_values-put d exact prices t p b.positions
                            ∙ ap
                                (λ x.
                                  d.add (sum_values d d.zero prices b.positions) (d.mul x price))
                                left)))))
      ]

  -- The positions gain by a purchase what the cash loses.
  apply_buy-worth :
      (prices : Dict A) (b : PaperBroker A) (t : String) (o : Order A)
      → (apply_buy d b t o).0 ≡ returned tt
      → sum_values d d.zero prices (apply_buy d b t o).1.positions
        ≡ d.add (sum_values d d.zero prices b.positions) (d.mul o.qty (price_of d prices t))
  apply_buy-worth prices b t o h =
      let q = held d b.positions t in
      let price = price_of d prices t in
      let (p, sum, made) = apply_buy-positions d exact b t o h in
      rw made (
        cancel d exact (sum_values d d.zero prices (put t p b.positions))
          (d.add (sum_values d d.zero prices b.positions) (d.mul o.qty price)) (d.mul q price)
          (sum_values-put d exact prices t p b.positions
            ∙ (ap (λ x. d.add (sum_values d d.zero prices b.positions) x)
                  (ap (λ x. d.mul x price) sum
                    ∙ (exact.mul_add q o.qty price
                        ∙ exact.add_comm (d.mul q price) (d.mul o.qty price)))
                ∙ sym (
                    exact.add_assoc (sum_values d d.zero prices b.positions) (d.mul o.qty price)
                      (d.mul q price)))))

  apply_sell-equity :
      (prices : Dict A) (b : PaperBroker A) (t : String) (o : Order A)
      → o.price ≡ price_of d prices t
      → IsDistinct b.positions
      → (apply_sell d b t o).0 ≡ returned tt
      → equity d (apply_sell d b t o).1 prices ≡ equity d b prices
  unfolding equity
  apply_sell-equity prices b t o at_price distinct h =
      rw (equity, apply_sell-cash d exact b t o h ∙ ap (λ x. d.add b.cash (d.mul o.qty x)) at_price)
        (exact.add_assoc b.cash (d.mul o.qty (price_of d prices t))
            (sum_values d d.zero prices (apply_sell d b t o).1.positions)
          ∙ ap (d.add b.cash) (
              exact.add_comm (d.mul o.qty (price_of d prices t))
                (sum_values d d.zero prices (apply_sell d b t o).1.positions)
              ∙ apply_sell-worth prices b t o distinct h))

  apply_buy-equity :
      (prices : Dict A) (b : PaperBroker A) (t : String) (o : Order A)
      → o.price ≡ price_of d prices t
      → (apply_buy d b t o).0 ≡ returned tt
      → equity d (apply_buy d b t o).1 prices ≡ equity d b prices
  unfolding equity
  apply_buy-equity prices b t o at_price h =
      rw
        (
          equity,
          apply_buy-cash d exact b t o h ∙ ap (λ x. d.sub b.cash (d.mul o.qty x)) at_price,
          apply_buy-worth prices b t o h,
        )
        (ap (d.add (d.sub b.cash (d.mul o.qty (price_of d prices t)))) (
            exact.add_comm (sum_values d d.zero prices b.positions)
              (d.mul o.qty (price_of d prices t)))
          ∙ (sym (
                exact.add_assoc (d.sub b.cash (d.mul o.qty (price_of d prices t)))
                  (d.mul o.qty (price_of d prices t)) (sum_values d d.zero prices b.positions))
              ∙ ap (λ x. d.add x (sum_values d d.zero prices b.positions))
                  (exact.sub_add b.cash (d.mul o.qty (price_of d prices t)))))

  apply_sell-IsDistinct :
      (b : PaperBroker A) (t : String) (o : Order A)
      → IsDistinct b.positions
      → (apply_sell d b t o).0 ≡ returned tt
      → IsDistinct (apply_sell d b t o).1.positions
  apply_sell-IsDistinct b t o distinct h = elim (apply_sell-positions d exact b t o h) [
    | inl (_, _, removed) ↦
        subst IsDistinct (sym removed) (remove-IsDistinct t b.positions distinct)
    | inr (p, _, made) ↦ subst IsDistinct (sym made) (put-IsDistinct t p b.positions distinct)
  ]

  apply_buy-IsDistinct :
      (b : PaperBroker A) (t : String) (o : Order A)
      → IsDistinct b.positions
      → (apply_buy d b t o).0 ≡ returned tt
      → IsDistinct (apply_buy d b t o).1.positions
  apply_buy-IsDistinct b t o distinct h =
      let (p, _, made) = apply_buy-positions d exact b t o h in
      subst IsDistinct (sym made) (put-IsDistinct t p b.positions distinct)

  -- A step keeps the equity and the keys of the positions, where it returns.
  abbrev IsFair :
      Dict A → (PaperBroker A → String → Order A → Reply (Unit {0}) × PaperBroker A) → Type ℓ
  IsFair prices step =
      (b : PaperBroker A) (t : String) (o : Order A)
      → o.price ≡ price_of d prices t
      → IsDistinct b.positions
      → (step b t o).0 ≡ returned tt
      → IsDistinct (step b t o).1.positions × (equity d (step b t o).1 prices ≡ equity d b prices)

  run_orders-equity :
      (prices : Dict A) (step : PaperBroker A → String → Order A → Reply (Unit {0}) × PaperBroker A)
      (side : Side) (orders : Dict (Order A)) (b : PaperBroker A) {fills : List (Fill A)}
      → IsFair prices step
      → AtPrices d prices orders
      → IsDistinct b.positions
      → (run_orders d step side orders b).0 ≡ returned fills
      → IsDistinct (run_orders d step side orders b).1.positions
        × (equity d (run_orders d step side orders b).1 prices ≡ equity d b prices)
  run_orders-equity prices step side [] b fair hs distinct h =
      rw (run_orders-nil d step side b) (distinct, refl)
  run_orders-equity prices step side ((t, o) ∷ rest) b fair hs distinct h =
      let (done, fs, ran, same) = run_orders-cons d step side t o rest b h in
      let (distinct', kept) = fair b t o hs.0 distinct done in
      let (distinct'', kept') =
        run_orders-equity prices step side rest (step b t o).1 fair hs.1 distinct' ran in
      rw same (distinct'', kept' ∙ kept)

  rebalance-equity :
      (b : PaperBroker A) (action : FeasibleAction A) (prices : Dict A) {r : ExecutionReport A}
      → IsDistinct b.positions
      → (rebalance d b action prices).0 ≡ returned r
      → IsDistinct (rebalance d b action prices).1.positions
        × (equity d (rebalance d b action prices).1 prices ≡ equity d b prices)
  rebalance-equity b action prices distinct h =
      let (_, _, sells_done, buys_done, same, _) = rebalance-parts d b action prices h in
      let wanted = target_quantities d b prices action.targets in
      let priced = compute_deltas-AtPrices d b.positions prices wanted in
      let (distinct', kept) =
        run_orders-equity prices (apply_sell d) Side.sell (orders_of d b action prices).0 b
          (λ c t o p s e. (apply_sell-IsDistinct c t o s e, apply_sell-equity prices c t o p s e))
          priced.0 distinct sells_done in
      let (distinct'', kept') =
        run_orders-equity prices (apply_buy d) Side.buy (orders_of d b action prices).1
          (sold d b action prices).1
          (λ c t o p s e. (apply_buy-IsDistinct c t o s e, apply_buy-equity prices c t o p e))
          priced.1 distinct' buys_done in
      rw same (distinct'', kept' ∙ kept)

  -- Where a ticker has at most one position and the arithmetic is exact, a call of `execute` that
  -- returns keeps the equity at the prices it was given, whatever it reports, and a ticker still has
  -- at most one position.
  pub execute-equity :
      (b : PaperBroker A) (action : FeasibleAction A) (prices : Dict A) {r : ExecutionReport A}
      → IsDistinct b.positions
      → (execute d b action prices).0 ≡ returned r
      → IsDistinct (execute d b action prices).1.positions
        × (equity d (execute d b action prices).1 prices ≡ equity d b prices)
  execute-equity b action prices distinct h = elim (Bool-cases (is_adopt action.action)) [
    | inr skipped ↦ rw (execute_skips d b action prices skipped) (distinct, refl)
    | inl adopted ↦
        elim (Nil-cases (missing_prices d prices (involved_tickers d b action.targets))) [
          | inr (m, ms, missing) ↦
              rw (execute_rejects d b action prices adopted missing) (distinct, refl)
          | inl priced ↦
              let same = execute_rebalances d b action prices adopted priced in
              rw same (rebalance-equity b action prices distinct (sym (ap (λ e. e.0) same) ∙ h))
        ]
  ]
