-- ===== src/Execution/PaperBroker/Orders.antt =====
-- The orders of `execute` in paper_broker.py: their prices, and the loop that carries them out.
use caqrs.Prelude.{
  String, List, [], ◌∷◌, ◌++◌, Reply, returned, ◌≡◌, refl, arith, Bool-cases, Returned-cases,
  Reply-cases, All, str_le, inl, inr,
}
use caqrs.Prelude.Decimal.{Decimal, lt_dec}
use caqrs.Prelude.Dict.{Dict}
use caqrs.Prelude.Sort.{sort_by_key, insert_sorted}
use caqrs.Schemas.Decision.{Side}
use caqrs.Policy.Gateway.{FeasibleAction}
use caqrs.Execution.Report.{ExecutionReport, make_fill, make_report, Fill}
use caqrs.Execution.PaperBroker.{
  target_quantities, PaperBroker, Position, Order, rebalance, price_of, held, apply_sell, apply_buy,
  run_orders, order_fill, deltas, compute_deltas,
}

module _ {ℓ} {A : Type ℓ} (d : Decimal A) where
  -- Each order stands at the price of its ticker.
  abbrev pub AtPrices : Dict A → Dict (Order A) → Type ℓ
  AtPrices prices = All (λ e. e.1.price ≡ price_of d prices e.0)

  insert_sorted-AtPrices :
      (prices : Dict A) (t : String) (o : Order A) (orders : Dict (Order A))
      → o.price ≡ price_of d prices t
      → AtPrices prices orders
      → AtPrices prices (insert_sorted t o orders)
  unfolding insert_sorted
  insert_sorted-AtPrices prices t o [] h hs = (h, tt)
  insert_sorted-AtPrices prices t o ((u, q) ∷ rest) h hs = elim (Bool-cases (str_le t u)) [
    | inl first ↦ rw first (h, hs)
    | inr later ↦ rw later (hs.0, insert_sorted-AtPrices prices t o rest h hs.1)
  ]

  pub sort_by_key-AtPrices :
      (prices : Dict A) (orders : Dict (Order A))
      → AtPrices prices orders
      → AtPrices prices (sort_by_key orders)
  unfolding sort_by_key
  sort_by_key-AtPrices prices [] hs = tt
  sort_by_key-AtPrices prices ((t, o) ∷ rest) hs =
      insert_sorted-AtPrices prices t o (sort_by_key rest) hs.0
        (sort_by_key-AtPrices prices rest hs.1)

  pub deltas-AtPrices :
      (positions : Dict (Position A)) (prices wanted : Dict A)
      → AtPrices prices (deltas d positions prices wanted).0
        × AtPrices prices (deltas d positions prices wanted).1
  unfolding deltas
  deltas-AtPrices positions prices [] = (tt, tt)
  deltas-AtPrices positions prices ((t, target) ∷ rest) =
      let delta = d.sub target (held d positions t) in
      let others = deltas-AtPrices positions prices rest in
      elim (Bool-cases (lt_dec d d.zero delta)) [
        | inl up ↦ rw up (others.0, (refl, others.1))
        | inr not_up ↦ elim (Bool-cases (lt_dec d delta d.zero)) [
          | inl down ↦ rw (not_up, down) ((refl, others.0), others.1)
          | inr same ↦ rw (not_up, same) others
        ]
      ]

  -- What a returning loop over the orders went through.
  pub run_orders-cons :
      (step : PaperBroker A → String → Order A → Reply (Unit {0}) × PaperBroker A) (side : Side)
      (t : String) (o : Order A) (rest : Dict (Order A)) (b : PaperBroker A) {fills : List (Fill A)}
      → (run_orders d step side ((t, o) ∷ rest) b).0 ≡ returned fills
      → ((step b t o).0 ≡ returned tt)
        × (fs : List (Fill A)) × ((run_orders d step side rest (step b t o).1).0 ≡ returned fs)
        × ((run_orders d step side ((t, o) ∷ rest) b).1
            ≡ (run_orders d step side rest (step b t o).1).1)
  unfolding run_orders
  run_orders-cons step side t o rest b h = elim (Reply-cases (step b t o).0) [
    | inr refused ↦ absurd (ground (arith, refused))
    | inl done ↦ elim (Returned-cases (make_fill d (order_fill d side t o))) [
      | inr refused ↦ absurd (ground (arith, done, refused))
      | inl (f, filled) ↦ elim (Returned-cases (run_orders d step side rest (step b t o).1).0) [
        | inr refused ↦ absurd (ground (arith, done, filled, refused))
        | inl (fs, ran) ↦ (done, fs, ran, ground (arith, done, filled, ran))
      ]
    ]
  ]

  pub run_orders-nil :
      (step : PaperBroker A → String → Order A → Reply (Unit {0}) × PaperBroker A) (side : Side)
      (b : PaperBroker A)
      → (run_orders d step side [] b).1 ≡ b
  unfolding run_orders
  run_orders-nil step side b = refl

  -- The sells and the buys of a rebalancing.
  abbrev pub orders_of : PaperBroker A → FeasibleAction A → Dict A → Dict (Order A) × Dict (Order A)
  orders_of b action prices =
      compute_deltas d b.positions prices (target_quantities d b prices action.targets)

  pub compute_deltas-AtPrices :
      (positions : Dict (Position A)) (prices wanted : Dict A)
      → AtPrices prices (compute_deltas d positions prices wanted).0
        × AtPrices prices (compute_deltas d positions prices wanted).1
  unfolding compute_deltas
  compute_deltas-AtPrices positions prices wanted =
      let parts = deltas-AtPrices positions prices wanted in
      (
        sort_by_key-AtPrices prices (deltas d positions prices wanted).0 parts.0,
        sort_by_key-AtPrices prices (deltas d positions prices wanted).1 parts.1,
      )

  abbrev pub sold :
      PaperBroker A → FeasibleAction A → Dict A → Reply (List (Fill A)) × PaperBroker A
  sold b action prices = run_orders d (apply_sell d) Side.sell (orders_of b action prices).0 b

  abbrev pub traded :
      PaperBroker A → FeasibleAction A → Dict A → Reply (List (Fill A)) × PaperBroker A
  traded b action prices =
      run_orders d (apply_buy d) Side.buy (orders_of b action prices).1 (sold b action prices).1

  -- What a returning rebalancing went through.
  pub rebalance-parts :
      (b : PaperBroker A) (action : FeasibleAction A) (prices : Dict A) {r : ExecutionReport A}
      → (rebalance d b action prices).0 ≡ returned r
      → (sell_fills : List (Fill A)) × (buy_fills : List (Fill A)) × ((sold b action prices).0
          ≡ returned sell_fills)
        × ((traded b action prices).0 ≡ returned buy_fills)
        × ((rebalance d b action prices).1 ≡ (traded b action prices).1)
        × (r.fills ≡ sell_fills ++ buy_fills)
  unfolding rebalance make_report
  rebalance-parts b action prices h = elim (Returned-cases (sold b action prices).0) [
    | inr refused ↦ absurd (ground (arith, refused))
    | inl (sell_fills, s) ↦ elim (Returned-cases (traded b action prices).0) [
      | inr refused ↦ absurd (ground (arith, s, refused))
      | inl (buy_fills, t) ↦
          (sell_fills, buy_fills, s, t, ground (arith, s, t), ground (arith, s, t))
    ]
  ]
