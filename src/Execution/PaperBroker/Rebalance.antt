-- ===== src/Execution/PaperBroker/Rebalance.antt =====
-- What each ticker's holding is after `_rebalance` of paper_broker.py. The arithmetic is exact here.
use caqrs.Prelude.{
  String, List, [], ◌∷◌, Option, none, some, Reply, returned, if◌then◌else◌, ◌≡◌, refl, sym, ap,
  ◌∙◌, arith, Bool-cases, inl, inr, str_eq, str_eq_iff,
}
use caqrs.Prelude.Decimal.{Decimal, IsExact, IsOrdered, lt_dec}
use caqrs.Prelude.Dict.{Dict, get, put, remove, IsDistinct, get-put, get-remove}
use caqrs.Prelude.Sort.{get-sort_by_key, sort_by_key-IsDistinct}
use caqrs.Schemas.Decision.{Side}
use caqrs.Policy.Gateway.{FeasibleAction}
use caqrs.Execution.Report.{ExecutionReport, Fill}
use caqrs.Execution.PaperBroker.Holdings.{
  swap, cancel, zero_add, apply_sell-positions, apply_buy-positions,
}
use caqrs.Execution.PaperBroker.Deltas.{
  get-deltas, deltas-IsDistinct, zero_targets-IsDistinct, add_targets-IsDistinct, sell_order,
  buy_order,
}
use caqrs.Execution.PaperBroker.Orders.{
  run_orders-nil, run_orders-cons, orders_of, sold, rebalance-parts,
}
use caqrs.Execution.PaperBroker.{
  PaperBroker, Position, Order, rebalance, held, apply_sell, apply_buy, run_orders, deltas,
  compute_deltas, target_quantities, zero_targets, equity,
}

module _ {ℓ} {A : Type ℓ} (d : Decimal A) where
  held-put :
      (t u : String) (p : Position A) (positions : Dict (Position A))
      → held d (put t p positions) u ≡ (if str_eq t u then p.qty else held d positions u)
  unfolding held
  held-put t u p positions = ground (arith, get-put t u p positions)

  held-remove :
      (t u : String) (positions : Dict (Position A))
      → held d (remove t positions) u ≡ (if str_eq t u then d.zero else held d positions u)
  unfolding held
  held-remove t u positions = ground (arith, get-remove t u positions)

  -- A step sells, or buys, of its own ticker only.
  abbrev Moves :
      (A → A → A) → (PaperBroker A → String → Order A → Reply (Unit {0}) × PaperBroker A) → Type ℓ
  Moves op step =
      (b : PaperBroker A) (t u : String) (o : Order A)
      → (step b t o).0 ≡ returned tt
      → held d (step b t o).1.positions u
        ≡ (if str_eq t u then op (held d b.positions t) o.qty else held d b.positions u)

  abbrev moved : (A → A → A) → A → Option (Order A) → A
  moved op q none = q
  moved op q (some o) = op q o.qty

  run_orders-held :
      (op : A → A → A) (step : PaperBroker A → String → Order A → Reply (Unit {0}) × PaperBroker A)
      (side : Side) (orders : Dict (Order A)) (b : PaperBroker A) (u : String)
      {fills : List (Fill A)}
      → Moves op step
      → IsDistinct orders
      → (run_orders d step side orders b).0 ≡ returned fills
      → held d (run_orders d step side orders b).1.positions u
        ≡ moved op (held d b.positions u) (get u orders)
  unfolding get
  run_orders-held op step side [] b u moves distinct h =
      ap (λ (c : PaperBroker A). held d c.positions u) (run_orders-nil d step side b)
  run_orders-held op step side ((t, o) ∷ rest) b u moves distinct h =
      let (done, fs, ran, same) = run_orders-cons d step side t o rest b h in
      let rec = run_orders-held op step side rest (step b t o).1 u moves distinct.1 ran in
      let now = moves b t u o done in
      let all_moved = ap (λ (c : PaperBroker A). held d c.positions u) same ∙ rec in
      elim (Bool-cases (str_eq t u)) [
        | inl mine ↦
            let none_later : get u rest ≡ none =
              ap (λ k. get k rest) (sym ((str_eq_iff t u).0 mine)) ∙ distinct.0 in
            rw mine (
              all_moved
              ∙ (ap (moved op (held d (step b t o).1.positions u)) none_later
                  ∙ (now
                      ∙ rw mine
                          (ap (λ k. op (held d b.positions k) o.qty) ((str_eq_iff t u).0 mine)))))
        | inr other ↦ rw other (all_moved ∙ ap (λ q. moved op q (get u rest)) (now ∙ rw other refl))
      ]

module _ {ℓ} {A : Type ℓ} (d : Decimal A) (exact : IsExact d) (ordered : IsOrdered d) where
  apply_sell-Moves : Moves d d.sub (apply_sell d)
  apply_sell-Moves b t u o h = elim (apply_sell-positions d exact b t o h) [
    | inl (below, above, removed) ↦
        ap (λ ps. held d ps u) removed
        ∙ (held-remove d t u b.positions
            ∙ ap (λ q. if str_eq t u then q else held d b.positions u)
                (sym (ordered.leb_antisym (d.sub (held d b.positions t) o.qty) d.zero below above)))
    | inr (p, left, made) ↦
        ap (λ ps. held d ps u) made
        ∙ (held-put d t u p b.positions
            ∙ ap (λ q. if str_eq t u then q else held d b.positions u) left)
  ]

  apply_buy-Moves : Moves d d.add (apply_buy d)
  apply_buy-Moves b t u o h =
      let (p, sum, made) = apply_buy-positions d exact b t o h in
      ap (λ ps. held d ps u) made
      ∙ (held-put d t u p b.positions
          ∙ ap (λ q. if str_eq t u then q else held d b.positions u) sum)

  undo : (q w : A) → d.sub q (d.sub d.zero (d.sub w q)) ≡ w
  undo q w =
      let y = d.sub d.zero (d.sub w q) in
      cancel d exact (d.sub q y) w y (
        exact.sub_add q y
        ∙ sym (
            ap (λ x. d.add x y) (sym (exact.sub_add w q))
            ∙ (swap d exact (d.sub w q) q y
                ∙ (ap (λ x. d.add x q)
                      (exact.add_comm (d.sub w q) y ∙ exact.sub_add d.zero (d.sub w q))
                    ∙ zero_add d exact q))))

  -- The two orders of a ticker take its holding to the wanted quantity.
  orders_reach :
      (positions : Dict (Position A)) (prices : Dict A) (u : String) (w : A)
      → moved d d.add
          (moved d d.sub (held d positions u) (sell_order d positions prices u w))
          (buy_order d positions prices u w)
        ≡ w
  orders_reach positions prices u w =
      let q = held d positions u in
      let delta = d.sub w q in
      elim (Bool-cases (lt_dec d d.zero delta)) [
        | inl up ↦ rw up (exact.add_comm q delta ∙ exact.sub_add w q)
        | inr not_up ↦ elim (Bool-cases (lt_dec d delta d.zero)) [
          | inl down ↦ rw (not_up, down) (undo q w)
          | inr same ↦
              rw (not_up, same)
                (sym (zero_add d exact q)
                  ∙ (ap (λ x. d.add x q)
                        (sym (
                          ordered.leb_antisym delta d.zero (ground (arith, not_up))
                            (ground (arith, same))))
                      ∙ exact.sub_add w q))
        ]
      ]

  -- The quantities that a rebalancing wants.
  abbrev pub wanted_of : PaperBroker A → FeasibleAction A → Dict A → Dict A
  wanted_of b action prices = target_quantities d b prices action.targets

  wanted_of-IsDistinct :
      (b : PaperBroker A) (action : FeasibleAction A) (prices : Dict A)
      → IsDistinct b.positions
      → IsDistinct (wanted_of b action prices)
  unfolding target_quantities
  wanted_of-IsDistinct b action prices distinct =
      add_targets-IsDistinct d (equity d b prices) prices action.targets
        (zero_targets d b.positions) (zero_targets-IsDistinct d b.positions distinct)

  -- The sorted orders of a wanted ticker.
  get-compute_deltas :
      (positions : Dict (Position A)) (prices wanted : Dict A) (u : String) {w : A}
      → IsDistinct wanted
      → get u wanted ≡ some w
      → (get u (compute_deltas d positions prices wanted).0 ≡ sell_order d positions prices u w)
        × (get u (compute_deltas d positions prices wanted).1 ≡ buy_order d positions prices u w)
  unfolding compute_deltas
  get-compute_deltas positions prices wanted u distinct h =
      let found = get-deltas d positions prices wanted u distinct h in
      (
        get-sort_by_key u (deltas d positions prices wanted).0 ∙ found.0,
        get-sort_by_key u (deltas d positions prices wanted).1 ∙ found.1,
      )

  compute_deltas-IsDistinct :
      (positions : Dict (Position A)) (prices wanted : Dict A)
      → IsDistinct wanted
      → IsDistinct (compute_deltas d positions prices wanted).0
        × IsDistinct (compute_deltas d positions prices wanted).1
  unfolding compute_deltas
  compute_deltas-IsDistinct positions prices wanted distinct =
      let parts = deltas-IsDistinct d positions prices wanted distinct in
      (
        sort_by_key-IsDistinct (deltas d positions prices wanted).0 parts.0,
        sort_by_key-IsDistinct (deltas d positions prices wanted).1 parts.1,
      )

  -- A rebalancing that returns holds of each wanted ticker exactly the wanted quantity.
  pub rebalance-held :
      (b : PaperBroker A) (action : FeasibleAction A) (prices : Dict A) (u : String) {w : A}
      {r : ExecutionReport A}
      → IsDistinct b.positions
      → get u (wanted_of b action prices) ≡ some w
      → (rebalance d b action prices).0 ≡ returned r
      → held d (rebalance d b action prices).1.positions u ≡ w
  rebalance-held b action prices u {w = w} distinct h ran =
      let (_, _, sells_done, buys_done, same, _) = rebalance-parts d b action prices ran in
      let wanted = wanted_of b action prices in
      let unique = wanted_of-IsDistinct b action prices distinct in
      let orders = get-compute_deltas b.positions prices wanted u unique h in
      let separate = compute_deltas-IsDistinct b.positions prices wanted unique in
      let sells =
        run_orders-held d d.sub (apply_sell d) Side.sell (orders_of d b action prices).0 b u
          apply_sell-Moves separate.0 sells_done in
      let buys =
        run_orders-held d d.add (apply_buy d) Side.buy (orders_of d b action prices).1
          (sold d b action prices).1 u apply_buy-Moves separate.1 buys_done in
      ap (λ (c : PaperBroker A). held d c.positions u) same
      ∙ (buys
          ∙ (ap (λ q. moved d d.add q (get u (orders_of d b action prices).1))
                (sells ∙ ap (moved d d.sub (held d b.positions u)) orders.0)
              ∙ (ap
                    (moved d d.add
                      (moved d d.sub (held d b.positions u) (sell_order d b.positions prices u w)))
                    orders.1
                  ∙ orders_reach b.positions prices u w)))
