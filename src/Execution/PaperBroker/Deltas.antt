-- ===== src/Execution/PaperBroker/Deltas.antt =====
-- `_compute_deltas` of paper_broker.py: the order that each wanted quantity makes.
use caqrs.Prelude.{
  Bool, true, String, List, [], ◌∷◌, Option, none, some, if◌then◌else◌, ◌≡◌, refl, sym, ap, ◌∙◌,
  arith, Bool-cases, inl, inr, str_eq, str_eq_iff,
}
use caqrs.Prelude.Decimal.{Decimal, lt_dec}
use caqrs.Prelude.Dict.{Dict, get, put, IsDistinct, put-IsDistinct}
use caqrs.Schemas.Decision.{TargetPosition}
use caqrs.Execution.PaperBroker.{Position, Order, price_of, held, deltas, zero_targets, add_targets}

module _ {ℓ} {A : Type ℓ} (d : Decimal A) where
  -- The two orders that a wanted quantity can make.
  abbrev pub sell_order : Dict (Position A) → Dict A → String → A → Option (Order A)
  sell_order positions prices u w =
      let delta = d.sub w (held d positions u) in
      if lt_dec d d.zero delta
      then none
      else if lt_dec d delta d.zero
      then some (record { qty = d.sub d.zero delta; price = price_of d prices u })
      else none

  abbrev pub buy_order : Dict (Position A) → Dict A → String → A → Option (Order A)
  buy_order positions prices u w =
      let delta = d.sub w (held d positions u) in
      if lt_dec d d.zero delta
      then some (record { qty = delta; price = price_of d prices u })
      else none

  -- The orders of the first wanted ticker stand in front of the others.
  abbrev or_else : Option (Order A) → Option (Order A) → Option (Order A)
  or_else none o = o
  or_else (some o) _ = some o

  get-deltas_cons :
      (positions : Dict (Position A)) (prices : Dict A) (t u : String) (target : A) (rest : Dict A)
      → (get u (deltas d positions prices ((t, target) ∷ rest)).0 ≡ (
          if str_eq t u
          then or_else
              (sell_order positions prices t target)
              (get u (deltas d positions prices rest).0)
          else get u (deltas d positions prices rest).0))
        × (get u (deltas d positions prices ((t, target) ∷ rest)).1 ≡ (
            if str_eq t u
            then or_else
                (buy_order positions prices t target)
                (get u (deltas d positions prices rest).1)
            else get u (deltas d positions prices rest).1))
  unfolding deltas get
  get-deltas_cons positions prices t u target rest =
      let delta = d.sub target (held d positions t) in
      elim (Bool-cases (lt_dec d d.zero delta)) [
        | inl up ↦ rw up (ground arith, ground arith)
        | inr not_up ↦ elim (Bool-cases (lt_dec d delta d.zero)) [
          | inl down ↦ rw (not_up, down) (ground arith, ground arith)
          | inr same ↦ rw (not_up, same) (ground arith, ground arith)
        ]
      ]

  get-deltas_absent :
      (positions : Dict (Position A)) (prices wanted : Dict A) (u : String)
      → get u wanted ≡ none
      → (get u (deltas d positions prices wanted).0 ≡ none)
        × (get u (deltas d positions prices wanted).1 ≡ none)
  unfolding deltas get
  get-deltas_absent positions prices [] u h = (refl, refl)
  get-deltas_absent positions prices ((t, target) ∷ rest) u h =
      let cons = get-deltas_cons positions prices t u target rest in
      let others = get-deltas_absent positions prices rest u in (ground arith, ground arith)

  or_else-none : (o : Option (Order A)) → or_else o none ≡ o
  or_else-none none = refl
  or_else-none (some o) = refl

  first_value :
      (v : A) (later found : Option A) {c : Bool} {w : A}
      → found ≡ (if c then some v else later)
      → c ≡ true
      → found ≡ some w
      → v ≡ w
  first_value v later found first same h = ground arith

  only_order :
      (f : String → A → Option (Order A)) (others : Dict (Order A)) {t u : String} {v w : A}
      → t ≡ u
      → v ≡ w
      → get t others ≡ none
      → or_else (f t v) (get u others) ≡ f u w
  only_order f others {t = t} {u = u} {v = v} {w = w} key value absent =
      ap (or_else (f t v)) (ap (λ k. get k others) (sym key) ∙ absent)
      ∙ (or_else-none (f t v) ∙ (ap (λ k. f k v) key ∙ ap (f u) value))

  pub get-deltas :
      (positions : Dict (Position A)) (prices wanted : Dict A) (u : String) {w : A}
      → IsDistinct wanted
      → get u wanted ≡ some w
      → (get u (deltas d positions prices wanted).0 ≡ sell_order positions prices u w)
        × (get u (deltas d positions prices wanted).1 ≡ buy_order positions prices u w)
  get-deltas positions prices [] u distinct h = unfold get in cc
  get-deltas positions prices ((t, target) ∷ rest) u distinct h =
      let cons = get-deltas_cons positions prices t u target rest in
      let first : get u ((t, target) ∷ rest) ≡ (if str_eq t u then some target else get u rest) =
        unfold get in refl in
      elim (Bool-cases (str_eq t u)) [
        | inr other ↦
            let later =
              get-deltas positions prices rest u distinct.1 (ground (arith, first, other, h)) in
            (cons.0 ∙ rw other later.0, cons.1 ∙ rw other later.1)
        | inl same ↦
            let key = (str_eq_iff t u).0 same in
            let value = first_value target (get u rest) (get u ((t, target) ∷ rest)) first same h in
            let others = get-deltas_absent positions prices rest t distinct.0 in
            (
              cons.0
                  ∙ rw same (
                      only_order (sell_order positions prices) (deltas d positions prices rest).0
                        key value others.0),
              cons.1
                  ∙ rw same (
                      only_order (buy_order positions prices) (deltas d positions prices rest).1 key
                        value others.1),
            )
      ]

  pub deltas-IsDistinct :
      (positions : Dict (Position A)) (prices wanted : Dict A)
      → IsDistinct wanted
      → IsDistinct (deltas d positions prices wanted).0
        × IsDistinct (deltas d positions prices wanted).1
  unfolding deltas
  deltas-IsDistinct positions prices [] distinct = (tt, tt)
  deltas-IsDistinct positions prices ((t, target) ∷ rest) distinct =
      let delta = d.sub target (held d positions t) in
      let absent = get-deltas_absent positions prices rest t distinct.0 in
      let others = deltas-IsDistinct positions prices rest distinct.1 in
      elim (Bool-cases (lt_dec d d.zero delta)) [
        | inl up ↦ rw up (others.0, (absent.1, others.1))
        | inr not_up ↦ elim (Bool-cases (lt_dec d delta d.zero)) [
          | inl down ↦ rw (not_up, down) ((absent.0, others.0), others.1)
          | inr same ↦ rw (not_up, same) others
        ]
      ]

  zero_targets-absent :
      (positions : Dict (Position A)) (u : String)
      → get u positions ≡ none
      → get u (zero_targets d positions) ≡ none
  unfolding zero_targets get
  zero_targets-absent [] u h = refl
  zero_targets-absent ((t, pos) ∷ rest) u h = ground (arith, zero_targets-absent rest u)

  pub zero_targets-IsDistinct :
      (positions : Dict (Position A)) → IsDistinct positions → IsDistinct (zero_targets d positions)
  unfolding zero_targets
  zero_targets-IsDistinct [] h = tt
  zero_targets-IsDistinct ((t, pos) ∷ rest) h =
      (zero_targets-absent rest t h.0, zero_targets-IsDistinct rest h.1)

  pub add_targets-IsDistinct :
      (worth : A) (prices : Dict A) (targets : List (TargetPosition A)) (wanted : Dict A)
      → IsDistinct wanted
      → IsDistinct (add_targets d worth prices targets wanted)
  unfolding add_targets
  add_targets-IsDistinct worth prices [] wanted h = h
  add_targets-IsDistinct worth prices (t ∷ ts) wanted h =
      let price = price_of d prices t.ticker in
      let qty = if lt_dec d d.zero price then d.div (d.mul worth t.weight) price else d.zero in
      add_targets-IsDistinct worth prices ts (put t.ticker qty wanted)
        (put-IsDistinct t.ticker qty wanted h)
