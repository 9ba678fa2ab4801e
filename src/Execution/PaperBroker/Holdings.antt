-- ===== src/Execution/PaperBroker/Holdings.antt =====
-- What one trade of paper_broker.py does to the cash and to the positions, and the worth of the
-- positions at one set of prices. The arithmetic is exact here.
use caqrs.Prelude.{
  true, String, [], ◌∷◌, none, some, returned, if◌then◌else◌, ◌≡◌, refl, sym, ap, ◌∙◌, arith,
  Bool-cases, and-parts, Option-cases, Returned-cases, ◌⊎◌, inl, inr, str_eq, str_eq_iff,
}
use caqrs.Prelude.Decimal.{Decimal, IsExact, lt_dec}
use caqrs.Prelude.Dict.{Dict, get, put, remove, IsDistinct, remove_absent}
use caqrs.Execution.PaperBroker.{
  PaperBroker, Position, Order, sum_values, price_of, held, apply_sell, apply_buy, bought,
  make_position, eq_dec,
}

module _ {ℓ} {A : Type ℓ} (d : Decimal A) (exact : IsExact d) where
  pub swap : (a b c : A) → d.add (d.add a b) c ≡ d.add (d.add a c) b
  swap a b c = exact.add_assoc a b c ∙ rw (exact.add_comm b c) (sym (exact.add_assoc a c b))

  outer_swap : (a b c : A) → d.add (d.add a b) c ≡ d.add (d.add c b) a
  outer_swap a b c = rw (exact.add_comm a b) (swap b a c ∙ rw (exact.add_comm b c) refl)

  pub cancel : (a b c : A) → d.add a c ≡ d.add b c → a ≡ b
  cancel a b c h = sym (exact.add_sub a c) ∙ (ap (λ x. d.sub x c) h ∙ exact.add_sub b c)

  pub zero_add : (a : A) → d.add d.zero a ≡ a
  zero_add a = exact.add_comm d.zero a ∙ exact.add_zero a

  -- The accumulator of the sum stands in front of it.
  sum_values-acc :
      (acc : A) (prices : Dict A) (positions : Dict (Position A))
      → sum_values d acc prices positions ≡ d.add acc (sum_values d d.zero prices positions)
  unfolding sum_values
  sum_values-acc acc prices [] = sym (exact.add_zero acc)
  sum_values-acc acc prices ((t, pos) ∷ rest) =
      sum_values-acc (d.add acc (d.mul pos.qty (price_of d prices t))) prices rest
      ∙ (exact.add_assoc acc (d.mul pos.qty (price_of d prices t)) (sum_values d d.zero prices rest)
          ∙ sym (
              ap (d.add acc) (
                sum_values-acc (d.add d.zero (d.mul pos.qty (price_of d prices t))) prices rest
                ∙ rw (zero_add (d.mul pos.qty (price_of d prices t))) refl)))

  sum_values-cons :
      (prices : Dict A) (t : String) (pos : Position A) (rest : Dict (Position A))
      → sum_values d d.zero prices ((t, pos) ∷ rest)
        ≡ d.add (sum_values d d.zero prices rest) (d.mul pos.qty (price_of d prices t))
  unfolding sum_values
  sum_values-cons prices t pos rest =
      sum_values-acc (d.add d.zero (d.mul pos.qty (price_of d prices t))) prices rest
      ∙ rw (zero_add (d.mul pos.qty (price_of d prices t)))
          (exact.add_comm (d.mul pos.qty (price_of d prices t)) (sum_values d d.zero prices rest))

  held-cons :
      (u t : String) (pos : Position A) (rest : Dict (Position A))
      → held d ((u, pos) ∷ rest) t ≡ (if str_eq u t then pos.qty else held d rest t)
  unfolding held get
  held-cons u t pos rest = ground arith

  pub held_there :
      (t : String) (positions : Dict (Position A)) {pos : Position A}
      → get t positions ≡ some pos
      → held d positions t ≡ pos.qty
  unfolding held
  held_there t positions h = ground arith

  pub held_absent :
      (t : String) (positions : Dict (Position A))
      → get t positions ≡ none
      → held d positions t ≡ d.zero
  unfolding held
  held_absent t positions h = ground arith

  held-nil : (t : String) → held d [] t ≡ d.zero
  unfolding held get
  held-nil t = refl

  -- A position put down replaces what was held of its ticker.
  pub sum_values-put :
      (prices : Dict A) (t : String) (p : Position A) (positions : Dict (Position A))
      → d.add
          (sum_values d d.zero prices (put t p positions))
          (d.mul (held d positions t) (price_of d prices t))
        ≡ d.add (sum_values d d.zero prices positions) (d.mul p.qty (price_of d prices t))
  unfolding put
  sum_values-put prices t p [] =
      rw (sum_values-cons prices t p [], held-nil t, exact.zero_mul (price_of d prices t))
        (exact.add_zero (d.add (sum_values d d.zero prices []) (d.mul p.qty (price_of d prices t))))
  sum_values-put prices t p ((u, pos) ∷ rest) = elim (Bool-cases (str_eq u t)) [
    | inl same ↦
        rw
          (
            held-cons u t pos rest,
            same,
            sum_values-cons prices u p rest,
            sum_values-cons prices u pos rest,
            (str_eq_iff u t).0 same,
          )
          (swap (sum_values d d.zero prices rest) (d.mul p.qty (price_of d prices t))
            (d.mul pos.qty (price_of d prices t)))
    | inr other ↦
        rw
          (
            held-cons u t pos rest,
            other,
            sum_values-cons prices u pos (put t p rest),
            sum_values-cons prices u pos rest,
          )
          (swap (sum_values d d.zero prices (put t p rest)) (d.mul pos.qty (price_of d prices u))
              (d.mul (held d rest t) (price_of d prices t))
            ∙ rw (sum_values-put prices t p rest) (
                swap (sum_values d d.zero prices rest) (d.mul p.qty (price_of d prices t))
                  (d.mul pos.qty (price_of d prices u))))
  ]

  pub sum_values-remove :
      (prices : Dict A) (t : String) (positions : Dict (Position A))
      → IsDistinct positions
      → d.add
          (sum_values d d.zero prices (remove t positions))
          (d.mul (held d positions t) (price_of d prices t))
        ≡ sum_values d d.zero prices positions
  unfolding remove
  sum_values-remove prices t [] h =
      rw (held-nil t, exact.zero_mul (price_of d prices t))
        (exact.add_zero (sum_values d d.zero prices []))
  sum_values-remove prices t ((u, pos) ∷ rest) h = elim (Bool-cases (str_eq u t)) [
    | inl same ↦
        rw
          (
            held-cons u t pos rest,
            same,
            remove_absent t rest (ap (λ k. get k rest) (sym ((str_eq_iff u t).0 same)) ∙ h.0),
            sum_values-cons prices u pos rest,
            (str_eq_iff u t).0 same,
          )
          refl
    | inr other ↦
        rw
          (
            held-cons u t pos rest,
            other,
            sum_values-cons prices u pos (remove t rest),
            sum_values-cons prices u pos rest,
          )
          (swap (sum_values d d.zero prices (remove t rest)) (d.mul pos.qty (price_of d prices u))
              (d.mul (held d rest t) (price_of d prices t))
            ∙ rw (sum_values-remove prices t rest h.1) refl)
  ]

  make_position-qty : (q c : A) {p : Position A} → make_position d q c ≡ returned p → p.qty ≡ q
  unfolding make_position
  make_position-qty q c h = ground arith

  -- What a sale does to the positions, in their worth.
  pub sold_part :
      (prices : Dict A) (t : String) (q k : A)
      → d.add (d.mul (d.sub q k) (price_of d prices t)) (d.mul k (price_of d prices t))
        ≡ d.mul q (price_of d prices t)
  sold_part prices t q k =
      sym (exact.mul_add (d.sub q k) k (price_of d prices t)) ∙ rw (exact.sub_add q k) refl

  pub apply_sell-cash :
      (b : PaperBroker A) (t : String) (o : Order A)
      → (apply_sell d b t o).0 ≡ returned tt
      → (apply_sell d b t o).1.cash ≡ d.add b.cash (d.mul o.qty o.price)
  unfolding apply_sell
  apply_sell-cash b t o h = ground arith

  -- The positions after a sale: one is closed, or one is made anew.
  pub apply_sell-positions :
      (b : PaperBroker A) (t : String) (o : Order A)
      → (apply_sell d b t o).0 ≡ returned tt
      → ((d.leb (d.sub (held d b.positions t) o.qty) d.zero ≡ true)
          × (d.leb d.zero (d.sub (held d b.positions t) o.qty) ≡ true)
          × ((apply_sell d b t o).1.positions ≡ remove t b.positions))
        ⊎ ((p : Position A) × (p.qty ≡ d.sub (held d b.positions t) o.qty)
            × ((apply_sell d b t o).1.positions ≡ put t p b.positions))
  unfolding apply_sell
  apply_sell-positions b t o h = elim (Option-cases (get t b.positions)) [
    | inl absent ↦ absurd (ground (arith, absent))
    | inr (pos, there) ↦ elim (Bool-cases (eq_dec d (d.sub pos.qty o.qty) d.zero)) [
      | inl closed ↦
          let parts =
            and-parts (d.leb (d.sub pos.qty o.qty) d.zero) (d.leb d.zero (d.sub pos.qty o.qty))
              closed in
          inl (
            rw (held_there t b.positions there) parts.0,
            rw (held_there t b.positions there) parts.1,
            ground (arith, there, closed),
          )
      | inr kept ↦ elim (Returned-cases (make_position d (d.sub pos.qty o.qty) pos.avg_cost_usd)) [
        | inl (p, made) ↦ inr (
          p,
          rw (held_there t b.positions there)
              (make_position-qty (d.sub pos.qty o.qty) pos.avg_cost_usd made),
          ground (arith, there, kept, made),
        )
        | inr refused ↦ absurd (ground (arith, there, kept, refused))
      ]
    ]
  ]

  pub apply_buy-cash :
      (b : PaperBroker A) (t : String) (o : Order A)
      → (apply_buy d b t o).0 ≡ returned tt
      → (apply_buy d b t o).1.cash ≡ d.sub b.cash (d.mul o.qty o.price)
  unfolding apply_buy
  apply_buy-cash b t o h = ground arith

  bought-qty :
      (positions : Dict (Position A)) (t : String) (o : Order A) {p : Position A}
      → bought d (get t positions) o ≡ returned p
      → p.qty ≡ d.add (held d positions t) o.qty
  unfolding bought
  bought-qty positions t o h = elim (Option-cases (get t positions)) [
    | inl absent ↦ rw (held_absent t positions absent) (
        make_position-qty o.qty o.price (sym (ap (λ e. bought d e o) absent) ∙ h)
        ∙ sym (zero_add o.qty))
    | inr (pos, there) ↦ rw (held_there t positions there) (
        make_position-qty (d.add pos.qty o.qty)
          (if lt_dec d d.zero (d.add pos.qty o.qty)
            then d.div (d.add (d.mul pos.qty pos.avg_cost_usd) (d.mul o.qty o.price))
                (d.add pos.qty o.qty)
            else d.zero)
          (sym (ap (λ e. bought d e o) there) ∙ h))
  ]

  pub apply_buy-positions :
      (b : PaperBroker A) (t : String) (o : Order A)
      → (apply_buy d b t o).0 ≡ returned tt
      → (p : Position A) × (p.qty ≡ d.add (held d b.positions t) o.qty)
        × ((apply_buy d b t o).1.positions ≡ put t p b.positions)
  unfolding apply_buy
  apply_buy-positions b t o h = elim (Returned-cases (bought d (get t b.positions) o)) [
    | inl (p, made) ↦ (p, bought-qty b.positions t o made, ground (arith, made))
    | inr refused ↦ absurd (ground (arith, refused))
  ]
