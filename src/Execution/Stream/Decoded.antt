-- ===== src/Execution/Stream/Decoded.antt =====
-- What the decoder of alpaca_stream.py lets through.
use caqrs.Prelude.{
  true, false, String, none, some, returned, raised, ◌≡◌, refl, ◌⊎◌, inl, inr, arith, Bool-cases,
  Option-cases, Returned-cases, and-parts, subst, ◌∙◌, sym,
}
use caqrs.Prelude.Decimal.{Decimal}
use caqrs.Execution.Stream.{
  Fields, AlpacaTradeUpdate, TradeUpdateKind, Parsed, number, not_a_number, invalid, is_fill_kind,
  make_update, is_given, text_at, fill_amounts, amount_at, amounts_of, update_of, update_of_order,
  is_complete, decode_trade_update, dict_at, words_at, kind_of, given,
}

module _ {ℓ} {A : Type ℓ} (d : Decimal A) (parse : String → Parsed A) where
  -- The texts of the order are there, and a fill, and only a fill, has a quantity and a price above
  -- zero.
  pub record IsSound (u : AlpacaTradeUpdate A) : Type ℓ where
    pub order : is_given u.order_id ≡ true
    pub client_order : is_given u.client_order_id ≡ true
    pub symbol : is_given u.symbol ≡ true
    pub side : is_given u.side ≡ true
    pub amounts :
        ((is_fill_kind u.kind ≡ true)
          × (q : A) × (p : A) × (u.filled ≡ some (q, p))
          × (d.leb q d.zero ≡ false)
          × (d.leb p d.zero ≡ false))
        ⊎ ((is_fill_kind u.kind ≡ false) × (u.filled ≡ none) × (u.fill_id ≡ none))

  fill_amounts_positive :
      (x y : Parsed A) {q p : A}
      → fill_amounts d parse x y ≡ returned (some (q, p))
      → (d.leb q d.zero ≡ false) × (d.leb p d.zero ≡ false)
  unfolding fill_amounts
  fill_amounts_positive (number q) (number p) h = ground arith
  fill_amounts_positive (number q) not_a_number h = ground arith
  fill_amounts_positive (number q) invalid h = ground arith
  fill_amounts_positive not_a_number (number p) h = ground arith
  fill_amounts_positive not_a_number not_a_number h = ground arith
  fill_amounts_positive not_a_number invalid h = ground arith
  fill_amounts_positive invalid y h = ground arith

  amounts_of_positive :
      (body : Fields) {q p : A}
      → amounts_of d parse body ≡ returned (some (q, p))
      → (d.leb q d.zero ≡ false) × (d.leb p d.zero ≡ false)
  unfolding amounts_of
  amounts_of_positive body h = elim (Option-cases (amount_at d parse "qty" body)) [
    | inl e ↦ absurd (ground (arith, e, h))
    | inr (x, e) ↦ elim (Option-cases (amount_at d parse "price" body)) [
      | inl e' ↦ absurd (ground (arith, e, e', h))
      | inr (y, e') ↦
          let same : amounts_of d parse body ≡ fill_amounts d parse x y =
            rw (amounts_of, e, e') refl in
          fill_amounts_positive x y (sym same ∙ h)
    ]
  ]

  update_injective : {u v : AlpacaTradeUpdate A} → returned (some u) ≡ returned (some v) → u ≡ v
  update_injective h = cc

  update_of-fill :
      (kind : TradeUpdateKind) (body order : Fields) (u : AlpacaTradeUpdate A)
      → is_fill_kind kind ≡ true
      → update_of d parse kind body order ≡ returned (some u)
      → (q : A) × (p : A) × (u
          ≡ make_update kind order (some (q, p)) none (given (words_at "execution_id" body)))
        × (amounts_of d parse body ≡ returned (some (q, p)))
  update_of-fill kind body order u filled h = elim (Returned-cases (amounts_of d parse body)) [
    | inr e ↦
        let broken : update_of d parse kind body order ≡ raised =
          unfold update_of in rw (filled, e) refl in
        absurd (ground (arith, broken, h))
    | inl (none, e) ↦
        let dropped : update_of d parse kind body order ≡ returned none =
          unfold update_of in rw (filled, e) refl in
        absurd (ground (arith, dropped, h))
    | inl (some (q, p), e) ↦
        let made : update_of d parse kind body order
            ≡ returned (
                some (
                  make_update kind order (some (q, p)) none
                    (given (words_at "execution_id" body)))) =
          unfold update_of in rw (filled, e) refl in
        (q, p, update_injective (sym h ∙ made), e)
  ]

  update_of-IsSound :
      (kind : TradeUpdateKind) (body order : Fields) (u : AlpacaTradeUpdate A)
      → is_given (text_at "id" order) ≡ true
      → is_given (text_at "client_order_id" order) ≡ true
      → is_given (text_at "symbol" order) ≡ true
      → is_given (text_at "side" order) ≡ true
      → update_of d parse kind body order ≡ returned (some u)
      → IsSound u
  update_of-IsSound kind body order u i c y z h = elim (Bool-cases (is_fill_kind kind)) [
    | inl filled ↦
        let (q, p, same, amounts) = update_of-fill kind body order u filled h in
        subst IsSound (sym same) (record {
          order = i;
          client_order = c;
          symbol = y;
          side = z;
          amounts =
              let (above, above') = amounts_of_positive body amounts in
              inl (filled, q, p, refl, above, above');
        })
    | inr other ↦
        let made : update_of d parse kind body order
            ≡ returned (some (make_update kind order none (words_at "reason" body) none)) =
          unfold update_of in rw other refl in
        subst IsSound (sym (update_injective (sym h ∙ made))) (record {
          order = i;
          client_order = c;
          symbol = y;
          side = z;
          amounts = inr (other, refl, refl);
        })
  ]

  update_of_order-IsSound :
      (kind : TradeUpdateKind) (body order : Fields) (u : AlpacaTradeUpdate A)
      → update_of_order d parse kind body order ≡ returned (some u)
      → IsSound u
  unfolding update_of_order
  update_of_order-IsSound kind body order u h = elim (Bool-cases (is_complete order)) [
    | inr missing ↦
        let dropped : update_of_order d parse kind body order ≡ returned none =
          rw (update_of_order, missing) refl in
        absurd (ground (arith, dropped, h))
    | inl complete ↦
        let made : update_of_order d parse kind body order ≡ update_of d parse kind body order =
          rw (update_of_order, complete) refl in
        let (i, more) = and-parts (is_given (text_at "id" order)) _ complete in
        let (c, more') = and-parts (is_given (text_at "client_order_id" order)) _ more in
        let (y, z) =
          and-parts (is_given (text_at "symbol" order)) (is_given (text_at "side" order)) more' in
        update_of-IsSound kind body order u i c y z (sym made ∙ h)
  ]

  -- Whatever message the decoder takes for an update: the texts of its order are there, and exactly
  -- the fills have a quantity and a price, both above zero; no other update has a fill id.
  pub decode_trade_update-IsSound :
      (raw : Fields) (u : AlpacaTradeUpdate A)
      → decode_trade_update d parse raw ≡ returned (some u)
      → IsSound u
  unfolding decode_trade_update
  decode_trade_update-IsSound raw u h = elim (Option-cases (dict_at "data" raw)) [
    | inl e ↦ absurd (ground (arith, e, h))
    | inr (body, e) ↦ elim (Option-cases (words_at "event" body)) [
      | inl e' ↦ absurd (ground (arith, e, e', h))
      | inr (name, e') ↦ elim (Option-cases (kind_of name)) [
        | inl e'' ↦ absurd (ground (arith, e, e', e'', h))
        | inr (kind, e'') ↦ elim (Option-cases (dict_at "order" body)) [
          | inl e''' ↦ absurd (ground (arith, e, e', e'', e''', h))
          | inr (order, e''') ↦
              let made : decode_trade_update d parse raw ≡ update_of_order d parse kind body order =
                rw (decode_trade_update, e, e', e'', e''') refl in
              update_of_order-IsSound kind body order u (sym made ∙ h)
        ]
      ]
    ]
  ]
