-- ===== src/Execution/Stream.antt =====
-- src/caqrs/execution/alpaca_stream.py: the decoder of trade updates.
-- A value of a message is a text, None, a dict, or another value; one that is no text comes with what
-- `str` makes of it.
pub mod Consume
pub mod Decoded
pub mod Entries
pub mod Exact
pub mod Redelivery
mod Tests
use caqrs.Prelude.{
  Bool, true, false, String, List, [], ◌∷◌, Option, none, some, str_eq, Reply, returned, raised,
  ◌&&◌, not, if◌then◌else◌,
}
use caqrs.Prelude.Decimal.{Decimal}

mutual
  pub data Json : Type 0 where
    words : String → Json
    null : Json
    dict : String → Fields → Json
    scalar : String → Json

  pub data Fields : Type 0 where
    end : Fields
    field : String → Json → Fields → Fields

unfoldable pub lookup : String → Fields → Option Json
lookup k end = none
lookup k (field j v rest) = if str_eq j k then some v else lookup k rest

-- `str(value)`
abbrev pub str_of : Json → String
str_of (words s) = s
str_of null = "None"
str_of (dict s fields) = s
str_of (scalar s) = s

-- `str(order.get(key, ""))`
unfoldable pub text_at : String → Fields → String
text_at k fields = elim (lookup k fields) [ none ↦ "" | some v ↦ str_of v ]

-- `isinstance(fields.get(key), dict)`, and the dict.
unfoldable pub dict_at : String → Fields → Option Fields
dict_at k fields = elim (lookup k fields) [ some (dict s inner) ↦ some inner | _ ↦ none ]

unfoldable pub words_at : String → Fields → Option String
words_at k fields = elim (lookup k fields) [ some (words s) ↦ some s | _ ↦ none ]

pub data TradeUpdateKind : Type 0 where
  fill partial_fill canceled rejected : TradeUpdateKind

-- `TradeUpdateKind(event_name)`
unfoldable pub kind_of : String → Option TradeUpdateKind
kind_of name =
    if str_eq name "fill"
    then some fill
    else if str_eq name "partial_fill"
    then some partial_fill
    else if str_eq name "canceled"
    then some canceled
    else if str_eq name "rejected"
    then some rejected
    else none

abbrev pub is_fill_kind : TradeUpdateKind → Bool
is_fill_kind fill = true
is_fill_kind partial_fill = true
is_fill_kind _ = false

abbrev pub is_partial_fill : TradeUpdateKind → Bool
is_partial_fill partial_fill = true
is_partial_fill _ = false

pub record AlpacaTradeUpdate {ℓ} (A : Type ℓ) : Type ℓ where
  pub kind : TradeUpdateKind
  pub order_id : String
  pub client_order_id : String
  pub symbol : String
  pub side : String
  pub filled : Option (A × A)
  pub reason : Option String
  pub fill_id : Option String

-- What `Decimal(text)` gives. A comparison with NaN raises an `InvalidOperation`.
pub data Parsed {ℓ} (A : Type ℓ) : Type ℓ where
  number : A → Parsed A
  not_a_number : Parsed A
  invalid : Parsed A

-- A text of the order, the empty one and an absent one being no text.
abbrev pub is_given : String → Bool
is_given s = not (str_eq s "")

abbrev pub given : Option String → Option String
given none = none
given (some s) = if is_given s then some s else none

-- `order_id and client_order_id and symbol and side`
abbrev pub is_complete : Fields → Bool
is_complete order =
    is_given (text_at "id" order)
    && (is_given (text_at "client_order_id" order)
        && (is_given (text_at "symbol" order) && is_given (text_at "side" order)))

-- `AlpacaTradeUpdate(…)`
abbrev pub make_update {ℓ} :
    {A : Type ℓ}
    → TradeUpdateKind
    → Fields
    → Option (A × A)
    → Option String
    → Option String
    → AlpacaTradeUpdate A
make_update kind order filled reason fill_id = record {
  kind = kind;
  order_id = text_at "id" order;
  client_order_id = text_at "client_order_id" order;
  symbol = text_at "symbol" order;
  side = text_at "side" order;
  filled = filled;
  reason = reason;
  fill_id = fill_id;
}

module _ {ℓ} {A : Type ℓ} (d : Decimal A) (parse : String → Parsed A) where
  -- The two comparisons of a fill with zero, the first of which may end the test.
  unfoldable pub fill_amounts : Parsed A → Parsed A → Reply (Option (A × A))
  fill_amounts invalid p = returned none
  fill_amounts q invalid = returned none
  fill_amounts not_a_number p = raised
  fill_amounts (number q) not_a_number = if d.leb q d.zero then returned none else raised
  fill_amounts (number q) (number p) =
      if d.leb q d.zero
      then returned none
      else if d.leb p d.zero
      then returned none
      else returned (some (q, p))

  -- `data.get(key)`, where None is as good as no value.
  unfoldable pub amount_at : String → Fields → Option (Parsed A)
  amount_at k fields = elim (lookup k fields) [
    | none ↦ none
    | some null ↦ none
    | some v ↦ some (parse (str_of v))
  ]

  unfoldable pub amounts_of : Fields → Reply (Option (A × A))
  amounts_of body = elim (amount_at "qty" body) [
    | none ↦ returned none
    | some q ↦ elim (amount_at "price" body) [ none ↦ returned none | some p ↦ fill_amounts q p ]
  ]

  -- The update of a kind, once the texts of its order are there.
  unfoldable pub update_of :
      TradeUpdateKind → Fields → Fields → Reply (Option (AlpacaTradeUpdate A))
  update_of kind body order =
      if is_fill_kind kind
      then (elim (amounts_of body) [
        | raised ↦ raised
        | returned none ↦ returned none
        | returned (some (q, p)) ↦ returned (
            some (make_update kind order (some (q, p)) none (given (words_at "execution_id" body))))
      ])
      else returned (some (make_update kind order none (words_at "reason" body) none))

  unfoldable pub update_of_order :
      TradeUpdateKind → Fields → Fields → Reply (Option (AlpacaTradeUpdate A))
  update_of_order kind body order =
      if is_complete order then update_of kind body order else returned none

  unfoldable pub decode_trade_update : Fields → Reply (Option (AlpacaTradeUpdate A))
  decode_trade_update raw = elim (dict_at "data" raw) [
    | none ↦ returned none
    | some body ↦ elim (words_at "event" body) [
      | none ↦ returned none
      | some name ↦ elim (kind_of name) [
        | none ↦ returned none
        | some kind ↦ elim (dict_at "order" body) [
          | none ↦ returned none
          | some order ↦ update_of_order kind body order
        ]
      ]
    ]
  ]
