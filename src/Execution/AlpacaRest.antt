-- ===== src/Execution/AlpacaRest.antt =====
-- src/caqrs/execution/alpaca_rest.py: the client of the venue. The HTTP library is the parameter
-- `Http`: what it answers to a request, or that it raises. The guards, the codes and the messages of
-- errors are the client's.
use caqrs.Prelude.{
  ℕ, suc, String, Text, ◌++◌, leb, ltb, length, codes, ◌≡◌, refl, ◌⊎◌, inl, inr, if◌then◌else◌,
}
use caqrs.Prelude.Decimal.{Decimal}
use caqrs.Schemas.Decision.{Side}
use caqrs.Orchestrator.Preflight.{digits}

pub record AlpacaOrder {ℓ} (A : Type ℓ) : Type ℓ where
  pub order_id : String
  pub client_order_id : String
  pub symbol : String
  pub qty : A
  pub side : String
  pub status : String

-- The body of a POST to `/v2/orders`; the type is `market` and the time in force `day`.
pub record OrderBody {ℓ} (A : Type ℓ) : Type ℓ where
  pub symbol : String
  pub qty : A
  pub side : Side
  pub client_order_id : String

-- What is read of a response's JSON: an order, or one whose keys or amounts cannot be read.
pub data Payload {ℓ} (A : Type ℓ) : Type ℓ where
  order : AlpacaOrder A → Payload A
  unreadable : Payload A
  not_json : Payload A

-- An `httpx.HTTPError` with its text, or a response with its code.
pub data Response {ℓ} (A : Type ℓ) : Type ℓ where
  transport_error : Text → Response A
  response : ℕ → Payload A → Response A

pub record Http {ℓ κ} (A : Type ℓ) (W : Type κ) : Type (ℓ ⊔ κ) where
  pub post : OrderBody A → W → Response A × W
  pub delete : W → Response A × W

-- What a call of the client ends with: a value, an `AlpacaError` with its text, or another exception.
pub data Venue {ℓ} (B : Type ℓ) : Type ℓ where
  done : B → Venue B
  alpaca_error : Text → Venue B
  other_error : Venue B

abbrev pub client_order_id_max : ℕ
client_order_id_max = 48

abbrev pub http_4xx_floor : ℕ
http_4xx_floor = 400

-- `f"Alpaca REST {status}: {what}"`
abbrev pub rest_message : ℕ → Text → Text
rest_message status what =
    codes "Alpaca REST " ++ (digits (suc status) status ++ (codes ": " ++ what))

abbrev pub string_length : String → ℕ
string_length s = length (codes s)

module _ {ℓ κ} {A : Type ℓ} {W : Type κ} (d : Decimal A) (http : Http A W) where
  unfoldable pub read_order : ℕ → Payload A → Venue (AlpacaOrder A)
  read_order status not_json = alpaca_error (rest_message status (codes "response body not JSON"))
  read_order status unreadable = other_error
  read_order status (order o) = done o

  unfoldable pub order_response : Response A → Venue (AlpacaOrder A)
  order_response (transport_error text) =
      alpaca_error (codes "Alpaca REST transport error: " ++ text)
  order_response (response status payload) =
      if leb http_4xx_floor status
      then alpaca_error (rest_message status (codes "order submission rejected"))
      else read_order status payload

  unfoldable pub submit_order : OrderBody A → W → Venue (AlpacaOrder A) × W
  submit_order body w =
      if ltb client_order_id_max (string_length body.client_order_id)
      then (other_error, w)
      else if d.leb body.qty d.zero
      then (other_error, w)
      else (order_response (http.post body w).0, (http.post body w).1)

  unfoldable pub cancel_response : Response A → Venue (Unit {0})
  cancel_response (transport_error text) =
      alpaca_error (codes "Alpaca REST transport error during cancel-all: " ++ text)
  cancel_response (response status payload) =
      if leb http_4xx_floor status
      then alpaca_error (rest_message status (codes "cancel-all failed"))
      else done tt

  unfoldable pub cancel_all_orders : W → Venue (Unit {0}) × W
  cancel_all_orders w = (cancel_response (http.delete w).0, (http.delete w).1)

-- To split on what a call of the client ends with and keep the equation.
pub Venue-cases {ℓ} :
    {B : Type ℓ} (v : Venue B)
    → ((b : B) × (v ≡ done b)) ⊎ ((text : Text) × (v ≡ alpaca_error text)) ⊎ (v ≡ other_error)
Venue-cases (done b) = inl (b, refl)
Venue-cases (alpaca_error text) = inr (inl (text, refl))
Venue-cases other_error = inr (inr refl)
