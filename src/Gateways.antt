-- ===== src/Gateways.antt =====
-- internal/adapters/gateway: the mock gateway clients and the decoders of their callbacks. What
-- encoding/json makes of a payload under `DisallowUnknownFields`, and `%d`, are parameters.
pub mod Decoding
use Prim.Native.String.{◌++◌ as append}
use payment_gateway_router.Common.{
  String, Bool, Option, none, some, List, [], ◌∷◌, str_eq, if◌then◌else◌, ◌||◌,
}
use payment_gateway_router.Go.Int.{ℤ}
use payment_gateway_router.Go.Text.{trim_space, lower_is}
use payment_gateway_router.Go.Dict
use payment_gateway_router.Go.Dict.{Dict}
use payment_gateway_router.Domain.Errors.{Result, ok, err, invalid_callback, ◌>>=◌}
use payment_gateway_router.Domain.Transaction.{Transaction, TransactionStatus, success, failure}
use payment_gateway_router.Domain.Gateway.{GatewayCallback, GatewayInitiation}
use payment_gateway_router.Ports.{PaymentGatewayClient, GatewayClientRegistry}

-- The request structs of the decoders; a missing field is its zero value.
pub record RazorpayEntity : Type 0 where
  pub status : String
  pub error_description : String
  pub notes : Dict String

pub record RazorpayRequest : Type 0 where
  pub event : String
  pub entity : RazorpayEntity

pub record PayuRequest : Type 0 where
  pub transaction_id : String
  pub order_id : String
  pub status : String
  pub error_message : String

pub record CashfreeOrder : Type 0 where
  pub order_id : String
  pub order_tags : Dict String

pub record CashfreePayment : Type 0 where
  pub payment_status : String
  pub payment_message : String

pub record CashfreeRequest : Type 0 where
  pub order : CashfreeOrder
  pub payment : CashfreePayment

-- `m[key]` of a `map[string]string`
abbrev pub or_empty : Option String → String
or_empty none = ""
or_empty (some s) = s

-- `statuses[normalized]`, the map as a list of its entries
unfoldable pub status_of : String → List (String × TransactionStatus) → Option TransactionStatus
status_of value [] = none
status_of value ((word, status) ∷ rest) =
    let later = status_of value rest in if lower_is value word then some status else later

unfoldable pub parse_gateway_status :
    String → List (String × TransactionStatus) → Result TransactionStatus
parse_gateway_status value statuses = elim (status_of (trim_space value) statuses) [
  | none ↦ err invalid_callback
  | some status ↦ ok status
]

abbrev pub razorpay_statuses : List (String × TransactionStatus)
razorpay_statuses = ("captured", success) ∷ ("paid", success) ∷ ("failed", failure) ∷ []

abbrev pub payu_statuses : List (String × TransactionStatus)
payu_statuses = ("success", success) ∷ ("failed", failure) ∷ ("failure", failure) ∷ []

abbrev pub cashfree_statuses : List (String × TransactionStatus)
cashfree_statuses =
    ("success", success) ∷ ("paid", success) ∷ ("failed", failure) ∷ ("failure", failure) ∷ []

unfoldable pub razorpay_callback : RazorpayRequest → Result GatewayCallback
razorpay_callback request = do
  status ← parse_gateway_status request.entity.status razorpay_statuses
  ok (record {
    transaction_id = trim_space (or_empty (Dict.get request.entity.notes "transaction_id"));
    order_id = trim_space (or_empty (Dict.get request.entity.notes "order_id"));
    gateway = "razorpay";
    status = status;
    reason = trim_space request.entity.error_description;
  })

unfoldable pub payu_callback : PayuRequest → Result GatewayCallback
payu_callback request = do
  status ← parse_gateway_status request.status payu_statuses
  ok (record {
    transaction_id = trim_space request.transaction_id;
    order_id = trim_space request.order_id;
    gateway = "payu";
    status = status;
    reason = trim_space request.error_message;
  })

unfoldable pub cashfree_callback : CashfreeRequest → Result GatewayCallback
cashfree_callback request = do
  status ← parse_gateway_status request.payment.payment_status cashfree_statuses
  ok (record {
    transaction_id = trim_space (or_empty (Dict.get request.order.order_tags "transaction_id"));
    order_id = trim_space request.order.order_id;
    gateway = "cashfree";
    status = status;
    reason = trim_space request.payment.payment_message;
  })

-- `decode` of callback.go into each of the request structs, and the decimal form of an integer.
pub record Library (Payload : Type 0) : Type 0 where
  pub razorpay_request : Payload → Result RazorpayRequest
  pub payu_request : Payload → Result PayuRequest
  pub cashfree_request : Payload → Result CashfreeRequest
  pub decimal : ℤ → String

abbrev pub Decoder : Type 0 → Type 0
Decoder Payload = Payload → Result GatewayCallback

-- The loop of `Decode`: the first decoder that accepts the payload.
unfoldable pub decode_loop :
    {Payload : Type 0} → Payload → List (Decoder Payload) → Result GatewayCallback
decode_loop payload [] = err invalid_callback
decode_loop payload (decoder ∷ rest) =
    let later = decode_loop payload rest in
    elim (decoder payload) [ ok callback ↦ ok callback | err _ ↦ later ]

module _ {Payload : Type 0} (library : Library Payload) where
  abbrev pub razorpay_decoder : Decoder Payload
  razorpay_decoder payload = library.razorpay_request payload >>= razorpay_callback

  abbrev pub payu_decoder : Decoder Payload
  payu_decoder payload = library.payu_request payload >>= payu_callback

  abbrev pub cashfree_decoder : Decoder Payload
  cashfree_decoder payload = library.cashfree_request payload >>= cashfree_callback

  -- The decoders of `NewRegistry`, in the order of their names, which `Decode` sorts.
  abbrev pub decoders : List (Decoder Payload)
  decoders = cashfree_decoder ∷ payu_decoder ∷ razorpay_decoder ∷ []

  unfoldable pub decode : Decoder Payload
  decode payload = decode_loop payload decoders

  abbrev pub razorpay_client : PaymentGatewayClient
  razorpay_client t = ok (record { reference_id = append "rzp_" t.id })

  abbrev pub payu_client : PaymentGatewayClient
  payu_client t = ok (record {
    reference_id = append "payu_" (append t.order_id (append "_" (library.decimal t.attempt_no)));
  })

  abbrev pub cashfree_client : PaymentGatewayClient
  cashfree_client t =
      ok (record { reference_id = append "cf_" (append t.order_id (append "_" t.id)) })

  -- `Client`
  unfoldable pub client : GatewayClientRegistry
  client gateway =
      if str_eq gateway "razorpay"
      then some razorpay_client
      else if str_eq gateway "payu"
      then some payu_client
      else if str_eq gateway "cashfree"
      then some cashfree_client
      else none
