-- ===== src/Http.antt =====
-- internal/adapters/http/router.go: the handlers. What encoding/json makes of a body under
-- `DisallowUnknownFields` is a parameter, and so is the choice of a handler by net/http's mux. A
-- response keeps its status, and the value that is its JSON body or the error of writing it.
pub mod Asked
pub mod Answers
pub mod Statuses
use payment_gateway_router.Common.{
  ◌+◌, inl, inr, ◌⊎◌, ℕ, String, Bool, not, ◌||◌, Option, none, some, List, [], ◌∷◌, ◌++◌, str_eq,
  if◌then◌else◌, ◌⊎◌, inl, inr,
}
use payment_gateway_router.Go.Float64
use payment_gateway_router.Go.Float64.{Float64}
use payment_gateway_router.Go.Text.{trim_space}
use payment_gateway_router.Action.{Action, pure, ◌>>=◌, ◌>>◌}
use payment_gateway_router.Domain.Errors
use payment_gateway_router.Domain.Errors.{
  Error, Result, ok, err, conflict, gateway_mismatch, invalid_callback, invalid_status,
  no_available_gateway, not_found,
}
use payment_gateway_router.Domain.Encoding.{
  encode_transaction, encode_state, encode_stats, encode_routing,
}
use payment_gateway_router.Domain.Json.{Fields, end}
use payment_gateway_router.Domain.Transaction.{
  Transaction, TransactionStatus, is_final, parse_transaction_status,
}
use payment_gateway_router.Domain.Gateway.{GatewayRuntimeState, GatewayStats, GatewayCallback}
use payment_gateway_router.Domain.Config.{RoutingConfig, GatewayConfig, with_defaults}
use payment_gateway_router.Service.World.{Deps, World, current_config}
use payment_gateway_router.Service.Health.{state_of, stats_of}
use payment_gateway_router.Service.Transactions.{
  InitiateTransactionInput, CallbackInput, CallbackResult, initiate, callback,
}

pub record InitiateRequest : Type 0 where
  pub order_id : String
  pub amount : Float64
  pub payment_instrument : Option Fields

pub record CallbackRequest : Type 0 where
  pub transaction_id : String
  pub order_id : String
  pub status : String
  pub gateway : String
  pub reason : String

pub record GatewayStatus : Type 0 where
  pub config : GatewayConfig
  pub runtime : GatewayRuntimeState
  pub stats : GatewayStats

-- The text of an error response: a constant, or the text of an error.
pub data Message : Type 0 where
  constant : String → Message
  text_of : Error → Message

pub data Body : Type 0 where
  health_body : Body
  gateways_body : RoutingConfig → List GatewayStatus → Body
  transaction_body : Transaction → Body
  callback_body : CallbackResult → Body
  error_body : String → Message → Body

-- What is written after the status: a value as JSON, or, by `http.Error`, the text of an error.
pub data Written : Type 0 where
  json_of : Body → Written
  error_text : Error → Written

pub record Response : Type 0 where
  pub status : ℕ
  pub written : Written

abbrev pub encode_statuses : List GatewayStatus → Result (Unit {0})
encode_statuses [] = ok tt
encode_statuses (status ∷ more) =
    let rest = encode_statuses more in
    Errors.◌>>◌ (encode_state status.runtime) (Errors.◌>>◌ (encode_stats status.stats) rest)

-- `json.NewEncoder(w).Encode(payload)`, which writes nothing when it fails.
unfoldable pub encode : Body → Result (Unit {0})
encode health_body = ok tt
encode (gateways_body routing statuses) =
    Errors.◌>>◌ (encode_routing routing) (encode_statuses statuses)
encode (transaction_body t) = encode_transaction t
encode (callback_body result) =
    Errors.◌>>◌ (encode_transaction result.transaction)
      (Errors.◌>>◌ (encode_state result.gateway_state) (encode_stats result.gateway_stats))
encode (error_body code text) = ok tt

abbrev written_as : Body → Result (Unit {0}) → Written
written_as body (ok done) = json_of body
written_as body (err e) = error_text e

-- `writeJSON`: the status is sent before the payload is encoded, so that the status of `http.Error`
-- comes too late.
abbrev pub write_json : ℕ → Body → Response
write_json status body = record { status = status; written = written_as body (encode body) }

-- `writeError`

abbrev pub write_error : ℕ → String → Message → Response
write_error status code message = write_json status (error_body code message)

unfoldable pub write_service_error : Error → Response
write_service_error no_available_gateway =
    write_error 503 "no_available_gateway" (text_of no_available_gateway)
write_service_error not_found = write_error 404 "not_found" (text_of not_found)
write_service_error conflict = write_error 409 "conflict" (text_of conflict)
write_service_error gateway_mismatch = write_error 409 "gateway_mismatch" (text_of gateway_mismatch)
write_service_error invalid_status = write_error 400 "invalid_status" (text_of invalid_status)
write_service_error _ = write_error 500 "internal_error" (constant "internal server error")

-- What encoding/json makes of a body.
pub record Json (Payload : Type 0) : Type 0 where
  pub initiate_request : Payload → Result InitiateRequest
  pub callback_request : Payload → Result CallbackRequest

abbrev pub is_invalid_status : Error → Bool
is_invalid_status invalid_status = Bool.true
is_invalid_status _ = Bool.false

abbrev pub normalized : CallbackRequest → TransactionStatus → CallbackInput
normalized payload status = record {
  transaction_id = payload.transaction_id;
  order_id = payload.order_id;
  gateway = payload.gateway;
  status = status;
  reason = payload.reason;
}

-- The status of `decodeNormalizedCallback`: any error is `ErrInvalidStatus`.
unfoldable pub final_status : String → Result TransactionStatus
final_status value = elim (parse_transaction_status value) [
  | err _ ↦ err invalid_status
  | ok status ↦ if not (is_final status) then err invalid_status else ok status
]

abbrev pub decoded : GatewayCallback → CallbackInput
decoded callback = record {
  transaction_id = callback.transaction_id;
  order_id = callback.order_id;
  gateway = callback.gateway;
  status = callback.status;
  reason = callback.reason;
}

-- The gateways' decoders, tried after the normalized form; `none` where the source has nil.
abbrev pub decode_gateway_callback :
    {Payload : Type 0} → Option (Payload → Result GatewayCallback) → Payload → Result CallbackInput
decode_gateway_callback none body = err invalid_callback
decode_gateway_callback (some decode) body =
    Errors.◌>>=◌ (decode body) λ callback. ok (decoded callback)

module _ {Payload : Type 0} (json : Json Payload)
    (callbacks : Option (Payload → Result GatewayCallback)) where
  unfoldable pub decode_normalized_callback : Payload → Result CallbackInput
  decode_normalized_callback body =
      Errors.◌>>=◌ (json.callback_request body) λ payload.
        Errors.◌>>=◌ (final_status payload.status) λ status. ok (normalized payload status)

  unfoldable pub decode_callback : Payload → Result CallbackInput
  decode_callback body = elim (decode_normalized_callback body) [
    | ok input ↦ ok input
    | err e ↦ if is_invalid_status e then err e else decode_gateway_callback callbacks body
  ]

-- A handler never fails: it answers.
abbrev pub Handler : Type 0 → Type 0
Handler S = S → Response × S

-- The answer to what a service returns.
abbrev pub respond : {S A : Type 0} → (A → Response) → Result A × S → Response × S
respond success (ok a, s) = (success a, s)
respond success (err e, s) = (write_service_error e, s)

-- The answer to a body that no decoder accepts.
abbrev pub refuse_callback : Error → Response
refuse_callback e =
    if is_invalid_status e
    then write_error 400 "invalid_status" (constant "status must be success or failure")
    else write_error 400 "invalid_callback" (text_of e)

-- `strings.TrimSpace` on the fields of the input.
abbrev pub trimmed : CallbackInput → CallbackInput
trimmed input = record input {
  transaction_id = trim_space input.transaction_id;
  order_id = trim_space input.order_id;
  gateway = trim_space input.gateway;
  reason = trim_space input.reason;
}

abbrev pub or_empty_object : Option Fields → Option Fields
or_empty_object none = some end
or_empty_object (some fields) = some fields

-- `GET /health`
abbrev pub handle_health : {S : Type 0} → Handler S
handle_health s = (write_json 200 health_body, s)

module _ {T H B : Type 0} (deps : Deps T H B) where
  -- The statuses that the loop of `handleGateways` has gathered, or the response that ends it.
  abbrev pub Gathered : Type 0
  Gathered = (List GatewayStatus ⊎ Response) × World T H B

  -- `if err != nil { writeError(…); return }`
  abbrev pub or_answer :
      {A : Type 0} → String → (A → World T H B → Gathered) → Result A × World T H B → Gathered
  or_answer code k (ok a, w) = k a w
  or_answer code k (err e, w) = (inr (write_error 500 code (text_of e)), w)

  abbrev pub put_first : GatewayStatus → Gathered → Gathered
  put_first status (inl statuses, w) = (inl (status ∷ statuses), w)
  put_first status (inr response, w) = (inr response, w)

  -- The loop of `handleGateways`.
  unfoldable pub gateway_statuses : List GatewayConfig → World T H B → Gathered
  gateway_statuses [] w = (inl [], w)
  gateway_statuses (g ∷ rest) w =
      or_answer "gateway_state_error"
        (λ runtime w1.
          or_answer "gateway_stats_error"
            (λ stats w2.
              put_first (record { config = g; runtime = runtime; stats = stats })
                (gateway_statuses rest w2))
            (stats_of deps g.name w1))
        (state_of deps g.name w)

  abbrev gateways_response : RoutingConfig → List GatewayStatus ⊎ Response → Response
  gateways_response routing (inl statuses) = write_json 200 (gateways_body routing statuses)
  gateways_response routing (inr response) = response

  -- `GET /gateways`
  unfoldable pub handle_gateways : Handler (World T H B)
  handle_gateways w =
      let cfg = with_defaults (w.configs w.config_reads) in
      let (found, w') =
        gateway_statuses cfg.gateways (record w { config_reads = w.config_reads + 1 }) in
      (gateways_response cfg.routing found, w')

  -- `handleInitiate` on a decoded body.
  unfoldable pub initiate_decoded : InitiateRequest → Handler (World T H B)
  initiate_decoded payload w =
      let order_id = trim_space payload.order_id in
      if str_eq order_id ""
      then (write_error 400 "invalid_order_id" (constant "order_id is required"), w)
      else if Float64.le payload.amount (Float64.of_ℕ 0)
      then (write_error 400 "invalid_amount" (constant "amount must be greater than zero"), w)
      else respond (λ t. write_json 201 (transaction_body t))
          (initiate deps
            (record {
              order_id = order_id;
              amount = payload.amount;
              payment_instrument = or_empty_object payload.payment_instrument;
            })
            w)

  -- `processCallback`
  unfoldable pub process_callback : CallbackInput → Handler (World T H B)
  process_callback received w =
      let input = trimmed received in
      if str_eq input.transaction_id ""
      then (write_error 400 "invalid_transaction_id" (constant "transaction_id is required"), w)
      else if str_eq input.gateway ""
      then (write_error 400 "invalid_gateway" (constant "gateway is required"), w)
      else if not (is_final input.status)
      then (write_error 400 "invalid_status" (constant "status must be success or failure"), w)
      else respond (λ result. write_json 200 (callback_body result)) (callback deps input w)

  module _ {Payload : Type 0} (json : Json Payload)
      (callbacks : Option (Payload → Result GatewayCallback)) where
    -- `POST /transactions/initiate`
    unfoldable pub handle_initiate : Payload → Handler (World T H B)
    handle_initiate body w = elim (json.initiate_request body) [
      | err e ↦ (write_error 400 "invalid_json" (text_of e), w)
      | ok payload ↦ initiate_decoded payload w
    ]

    -- `POST /transactions/callback`, for what reading the body gave.
    unfoldable pub handle_callback : Result Payload → Handler (World T H B)
    handle_callback read w = elim read [
      | err e ↦ (write_error 400 "invalid_callback" (text_of e), w)
      | ok body ↦ elim (decode_callback json callbacks body) [
        | err e ↦ (refuse_callback e, w)
        | ok input ↦ process_callback input w
      ]
    ]
