-- ===== src/Http/Asked.antt =====
-- What a body of `POST /transactions/callback` asks of the service, described apart from the decoding of
-- internal/adapters/http/router.go, and that the decoding finds it.
use payment_gateway_router.Common.{
  ◌≡◌, refl, String, not, Option, none, some, str_eq, if◌then◌else◌, Bool-cases, inl, inr, ◌∙◌,
}
use payment_gateway_router.Domain.Errors
use payment_gateway_router.Domain.Errors.{
  Error, Result, ok, err, conflict, gateway_mismatch, invalid_callback, invalid_status,
  no_available_gateway, not_found, unsupported_gateway, message,
}
use payment_gateway_router.Domain.Transaction.{
  is_final, TransactionStatus, success, failure, parse_transaction_status,
}
use payment_gateway_router.Domain.Gateway.{GatewayCallback}
use payment_gateway_router.Service.Transactions.{CallbackInput, callback}
use payment_gateway_router.Go.Text.{trim_space, lower_is}
use payment_gateway_router.Http.{
  Json, decode_callback, CallbackRequest, decode_normalized_callback, decode_gateway_callback,
  final_status, decoded,
}

-- What the service is asked, for texts that are trimmed: nothing without an ID, a gateway or a final
-- status.
abbrev pub answerable : String → String → String → TransactionStatus → String → Option CallbackInput
answerable transaction_id order_id gateway status reason =
    if str_eq (trim_space transaction_id) ""
    then none
    else if str_eq (trim_space gateway) ""
    then none
    else if not (is_final status)
    then none
    else some (record {
      transaction_id = trim_space transaction_id;
      order_id = trim_space order_id;
      gateway = trim_space gateway;
      status = status;
      reason = trim_space reason;
    })

-- The final status that a text names, in any case and with spaces around it.
abbrev pub named_status : String → Option TransactionStatus
named_status value =
    if lower_is (trim_space value) "pending"
    then none
    else if lower_is (trim_space value) "success"
    then some success
    else if lower_is (trim_space value) "failure"
    then some failure
    else none

-- What a body in the normalized form asks, for the final status that it names.
abbrev pub normalized_input : CallbackRequest → Option TransactionStatus → Option CallbackInput
normalized_input payload none = none
normalized_input payload (some status) =
    answerable payload.transaction_id payload.order_id payload.gateway status payload.reason

-- What a callback of a gateway's own form asks.
abbrev pub gateway_input : Result GatewayCallback → Option CallbackInput
gateway_input (err e) = none
gateway_input (ok callback) =
    answerable callback.transaction_id callback.order_id callback.gateway callback.status
      callback.reason

module _ {Payload : Type 0} (json : Json Payload)
    (callbacks : Option (Payload → Result GatewayCallback)) where
  -- What a body asks that is not in the normalized form. The error of a JSON decoder is never
  -- `ErrInvalidStatus`; one that is would end the decoding.
  abbrev pub foreign_input : Error → Payload → Option CallbackInput
  foreign_input invalid_status body = none
  foreign_input _ body = elim callbacks [ none ↦ none | some decode ↦ gateway_input (decode body) ]

  abbrev pub usable : Result Payload → Option CallbackInput
  usable (err e) = none
  usable (ok body) = elim (json.callback_request body) [
    | ok payload ↦ normalized_input payload (named_status payload.status)
    | err e ↦ foreign_input e body
  ]

abbrev pub complete_input : CallbackInput → Option CallbackInput
complete_input received =
    answerable received.transaction_id received.order_id received.gateway received.status
      received.reason

abbrev pub as_input : Result CallbackInput → Option CallbackInput
as_input (err e) = none
as_input (ok input) = complete_input input

as_input-decode_gateway_callback :
    {Payload : Type 0} (body : Payload) (callbacks : Option (Payload → Result GatewayCallback))
    → as_input (decode_gateway_callback callbacks body)
      ≡ (elim callbacks [ none ↦ none | some decode ↦ gateway_input (decode body) ])
as_input-decode_gateway_callback body none = refl
as_input-decode_gateway_callback body (some decode) = as_gateway (decode body)
  where
    as_gateway :
        (r : Result GatewayCallback)
        → as_input (Errors.◌>>=◌ r (λ callback. ok (decoded callback))) ≡ gateway_input r
    as_gateway (err e) = refl
    as_gateway (ok callback) = refl

module _ {Payload : Type 0} (json : Json Payload)
    (callbacks : Option (Payload → Result GatewayCallback)) (body : Payload) where
  normalized_body :
      (payload : CallbackRequest)
      → json.callback_request body ≡ ok payload
      → as_input (decode_callback json callbacks body)
        ≡ normalized_input payload (named_status payload.status)
  unfolding decode_callback decode_normalized_callback final_status parse_transaction_status
  normalized_body payload e =
      let value = trim_space payload.status in
      elim (Bool-cases (lower_is value "pending")) [
        | inl p ↦ rw (as_input, e, p) refl
        | inr p ↦ elim (Bool-cases (lower_is value "success")) [
          | inl q ↦ rw (as_input, e, p, q) refl
          | inr q ↦ elim (Bool-cases (lower_is value "failure")) [
            | inl r ↦ rw (as_input, e, p, q, r) refl
            | inr r ↦ rw (as_input, e, p, q, r) refl
          ]
        ]
      ]

  foreign_body :
      (x : Error)
      → json.callback_request body ≡ err x
      → as_input (decode_callback json callbacks body) ≡ foreign_input json callbacks x body
  unfolding decode_callback decode_normalized_callback
  foreign_body invalid_status e = rw (as_input, e) refl
  foreign_body conflict e = rw (as_input, e) (as_input-decode_gateway_callback body callbacks)
  foreign_body gateway_mismatch e =
      rw (as_input, e) (as_input-decode_gateway_callback body callbacks)
  foreign_body invalid_callback e =
      rw (as_input, e) (as_input-decode_gateway_callback body callbacks)
  foreign_body no_available_gateway e =
      rw (as_input, e) (as_input-decode_gateway_callback body callbacks)
  foreign_body not_found e = rw (as_input, e) (as_input-decode_gateway_callback body callbacks)
  foreign_body unsupported_gateway e =
      rw (as_input, e) (as_input-decode_gateway_callback body callbacks)
  foreign_body (message s) e = rw (as_input, e) (as_input-decode_gateway_callback body callbacks)

  pub as_input-decode_callback :
      (r : Result CallbackRequest)
      → json.callback_request body ≡ r
      → as_input (decode_callback json callbacks body) ≡ usable json callbacks (ok body)
  as_input-decode_callback (ok payload) e = normalized_body payload e ∙ rw (usable, e) refl
  as_input-decode_callback (err x) e = foreign_body x e ∙ rw (usable, e) refl
