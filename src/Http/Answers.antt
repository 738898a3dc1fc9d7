-- ===== src/Http/Answers.antt =====
-- The status codes of internal/adapters/http/router.go over the in-memory repositories.
use payment_gateway_router.Common.{
  ℕ, ◌≡◌, refl, String, Option, none, some, str_eq, Bool-cases, inl, inr, subst,
}
use payment_gateway_router.Go.Dict
use payment_gateway_router.Action.Post.{Post}
use payment_gateway_router.Domain.Errors.{Result, ok, err}
use payment_gateway_router.Domain.Transaction.{is_final}
use payment_gateway_router.Domain.Gateway.{GatewayCallback}
use payment_gateway_router.Ports.{GatewayClientRegistry}
use payment_gateway_router.Memory.Transactions
use payment_gateway_router.Memory.Health
use payment_gateway_router.Memory.Blacklist
use payment_gateway_router.Service.World.{World}
use payment_gateway_router.Service.Transactions.{CallbackInput, CallbackResult, callback}
use payment_gateway_router.Service.Transactions.Answering.{
  Verdict, unknown, mismatched, contradicted, duplicate, accepted, verdict, Answer, Refusal, deps,
}
use payment_gateway_router.Service.Transactions.Verdicts.{callback-verdict}
use payment_gateway_router.Http.Asked.{complete_input, as_input, usable, as_input-decode_callback}
use payment_gateway_router.Http.{
  Json, Response, callback_body, write_json, respond, trimmed, decode_callback, process_callback,
  handle_callback, write_service_error, refuse_callback, is_invalid_status,
}

abbrev MemoryWorld : Type 0
MemoryWorld = World Transactions.Store Health.Store Blacklist.Store

abbrev pub code_of : Verdict → ℕ
code_of unknown = 404
code_of mismatched = 409
code_of contradicted = 409
code_of (duplicate t) = 200
code_of (accepted t) = 200

-- The answer to a callback: 400 with nothing changed, or the code of the verdict on it.
abbrev pub Expected : Option CallbackInput → MemoryWorld → Response × MemoryWorld → Type 0
Expected none w (response, w') = (response.status ≡ 400) × (w' ≡ w)
Expected (some input) w (response, w') =
    response.status
    ≡ code_of (
        verdict (w.clock w.clock_reads) input
          (Dict.get w.transactions.transactions input.transaction_id))

respond-code_of :
    (w0 : MemoryWorld) (id : String) (v : Verdict) (r : Result CallbackResult × MemoryWorld)
    → Post (Answer id v) (Refusal w0 v) r
    → (respond (λ result. write_json 200 (callback_body result)) r).0.status ≡ code_of v
unfolding write_service_error
respond-code_of w0 id (duplicate t) (ok result, w) h = refl
respond-code_of w0 id (accepted t) (ok result, w) h = refl
respond-code_of w0 id unknown (ok result, w) h = absurd h
respond-code_of w0 id mismatched (ok result, w) h = absurd h
respond-code_of w0 id contradicted (ok result, w) h = absurd h
respond-code_of w0 id unknown (err e, w) h = rw h.0 refl
respond-code_of w0 id mismatched (err e, w) h = rw h.0 refl
respond-code_of w0 id contradicted (err e, w) h = rw h.0 refl
respond-code_of w0 id (duplicate t) (err e, w) h = absurd h
respond-code_of w0 id (accepted t) (err e, w) h = absurd h

module _ (gateways : GatewayClientRegistry) where
  process_callback-Expected :
      (received : CallbackInput) (w : MemoryWorld)
      → Expected (complete_input received) w (process_callback (deps gateways) received w)
  unfolding process_callback
  process_callback-Expected received w =
      let input = trimmed received in
      elim (Bool-cases (str_eq input.transaction_id "")) [
        | inl e ↦ rw e (refl, refl)
        | inr e ↦ elim (Bool-cases (str_eq input.gateway "")) [
          | inl f ↦ rw (e, f) (refl, refl)
          | inr f ↦ elim (Bool-cases (is_final input.status)) [
            | inr g ↦ rw (e, f, g) (refl, refl)
            | inl g ↦
                rw (e, f, g)
                  (respond-code_of w input.transaction_id _ (callback (deps gateways) input w)
                    (callback-verdict gateways input w g))
          ]
        ]
      ]

  module _ {Payload : Type 0} (json : Json Payload)
      (callbacks : Option (Payload → Result GatewayCallback)) where
    decoded_as :
        (r : Result CallbackInput) (w : MemoryWorld)
        → Expected (as_input r) w (elim r [
          | err e ↦ (refuse_callback e, w)
          | ok input ↦ process_callback (deps gateways) input w
        ])
    decoded_as (ok input) w = process_callback-Expected input w
    decoded_as (err e) w = elim (Bool-cases (is_invalid_status e)) [
      | inl bad ↦ rw bad (refl, refl)
      | inr unlike ↦ rw unlike (refl, refl)
    ]

    -- A callback is answered, over the in-memory repositories, with a code that its body and the
    -- transaction stored under its ID decide. A body in the normalized form asks by its own fields,
    -- another one by what the gateways' decoders, if there are any, make of it, every text but
    -- the status trimmed. The code is 400, with nothing changed, when the body is unreadable or in
    -- no form, or lacks an ID, a gateway or the status success or failure; otherwise 404 for
    -- an unknown transaction, 409 for another gateway, another order or the other final status,
    -- and 200 for a new outcome or a repeated one. So it is never answered with an internal error.
    pub handle_callback-Expected :
        (read : Result Payload) (w : MemoryWorld)
        → Expected
            (usable json callbacks read)
            w
            (handle_callback (deps gateways) json callbacks read w)
    unfolding handle_callback
    handle_callback-Expected (err e) w = (refl, refl)
    handle_callback-Expected (ok body) w =
        subst
          (λ asked. Expected asked w (handle_callback (deps gateways) json callbacks (ok body) w))
          (as_input-decode_callback json callbacks body _ refl)
          (decoded_as (decode_callback json callbacks body) w)
