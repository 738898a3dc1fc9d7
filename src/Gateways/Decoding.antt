-- ===== src/Gateways/Decoding.antt =====
-- The callbacks that internal/adapters/gateway decodes.
use payment_gateway_router.Common.{
  ◌≡◌, refl, String, Bool, true, false, Option, none, some, List, [], ◌∷◌, All, if◌then◌else◌,
}
use payment_gateway_router.Go.Text.{trim_space, lower_is}
use payment_gateway_router.Domain.Errors.{Result, ok, err, invalid_callback}
use payment_gateway_router.Domain.Outcomes.{WhenOk, bind-WhenOk, unknown}
use payment_gateway_router.Domain.Transaction.{TransactionStatus, is_final}
use payment_gateway_router.Domain.Gateway.{GatewayCallback}
use payment_gateway_router.Gateways.{
  Library, Decoder, RazorpayRequest, PayuRequest, CashfreeRequest, status_of, parse_gateway_status,
  razorpay_callback, payu_callback, cashfree_callback, decode_loop, decode, decoders, client,
  razorpay_statuses, payu_statuses, cashfree_statuses,
}

abbrev IsFinalEntry : String × TransactionStatus → Type 0
IsFinalEntry (word, status) = is_final status ≡ true

abbrev SomeFinal : Option TransactionStatus → Type 0
SomeFinal none = Unit
SomeFinal (some status) = is_final status ≡ true

if-SomeFinal :
    (b : Bool) (x y : Option TransactionStatus)
    → SomeFinal x
    → SomeFinal y
    → SomeFinal (if b then x else y)
if-SomeFinal true x y p q = p
if-SomeFinal false x y p q = q

status_of-final :
    (value : String) (statuses : List (String × TransactionStatus))
    → All IsFinalEntry statuses
    → SomeFinal (status_of value statuses)
unfolding status_of
status_of-final value [] h = tt
status_of-final value ((word, status) ∷ rest) (h, hs) =
    if-SomeFinal (lower_is value word) (some status) _ h (status_of-final value rest hs)

abbrev Final : TransactionStatus → Type 0
Final status = is_final status ≡ true

found-Final :
    (o : Option TransactionStatus)
    → SomeFinal o
    → WhenOk Final (elim o [ none ↦ err invalid_callback | some status ↦ ok status ])
found-Final none h = tt
found-Final (some status) h = h

parse-Final :
    (value : String) (statuses : List (String × TransactionStatus))
    → All IsFinalEntry statuses
    → WhenOk Final (parse_gateway_status value statuses)
unfolding parse_gateway_status
parse-Final value statuses h = found-Final _ (status_of-final (trim_space value) statuses h)

module _ {Payload : Type 0} (library : Library Payload) where
  abbrev pub is_known : String → Bool
  is_known gateway = elim (client library gateway) [ none ↦ false | some _ ↦ true ]

  -- A callback that the service can work with.
  abbrev pub Usable : GatewayCallback → Type 0
  Usable callback = (is_final callback.status ≡ true) × (is_known callback.gateway ≡ true)

  razorpay-Usable : (request : RazorpayRequest) → WhenOk Usable (razorpay_callback request)
  unfolding razorpay_callback client
  razorpay-Usable request =
      bind-WhenOk Final Usable (parse_gateway_status request.entity.status razorpay_statuses) _
        (parse-Final _ razorpay_statuses (refl, (refl, (refl, tt)))) (λ status h. (h, refl))

  payu-Usable : (request : PayuRequest) → WhenOk Usable (payu_callback request)
  unfolding payu_callback client
  payu-Usable request =
      bind-WhenOk Final Usable (parse_gateway_status request.status payu_statuses) _
        (parse-Final _ payu_statuses (refl, (refl, (refl, tt)))) (λ status h. (h, refl))

  cashfree-Usable : (request : CashfreeRequest) → WhenOk Usable (cashfree_callback request)
  unfolding cashfree_callback client
  cashfree-Usable request =
      bind-WhenOk Final Usable
        (parse_gateway_status request.payment.payment_status cashfree_statuses) _
        (parse-Final _ cashfree_statuses (refl, (refl, (refl, (refl, tt))))) (λ status h. (h, refl))

  first-Usable :
      (r later : Result GatewayCallback)
      → WhenOk Usable r
      → WhenOk Usable later
      → WhenOk Usable (elim r [ ok callback ↦ ok callback | err _ ↦ later ])
  first-Usable (ok c) later h k = h
  first-Usable (err e) later h k = k

  decode_loop-Usable :
      (payload : Payload) (ds : List (Decoder Payload))
      → All (λ d. WhenOk Usable (d payload)) ds
      → WhenOk Usable (decode_loop payload ds)
  unfolding decode_loop
  decode_loop-Usable payload [] h = tt
  decode_loop-Usable payload (d ∷ ds) (h, hs) =
      first-Usable (d payload) _ h (decode_loop-Usable payload ds hs)

  -- Every callback that `Decode` returns, whichever gateway's payload it was, has a final status, so
  -- that `Complete` does not refuse it, and names a gateway for which the registry has a client.
  pub decode-Usable : (payload : Payload) → WhenOk Usable (decode library payload)
  unfolding decode
  decode-Usable payload = decode_loop-Usable payload (decoders library) (
    bind-WhenOk (λ _. Unit {0}) Usable (library.cashfree_request payload) cashfree_callback
        (unknown _) (λ r _. cashfree-Usable r),
    (
      bind-WhenOk (λ _. Unit {0}) Usable (library.payu_request payload) payu_callback (unknown _)
          (λ r _. payu-Usable r),
      (
        bind-WhenOk (λ _. Unit {0}) Usable (library.razorpay_request payload) razorpay_callback
            (unknown _) (λ r _. razorpay-Usable r),
        tt,
      ),
    ),
  )
