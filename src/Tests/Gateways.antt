-- ===== src/Tests/Gateways.antt =====
-- The decoding of callbacks for a library whose payloads are PayU's requests.
use payment_gateway_router.Common.{◌≡◌, refl}
use payment_gateway_router.Go.Text.{trim_space, lower_is}
use payment_gateway_router.Domain.Errors.{ok, err, message}
use payment_gateway_router.Domain.Outcomes.{WhenOk}
use payment_gateway_router.Domain.Transaction.{failure}
use payment_gateway_router.Gateways.{
  Library, PayuRequest, decode, decode_loop, payu_callback, parse_gateway_status, status_of,
}
use payment_gateway_router.Gateways.Decoding.{Usable, decode-Usable}

abbrev library : Library PayuRequest
library = record {
  razorpay_request = λ _. err (message "unknown field");
  payu_request = λ request. ok request;
  cashfree_request = λ _. err (message "unknown field");
  decimal = λ _. "1";
}

abbrev failed : PayuRequest
failed = record {
  transaction_id = "txn_1";
  order_id = " ORD1";
  status = "Failed ";
  error_message = "declined";
}

decoded :
    decode library failed
    ≡ ok (record {
      transaction_id = "txn_1";
      order_id = "ORD1";
      gateway = "payu";
      status = failure;
      reason = "declined";
    })
unfolding decode decode_loop payu_callback parse_gateway_status status_of trim_space lower_is
decoded = refl

decode-Usable_example : WhenOk (Usable library) (decode library failed)
decode-Usable_example = decode-Usable library failed
