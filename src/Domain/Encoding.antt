-- ===== src/Domain/Encoding.antt =====
-- What encoding/json refuses to write of the values of internal/domain: a float64 that is not finite
-- and a `time.Time` after the year 9999, each with an error, the first one in the order of the
-- fields. Everything else of those types has a JSON text.
use payment_gateway_router.Common.{Option, none, some, leb}
use payment_gateway_router.Go.Float64.{Float64, fin}
use payment_gateway_router.Go.Time.{Time}
use payment_gateway_router.Domain.Errors.{Result, ok, err, message, fail_if, ◌>>◌}
use payment_gateway_router.Domain.Json.{
  Json, Items, Fields, null, bool, number, text, array, object, nil, cons, end, field,
}
use payment_gateway_router.Domain.Transaction.{Transaction}
use payment_gateway_router.Domain.Gateway.{GatewayRuntimeState, GatewayStats}
use payment_gateway_router.Domain.Config.{RoutingConfig}

abbrev pub encode_float : Float64 → Result (Unit {0})
encode_float (fin k) = ok tt
encode_float _ = err (message "json: unsupported value")

-- 315537897600 seconds after the year 1 the year 10000 begins.
abbrev pub encode_time : Time → Result (Unit {0})
encode_time t =
    fail_if (leb 315537897600000000000 t)
      (message "json: error calling MarshalJSON for type time.Time: year outside of range [0,9999]")

unfoldable mutual
  pub encode_value : Json → Result (Unit {0})
  encode_value null = ok tt
  encode_value (bool b) = ok tt
  encode_value (number x) = encode_float x
  encode_value (text s) = ok tt
  encode_value (array items) = encode_items items
  encode_value (object fields) = encode_fields fields

  pub encode_items : Items → Result (Unit {0})
  encode_items nil = ok tt
  encode_items (cons value more) = let rest = encode_items more in encode_value value >> rest

  pub encode_fields : Fields → Result (Unit {0})
  encode_fields end = ok tt
  encode_fields (field name value more) =
      let rest = encode_fields more in encode_value value >> rest

abbrev pub encode_instrument : Option Fields → Result (Unit {0})
encode_instrument none = ok tt
encode_instrument (some fields) = encode_fields fields

abbrev pub encode_pointer : Option Time → Result (Unit {0})
encode_pointer none = ok tt
encode_pointer (some t) = encode_time t

abbrev pub encode_transaction : Transaction → Result (Unit {0})
encode_transaction t =
    encode_float t.amount
    >> (encode_instrument t.payment_instrument
        >> (encode_time t.created_at
            >> (encode_time t.updated_at >> encode_pointer t.completed_at)))

abbrev pub encode_state : GatewayRuntimeState → Result (Unit {0})
encode_state state = encode_time state.unhealthy_until >> encode_time state.updated_at

abbrev pub encode_stats : GatewayStats → Result (Unit {0})
encode_stats stats = encode_float stats.success_rate

abbrev pub encode_routing : RoutingConfig → Result (Unit {0})
encode_routing routing = encode_float routing.success_rate_threshold
