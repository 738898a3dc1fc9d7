-- ===== src/Tests/Health.antt =====
-- The in-memory repository of gateway states at concrete calls.
use payment_gateway_router.Common.{◌≡◌, ◌+◌, List, [], ◌∷◌, count, arith}
use payment_gateway_router.Go.Int.{pos}
use payment_gateway_router.Go.Time.{minute, add_neg}
use payment_gateway_router.Domain.Errors.{ok}
use payment_gateway_router.Domain.Transaction.{success, failure}
use payment_gateway_router.Domain.Gateway.{GatewayEvent, half_open}
use payment_gateway_router.Memory.Health.{Store, new, initial, record_event, stats_since}
use payment_gateway_router.Memory.Health.Probes.{
  Call, resets, acquires, releases, run, IsLimited, run-IsLimited, new-IsLimited,
}
use payment_gateway_router.Memory.Health.Stats.{
  is_counted, stats_of, stats_since_lem, count-record_event,
}

abbrev calls : List Call
calls =
    resets (record (initial "payu" 0) { state = half_open })
    ∷ acquires "payu" "txn_1" 90000000000 0
    ∷ acquires "payu" "txn_2" 90000000000 1
    ∷ acquires "payu" "txn_3" 90000000000 2
    ∷ releases "payu" "txn_1" 3
    ∷ []

run-IsLimited_example : IsLimited 2 (run 2 calls new)
run-IsLimited_example = run-IsLimited 2 calls new (new-IsLimited 2)

abbrev succeeded : GatewayEvent
succeeded = record {
  gateway = "payu";
  transaction_id = "txn_1";
  status = success;
  created_at = 500;
}

abbrev failed : GatewayEvent
failed = record { gateway = "payu"; transaction_id = "txn_2"; status = failure; created_at = 600 }

-- At either end of the window, outside of it, and of another gateway.
abbrev events : Store
events = record new {
  events =
      succeeded
      ∷ failed
      ∷ record succeeded { created_at = 400 }
      ∷ record succeeded { created_at = 700 }
      ∷ record succeeded { created_at = 399 }
      ∷ record succeeded { created_at = 701 }
      ∷ record succeeded { gateway = "razorpay" }
      ∷ [];
}

stats_since_lem_example :
    stats_since "payu" 400 700 minute events ≡ (ok (stats_of "payu" 3 1), events)
stats_since_lem_example = stats_since_lem "payu" 400 700 minute events

count-record_event_example :
    count (is_counted failure "payu" 400 700) (record_event failed (pos 300) events).1.events
    ≡ 1 + 1
unfolding add_neg
count-record_event_example =
    count-record_event failure "payu" 400 700 failed (pos 300) events (omega arith)
