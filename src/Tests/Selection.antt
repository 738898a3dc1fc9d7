-- ===== src/Tests/Selection.antt =====
-- The weighted selection at a concrete configuration.
use payment_gateway_router.Common.{◌≡◌, true, List, [], ◌∷◌, arith, ◌+◌}
use payment_gateway_router.Go.Int.{pos}
use payment_gateway_router.Go.Dict
use payment_gateway_router.Domain.Config.{GatewayConfig, AppConfig, default_routing_config}
use payment_gateway_router.Memory.Transactions
use payment_gateway_router.Memory.Health
use payment_gateway_router.Memory.Blacklist
use payment_gateway_router.Service.World.{World, no_snapshot}
use payment_gateway_router.Service.Routing.Selection.{weight_sum, share}
use payment_gateway_router.Service.Routing.Fairness.{times_chosen, times_chosen-eq_share}

abbrev pub candidates : List GatewayConfig
candidates =
    record { name = "razorpay"; enabled = true; weight = pos 5 }
    ∷ record { name = "payu"; enabled = true; weight = pos 3 }
    ∷ record { name = "cashfree"; enabled = true; weight = pos 2 }
    ∷ []

abbrev pub config : AppConfig
config = record { routing = default_routing_config; gateways = candidates }

abbrev pub start : World Transactions.Store Health.Store Blacklist.Store
start = record {
  transactions = Transactions.new;
  health = Health.new;
  blacklist = Blacklist.new;
  state_cache_ttl = pos 500000000;
  state_cache = Dict.empty;
  routing_counter = 0;
  routing_cache_ttl = pos 100000000;
  routing_cache = no_snapshot;
  clock = λ n. 63000000000000000000 + n;
  clock_reads = 0;
  configs = λ _. config;
  config_reads = 0;
  ids = λ _. "txn";
  ids_used = 0;
}

times_chosen-eq_share_example :
    times_chosen "payu" (weight_sum candidates) candidates start ≡ share "payu" candidates
times_chosen-eq_share_example =
    times_chosen-eq_share "payu" candidates start (omega arith) (omega arith) (omega arith)
