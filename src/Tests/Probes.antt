-- ===== src/Tests/Probes.antt =====
-- The probe scripts of the Redis repository against the in-memory repository, on a server in memory.
use payment_gateway_router.Common.{refl, [], ◌∷◌, arith}
use payment_gateway_router.Go.Int.{pos}
use payment_gateway_router.Go.Time.{Time, unix_milli}
use payment_gateway_router.Go.Dict.{get-empty}
use payment_gateway_router.Domain.Gateway.{GatewayRuntimeState, half_open}
use payment_gateway_router.Memory.Health as Memory
use payment_gateway_router.Memory.Health.{store_state}
use payment_gateway_router.Redis.Health.{
  state_key, prune_expired_half_open_probes, release_half_open_probe, try_acquire_half_open_probe,
}
use payment_gateway_router.Redis.Health as RedisHealth
use payment_gateway_router.Redis.Health.Storing.{
  save_state-Refines, get_state-Refines, ensure-Refines,
}
use payment_gateway_router.Redis.States.{state_table}
use payment_gateway_router.Redis.Health.Refinement.{
  StateSetting, StandsFor, Related, Refines, put-Related,
}
use payment_gateway_router.Redis.Health.Equivalence.{prune-Refines, release-Refines}
use payment_gateway_router.Redis.Health.Acquiring.{stamped, acquire-Refines}
use payment_gateway_router.Tests.Server
use payment_gateway_router.Tests.Server.{store, setting, no_data}

abbrev state_setting : StateSetting store
state_setting = record { base = setting; with_probes = λ table probes at tidy exact. tt }

-- One probe, which has not expired.
abbrev probing : GatewayRuntimeState
probing = record {
  gateway = "razorpay";
  state = half_open;
  unhealthy_until = 4;
  half_open_in_flight = pos 1;
  half_open_probes = record { transaction_id = "txn_1"; expires_at_unix_milli = pos 9 } ∷ [];
  updated_at = 5;
}

stands : StandsFor store state_setting (state_table store.formats probing) probing
unfolding state_table
stands = record {
  table = state_table store.formats probing;
  parsed = refl;
  decoded = refl;
  exact = tt;
  reads = record {
    gateway = refl;
    kind = refl;
    spelled = refl;
    unhealthy_until = refl;
    in_flight = refl;
    probes = refl;
    updated_at = refl;
  };
  tidy = (((refl, omega arith), tt), omega arith);
}

empty_Related : Related store state_setting Memory.new no_data
empty_Related g plain = rw (get-empty {V = GatewayRuntimeState} g) tt

abbrev books : Memory.Store
books = store_state Memory.new "razorpay" probing

abbrev keys : Server.Memory
keys =
    state_setting.base.server.store (state_key store "razorpay") (state_table store.formats probing)
      no_data

related : Related store state_setting books keys
related =
    put-Related store state_setting Memory.new no_data "razorpay" probing
      (state_table store.formats probing) empty_Related (refl, refl) stands

-- Five milliseconds after the epoch.
abbrev now : Time
now = 62135596800005000000

prune-Refines_example :
    Refines store state_setting
      (Memory.prune_expired_half_open_probes "razorpay" now books)
      (prune_expired_half_open_probes store "razorpay" now keys)
prune-Refines_example =
    prune-Refines store state_setting "razorpay" now books keys (omega arith) (refl, refl) related

release-Refines_example :
    Refines store state_setting
      (Memory.release_half_open_probe "razorpay" "txn_1" now books)
      (release_half_open_probe store "razorpay" "txn_1" now keys)
release-Refines_example =
    release-Refines store state_setting "razorpay" now books keys "txn_1" (omega arith) (refl, refl)
      related

acquire-Refines_example :
    Refines store state_setting
      (stamped "razorpay" now
        (Memory.try_acquire_half_open_probe "razorpay" "txn_2" (pos 2) now now books))
      (try_acquire_half_open_probe store "razorpay" "txn_2" (pos 2) now now keys)
unfolding unix_milli
acquire-Refines_example =
    acquire-Refines store state_setting "razorpay" "txn_2" (pos 2) now now books keys (omega arith)
      (refl, refl) (refl, omega arith) (omega arith) related

save_state-Refines_example :
    Refines store state_setting
      (Memory.save probing Memory.new)
      (RedisHealth.save store probing no_data)
save_state-Refines_example =
    save_state-Refines store state_setting Memory.new no_data probing
      (refl, omega arith, omega arith, (((refl, omega arith), tt), omega arith)) tt (refl, refl)
      empty_Related

get_state-Refines_example :
    Refines store state_setting
      (Memory.get "razorpay" books)
      (RedisHealth.get store "razorpay" keys)
get_state-Refines_example =
    get_state-Refines store state_setting books keys "razorpay" (refl, refl) related

ensure-Refines_example :
    Refines store state_setting
      (Memory.ensure "payu" now books)
      (RedisHealth.ensure store "payu" now keys)
ensure-Refines_example =
    ensure-Refines store state_setting books keys "payu" (refl, refl) related now (omega arith) tt
