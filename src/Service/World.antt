-- ===== src/Service/World.antt =====
-- What the services of internal/service keep and what they are given.
use payment_gateway_router.Common.{ℕ, ◌+◌, String, List, [], Option}
use payment_gateway_router.Go.Time.{Time, Duration, zero_time}
use payment_gateway_router.Go.Dict.{Dict}
use payment_gateway_router.Action.{Action}
use payment_gateway_router.Domain.Errors.{ok}
use payment_gateway_router.Domain.Gateway.{GatewayRuntimeState}
use payment_gateway_router.Domain.Config.{AppConfig, GatewayConfig, with_defaults}
use payment_gateway_router.Ports.{
  TransactionRepository, GatewayHealthRepository, OrderGatewayBlacklistRepository,
  GatewayClientRegistry,
}

-- `cachedGatewayState` of the health service
pub record CachedGatewayState : Type 0 where
  pub state : GatewayRuntimeState
  pub expires_at : Time

-- `routingSnapshot` of the routing service
pub record RoutingSnapshot : Type 0 where
  pub healthy : List GatewayConfig
  pub probes : List GatewayConfig
  pub expires_at : Time

abbrev pub no_snapshot : RoutingSnapshot
no_snapshot = record { healthy = []; probes = []; expires_at = zero_time }

-- The collaborators of the services. `order_gateways` is `none` where the source has nil.
pub record Deps (T H B : Type 0) : Type 0 where
  pub transactions : TransactionRepository T
  pub health : GatewayHealthRepository H
  pub order_gateways : Option (OrderGatewayBlacklistRepository B)
  pub gateways : GatewayClientRegistry

-- The state. The clock, the configuration provider and the ID generator answer their n-th call
-- with the n-th value of a sequence, about which nothing is assumed.
pub record World (T H B : Type 0) : Type 0 where
  pub transactions : T
  pub health : H
  pub blacklist : B
  pub state_cache_ttl : Duration
  pub state_cache : Dict CachedGatewayState
  pub routing_counter : ℕ
  pub routing_cache_ttl : Duration
  pub routing_cache : RoutingSnapshot
  pub clock : ℕ → Time
  pub clock_reads : ℕ
  pub configs : ℕ → AppConfig
  pub config_reads : ℕ
  pub ids : ℕ → String
  pub ids_used : ℕ

module _ {T H B : Type 0} where
  -- `clock.Now()`
  abbrev pub now : Action (World T H B) Time
  now w = (ok (w.clock w.clock_reads), record w { clock_reads = w.clock_reads + 1 })

  -- `configProvider.Current(ctx).WithDefaults()`
  abbrev pub current_config : Action (World T H B) AppConfig
  current_config w = (
    ok (with_defaults (w.configs w.config_reads)),
    record w { config_reads = w.config_reads + 1 },
  )

  -- `idGenerator.NewID("txn")`
  abbrev pub new_id : Action (World T H B) String
  new_id w = (ok (w.ids w.ids_used), record w { ids_used = w.ids_used + 1 })

-- A repository's call, as a step of the world.
module _ {T H B A : Type 0} where
  abbrev pub on_transactions : Action T A → Action (World T H B) A
  on_transactions call w =
      let (r, store) = call w.transactions in (r, record w { transactions = store })

  abbrev pub on_health : Action H A → Action (World T H B) A
  on_health call w = let (r, store) = call w.health in (r, record w { health = store })

  abbrev pub on_blacklist : Action B A → Action (World T H B) A
  on_blacklist call w = let (r, store) = call w.blacklist in (r, record w { blacklist = store })
