-- ===== src/Service/Health.antt =====
-- internal/service/health_service.go: the health state machine of the gateways, with a cache of
-- states in front of the repository. The cache's mutex guards single reads and writes only.
pub mod Invariant
pub mod Steps
pub mod Preparing
pub mod Probing
pub mod Branches
pub mod Outcome
pub mod Totality
use payment_gateway_router.Common.{String, Bool, not, ◌&&◌, ◌||◌, none, some, [], if◌then◌else◌}
use payment_gateway_router.Go.Int.{pos, ◌*ℤ◌, leb_ℤ}
use payment_gateway_router.Go.Float64
use payment_gateway_router.Go.Time.{
  Time, Duration, zero_time, before, is_zero, add, add_neg, seconds, minute,
}
use payment_gateway_router.Go.Dict
use payment_gateway_router.Action.{Action, pure, raise, gets, modify, ◌>>=◌, ◌>>◌}
use payment_gateway_router.Domain.Errors.{no_available_gateway}
use payment_gateway_router.Domain.Transaction.{TransactionStatus, success, failure, is_final}
use payment_gateway_router.Domain.Gateway.{
  GatewayState, healthy, unhealthy, half_open, GatewayRuntimeState, GatewayStats, GatewayEvent,
  is_half_open, is_unhealthy,
}
use payment_gateway_router.Domain.Config.{RoutingConfig}
use payment_gateway_router.Service.World.{Deps, World, now, current_config, on_health}

-- `SetCacheTTL`
unfoldable pub set_cache_ttl : {T H B : Type 0} → Duration → World T H B → World T H B
set_cache_ttl ttl w =
    if leb_ℤ ttl (pos 0) then w else record w { state_cache_ttl = ttl; state_cache = Dict.empty }

-- `setCachedState`
abbrev pub set_cached_state :
    {T H B : Type 0} → GatewayRuntimeState → Time → Action (World T H B) (Unit {0})
set_cached_state state at = modify λ w. record w {
  state_cache =
      Dict.put w.state_cache state.gateway
        (record { state = state; expires_at = add at w.state_cache_ttl });
}

-- `markUnhealthy`
abbrev pub mark_unhealthy : GatewayRuntimeState → RoutingConfig → Time → GatewayRuntimeState
mark_unhealthy state routing at = record state {
  state = unhealthy;
  unhealthy_until = add at (seconds routing.unhealthy_cooldown_seconds);
  half_open_in_flight = pos 0;
  half_open_probes = [];
  updated_at = at;
}

abbrev pub mark_healthy : GatewayRuntimeState → Time → GatewayRuntimeState
mark_healthy state at = record state {
  state = healthy;
  unhealthy_until = zero_time;
  half_open_in_flight = pos 0;
  half_open_probes = [];
  updated_at = at;
}

-- The outcome of a probe that was in flight.
unfoldable pub after_probe :
    GatewayRuntimeState → TransactionStatus → RoutingConfig → Time → GatewayRuntimeState
after_probe state success routing at = mark_healthy state at
after_probe state failure routing at = mark_unhealthy state routing at
after_probe state _ routing at = state

-- An outcome that arrives while the gateway is unhealthy.
unfoldable pub after_cooldown : GatewayRuntimeState → Time → GatewayRuntimeState
after_cooldown state at =
    if is_zero state.unhealthy_until || not (before at state.unhealthy_until)
    then record state {
      state = half_open;
      half_open_in_flight = pos 0;
      half_open_probes = [];
      updated_at = at;
    }
    else state

-- An outcome in any other state: the success rate of the window decides.
unfoldable pub judge :
    GatewayRuntimeState → GatewayStats → RoutingConfig → Time → GatewayRuntimeState
judge state stats routing at =
    if leb_ℤ routing.min_callback_count (pos stats.total)
      && Float64.lt stats.success_rate routing.success_rate_threshold
    then mark_unhealthy state routing at
    else mark_healthy state at

-- Whether an unhealthy gateway may be probed.
abbrev pub cooldown_over : GatewayRuntimeState → Time → Bool
cooldown_over state at =
    is_unhealthy state.state
    && not (is_zero state.unhealthy_until)
    && not (before at state.unhealthy_until)

module _ {T H B : Type 0} (deps : Deps T H B) where
  unfoldable pub load_state : String → Time → Action (World T H B) GatewayRuntimeState
  load_state gateway at = do
    on_health (deps.health.ensure gateway at)
    state ← on_health (deps.health.get gateway)
    set_cached_state state at
    pure state

  unfoldable pub cached_state : String → Time → Action (World T H B) GatewayRuntimeState
  cached_state gateway at = do
    cached ← gets (λ w. Dict.get w.state_cache gateway)
    elim cached [
      | none ↦ load_state gateway at
      | some c ↦ if before at c.expires_at then pure c.state else load_state gateway at
    ]

  -- The first `if` of `PrepareForRouting`.
  unfoldable pub open_half : Time → GatewayRuntimeState → Action (World T H B) GatewayRuntimeState
  open_half at state =
      if cooldown_over state at
      then (do
        let state' = record state {
          state = half_open;
          half_open_in_flight = pos 0;
          updated_at = at;
        }
        on_health (deps.health.save state')
        set_cached_state state' at
        pure state')
      else pure state

  -- The second one.
  unfoldable pub refresh_probes :
      String → Time → GatewayRuntimeState → Action (World T H B) GatewayRuntimeState
  refresh_probes gateway at state =
      if is_half_open state.state
      then (do
        state' ← on_health (deps.health.prune_expired_half_open_probes gateway at)
        set_cached_state state' at
        pure state')
      else pure state

  unfoldable pub prepare_for_routing :
      String → RoutingConfig → Action (World T H B) GatewayRuntimeState
  prepare_for_routing gateway routing = do
    at ← now
    state ← cached_state gateway at
    state' ← open_half at state
    refresh_probes gateway at state'

  unfoldable pub mark_probe_selected : String → String → Action (World T H B) (Unit {0})
  mark_probe_selected gateway transaction_id = do
    cfg ← current_config
    at ← now
    let expires_at = add at (seconds cfg.routing.half_open_probe_timeout_seconds)
    (state, acquired) ← on_health (
        deps.health.try_acquire_half_open_probe gateway transaction_id
          cfg.routing.half_open_probe_count expires_at at)
    set_cached_state state at
    if not acquired then raise no_available_gateway else pure tt

  unfoldable pub release_probe : String → String → Action (World T H B) (Unit {0})
  release_probe gateway transaction_id = do
    at ← now
    (state, released) ← on_health (deps.health.release_half_open_probe gateway transaction_id at)
    set_cached_state state at

  -- `Save`, then `setCachedState`: the end of `RecordOutcome`.
  unfoldable pub save_state :
      GatewayRuntimeState
      → GatewayStats
      → Time
      → Action (World T H B) (GatewayRuntimeState × GatewayStats)
  save_state state stats at = do
    on_health (deps.health.save state)
    set_cached_state state at
    pure (state, stats)

  -- The `switch` of `RecordOutcome`, on the state that the repository holds.
  unfoldable pub transition :
      GatewayState
      → String
      → String
      → TransactionStatus
      → RoutingConfig
      → Time
      → GatewayStats
      → GatewayRuntimeState
      → Action (World T H B) (GatewayRuntimeState × GatewayStats)
  transition half_open gateway transaction_id status routing at stats state = do
    (state', released) ← on_health (deps.health.release_half_open_probe gateway transaction_id at)
    if not released
        then (do set_cached_state state' at; pure (state', stats))
        else save_state (after_probe state' status routing at) stats at
  transition unhealthy gateway transaction_id status routing at stats state =
      save_state (after_cooldown state at) stats at
  transition _ gateway transaction_id status routing at stats state =
      save_state (judge state stats routing at) stats at

  abbrev record_final : Bool → GatewayEvent → Duration → Action (World T H B) (Unit {0})
  record_final final event retention =
      if final then on_health (deps.health.record_event event retention) else pure tt

  unfoldable pub record_outcome :
      String
      → String
      → TransactionStatus
      → Action (World T H B) (GatewayRuntimeState × GatewayStats)
  record_outcome gateway transaction_id status = do
    at ← now
    cfg ← current_config
    on_health (deps.health.ensure gateway at)
    record_final (is_final status)
        (record {
          gateway = gateway;
          transaction_id = transaction_id;
          status = status;
          created_at = at;
        })
        (seconds (cfg.routing.health_window_seconds *ℤ pos 2))
    state ← on_health (deps.health.get gateway)
    let window_start = add_neg at (seconds cfg.routing.health_window_seconds)
    stats ← on_health (deps.health.stats_since gateway window_start at minute)
    transition state.state gateway transaction_id status cfg.routing at stats state

  unfoldable pub state_of : String → Action (World T H B) GatewayRuntimeState
  state_of gateway = do
    at ← now
    on_health (deps.health.ensure gateway at)
    found ← on_health (deps.health.get gateway)
    state ←
        if is_half_open found.state
        then on_health (deps.health.prune_expired_half_open_probes gateway at)
        else pure found
    set_cached_state state at
    pure state

  unfoldable pub stats_of : String → Action (World T H B) GatewayStats
  stats_of gateway = do
    cfg ← current_config
    at ← now
    let window_start = add_neg at (seconds cfg.routing.health_window_seconds)
    on_health (deps.health.stats_since gateway window_start at minute)
