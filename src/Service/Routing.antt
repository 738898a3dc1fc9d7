-- ===== src/Service/Routing.antt =====
-- internal/service/routing_service.go: the choice of a gateway. `SelectGateway` is one step here:
-- its cache is rebuilt under the cache's mutex, and the counter is one atomic addition.
pub mod Selection
pub mod Fairness
pub mod Exclusion
pub mod Effects
pub mod Remaining
pub mod Progress
use payment_gateway_router.Common.{
  ℕ, ◌+◌, ◌%◌, ◌^◌, String, Bool, true, false, not, ◌||◌, Option, none, some, List, [], ◌∷◌, ◌++◌,
  if◌then◌else◌,
}
use payment_gateway_router.Go.Int.{ℤ, pos, pos_part, ◌+ℤ◌, ltb_ℤ, leb_ℤ}
use payment_gateway_router.Go.Time.{Time, Duration, before, add}
use payment_gateway_router.Go.Dict
use payment_gateway_router.Go.Dict.{Dict}
use payment_gateway_router.Action.{Action, pure, raise, lift, gets, modify, ◌>>=◌, ◌>>◌}
use payment_gateway_router.Domain.Errors.{Error, Result, ok, err, no_available_gateway}
use payment_gateway_router.Domain.Gateway.{GatewayState, healthy, half_open, GatewayRuntimeState}
use payment_gateway_router.Domain.Config.{RoutingConfig, GatewayConfig}
use payment_gateway_router.Service.World.{
  Deps, World, RoutingSnapshot, no_snapshot, now, current_config,
}
use payment_gateway_router.Service.Health.{prepare_for_routing, mark_probe_selected}

pub record GatewaySelection : Type 0 where
  pub gateway : GatewayConfig
  pub half_open_probe : Bool

pub record GatewaySelectionRequest : Type 0 where
  pub transaction_id : String
  pub order_id : String
  pub excluded_gateways : Dict (Unit {0})

-- `SetCacheTTL`
unfoldable pub set_cache_ttl : {T H B : Type 0} → Duration → World T H B → World T H B
set_cache_ttl ttl w =
    if leb_ℤ ttl (pos 0)
    then w
    else record w { routing_cache_ttl = ttl; routing_cache = no_snapshot }

-- `invalidateCache`
abbrev pub invalidate_cache : {T H B : Type 0} → Action (World T H B) (Unit {0})
invalidate_cache = modify λ w. record w { routing_cache = no_snapshot }

-- The first loop of `selectWeighted`.
unfoldable pub total_weight : ℤ → List GatewayConfig → ℤ
total_weight total [] = total
total_weight total (c ∷ rest) =
    total_weight (if ltb_ℤ (pos 0) c.weight then total +ℤ c.weight else total) rest

-- The second one, which ends at the last candidate, `last`, if no other is met.
unfoldable pub pick : ℤ → ℤ → GatewayConfig → List GatewayConfig → GatewayConfig
pick slot running last [] = last
pick slot running last (c ∷ rest) =
    if leb_ℤ c.weight (pos 0)
    then pick slot running c rest
    else let running' = running +ℤ c.weight in
      let later = pick slot running' c rest in if ltb_ℤ slot running' then c else later

-- What `selectWeighted` returns for the counter's new value.
unfoldable pub choose : ℕ → List GatewayConfig → Option GatewayConfig
choose counter [] = none
choose counter (c ∷ rest) =
    let total = total_weight (pos 0) (c ∷ rest) in
    if leb_ℤ total (pos 0)
    then none
    else some (pick (pos (counter % pos_part total)) (pos 0) c (c ∷ rest))

-- Whether `selectWeighted` reaches the counter.
unfoldable pub counts : List GatewayConfig → Bool
counts [] = false
counts (c ∷ rest) = not (leb_ℤ (total_weight (pos 0) (c ∷ rest)) (pos 0))

unfoldable pub select_weighted :
    {T H B : Type 0} → List GatewayConfig → Action (World T H B) (Option GatewayConfig)
select_weighted candidates w =
    let next = (w.routing_counter + 1) % 2 ^ 64 in
    (
      ok (choose next candidates),
      if counts candidates then record w { routing_counter = next } else w,
    )

abbrev pub contains : Dict (Unit {0}) → String → Bool
contains d k = elim (Dict.get d k) [ none ↦ false | some _ ↦ true ]

abbrev pub is_nil : List GatewayConfig → Bool
is_nil [] = true
is_nil (_ ∷ _) = false

unfoldable pub filter_loop : List GatewayConfig → Dict (Unit {0}) → List GatewayConfig
filter_loop [] excluded = []
filter_loop (c ∷ rest) excluded =
    let filtered = filter_loop rest excluded in
    if contains excluded c.name then filtered else c ∷ filtered

unfoldable pub filter_excluded : List GatewayConfig → Dict (Unit {0}) → List GatewayConfig
filter_excluded candidates excluded =
    if is_nil candidates || Dict.is_empty excluded
    then candidates
    else filter_loop candidates excluded

-- The `switch` of the snapshot's loop.
unfoldable pub classify :
    GatewayState
    → GatewayConfig
    → GatewayRuntimeState
    → RoutingConfig
    → RoutingSnapshot
    → RoutingSnapshot
classify healthy g state routing next = record next { healthy = next.healthy ++ g ∷ [] }
classify half_open g state routing next =
    if ltb_ℤ state.half_open_in_flight routing.half_open_probe_count
    then record next { probes = next.probes ++ g ∷ [] }
    else next
classify _ g state routing next = next

module _ {T H B : Type 0} (deps : Deps T H B) where
  -- One round of the snapshot's loop.
  unfoldable pub add_candidate :
      RoutingConfig → GatewayConfig → RoutingSnapshot → Action (World T H B) RoutingSnapshot
  add_candidate routing g next = if not g.enabled || leb_ℤ g.weight (pos 0) then pure next else (do
    state ← prepare_for_routing deps g.name routing
    pure (classify state.state g state routing next))

  unfoldable pub collect :
      RoutingConfig → List GatewayConfig → RoutingSnapshot → Action (World T H B) RoutingSnapshot
  collect routing [] next = pure next
  collect routing (g ∷ rest) next = do
    next' ← add_candidate routing g next
    collect routing rest next'

  -- What `snapshot` does once it holds the lock.
  unfoldable pub rebuild : Time → Action (World T H B) RoutingSnapshot
  rebuild at = do
    cached ← gets (λ w. w.routing_cache)
    if before at cached.expires_at then pure cached else do
      cfg ← current_config
      ttl ← gets (λ w. w.routing_cache_ttl)
      next ← collect cfg.routing cfg.gateways (record no_snapshot { expires_at = add at ttl })
      modify (λ w. record w { routing_cache = next })
      pure next

  unfoldable pub snapshot : Action (World T H B) RoutingSnapshot
  snapshot = do
    at ← now
    cached ← gets (λ w. w.routing_cache)
    if before at cached.expires_at then pure cached else rebuild at

  unfoldable pub select_healthy : List GatewayConfig → Action (World T H B) GatewaySelection
  select_healthy candidates = do
    chosen ← select_weighted candidates
    elim chosen [
      | none ↦ raise no_available_gateway
      | some g ↦ pure (record { gateway = g; half_open_probe = false })
    ]

  -- `if err := MarkProbeSelected(…)`: its error is a value here.
  abbrev mark : String → String → Action (World T H B) (Result (Unit {0}))
  mark gateway transaction_id w =
      let (r, w') = mark_probe_selected deps gateway transaction_id w in (ok r, w')

  -- The half-open branch of `SelectGateway`, for candidates that are not empty.
  unfoldable pub select_probe :
      String → List GatewayConfig → List GatewayConfig → Action (World T H B) GatewaySelection
  select_probe transaction_id probes candidates = do
    chosen ← select_weighted probes
    elim chosen [
      | none ↦ raise no_available_gateway
      | some g ↦ do
        marked ← mark g.name transaction_id
        elim marked [
          | ok _ ↦ pure (record { gateway = g; half_open_probe = true })
          | err e ↦ do
            invalidate_cache
            if is_nil candidates then raise e else select_healthy candidates
        ]
    ]

  unfoldable pub select_gateway : GatewaySelectionRequest → Action (World T H B) GatewaySelection
  select_gateway request = do
    current ← snapshot
    let probes = filter_excluded current.probes request.excluded_gateways
    let candidates = filter_excluded current.healthy request.excluded_gateways
    if is_nil probes
        then select_healthy candidates
        else select_probe request.transaction_id probes candidates
