-- ===== src/Service/Health/Preparing.antt =====
-- `PrepareForRouting` of internal/service/health_service.go, over the in-memory repository.
use payment_gateway_router.Common.{
  ◌≡◌, refl, String, true, false, Option, Bool-cases, inl, inr, arith, Option-cases, ◌+◌,
}
use payment_gateway_router.Domain.Gateway.{
  GatewayRuntimeState, is_half_open, is_unhealthy, half_open,
}
use payment_gateway_router.Go.Dict
use payment_gateway_router.Go.Dict.{Dict, get-put}
use payment_gateway_router.Go.Time.{Time, unix_milli}
use payment_gateway_router.Go.Time
use payment_gateway_router.Go.Int.{pos}
use payment_gateway_router.Memory.Health
use payment_gateway_router.Memory.Health.{initial, store_state, with_probes}
use payment_gateway_router.Service.Health.{
  load_state, cached_state, cooldown_over, open_half, refresh_probes, prepare_for_routing,
  RoutingConfig,
}
use payment_gateway_router.Service.Health.Invariant.{MayOpen, Inv, Held, hold, Baseline}
use payment_gateway_router.Action.Post.{Post, bind-Post, if-Post, gets-Post, step-Post}
use payment_gateway_router.Ports.{
  TransactionRepository, OrderGatewayBlacklistRepository, GatewayClientRegistry,
}
use payment_gateway_router.Service.World.{Deps, World, now, on_health}
use payment_gateway_router.Service.Health.Steps.{
  memory_deps, Settled, Broken, ensure-Inv, get-Settled, prune-Held, cache-Post, save-Post,
}

module _ {T B : Type 0} (transactions : TransactionRepository T)
    (order_gateways : Option (OrderGatewayBlacklistRepository B)) (gateways : GatewayClientRegistry)
    (before : Baseline) where
  abbrev deps : Deps T Health.Store B
  deps = memory_deps transactions order_gateways gateways

  pub load_state-Settled :
      (g : String) (at : Time) (w : World T Health.Store B)
      → Inv before w
      → Post (Settled before g) (Broken before) (load_state deps g at w)
  unfolding load_state
  load_state-Settled g at w h =
      bind-Post (λ _ w'. Inv before w') (Settled before g) (Broken before)
        (on_health (Health.ensure g at)) _ w (ensure-Inv before g at w h)
        (λ _ w1 h1.
          bind-Post (Settled before g) (Settled before g) (Broken before) (on_health (Health.get g))
            _ w1 (get-Settled before g at w1 h1)
            (λ state w2 h2.
              cache-Post before (Settled before g) g state at _ w2
                (hold before g state w2 h2.0 h2.1) (λ w3 h3. h3)))

  pub cached_state-Settled :
      (g : String) (at : Time) (w : World T Health.Store B)
      → Inv before w
      → Post (Settled before g) (Broken before) (cached_state deps g at w)
  unfolding cached_state
  cached_state-Settled g at w h =
      gets-Post (Settled before g) (Broken before) (λ w. Dict.get w.state_cache g) _ w
        (elim (Option-cases (Dict.get w.state_cache g)) [
          | inl e ↦ rw e (load_state-Settled g at w h)
          | inr (c, e) ↦ rw e (
              if-Post (Settled before g) (Broken before) (Time.before at c.expires_at) _ _ w
                (λ _. (h, rw e at (h g).1)) (λ _. load_state-Settled g at w h))
        ])

  over_unhealthy :
      (state : GatewayRuntimeState) (at : Time)
      → cooldown_over state at ≡ true
      → (is_unhealthy state.state ≡ true) × (is_half_open state.state ≡ false)
  over_unhealthy state at e = ground arith

  open_half-Settled :
      (g : String) (may_open : MayOpen before g) (at : Time) (state : GatewayRuntimeState)
      (w : World T Health.Store B)
      → Settled before g state w
      → Post (Settled before g) (Broken before) (open_half deps at state w)
  unfolding open_half
  open_half-Settled g may_open at state w (h, e) = elim (Bool-cases (cooldown_over state at)) [
    | inr closed ↦ rw closed (h, e)
    | inl over ↦
        let k = hold before g state w h e in
        let (bad, closed) = over_unhealthy state at over in
        let opened = record state {
          state = half_open;
          half_open_in_flight = pos 0;
          updated_at = at;
        } in
        rw over (
          save-Post before (Settled before g) g opened _ w k.elsewhere
            (k.right.0, (rw (k.right.2 closed) refl), λ _. k.right.2 closed)
            (may_open state opened bad refl k.opened)
            (λ w2 h2. cache-Post before (Settled before g) g opened at _ w2 h2 (λ w3 h3. h3)))
  ]

  refresh_probes-Settled :
      (g : String) (at : Time) (state : GatewayRuntimeState) (w : World T Health.Store B)
      → Settled before g state w
      → Post (Settled before g) (Broken before) (refresh_probes deps g at state w)
  unfolding refresh_probes
  refresh_probes-Settled g at state w h =
      if-Post (Settled before g) (Broken before) (is_half_open state.state) _ _ w
        (λ half.
          bind-Post (Held before g) (Settled before g) (Broken before)
            (on_health (Health.prune_expired_half_open_probes g at)) _ w
            (prune-Held before g at w h.0)
            (λ state' w2 h2.
              cache-Post before (Settled before g) g state' at _ w2 h2 (λ w3 h3. h3)))
        (λ _. h)

  pub prepare_for_routing-Settled :
      (g : String) (may_open : MayOpen before g) (routing : RoutingConfig)
      (w : World T Health.Store B)
      → Inv before w
      → Post (Settled before g) (Broken before) (prepare_for_routing deps g routing w)
  unfolding prepare_for_routing
  prepare_for_routing-Settled g may_open routing w h =
      let at = w.clock w.clock_reads in
      step-Post (Settled before g) (Broken before) now at
        (record w { clock_reads = w.clock_reads + 1 }) _ w refl
        (bind-Post (Settled before g) (Settled before g) (Broken before) (cached_state deps g at) _
          _ (cached_state-Settled g at (record w { clock_reads = w.clock_reads + 1 }) h)
          (λ state w2 h2.
            bind-Post (Settled before g) (Settled before g) (Broken before)
              (open_half deps at state) _ w2 (open_half-Settled g may_open at state w2 h2)
              (λ state' w3 h3. refresh_probes-Settled g at state' w3 h3)))
