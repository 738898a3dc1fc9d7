-- ===== src/Service/Health/Totality.antt =====
-- The calls of internal/service/health_service.go that cannot fail over the in-memory repository.
use payment_gateway_router.Common.{
  ◌+◌, ◌≡◌, refl, String, not, Option, some, eq_refl, if◌then◌else◌,
}
use payment_gateway_router.Go.Time.{Time, Duration}
use payment_gateway_router.Go.Dict.{get-put}
use payment_gateway_router.Action.{Action, ◌>>=◌, pure}
use payment_gateway_router.Action.Post.{Post, bind-Post, if-Post, step-Post}
use payment_gateway_router.Domain.Errors.{Error}
use payment_gateway_router.Domain.Transaction.{TransactionStatus, is_final}
use payment_gateway_router.Domain.Gateway.{
  GatewayRuntimeState, GatewayState, GatewayStats, GatewayEvent, healthy, unhealthy, half_open,
  other, is_half_open,
}
use payment_gateway_router.Domain.Config.{RoutingConfig}
use payment_gateway_router.Ports.{
  TransactionRepository, OrderGatewayBlacklistRepository, GatewayClientRegistry,
}
use payment_gateway_router.Memory.Health
use payment_gateway_router.Memory.Health.{initial, store_state}
use payment_gateway_router.Memory.Health.Cases.{
  ensure_cases, get_cases, prune_cases, release_cases, pruned, released, pruned, released,
}
use payment_gateway_router.Service.World.{Deps, World, now, current_config, on_health}
use payment_gateway_router.Service.Health.{
  set_cached_state, record_outcome, transition, save_state, state_of, stats_of,
}
use payment_gateway_router.Service.Health.Invariant.{state_at}
use payment_gateway_router.Service.Health.Steps.{memory_deps}

-- No error.
abbrev pub Never : {S : Type 0} → Error → S → Type 0
Never e s = ⊥

module _ {T B : Type 0} (g : String) (t0 : T) where
  abbrev Known : World T Health.Store B → Type 0
  Known w = (s : GatewayRuntimeState) × (state_at w g ≡ some s) × (w.transactions ≡ t0)

  ensure-Known :
      (at : Time) (w : World T Health.Store B)
      → w.transactions ≡ t0
      → Post (λ _ w'. Known w') Never (on_health (Health.ensure g at) w)
  ensure-Known at w same =
      ensure_cases g at w.health
        (λ (r, s). Post (λ _ w'. Known w') Never (r, record w { health = s }))
        (λ missing. (initial g at, (rw (get-put, eq_refl g) refl), same))
        (λ state found. (state, found, same))

  get-Known :
      (at : Time) (w : World T Health.Store B)
      → Known w
      → Post (λ _ w'. Known w') Never (on_health (Health.get g) w)
  get-Known at w (s, known, same) =
      get_cases g at w.health (λ (r, s). Post (λ _ w'. Known w') Never (r, record w { health = s }))
        (λ missing. cc (known, missing)) (λ state found. (state, found, same))

  prune-Known :
      (at : Time) (w : World T Health.Store B)
      → Known w
      → Post (λ _ w'. Known w') Never (on_health (Health.prune_expired_half_open_probes g at) w)
  prune-Known at w (s, known, same) =
      prune_cases g at w.health
        (λ (r, s). Post (λ _ w'. Known w') Never (r, record w { health = s }))
        (λ missing. cc (known, missing)) (λ state found closed. (state, found, same))
        (λ state found half. (pruned state at, (rw (get-put, eq_refl g) refl), same))

  release-Known :
      (t : String) (at : Time) (w : World T Health.Store B)
      → Known w
      → Post (λ _ w'. Known w') Never (on_health (Health.release_half_open_probe g t at) w)
  release-Known t at w (s, known, same) =
      release_cases g t at w.health
        (λ (r, s). Post (λ _ w'. Known w') Never (r, record w { health = s }))
        (λ missing. cc (known, missing)) (λ state found closed. (state, found, same))
        (λ state found half. (released state t at, (rw (get-put, eq_refl g) refl), same))

module _ {T B : Type 0} (transactions : TransactionRepository T)
    (order_gateways : Option (OrderGatewayBlacklistRepository B)) (gateways : GatewayClientRegistry)
    (g : String) (t0 : T) where
  abbrev deps : Deps T Health.Store B
  deps = memory_deps transactions order_gateways gateways

  abbrev Returned : {A : Type 0} → A → World T Health.Store B → Type 0
  Returned a w = w.transactions ≡ t0

  save_state-total :
      (state : GatewayRuntimeState) (stats : GatewayStats) (at : Time) (w : World T Health.Store B)
      → w.transactions ≡ t0
      → Post Returned Never (save_state deps state stats at w)
  unfolding save_state Health.save
  save_state-total state stats at w same =
      step-Post Returned Never (on_health (Health.save state)) tt _ _ w refl
        (step-Post Returned Never (set_cached_state state at) tt _ _ _ refl same)

  transition-total :
      (k : GatewayState) (t : String) (status : TransactionStatus) (routing : RoutingConfig)
      (at : Time) (stats : GatewayStats) (state : GatewayRuntimeState) (w : World T Health.Store B)
      → Known g t0 w
      → Post Returned Never (transition deps k g t status routing at stats state w)
  unfolding transition
  transition-total half_open t status routing at stats state w h =
      bind-Post (λ _ w'. Known g t0 w') Returned Never
        (on_health (Health.release_half_open_probe g t at)) _ w (release-Known g t0 t at w h)
        (λ (s, freed) w2 h2.
          if-Post Returned Never (not freed) _ _ w2
            (λ _. step-Post Returned Never (set_cached_state s at) tt _ _ w2 refl h2.2)
            (λ _. save_state-total _ _ at w2 h2.2))
  transition-total unhealthy t status routing at stats state w h = save_state-total _ _ at w h.2
  transition-total healthy t status routing at stats state w h = save_state-total _ _ at w h.2
  transition-total (other s) t status routing at stats state w h = save_state-total _ _ at w h.2

  record_event-Known :
      (event : GatewayEvent) (retention : Duration) (w : World T Health.Store B)
      → Known g t0 w
      → Post (λ _ w'. Known g t0 w') Never (on_health (Health.record_event event retention) w)
  unfolding Health.record_event
  record_event-Known event retention w h = h

  -- The statistics are read without an error and without a change.
  stats-total :
      {A : Type 0} (since until : Time) (bucket : Duration)
      (f : GatewayStats → Action (World T Health.Store B) A) (w : World T Health.Store B)
      → ((stats : GatewayStats) → Post Returned Never (f stats w))
      → Post Returned Never ((on_health (Health.stats_since g since until bucket) >>= f) w)
  unfolding Health.stats_since
  stats-total since until bucket f w h =
      step-Post Returned Never (on_health (Health.stats_since g since until bucket)) _ w f w refl
        (h _)

  pub record_outcome-total :
      (t : String) (status : TransactionStatus) (w : World T Health.Store B)
      → w.transactions ≡ t0
      → Post Returned Never (record_outcome deps g t status w)
  unfolding record_outcome
  record_outcome-total t status w same =
      step-Post Returned Never now _ (record w { clock_reads = w.clock_reads + 1 }) _ w refl
        (step-Post Returned Never current_config _ _ _ _ refl (
          bind-Post (λ _ w'. Known g t0 w') Returned Never (on_health (Health.ensure g _)) _ _
            (ensure-Known g t0 _ _ same)
            (λ _ w1 h1.
              bind-Post (λ _ w'. Known g t0 w') Returned Never
                (if is_final status then on_health (Health.record_event _ _) else pure tt) _ w1
                (if-Post (λ _ w'. Known g t0 w') Never (is_final status) _ _ w1
                  (λ _. record_event-Known _ _ w1 h1) (λ _. h1))
                (λ _ w2 h2.
                  bind-Post (λ _ w'. Known g t0 w') Returned Never (on_health (Health.get g)) _ w2
                    (get-Known g t0 (w.clock w.clock_reads) w2 h2)
                    (λ state w3 h3.
                      stats-total _ _ _ _ w3
                        (λ stats. transition-total state.state t status _ _ stats state w3 h3))))))

  pub state_of-total :
      (w : World T Health.Store B) → w.transactions ≡ t0 → Post Returned Never (state_of deps g w)
  unfolding state_of
  state_of-total w same =
      step-Post Returned Never now _ (record w { clock_reads = w.clock_reads + 1 }) _ w refl
        (bind-Post (λ _ w'. Known g t0 w') Returned Never (on_health (Health.ensure g _)) _ _
          (ensure-Known g t0 _ _ same)
          (λ _ w1 h1.
            bind-Post (λ _ w'. Known g t0 w') Returned Never (on_health (Health.get g)) _ w1
              (get-Known g t0 (w.clock w.clock_reads) w1 h1)
              (λ found w2 h2.
                bind-Post (λ _ w'. Known g t0 w') Returned Never
                  (if is_half_open found.state
                    then on_health (Health.prune_expired_half_open_probes g _)
                    else pure found)
                  _ w2
                  (if-Post (λ _ w'. Known g t0 w') Never (is_half_open found.state) _ _ w2
                    (λ _. prune-Known g t0 _ w2 h2) (λ _. h2))
                  (λ state w3 h3.
                    step-Post Returned Never (set_cached_state state _) tt _ _ w3 refl h3.2))))

  pub stats_of-total :
      (w : World T Health.Store B) → w.transactions ≡ t0 → Post Returned Never (stats_of deps g w)
  unfolding stats_of Health.stats_since
  stats_of-total w same =
      step-Post Returned Never current_config _ _ _ w refl
        (step-Post Returned Never now _ _ _ _ refl same)
