-- ===== src/Service/Health/Probing.antt =====
-- The selection and the release of probes, and `State`, of internal/service/health_service.go, over
-- the in-memory repository.
use payment_gateway_router.Common.{refl, String, Option, if◌then◌else◌, ◌+◌, not}
use payment_gateway_router.Domain.Gateway.{is_half_open}
use payment_gateway_router.Memory.Health
use payment_gateway_router.Memory.Health.{initial, store_state, with_probes}
use payment_gateway_router.Service.Health.{mark_probe_selected, state_of, release_probe}
use payment_gateway_router.Service.Health.Invariant.{Inv, Held, hold, settle, Baseline}
use payment_gateway_router.Action.Post.{Post, bind-Post, if-Post, step-Post}
use payment_gateway_router.Ports.{
  TransactionRepository, OrderGatewayBlacklistRepository, GatewayClientRegistry,
}
use payment_gateway_router.Action.{pure}
use payment_gateway_router.Service.World.{Deps, World, now, on_health, current_config}
use payment_gateway_router.Service.Health.Steps.{
  memory_deps, Settled, Broken, ensure-Inv, get-Settled, prune-Held, acquire-Held, release-Held,
  cache-Post,
}

module _ {T B : Type 0} (transactions : TransactionRepository T)
    (order_gateways : Option (OrderGatewayBlacklistRepository B)) (gateways : GatewayClientRegistry)
    (before : Baseline) where
  abbrev deps : Deps T Health.Store B
  deps = memory_deps transactions order_gateways gateways

  pub mark_probe_selected-Inv :
      (g t : String) (w : World T Health.Store B)
      → Inv before w
      → Post (λ _ w'. Inv before w') (Broken before) (mark_probe_selected deps g t w)
  unfolding mark_probe_selected
  mark_probe_selected-Inv g t w h =
      step-Post (λ _ w'. Inv before w') (Broken before) current_config _
        (record w { config_reads = w.config_reads + 1 }) _ w refl
        (step-Post (λ _ w'. Inv before w') (Broken before) now _ _ _ _ refl
          (bind-Post (λ (state, acquired) w'. Held before g state w') (λ _ w'. Inv before w')
            (Broken before) (on_health (Health.try_acquire_half_open_probe g t _ _ _)) _ _
            (acquire-Held before g t _ _ _ _ h)
            (λ (state, acquired) w2 h2.
              cache-Post before (λ _ w'. Inv before w') g state _ _ w2 h2
                (λ w3 h3.
                  if-Post (λ _ w'. Inv before w') (Broken before) (not acquired) _ _ w3 (λ _. h3.0)
                    (λ _. h3.0)))))

  pub release_probe-Inv :
      (g t : String) (w : World T Health.Store B)
      → Inv before w
      → Post (λ _ w'. Inv before w') (Broken before) (release_probe deps g t w)
  unfolding release_probe
  release_probe-Inv g t w h =
      step-Post (λ _ w'. Inv before w') (Broken before) now _
        (record w { clock_reads = w.clock_reads + 1 }) _ w refl
        (bind-Post (λ (state, freed) w'. Held before g state w') (λ _ w'. Inv before w')
          (Broken before) (on_health (Health.release_half_open_probe g t _)) _ _
          (release-Held before g t _ _ h) (λ (state, freed) w2 h2. (settle before g state _ w2 h2)))

  pub state_of-Settled :
      (g : String) (w : World T Health.Store B)
      → Inv before w
      → Post (Settled before g) (Broken before) (state_of deps g w)
  unfolding state_of
  state_of-Settled g w h =
      step-Post (Settled before g) (Broken before) now _
        (record w { clock_reads = w.clock_reads + 1 }) _ w refl
        (bind-Post (λ _ w'. Inv before w') (Settled before g) (Broken before)
          (on_health (Health.ensure g _)) _ _ (ensure-Inv before g _ _ h)
          (λ _ w1 h1.
            bind-Post (Settled before g) (Settled before g) (Broken before)
              (on_health (Health.get g)) _ w1 (get-Settled before g (w.clock w.clock_reads) w1 h1)
              (λ found w2 h2.
                bind-Post (Held before g) (Settled before g) (Broken before)
                  (if is_half_open found.state
                    then on_health (Health.prune_expired_half_open_probes g _)
                    else pure found)
                  _ w2
                  (if-Post (Held before g) (Broken before) (is_half_open found.state) _ _ w2
                    (λ half. prune-Held before g _ w2 h2.0) (λ _. hold before g found w2 h2.0 h2.1))
                  (λ state w3 h3.
                    cache-Post before (Settled before g) g state _ _ w3 h3 (λ w4 h4. h4)))))
