-- ===== src/Service/Routing/Effects.antt =====
-- What `SelectGateway` of internal/service/routing_service.go does to the gateways' states, over the
-- in-memory repository.
use payment_gateway_router.Common.{
  refl, Bool-cases, inl, inr, not, ◌||◌, String, Option, none, some, List, [], ◌∷◌,
}
use payment_gateway_router.Go.Int.{pos, leb_ℤ}
use payment_gateway_router.Go.Time
use payment_gateway_router.Go.Time.{Time, add}
use payment_gateway_router.Action.{modify}
use payment_gateway_router.Action.Post.{Post, bind-Post, if-Post, step-Post, gets-Post, Post-state}
use payment_gateway_router.Domain.Errors.{ok, err}
use payment_gateway_router.Domain.Config.{GatewayConfig, RoutingConfig}
use payment_gateway_router.Ports.{
  TransactionRepository, OrderGatewayBlacklistRepository, GatewayClientRegistry,
}
use payment_gateway_router.Memory.Health
use payment_gateway_router.Service.World.{Deps, World, RoutingSnapshot, now, current_config}
use payment_gateway_router.Service.Health.{prepare_for_routing, mark_probe_selected}
use payment_gateway_router.Service.Health.Invariant.{Inv, Baseline, MayOpen}
use payment_gateway_router.Service.Health.Steps.{memory_deps, Settled}
use payment_gateway_router.Service.Health.Preparing.{prepare_for_routing-Settled}
use payment_gateway_router.Service.Health.Probing.{mark_probe_selected-Inv}
use payment_gateway_router.Service.Routing.{
  GatewaySelectionRequest, is_nil, add_candidate, collect, rebuild, snapshot, select_weighted,
  select_healthy, select_probe, select_gateway, invalidate_cache, mark, counts, filter_excluded,
}

module _ {T B : Type 0} (transactions : TransactionRepository T)
    (order_gateways : Option (OrderGatewayBlacklistRepository B)) (gateways : GatewayClientRegistry)
    (before : Baseline) (may_open : (g : String) → MayOpen before g) where
  abbrev deps : Deps T Health.Store B
  deps = memory_deps transactions order_gateways gateways

  abbrev Kept : {A : Type 0} → A → World T Health.Store B → Type 0
  Kept a w = Inv before w

  add_candidate-Kept :
      (routing : RoutingConfig) (g : GatewayConfig) (next : RoutingSnapshot)
      (w : World T Health.Store B)
      → Inv before w
      → Post Kept Kept (add_candidate deps routing g next w)
  unfolding add_candidate
  add_candidate-Kept routing g next w h =
      if-Post Kept Kept (not g.enabled || leb_ℤ g.weight (pos 0)) _ _ w (λ _. h)
        (λ _.
          bind-Post (Settled before g.name) Kept Kept (prepare_for_routing deps g.name routing) _ w
            (prepare_for_routing-Settled transactions order_gateways gateways before g.name
              (may_open g.name) routing w h)
            (λ state w2 h2. h2.0))

  collect-Kept :
      (routing : RoutingConfig) (gs : List GatewayConfig) (next : RoutingSnapshot)
      (w : World T Health.Store B)
      → Inv before w
      → Post Kept Kept (collect deps routing gs next w)
  unfolding collect
  collect-Kept routing [] next w h = h
  collect-Kept routing (g ∷ rest) next w h =
      bind-Post Kept Kept Kept (add_candidate deps routing g next) _ w
        (add_candidate-Kept routing g next w h)
        (λ next' w2 h2. collect-Kept routing rest next' w2 h2)

  rebuild-Kept :
      (at : Time) (w : World T Health.Store B) → Inv before w → Post Kept Kept (rebuild deps at w)
  unfolding rebuild
  rebuild-Kept at w h =
      gets-Post Kept Kept (λ w. w.routing_cache) _ w
        (if-Post Kept Kept (Time.before at w.routing_cache.expires_at) _ _ w (λ _. h)
          (λ _. step-Post Kept Kept current_config _ _ _ w refl (
            gets-Post Kept Kept (λ w. w.routing_cache_ttl) _ _
              (bind-Post Kept Kept Kept (collect deps _ _ _) _ _ (collect-Kept _ _ _ _ h)
                (λ next w2 h2.
                  step-Post Kept Kept (modify (λ w. record w { routing_cache = next })) _ _ _ w2
                    refl h2)))))

  snapshot-Kept : (w : World T Health.Store B) → Inv before w → Post Kept Kept (snapshot deps w)
  unfolding snapshot
  snapshot-Kept w h = step-Post Kept Kept now _ _ _ w refl (
      gets-Post Kept Kept (λ w. w.routing_cache) _ _
        (if-Post Kept Kept (Time.before _ w.routing_cache.expires_at) _ _ _ (λ _. h)
          (λ _. rebuild-Kept _ _ h)))

  counted-Inv :
      (cs : List GatewayConfig) (w : World T Health.Store B)
      → Inv before w
      → Post Kept Kept (select_weighted cs w)
  unfolding select_weighted
  counted-Inv cs w h = elim (Bool-cases (counts cs)) [ inl e ↦ rw e h | inr e ↦ rw e h ]

  select_healthy-Kept :
      (cs : List GatewayConfig) (w : World T Health.Store B)
      → Inv before w
      → Post Kept Kept (select_healthy deps cs w)
  unfolding select_healthy
  select_healthy-Kept cs w h =
      bind-Post Kept Kept Kept (select_weighted cs) _ w (counted-Inv cs w h)
        (elim [ none ↦ λ s k. k | some g ↦ λ s k. k ])

  mark-Inv :
      (g t : String) (w : World T Health.Store B) → Inv before w → Inv before (mark deps g t w).1
  mark-Inv g t w h =
      Post-state (Inv before) (mark_probe_selected deps g t w)
        (mark_probe_selected-Inv transactions order_gateways gateways before g t w h)

  select_probe-Kept :
      (t : String) (probes cs : List GatewayConfig) (w : World T Health.Store B)
      → Inv before w
      → Post Kept Kept (select_probe deps t probes cs w)
  unfolding select_probe
  select_probe-Kept t probes cs w h =
      bind-Post Kept Kept Kept (select_weighted probes) _ w (counted-Inv probes w h) (elim [
        | none ↦ λ s k. k
        | some g ↦ λ s k.
            bind-Post Kept Kept Kept (mark deps g.name t) _ s (mark-Inv g.name t s k) (elim [
              | ok _ ↦ λ s' k'. k'
              | err e ↦ λ s' k'.
                  step-Post Kept Kept invalidate_cache tt _ _ s' refl (
                    if-Post Kept Kept (is_nil cs) _ _ _ (λ _. k')
                      (λ _. select_healthy-Kept cs _ k'))
            ])
      ])

  pub select_gateway-Kept :
      (request : GatewaySelectionRequest) (w : World T Health.Store B)
      → Inv before w
      → Post (λ selection w'. Inv before w') (λ e w'. Inv before w') (select_gateway deps request w)
  unfolding select_gateway
  select_gateway-Kept request w h =
      bind-Post Kept Kept Kept (snapshot deps) _ w (snapshot-Kept w h) (λ current s k.
        if-Post Kept Kept (is_nil (filter_excluded current.probes request.excluded_gateways)) _ _ s
          (λ _. select_healthy-Kept _ s k) (λ _. select_probe-Kept request.transaction_id _ _ s k))
