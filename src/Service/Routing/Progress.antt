-- ===== src/Service/Routing/Progress.antt =====
-- When `SelectGateway` of internal/service/routing_service.go returns a gateway.
use payment_gateway_router.Common.{
  ℕ, ◌+◌, ◌%◌, ◌^◌, ◌<◌, ◌≤◌, ◌≡◌, refl, true, false, String, Option, none, some, List, [], ◌∷◌,
  ◌⊎◌, inl, inr, arith, Bool-cases, ltb,
}
use payment_gateway_router.Go.Int.{pos, pos_part}
use payment_gateway_router.Go.Time.{before}
use payment_gateway_router.Action.{◌>>=◌}
use payment_gateway_router.Action.Post.{Anything, if-Post, Post, bind-Post, step-Post}
use payment_gateway_router.Domain.Errors.{ok, err}
use payment_gateway_router.Domain.Config.{GatewayConfig}
use payment_gateway_router.Service.World.{Deps, World}
use payment_gateway_router.Service.Health.Totality.{Never}
use payment_gateway_router.Service.Routing.{
  GatewaySelection, GatewaySelectionRequest, choose, pick, is_nil, filter_excluded, select_weighted,
  select_healthy, select_probe, select_gateway, snapshot, invalidate_cache,
}
use payment_gateway_router.Service.Routing.Selection.{weight_sum, pick_before, pick_after}
use payment_gateway_router.Service.Routing.Remaining.{remaining, filter_excluded-remaining}
use payment_gateway_router.Service.Routing.Fairness.{choose_lem}

-- One of the listed gateways, of positive weight.
abbrev pub Weighty : List GatewayConfig → GatewayConfig → Type 0
Weighty [] g = ⊥
Weighty (c ∷ rest) g = ((g ≡ c) × (0 < pos_part g.weight)) ⊎ Weighty rest g

abbrev pub Weighted : List GatewayConfig → Type 0
Weighted cs = (0 < weight_sum cs) × (weight_sum cs < 2 ^ 63)

pick-Weighty :
    (cs : List GatewayConfig) (last : GatewayConfig) (k r : ℕ)
    → r + weight_sum cs < 2 ^ 63
    → r ≤ k
    → k < r + weight_sum cs
    → Weighty cs (pick (pos k) (pos r) last cs)
pick-Weighty [] last k r fits lo hi = absurd (omega arith)
pick-Weighty (c ∷ rest) last k r fits lo hi = elim (Bool-cases (ltb k (r + pos_part c.weight))) [
  | inl e ↦
      let here : k < r + pos_part c.weight = ground arith in
      rw (pick_before c rest last k r (omega arith) lo here) (inl (refl, omega arith))
  | inr e ↦
      let beyond : r + pos_part c.weight ≤ k = ground arith in
      rw (pick_after c rest last k r (omega arith) beyond)
        (inr (pick-Weighty rest c k (r + pos_part c.weight) (omega arith) beyond (omega arith)))
]

-- A choice that has been made.
abbrev pub Made : (GatewayConfig → Type 0) → Option GatewayConfig → Type 0
Made P none = ⊥
Made P (some g) = P g

choose-Made :
    (counter : ℕ) (cs : List GatewayConfig) → Weighted cs → Made (Weighty cs) (choose counter cs)
choose-Made counter [] (h, fits) = absurd (omega arith)
choose-Made counter (c ∷ rest) (h, fits) =
    rw (choose_lem counter c rest h fits)
      (pick-Weighty (c ∷ rest) c _ 0 (omega arith) (omega arith) (omega arith))

module _ {T H B : Type 0} (deps : Deps T H B) (P : GatewayConfig → Type 0) where
  abbrev Selects : GatewaySelection → World T H B → Type 0
  Selects selection w = P selection.gateway

  abbrev Picked : Option GatewayConfig → World T H B → Type 0
  Picked chosen w = Made P chosen

  Made-map :
      (Q : GatewayConfig → Type 0) (chosen : Option GatewayConfig)
      → Made Q chosen
      → ((g : GatewayConfig) → Q g → P g)
      → Made P chosen
  Made-map Q none m k = m
  Made-map Q (some g) m k = k g m

  select_weighted-Picked :
      (cs : List GatewayConfig) (w : World T H B)
      → Weighted cs
      → ((g : GatewayConfig) → Weighty cs g → P g)
      → Post Picked Never (select_weighted cs w)
  unfolding select_weighted
  select_weighted-Picked cs w h k =
      let next : ℕ = (w.routing_counter + 1) % 2 ^ 64 in
      Made-map (Weighty cs) (choose next cs) (choose-Made next cs h) k

  select_healthy-Selects :
      (cs : List GatewayConfig) (w : World T H B)
      → Weighted cs
      → ((g : GatewayConfig) → Weighty cs g → P g)
      → Post Selects Never (select_healthy deps cs w)
  unfolding select_healthy
  select_healthy-Selects cs w h k =
      bind-Post Picked Selects Never (select_weighted cs) _ w (select_weighted-Picked cs w h k)
        (elim [ none ↦ λ s made. absurd made | some g ↦ λ s made. made ])

  Weighted-is_nil : (cs : List GatewayConfig) → Weighted cs → is_nil cs ≡ false
  Weighted-is_nil [] (h, fits) = absurd (omega arith)
  Weighted-is_nil (c ∷ rest) h = refl

  select_probe-Selects :
      (t : String) (probes cs : List GatewayConfig) (w : World T H B)
      → Weighted probes
      → Weighted cs
      → ((g : GatewayConfig) → Weighty probes g → P g)
      → ((g : GatewayConfig) → Weighty cs g → P g)
      → Post Selects Never (select_probe deps t probes cs w)
  unfolding select_probe
  select_probe-Selects t probes cs w h h' k k' =
      bind-Post Picked Selects Never (select_weighted probes) _ w
        (select_weighted-Picked probes w h k)
        (elim [
          | none ↦ λ s made. absurd made
          | some g ↦ λ s made. bind-Post Anything Selects Never _ _ s tt (elim [
            | ok _ ↦ λ s' _. made
            | err e ↦ λ s' _.
                step-Post Selects Never invalidate_cache tt _ _ s' refl
                  (rw (Weighted-is_nil cs h') (select_healthy-Selects cs _ h' k'))
          ])
        ])

module _ {T H B : Type 0} (deps : Deps T H B) where
  snapshot_fresh :
      (w : World T H B)
      → before (w.clock w.clock_reads) w.routing_cache.expires_at ≡ true
      → snapshot deps w ≡ (ok w.routing_cache, record w { clock_reads = w.clock_reads + 1 })
  unfolding snapshot ◌>>=◌
  snapshot_fresh w fresh = rw fresh refl

  probes-Weighted :
      (probes : List GatewayConfig)
      → (is_nil probes ≡ true) ⊎ Weighted probes
      → is_nil probes ≡ false
      → Weighted probes
  probes-Weighted probes (inl e) f = cc (e, f)
  probes-Weighted probes (inr h) f = h

  selects_filtered :
      (request : GatewaySelectionRequest) (w : World T H B)
      → let probes = filter_excluded w.routing_cache.probes request.excluded_gateways in
        let candidates = filter_excluded w.routing_cache.healthy request.excluded_gateways in
        before (w.clock w.clock_reads) w.routing_cache.expires_at ≡ true
        → Weighted candidates
        → (is_nil probes ≡ true) ⊎ Weighted probes
        → Post
            (λ selection w'.
              Weighty probes selection.gateway ⊎ Weighty candidates selection.gateway)
            Never
            (select_gateway deps request w)
  unfolding select_gateway
  selects_filtered request w fresh h hp =
      let probes = filter_excluded w.routing_cache.probes request.excluded_gateways in
      let candidates = filter_excluded w.routing_cache.healthy request.excluded_gateways in
      let P = λ (g : GatewayConfig). Weighty probes g ⊎ Weighty candidates g in
      let read : World T H B = record w { clock_reads = w.clock_reads + 1 } in
      step-Post (Selects deps P) Never (snapshot deps) w.routing_cache read _ w
        (snapshot_fresh w fresh)
        (if-Post (Selects deps P) Never (is_nil probes) _ _ read
          (λ e. select_healthy-Selects deps P candidates read h (λ g m. inr m))
          (λ f.
            select_probe-Selects deps P request.transaction_id probes candidates read
              (probes-Weighted probes hp f) h (λ g m. inl m) (λ g m. inr m)))

  -- While the cached snapshot is fresh and the healthy gateways in it that the request does not
  -- exclude have a positive total weight, `SelectGateway` returns a gateway and no error, whatever
  -- the health repository answers and however a race for a probe ends: the gateway is one of those
  -- healthy ones or one of the half-open ones that are not excluded, and its weight is positive. The
  -- totals are to fit an int, and half-open candidates, where there are any, to have a positive one.
  pub select_gateway-Selects :
      (request : GatewaySelectionRequest) (w : World T H B)
      → let probes = remaining request.excluded_gateways w.routing_cache.probes in
        let candidates = remaining request.excluded_gateways w.routing_cache.healthy in
        before (w.clock w.clock_reads) w.routing_cache.expires_at ≡ true
        → Weighted candidates
        → (is_nil probes ≡ true) ⊎ Weighted probes
        → Post
            (λ selection w'.
              Weighty probes selection.gateway ⊎ Weighty candidates selection.gateway)
            Never
            (select_gateway deps request w)
  select_gateway-Selects request w =
      rw
        (
          ← filter_excluded-remaining request.excluded_gateways w.routing_cache.probes,
          ← filter_excluded-remaining request.excluded_gateways w.routing_cache.healthy,
        )
        (selects_filtered request w)
