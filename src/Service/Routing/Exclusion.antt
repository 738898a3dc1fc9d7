-- ===== src/Service/Routing/Exclusion.antt =====
-- The exclusion of gateways in `SelectGateway` of internal/service/routing_service.go.
use payment_gateway_router.Common.{
  ap, subst, ℕ, ◌≡◌, refl, Bool, true, false, String, Option, none, some, List, [], ◌∷◌, All,
  Bool-cases, inl, inr, if◌then◌else◌,
}
use mathlib.Core.Option.{some-injective}
use payment_gateway_router.Go.Int.{ltb_ℤ, ◌+ℤ◌, ℤ, pos, leb_ℤ}
use payment_gateway_router.Go.Dict
use payment_gateway_router.Go.Dict.{Dict, get-is_empty}
use payment_gateway_router.Action.Post.{Post, bind-Post, if-Post, step-Post, any-Post, Anything}
use payment_gateway_router.Domain.Errors.{ok, err}
use payment_gateway_router.Domain.Config.{GatewayConfig}
use payment_gateway_router.Service.World.{Deps, World}
use payment_gateway_router.Service.Routing.{
  GatewaySelection, GatewaySelectionRequest, total_weight, pick, choose, contains, is_nil,
  filter_loop, filter_excluded, select_weighted, select_healthy, select_probe, select_gateway,
  snapshot, invalidate_cache,
}

module _ (P : GatewayConfig → Type 0) where
  if-All : (b : Bool) (x y : GatewayConfig) → P x → P y → P (if b then x else y)
  if-All true x y p q = p
  if-All false x y p q = q

  pick-All :
      (slot running : ℤ) (last : GatewayConfig) (cs : List GatewayConfig)
      → P last
      → All P cs
      → P (pick slot running last cs)
  unfolding pick
  pick-All slot running last [] p h = p
  pick-All slot running last (c ∷ rest) p (h, hs) =
      if-All (leb_ℤ c.weight (pos 0)) _ _ (pick-All slot running c rest h hs) (
        if-All (ltb_ℤ slot (running +ℤ c.weight)) _ _ h
          (pick-All slot (running +ℤ c.weight) c rest h hs))

  -- A choice is one of the candidates.
  pub choose-All :
      (counter : ℕ) (cs : List GatewayConfig) (g : GatewayConfig)
      → All P cs
      → choose counter cs ≡ some g
      → P g
  unfolding choose
  choose-All counter [] g h e = cc e
  choose-All counter (c ∷ rest) g (h, hs) e =
      elim (Bool-cases (leb_ℤ (total_weight (pos 0) (c ∷ rest)) (pos 0))) [
        | inl m ↦ cc (rw m at e)
        | inr m ↦ subst P (some-injective _ g (rw m at e)) (pick-All _ _ c (c ∷ rest) h (h, hs))
      ]

module _ (excluded : Dict (Unit {0})) where
  abbrev pub Allowed : GatewayConfig → Type 0
  Allowed c = contains excluded c.name ≡ false

  filter_loop-Allowed : (cs : List GatewayConfig) → All Allowed (filter_loop cs excluded)
  unfolding filter_loop
  filter_loop-Allowed [] = tt
  filter_loop-Allowed (c ∷ rest) = elim (Bool-cases (contains excluded c.name)) [
    | inl e ↦ rw e (filter_loop-Allowed rest)
    | inr e ↦ rw e (e, filter_loop-Allowed rest)
  ]

  none-Allowed : (cs : List GatewayConfig) → Dict.is_empty excluded ≡ true → All Allowed cs
  none-Allowed [] e = tt
  none-Allowed (c ∷ rest) e = (
    ap (elim [ none ↦ false | some _ ↦ true ]) (get-is_empty excluded c.name e),
    none-Allowed rest e,
  )

  filter_excluded-Allowed : (cs : List GatewayConfig) → All Allowed (filter_excluded cs excluded)
  unfolding filter_excluded
  filter_excluded-Allowed [] = tt
  filter_excluded-Allowed (c ∷ rest) = elim (Bool-cases (Dict.is_empty excluded)) [
    | inl e ↦ rw e (none-Allowed (c ∷ rest) e)
    | inr e ↦ rw e (filter_loop-Allowed (c ∷ rest))
  ]

module _ {T H B : Type 0} (deps : Deps T H B) (excluded : Dict (Unit {0})) where
  abbrev Selected : GatewaySelection → World T H B → Type 0
  Selected selection w = Allowed excluded selection.gateway

  abbrev Chosen : Option GatewayConfig → World T H B → Type 0
  Chosen none w = Unit
  Chosen (some g) w = Allowed excluded g

  to-Chosen :
      (o : Option GatewayConfig) (w : World T H B)
      → ((g : GatewayConfig) → o ≡ some g → Allowed excluded g)
      → Chosen o w
  to-Chosen none w h = tt
  to-Chosen (some g) w h = h g refl

  select_weighted-Chosen :
      (cs : List GatewayConfig) (w : World T H B)
      → All (Allowed excluded) cs
      → Post Chosen Anything (select_weighted cs w)
  unfolding select_weighted
  select_weighted-Chosen cs w h = to-Chosen _ _ (λ g e. choose-All (Allowed excluded) _ cs g h e)

  select_healthy-Selected :
      (cs : List GatewayConfig) (w : World T H B)
      → All (Allowed excluded) cs
      → Post Selected Anything (select_healthy deps cs w)
  unfolding select_healthy
  select_healthy-Selected cs w h =
      bind-Post Chosen Selected Anything (select_weighted cs) _ w (select_weighted-Chosen cs w h)
        (elim [ none ↦ λ s k. tt | some g ↦ λ s k. k ])

  select_probe-Selected :
      (t : String) (probes cs : List GatewayConfig) (w : World T H B)
      → All (Allowed excluded) probes
      → All (Allowed excluded) cs
      → Post Selected Anything (select_probe deps t probes cs w)
  unfolding select_probe
  select_probe-Selected t probes cs w h k =
      bind-Post Chosen Selected Anything (select_weighted probes) _ w
        (select_weighted-Chosen probes w h)
        (elim [
          | none ↦ λ s k. tt
          | some g ↦ λ s a.
              any-Post Selected Anything _ _ s (λ _ _. tt)
                (elim [
                  | ok _ ↦ λ s'. a
                  | err e ↦ λ s'. step-Post Selected Anything invalidate_cache tt _ _ s' refl (
                      if-Post Selected Anything (is_nil cs) _ _ _ (λ _. tt)
                        (λ _. select_healthy-Selected cs _ k))
                ])
        ])

module _ {T H B : Type 0} (deps : Deps T H B) where
  -- Whatever the repositories and caches hold, a gateway that `SelectGateway` returns, healthy or as a
  -- probe, is not one that the request excludes.
  pub select_gateway-NotExcluded :
      (request : GatewaySelectionRequest) (w : World T H B)
      → Post
          (λ selection w'. contains request.excluded_gateways selection.gateway.name ≡ false)
          Anything
          (select_gateway deps request w)
  unfolding select_gateway
  select_gateway-NotExcluded request w =
      let excluded = request.excluded_gateways in
      any-Post (Selected deps excluded) Anything (snapshot deps) _ w (λ _ _. tt)
        (λ current s.
          if-Post (Selected deps excluded) Anything
            (is_nil (filter_excluded current.probes excluded)) _ _ s
            (λ _.
              select_healthy-Selected deps excluded _ s
                (filter_excluded-Allowed excluded current.healthy))
            (λ _.
              select_probe-Selected deps excluded request.transaction_id _ _ s
                (filter_excluded-Allowed excluded current.probes)
                (filter_excluded-Allowed excluded current.healthy)))
