-- ===== src/Service/Routing/Remaining.antt =====
-- The gateways that `filterExcluded` of internal/service/routing_service.go leaves.
use payment_gateway_router.Common.{
  keep, not, ◌≡◌, refl, true, false, none, some, List, [], ◌∷◌, inl, inr, Bool-cases, ap,
}
use payment_gateway_router.Go.Dict
use payment_gateway_router.Go.Dict.{Dict}
use payment_gateway_router.Domain.Config.{GatewayConfig}
use payment_gateway_router.Service.Routing.{contains, filter_loop, filter_excluded}

-- The gateways that are not excluded.
abbrev pub remaining : Dict (Unit {0}) → List GatewayConfig → List GatewayConfig
remaining excluded cs = keep (λ c. not (contains excluded c.name)) cs

filter_loop-remaining :
    (excluded : Dict (Unit {0})) (cs : List GatewayConfig)
    → filter_loop cs excluded ≡ remaining excluded cs
unfolding filter_loop
filter_loop-remaining excluded [] = refl
filter_loop-remaining excluded (c ∷ rest) = elim (Bool-cases (contains excluded c.name)) [
  | inl e ↦ rw e (filter_loop-remaining excluded rest)
  | inr e ↦ rw e (ap (λ cs. c ∷ cs) (filter_loop-remaining excluded rest))
]

none_excluded :
    (excluded : Dict (Unit {0})) (cs : List GatewayConfig)
    → Dict.is_empty excluded ≡ true
    → cs ≡ remaining excluded cs
none_excluded excluded [] e = refl
none_excluded excluded (c ∷ rest) e =
    let free : contains excluded c.name ≡ false =
      ap (elim [ none ↦ false | some _ ↦ true ]) (Dict.get-is_empty excluded c.name e) in
    rw free (ap (λ cs. c ∷ cs) (none_excluded excluded rest e))

pub filter_excluded-remaining :
    (excluded : Dict (Unit {0})) (cs : List GatewayConfig)
    → filter_excluded cs excluded ≡ remaining excluded cs
unfolding filter_excluded
filter_excluded-remaining excluded [] = refl
filter_excluded-remaining excluded (c ∷ rest) = elim (Bool-cases (Dict.is_empty excluded)) [
  | inl e ↦ rw e (none_excluded excluded (c ∷ rest) e)
  | inr e ↦ rw e (filter_loop-remaining excluded (c ∷ rest))
]
