-- ===== src/Http/Statuses.antt =====
-- `GET /gateways` of internal/adapters/http/router.go over the in-memory health repository.
use payment_gateway_router.Common.{
  ◌≡◌, List, [], ◌∷◌, map, inl, inr, Bool, true, false, ◌&&◌, ltb, Option, String, inr,
}
use payment_gateway_router.Go.Float64.{Float64, fin}
use payment_gateway_router.Go.Time.{Time}
use payment_gateway_router.Action.Post.{Post}
use payment_gateway_router.Domain.Errors
use payment_gateway_router.Domain.Config.{RoutingConfig, GatewayConfig}
use payment_gateway_router.Domain.Errors.{Result, ok, err, Error}
use payment_gateway_router.Ports.{
  TransactionRepository, OrderGatewayBlacklistRepository, GatewayClientRegistry,
}
use payment_gateway_router.Memory.Health
use payment_gateway_router.Service.World.{World, Deps}
use payment_gateway_router.Service.Health.Steps.{memory_deps}
use payment_gateway_router.Http.{
  Body, Written, encode, json_of, error_text, GatewayStatus, Gathered, Body, encode, json_of,
}

-- The statuses are those of the listed gateways, in their order.
abbrev pub Lists : List GatewayConfig → List GatewayStatus → Type 0
Lists listed statuses = map (λ status. status.config) statuses ≡ listed

-- What JSON can write: numbers that are finite, and times before the year 10000.
abbrev pub is_finite : Float64 → Bool
is_finite (fin k) = true
is_finite _ = false

abbrev pub are_writable : List GatewayStatus → Bool
are_writable [] = true
are_writable (status ∷ more) =
    let others = are_writable more in
    (ltb status.runtime.unhealthy_until 315537897600000000000
      && ltb status.runtime.updated_at 315537897600000000000)
    && (is_finite status.stats.success_rate && others)

abbrev pub is_writable : RoutingConfig → List GatewayStatus → Bool
is_writable routing statuses = is_finite routing.success_rate_threshold && are_writable statuses

-- The body, or the text of an error in its place.
abbrev pub Sends : Bool → Body → Written → Type 0
Sends true body written = written ≡ json_of body
Sends false body written = (e : Error) × (written ≡ error_text e)

abbrev Encodes : Bool → Result (Unit {0}) → Type 0
Encodes true r = r ≡ ok tt
Encodes false r = (e : Error) × (r ≡ err e)

abbrev late : String
late = "json: error calling MarshalJSON for type time.Time: year outside of range [0,9999]"

module _ {T B : Type 0} (transactions : TransactionRepository T)
    (order_gateways : Option (OrderGatewayBlacklistRepository B))
    (gateways : GatewayClientRegistry) where
  abbrev deps : Deps T Health.Store B
  deps = memory_deps transactions order_gateways gateways

  abbrev Listed : List GatewayConfig → Gathered deps → Type 0
  Listed listed found =
      (statuses : List GatewayStatus) × (w : World T Health.Store B) × (found ≡ (inl statuses, w))
      × Lists listed statuses
