-- ===== src/Domain/Config.antt =====
-- internal/domain/config.go
pub mod Bounds
use payment_gateway_router.Common.{
  String, Bool, true, false, ◌&&◌, ◌||◌, Option, none, some, List, [], ◌∷◌, str_eq, if◌then◌else◌,
}
use payment_gateway_router.Go.Int.{ℤ, pos, ◌+ℤ◌, leb_ℤ}
use payment_gateway_router.Go.Float64
use payment_gateway_router.Go.Float64.{Float64, of_ratio}
use payment_gateway_router.Go.Dict
use payment_gateway_router.Go.Dict.{Dict}
use payment_gateway_router.Domain.Errors.{Result, ok, message, ◌>>=◌, ◌>>◌, fail_if}

pub record RoutingConfig : Type 0 where
  pub health_window_seconds : ℤ
  pub unhealthy_cooldown_seconds : ℤ
  pub min_callback_count : ℤ
  pub success_rate_threshold : Float64
  pub half_open_probe_count : ℤ
  pub half_open_probe_timeout_seconds : ℤ
  pub order_gateway_failure_threshold : ℤ

pub record GatewayConfig : Type 0 where
  pub name : String
  pub enabled : Bool
  pub weight : ℤ

pub record AppConfig : Type 0 where
  pub routing : RoutingConfig
  pub gateways : List GatewayConfig

unfoldable pub default_routing_config : RoutingConfig
default_routing_config = record {
  health_window_seconds = pos 900;
  unhealthy_cooldown_seconds = pos 1800;
  min_callback_count = pos 10;
  success_rate_threshold = of_ratio 90 100;
  half_open_probe_count = pos 1;
  half_open_probe_timeout_seconds = pos 60;
  order_gateway_failure_threshold = pos 2;
}

-- `if x <= 0 { x = fallback }`
abbrev pub positive_or : ℤ → ℤ → ℤ
positive_or x fallback = if leb_ℤ x (pos 0) then fallback else x

-- The two tests on the success rate: a missing one is replaced, a percentage is divided by 100.
abbrev default_rate : Float64 → Float64 → Float64
default_rate x fallback =
    let rate = if Float64.le x (Float64.of_ℕ 0) then fallback else x in
    if Float64.lt (Float64.of_ℕ 1) rate then Float64.div rate (Float64.of_ℕ 100) else rate

unfoldable pub with_defaults : AppConfig → AppConfig
unfolding default_routing_config
with_defaults c = record c {
  routing = record {
    health_window_seconds =
        positive_or c.routing.health_window_seconds default_routing_config.health_window_seconds;
    unhealthy_cooldown_seconds =
        positive_or c.routing.unhealthy_cooldown_seconds
          default_routing_config.unhealthy_cooldown_seconds;
    min_callback_count =
        positive_or c.routing.min_callback_count default_routing_config.min_callback_count;
    success_rate_threshold =
        default_rate c.routing.success_rate_threshold default_routing_config.success_rate_threshold;
    half_open_probe_count =
        positive_or c.routing.half_open_probe_count default_routing_config.half_open_probe_count;
    half_open_probe_timeout_seconds =
        positive_or c.routing.half_open_probe_timeout_seconds
          default_routing_config.half_open_probe_timeout_seconds;
    order_gateway_failure_threshold =
        positive_or c.routing.order_gateway_failure_threshold
          default_routing_config.order_gateway_failure_threshold;
  };
}

abbrev is_present : Option (Unit {0}) → Bool
is_present none = false
is_present (some _) = true

-- The loop over the gateways, with the names seen and the enabled gateways counted so far.
validate_gateways : List GatewayConfig → Dict (Unit {0}) → ℤ → Result ℤ
validate_gateways [] names enabled_count = ok enabled_count
validate_gateways (g ∷ rest) names enabled_count = do
  fail_if (str_eq g.name "") (message "gateway name is required")
  fail_if (is_present (Dict.get names g.name)) (message "duplicate gateway")
  fail_if (g.enabled && leb_ℤ g.weight (pos 0))
      (message "enabled gateway must have positive weight")
  validate_gateways rest (Dict.put names g.name tt)
      (if g.enabled then enabled_count +ℤ pos 1 else enabled_count)

abbrev is_nil : List GatewayConfig → Bool
is_nil [] = true
is_nil (_ ∷ _) = false

abbrev is_zero_ℤ : ℤ → Bool
is_zero_ℤ x = leb_ℤ x (pos 0) && leb_ℤ (pos 0) x

unfoldable pub validate : AppConfig → Result (Unit {0})
unfolding validate_gateways
validate c = do
  fail_if (is_nil c.gateways) (message "at least one gateway must be configured")
  enabled_count ← validate_gateways c.gateways Dict.empty (pos 0)
  fail_if (is_zero_ℤ enabled_count) (message "at least one gateway must be enabled")
  fail_if
      (Float64.le c.routing.success_rate_threshold (Float64.of_ℕ 0)
        || Float64.lt (Float64.of_ℕ 1) c.routing.success_rate_threshold)
      (message "success_rate_threshold must be in the range (0, 1]")
  fail_if (leb_ℤ c.routing.order_gateway_failure_threshold (pos 0))
      (message "order_gateway_failure_threshold must be greater than zero")
