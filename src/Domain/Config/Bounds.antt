-- ===== src/Domain/Config/Bounds.antt =====
-- What `WithDefaults` of internal/domain/config.go guarantees of the counts and durations.
use payment_gateway_router.Common.{◌≡◌, refl, arith}
use payment_gateway_router.Go.Int.{ℤ, pos, ◌<ℤ◌}
use payment_gateway_router.Domain.Config.{
  AppConfig, RoutingConfig, with_defaults, default_routing_config, positive_or,
}

abbrev pub IsPositive : ℤ → Type 0
IsPositive n = pos 0 <ℤ n

-- The six fields of Go type `int`.
abbrev pub AllPositive : RoutingConfig → Type 0
AllPositive routing =
    IsPositive routing.health_window_seconds
    × IsPositive routing.unhealthy_cooldown_seconds
    × IsPositive routing.min_callback_count
    × IsPositive routing.half_open_probe_count
    × IsPositive routing.half_open_probe_timeout_seconds
    × IsPositive routing.order_gateway_failure_threshold

positive_or-IsPositive :
    (x fallback : ℤ) → IsPositive fallback → IsPositive (positive_or x fallback)
positive_or-IsPositive x fallback h = ground arith

positive_or-same : (x fallback : ℤ) → IsPositive x → positive_or x fallback ≡ x
positive_or-same x fallback h = ground arith

defaults_positive : (c : AppConfig) → AllPositive (with_defaults c).routing
unfolding with_defaults default_routing_config
defaults_positive c = (
  positive_or-IsPositive c.routing.health_window_seconds (pos 900) (omega arith),
  positive_or-IsPositive c.routing.unhealthy_cooldown_seconds (pos 1800) (omega arith),
  positive_or-IsPositive c.routing.min_callback_count (pos 10) (omega arith),
  positive_or-IsPositive c.routing.half_open_probe_count (pos 1) (omega arith),
  positive_or-IsPositive c.routing.half_open_probe_timeout_seconds (pos 60) (omega arith),
  positive_or-IsPositive c.routing.order_gateway_failure_threshold (pos 2) (omega arith),
)

abbrev pub with_rate_of : RoutingConfig → RoutingConfig → RoutingConfig
with_rate_of routing other = record routing {
  success_rate_threshold = other.success_rate_threshold;
}

kept :
    (c : AppConfig)
    → AllPositive c.routing
    → (with_defaults c).routing ≡ with_rate_of c.routing (with_defaults c).routing
unfolding with_defaults default_routing_config
kept c (window, cooldown, count, probes, timeout, failures) =
    rw
      (
        positive_or-same c.routing.health_window_seconds (pos 900) window,
        positive_or-same c.routing.unhealthy_cooldown_seconds (pos 1800) cooldown,
        positive_or-same c.routing.min_callback_count (pos 10) count,
        positive_or-same c.routing.half_open_probe_count (pos 1) probes,
        positive_or-same c.routing.half_open_probe_timeout_seconds (pos 60) timeout,
        positive_or-same c.routing.order_gateway_failure_threshold (pos 2) failures,
      )
      refl

-- `WithDefaults` leaves the six whole-number fields of the routing configuration positive, whatever
-- was configured (the window, the cooldown, the minimal number of callbacks, the number of probes,
-- the timeout of a probe, and the failures that blacklist a gateway for an order), so that applying
-- it again changes none of them. The success rate threshold is left out: it may be NaN, and
-- is divided by 100 again where it is still above 1.
pub with_defaults-AllPositive :
    (c : AppConfig)
    → AllPositive (with_defaults c).routing
      × ((with_defaults (with_defaults c)).routing
          ≡ with_rate_of (with_defaults c).routing (with_defaults (with_defaults c)).routing)
with_defaults-AllPositive c = (defaults_positive c, kept (with_defaults c) (defaults_positive c))
