-- ===== src/Service/Blacklist.antt =====
-- internal/service/order_gateway_blacklist_service.go
use payment_gateway_router.Common.{String, str_eq, if◌then◌else◌}
use payment_gateway_router.Go.Dict
use payment_gateway_router.Go.Dict.{Dict}
use payment_gateway_router.Action.{Action, pure, ◌>>=◌, ◌>>◌}
use payment_gateway_router.Domain.Transaction.{Transaction}
use payment_gateway_router.Ports.{OrderGatewayBlacklistRepository}
use payment_gateway_router.Service.World.{World, now, current_config, on_blacklist}

module _ {T H B : Type 0} (repository : OrderGatewayBlacklistRepository B) where
  unfoldable pub blacklisted_gateways : String → Action (World T H B) (Dict (Unit {0}))
  blacklisted_gateways order_id =
      if str_eq order_id ""
      then pure Dict.empty
      else on_blacklist (repository.blacklisted_gateways order_id)

  unfoldable pub record_outcome : Transaction → Action (World T H B) (Unit {0})
  record_outcome t = do
    cfg ← current_config
    at ← now
    on_blacklist (
        repository.record_outcome t.order_id t.gateway t.status
          cfg.routing.order_gateway_failure_threshold at)
    pure tt
