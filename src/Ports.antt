-- ===== src/Ports.antt =====
-- internal/ports/ports.go: the interfaces between the services and the adapters. A repository is
-- a record of calls over a store `S`; a context is not modelled, so no call is cancelled.
use payment_gateway_router.Common.{String, Bool, Option}
use payment_gateway_router.Go.Int.{ℤ}
use payment_gateway_router.Go.Time.{Time, Duration}
use payment_gateway_router.Go.Dict.{Dict}
use payment_gateway_router.Action.{Action}
use payment_gateway_router.Domain.Errors.{Result}
use payment_gateway_router.Domain.Transaction.{Transaction, TransactionStatus}
use payment_gateway_router.Domain.Gateway.{
  GatewayRuntimeState, GatewayEvent, GatewayStats, GatewayInitiation, OrderGatewayAttemptSummary,
}

pub record TransactionRepository (S : Type 0) : Type 0 where
  pub next_attempt : String → Action S ℤ
  pub save : Transaction → Action S (Unit {0})
  pub get_by_id : String → Action S Transaction
  pub complete : String → TransactionStatus → String → Time → Action S (Transaction × Bool)

pub record GatewayHealthRepository (S : Type 0) : Type 0 where
  pub ensure : String → Time → Action S (Unit {0})
  pub get : String → Action S GatewayRuntimeState
  pub save : GatewayRuntimeState → Action S (Unit {0})
  pub prune_expired_half_open_probes : String → Time → Action S GatewayRuntimeState
  pub try_acquire_half_open_probe :
      String → String → ℤ → Time → Time → Action S (GatewayRuntimeState × Bool)
  pub release_half_open_probe : String → String → Time → Action S (GatewayRuntimeState × Bool)
  pub record_event : GatewayEvent → Duration → Action S (Unit {0})
  pub stats_since : String → Time → Time → Duration → Action S GatewayStats

pub record OrderGatewayBlacklistRepository (S : Type 0) : Type 0 where
  pub blacklisted_gateways : String → Action S (Dict (Unit {0}))
  pub record_outcome :
      String → String → TransactionStatus → ℤ → Time → Action S (OrderGatewayAttemptSummary × Bool)

abbrev pub PaymentGatewayClient : Type 0
PaymentGatewayClient = Transaction → Result GatewayInitiation

abbrev pub GatewayClientRegistry : Type 0
GatewayClientRegistry = String → Option PaymentGatewayClient
