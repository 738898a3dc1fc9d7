-- ===== src/Domain/Gateway.antt =====
-- internal/domain/gateway.go
use payment_gateway_router.Common.{ℕ, String, Bool, true, false, List}
use payment_gateway_router.Go.Int.{ℤ}
use payment_gateway_router.Go.Float64.{Float64}
use payment_gateway_router.Go.Time.{Time}
use payment_gateway_router.Domain.Transaction.{TransactionStatus}

-- A string type with three constants; `other` is any other string.
pub data GatewayState : Type 0 where
  healthy unhealthy half_open : GatewayState
  other : String → GatewayState

abbrev pub is_half_open : GatewayState → Bool
is_half_open half_open = true
is_half_open _ = false

abbrev pub is_unhealthy : GatewayState → Bool
is_unhealthy unhealthy = true
is_unhealthy _ = false

pub record HalfOpenProbe : Type 0 where
  pub transaction_id : String
  pub expires_at_unix_milli : ℤ

pub record GatewayRuntimeState : Type 0 where
  pub gateway : String
  pub state : GatewayState
  pub unhealthy_until : Time
  pub half_open_in_flight : ℤ
  pub half_open_probes : List HalfOpenProbe
  pub updated_at : Time

pub record GatewayEvent : Type 0 where
  pub gateway : String
  pub transaction_id : String
  pub status : TransactionStatus
  pub created_at : Time

-- The three counts are at most the length of a slice, so they do not wrap.
pub record GatewayStats : Type 0 where
  pub gateway : String
  pub successes : ℕ
  pub failures : ℕ
  pub total : ℕ
  pub success_rate : Float64

pub record GatewayInitiation : Type 0 where
  pub reference_id : String

pub record GatewayCallback : Type 0 where
  pub transaction_id : String
  pub order_id : String
  pub gateway : String
  pub status : TransactionStatus
  pub reason : String

pub record OrderGatewayAttemptSummary : Type 0 where
  pub order_id : String
  pub gateway : String
  pub failures : ℤ
  pub successes : ℤ
  pub blacklisted : Bool
  pub updated_at : Time
