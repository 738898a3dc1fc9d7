-- ===== src/Domain/Transaction.antt =====
-- internal/domain/transaction.go
use payment_gateway_router.Common.{
  String, ◌≡◌, refl, Bool, true, false, ◌||◌, Option, str_eq, if◌then◌else◌,
}
use payment_gateway_router.Go.Int.{ℤ}
use payment_gateway_router.Go.Float64.{Float64}
use payment_gateway_router.Go.Time.{Time}
use payment_gateway_router.Go.Text.{trim_space, lower_is}
use payment_gateway_router.Domain.Errors.{Result, ok, err, invalid_status}
use payment_gateway_router.Domain.Json.{Fields}

-- A string type with three constants; `other` is any other string.
pub data TransactionStatus : Type 0 where
  pending success failure : TransactionStatus
  other : String → TransactionStatus

-- `a == b`
abbrev pub status_eq : TransactionStatus → TransactionStatus → Bool
status_eq pending pending = true
status_eq success success = true
status_eq failure failure = true
status_eq (other s) (other t) = str_eq s t
status_eq a b = false

abbrev pub is_final : TransactionStatus → Bool
is_final s = status_eq s success || status_eq s failure

pub record Transaction : Type 0 where
  pub id : String
  pub order_id : String
  pub attempt_no : ℤ
  pub amount : Float64
  -- `none` is the nil map
  pub payment_instrument : Option Fields
  pub gateway : String
  pub gateway_reference_id : String
  pub status : TransactionStatus
  pub failure_reason : String
  pub created_at : Time
  pub updated_at : Time
  pub completed_at : Option Time

unfoldable pub parse_transaction_status : String → Result TransactionStatus
parse_transaction_status value =
    let status = trim_space value in
    if lower_is status "pending"
    then ok pending
    else if lower_is status "success"
    then ok success
    else if lower_is status "failure"
    then ok failure
    else err invalid_status

parsed : parse_transaction_status " Success\n" ≡ ok success
unfolding parse_transaction_status trim_space lower_is
parsed = refl
