-- ===== src/Memory/Transactions.antt =====
-- internal/adapters/repository/memory/transaction_repository.go
pub mod Steps
pub mod Once
pub mod Attempts
use payment_gateway_router.Common.{
  String, Bool, true, false, not, Option, none, some, if◌then◌else◌,
}
use payment_gateway_router.Go.Int.{ℤ, pos, ◌+ℤ◌}
use payment_gateway_router.Go.Time.{Time}
use payment_gateway_router.Go.Dict
use payment_gateway_router.Go.Dict.{Dict}
use payment_gateway_router.Action.{Action}
use payment_gateway_router.Domain.Errors.{ok, err, conflict, not_found, invalid_status}
use payment_gateway_router.Domain.Transaction.{Transaction, TransactionStatus, status_eq, is_final}
use payment_gateway_router.Ports.{TransactionRepository}

pub record Store : Type 0 where
  pub transactions : Dict Transaction
  pub attempts : Dict ℤ

abbrev pub new : Store
new = record { transactions = Dict.empty; attempts = Dict.empty }

-- `m[k]` of an int map
abbrev pub count_of : Option ℤ → ℤ
count_of none = pos 0
count_of (some n) = n

unfoldable pub next_attempt : String → Action Store ℤ
next_attempt order_id s =
    let n = count_of (Dict.get s.attempts order_id) +ℤ pos 1 in
    (ok n, record s { attempts = Dict.put s.attempts order_id n })

unfoldable pub save : Transaction → Action Store (Unit {0})
save t s = elim (Dict.get s.transactions t.id) [
  | some _ ↦ (err conflict, s)
  | none ↦ (ok tt, record s { transactions = Dict.put s.transactions t.id t })
]

unfoldable pub get_by_id : String → Action Store Transaction
get_by_id transaction_id s = elim (Dict.get s.transactions transaction_id) [
  | none ↦ (err not_found, s)
  | some t ↦ (ok t, s)
]

abbrev pub completed : Transaction → TransactionStatus → String → Time → Transaction
completed t status reason completed_at = record t {
  status = status;
  failure_reason = reason;
  updated_at = completed_at;
  completed_at = some completed_at;
}

unfoldable pub complete :
    String → TransactionStatus → String → Time → Action Store (Transaction × Bool)
complete transaction_id status reason completed_at s =
    if not (is_final status)
    then (err invalid_status, s)
    else elim (Dict.get s.transactions transaction_id) [
      | none ↦ (err not_found, s)
      | some t ↦
          if is_final t.status
          then if status_eq t.status status then (ok (t, false), s) else (err conflict, s)
          else let t' = completed t status reason completed_at in
            (ok (t', true), record s { transactions = Dict.put s.transactions transaction_id t' })
    ]

abbrev pub repository : TransactionRepository Store
repository = record {
  next_attempt = next_attempt;
  save = save;
  get_by_id = get_by_id;
  complete = complete;
}
