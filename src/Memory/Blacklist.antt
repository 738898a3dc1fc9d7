-- ===== src/Memory/Blacklist.antt =====
-- internal/adapters/repository/memory/order_gateway_blacklist_repository.go
pub mod History
use payment_gateway_router.Common.{
  String, Bool, true, false, not, ◌&&◌, Option, none, some, if◌then◌else◌,
}
use payment_gateway_router.Go.Int.{ℤ, pos, ◌+ℤ◌, leb_ℤ}
use payment_gateway_router.Go.Time.{Time, zero_time}
use payment_gateway_router.Go.Dict
use payment_gateway_router.Go.Dict.{Dict}
use payment_gateway_router.Action.{Action}
use payment_gateway_router.Domain.Errors.{ok, err, invalid_status}
use payment_gateway_router.Domain.Transaction.{TransactionStatus, success, failure, is_final}
use payment_gateway_router.Domain.Gateway.{OrderGatewayAttemptSummary}
use payment_gateway_router.Ports.{OrderGatewayBlacklistRepository}

abbrev pub Store : Type 0
Store = Dict (Dict OrderGatewayAttemptSummary)

abbrev pub new : Store
new = Dict.empty

-- `summaries[order_id]`: reading the nil map finds no gateway.
abbrev pub by_gateway : Store → String → Dict OrderGatewayAttemptSummary
by_gateway s order_id = elim (Dict.get s order_id) [ none ↦ Dict.empty | some d ↦ d ]

unfoldable pub blacklisted_gateways : String → Action Store (Dict (Unit {0}))
blacklisted_gateways order_id s =
    (ok (Dict.keys_where (λ summary. summary.blacklisted) (by_gateway s order_id)), s)

abbrev pub zero_summary : OrderGatewayAttemptSummary
zero_summary = record {
  order_id = "";
  gateway = "";
  failures = pos 0;
  successes = pos 0;
  blacklisted = false;
  updated_at = zero_time;
}

-- `byGateway[gateway]`: a missing summary is the zero value.
abbrev pub or_zero : Option OrderGatewayAttemptSummary → OrderGatewayAttemptSummary
or_zero none = zero_summary
or_zero (some summary) = summary

abbrev pub summary_of : Store → String → String → OrderGatewayAttemptSummary
summary_of s order_id gateway = or_zero (Dict.get (by_gateway s order_id) gateway)

-- The `switch` on the status.
abbrev pub count_outcome :
    OrderGatewayAttemptSummary → TransactionStatus → ℤ → OrderGatewayAttemptSummary
count_outcome summary success threshold = record summary {
  successes = summary.successes +ℤ pos 1;
  blacklisted = false;
}
count_outcome summary failure threshold =
    let failures = summary.failures +ℤ pos 1 in
    record summary {
      failures = failures;
      blacklisted =
          if leb_ℤ summary.successes (pos 0)
            && leb_ℤ (pos 0) summary.successes
            && leb_ℤ threshold failures
          then true
          else summary.blacklisted;
    }
count_outcome summary _ threshold = summary

-- The summary that replaces `old`: its names, the `switch`, and `UpdatedAt`.
unfoldable pub next_summary :
    OrderGatewayAttemptSummary
    → String
    → String
    → TransactionStatus
    → ℤ
    → Time
    → OrderGatewayAttemptSummary
next_summary old order_id gateway status threshold now =
    let named = record old { order_id = order_id; gateway = gateway } in
    record (count_outcome named status threshold) { updated_at = now }

-- `if failureThreshold <= 0 { failureThreshold = 1 }`
abbrev pub at_least_one : ℤ → ℤ
at_least_one threshold = if leb_ℤ threshold (pos 0) then pos 1 else threshold

unfoldable pub record_outcome :
    String
    → String
    → TransactionStatus
    → ℤ
    → Time
    → Action Store (OrderGatewayAttemptSummary × Bool)
record_outcome order_id gateway status failure_threshold now s =
    if not (is_final status)
    then (err invalid_status, s)
    else let old = summary_of s order_id gateway in
      let summary = next_summary old order_id gateway status (at_least_one failure_threshold) now in
      (
        ok (summary, not old.blacklisted && summary.blacklisted),
        Dict.put s order_id (Dict.put (by_gateway s order_id) gateway summary),
      )

abbrev pub repository : OrderGatewayBlacklistRepository Store
repository = record { blacklisted_gateways = blacklisted_gateways; record_outcome = record_outcome }
