-- ===== src/Redis/Blacklist.antt =====
-- internal/adapters/repository/redis/order_gateway_blacklist_repository.go. The script counts in
-- doubles (Lua); a stored count that is not a number ends it at once here.
pub mod Counting
pub mod Refinement
pub mod Recording
pub mod Members
pub mod Equivalence
use payment_gateway_router.Common.{
  String, Bool, true, false, not, ◌&&◌, ◌||◌, Option, none, some, List, [], ◌∷◌, str_eq,
  if◌then◌else◌,
}
use payment_gateway_router.Go.Int.{ℤ, pos, leb_ℤ}
use payment_gateway_router.Go.Time.{Time}
use payment_gateway_router.Go.Dict.{Dict}
use payment_gateway_router.Action.{Action, pure, raise, lift, ◌>>=◌, ◌>>◌}
use payment_gateway_router.Domain.Errors
use payment_gateway_router.Domain.Errors.{Error, Result, ok, err, invalid_status, message}
use payment_gateway_router.Domain.Transaction.{TransactionStatus, is_final}
use payment_gateway_router.Domain.Gateway.{OrderGatewayAttemptSummary}
use payment_gateway_router.Ports.{OrderGatewayBlacklistRepository}
use payment_gateway_router.Redis.Lua.{add_one}
use payment_gateway_router.Redis.Key.{key}
use payment_gateway_router.Redis.Client.{Store}
use payment_gateway_router.Redis.Json.{status_text}
use payment_gateway_router.Redis.Server.{Reply, word, integer, payload}

-- `strconv.ParseBool`
abbrev pub parse_bool : String → Result Bool
parse_bool s =
    if str_eq s "1"
      || str_eq s "t"
      || str_eq s "T"
      || str_eq s "TRUE"
      || str_eq s "true"
      || str_eq s "True"
    then ok true
    else if str_eq s "0"
        || str_eq s "f"
        || str_eq s "F"
        || str_eq s "FALSE"
        || str_eq s "false"
        || str_eq s "False"
    then ok false
    else err (message "strconv.ParseBool: invalid syntax")

abbrev pub bool_text : Bool → String
bool_text b = if b then "true" else "false"

-- The counts of the script, and whether the gateway is blacklisted.
pub record Counts : Type 0 where
  pub failures : ℤ
  pub successes : ℤ
  pub blacklisted : Bool

module _ {S V : Type 0} (store : Store S V) where
  abbrev pub summary_key : String → String → String
  summary_key order_id gateway =
      key store.key_prefix ("order" ∷ order_id ∷ "gateway" ∷ gateway ∷ "attempts" ∷ [])

  abbrev pub blacklist_key : String → String
  blacklist_key order_id = key store.key_prefix ("order" ∷ order_id ∷ "blacklisted_gateways" ∷ [])

  unfoldable pub blacklisted_gateways : String → Action S (Dict (Unit {0}))
  blacklisted_gateways order_id = store.client.smembers (blacklist_key order_id)

  -- `tonumber(redis.call("HGET", …) or "0")`
  abbrev pub number_or_zero : Option String → Result ℤ
  number_or_zero none = ok (pos 0)
  number_or_zero (some s) = store.formats.lua_tonumber s

  -- The branch of a failure: whether the gateway is to be blacklisted, for the count with it.
  abbrev pub add_failure : String → String → Bool → Counts → Action S Counts
  add_failure at_blacklist gateway enough counted =
      if enough
      then store.client.sadd at_blacklist gateway >> pure (record counted { blacklisted = true })
      else pure counted

  -- The `if` of the script on the status.
  unfoldable pub count_script : String → String → String → ℤ → Counts → Action S Counts
  count_script at_blacklist gateway status threshold old =
      let failures = add_one old.failures in
      if str_eq status "success"
      then store.client.srem at_blacklist gateway
        >> pure (record old { successes = add_one old.successes; blacklisted = false })
      else if str_eq status "failure"
      then add_failure at_blacklist gateway
          (leb_ℤ old.successes (pos 0) && leb_ℤ (pos 0) old.successes && leb_ℤ threshold failures)
          (record old { failures = failures })
      else pure old

  -- `recordOrderGatewayOutcomeScript`
  unfoldable pub record_script :
      String → String → String → String → String → String → String → Action S (List (Reply V))
  record_script at_summary at_blacklist order_id gateway status threshold_text at = do
    found_failures ← store.client.hget at_summary "failures"
    failures ← lift (number_or_zero found_failures)
    found_successes ← store.client.hget at_summary "successes"
    successes ← lift (number_or_zero found_successes)
    was_blacklisted ← store.client.sismember at_blacklist gateway
    threshold ← lift (store.formats.lua_tonumber threshold_text)
    counts ←
        count_script at_blacklist gateway status threshold
          (record { failures = failures; successes = successes; blacklisted = was_blacklisted })
    store.client.hset at_summary (
        ("order_id", order_id)
        ∷ ("gateway", gateway)
        ∷ ("failures", store.formats.lua_text counts.failures)
        ∷ ("successes", store.formats.lua_text counts.successes)
        ∷ ("blacklisted", bool_text counts.blacklisted)
        ∷ ("updated_at", at)
        ∷ [])
    pure (
        integer (store.formats.lua_integer counts.failures)
        ∷ integer (store.formats.lua_integer counts.successes)
        ∷ word (bool_text counts.blacklisted)
        ∷ word (bool_text (counts.blacklisted && not was_blacklisted))
        ∷ word at
        ∷ [])

  -- `fmt.Sprint(result[i])`
  abbrev pub sprint : Reply V → String
  sprint (word w) = w
  sprint (integer n) = store.formats.format_int n
  sprint (payload v) = store.json.payload_text v

  -- What `RecordOutcome` makes of the script's reply.
  abbrev pub read_summary :
      String → String → List (Reply V) → Result (OrderGatewayAttemptSummary × Bool)
  read_summary order_id gateway (r0 ∷ r1 ∷ r2 ∷ r3 ∷ r4 ∷ _) =
      Errors.◌>>=◌ (store.formats.parse_int (sprint r0)) λ failures.
        Errors.◌>>=◌ (store.formats.parse_int (sprint r1)) λ successes.
          Errors.◌>>=◌ (parse_bool (sprint r2)) λ blacklisted.
            Errors.◌>>=◌ (parse_bool (sprint r3)) λ newly_blacklisted.
              Errors.◌>>=◌ (store.formats.parse_time (sprint r4)) λ updated_at. ok (
                record {
                  order_id = order_id;
                  gateway = gateway;
                  failures = failures;
                  successes = successes;
                  blacklisted = blacklisted;
                  updated_at = updated_at;
                },
                newly_blacklisted,
              )
  read_summary order_id gateway _ = err (message "unexpected redis order gateway response")

  unfoldable pub record_outcome :
      String → String → TransactionStatus → ℤ → Time → Action S (OrderGatewayAttemptSummary × Bool)
  record_outcome order_id gateway status failure_threshold now =
      if not (is_final status) then raise invalid_status else (do
        let threshold = if leb_ℤ failure_threshold (pos 0) then pos 1 else failure_threshold
        result ← store.client.run (
            record_script (summary_key order_id gateway) (blacklist_key order_id) order_id gateway
              (status_text status) (store.formats.format_int threshold)
              (store.formats.format_time now))
        lift (read_summary order_id gateway result))

  abbrev pub repository : OrderGatewayBlacklistRepository S
  repository = record {
    blacklisted_gateways = blacklisted_gateways;
    record_outcome = record_outcome;
  }
