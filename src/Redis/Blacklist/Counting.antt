-- ===== src/Redis/Blacklist/Counting.antt =====
-- What `recordOrderGatewayOutcomeScript` of
-- internal/adapters/repository/redis/order_gateway_blacklist_repository.go counts.
use payment_gateway_router.Common.{
  String, ◌≡◌, refl, Bool, true, false, ◌&&◌, str_eq, eq_iff, eq_refl, if◌then◌else◌, Bool-cases,
  inl, inr,
}
use payment_gateway_router.Go.Int.{ℤ, pos, ◌+ℤ◌}
use payment_gateway_router.Action.{Action, ◌>>◌, pure}
use payment_gateway_router.Action.Post.{bind_ok}
use payment_gateway_router.Domain.Errors.{Result, ok}
use payment_gateway_router.Domain.Transaction.{
  TransactionStatus, is_final, pending, success, failure, other,
}
use payment_gateway_router.Domain.Gateway.{OrderGatewayAttemptSummary}
use payment_gateway_router.Memory.Blacklist.{count_outcome}
use payment_gateway_router.Redis.Lua.{IsCount, add_one-exact}
use payment_gateway_router.Redis.Client.{Store, HashSetting}
use payment_gateway_router.Redis.Json.{status_text}
use payment_gateway_router.Redis.Blacklist.{Counts, count_script, add_failure}

abbrev pub counts_of : OrderGatewayAttemptSummary → Counts
counts_of summary = record {
  failures = summary.failures;
  successes = summary.successes;
  blacklisted = summary.blacklisted;
}

module _ {S V : Type 0} (store : Store S V) (setting : HashSetting store) where
  -- The one change of the script before its `HSET`: whether the gateway is a member of the blacklist.
  pub record Counted (at_blacklist gateway : String) (counts : Counts) (s : S)
      (r : Result Counts × S) : Type 0 where
    pub after : S
    pub returned : r ≡ (ok counts, after)
    pub same_fields :
        (key name : String) → setting.hashes.field after key name ≡ setting.hashes.field s key name
    pub members_of :
        (key x : String)
        → setting.hashes.member after key x ≡ (
            if str_eq at_blacklist key && str_eq gateway x
            then counts.blacklisted
            else setting.hashes.member s key x)

  module _ (at_blacklist gateway : String) (s : S) where
    unchanged :
        (b : Bool) (key x : String)
        → setting.hashes.member s at_blacklist gateway ≡ b
        → setting.hashes.member s key x ≡ (
            if str_eq at_blacklist key && str_eq gateway x
            then b
            else setting.hashes.member s key x)
    unchanged b key x h = elim (Bool-cases (str_eq at_blacklist key)) [
      | inr e ↦ rw e refl
      | inl e ↦ elim (Bool-cases (str_eq gateway x)) [
        | inr f ↦ rw (e, f) refl
        | inl f ↦
            rw
              (
                ← (eq_iff at_blacklist key).0 e,
                ← (eq_iff gateway x).0 f,
                eq_refl at_blacklist,
                eq_refl gateway,
              )
              h
      ]
    ]

    abbrev in_set : Bool → S
    in_set b = setting.hashes.put_member at_blacklist gateway b s

    changed :
        (m : Action S (Unit {0})) (counts : Counts)
        → m s ≡ (ok tt, in_set counts.blacklisted)
        → Counted at_blacklist gateway counts s ((m >> pure counts) s)
    changed m counts e = record {
      after = in_set counts.blacklisted;
      returned = bind_ok m _ s _ tt e;
      same_fields = λ key name.
          setting.hashes.field-put_member at_blacklist key gateway name counts.blacklisted s;
      members_of =
          λ key x. setting.hashes.member-put_member at_blacklist key gateway x counts.blacklisted s;
    }

    add_failure-Counted :
        (enough : Bool) (counts : Counts)
        → setting.hashes.member s at_blacklist gateway ≡ counts.blacklisted
        → Counted at_blacklist gateway
            (record counts { blacklisted = if enough then true else counts.blacklisted })
            s
            (add_failure store at_blacklist gateway enough counts s)
    add_failure-Counted true counts h =
        changed (store.client.sadd at_blacklist gateway) (record counts { blacklisted = true })
          (setting.hashes.sadd-put_member at_blacklist gateway s)
    add_failure-Counted false counts h = record {
      after = s;
      returned = refl;
      same_fields = λ key name. refl;
      members_of = λ key x. unchanged counts.blacklisted key x h;
    }

    -- The script counts as the `switch` of the in-memory repository does, while doubles hold the counts.
    pub count_script-Counted :
        (status : TransactionStatus) (threshold : ℤ) (old : OrderGatewayAttemptSummary)
        → is_final status ≡ true
        → IsCount old.failures
        → IsCount old.successes
        → setting.hashes.member s at_blacklist gateway ≡ old.blacklisted
        → Counted at_blacklist gateway (counts_of (count_outcome old status threshold)) s (
            count_script store at_blacklist gateway
              (status_text status)
              threshold
              (counts_of old)
              s)
    unfolding count_script
    count_script-Counted pending threshold old final few few' h = cc final
    count_script-Counted (other t) threshold old final few few' h = cc final
    count_script-Counted success threshold old final few few' h =
        rw (add_one-exact old.successes few') (
          changed (store.client.srem at_blacklist gateway) _
            (setting.hashes.srem-put_member at_blacklist gateway s))
    count_script-Counted failure threshold old final few few' h =
        rw (add_one-exact old.failures few)
          (add_failure-Counted _ (record (counts_of old) { failures = old.failures +ℤ pos 1 }) h)
