-- ===== src/Redis/Blacklist/Equivalence.antt =====
-- The operations of internal/adapters/repository/redis/order_gateway_blacklist_repository.go answer
-- as their in-memory counterparts.
use payment_gateway_router.Common.{
  zero, suc, ◌^◌, arith, String, ◌≡◌, refl, ap, ◌∙◌, Bool, true, false, not, ◌&&◌, str_eq,
  if◌then◌else◌, Bool-cases, inl, inr,
}
use payment_gateway_router.Go.Int.{ℤ, pos, negsuc, ◌≤ℤ◌}
use payment_gateway_router.Redis.Lua.{IsExact, IsCount, IsCount-IsExact, add_one-IsExact}
use payment_gateway_router.Go.Time.{Time}
use payment_gateway_router.Go.Dict
use payment_gateway_router.Go.Dict.{Dict, get-keys_where}
use payment_gateway_router.Action.Post.{bind_ok}
use payment_gateway_router.Domain.Errors.{Result, ok}
use payment_gateway_router.Domain.Transaction.{
  TransactionStatus, is_final, pending, success, failure, other,
}
use payment_gateway_router.Domain.Gateway.{OrderGatewayAttemptSummary}
use payment_gateway_router.Memory.Blacklist as Memory
use payment_gateway_router.Memory.Blacklist.{
  summary_of, by_gateway, next_summary, count_outcome, at_least_one,
}
use payment_gateway_router.Memory.Blacklist.History.{summary-put}
use payment_gateway_router.Redis.Key.Splitting.{Plain}
use payment_gateway_router.Redis.Server.{IsDated}
use payment_gateway_router.Redis.Client.{Store, HashSetting}
use payment_gateway_router.Redis.Json.{status_text}
use payment_gateway_router.Redis.Blacklist.{
  Counts, summary_key, blacklist_key, record_outcome, count_script,
}
use payment_gateway_router.Redis.Blacklist.Counting.{counts_of, Counted, count_script-Counted}
use payment_gateway_router.Redis.Blacklist.Refinement.{
  Matches, Related, Refines, blacklist_key_eq, summary_key_eq,
}
use payment_gateway_router.Redis.Blacklist.Recording.{
  written, script_result, read_summary-replied, replied,
}

abbrev named : OrderGatewayAttemptSummary → String → String → OrderGatewayAttemptSummary
named old o g = record old { order_id = o; gateway = g }

-- A summary of the counts that the script made.
abbrev of_counts : String → String → Counts → Time → OrderGatewayAttemptSummary
of_counts o g counts at = record {
  order_id = o;
  gateway = g;
  failures = counts.failures;
  successes = counts.successes;
  blacklisted = counts.blacklisted;
  updated_at = at;
}

of_counts-next_summary :
    (old : OrderGatewayAttemptSummary) (o g : String) (status : TransactionStatus) (n : ℤ)
    (at : Time)
    → of_counts o g (counts_of (count_outcome (named old o g) status n)) at
      ≡ next_summary old o g status n at
unfolding next_summary
of_counts-next_summary old o g success n at = refl
of_counts-next_summary old o g failure n at = refl
of_counts-next_summary old o g pending n at = refl
of_counts-next_summary old o g (other t) n at = refl

-- Both tell a newly blacklisted gateway, each in its order of the two flags.
newly_either_way : (now was : Bool) → (now && not was) ≡ (not was && now)
newly_either_way true true = refl
newly_either_way true false = refl
newly_either_way false true = refl
newly_either_way false false = refl

abbrev Exact : Counts → Type 0
Exact counts = IsExact counts.failures × IsExact counts.successes

count_outcome-Exact :
    (old : OrderGatewayAttemptSummary) (status : TransactionStatus) (n : ℤ)
    → IsCount old.failures
    → IsCount old.successes
    → Exact (counts_of (count_outcome old status n))
count_outcome-Exact old success n few few' =
    (IsCount-IsExact old.failures few, add_one-IsExact old.successes few')
count_outcome-Exact old failure n few few' =
    (add_one-IsExact old.failures few, IsCount-IsExact old.successes few')
count_outcome-Exact old pending n few few' =
    (IsCount-IsExact old.failures few, IsCount-IsExact old.successes few')
count_outcome-Exact old (other t) n few few' =
    (IsCount-IsExact old.failures few, IsCount-IsExact old.successes few')

at_least_one-IsExact : (n : ℤ) → n ≤ℤ pos (2 ^ 53) → IsExact (at_least_one n)
at_least_one-IsExact (pos zero) h = (1, refl, omega arith)
at_least_one-IsExact (pos (suc n)) h = (suc n, ground arith, omega arith)
at_least_one-IsExact (negsuc n) h = (1, ground arith, omega arith)

module _ {S V : Type 0} (store : Store S V) (setting : HashSetting store) (m : Memory.Store) (s : S)
    (o g : String) where
  -- What the script has written matches the summary that replaces the old one, and nothing else.
  written-Matches :
      (counts : Counts) (r : Result Counts × S) (at : Time)
      → Exact counts
      → Plain o
      → Plain g
      → Related store setting m s
      → (counted : Counted store setting (blacklist_key store o) g counts s r) → (o' g' : String)
      → Plain o'
      → Plain g'
      → Matches store setting
          (setting.hashes.put_fields
            (summary_key store o g)
            (written o g counts store.formats.lua_text (store.formats.format_time at))
            counted.after)
          o'
          g'
          (if str_eq o o' && str_eq g g' then of_counts o g counts at else summary_of m o' g')
  written-Matches counts r at (failed, succeeded) h i related counted o' g' h' i' =
      let old = related o' g' h' i' in
      elim (Bool-cases (str_eq o o' && str_eq g g')) [
        | inl e ↦ rw e (record {
          failures =
              rw
                (
                  setting.hashes.field-put_fields,
                  summary_key_eq store setting o g o' g' h i h' i' ∙ e,
                )
                (setting.laws.lua_tonumber-lua_text counts.failures failed);
          successes =
              rw
                (
                  setting.hashes.field-put_fields,
                  summary_key_eq store setting o g o' g' h i h' i' ∙ e,
                )
                (setting.laws.lua_tonumber-lua_text counts.successes succeeded);
          blacklisted =
              rw
                (
                  setting.hashes.member-put_fields,
                  counted.members_of,
                  blacklist_key_eq store setting o o' h h',
                  e,
                )
                refl;
        })
        | inr e ↦ rw e (record {
          failures =
              rw
                (
                  setting.hashes.field-put_fields,
                  summary_key_eq store setting o g o' g' h i h' i' ∙ e,
                  counted.same_fields,
                )
                old.failures;
          successes =
              rw
                (
                  setting.hashes.field-put_fields,
                  summary_key_eq store setting o g o' g' h i h' i' ∙ e,
                  counted.same_fields,
                )
                old.successes;
          blacklisted =
              rw
                (
                  setting.hashes.member-put_fields,
                  counted.members_of,
                  blacklist_key_eq store setting o o' h h',
                  e,
                )
                old.blacklisted;
        })
      ]

  module _ (status : TransactionStatus) (threshold : ℤ) (at : Time) where
    abbrev RecordsAlike : Type 0
    RecordsAlike =
        Refines store setting (Memory.record_outcome o g status threshold at m)
          (record_outcome store o g status threshold at s)

    abbrev stored : OrderGatewayAttemptSummary
    stored = named (summary_of m o g) o g

    abbrev counts : Counts
    counts = counts_of (count_outcome stored status (at_least_one threshold))

    recorded :
        (after : S)
        → is_final status ≡ true
        → IsDated at
        → IsExact (at_least_one threshold)
        → Exact counts
        → Matches store setting s o g (summary_of m o g)
        → count_script store
            (blacklist_key store o)
            g
            (status_text status)
            (at_least_one threshold)
            (counts_of stored)
            s
          ≡ (ok counts, after)
        → record_outcome store o g status threshold at s ≡ (
          ok (of_counts o g counts at, counts.blacklisted && not (summary_of m o g).blacklisted),
          setting.hashes.put_fields
              (summary_key store o g)
              (written o g counts store.formats.lua_text (store.formats.format_time at))
              after,
        )
    unfolding record_outcome
    recorded after final dated some_failures exact matches counted =
        let old = summary_of m o g in
        let named_matches : Matches store setting s o g stored = record {
          failures = matches.failures;
          successes = matches.successes;
          blacklisted = matches.blacklisted;
        } in
        rw final (
          bind_ok (store.client.run _) _ s _
            (replied store setting o g counts old.blacklisted (store.formats.format_time at))
            (setting.hashes.run_script _ s
              ∙ script_result store setting o g (status_text status) (store.formats.format_time at)
                  (at_least_one threshold) stored counts s after named_matches some_failures
                  counted)
          ∙ rw
              (read_summary-replied store setting o g counts old.blacklisted at dated exact.0
                exact.1)
              refl)

    recorded-Related :
        (r : Result Counts × S)
        → Exact counts
        → Plain o
        → Plain g
        → Related store setting m s
        → (counted : Counted store setting (blacklist_key store o) g counts s r)
        → Related store setting
            (Dict.put m o (Dict.put (by_gateway m o) g (of_counts o g counts at)))
            (setting.hashes.put_fields
              (summary_key store o g)
              (written o g counts store.formats.lua_text (store.formats.format_time at))
              counted.after)
    recorded-Related r exact h i related counted o' g' h' i' =
        rw (summary-put m o g o' g' (of_counts o g counts at))
          (written-Matches counts r at exact h i related counted o' g' h' i')

    recorded-Refines :
        is_final status ≡ true
        → IsDated at
        → threshold ≤ℤ pos (2 ^ 53)
        → IsCount (summary_of m o g).failures
        → IsCount (summary_of m o g).successes
        → Plain o
        → Plain g
        → Related store setting m s
        → RecordsAlike
    unfolding Memory.record_outcome
    recorded-Refines final dated limit few few' h i related =
        let exact = count_outcome-Exact stored status (at_least_one threshold) few few' in
        let matches = related o g h i in
        let counted =
          count_script-Counted store setting (blacklist_key store o) g s status
            (at_least_one threshold) stored final few few' matches.blacklisted in
        rw
          (
            final,
            recorded counted.after final dated (at_least_one-IsExact threshold limit) exact matches
                counted.returned,
            ← of_counts-next_summary (summary_of m o g) o g status (at_least_one threshold) at,
          )
          (
            ap (λ newly. ok (of_counts o g counts at, newly))
                (newly_either_way counts.blacklisted (summary_of m o g).blacklisted),
            recorded-Related _ exact h i related counted,
          )

    -- `RecordOutcome` over Redis answers what the in-memory one answers, the error for a status that is
    -- not final included (the same counts, flag and time, and whether the gateway is newly blacklisted),
    -- and leaves stores that hold the same summaries, if the stores did before: for counts of the order
    -- and gateway that are natural numbers below 2^53 before the call and a threshold of at most 2^53,
    -- which doubles hold, an order, a gateway and a key prefix that are not empty and have no colon,
    -- a time before the year 10000, and a server that answers.
    pub record_outcome-Refines :
        IsDated at
        → threshold ≤ℤ pos (2 ^ 53)
        → IsCount (summary_of m o g).failures
        → IsCount (summary_of m o g).successes
        → Plain o
        → Plain g
        → Related store setting m s
        → RecordsAlike
    unfolding Memory.record_outcome record_outcome
    record_outcome-Refines dated limit few few' h i related = elim (Bool-cases (is_final status)) [
      | inl final ↦ recorded-Refines final dated limit few few' h i related
      | inr undecided ↦ rw undecided (refl, related)
    ]
