-- ===== src/Redis/Blacklist/Recording.antt =====
-- `RecordOutcome` of internal/adapters/repository/redis/order_gateway_blacklist_repository.go against
-- its in-memory counterpart.
use payment_gateway_router.Common.{String, ◌≡◌, refl, ◌∙◌, Bool, not, ◌&&◌, List, [], ◌∷◌}
use payment_gateway_router.Go.Int.{ℤ}
use payment_gateway_router.Go.Time.{Time}
use payment_gateway_router.Action.{lift}
use payment_gateway_router.Action.Post.{bind_ok}
use payment_gateway_router.Domain.Errors.{ok}
use payment_gateway_router.Domain.Gateway.{OrderGatewayAttemptSummary}
use payment_gateway_router.Redis.Server.{IsDated, Reply, word, integer}
use payment_gateway_router.Redis.Lua.{IsExact}
use payment_gateway_router.Redis.Client.{Store, HashSetting}
use payment_gateway_router.Redis.Blacklist.{
  Counts, summary_key, blacklist_key, record_script, bool_text, read_summary, count_script,
}
use payment_gateway_router.Redis.Blacklist.Counting.{counts_of}
use payment_gateway_router.Redis.Blacklist.Refinement.{Matches, parse_bool-bool_text}

abbrev pub written : String → String → Counts → (ℤ → String) → String → List (String × String)
written order_id gateway counts lua_text at =
    ("order_id", order_id)
    ∷ ("gateway", gateway)
    ∷ ("failures", lua_text counts.failures)
    ∷ ("successes", lua_text counts.successes)
    ∷ ("blacklisted", bool_text counts.blacklisted)
    ∷ ("updated_at", at)
    ∷ []

module _ {S V : Type 0} (store : Store S V) (setting : HashSetting store) (o g : String) where
  unfoldable pub replied : Counts → Bool → String → List (Reply V)
  replied counts was at =
      integer (store.formats.lua_integer counts.failures)
      ∷ integer (store.formats.lua_integer counts.successes)
      ∷ word (bool_text counts.blacklisted)
      ∷ word (bool_text (counts.blacklisted && not was))
      ∷ word at
      ∷ []

  pub script_result :
      (status at : String) (threshold : ℤ) (old : OrderGatewayAttemptSummary) (counts : Counts)
      (s s1 : S)
      → Matches store setting s o g old
      → IsExact threshold
      → count_script store (blacklist_key store o) g status threshold (counts_of old) s
        ≡ (ok counts, s1)
      → record_script store
          (summary_key store o g)
          (blacklist_key store o)
          o
          g
          status
          (store.formats.format_int threshold)
          at
          s
        ≡ (
          ok (replied counts old.blacklisted at),
          setting.hashes.put_fields
              (summary_key store o g)
              (written o g counts store.formats.lua_text at)
              s1,
        )
  unfolding record_script replied
  script_result status at threshold old counts s s1 h exact counted =
      bind_ok (store.client.hget (summary_key store o g) "failures") _ s s _
        (setting.hashes.hget-field _ _ s)
      ∙ bind_ok (lift _) _ s s old.failures (rw h.failures refl)
      ∙ bind_ok (store.client.hget (summary_key store o g) "successes") _ s s _
          (setting.hashes.hget-field _ _ s)
      ∙ bind_ok (lift _) _ s s old.successes (rw h.successes refl)
      ∙ bind_ok (store.client.sismember (blacklist_key store o) g) _ s s old.blacklisted
          (setting.hashes.sismember-member _ g s ∙ rw h.blacklisted refl)
      ∙ bind_ok (lift _) _ s s threshold
          (rw (setting.laws.lua_tonumber-format_int threshold exact) refl)
      ∙ bind_ok (count_script store (blacklist_key store o) g status threshold (counts_of old)) _ s
          s1 counts counted
      ∙ bind_ok (store.client.hset (summary_key store o g) _) _ s1 _ tt
          (setting.hashes.hset-put_fields _ _ s1)

  -- The reply is read as the summary that the in-memory repository returns.
  pub read_summary-replied :
      (counts : Counts) (was : Bool) (at : Time)
      → IsDated at
      → IsExact counts.failures
      → IsExact counts.successes
      → read_summary store o g (replied counts was (store.formats.format_time at))
        ≡ ok (
          record {
            order_id = o;
            gateway = g;
            failures = counts.failures;
            successes = counts.successes;
            blacklisted = counts.blacklisted;
            updated_at = at;
          },
          counts.blacklisted && not was,
        )
  unfolding replied
  read_summary-replied counts was at dated failed succeeded =
      rw
        (
          setting.laws.lua_integer-exact counts.failures failed,
          setting.laws.lua_integer-exact counts.successes succeeded,
          setting.laws.parse_int-format_int counts.failures,
          setting.laws.parse_int-format_int counts.successes,
          parse_bool-bool_text counts.blacklisted,
          parse_bool-bool_text (counts.blacklisted && not was),
          setting.laws.parse_time-format_time at dated,
        )
        refl
