-- ===== src/Redis/Health.antt =====
-- The states of internal/adapters/repository/redis/gateway_health_repository.go; the statistics by
-- buckets are left out. A Lua number is an integer here: milliseconds and counts are below 2^53.
pub mod Refinement
pub mod Scripts
pub mod Equivalence
pub mod Acquiring
pub mod Storing
use payment_gateway_router.Common.{
  String, Bool, true, false, not, ◌&&◌, ◌+◌, Option, none, some, List, [], ◌∷◌, ◌++◌, map, length,
  str_eq, if◌then◌else◌,
}
use payment_gateway_router.Go.Int.{ℤ, pos, ltb_ℤ, leb_ℤ}
use payment_gateway_router.Go.Time.{Time, zero_time, unix_milli}
use payment_gateway_router.Action.{Action, pure, raise, lift, ◌>>=◌, ◌>>◌}
use payment_gateway_router.Domain.Errors
use payment_gateway_router.Domain.Errors.{Error, Result, ok, err, not_found, message}
use payment_gateway_router.Domain.Gateway.{
  GatewayRuntimeState, GatewayState, HalfOpenProbe, healthy, unhealthy, half_open, other,
}
use payment_gateway_router.Redis.Key.{key}
use payment_gateway_router.Redis.Client.{Store}
use payment_gateway_router.Redis.Json.{read_string, read_number, read_time}
use payment_gateway_router.Redis.Transactions.{is_text}
use payment_gateway_router.Redis.States.{
  marshal_state, decode_state, active_rows, release_rows, with_active, updated, rows_of, row_of,
}
use payment_gateway_router.Redis.Server.{
  Formats, JsonText, Leaf, word_leaf, number_leaf, Row, Member, text, numeral, object, rows, Table,
  with_member, without, Reply, word, payload,
}

module _ {S V : Type 0} (store : Store S V) where
  abbrev pub state_key : String → String
  state_key gateway = key store.key_prefix ("gateway" ∷ gateway ∷ "state" ∷ [])

  unfoldable pub ensure : String → Time → Action S (Unit {0})
  ensure gateway now = do
    let state : GatewayRuntimeState = record {
      gateway = gateway;
      state = healthy;
      unhealthy_until = zero_time;
      half_open_in_flight = pos 0;
      half_open_probes = [];
      updated_at = now;
    }
    stored ← lift (marshal_state store.formats store.json state)
    created ← store.client.set_nx (state_key gateway) stored
    pure tt

  unfoldable pub save : GatewayRuntimeState → Action S (Unit {0})
  save state = do
    stored ← lift (marshal_state store.formats store.json state)
    store.client.set (state_key state.gateway) stored

  abbrev pub read_state : Option V → Result GatewayRuntimeState
  read_state none = err not_found
  read_state (some stored) = decode_state store.formats store.json stored

  unfoldable pub get : String → Action S GatewayRuntimeState
  get gateway = do found ← store.client.get (state_key gateway); lift (read_state found)

  -- `if not raw then …; if state["state"] ~= "half_open" then …`, with which every script starts.
  abbrev pub on_half_open :
      String → (Table → Action S (List (Reply V))) → Option V → Action S (List (Reply V))
  on_half_open otherwise body none = pure (word "missing" ∷ [])
  on_half_open otherwise body (some raw) = do
    state ← lift (store.json.decode raw)
    if not (is_text (state "state") "half_open")
        then pure (word otherwise ∷ payload raw ∷ [])
        else body state

  -- `redis.call("SET", KEYS[1], updated)`, and the reply.
  abbrev pub set_and_reply : String → String → Table → Action S (List (Reply V))
  set_and_reply at_key code state = do
    store.client.set at_key (store.json.encode state)
    pure (word code ∷ payload (store.json.encode state) ∷ [])

  -- `pruneExpiredProbesScript`
  unfoldable pub prune_script : String → ℤ → String → Action S (List (Reply V))
  prune_script at_key now_millis at = do
    raw ← store.client.get at_key
    on_half_open "ok"
        (λ state.
          lift (active_rows store.formats now_millis (rows_of (state "half_open_probes")))
          >>= λ active. set_and_reply at_key "ok" (updated store.formats state active at))
        raw

  -- The end of `acquireProbeScript`, for the probes that are active.
  abbrev pub acquire_active :
      String → ℤ → String → ℤ → String → Table → List Row → Action S (List (Reply V))
  acquire_active at_key max_in_flight transaction_id expires at state active =
      if leb_ℤ max_in_flight (pos (length active))
      then set_and_reply at_key "full" (updated store.formats state active at)
      else set_and_reply at_key "acquired" (
          updated store.formats (with_active store.formats state active)
            (active
              ++ row_of store.formats
                  (record { transaction_id = transaction_id; expires_at_unix_milli = expires })
                ∷ [])
            at)

  -- `acquireProbeScript`
  unfoldable pub acquire_script : String → ℤ → String → ℤ → ℤ → String → Action S (List (Reply V))
  acquire_script at_key max_in_flight transaction_id expires now_millis at = do
    raw ← store.client.get at_key
    on_half_open "not_half_open"
        (λ state.
          lift (active_rows store.formats now_millis (rows_of (state "half_open_probes")))
          >>= λ active. acquire_active at_key max_in_flight transaction_id expires at state active)
        raw

  -- `releaseProbeScript`
  unfoldable pub release_script : String → String → ℤ → String → Action S (List (Reply V))
  release_script at_key transaction_id now_millis at = do
    raw ← store.client.get at_key
    on_half_open "not_half_open"
        (λ state.
          lift (active_rows store.formats now_millis (rows_of (state "half_open_probes")))
          >>= λ active.
              let (staying, released) = release_rows transaction_id active in
              set_and_reply at_key (if released then "released" else "not_found")
                (updated store.formats state staying at))
        raw

  abbrev pub read_payload : List (Reply V) → Result GatewayRuntimeState
  read_payload (payload stored ∷ _) = decode_state store.formats store.json stored
  read_payload (_ ∷ _) = err (message "json: cannot unmarshal into a state")
  read_payload [] = err (message "missing gateway state in redis response")

  -- What the three calls make of a reply: the state, and whether its code is the given one.
  abbrev pub read_reply : String → List (Reply V) → Result (GatewayRuntimeState × Bool)
  read_reply expected [] = err (message "unexpected redis response")
  read_reply expected (word code ∷ rest) =
      if str_eq code "missing"
      then err not_found
      else Errors.◌>>=◌ (read_payload rest) λ state. ok (state, str_eq code expected)
  read_reply expected (_ ∷ rest) = Errors.◌>>=◌ (read_payload rest) λ state. ok (state, false)

  unfoldable pub prune_expired_half_open_probes : String → Time → Action S GatewayRuntimeState
  prune_expired_half_open_probes gateway now = do
    result ←
        store.client.run
          (prune_script (state_key gateway) (unix_milli now) (store.formats.format_time now))
    lift (Errors.◌>>=◌ (read_reply "ok" result) λ found. ok found.0)

  unfoldable pub try_acquire_half_open_probe :
      String → String → ℤ → Time → Time → Action S (GatewayRuntimeState × Bool)
  try_acquire_half_open_probe gateway transaction_id max_in_flight expires_at now = do
    result ← store.client.run (
        acquire_script (state_key gateway) max_in_flight transaction_id (unix_milli expires_at)
          (unix_milli now) (store.formats.format_time now))
    lift (read_reply "acquired" result)

  unfoldable pub release_half_open_probe :
      String → String → Time → Action S (GatewayRuntimeState × Bool)
  release_half_open_probe gateway transaction_id now = do
    result ← store.client.run (
        release_script (state_key gateway) transaction_id (unix_milli now)
          (store.formats.format_time now))
    lift (read_reply "released" result)
