-- ===== src/Redis/States.antt =====
-- The states of a gateway as JSON, by the tags of internal/domain/gateway.go, and what the scripts of
-- internal/adapters/repository/redis/gateway_health_repository.go do with them as Lua tables. A Lua
-- number is an integer here: milliseconds and counts are below 2^53.
pub mod Reading
use payment_gateway_router.Common.{
  String, Bool, true, false, not, ◌&&◌, ◌+◌, Option, none, some, List, [], ◌∷◌, ◌++◌, map, length,
  str_eq, if◌then◌else◌,
}
use payment_gateway_router.Go.Int.{ℤ, pos, ltb_ℤ, leb_ℤ}
use payment_gateway_router.Go.Time.{Time, zero_time, unix_milli}
use payment_gateway_router.Action.{Action, pure, raise, lift, ◌>>=◌, ◌>>◌}
use payment_gateway_router.Domain.Errors
use payment_gateway_router.Domain.Errors.{Error, Result, ok, err, not_found, message}
use payment_gateway_router.Domain.Encoding.{encode_state}
use payment_gateway_router.Domain.Gateway.{
  GatewayRuntimeState, GatewayState, HalfOpenProbe, healthy, unhealthy, half_open, other,
}
use payment_gateway_router.Redis.Key.{key}
use payment_gateway_router.Redis.Client.{Store}
use payment_gateway_router.Redis.Json.{read_string, read_number, read_time}
use payment_gateway_router.Redis.Transactions.{is_text}
use payment_gateway_router.Redis.Server.{
  Formats, JsonText, Leaf, word_leaf, number_leaf, Row, Member, text, numeral, object, rows, Table,
  with_member, without, Reply, word, payload,
}

-- `string(state)`, and the state of a text.
abbrev pub state_text : GatewayState → String
state_text healthy = "healthy"
state_text unhealthy = "unhealthy"
state_text half_open = "half_open"
state_text (other s) = s

abbrev pub text_state : String → GatewayState
text_state s =
    if str_eq s "healthy"
    then healthy
    else if str_eq s "unhealthy"
    then unhealthy
    else if str_eq s "half_open"
    then half_open
    else other s

abbrev pub omit_empty_rows : List Row → Option Member
omit_empty_rows [] = none
omit_empty_rows (row ∷ more) = some (rows (row ∷ more))

abbrev pub leaf_string : Option Leaf → Result String
leaf_string none = ok ""
leaf_string (some (word_leaf s)) = ok s
leaf_string (some _) = err (message "json: cannot unmarshal into a string")

abbrev pub leaf_number : (String → Result ℤ) → Option Leaf → Result ℤ
leaf_number parse none = ok (pos 0)
leaf_number parse (some (number_leaf s)) = parse s
leaf_number parse (some _) = err (message "json: cannot unmarshal into a number")

abbrev pub has_id : Row → Bool
has_id row = elim (row "transaction_id") [ none ↦ false | some _ ↦ true ]

abbrev pub is_row_of : String → Row → Bool
is_row_of transaction_id row = elim (row "transaction_id") [
  | none ↦ false
  | some (word_leaf s) ↦ str_eq s transaction_id
  | some (number_leaf s) ↦ false
]

-- What the loop of the release makes of the active probes: those that stay, and whether one went.
unfoldable pub release_rows : String → List Row → List Row × Bool
release_rows transaction_id [] = ([], false)
release_rows transaction_id (row ∷ more) =
    let (active, released) = release_rows transaction_id more in
    if is_row_of transaction_id row then (active, true) else (row ∷ active, released)

module _ (formats : Formats) where
  abbrev pub row_of : HalfOpenProbe → Row
  row_of probe name =
      if str_eq name "transaction_id"
      then some (word_leaf probe.transaction_id)
      else if str_eq name "expires_at_unix_milli"
      then some (number_leaf (formats.format_int probe.expires_at_unix_milli))
      else none

  abbrev pub probe_of : Row → Result HalfOpenProbe
  probe_of row = Errors.◌>>=◌ (leaf_string (row "transaction_id")) λ transaction_id.
      Errors.◌>>=◌ (leaf_number formats.parse_int (row "expires_at_unix_milli"))
        λ expires. ok (record { transaction_id = transaction_id; expires_at_unix_milli = expires })

  abbrev pub probes_of : List Row → Result (List HalfOpenProbe)
  probes_of [] = ok []
  probes_of (row ∷ more) =
      let others = probes_of more in
      Errors.◌>>=◌ (probe_of row) λ probe. Errors.◌>>=◌ others λ probes. ok (probe ∷ probes)

  abbrev pub read_probes : Option Member → Result (List HalfOpenProbe)
  read_probes none = ok []
  read_probes (some (rows rs)) = probes_of rs
  read_probes (some _) = err (message "json: cannot unmarshal into a slice")

  -- encoding/json on a state, by the tags of internal/domain/gateway.go: `omitempty` does not
  -- omit a time.
  unfoldable pub state_table : GatewayRuntimeState → Table
  state_table state name =
      if str_eq name "gateway"
      then some (text state.gateway)
      else if str_eq name "state"
      then some (text (state_text state.state))
      else if str_eq name "unhealthy_until"
      then some (text (formats.format_time state.unhealthy_until))
      else if str_eq name "half_open_in_flight"
      then some (numeral (formats.format_int state.half_open_in_flight))
      else if str_eq name "half_open_probes"
      then omit_empty_rows (map row_of state.half_open_probes)
      else if str_eq name "updated_at"
      then some (text (formats.format_time state.updated_at))
      else none

  -- `json.Marshal(state)`, which refuses what JSON cannot write.
  unfoldable pub marshal_state : {V : Type 0} → JsonText V → GatewayRuntimeState → Result V
  marshal_state json state = Errors.◌>>◌ (encode_state state) (ok (json.print (state_table state)))

  unfoldable pub table_state : Table → Result GatewayRuntimeState
  table_state table = Errors.◌>>=◌ (read_string (table "gateway")) λ gateway.
      Errors.◌>>=◌ (read_string (table "state")) λ state.
        Errors.◌>>=◌ (read_time formats.parse_time (table "unhealthy_until")) λ unhealthy_until.
          Errors.◌>>=◌ (read_number formats.parse_int (pos 0) (table "half_open_in_flight"))
            λ in_flight. Errors.◌>>=◌ (read_probes (table "half_open_probes")) λ probes.
              Errors.◌>>=◌ (read_time formats.parse_time (table "updated_at")) λ updated_at.
                ok (record {
                  gateway = gateway;
                  state = text_state state;
                  unhealthy_until = unhealthy_until;
                  half_open_in_flight = in_flight;
                  half_open_probes = probes;
                  updated_at = updated_at;
                })

  -- `decodeGatewayState`
  unfoldable pub decode_state : {V : Type 0} → JsonText V → V → Result GatewayRuntimeState
  decode_state json stored = Errors.◌>>=◌ (json.parse stored) table_state

  -- `tonumber(probe["expires_at_unix_milli"] or 0)`: nothing else than a number is compared.
  abbrev pub expires_at : Row → Result ℤ
  expires_at row = leaf_number formats.parse_int (row "expires_at_unix_milli")

  -- The loop that keeps the probes that have not expired.
  unfoldable pub active_rows : ℤ → List Row → Result (List Row)
  active_rows now_millis [] = ok []
  active_rows now_millis (row ∷ more) =
      let others = active_rows now_millis more in
      Errors.◌>>=◌ (expires_at row) λ expires.
        Errors.◌>>=◌ others
          λ active. ok (if has_id row && ltb_ℤ now_millis expires then row ∷ active else active)

  -- `state["half_open_probes"]` and `state["half_open_in_flight"]` set to the active probes.
  abbrev pub with_active : Table → List Row → Table
  with_active table [] =
      with_member (without table "half_open_probes") "half_open_in_flight"
        (numeral (formats.format_int (pos 0)))
  with_active table (row ∷ more) =
      with_member (with_member table "half_open_probes" (rows (row ∷ more))) "half_open_in_flight"
        (numeral (formats.format_int (pos (length (row ∷ more)))))

  abbrev pub updated : Table → List Row → String → Table
  updated table active at = with_member (with_active table active) "updated_at" (text at)

-- `state["half_open_probes"] or {}`
abbrev pub rows_of : Option Member → List Row
rows_of (some (rows rs)) = rs
rows_of _ = []
