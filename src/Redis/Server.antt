-- ===== src/Redis/Server.antt =====
-- What internal/adapters/repository/redis uses of github.com/redis/go-redis, of the server's cjson,
-- and of Go's encoding/json, strconv and time formats: parameters, with what is documented of them.
use payment_gateway_router.Common.{
  ◌<◌, ◌≡◌, String, Bool, Option, none, some, List, [], ◌∷◌, ◌&&◌, str_eq, if◌then◌else◌,
}
use payment_gateway_router.Go.Int.{ℤ}
use payment_gateway_router.Redis.Lua.{IsExact}
use payment_gateway_router.Go.Float64.{Float64}
use payment_gateway_router.Go.Time.{Time}
use payment_gateway_router.Go.Dict
use payment_gateway_router.Go.Dict.{Dict}
use payment_gateway_router.Action.{Action}
use payment_gateway_router.Domain.Errors.{Result, ok}
use payment_gateway_router.Domain.Json.{Fields}

-- A member of an object in an array.
pub data Leaf : Type 0 where
  word_leaf : String → Leaf
  number_leaf : String → Leaf

abbrev pub Row : Type 0
Row = String → Option Leaf

-- A member of a JSON object, or of the Lua table that cjson makes of it; a number is its text.
pub data Member : Type 0 where
  text : String → Member
  numeral : String → Member
  object : Fields → Member
  rows : List Row → Member

abbrev pub Table : Type 0
Table = String → Option Member

-- `table[name] = member`
abbrev pub with_member : Table → String → Member → Table
with_member table name member other = if str_eq name other then some member else table other

-- `table[name] = nil`
abbrev pub without : Table → String → Table
without table name other = if str_eq name other then none else table other

-- One value of a script's reply: a word of the script, an integer, or a stored payload.
pub data Reply (V : Type 0) : Type 0 where
  word : String → Reply V
  integer : ℤ → Reply V
  payload : V → Reply V

-- The commands on a server of state `S` that stores payloads `V`. A missing key is `none`, where
-- the client has `goredis.Nil`. `run` is `Script.Run`: a script is the calls that it makes.
pub record Commands (S V : Type 0) : Type 0 where
  pub get : String → Action S (Option V)
  pub set : String → V → Action S (Unit {0})
  pub set_nx : String → V → Action S Bool
  pub incr : String → Action S ℤ
  pub hget : String → String → Action S (Option String)
  pub hset : String → List (String × String) → Action S (Unit {0})
  pub sismember : String → String → Action S Bool
  pub sadd : String → String → Action S (Unit {0})
  pub srem : String → String → Action S (Unit {0})
  pub smembers : String → Action S (Dict (Unit {0}))
  pub run : Action S (List (Reply V)) → Action S (List (Reply V))

-- The texts of numbers and times: strconv, and `time.RFC3339Nano` of a UTC time. A float64 that is
-- not finite has no text in JSON. The three of Lua are `tonumber`, the text that the server gives
-- a command for a number, and the integer that it replies with for one; they need not be exact.
pub record Formats : Type 0 where
  pub format_int : ℤ → String
  pub parse_int : String → Result ℤ
  pub format_float : Float64 → Result String
  pub parse_float : String → Result Float64
  pub format_time : Time → String
  pub parse_time : String → Result Time
  pub lua_tonumber : String → Result ℤ
  pub lua_text : ℤ → String
  pub lua_integer : ℤ → ℤ

-- A time before the year 10000, which RFC 3339 can write.
abbrev pub IsDated : Time → Type 0
IsDated t = t < 315537897600000000000

-- A text that is formatted is parsed as what it was made of; for a Lua number, a count up to 2^53.
pub record FormatsLaws (formats : Formats) : Type 0 where
  pub parse_int-format_int : (n : ℤ) → formats.parse_int (formats.format_int n) ≡ ok n
  pub parse_float-format_float :
      (x : Float64) (s : String) → formats.format_float x ≡ ok s → formats.parse_float s ≡ ok x
  pub parse_time-format_time :
      (t : Time) → IsDated t → formats.parse_time (formats.format_time t) ≡ ok t
  pub lua_tonumber-lua_text : (n : ℤ) → IsExact n → formats.lua_tonumber (formats.lua_text n) ≡ ok n
  pub lua_tonumber-format_int :
      (n : ℤ) → IsExact n → formats.lua_tonumber (formats.format_int n) ≡ ok n
  pub lua_integer-exact : (n : ℤ) → IsExact n → formats.lua_integer n ≡ n

-- JSON text, as encoding/json writes and reads it, and as cjson does.
pub record JsonText (V : Type 0) : Type 0 where
  pub print : Table → V
  pub parse : V → Result Table
  pub encode : Table → V
  pub decode : V → Result Table
  pub payload_text : V → String

-- Either library reads what either has written, for a table whose numbers cjson keeps: it writes
-- 14 digits of a number. A text for a member never makes a table inexact.
pub record JsonLaws {V : Type 0} (json : JsonText V) (Exact : Table → Type 0) : Type 0 where
  pub parse-print : (table : Table) → Exact table → json.parse (json.print table) ≡ ok table
  pub decode-print : (table : Table) → Exact table → json.decode (json.print table) ≡ ok table
  pub parse-encode : (table : Table) → Exact table → json.parse (json.encode table) ≡ ok table
  pub decode-encode : (table : Table) → Exact table → json.decode (json.encode table) ≡ ok table
  pub with_text :
      (table : Table) (name s : String) → Exact table → Exact (with_member table name (text s))

-- A server that answers, and whose keys of payloads are not used for other types of value: what the
-- commands on payloads do to what is stored. A script is executed as a whole.
pub record Reliable {S V : Type 0} (commands : Commands S V) : Type 0 where
  pub stored : S → String → Option V
  pub get-stored : (key : String) (s : S) → commands.get key s ≡ (ok (stored s key), s)
  pub store : String → V → S → S
  pub set-store : (key : String) (v : V) (s : S) → commands.set key v s ≡ (ok tt, store key v s)
  pub stored-store :
      (key other : String) (v : V) (s : S)
      → stored (store key v s) other ≡ (if str_eq key other then some v else stored s other)
  pub set_nx-none :
      (key : String) (v : V) (s : S)
      → stored s key ≡ none
      → commands.set_nx key v s ≡ (ok Bool.true, store key v s)
  pub set_nx-some :
      (key : String) (v old : V) (s : S)
      → stored s key ≡ some old
      → commands.set_nx key v s ≡ (ok Bool.false, s)
  pub run-script : (script : Action S (List (Reply V))) (s : S) → commands.run script s ≡ script s

abbrev pub field_of : List (String × String) → String → Option String → Option String
field_of [] name old = old
field_of ((field, value) ∷ more) name old =
    if str_eq field name then some value else field_of more name old

-- The same for the commands on hashes and sets, whose keys are apart.
pub record ReliableHashes {S V : Type 0} (commands : Commands S V) : Type 0 where
  pub field : S → String → String → Option String
  pub member : S → String → String → Bool
  pub hget-field :
      (key name : String) (s : S) → commands.hget key name s ≡ (ok (field s key name), s)
  pub put_fields : String → List (String × String) → S → S
  pub hset-put_fields :
      (key : String) (fields : List (String × String)) (s : S)
      → commands.hset key fields s ≡ (ok tt, put_fields key fields s)
  pub field-put_fields :
      (key other name : String) (fields : List (String × String)) (s : S)
      → field (put_fields key fields s) other name ≡ (
          if str_eq key other
          then field_of fields name (field s other name)
          else field s other name)
  pub member-put_fields :
      (key other x : String) (fields : List (String × String)) (s : S)
      → member (put_fields key fields s) other x ≡ member s other x
  pub sismember-member :
      (key x : String) (s : S) → commands.sismember key x s ≡ (ok (member s key x), s)
  pub put_member : String → String → Bool → S → S
  pub sadd-put_member :
      (key x : String) (s : S) → commands.sadd key x s ≡ (ok tt, put_member key x Bool.true s)
  pub srem-put_member :
      (key x : String) (s : S) → commands.srem key x s ≡ (ok tt, put_member key x Bool.false s)
  pub member-put_member :
      (key other x y : String) (b : Bool) (s : S)
      → member (put_member key x b s) other y
        ≡ (if str_eq key other && str_eq x y then b else member s other y)
  pub field-put_member :
      (key other x name : String) (b : Bool) (s : S)
      → field (put_member key x b s) other name ≡ field s other name
  pub members : S → String → Dict (Unit {0})
  pub smembers-members : (key : String) (s : S) → commands.smembers key s ≡ (ok (members s key), s)
  pub get-members :
      (s : S) (key x : String)
      → Dict.get (members s key) x ≡ (if member s key x then some tt else none)
  pub run_script : (script : Action S (List (Reply V))) (s : S) → commands.run script s ≡ script s
