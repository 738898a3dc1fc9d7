-- ===== src/Tests/Server.antt =====
-- A server in memory, numbers and times as tallies, and objects that are stored as they are.
use Prim.Native.Char.{char, code}
use payment_gateway_router.Common.{
  ℕ, zero, suc, ◌≡◌, refl, sym, ap, ◌∙◌, String, Bool, true, false, ◌&&◌, Option, none, some, List,
  str_eq, if◌then◌else◌, ◌==◌, Bool-cases, inl, inr,
}
use payment_gateway_router.Go.Int.{ℤ, pos, negsuc}
use payment_gateway_router.Go.Float64.{Float64, nan, plus_inf, minus_inf, fin}
use payment_gateway_router.Go.Dict
use payment_gateway_router.Go.Dict.{Dict, get-put, get-empty, get-keys_where}
use payment_gateway_router.Domain.Errors.{Result, ok, err, message}
use payment_gateway_router.Redis.Lua.{IsExact, to_double, to_double-exact}
use payment_gateway_router.Redis.Server.{
  Commands, Formats, FormatsLaws, JsonText, JsonLaws, Reliable, ReliableHashes, Table, field_of,
}
use payment_gateway_router.Redis.Client.{Store, Setting, HashSetting}

pub record Memory : Type 0 where
  pub payloads : String → Option Table
  pub fields : String → String → Option String
  pub sets : String → Dict Bool

abbrev put_payload : String → Table → Memory → Memory
put_payload key v s = record s {
  payloads = λ other. if str_eq key other then some v else s.payloads other;
}

abbrev put_all : String → List (String × String) → Memory → Memory
put_all key fields s = record s {
  fields = λ other name.
      if str_eq key other then field_of fields name (s.fields other name) else s.fields other name;
}

abbrev put_flag : String → String → Bool → Memory → Memory
put_flag key x b s = record s {
  sets = λ other. if str_eq key other then Dict.put (s.sets other) x b else s.sets other;
}

abbrev is_some : Option Table → Bool
is_some none = false
is_some (some _) = true

abbrev or_false : Option Bool → Bool
or_false none = false
or_false (some b) = b

abbrev is_member : Memory → String → String → Bool
is_member s key x = or_false (Dict.get (s.sets key) x)

abbrev commands : Commands Memory Table
commands = record {
  get = λ key s. (ok (s.payloads key), s);
  set = λ key v s. (ok tt, put_payload key v s);
  set_nx = λ key v s. elim (s.payloads key) [
    | none ↦ (ok true, put_payload key v s)
    | some _ ↦ (ok false, s)
  ];
  incr = λ key s. (ok (pos 1), s);
  hget = λ key name s. (ok (s.fields key name), s);
  hset = λ key fields s. (ok tt, put_all key fields s);
  sismember = λ key x s. (ok (is_member s key x), s);
  sadd = λ key x s. (ok tt, put_flag key x true s);
  srem = λ key x s. (ok tt, put_flag key x false s);
  smembers = λ key s. (ok (Dict.keys_where (λ b. b) (s.sets key)), s);
  run = λ script. script;
}

abbrev tally : ℕ → String
tally zero = String.[]
tally (suc n) = String.◌∷◌ (char 49 tt) (tally n)

abbrev count_tally : String → ℕ
count_tally String.[] = zero
count_tally (String.◌∷◌ c s) = suc (count_tally s)

pub count_tally-tally : (n : ℕ) → count_tally (tally n) ≡ n
count_tally-tally zero = refl
count_tally-tally (suc n) = ap suc (count_tally-tally n)

-- A first character tells the sign.
abbrev signed : ℤ → String
signed (pos n) = String.◌∷◌ (char 43 tt) (tally n)
signed (negsuc n) = String.◌∷◌ (char 45 tt) (tally n)

abbrev read_signed : String → ℤ
read_signed String.[] = pos 0
read_signed (String.◌∷◌ c s) = if code c == 45 then negsuc (count_tally s) else pos (count_tally s)

pub read_signed-signed : (n : ℤ) → read_signed (signed n) ≡ n
read_signed-signed (pos n) = ap pos (count_tally-tally n)
read_signed-signed (negsuc n) = ap negsuc (count_tally-tally n)

abbrev finite : Float64 → Result String
finite (fin n) = ok (signed n)
finite _ = err (message "json: unsupported value")

abbrev formats : Formats
formats = record {
  format_int = signed;
  parse_int = λ s. ok (read_signed s);
  format_float = finite;
  parse_float = λ s. ok (fin (read_signed s));
  format_time = tally;
  parse_time = λ s. ok (count_tally s);
  lua_tonumber = λ s. ok (to_double (read_signed s));
  lua_text = signed;
  lua_integer = λ n. n;
}

pub finite-read : (x : Float64) (s : String) → finite x ≡ ok s → ok (fin (read_signed s)) ≡ ok x
finite-read nan s e = cc e
finite-read plus_inf s e = cc e
finite-read minus_inf s e = cc e
finite-read (fin n) s e =
    let written : signed n ≡ s = ap (elim [ ok text ↦ text | err _ ↦ "" ]) e in
    ap (λ text. ok (fin (read_signed text))) (sym written)
    ∙ ap (λ k. ok (fin k)) (read_signed-signed n)

pub double_read : (n : ℤ) → IsExact n → ok (to_double (read_signed (signed n))) ≡ ok n
double_read n exact = ap ok (ap to_double (read_signed-signed n) ∙ to_double-exact n exact)

abbrev formats_laws : FormatsLaws formats
formats_laws = record {
  parse_int-format_int = λ n. ap ok (read_signed-signed n);
  parse_float-format_float = finite-read;
  parse_time-format_time = λ t dated. ap ok (count_tally-tally t);
  lua_tonumber-lua_text = double_read;
  lua_tonumber-format_int = double_read;
  lua_integer-exact = λ n exact. refl;
}

abbrev json : JsonText Table
json = record {
  print = λ table. table;
  parse = λ table. ok table;
  encode = λ table. table;
  decode = λ table. ok table;
  payload_text = λ table. "";
}

abbrev pub store : Store Memory Table
store = record { client = commands; key_prefix = "pgr"; formats = formats; json = json }

abbrev pub Any : Table → Type 0
Any table = Unit

abbrev json_laws : JsonLaws json Any
json_laws = record {
  parse-print = λ table exact. refl;
  decode-print = λ table exact. refl;
  parse-encode = λ table exact. refl;
  decode-encode = λ table exact. refl;
  with_text = λ table name s exact. tt;
}

pub set_nx_missing :
    (key : String) (v : Table) (s : Memory)
    → s.payloads key ≡ none
    → commands.set_nx key v s ≡ (ok true, put_payload key v s)
set_nx_missing key v s e = rw e refl

pub set_nx_present :
    (key : String) (v old : Table) (s : Memory)
    → s.payloads key ≡ some old
    → commands.set_nx key v s ≡ (ok false, s)
set_nx_present key v old s e = rw e refl

abbrev reliable : Reliable commands
reliable = record {
  stored = λ s. s.payloads;
  get-stored = λ key s. refl;
  store = put_payload;
  set-store = λ key v s. refl;
  stored-store = λ key other v s. refl;
  set_nx-none = set_nx_missing;
  set_nx-some = set_nx_present;
  run-script = λ script s. refl;
}

abbrev pub setting : Setting store
setting = record {
  server = reliable;
  laws = formats_laws;
  Exact = Any;
  exact = json_laws;
  prefixed = (refl, refl);
}

pub member_after :
    (key other x y : String) (b : Bool) (s : Memory)
    → is_member (put_flag key x b s) other y
      ≡ (if str_eq key other && str_eq x y then b else is_member s other y)
member_after key other x y b s = elim (Bool-cases (str_eq key other)) [
  | inr e ↦ rw e refl
  | inl e ↦ elim (Bool-cases (str_eq x y)) [
    | inl f ↦ rw (e, get-put, f) refl
    | inr f ↦ rw (e, get-put, f) refl
  ]
]

pub flag_found :
    (found : Option Bool) → Dict.passes (λ b. b) found ≡ (if or_false found then some tt else none)
flag_found none = refl
flag_found (some b) = refl

abbrev reliable_hashes : ReliableHashes commands
reliable_hashes = record {
  field = λ s. s.fields;
  member = is_member;
  hget-field = λ key name s. refl;
  put_fields = put_all;
  hset-put_fields = λ key fields s. refl;
  field-put_fields = λ key other name fields s. refl;
  member-put_fields = λ key other x fields s. refl;
  sismember-member = λ key x s. refl;
  put_member = put_flag;
  sadd-put_member = λ key x s. refl;
  srem-put_member = λ key x s. refl;
  member-put_member = member_after;
  field-put_member = λ key other x name b s. refl;
  members = λ s key. Dict.keys_where (λ b. b) (s.sets key);
  smembers-members = λ key s. refl;
  get-members =
      λ s key x. get-keys_where (λ b. b) (s.sets key) x ∙ flag_found (Dict.get (s.sets key) x);
  run_script = λ script s. refl;
}

abbrev pub hash_setting : HashSetting store
hash_setting = record { hashes = reliable_hashes; laws = formats_laws; prefixed = (refl, refl) }

abbrev pub no_data : Memory
no_data = record { payloads = λ key. none; fields = λ key name. none; sets = λ key. Dict.empty }
