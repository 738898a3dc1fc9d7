-- ===== src/Redis/Client.antt =====
-- internal/adapters/repository/redis/client.go: the store, without `Ping` and `Close`.
use payment_gateway_router.Common.{String, str_eq, if◌then◌else◌}
use payment_gateway_router.Go.Int.{ℤ, pos, leb_ℤ}
use payment_gateway_router.Go.Time.{Duration}
use payment_gateway_router.Redis.Key.{trim_colons}
use payment_gateway_router.Redis.Key.Splitting.{Plain}
use payment_gateway_router.Redis.Server.{
  Commands, Formats, FormatsLaws, JsonText, JsonLaws, Reliable, Table, ReliableHashes,
}

pub record Options : Type 0 where
  pub addr : String
  pub password : String
  pub db : ℤ
  pub key_prefix : String
  pub pool_size : ℤ

-- What `goredis.NewClient` is given.
pub record ClientOptions : Type 0 where
  pub addr : String
  pub password : String
  pub db : ℤ
  pub pool_size : ℤ
  pub dial_timeout : Duration
  pub read_timeout : Duration
  pub write_timeout : Duration

-- The client and the prefix, beside the libraries that the repositories call.
pub record Store (S V : Type 0) : Type 0 where
  pub client : Commands S V
  pub key_prefix : String
  pub formats : Formats
  pub json : JsonText V

abbrev pub or_text : String → String → String
or_text s default = if str_eq s "" then default else s

-- The defaults of `NewStore`.
unfoldable pub with_defaults : Options → Options
with_defaults options = record options {
  addr = or_text options.addr "localhost:6379";
  key_prefix = or_text options.key_prefix "pgr";
  pool_size = if leb_ℤ options.pool_size (pos 0) then pos 128 else options.pool_size;
}

abbrev pub client_options : Options → ClientOptions
client_options options = record {
  addr = options.addr;
  password = options.password;
  db = options.db;
  pool_size = options.pool_size;
  dial_timeout = pos 2000000000;
  read_timeout = pos 2000000000;
  write_timeout = pos 2000000000;
}

unfoldable pub new_store :
    {S V : Type 0} → (ClientOptions → Commands S V) → Formats → JsonText V → Options → Store S V
new_store connect formats json given =
    let options = with_defaults given in
    record {
      client = connect (client_options options);
      key_prefix = trim_colons options.key_prefix;
      formats = formats;
      json = json;
    }

-- What is taken for granted of the store in a comparison with the in-memory repositories: a server
-- that answers, the documented behaviour of the libraries, and a prefix that is one part of a key.
pub record Setting {S V : Type 0} (store : Store S V) : Type 1 where
  pub server : Reliable store.client
  pub laws : FormatsLaws store.formats
  pub Exact : Table → Type 0
  pub exact : JsonLaws store.json Exact
  pub prefixed : Plain store.key_prefix

-- The same for what is kept in hashes and sets.
pub record HashSetting {S V : Type 0} (store : Store S V) : Type 0 where
  pub hashes : ReliableHashes store.client
  pub laws : FormatsLaws store.formats
  pub prefixed : Plain store.key_prefix
