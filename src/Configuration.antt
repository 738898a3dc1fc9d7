-- ===== src/Configuration.antt =====
-- internal/adapters/config: the configuration of the process, and the provider that reloads the
-- gateways' configuration. viper, yaml and encoding/json, the file system and `strings.ToLower` are
-- parameters; logging is left out.
pub mod Reloading
use payment_gateway_router.Common.{
  String, Bool, not, ◌&&◌, ◌==◌, List, [], ◌∷◌, str_eq, if◌then◌else◌,
}
use payment_gateway_router.Go.Int.{ℤ, pos, leb_ℤ, ltb_ℤ}
use payment_gateway_router.Go.Text.{trim_space}
use payment_gateway_router.Go.Time.{Time, Duration, seconds, milliseconds}
use payment_gateway_router.Action.{Action}
use payment_gateway_router.Domain.Errors.{Result, ok, err, message, fail_if, ◌>>=◌, ◌>>◌}
use payment_gateway_router.Domain.Config.{AppConfig, with_defaults}
use payment_gateway_router.Domain.Config

pub record RedisConfig : Type 0 where
  pub addr : String
  pub password : String
  pub db : ℤ
  pub key_prefix : String
  pub pool_size : ℤ

pub record RuntimeConfig : Type 0 where
  pub addr : String
  pub config_path : String
  pub config_reload_interval_seconds : ℤ
  pub state_backend : String
  pub gateway_state_cache_ttl_milliseconds : ℤ
  pub routing_cache_ttl_milliseconds : ℤ
  pub redis : RedisConfig

unfoldable pub validate_runtime : RuntimeConfig → Result (Unit {0})
validate_runtime c = do
  fail_if (str_eq c.addr "") (message "addr is required")
  fail_if (str_eq c.config_path "") (message "config_path is required")
  fail_if (leb_ℤ c.config_reload_interval_seconds (pos 0))
      (message "config_reload_interval_seconds must be positive")
  fail_if (not (str_eq c.state_backend "memory") && not (str_eq c.state_backend "redis"))
      (message "state_backend must be memory or redis")
  fail_if (leb_ℤ c.gateway_state_cache_ttl_milliseconds (pos 0))
      (message "gateway_state_cache_ttl_ms must be positive")
  fail_if (leb_ℤ c.routing_cache_ttl_milliseconds (pos 0))
      (message "routing_cache_ttl_ms must be positive")
  fail_if (ltb_ℤ c.redis.db (pos 0)) (message "redis_db must be zero or positive")
  fail_if (leb_ℤ c.redis.pool_size (pos 0)) (message "redis_pool_size must be positive")

-- `LoadRuntimeConfig`, given what viper makes of the environment over these defaults.
abbrev pub runtime_defaults : RuntimeConfig
runtime_defaults = record {
  addr = ":8080";
  config_path = "./configs/gateways.yaml";
  config_reload_interval_seconds = pos 2;
  state_backend = "memory";
  gateway_state_cache_ttl_milliseconds = pos 500;
  routing_cache_ttl_milliseconds = pos 100;
  redis = record {
    addr = "localhost:6379";
    password = "";
    db = pos 0;
    key_prefix = "pgr";
    pool_size = pos 128;
  };
}

unfoldable pub load_runtime_config :
    (RuntimeConfig → Result RuntimeConfig) → (String → String) → Result RuntimeConfig
load_runtime_config unmarshal to_lower = do
  read ← unmarshal runtime_defaults
  let cfg = record read { state_backend = to_lower (trim_space read.state_backend) }
  validate_runtime cfg
  ok cfg

abbrev pub config_reload_interval : RuntimeConfig → Duration
config_reload_interval c = seconds c.config_reload_interval_seconds

abbrev pub gateway_state_cache_ttl : RuntimeConfig → Duration
gateway_state_cache_ttl c = milliseconds c.gateway_state_cache_ttl_milliseconds

abbrev pub routing_cache_ttl : RuntimeConfig → Duration
routing_cache_ttl c = milliseconds c.routing_cache_ttl_milliseconds

-- The guarded fields of `FileProvider`.
pub record FileProvider : Type 0 where
  pub current : AppConfig
  pub mod_time : Time

-- What the calls of one reload find, in their order: the file may change in between.
pub record Disk (Data : Type 0) : Type 0 where
  pub stat_before : Result Time
  pub read : Result Data
  pub stat_after : Result Time

-- The unmarshallers and the extension of the path, in lower case.
pub record Parser (Data : Type 0) : Type 0 where
  pub extension : String
  pub json : Data → Result AppConfig
  pub yaml : Data → Result AppConfig

module _ {Data : Type 0} (parser : Parser Data) where
  unfoldable pub parse : Data → Result AppConfig
  parse bytes = if str_eq parser.extension ".json" then parser.json bytes else parser.yaml bytes

  -- What `reload` stores, if no call of it fails.
  unfoldable pub loaded : Disk Data → Result FileProvider
  loaded disk = do
    bytes ← disk.read
    parsed ← parse bytes
    let cfg = with_defaults parsed
    Config.validate cfg
    mod_time ← disk.stat_after
    ok (record { current = cfg; mod_time = mod_time })

  unfoldable pub reload : Disk Data → Action FileProvider (Unit {0})
  reload disk p = elim (loaded disk) [ err e ↦ (err e, p) | ok new ↦ (ok tt, new) ]

  unfoldable pub reload_if_changed : Disk Data → Action FileProvider (Unit {0})
  reload_if_changed disk p = elim disk.stat_before [
    | err e ↦ (err e, p)
    | ok mod_time ↦ if mod_time == p.mod_time then (ok tt, p) else reload disk p
  ]

  -- `Watch`: one attempt a tick, whose error is only logged.
  unfoldable pub watch : List (Disk Data) → FileProvider → FileProvider
  watch [] p = p
  watch (disk ∷ ticks) p = watch ticks (reload_if_changed disk p).1

  -- `NewFileProvider`
  unfoldable pub new_file_provider : Disk Data → Result FileProvider
  new_file_provider disk = loaded disk
