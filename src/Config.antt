-- ===== src/Config.antt =====
-- internal/config/config.go and defaults.go: the configuration, its defaults, its validation and
-- its loading. What viper reads and what the operating system says of the paths are parameters.
pub mod Validation
use castle_ops_client.Prelude.{
  String, Bool, true, false, not, ◌&&◌, ◌||◌, Option, none, some, str_eq, List, [], ◌∷◌,
  if◌then◌else◌, plain, wrapped, Result, ok, err,
}
use Prim.Native.String.{slice, len}
use text.Mathlib.Text.{starts_with}
use castle_ops_client.Prelude.Int.{ℤ, pos, positive, negative}

-- Durations are nanoseconds.
pub record ServerConfig : Type 0 where
  pub url : String
  pub tls_verify : Bool
  pub timeout : ℤ

pub record ClientConfig : Type 0 where
  pub id : String
  pub token : String

pub record HeartbeatConfig : Type 0 where
  pub interval : ℤ
  pub retry_attempts : ℤ

pub record MetricsConfig : Type 0 where
  pub collection_interval : ℤ
  pub batch_size : ℤ
  pub retention_days : ℤ

pub record CacheConfig : Type 0 where
  pub type : String
  pub path : String

pub record LoggingConfig : Type 0 where
  pub level : String
  pub path : String
  pub format : String

pub record PackageManagersConfig : Type 0 where
  pub preferred : String

pub record Config : Type 0 where
  pub server : ServerConfig
  pub client : ClientConfig
  pub heartbeat : HeartbeatConfig
  pub metrics : MetricsConfig
  pub cache : CacheConfig
  pub logging : LoggingConfig
  pub package_managers : PackageManagersConfig

-- Whether a string is one of a list.
abbrev pub one_of : String → List String → Bool
one_of s [] = false
one_of s (x ∷ xs) = str_eq s x || one_of s xs

abbrev pub cache_types : List String
cache_types = "sqlite" ∷ "memory" ∷ []

abbrev pub valid_levels : List String
valid_levels = "trace" ∷ "debug" ∷ "info" ∷ "warn" ∷ "error" ∷ "fatal" ∷ "panic" ∷ []

abbrev pub formats : List String
formats = "" ∷ "json" ∷ "console" ∷ []

-- The checks of `validate`, in their order; the first that fails gives the error.
unfoldable pub validate : Config → Result (Unit {0})
validate c =
    if str_eq c.server.url ""
    then err (plain "server.url is required")
    else if not (positive c.server.timeout)
    then err (plain "server.timeout must be positive")
    else if not (positive c.heartbeat.interval)
    then err (plain "heartbeat.interval must be positive")
    else if not (positive c.metrics.collection_interval)
    then err (plain "metrics.collection_interval must be positive")
    else if not (positive c.metrics.batch_size)
    then err (plain "metrics.batch_size must be positive")
    else if negative c.metrics.retention_days
    then err (plain "metrics.retention_days cannot be negative")
    else if not (one_of c.cache.type cache_types)
    then err (plain "cache.type must be 'sqlite' or 'memory'")
    else if not (one_of c.logging.level valid_levels)
    then err (plain "logging.level must be one of: trace, debug, info, warn, error, fatal, panic")
    else if not (one_of c.logging.format formats)
    then err (plain "logging.format must be 'json' or 'console'")
    else ok tt

-- The platforms that defaults.go tells apart by runtime.GOOS.
pub data Platform : Type 0 where
  darwin windows linux other : Platform

unfoldable pub default_cache_path : Platform → String
default_cache_path darwin = "~/Library/Application Support/CastleOps/data.db"
default_cache_path windows = "%LOCALAPPDATA%\\CastleOps\\data.db"
default_cache_path linux = "/var/lib/castleops/data.db"
default_cache_path other = "./data.db"

unfoldable pub default_log_path : Platform → String
default_log_path darwin = "~/Library/Logs/CastleOps/client.log"
default_log_path windows = "%LOCALAPPDATA%\\CastleOps\\Logs\\client.log"
default_log_path linux = "/var/log/castleops/client.log"
default_log_path other = "./client.log"

unfoldable pub new_default : Platform → Config
unfolding default_cache_path default_log_path
new_default os = record {
  server = record {
    url = "https://api.castleops.com";
    tls_verify = true;
    timeout = pos 30_000_000_000;
  };
  client = record { id = ""; token = "" };
  heartbeat = record { interval = pos 30_000_000_000; retry_attempts = pos 3 };
  metrics = record {
    collection_interval = pos 60_000_000_000;
    batch_size = pos 100;
    retention_days = pos 7;
  };
  cache = record { type = "sqlite"; path = default_cache_path os };
  logging = record { level = "info"; path = default_log_path os; format = "json" };
  package_managers = record { preferred = "auto" };
}

unfoldable pub update_client_credentials : String → String → Config → Config
update_client_credentials id token c = record c { client = record { id = id; token = token } }

unfoldable pub get_client_credentials : Config → String × String
get_client_credentials c = (c.client.id, c.client.token)

-- The operating system: `expand_env` is os.ExpandEnv, `home` is os.UserHomeDir and `join` is
-- filepath.Join.
pub record Paths : Type 0 where
  pub expand_env : String → String
  pub home : Result String
  pub join : String → String → String

abbrev in_home : Paths → String → Result String → Result String
in_home os path (ok dir) = ok (os.join dir (slice path 1 (len path)))
in_home os path (err e) = err (wrapped "failed to get home directory" e)

unfoldable pub expand_path : Paths → String → Result String
expand_path os path =
    let expanded = os.expand_env path in
    if starts_with expanded "~" then in_home os expanded os.home else ok expanded

-- A path that is empty is left alone.
abbrev expand_setting : Paths → String → Result String
expand_setting os path = if str_eq path "" then ok path else expand_path os path

abbrev pub with_log_path : Config → Result String → Result Config
with_log_path c (ok path) = ok (record c { logging = record c.logging { path = path } })
with_log_path c (err e) = err (wrapped "failed to expand logging.path" e)

abbrev pub with_cache_path : Paths → Config → Result String → Result Config
with_cache_path os c (ok path) =
    with_log_path (record c { cache = record c.cache { path = path } })
      (expand_setting os c.logging.path)
with_cache_path os c (err e) = err (wrapped "failed to expand cache.path" e)

unfoldable pub expand_paths : Paths → Config → Result Config
unfolding expand_path
expand_paths os c = with_cache_path os c (expand_setting os c.cache.path)

-- What viper makes of a configuration file; the two errors of Load.
pub data Reading : Type 0 where
  unreadable : String → Reading
  not_decoded : String → Reading
  decoded : Config → Reading

abbrev pub expanded : Result Config → Result Config
expanded (ok c) = ok c
expanded (err e) = err (wrapped "failed to expand paths" e)

abbrev pub checked : Paths → Config → Result (Unit {0}) → Result Config
checked os c (ok u) = expanded (expand_paths os c)
checked os c (err e) = err (wrapped "invalid configuration" e)

-- A missing file is no error: viper then gives the defaults.
unfoldable pub load : Paths → Reading → Result Config
unfolding validate expand_paths
load os (unreadable e) = err (wrapped "failed to read config file" (plain e))
load os (not_decoded e) = err (wrapped "failed to unmarshal config" (plain e))
load os (decoded c) = checked os c (validate c)

abbrev pub ok_or : Config → Result Config → Config
ok_or d (ok c) = c
ok_or d (err e) = d

unfoldable pub load_or_default : Platform → Paths → Reading → Config
unfolding load new_default
load_or_default platform os reading = ok_or (new_default platform) (load os reading)

-- Get, with the global configuration before and after; both of its looks at it see the same.
unfoldable pub get : Platform → Paths → Reading → Option Config → Config × Option Config
unfolding load_or_default
get platform os reading (some c) = (c, some c)
get platform os reading none =
    (load_or_default platform os reading, some (load_or_default platform os reading))
