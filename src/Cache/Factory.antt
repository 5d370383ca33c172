-- ===== src/Cache/Factory.antt =====
-- internal/cache/factory.go: the cache that a configuration asks for.
use castle_ops_client.Prelude.{
  ◌≡◌, refl, inl, inr, str_eq, ◌||◌, if◌then◌else◌, plain, Result, ok, err,
}
use Prim.Native.String.{◌++◌ as str_append}
use castle_ops_client.Cache.Types.{Time}
use castle_ops_client.Cache.Memory.{MemoryCache, MemoryConfig, new_memory_cache}
use castle_ops_client.Config.{Config, validate, cache_types}
use castle_ops_client.Config.Validation.{OneOf, validate-IsValid}

abbrev pub memory_config : Config → MemoryConfig
memory_config cfg = record { retention_days = cfg.metrics.retention_days }

unfoldable pub new_cache : Time → Config → Result MemoryCache
unfolding new_memory_cache
new_cache now cfg =
    if str_eq cfg.cache.type "memory" || str_eq cfg.cache.type ""
    then ok (new_memory_cache now (memory_config cfg))
    else if str_eq cfg.cache.type "sqlite"
    then ok (new_memory_cache now (memory_config cfg))
    else err (plain (str_append "unsupported cache type: " cfg.cache.type))

new_cache_of_type :
    (now : Time) (cfg : Config)
    → OneOf cfg.cache.type cache_types
    → new_cache now cfg ≡ ok (new_memory_cache now (memory_config cfg))
unfolding new_cache
new_cache_of_type now cfg (inl e) = rw e refl
new_cache_of_type now cfg (inr (inl e)) = rw e refl
new_cache_of_type now cfg (inr (inr e)) = absurd e

-- For every configuration that is valid the factory gives the cache that NewMemoryCache makes of its
-- retention, also where the configuration asks for SQLite.
pub new_cache-new_memory_cache :
    (now : Time) (cfg : Config)
    → validate cfg ≡ ok tt
    → new_cache now cfg ≡ ok (new_memory_cache now (memory_config cfg))
new_cache-new_memory_cache now cfg h = new_cache_of_type now cfg ((validate-IsValid cfg).0 h).cache
