-- ===== src/LmCache.antt =====
-- lmrs/lmcache.py: the status of the external key-value cache.
pub mod Disk
pub mod Removal
pub mod Walk
pub mod Purge
pub mod Names
pub mod Bindings
pub mod Exact
use Prim.Native.String.{◌++◌ as concat}
use vvz_lmrs.Prelude.{
  ℕ, ◌+◌, String, Bool, true, false, ◌&&◌, ◌||◌, not, ◌==◌, Option, none, some, or_else, List, [],
  ◌∷◌, ◌++◌, map, filter, length, Result, ok, err, value_error, ◌>>=◌, ◌>>◌, raise_if,
  if◌then◌else◌,
}
use vvz_lmrs.Prelude.Int.{ℤ, pos, ◌-ℤ◌, ltb_ℤ, max_ℤ}
use vvz_lmrs.Prelude.Dict.{Dict, lookup}
use vvz_lmrs.Prelude.Value.{Value}
use vvz_lmrs.Manager.Probe.{int_of}
use vvz_lmrs.ModelCache.Snapshots.{sorted_set}

pub record LmCacheStoragePolicy : Type 0 where
  pub enabled : Bool
  pub storage_tiers : List String
  pub cache_storage_path : Option String
  pub namespace_binding : Option String
  pub session_binding : Option String
  pub cpu_cache_limit_bytes : Option ℤ
  pub disk_cache_limit_bytes : Option ℤ
  pub eviction_policy : Option String
  pub compatibility_mode : Option String
  pub metadata : Dict Value

pub record LmCacheTelemetry : Type 0 where
  pub hit_tokens : ℤ
  pub miss_tokens : ℤ
  pub hit_quality : Value
  pub restore_latency : Value
  pub write_latency : Value
  pub cpu_cache_usage : ℤ
  pub cpu_cache_limit : Option ℤ
  pub disk_cache_usage : ℤ
  pub disk_cache_limit : Option ℤ
  pub evictions : ℤ
  pub memory_pressure : Value
  pub swap_indicators : Option Value
  pub metadata : Option Value

unfoldable pub lmcache_storage_separation : ℤ → LmCacheTelemetry → Result ℤ
lmcache_storage_separation usable telemetry = do
  raise_if (ltb_ℤ usable (pos 0)) (value_error "usable_dynamic_vram_bytes must be non-negative")
  ok usable

-- `int(observations.get(key, 0))`
unfoldable pub int_at : String → Dict Value → Result ℤ
unfolding int_of lookup
int_at key observations = int_of (or_else (lookup key observations) (Value.int (pos 0)))

abbrev value_at : String → Dict Value → Value
value_at key observations = or_else (lookup key observations) Value.null

unfoldable pub build_lmcache_telemetry : LmCacheStoragePolicy → Dict Value → Result LmCacheTelemetry
unfolding int_at lookup
build_lmcache_telemetry policy observations = do
  hits ← int_at "hit_tokens" observations
  misses ← int_at "miss_tokens" observations
  cpu ← int_at "cpu_cache_usage" observations
  disk ← int_at "disk_cache_usage" observations
  evicted ← int_at "evictions" observations
  ok (record {
    hit_tokens = hits;
    miss_tokens = misses;
    hit_quality = value_at "hit_quality" observations;
    restore_latency = value_at "restore_latency" observations;
    write_latency = value_at "write_latency" observations;
    cpu_cache_usage = cpu;
    cpu_cache_limit = policy.cpu_cache_limit_bytes;
    disk_cache_usage = disk;
    disk_cache_limit = policy.disk_cache_limit_bytes;
    evictions = evicted;
    memory_pressure = value_at "memory_pressure" observations;
    swap_indicators = lookup "swap_indicators" observations;
    metadata = lookup "metadata" observations;
  })

-- A telemetry source, once a callable is called.
pub data TelemetrySource : Type 0 where
  telemetry : LmCacheTelemetry → TelemetrySource
  observed : Dict Value → TelemetrySource

unfoldable pub resolve_telemetry : LmCacheStoragePolicy → TelemetrySource → Result LmCacheTelemetry
unfolding build_lmcache_telemetry
resolve_telemetry policy (telemetry t) = ok t
resolve_telemetry policy (observed observations) = build_lmcache_telemetry policy observations

pub record LmCacheStatus : Type 0 where
  pub enabled : Bool
  pub cpu_cache_usage_bytes : ℤ
  pub cpu_cache_limit_bytes : Option ℤ
  pub disk_cache_usage_bytes : ℤ
  pub disk_cache_limit_bytes : Option ℤ
  pub hit_tokens : ℤ
  pub miss_tokens : ℤ
  pub hit_quality : Value
  pub evictions : ℤ
  pub metadata : Option Value

-- the telemetry's limit, or the policy's
unfoldable pub limit_or : Option ℤ → Option ℤ → Option ℤ
limit_or none limit = limit
limit_or (some n) limit = some n

unfoldable pub get_lmcache_status : LmCacheStoragePolicy → TelemetrySource → Result LmCacheStatus
unfolding resolve_telemetry limit_or
get_lmcache_status policy source = resolve_telemetry policy source >>= λ t. ok (record {
  enabled = policy.enabled;
  cpu_cache_usage_bytes = t.cpu_cache_usage;
  cpu_cache_limit_bytes = limit_or t.cpu_cache_limit policy.cpu_cache_limit_bytes;
  disk_cache_usage_bytes = t.disk_cache_usage;
  disk_cache_limit_bytes = limit_or t.disk_cache_limit policy.disk_cache_limit_bytes;
  hit_tokens = t.hit_tokens;
  miss_tokens = t.miss_tokens;
  hit_quality = t.hit_quality;
  evictions = t.evictions;
  metadata = t.metadata;
})
