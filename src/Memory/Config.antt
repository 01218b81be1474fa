-- ===== src/Memory/Config.antt =====
-- The configuration and the constructor of `MemoryCache` (internal/cache/memory/config.go and
-- `newMemoryCache` of internal/cache/memory/cache.go).
use frankenphp_tiered_cache.Base.{ℕ, ◌*◌, ◌^◌, Bool, ◌&&◌, not, [], if◌then◌else◌, replicate}
use frankenphp_tiered_cache.Base.Int.{ℤ, pos, pos_part, ltb_ℤ, leb_ℤ}
use frankenphp_tiered_cache.Memory.State.{MemoryCache}

pub record Config : Type 0 where
  pub max_memory_bytes : ℤ
  pub max_item_size_bytes : ℤ
  pub observer : Bool

pub data ConfigError : Type 0 where
  negative_max_memory negative_max_item_size item_size_exceeds_memory : ConfigError

pub data ConfigResult (A : Type 0) : Type 0 where
  ok : A → ConfigResult A
  err : ConfigError → ConfigResult A

abbrev pub default_max_memory_bytes : ℤ
default_max_memory_bytes = pos (64 * 2 ^ 20)

abbrev pub default_max_item_size_bytes : ℤ
default_max_item_size_bytes = pos (4 * 2 ^ 20)

abbrev pub default_shard_count : ℕ
default_shard_count = 64

abbrev pub default_lru_samples : ℕ
default_lru_samples = 5

-- `x == 0` for an `int64`.
abbrev pub is_zero : ℤ → Bool
is_zero z = leb_ℤ z (pos 0) && leb_ℤ (pos 0) z

abbrev pub with_default_memory : Config → Config
with_default_memory c =
    if is_zero c.max_memory_bytes
    then record c { max_memory_bytes = default_max_memory_bytes }
    else c

abbrev pub with_default_item_size : Config → Config
with_default_item_size c =
    if is_zero c.max_item_size_bytes
    then if ltb_ℤ c.max_memory_bytes default_max_item_size_bytes
      then record c { max_item_size_bytes = c.max_memory_bytes }
      else record c { max_item_size_bytes = default_max_item_size_bytes }
    else c

unfoldable pub normalized : Config → ConfigResult Config
normalized c =
    if ltb_ℤ c.max_memory_bytes (pos 0)
    then err negative_max_memory
    else if ltb_ℤ c.max_item_size_bytes (pos 0)
    then err negative_max_item_size
    else let d = with_default_memory c in
      let e = with_default_item_size d in
      if not (is_zero c.max_item_size_bytes) && ltb_ℤ e.max_memory_bytes e.max_item_size_bytes
      then err item_size_exceeds_memory
      else ok e

-- A count that is not positive is replaced by the default.
abbrev pub count_or : ℤ → ℕ → ℕ
count_or n default = if leb_ℤ n (pos 0) then default else pos_part n

abbrev pub empty_cache : Config → ℕ → ℕ → MemoryCache
empty_cache cfg shard_count lru_samples = record {
  shards = replicate shard_count [];
  max_memory = pos_part cfg.max_memory_bytes;
  max_item_size = pos_part cfg.max_item_size_bytes;
  observer = cfg.observer;
  current = 0;
  entries = 0;
  lru_clock = 1;
  lru_samples = lru_samples;
  evictions = [];
  calls = 0;
  next_ref = 0;
}

-- The rest of `newMemoryCache`, after the configuration was checked.
abbrev pub built : ℤ → ℤ → ConfigResult Config → ConfigResult MemoryCache
built shard_count lru_samples (err e) = err e
built shard_count lru_samples (ok cfg) = ok (
    empty_cache cfg (count_or shard_count default_shard_count)
      (count_or lru_samples default_lru_samples))

-- `newMemoryCache`; its maintenance goroutine is `Memory.Maintenance.tick`.
unfoldable pub new_memory_cache : Config → ℤ → ℤ → ConfigResult MemoryCache
new_memory_cache config shard_count lru_samples = built shard_count lru_samples (normalized config)
