-- ===== src/Memory/Correct/Build.antt =====
-- A new `MemoryCache` (internal/cache/memory/config.go and cache.go).
use frankenphp_tiered_cache.Base.{
  ℕ, ◌%◌, ◌*◌, ◌^◌, ◌<◌, ◌≤◌, ◌≡◌, refl, Bool, [], arith, ◌==◌, length, replicate, if◌then◌else◌,
  All-replicate, length-replicate, ltb,
}
use frankenphp_tiered_cache.Base.Int.{ℤ, pos, pos_part}
use frankenphp_tiered_cache.Base.Dict.{lookup}
use frankenphp_tiered_cache.Memory.State.{Env, Entries, MemoryCache, entry_at}
use frankenphp_tiered_cache.Memory.Config.{
  Config, ok, normalized, count_or, default_shard_count, default_lru_samples, empty_cache,
  new_memory_cache,
}
use frankenphp_tiered_cache.Memory.Account.Totals.{IsShard}
use frankenphp_tiered_cache.Memory.Correct.Renew.{
  Flushed, total_costs-replicate, total_entries-replicate, get_or-replicate,
}

-- A limit, with the default for 0.
abbrev pub memory_limit : ℕ → ℕ
memory_limit m = if m == 0 then 64 * 2 ^ 20 else m

abbrev pub item_limit : ℕ → ℕ → ℕ
item_limit m i =
    if i == 0 then if ltb (memory_limit m) (4 * 2 ^ 20) then memory_limit m else 4 * 2 ^ 20 else i

abbrev pub settings : ℕ → ℕ → Bool → Config
settings m i observer = record {
  max_memory_bytes = pos m;
  max_item_size_bytes = pos i;
  observer = observer;
}

normalized-settings :
    (m i : ℕ) (observer : Bool)
    → i ≤ memory_limit m
    → normalized (settings m i observer) ≡ ok (settings (memory_limit m) (item_limit m i) observer)
unfolding normalized
normalized-settings m i observer fits = ground arith

count_or-positive : (n : ℤ) (default : ℕ) → 0 < default → 0 < count_or n default
count_or-positive n default h = ground arith

empty_cache-Flushed :
    (env : Env) (cfg : Config) (shards samples : ℕ)
    → 0 < shards
    → pos_part cfg.max_memory_bytes < 2 ^ 62
    → pos_part cfg.max_item_size_bytes ≤ pos_part cfg.max_memory_bytes
    → (c : MemoryCache) → Flushed env c (empty_cache cfg shards samples)
unfolding entry_at lookup
empty_cache-Flushed env cfg n samples some_shard small fits c = record {
  valid = record {
    sharded = rw (length-replicate n (let m : Entries = [] in m)) some_shard;
    kept = All-replicate IsShard n [] (tt, tt);
    accounted = omega (arith, total_costs-replicate n);
    bounded = omega arith;
    counted = omega (arith, total_entries-replicate n);
    limited = small;
    items_fit = fits;
  };
  empty =
      λ k. rw (get_or-replicate n (env.hash k % length (replicate n (let m : Entries = [] in m))));
  no_bytes = refl;
  no_entries = refl;
}

-- What a configuration builds.
pub record Builds (env : Env) (m i : ℕ) (c : MemoryCache) : Type 0 where
  pub flushed : Flushed env c c
  pub memory : c.max_memory ≡ memory_limit m
  pub item : c.max_item_size ≡ item_limit m i

-- A configuration whose memory limit, 64 MiB in place of 0, is below 2^62, and whose item limit is at
-- most that, builds for any counts of shards and samples a cache that is valid and empty, with that
-- memory limit and that item limit, the smaller of 4 MiB and the memory limit in place of 0.
pub new_memory_cache-Builds :
    (env : Env) (m i : ℕ) (observer : Bool) (shard_count lru_samples : ℤ)
    → memory_limit m < 2 ^ 62
    → i ≤ memory_limit m
    → (c : MemoryCache) × (new_memory_cache (settings m i observer) shard_count lru_samples ≡ ok c)
      × Builds env m i c
unfolding new_memory_cache
new_memory_cache-Builds env m i observer shard_count lru_samples small fits =
    let n = count_or shard_count default_shard_count in
    let samples = count_or lru_samples default_lru_samples in
    let cfg = settings (memory_limit m) (item_limit m i) observer in
    let item_fits : item_limit m i ≤ memory_limit m = ground arith in
    let c = empty_cache cfg n samples in
    (
      c,
      rw (normalized-settings m i observer fits),
      record {
        flushed =
            empty_cache-Flushed env cfg n samples
              (count_or-positive shard_count default_shard_count (omega arith)) small item_fits c;
        memory = refl;
        item = refl;
      },
    )
