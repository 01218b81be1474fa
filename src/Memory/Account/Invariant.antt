-- ===== src/Memory/Account/Invariant.antt =====
-- The invariant of `MemoryCache`.
use frankenphp_tiered_cache.Base.{ℕ, ◌+◌, ◌%◌, ◌^◌, ◌≤◌, ◌<◌, ◌≡◌, refl, All, length, List, arith}
use frankenphp_tiered_cache.Base.Word.{word_mod}
use frankenphp_tiered_cache.Memory.State.{MemoryCache, EvictionSummary}
use frankenphp_tiered_cache.Memory.Account.Totals.{total_costs, total_entries, IsShard}

-- `reserved` bytes are counted for an entry that is not stored yet. The limits below 2^62 keep the
-- sums of the code inside an `int64`.
pub record IsAccounted (reserved : ℕ) (c : MemoryCache) : Type 0 where
  pub sharded : 0 < length c.shards
  pub kept : All IsShard c.shards
  pub accounted : c.current ≡ total_costs c.shards + reserved
  pub bounded : c.current ≤ c.max_memory
  pub counted : c.entries ≡ total_entries c.shards % word_mod
  pub limited : c.max_memory < 2 ^ 62
  pub items_fit : c.max_item_size ≤ c.max_memory

abbrev pub IsValid : MemoryCache → Type 0
IsValid = IsAccounted 0

-- The invariant does not speak of the other fields.
module _ (x : ℕ) (c : MemoryCache) (v : IsAccounted x c) where
  pub calls-IsAccounted : (n : ℕ) → IsAccounted x (record c { calls = n })
  calls-IsAccounted n = ground arith

  pub next_ref-IsAccounted : (n : ℕ) → IsAccounted x (record c { next_ref = n })
  next_ref-IsAccounted n = ground arith

  pub lru_clock-IsAccounted : (n : ℕ) → IsAccounted x (record c { lru_clock = n })
  lru_clock-IsAccounted n = ground arith

  pub evictions-IsAccounted :
      (l : List EvictionSummary) → IsAccounted x (record c { evictions = l })
  evictions-IsAccounted l = ground arith

-- The parts of a cache that eviction and maintenance leave alone.
pub record SameLimits (c d : MemoryCache) : Type 0 where
  pub same_max : d.max_memory ≡ c.max_memory
  pub same_item : d.max_item_size ≡ c.max_item_size
  pub same_shards : length d.shards ≡ length c.shards
  pub same_observer : d.observer ≡ c.observer

pub SameLimits-trans : {a b c : MemoryCache} → SameLimits a b → SameLimits b c → SameLimits a c
SameLimits-trans s t = ground arith

pub SameLimits-refl : (c : MemoryCache) → SameLimits c c
SameLimits-refl c = record {
  same_max = refl;
  same_item = refl;
  same_shards = refl;
  same_observer = refl;
}
