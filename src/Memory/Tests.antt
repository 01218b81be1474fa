-- ===== src/Memory/Tests.antt =====
-- Runs of the memory cache, and the theorems about it at concrete inputs.
use frankenphp_tiered_cache.Base.{ℕ, ◌≡◌, refl, ◌+◌, true, none, some, [], ◌∷◌, arith}
use frankenphp_tiered_cache.Base.Int.{pos}
use frankenphp_tiered_cache.Base.Dict.{Key, key_eq, lookup}
use frankenphp_tiered_cache.Contract.{Bytes, success}
use frankenphp_tiered_cache.Memory.State.{Env, MemoryEntry, MemoryCache, entry_at}
use frankenphp_tiered_cache.Memory.Ops.{set_value, forever, add, forget, touch, flush}
use frankenphp_tiered_cache.Memory.Account.Invariant.{IsValid}
use frankenphp_tiered_cache.Memory.Evict.{Room, purge_expired, evict_for}
use frankenphp_tiered_cache.Memory.Account.Room.{MakesRoom, evict_for-MakesRoom}
use frankenphp_tiered_cache.Memory.Correct.Stored.{Written, expires}
use frankenphp_tiered_cache.Memory.Correct.Add.{add_stores}
use frankenphp_tiered_cache.Memory.Correct.Single.{Forgets, forget_lem}
use frankenphp_tiered_cache.Memory.Correct.Expire.{Purges, purge_expired_lem}
use frankenphp_tiered_cache.Memory.Config.{ok, new_memory_cache}
use frankenphp_tiered_cache.Memory.Maintenance.{tick}
use frankenphp_tiered_cache.Memory.Correct.Sweep.{Sweeps, tick-Sweeps}
use frankenphp_tiered_cache.Memory.Correct.Build.{settings, Builds, new_memory_cache-Builds}
use frankenphp_tiered_cache.Memory.Correct.Renew.{Touches, touch_lem, Flushed, flush_lem}
use frankenphp_tiered_cache.Memory.Correct.Store.{StoreWritten, set_value_written, forever_written}

abbrev env : Env
env = record { now = λ n. 1000 + n; choose = λ n. n; hash = λ k. 0; bytes_cap = λ n. n + 8 }

abbrev key_a : Key
key_a = b'a' ∷ []

abbrev key_b : Key
key_b = b'b' ∷ []

abbrev ten : Bytes
ten = record { content = b'x' ∷ []; cap = 10 }

abbrev entry_b : MemoryEntry
entry_b = record { ref = 0; value = ten; expires_at = some 1500; last_access = 1; cost = 11 }

-- One shard of two that holds `b`.
abbrev cache : MemoryCache
cache = record {
  shards = ((key_b, entry_b) ∷ []) ∷ [] ∷ [];
  max_memory = 20;
  max_item_size = 15;
  observer = true;
  current = 11;
  entries = 1;
  lru_clock = 1;
  lru_samples = 5;
  evictions = [];
  calls = 0;
  next_ref = 1;
}

cache-IsValid : IsValid cache
unfolding lookup
cache-IsValid = record {
  sharded = omega arith;
  kept = (((refl, tt), (refl, tt)), ((tt, tt), tt));
  accounted = refl;
  bounded = omega arith;
  counted = refl;
  limited = omega arith;
  items_fit = omega arith;
}

set_value_written_example :
    StoreWritten env key_a ten (some 500) cache (set_value env key_a (some ten) (pos 500) cache)
set_value_written_example =
    set_value_written env key_a ten (pos 500) cache cache-IsValid refl (omega arith)

forever_written_example : StoreWritten env key_a ten none cache (forever env key_a (some ten) cache)
forever_written_example = forever_written env key_a ten cache cache-IsValid (omega arith)

evict_for-MakesRoom_example : (r : Room) × (evict_for env 12 cache ≡ some r) × MakesRoom 12 cache r
evict_for-MakesRoom_example = evict_for-MakesRoom env 12 cache cache-IsValid (omega arith)

add_stores_example :
    (n : ℕ) × (d : MemoryCache) × (add env key_a (some ten) (pos 500) cache
      ≡ some (success true, d))
    × Written env key_a ten (expires env n (some 500)) cache d
unfolding entry_at lookup key_eq
add_stores_example = add_stores env key_a ten (pos 500) cache cache-IsValid refl (omega arith) refl

forget_lem_example : Forgets env key_b cache (forget env key_b cache)
forget_lem_example = forget_lem env key_b cache cache-IsValid

touch_lem_example :
    let (r, d) = touch env key_b (pos 500) cache in
    (r.error ≡ none) × Touches env key_b 500 cache (r.result, d)
touch_lem_example = touch_lem env key_b (pos 500) cache cache-IsValid refl

flush_lem_example : Flushed env cache (flush cache).1
flush_lem_example = flush_lem env cache cache-IsValid

purge_expired_lem_example : Purges env 1500 cache (purge_expired 1500 cache)
purge_expired_lem_example = purge_expired_lem env 1500 cache cache-IsValid

tick-Sweeps_example : Sweeps 1200 cache (tick env 1200 (0, cache)).1
tick-Sweeps_example = tick-Sweeps env 1200 0 cache cache-IsValid

new_memory_cache-Builds_example :
    (c : MemoryCache) × (new_memory_cache (settings 0 0 true) (pos 0) (pos 0) ≡ ok c)
    × Builds env 0 0 c
new_memory_cache-Builds_example =
    new_memory_cache-Builds env 0 0 true (pos 0) (pos 0) (omega arith) (omega arith)
