-- ===== src/Memory/Correct/Expire.antt =====
-- `purgeExpired` of `MemoryCache` by what each key reads (internal/cache/memory/cache.go).
use frankenphp_tiered_cache.Base.{ℕ, ◌≡◌, ◌∙◌, ap, get_or, [], ◌%◌}
use frankenphp_tiered_cache.Base.Dict.{Key, lookup}
use frankenphp_tiered_cache.Memory.State.{Env, MemoryCache, entry_at, shard_for}
use frankenphp_tiered_cache.Memory.Evict.{purge_expired}
use frankenphp_tiered_cache.Memory.Account.Invariant.{IsValid}
use frankenphp_tiered_cache.Memory.Account.Purge.{
  unexpired, lookup-purge_shards, purge_expired-IsValid, purge_expired-SameLimits,
}

-- The state `d` after a purge of `c` at time `t`.
pub record Purges (env : Env) (t : ℕ) (c d : MemoryCache) : Type 0 where
  pub valid : IsValid d
  pub exact : (k : Key) → entry_at env d k ≡ unexpired t (entry_at env c k)

-- A purge of a valid cache at a time takes away exactly the entries that are expired then, and leaves
-- a valid cache: its counters of bytes and of entries are those of the entries that are left.
pub purge_expired_lem :
    (env : Env) (t : ℕ) (c : MemoryCache) → IsValid c → Purges env t c (purge_expired t c)
unfolding purge_expired entry_at
purge_expired_lem env t c v = record {
  valid = purge_expired-IsValid t c v;
  exact = λ k.
      ap (λ n. lookup k (get_or (purge_expired t c).shards (env.hash k % n) []))
        (purge_expired-SameLimits t c).same_shards
      ∙ lookup-purge_shards t (shard_for env c k) k c.shards c.current c.entries v.kept;
}
