-- ===== src/Memory/Maintenance.antt =====
-- Background maintenance (internal/cache/memory/maintenance.go, expiration.go and `runMaintenance`
-- of cache.go).
use frankenphp_tiered_cache.Base.{
  ℕ, zero, suc, ◌+◌, ◌%◌, none, some, [], ◌∷◌, ◌==◌, ltb, if◌then◌else◌, length, get_elem?,
}
use frankenphp_tiered_cache.Base.Word.{add64}
use frankenphp_tiered_cache.Base.Dict.{erase}
use frankenphp_tiered_cache.Memory.State.{Env, Entries, MemoryCache, is_expired, shard_at}
use frankenphp_tiered_cache.Memory.Ops.{delete_expired}

abbrev pub background_cleanup_sample : ℕ
background_cleanup_sample = 64

abbrev pub background_cleanup_shards_per_tick : ℕ
background_cleanup_shards_per_tick = 16

-- The candidates of `purgeExpiredSample`: the iteration yields up to `left` entries in an order
-- that the environment chooses, and the expired ones are kept.
unfoldable pub collect_expired : Env → ℕ → ℕ → ℕ → Entries → Entries × ℕ
collect_expired env t zero call m = ([], call)
collect_expired env t (suc left) call m = elim (get_elem? m (env.choose call % length m)) [
  | none ↦ ([], call)
  | some (key, e) ↦
      let (found, call') = collect_expired env t left (call + 1) (erase key m) in
      (if is_expired e.expires_at t then (key, e) ∷ found else found, call')
]

-- The candidates are deleted one by one, each under the lock.
unfoldable pub delete_all_expired : ℕ → ℕ → Entries → MemoryCache → MemoryCache
delete_all_expired i t [] c = c
delete_all_expired i t ((key, e) ∷ m) c = delete_all_expired i t m (delete_expired i key e t c)

unfoldable pub purge_expired_sample : Env → ℕ → ℕ → ℕ → MemoryCache → MemoryCache
purge_expired_sample env i t sample_size c =
    let (found, call) = collect_expired env t sample_size c.calls (shard_at c i) in
    delete_all_expired i t found (record c { calls = call })

-- The index after `i`, back to 0 at the end.
abbrev pub next_shard : ℕ → ℕ → ℕ
next_shard i count = if suc i == count then 0 else suc i

unfoldable pub purge_batch : Env → ℕ → ℕ → ℕ → MemoryCache → ℕ × MemoryCache
purge_batch env t zero i c = (i, c)
purge_batch env t (suc left) i c =
    purge_batch env t left (next_shard i (length c.shards))
      (purge_expired_sample env i t background_cleanup_sample c)

abbrev pub shards_to_scan : MemoryCache → ℕ
shards_to_scan c =
    if ltb (length c.shards) background_cleanup_shards_per_tick
    then length c.shards
    else background_cleanup_shards_per_tick

unfoldable pub purge_expired_background_batch : Env → ℕ → ℕ → MemoryCache → ℕ × MemoryCache
purge_expired_background_batch env t i c =
    if length c.shards == 0 then (0, c) else purge_batch env t (shards_to_scan c) i c

-- One tick of `runMaintenance` at time `t`; the number is `nextCleanupShard`.
unfoldable pub tick : Env → ℕ → ℕ × MemoryCache → ℕ × MemoryCache
unfolding add64
tick env t (i, c) =
    purge_expired_background_batch env t i (record c { lru_clock = add64 c.lru_clock 1 })
