-- ===== src/Memory/Correct/Store.antt =====
-- `Set` and `Forever` end and store the value (`set`, internal/cache/memory/cache.go).
use frankenphp_tiered_cache.Base.{
  ℕ, suc, ◌+◌, ◌<◌, ◌≤◌, ◌≡◌, ◌∙◌, Bool, true, false, Option, none, some, arith, leb, leb→le,
  leb_false→lt, le→ltb_false, Bool-cases, inl, inr,
}
use frankenphp_tiered_cache.Base.Int.{pos_part}
use frankenphp_tiered_cache.Base.Dict.{Key}
use frankenphp_tiered_cache.Contract.{Bytes, Duration, Reply, success, not_positive}
use frankenphp_tiered_cache.Memory.State.{Env, MemoryCache, item_cost, entry_at}
use frankenphp_tiered_cache.Memory.Ops.{set_attempt, evicting_loop, store, set_value, forever}
use frankenphp_tiered_cache.Memory.Account.Invariant.{IsValid, SameLimits-refl}
use frankenphp_tiered_cache.Memory.Lookup.{Shrinks-refl, Shrinks-entry_at}
use frankenphp_tiered_cache.Memory.Correct.Retry.{
  Roomier, evicting_loop_retries, evicting_loop_done,
}
use frankenphp_tiered_cache.Memory.Correct.Attempt.{
  extra, IsLastReading, DoneStored, set_attempt_fits, set_attempt_full,
}
use frankenphp_tiered_cache.Memory.Correct.Stored.{expires, Written, Written-Stored, Written-after}

-- The loop of `set` ends in a cache where the value is stored.
unfoldable pub LoopWritten : Env → Key → Bytes → Option ℕ → ℕ → MemoryCache → Type 0
LoopWritten env k value ttl fuel c =
    (n : ℕ) × (d : MemoryCache) × (evicting_loop env (set_attempt env k value ttl) false fuel c
      ≡ some (true, d))
    × IsLastReading ttl n d
    × Written env k value (expires env n ttl) c d

module _ (env : Env) (k : Key) (value : Bytes) (ttl : Option ℕ) where
  loop_fits :
      (fuel : ℕ) (c : MemoryCache)
      → IsValid c
      → c.current + extra env k (item_cost k value) c ≤ c.max_memory
      → LoopWritten env k value ttl (suc fuel) c
  unfolding DoneStored LoopWritten
  loop_fits fuel c v h =
      let (n, ends, last, s) = set_attempt_fits env k value ttl c v h in
      (
        n,
        (set_attempt env k value ttl c).1,
        evicting_loop_done env (set_attempt env k value ttl) false true fuel c ends,
        last,
        Written-Stored env k value (expires env n ttl) c c _ (Shrinks-refl c) (SameLimits-refl c) s,
      )

  -- A round of eviction comes first.
  loop_retries :
      (fuel : ℕ) (c : MemoryCache)
      → IsValid c
      → item_cost k value ≤ c.max_memory
      → c.max_memory < c.current + extra env k (item_cost k value) c
      → ((d : MemoryCache)
          → Roomier (extra env k (item_cost k value) c) c d
          → LoopWritten env k value ttl fuel d)
      → LoopWritten env k value ttl (suc fuel) c
  unfolding LoopWritten
  loop_retries fuel c v h l again =
      let full = set_attempt_full env k value ttl c v h l in
      let (d, roomier, retries) =
        evicting_loop_retries env (set_attempt env k value ttl) false fuel
          (extra env k (item_cost k value) c) c c v (omega arith) full in
      let (n, e, ends, last, w) = again d roomier in
      (
        n,
        e,
        retries ∙ ends,
        last,
        Written-after env k value (expires env n ttl) c d e roomier.shrinks roomier.limits w,
      )

  still_absent :
      (c d : MemoryCache)
      → Roomier (extra env k (item_cost k value) c) c d
      → entry_at env c k ≡ none
      → entry_at env d k ≡ none
  still_absent c d r absent = elim (Shrinks-entry_at env c d k r.limits.same_shards r.shrinks) [
    | inl gone ↦ gone
    | inr same ↦ same ∙ absent
  ]

  same_space :
      (c d : MemoryCache)
      → Roomier (extra env k (item_cost k value) c) c d
      → extra env k (item_cost k value) d ≡ extra env k (item_cost k value) c
      → d.current + extra env k (item_cost k value) d ≤ d.max_memory
  same_space c d r e = rw e r.space

  loop_absent :
      (fuel : ℕ) (c : MemoryCache)
      → IsValid c
      → item_cost k value ≤ c.max_memory
      → entry_at env c k ≡ none
      → LoopWritten env k value ttl (suc (suc fuel)) c
  loop_absent fuel c v h absent =
      elim (Bool-cases (leb (c.current + extra env k (item_cost k value) c) c.max_memory)) [
        | inl fits ↦ loop_fits (suc fuel) c v (leb→le _ _ fits)
        | inr full ↦ loop_retries (suc fuel) c v h (leb_false→lt _ _ full) (λ d r.
            loop_fits fuel d r.valid (same_space c d r (rw (still_absent c d r absent, absent))))
      ]

  -- Three attempts are enough: the first may evict the entry that it was to replace.
  pub loop_written :
      (fuel : ℕ) (c : MemoryCache)
      → IsValid c
      → item_cost k value ≤ c.max_memory
      → LoopWritten env k value ttl (suc (suc (suc fuel))) c
  loop_written fuel c v h =
      elim (Bool-cases (leb (c.current + extra env k (item_cost k value) c) c.max_memory)) [
        | inl fits ↦ loop_fits (suc (suc fuel)) c v (leb→le _ _ fits)
        | inr full ↦ loop_retries (suc (suc fuel)) c v h (leb_false→lt _ _ full) (λ d r.
            elim (Shrinks-entry_at env c d k r.limits.same_shards r.shrinks) [
              | inl gone ↦ loop_absent fuel d r.valid (omega (arith, r.limits.same_max)) gone
              | inr same ↦ loop_fits (suc fuel) d r.valid (same_space c d r (rw same))
            ])
      ]

-- `Set` and `Forever` end, and the value is stored.
abbrev pub StoreWritten :
    Env → Key → Bytes → Option ℕ → MemoryCache → Option (Reply Bool × MemoryCache) → Type 0
StoreWritten env k value ttl c r =
    (n : ℕ) × (d : MemoryCache) × (r ≡ some (success true, d))
    × IsLastReading ttl n d
    × Written env k value (expires env n ttl) c d

pub store_written :
    (env : Env) (k : Key) (value : Bytes) (ttl : Option ℕ) (c : MemoryCache)
    → IsValid c
    → item_cost k value ≤ c.max_item_size
    → StoreWritten env k value ttl c (store env k value ttl c)
unfolding store LoopWritten
store_written env k value ttl c v h =
    let (n, d, ends, last, w) = loop_written env k value ttl 0 c v (omega (arith, v.items_fit)) in
    (n, d, rw (le→ltb_false (item_cost k value) c.max_item_size h, ends), last, w)

-- `Set` with a positive TTL of a value whose cost is within the item limit, in a valid cache, ends
-- and reports true; then the key holds the value until the TTL after the
-- last reading of the clock that the call has made, each other key holds what it held or has been evicted, and the counters of the cache are right and within the
-- limit.
pub set_value_written :
    (env : Env) (k : Key) (value : Bytes) (ttl : Duration) (c : MemoryCache)
    → IsValid c
    → not_positive ttl ≡ false
    → item_cost k value ≤ c.max_item_size
    → StoreWritten env k value (some (pos_part ttl)) c (set_value env k (some value) ttl c)
unfolding set_value
set_value_written env k value ttl c v positive h =
    rw positive (store_written env k value (some (pos_part ttl)) c v h)

-- `Forever` of a value whose cost is within the item limit, in a valid cache, ends and reports true;
-- then the key holds the value without expiration, each other key holds what it held or has been
-- evicted, and the counters of the cache are right and within the limit.
pub forever_written :
    (env : Env) (k : Key) (value : Bytes) (c : MemoryCache)
    → IsValid c
    → item_cost k value ≤ c.max_item_size
    → StoreWritten env k value none c (forever env k (some value) c)
unfolding forever
forever_written env k value c v h = store_written env k value none c v h
