-- ===== src/Memory/Correct/Retry.antt =====
-- One round of eviction between two attempts of a write.
use frankenphp_tiered_cache.Base.{
  ℕ, suc, ◌+◌, ◌≤◌, ◌≡◌, some, List, ◌∷◌, arith, Bool-cases, inl, inr, ◌==◌,
}
use frankenphp_tiered_cache.Memory.State.{Env, MemoryCache, EvictionSummary}
use frankenphp_tiered_cache.Memory.Evict.{notify_eviction}
use frankenphp_tiered_cache.Memory.Ops.{Attempt, done, need, evicting_loop}
use frankenphp_tiered_cache.Memory.Account.Invariant.{IsValid, SameLimits, evictions-IsAccounted}
use frankenphp_tiered_cache.Memory.Account.Room.{evict_for-MakesRoom}
use frankenphp_tiered_cache.Memory.Lookup.{Shrinks}

notify_eviction_lem :
    (s : EvictionSummary) (c : MemoryCache)
    → (l : List EvictionSummary) × (notify_eviction s c ≡ record c { evictions = l })
unfolding notify_eviction
notify_eviction_lem s c = elim (Bool-cases c.observer) [
  | inr silent ↦ (c.evictions, rw silent)
  | inl observed ↦ elim (Bool-cases (s.entries == 0)) [
    | inl empty ↦ (c.evictions, rw (observed, empty))
    | inr some_live ↦ (s ∷ c.evictions, rw (observed, some_live))
  ]
]

-- The cache between two attempts, of which the first needed `bytes`.
pub record Roomier (bytes : ℕ) (c d : MemoryCache) : Type 0 where
  pub valid : IsValid d
  pub shrinks : Shrinks c d
  pub space : d.current + bytes ≤ d.max_memory
  pub limits : SameLimits c d

pub evicting_loop_retries :
    {A : Type 0} (env : Env) (attempt : MemoryCache → Attempt A × MemoryCache) (full : A)
    (fuel bytes : ℕ) (b c : MemoryCache)
    → IsValid c
    → bytes ≤ c.max_memory
    → attempt b ≡ (need bytes, c)
    → (d : MemoryCache) × Roomier bytes c d
      × (evicting_loop env attempt full (suc fuel) b ≡ evicting_loop env attempt full fuel d)
unfolding evicting_loop
evicting_loop_retries env attempt full fuel bytes b c v h e =
    let (r, ends, makes) = evict_for-MakesRoom env bytes c v h in
    let (l, noted) = notify_eviction_lem r.summary r.cache in
    let d = record r.cache { evictions = l } in
    (
      d,
      record {
        valid = evictions-IsAccounted 0 r.cache makes.valid l;
        shrinks = λ i k. makes.shrinks i k;
        space = omega (arith, makes.space, makes.limits.same_max);
        limits = record {
          same_max = makes.limits.same_max;
          same_item = makes.limits.same_item;
          same_shards = makes.limits.same_shards;
          same_observer = makes.limits.same_observer;
        };
      },
      rw (e, ends, makes.roomy, noted),
    )

pub evicting_loop_done :
    {A : Type 0} (env : Env) (attempt : MemoryCache → Attempt A × MemoryCache) (full r : A)
    (fuel : ℕ) (c : MemoryCache)
    → (attempt c).0 ≡ done r
    → evicting_loop env attempt full (suc fuel) c ≡ some (r, (attempt c).1)
unfolding evicting_loop
evicting_loop_done env attempt full r fuel c h =
    let p : attempt c ≡ (done r, (attempt c).1) = λ i. (h i, (attempt c).1) in rw p
