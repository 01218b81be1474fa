-- ===== src/Memory/Account/Evict.antt =====
-- The loop of `evictFor` (internal/cache/memory/cache.go).
use frankenphp_tiered_cache.Base.{
  ℕ, suc, zero, ◌+◌, ◌<◌, ◌≤◌, ◌≡◌, refl, true, some, List, [], ◌∷◌, arith, Bool-cases, inl, inr,
  ==_iff, length-set,
}
use frankenphp_tiered_cache.Base.Dict.{Key, lookup, erase, length-erase}
use frankenphp_tiered_cache.Memory.State.{
  Env, MemoryEntry, Entries, EvictionSummary, MemoryCache, shard_at, drop_entry, exceeds, called,
}
use frankenphp_tiered_cache.Memory.Evict.{
  Candidate, EvictionResult, evict_one_lru, try_evict_candidate, choose_candidate, evict_loop,
  tally,
}
use frankenphp_tiered_cache.Memory.Account.Totals.{total_costs, total_entries, total_entries-set}
use frankenphp_tiered_cache.Memory.Account.Invariant.{
  IsValid, SameLimits, SameLimits-refl, SameLimits-trans, calls-IsAccounted,
}
use frankenphp_tiered_cache.Memory.Lookup.{Shrinks, Shrinks-refl, Shrinks-trans, drop_entry-Shrinks}
use frankenphp_tiered_cache.Memory.Account.Drop.{found-lt, drop_entry-IsAccounted}
use frankenphp_tiered_cache.Memory.Account.Choose.{choose_candidate_found}

-- Bytes are counted only for entries.
cost→entries : (ms : List Entries) → 0 < total_costs ms → 0 < total_entries ms
cost→entries [] h = absurd (omega arith)
cost→entries ([] ∷ ms) h = omega (arith, cost→entries ms (omega arith))
cost→entries ((p ∷ m) ∷ ms) h = omega arith

above→lt : (a b : ℕ) → exceeds a b ≡ true → b < a
above→lt a b h = ground arith

drop_entry-entries :
    (i : ℕ) (k : Key) (e : MemoryEntry) (c : MemoryCache)
    → lookup k (shard_at c i) ≡ some e
    → suc (total_entries (drop_entry i k e.cost c).shards) ≡ total_entries c.shards
unfolding drop_entry
drop_entry-entries i k e c h =
    let counts =
      total_entries-set c.shards i (erase k (shard_at c i)) (found-lt c.shards i k e h) in
    let count = length-erase k e (shard_at c i) h in omega arith

-- What one eviction does: a stored entry goes.
pub record Evicts (c : MemoryCache) (p : EvictionResult × MemoryCache) : Type 0 where
  pub removed : p.0.removed ≡ true
  pub valid : IsValid p.1
  pub shrinks : Shrinks c p.1
  pub fewer : suc (total_entries p.1.shards) ≡ total_entries c.shards
  pub limits : SameLimits c p.1

try_evict_candidate-Evicts :
    (env : Env) (a : Candidate) (c : MemoryCache)
    → lookup a.key (shard_at c a.shard) ≡ some a.entry
    → IsValid c
    → Evicts c (try_evict_candidate env a c)
unfolding try_evict_candidate drop_entry
try_evict_candidate-Evicts env a c h v = rw h (
    rw ((==_iff a.entry.ref a.entry.ref).1 refl) (record {
      removed = refl;
      valid =
          drop_entry-IsAccounted 0 a.shard a.key a.entry (called c) h
            (calls-IsAccounted 0 c v (c.calls + 1));
      shrinks = λ i k.
          drop_entry-Shrinks a.shard a.key a.entry.cost (called c)
            (found-lt c.shards a.shard a.key a.entry h) v.kept i k;
      fewer = drop_entry-entries a.shard a.key a.entry (called c) h;
      limits = record {
        same_max = refl;
        same_item = refl;
        same_shards = length-set c.shards a.shard (erase a.key (shard_at c a.shard));
        same_observer = refl;
      };
    }))

evict_one_lru-Evicts :
    (env : Env) (c : MemoryCache)
    → IsValid c
    → 0 < total_entries c.shards
    → Evicts c (evict_one_lru env c)
unfolding evict_one_lru
evict_one_lru-Evicts env c v h =
    let (a, found, stands) = choose_candidate_found env c v.kept h in
    let d = record c { calls = (choose_candidate env c).1 } in
    let e =
      try_evict_candidate-Evicts env a d stands
        (calls-IsAccounted 0 c v (choose_candidate env c).1) in
    rw found (record {
      removed = e.removed;
      valid = e.valid;
      shrinks = λ i k. e.shrinks i k;
      fewer = e.fewer;
      limits = ground (arith, e.limits);
    })

-- What the loop of `evictFor` reaches.
pub record Reaches (target : ℕ) (c d : MemoryCache) : Type 0 where
  pub valid : IsValid d
  pub shrinks : Shrinks c d
  pub reached : d.current ≤ target
  pub limits : SameLimits c d

pub evict_loop-Reaches :
    (env : Env) (fuel target failed : ℕ) (s : EvictionSummary) (c : MemoryCache)
    → IsValid c
    → total_entries c.shards < fuel
    → (t : EvictionSummary) × (d : MemoryCache) × (evict_loop env fuel target failed s c
        ≡ some (t, d))
      × Reaches target c d
unfolding evict_loop
evict_loop-Reaches env zero target failed s c v h = absurd (omega arith)
evict_loop-Reaches env (suc fuel) target failed s c v h =
    elim (Bool-cases (exceeds c.current target)) [
      | inr below ↦ (
        s,
        c,
        rw below,
        record {
          valid = v;
          shrinks = Shrinks-refl c;
          reached = ground arith;
          limits = SameLimits-refl c;
        },
      )
      | inl above ↦
          let e =
            evict_one_lru-Evicts env c v
              (cost→entries c.shards (omega (arith, above→lt c.current target above))) in
          let r = evict_one_lru env c in
          let (t, d, ends, reaches) =
            evict_loop-Reaches env fuel target 0 (tally c.observer r.0 s) r.1 e.valid
              (omega arith) in
          (
            t,
            d,
            rw (above, e.removed) ends,
            record {
              valid = reaches.valid;
              shrinks = Shrinks-trans c r.1 d e.shrinks reaches.shrinks;
              reached = reaches.reached;
              limits = SameLimits-trans e.limits reaches.limits;
            },
          )
    ]
