-- ===== src/Memory/Correct/Sweep.antt =====
-- The maintenance of `MemoryCache` (internal/cache/memory/expiration.go and maintenance.go).
use frankenphp_tiered_cache.Base.{
  ℕ, zero, suc, ◌≡◌, refl, ◌∙◌, Bool, true, false, some, [], ◌∷◌, ◌==◌, ==_iff, length,
  if◌then◌else◌, All-get_or, Bool-cases, Option-cases, inl, inr,
}
use frankenphp_tiered_cache.Base.Word.{add64}
use frankenphp_tiered_cache.Base.Dict.{Key, key_eq, key_eq_iff, lookup, erase}
use frankenphp_tiered_cache.Memory.State.{
  Env, MemoryEntry, Entries, MemoryCache, is_expired, shard_at, drop_entry,
}
use frankenphp_tiered_cache.Memory.Ops.{delete_expired}
use frankenphp_tiered_cache.Memory.Maintenance.{
  collect_expired, delete_all_expired, purge_expired_sample, next_shard, purge_batch,
  shards_to_scan, purge_expired_background_batch, tick, background_cleanup_sample,
}
use frankenphp_tiered_cache.Memory.Lookup.{
  Shrinks, Shrinks-trans, Shrinks-refl, shard-set, lookup-erase, drop_entry-Shrinks,
}
use frankenphp_tiered_cache.Memory.Account.Totals.{IsShard}
use frankenphp_tiered_cache.Memory.Account.Invariant.{
  IsValid, SameLimits, SameLimits-refl, SameLimits-trans, calls-IsAccounted, lru_clock-IsAccounted,
}
use frankenphp_tiered_cache.Memory.Account.Drop.{drop_entry-IsAccounted, found-lt}
use frankenphp_tiered_cache.Memory.Account.Purge.{unexpired}
use frankenphp_tiered_cache.Memory.Correct.Single.{drop_entry-SameLimits}

-- A state `d` after maintenance of `c` at time `t`: what is not expired then reads as before.
pub record Sweeps (t : ℕ) (c d : MemoryCache) : Type 0 where
  pub valid : IsValid d
  pub limits : SameLimits c d
  pub shrinks : Shrinks c d
  pub steady :
      (i : ℕ) (k : Key)
      → unexpired t (lookup k (shard_at d i)) ≡ unexpired t (lookup k (shard_at c i))

Sweeps-refl : (t : ℕ) (c : MemoryCache) → IsValid c → Sweeps t c c
Sweeps-refl t c v = record {
  valid = v;
  limits = SameLimits-refl c;
  shrinks = Shrinks-refl c;
  steady = λ i k. refl;
}

Sweeps-trans : (t : ℕ) (c d e : MemoryCache) → Sweeps t c d → Sweeps t d e → Sweeps t c e
Sweeps-trans t c d e p q = record {
  valid = q.valid;
  limits = SameLimits-trans p.limits q.limits;
  shrinks = Shrinks-trans c d e p.shrinks q.shrinks;
  steady = λ i k. q.steady i k ∙ p.steady i k;
}

dropped_steady :
    (t i b : ℕ) (k j : Key) (e : MemoryEntry) (c : MemoryCache)
    → lookup k (shard_at c i) ≡ some e
    → is_expired e.expires_at t ≡ true
    → IsShard (shard_at c i)
    → unexpired t (lookup j (if i == b then erase k (shard_at c i) else shard_at c b))
      ≡ unexpired t (lookup j (shard_at c b))
dropped_steady t i b k j e c found gone s = elim (Bool-cases (i == b)) [
  | inr other ↦ rw other
  | inl here ↦
      let p : i ≡ b = (==_iff i b).0 here in
      rw (here, ← p, lookup-erase k j (shard_at c i) s)
        (elim (Bool-cases (key_eq k j)) [
          | inl same ↦ let q : k ≡ j = (key_eq_iff k j).0 same in rw (same, ← q, found, gone)
          | inr differs ↦ rw differs
        ])
]

drop_entry-Sweeps :
    (t i : ℕ) (k : Key) (e : MemoryEntry) (c : MemoryCache)
    → lookup k (shard_at c i) ≡ some e
    → is_expired e.expires_at t ≡ true
    → IsValid c
    → Sweeps t c (drop_entry i k e.cost c)
unfolding drop_entry
drop_entry-Sweeps t i k e c found gone v =
    let inside = found-lt c.shards i k e found in
    let s = All-get_or IsShard c.shards i [] v.kept (tt, tt) in
    record {
      valid = drop_entry-IsAccounted 0 i k e c found v;
      limits = drop_entry-SameLimits i k e.cost c;
      shrinks = drop_entry-Shrinks i k e.cost c inside v.kept;
      steady = λ b j.
          rw (shard-set c.shards i b (erase k (shard_at c i)) inside)
            (dropped_steady t i b k j e c found gone s);
    }

delete_expired-Sweeps :
    (t i : ℕ) (k : Key) (expected : MemoryEntry) (c : MemoryCache)
    → IsValid c
    → Sweeps t c (delete_expired i k expected t c)
unfolding delete_expired
delete_expired-Sweeps t i k expected c v = elim (Option-cases (lookup k (shard_at c i))) [
  | inl absent ↦ rw absent (Sweeps-refl t c v)
  | inr (e, found) ↦ rw found (go e found (e.ref == expected.ref) (is_expired e.expires_at t) refl)
]
  where
    go :
        (e : MemoryEntry)
        → lookup k (shard_at c i) ≡ some e
        → (same gone : Bool) → is_expired e.expires_at t ≡ gone
        → Sweeps t c (if same then if gone then drop_entry i k e.cost c else c else c)
    go e found true true gone = drop_entry-Sweeps t i k e c found gone v
    go e found true false gone = Sweeps-refl t c v
    go e found false gone h = Sweeps-refl t c v

delete_all_expired-Sweeps :
    (t i : ℕ) (m : Entries) (c : MemoryCache) → IsValid c → Sweeps t c (delete_all_expired i t m c)
unfolding delete_all_expired
delete_all_expired-Sweeps t i [] c v = Sweeps-refl t c v
delete_all_expired-Sweeps t i ((k, e) ∷ m) c v =
    let first = delete_expired-Sweeps t i k e c v in
    Sweeps-trans t c (delete_expired i k e t c) _ first
      (delete_all_expired-Sweeps t i m (delete_expired i k e t c) first.valid)

-- The counters of calls and the clock do not matter.
Sweeps-called : (t n : ℕ) (c d : MemoryCache) → Sweeps t (record c { calls = n }) d → Sweeps t c d
Sweeps-called t n c d s = record {
  valid = s.valid;
  limits = record {
    same_max = s.limits.same_max;
    same_item = s.limits.same_item;
    same_shards = s.limits.same_shards;
    same_observer = s.limits.same_observer;
  };
  shrinks = s.shrinks;
  steady = s.steady;
}

purge_expired_sample-Sweeps :
    (env : Env) (i t size : ℕ) (c : MemoryCache)
    → IsValid c
    → Sweeps t c (purge_expired_sample env i t size c)
unfolding purge_expired_sample
purge_expired_sample-Sweeps env i t size c v =
    let (found, call) = collect_expired env t size c.calls (shard_at c i) in
    Sweeps-called t call c _ (
      delete_all_expired-Sweeps t i found (record c { calls = call })
        (calls-IsAccounted 0 c v call))

purge_batch-Sweeps :
    (env : Env) (t left i : ℕ) (c : MemoryCache)
    → IsValid c
    → Sweeps t c (purge_batch env t left i c).1
unfolding purge_batch
purge_batch-Sweeps env t zero i c v = Sweeps-refl t c v
purge_batch-Sweeps env t (suc left) i c v =
    let first = purge_expired_sample-Sweeps env i t background_cleanup_sample c v in
    let d = purge_expired_sample env i t background_cleanup_sample c in
    let next = next_shard i (length c.shards) in
    Sweeps-trans t c d (purge_batch env t left next d).1 first
      (purge_batch-Sweeps env t left next d first.valid)

batch-Sweeps :
    (env : Env) (t i : ℕ) (c : MemoryCache) (nothing : Bool)
    → IsValid c
    → Sweeps t c (
        let p : ℕ × MemoryCache =
          if nothing then (0, c) else purge_batch env t (shards_to_scan c) i c in
        p.1)
batch-Sweeps env t i c true v = Sweeps-refl t c v
batch-Sweeps env t i c false v = purge_batch-Sweeps env t (shards_to_scan c) i c v

-- A tick of the maintenance of a valid cache at a time leaves a valid cache with the same limits, in
-- which every entry was there before and every entry that is not expired then still is.
pub tick-Sweeps :
    (env : Env) (t i : ℕ) (c : MemoryCache) → IsValid c → Sweeps t c (tick env t (i, c)).1
unfolding tick purge_expired_background_batch
tick-Sweeps env t i c v =
    let clock = add64 c.lru_clock 1 in
    let d = record c { lru_clock = clock } in
    let s = batch-Sweeps env t i d (length c.shards == 0) (lru_clock-IsAccounted 0 c v clock) in
    record {
      valid = s.valid;
      limits = record {
        same_max = s.limits.same_max;
        same_item = s.limits.same_item;
        same_shards = s.limits.same_shards;
        same_observer = s.limits.same_observer;
      };
      shrinks = s.shrinks;
      steady = s.steady;
    }
