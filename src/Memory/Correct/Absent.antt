-- ===== src/Memory/Correct/Absent.antt =====
-- One attempt of `Add` of `MemoryCache` (internal/cache/memory/cache.go), for a key that is absent.
use frankenphp_tiered_cache.Base.{
  ℕ, ◌+◌, ◌-◌, ◌<◌, ◌≤◌, ◌≡◌, refl, true, false, Option, none, some, arith, le→ltb_false,
  Option-cases, inl, inr,
}
use frankenphp_tiered_cache.Base.Word.{add64}
use frankenphp_tiered_cache.Base.Dict.{Key, key_eq}
use frankenphp_tiered_cache.Contract.{Bytes}
use frankenphp_tiered_cache.Memory.State.{
  Env, MemoryEntry, MemoryCache, is_expired, item_cost, shard_for, entry_at, drop_entry, put_entry,
  new_entry, allocated, called, now,
}
use frankenphp_tiered_cache.Memory.Ops.{done, need, cost_at, commit_set, add_absent, add_attempt}
use frankenphp_tiered_cache.Memory.Account.Invariant.{
  IsAccounted, IsValid, SameLimits, calls-IsAccounted,
}
use frankenphp_tiered_cache.Memory.Correct.Attempt.{
  reserve_fits, reserve_full, reserved-IsAccounted,
}
use frankenphp_tiered_cache.Memory.Correct.Stored.{Stored, commit_set-Stored, Stored-from}
use frankenphp_tiered_cache.Memory.Correct.Single.{is_live, dropped, drop_entry-SameLimits}

-- What `Add` stores is what `set` stores for a new key.
abbrev added : Env → Key → Bytes → ℕ → MemoryCache → MemoryCache
added env k value x c =
    let d =
      put_entry (shard_for env c k) k (new_entry c value (some x) (item_cost k value))
        (allocated c) in
    record d { entries = add64 d.entries 1 }

added-commit_set :
    (env : Env) (k : Key) (value : Bytes) (x : ℕ) (c : MemoryCache)
    → added env k value x c ≡ commit_set env k value (some x) (item_cost k value) none c
unfolding commit_set put_entry
added-commit_set env k value x c = rw (le→ltb_false 0 (item_cost k value) (omega arith))

commit_new-Stored :
    (env : Env) (k : Key) (value : Bytes) (x : Option ℕ) (c : MemoryCache)
    → entry_at env c k ≡ none
    → IsAccounted (item_cost k value) c
    → Stored env k value x c (commit_set env k value x (item_cost k value) none c)
commit_new-Stored env k value x c absent v =
    let exact : item_cost k value - cost_at (entry_at env c k) ≡ item_cost k value =
      rw absent (omega arith) in
    rw absent at (commit_set-Stored env k value x c (rw exact v))

module _ (env : Env) (k : Key) (value : Bytes) (x : ℕ) where
  pub add_absent_fits :
      (c : MemoryCache)
      → IsValid c
      → entry_at env c k ≡ none
      → c.current + item_cost k value ≤ c.max_memory
      → (d : MemoryCache) × (add_absent env k value x (item_cost k value) c ≡ (done true, d))
        × Stored env k value (some x) c d
  unfolding add_absent entry_at
  add_absent_fits c v absent h =
      let cost = item_cost k value in
      let d = record c { current = c.current + cost } in
      (
        added env k value x d,
        rw (reserve_fits cost c v h),
        Stored-from env k value (some x) d.current c.calls c (added env k value x d) (
            rw (added-commit_set env k value x d)
              (commit_new-Stored env k value (some x) d absent (reserved-IsAccounted cost c v h))),
      )

  pub add_absent_full :
      (c : MemoryCache)
      → IsValid c
      → item_cost k value ≤ c.max_memory
      → c.max_memory < c.current + item_cost k value
      → add_absent env k value x (item_cost k value) c ≡ (need (item_cost k value), c)
  unfolding add_absent
  add_absent_full c v h l = rw (reserve_full (item_cost k value) c v h l)

module _ (env : Env) (k : Key) (value : Bytes) (ttl : ℕ) where
  -- The cache of an attempt, in which the key is absent after an expired entry was deleted.
  pub record Absent (c d : MemoryCache) : Type 0 where
    pub valid : IsValid d
    pub absent : entry_at env d k ≡ none
    pub others : (j : Key) → key_eq k j ≡ false → entry_at env d j ≡ entry_at env c j
    pub limits : SameLimits c d
    pub attempts :
        add_attempt env k value ttl c
        ≡ add_absent env k value (now env c + ttl) (item_cost k value) d

  pub absent_lem :
      (c : MemoryCache)
      → IsValid c
      → is_live (now env c) (entry_at env c k) ≡ false
      → (d : MemoryCache) × Absent c d
  unfolding add_attempt
  absent_lem c v h = elim (Option-cases (entry_at env c k)) [
    | inl absent ↦ (
      called c,
      record {
        valid = calls-IsAccounted 0 c v (c.calls + 1);
        absent = unfold entry_at in absent;
        others = λ j other. unfold entry_at in refl;
        limits = record {
          same_max = refl;
          same_item = refl;
          same_shards = refl;
          same_observer = refl;
        };
        attempts = rw absent;
      },
    )
    | inr (e, found) ↦
        let (keeps, absent) = dropped env k e c found v in
        let l = drop_entry-SameLimits (shard_for env c k) k e.cost (called c) in
        (
          drop_entry (shard_for env c k) k e.cost (called c),
          record {
            valid = keeps.valid;
            absent = absent;
            others = keeps.others;
            limits = record {
              same_max = l.same_max;
              same_item = l.same_item;
              same_shards = l.same_shards;
              same_observer = l.same_observer;
            };
            attempts = rw (found, gone_of e found h);
          },
        )
  ]
    where
      gone_of :
          (e : MemoryEntry)
          → entry_at env c k ≡ some e
          → is_live (now env c) (entry_at env c k) ≡ false
          → is_expired e.expires_at (now env c) ≡ true
      gone_of e found dead =
          let p : is_live (now env c) (some e) ≡ false = rw found at dead in ground arith

  pub none-Absent : (c : MemoryCache) → IsValid c → entry_at env c k ≡ none → Absent c (called c)
  unfolding add_attempt entry_at
  none-Absent c v absent = record {
    valid = calls-IsAccounted 0 c v (c.calls + 1);
    absent = absent;
    others = λ j other. refl;
    limits = record { same_max = refl; same_item = refl; same_shards = refl; same_observer = refl };
    attempts = rw absent;
  }
