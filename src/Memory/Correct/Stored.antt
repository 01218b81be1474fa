-- ===== src/Memory/Correct/Stored.antt =====
-- What a successful write leaves behind.
use frankenphp_tiered_cache.Base.{
  ℕ, ◌+◌, ◌-◌, ◌<◌, ◌≡◌, refl, ◌∙◌, ◌⊎◌, inl, inr, false, Option, none, some, arith, length,
  length-set, if◌then◌else◌,
}
use frankenphp_tiered_cache.Base.Dict.{Key, key_eq, key_eq_refl}
use frankenphp_tiered_cache.Contract.{Bytes}
use frankenphp_tiered_cache.Memory.State.{
  Env, MemoryEntry, MemoryCache, item_cost, shard_for, entry_at, put_entry, new_entry,
}
use frankenphp_tiered_cache.Memory.Ops.{cost_at, commit_set}
use frankenphp_tiered_cache.Memory.Account.Invariant.{
  IsAccounted, IsValid, SameLimits, SameLimits-trans,
}
use frankenphp_tiered_cache.Memory.Account.Put.{commit_set-IsValid}
use frankenphp_tiered_cache.Memory.Lookup.{Shrinks, Shrinks-entry_at, entry_at-put_entry}

-- The expiration of an entry that is stored with a TTL when the clock is read by call `n`.
abbrev pub expires : Env → ℕ → Option ℕ → Option ℕ
expires env n none = none
expires env n (some ttl) = some (env.now n + ttl)

abbrev pub Holds : Bytes → Option ℕ → Option MemoryEntry → Type 0
Holds value expires_at none = ⊥
Holds value expires_at (some e) = (e.value ≡ value) × (e.expires_at ≡ expires_at)

-- The key holds the value with its expiration, every other key is as it was, and the invariant holds.
pub record Stored (env : Env) (k : Key) (value : Bytes) (expires_at : Option ℕ) (c d : MemoryCache)
    : Type 0 where
  pub valid : IsValid d
  pub stored : Holds value expires_at (entry_at env d k)
  pub others : (j : Key) → key_eq k j ≡ false → entry_at env d j ≡ entry_at env c j
  pub limits : SameLimits c d

entry_at-commit_set :
    (env : Env) (k j : Key) (value : Bytes) (x : Option ℕ) (cost : ℕ) (old : Option MemoryEntry)
    (c : MemoryCache)
    → 0 < length c.shards
    → entry_at env (commit_set env k value x cost old c) j
      ≡ (if key_eq k j then some (new_entry c value x cost) else entry_at env c j)
unfolding commit_set entry_at put_entry
entry_at-commit_set env k j value x cost old c h =
    unfold entry_at put_entry in entry_at-put_entry env c k j (new_entry c value x cost) h

commit_set-SameLimits :
    (env : Env) (k : Key) (value : Bytes) (x : Option ℕ) (cost : ℕ) (old : Option MemoryEntry)
    (c : MemoryCache)
    → SameLimits c (commit_set env k value x cost old c)
unfolding commit_set put_entry
commit_set-SameLimits env k value x cost old c = record {
  same_max = refl;
  same_item = refl;
  same_shards = length-set c.shards (shard_for env c k) _;
  same_observer = refl;
}

pub commit_set-Stored :
    (env : Env) (k : Key) (value : Bytes) (x : Option ℕ) (c : MemoryCache)
    → IsAccounted (item_cost k value - cost_at (entry_at env c k)) c
    → Stored env k value x c (commit_set env k value x (item_cost k value) (entry_at env c k) c)
commit_set-Stored env k value x c v =
    let cost = item_cost k value in
    let old = entry_at env c k in
    record {
      valid = commit_set-IsValid env k value x c v;
      stored =
          rw (entry_at-commit_set env k k value x cost old c v.sharded, key_eq_refl k)
            (ground arith);
      others = λ j h. rw (entry_at-commit_set env k j value x cost old c v.sharded, h);
      limits = commit_set-SameLimits env k value x cost old c;
    }

-- The counter and the clock of the cache before the write do not matter.
pub Stored-from :
    (env : Env) (k : Key) (value : Bytes) (x : Option ℕ) (a n : ℕ) (c d : MemoryCache)
    → Stored env k value x (record c { current = a; calls = n }) d
    → Stored env k value x c d
unfolding entry_at
Stored-from env k value x a n c d s = record {
  valid = s.valid;
  stored = s.stored;
  others = s.others;
  limits = record {
    same_max = s.limits.same_max;
    same_item = s.limits.same_item;
    same_shards = s.limits.same_shards;
    same_observer = s.limits.same_observer;
  };
}

-- The key holds the value with its expiration; every other key holds what it held, or has been
-- evicted; and the invariant holds.
pub record Written (env : Env) (k : Key) (value : Bytes) (x : Option ℕ) (c d : MemoryCache)
    : Type 0 where
  pub valid : IsValid d
  pub stored : Holds value x (entry_at env d k)
  pub others :
      (j : Key)
      → key_eq k j ≡ false
      → (entry_at env d j ≡ none) ⊎ (entry_at env d j ≡ entry_at env c j)
  pub limits : SameLimits c d

pub Written-Stored :
    (env : Env) (k : Key) (value : Bytes) (x : Option ℕ) (c d e : MemoryCache)
    → Shrinks c d
    → SameLimits c d
    → Stored env k value x d e
    → Written env k value x c e
Written-Stored env k value x c d e h l s = record {
  valid = s.valid;
  stored = s.stored;
  others = λ j other. elim (Shrinks-entry_at env c d j l.same_shards h) [
    | inl gone ↦ inl (s.others j other ∙ gone)
    | inr same ↦ inr (s.others j other ∙ same)
  ];
  limits = SameLimits-trans l s.limits;
}

pub Written-after :
    (env : Env) (k : Key) (value : Bytes) (x : Option ℕ) (c d e : MemoryCache)
    → Shrinks c d
    → SameLimits c d
    → Written env k value x d e
    → Written env k value x c e
Written-after env k value x c d e h l w = record {
  valid = w.valid;
  stored = w.stored;
  others = λ j other. elim (w.others j other) [
    | inl gone ↦ inl gone
    | inr same ↦ elim (Shrinks-entry_at env c d j l.same_shards h) [
      | inl gone ↦ inl (same ∙ gone)
      | inr before ↦ inr (same ∙ before)
    ]
  ];
  limits = SameLimits-trans l w.limits;
}
