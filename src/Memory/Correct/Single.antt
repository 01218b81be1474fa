-- ===== src/Memory/Correct/Single.antt =====
-- `Get` and `Forget` of `MemoryCache` (internal/cache/memory/cache.go).
use frankenphp_tiered_cache.Base.{
  ℕ, ◌+◌, ◌≡◌, refl, ◌∙◌, Bool, true, false, Option, none, some, [], arith, if◌then◌else◌,
  Option-cases, inl, inr, All-get_or, length-set,
}
use frankenphp_tiered_cache.Base.Dict.{Key, key_eq, key_eq_refl, erase}
use frankenphp_tiered_cache.Contract.{Item}
use frankenphp_tiered_cache.Memory.State.{
  Env, MemoryEntry, MemoryCache, is_expired, shard_for, shard_at, entry_at, drop_entry, put_entry,
  store_max_access_clock, called, now,
}
use frankenphp_tiered_cache.Memory.Ops.{remaining_ttl, forget}
use frankenphp_tiered_cache.Memory.Account.Totals.{IsShard, lookup-HasCost}
use frankenphp_tiered_cache.Memory.Account.Invariant.{IsValid, SameLimits, calls-IsAccounted}
use frankenphp_tiered_cache.Memory.Account.Drop.{drop_entry-IsAccounted}
use frankenphp_tiered_cache.Memory.Account.Put.{put_entry-IsAccounted}
use frankenphp_tiered_cache.Memory.Lookup.{entry_at-put_entry, entry_at-drop_entry}

-- What a read at time `t` answers for an entry.
abbrev pub answer : ℕ → Option MemoryEntry → Option Item
answer t none = none
answer t (some e) =
    if is_expired e.expires_at t
    then none
    else some (record { value = e.value; ttl = remaining_ttl e.expires_at t })

-- An operation on `k` keeps the invariant and every other key.
pub record Keeps (env : Env) (k : Key) (c d : MemoryCache) : Type 0 where
  pub valid : IsValid d
  pub others : (j : Key) → key_eq k j ≡ false → entry_at env d j ≡ entry_at env c j

-- A stored entry is dropped, after some calls of the environment.
pub drop_entry-SameLimits :
    (i : ℕ) (k : Key) (cost : ℕ) (c : MemoryCache) → SameLimits c (drop_entry i k cost c)
unfolding drop_entry
drop_entry-SameLimits i k cost c = record {
  same_max = refl;
  same_item = refl;
  same_shards = length-set c.shards i (erase k (shard_at c i));
  same_observer = refl;
}

-- A stored entry is dropped, after a call of the environment.
pub dropped :
    (env : Env) (k : Key) (e : MemoryEntry) (c : MemoryCache)
    → entry_at env c k ≡ some e
    → IsValid c
    → Keeps env k c (drop_entry (shard_for env c k) k e.cost (called c))
      × (entry_at env (drop_entry (shard_for env c k) k e.cost (called c)) k ≡ none)
unfolding entry_at
dropped env k e c h v =
    let laws = λ (j : Key). entry_at-drop_entry env (called c) k j e.cost v.sharded v.kept in
    (
      record {
        valid =
            drop_entry-IsAccounted 0 (shard_for env c k) k e (called c) h
              (calls-IsAccounted 0 c v (c.calls + 1));
        others = λ j other. laws j ∙ (rw other);
      },
      laws k ∙ (rw (key_eq_refl k)),
    )

-- An entry is replaced by one of the same value and cost.
pub replaced :
    (env : Env) (k : Key) (e e' : MemoryEntry) (c : MemoryCache)
    → entry_at env c k ≡ some e
    → e'.cost ≡ e.cost
    → e'.value ≡ e.value
    → IsValid c
    → Keeps env k c (put_entry (shard_for env c k) k e' (called c))
      × (entry_at env (put_entry (shard_for env c k) k e' (called c)) k ≡ some e')
unfolding entry_at
replaced env k e e' c h same_cost same_value v =
    let laws = λ (j : Key). entry_at-put_entry env (called c) k j e' v.sharded in
    let i = shard_for env c k in
    let right =
      lookup-HasCost k e (shard_at c i) h (All-get_or IsShard c.shards i [] v.kept (tt, tt)).1 in
    (
      record {
        valid =
            put_entry-IsAccounted 0 i k e e' (called c) h same_cost
              (rw (same_cost, same_value) right) (calls-IsAccounted 0 c v (c.calls + 1));
        others = λ j other. laws j ∙ (rw other);
      },
      laws k ∙ (rw (key_eq_refl k)),
    )

-- An answer `p.0` and a state `p.1` after a read of `k` in `c`.
pub record Reads (env : Env) (k : Key) (c : MemoryCache) (p : Option Item × MemoryCache)
    : Type 0 where
  pub answers : p.0 ≡ answer (now env c) (entry_at env c k)
  pub again : answer (now env c) (entry_at env p.1 k) ≡ answer (now env c) (entry_at env c k)
  pub keeps : Keeps env k c p.1

pub Keeps-refl : (env : Env) (k : Key) (c : MemoryCache) → IsValid c → Keeps env k c c
Keeps-refl env k c v = record { valid = v; others = λ j h. refl }

pub access_expires :
    (e : MemoryEntry) (clock : ℕ) → (store_max_access_clock e clock).expires_at ≡ e.expires_at
access_expires e clock = ground arith

-- A key is there at time `t`.
abbrev pub is_live : ℕ → Option MemoryEntry → Bool
is_live t none = false
is_live t (some e) = if is_expired e.expires_at t then false else true

-- An answer `p.0` and a state `p.1` after `k` was removed from `c`.
pub record Forgets (env : Env) (k : Key) (c : MemoryCache) (p : Bool × MemoryCache) : Type 0 where
  pub answers : p.0 ≡ is_live (now env c) (entry_at env c k)
  pub absent : entry_at env p.1 k ≡ none
  pub keeps : Keeps env k c p.1

-- `Forget` in a valid cache answers whether the key is there and not expired at the clock's reading;
-- then the key is absent, every other key holds what it held, and the cache is valid.
pub forget_lem :
    (env : Env) (k : Key) (c : MemoryCache) → IsValid c → Forgets env k c (forget env k c)
unfolding forget
forget_lem env k c v = elim (Option-cases (entry_at env c k)) [
  | inl absent ↦
      rw absent (record { answers = rw absent; absent = absent; keeps = Keeps-refl env k c v })
  | inr (e, found) ↦
      let (keeps, absent) = dropped env k e c found v in
      rw found (record { answers = rw found; absent = absent; keeps = keeps })
]
