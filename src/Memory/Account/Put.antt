-- ===== src/Memory/Account/Put.antt =====
-- The accounting when bytes are reserved and an entry is stored.
use frankenphp_tiered_cache.Base.{
  ℕ, ◌+◌, ◌-◌, ◌<◌, ◌≤◌, ◌≡◌, Bool, true, false, Option, some, [], arith, length, All-set,
  All-get_or, length-set,
}
use frankenphp_tiered_cache.Base.Word.{add64, sub64}
use frankenphp_tiered_cache.Base.Dict.{Key, lookup, insert}
use frankenphp_tiered_cache.Contract.{Bytes}
use frankenphp_tiered_cache.Memory.State.{
  Env, MemoryEntry, MemoryCache, item_cost, shard_for, shard_at, entry_at, put_entry, try_reserve,
  new_entry, store_max_access_clock,
}
use frankenphp_tiered_cache.Memory.Ops.{cost_at, commit_set}
use frankenphp_tiered_cache.Memory.Account.Totals.{
  HasCost, IsShard, total_cost, total_costs-set, total_entries-set, total_cost-insert,
  length-insert, insert-IsShard,
}
use frankenphp_tiered_cache.Memory.Account.Invariant.{IsAccounted, IsValid}
use frankenphp_tiered_cache.Memory.Account.Drop.{found-lt}

-- How a reservation ends: with the bytes counted, or with the cache as it was and too little room.
abbrev pub Reserves : ℕ → MemoryCache → MemoryCache × Bool → Type 0
Reserves bytes c (d, true) = IsAccounted bytes d × (d ≡ record c { current = d.current })
Reserves bytes c (d, false) = (d ≡ c) × (c.max_memory < c.current + bytes)

pub try_reserve-Reserves :
    (bytes : ℕ) (c : MemoryCache)
    → IsValid c
    → bytes ≤ c.max_memory
    → Reserves bytes c (try_reserve bytes c)
unfolding try_reserve add64
try_reserve-Reserves bytes c v h = ground arith

-- An entry takes the place of one of the same cost.
pub put_entry-IsAccounted :
    (x i : ℕ) (k : Key) (e e' : MemoryEntry) (c : MemoryCache)
    → lookup k (shard_at c i) ≡ some e
    → e'.cost ≡ e.cost
    → HasCost (k, e')
    → IsAccounted x c
    → IsAccounted x (put_entry i k e' c)
unfolding put_entry
put_entry-IsAccounted x i k e e' c h same right v =
    let m = shard_at c i in
    let inside = found-lt c.shards i k e h in
    let costs = total_costs-set c.shards i (insert k e' m) inside in
    let counts = total_entries-set c.shards i (insert k e' m) inside in
    let cost : total_cost (insert k e' m) ≡ total_cost m =
      ground (arith, total_cost-insert k e' m) in
    let count : length (insert k e' m) ≡ length m = ground (arith, length-insert k e' m) in
    record {
      sharded = rw (length-set c.shards i (insert k e' m)) v.sharded;
      kept =
          All-set IsShard c.shards i (insert k e' m) v.kept
            (insert-IsShard k e' m right (All-get_or IsShard c.shards i [] v.kept (tt, tt)));
      accounted = omega arith;
      bounded = v.bounded;
      counted = omega arith;
      limited = v.limited;
      items_fit = v.items_fit;
    }

pub shard_for-lt :
    (env : Env) (c : MemoryCache) (k : Key)
    → 0 < length c.shards
    → shard_for env c k < length c.shards
shard_for-lt env c k h = omega arith

-- An access changes neither the cost nor the value of an entry.
pub access_keeps :
    (e : MemoryEntry) (clock : ℕ)
    → ((store_max_access_clock e clock).cost ≡ e.cost)
      × ((store_max_access_clock e clock).value ≡ e.value)
access_keeps e clock = ground arith

-- A new entry of the reserved cost is stored, in place of an old one or of none.
pub commit_set-IsValid :
    (env : Env) (k : Key) (value : Bytes) (expires_at : Option ℕ) (c : MemoryCache)
    → let cost = item_cost k value in
      let old = entry_at env c k in
      IsAccounted (cost - cost_at old) c → IsValid (commit_set env k value expires_at cost old c)
unfolding commit_set put_entry entry_at sub64 add64
commit_set-IsValid env k value expires_at c v =
    let cost = item_cost k value in
    let i = shard_for env c k in
    let m = shard_at c i in
    let e = new_entry c value expires_at cost in
    let plain : MemoryEntry = record {
      ref = c.next_ref;
      value = value;
      expires_at = expires_at;
      last_access = 0;
      cost = cost;
    } in
    let (same_cost, same_value) = access_keeps plain c.lru_clock in
    let inside = shard_for-lt env c k v.sharded in
    let costs = total_costs-set c.shards i (insert k e m) inside in
    let counts = total_entries-set c.shards i (insert k e m) inside in
    let total = total_cost-insert k e m in
    let count = length-insert k e m in
    record {
      sharded = rw (length-set c.shards i (insert k e m)) v.sharded;
      kept = All-set IsShard c.shards i (insert k e m) v.kept (
          insert-IsShard k e m (rw (same_cost, same_value))
            (All-get_or IsShard c.shards i [] v.kept (tt, tt)));
      accounted = ground arith;
      bounded = ground arith;
      counted = ground arith;
      limited = v.limited;
      items_fit = v.items_fit;
    }
