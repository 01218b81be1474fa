-- ===== src/Memory/Account/Drop.antt =====
-- The accounting when an entry is deleted.
use frankenphp_tiered_cache.Base.{
  ℕ, suc, zero, ◌<◌, ◌≡◌, some, List, [], ◌∷◌, arith, length, get_or, All-set, All-get_or,
  length-set,
}
use frankenphp_tiered_cache.Base.Word.{sub64}
use frankenphp_tiered_cache.Base.Dict.{Key, lookup, erase, length-erase}
use frankenphp_tiered_cache.Memory.State.{MemoryEntry, Entries, MemoryCache, shard_at, drop_entry}
use frankenphp_tiered_cache.Memory.Account.Totals.{
  IsShard, total_costs-set, total_entries-set, total_cost-erase, erase-IsShard,
}
use frankenphp_tiered_cache.Memory.Account.Invariant.{IsAccounted}

-- A key is found only in a shard that exists.
pub found-lt :
    (ms : List Entries) (i : ℕ) (k : Key) (e : MemoryEntry)
    → lookup k (get_or ms i []) ≡ some e
    → i < length ms
unfolding lookup
found-lt [] i k e h = ground arith
found-lt (m ∷ ms) zero k e h = omega arith
found-lt (m ∷ ms) (suc i) k e h = omega (arith, found-lt ms i k e h)

pub drop_entry-IsAccounted :
    (x i : ℕ) (k : Key) (e : MemoryEntry) (c : MemoryCache)
    → lookup k (shard_at c i) ≡ some e
    → IsAccounted x c
    → IsAccounted x (drop_entry i k e.cost c)
unfolding drop_entry sub64
drop_entry-IsAccounted x i k e c h v =
    let m = shard_at c i in
    let inside = found-lt c.shards i k e h in
    let costs = total_costs-set c.shards i (erase k m) inside in
    let counts = total_entries-set c.shards i (erase k m) inside in
    let cost = total_cost-erase k e m h in
    let count = length-erase k e m h in
    record {
      sharded = rw (length-set c.shards i (erase k m)) v.sharded;
      kept =
          All-set IsShard c.shards i (erase k m) v.kept
            (erase-IsShard k m (All-get_or IsShard c.shards i [] v.kept (tt, tt)));
      accounted = omega arith;
      bounded = omega arith;
      counted = omega arith;
      limited = v.limited;
      items_fit = v.items_fit;
    }
