-- ===== src/Memory/State.antt =====
-- The state of `MemoryCache` (internal/cache/memory/cache.go) and the steps that its operations
-- share. A shard is the association list of its map. One call that the program makes of its
-- environment (the clock, the random numbers, the iteration order of a map, the hash, the
-- allocator) is a value of `Env`; `calls` numbers the calls, so that any run of the environment
-- is some `Env`. A pointer to an entry is its `ref`.
use frankenphp_tiered_cache.Base.{
  ℕ, suc, ◌+◌, ◌%◌, Bool, true, false, ◌&&◌, Option, none, some, List, [], leb, ltb, if◌then◌else◌,
  length, get_or, set,
}
use frankenphp_tiered_cache.Base.Word.{sign_bit, add64, sub64}
use frankenphp_tiered_cache.Base.Dict.{Key, lookup, insert, erase}
use frankenphp_tiered_cache.Contract.{Bytes}

pub record Env : Type 0 where
  -- `c.now()`, in nanoseconds, as the n-th call answers it.
  pub now : ℕ → ℕ
  -- `rand.IntN` before it is reduced, and the first key of a map iteration.
  pub choose : ℕ → ℕ
  -- `maphash.String(c.hashSeed, key)`
  pub hash : Key → ℕ
  -- The capacity that `[]byte(s)` gets for a string of this length.
  pub bytes_cap : ℕ → ℕ

-- `expires_at` is `none` for the zero `time.Time`.
pub record MemoryEntry : Type 0 where
  pub ref : ℕ
  pub value : Bytes
  pub expires_at : Option ℕ
  pub last_access : ℕ
  pub cost : ℕ

abbrev pub Entries : Type 0
Entries = List (Key × MemoryEntry)

pub record EvictionSummary : Type 0 where
  pub entries : ℕ
  pub bytes : ℕ

-- `observer` says whether one is configured, and `evictions` are the calls that it received.
pub record MemoryCache : Type 0 where
  pub shards : List Entries
  pub max_memory : ℕ
  pub max_item_size : ℕ
  pub observer : Bool
  pub current : ℕ
  pub entries : ℕ
  pub lru_clock : ℕ
  pub lru_samples : ℕ
  pub evictions : List EvictionSummary
  pub calls : ℕ
  pub next_ref : ℕ

-- `isExpired`
abbrev pub is_expired : Option ℕ → ℕ → Bool
is_expired none now = false
is_expired (some t) now = leb t now

-- `itemCost`
abbrev pub item_cost : Key → Bytes → ℕ
item_cost key value = length key + value.cap

-- `storeMaxAccessClock`, without a competing writer.
abbrev pub store_max_access_clock : MemoryEntry → ℕ → MemoryEntry
store_max_access_clock e clock =
    if leb clock e.last_access then e else record e { last_access = clock }

-- `shardFor`, as an index into the shards.
abbrev pub shard_for : Env → MemoryCache → Key → ℕ
shard_for env c key = env.hash key % length c.shards

abbrev pub shard_at : MemoryCache → ℕ → Entries
shard_at c i = get_or c.shards i []

-- `shard.entries[key]`
unfoldable pub entry_at : Env → MemoryCache → Key → Option MemoryEntry
entry_at env c key = lookup key (shard_at c (shard_for env c key))

-- What `c.now()` answers next, and the state after that call.
abbrev pub now : Env → MemoryCache → ℕ
now env c = env.now c.calls

abbrev pub called : MemoryCache → MemoryCache
called c = record c { calls = c.calls + 1 }

-- `delete(shard.entries, key)` with `c.current.Add(-cost)` and `c.entries.Add(-1)`.
unfoldable pub drop_entry : ℕ → Key → ℕ → MemoryCache → MemoryCache
drop_entry i key cost c = record c {
  shards = set c.shards i (erase key (shard_at c i));
  current = sub64 c.current cost;
  entries = sub64 c.entries 1;
}

-- `shard.entries[key] = entry`
unfoldable pub put_entry : ℕ → Key → MemoryEntry → MemoryCache → MemoryCache
put_entry i key e c = record c { shards = set c.shards i (insert key e (shard_at c i)) }

-- `&memoryEntry{...}` followed by `recordAccess`.
abbrev pub new_entry : MemoryCache → Bytes → Option ℕ → ℕ → MemoryEntry
new_entry c value expires_at cost =
    store_max_access_clock
      (record {
        ref = c.next_ref;
        value = value;
        expires_at = expires_at;
        last_access = 0;
        cost = cost;
      })
      c.lru_clock

abbrev pub allocated : MemoryCache → MemoryCache
allocated c = record c { next_ref = suc c.next_ref }

-- `a > b` for an `int64` bit pattern `a`, which reads as negative from `sign_bit` on, and `0 ≤ b`.
abbrev pub exceeds : ℕ → ℕ → Bool
exceeds a b = ltb a sign_bit && ltb b a

-- `tryReserve`, without a competing writer.
unfoldable pub try_reserve : ℕ → MemoryCache → MemoryCache × Bool
try_reserve bytes c =
    if leb bytes 0
    then (c, true)
    else if exceeds (add64 c.current bytes) c.max_memory
    then (c, false)
    else (record c { current = add64 c.current bytes }, true)
