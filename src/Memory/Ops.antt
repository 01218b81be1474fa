-- ===== src/Memory/Ops.antt =====
-- The operations of `MemoryCache` on single keys (internal/cache/memory/cache.go): `Get`, `Add`,
-- `Set`, `Forever`, `Forget`, `Touch`, `Flush`. The code under a shard's lock is one function; a
-- loop that evicts between two attempts takes fuel, and answers `none` when that runs out.
use frankenphp_tiered_cache.Base.{
  ℕ, zero, suc, ◌+◌, ◌-◌, Bool, true, false, Option, none, some, [], ◌==◌, ltb, leb, if◌then◌else◌,
  length, replicate,
}
use frankenphp_tiered_cache.Base.Word.{add64, sub64}
use frankenphp_tiered_cache.Base.Int.{pos_part}
use frankenphp_tiered_cache.Base.Dict.{Key, lookup}
use frankenphp_tiered_cache.Contract.{
  Bytes, Duration, Item, Reply, success, failure, invalid_ttl, nil_value, item_too_large,
  not_positive,
}
use frankenphp_tiered_cache.Memory.State.{
  Env, MemoryEntry, MemoryCache, is_expired, item_cost, store_max_access_clock, shard_for, shard_at,
  entry_at, drop_entry, put_entry, new_entry, allocated, called, now, try_reserve,
}
use frankenphp_tiered_cache.Memory.Evict.{Room, evict_for, notify_eviction}

abbrev pub delete_found : ℕ → Key → MemoryEntry → ℕ → MemoryCache → Option MemoryEntry → MemoryCache
delete_found i key expected t c none = c
delete_found i key expected t c (some e) =
    if e.ref == expected.ref
    then if is_expired e.expires_at t then drop_entry i key e.cost c else c
    else c

-- `deleteExpired`: the entry goes if the map still holds it and it is expired.
unfoldable pub delete_expired : ℕ → Key → MemoryEntry → ℕ → MemoryCache → MemoryCache
delete_expired i key expected t c = delete_found i key expected t c (lookup key (shard_at c i))

-- The remaining time of an entry that is not expired; 0 means no expiration.
abbrev pub remaining_ttl : Option ℕ → ℕ → ℕ
remaining_ttl none t = 0
remaining_ttl (some d) t = d - t

abbrev pub hit : ℕ → ℕ → Key → MemoryEntry → MemoryCache → Option Item × MemoryCache
hit t i key e c = (
  some (record { value = e.value; ttl = remaining_ttl e.expires_at t }),
  put_entry i key (store_max_access_clock e c.lru_clock) c,
)

abbrev pub get_found : Env → Key → MemoryCache → Option MemoryEntry → Option Item × MemoryCache
get_found env key c none = (none, c)
get_found env key c (some e) =
    if is_expired e.expires_at (now env c)
    then (none, delete_expired (shard_for env c key) key e (now env c) (called c))
    else hit (now env c) (shard_for env c key) key e (called c)

-- `Get`; its error is always nil.
unfoldable pub get : Env → Key → MemoryCache → Option Item × MemoryCache
get env key c = get_found env key c (entry_at env c key)

abbrev pub cost_at : Option MemoryEntry → ℕ
cost_at none = 0
cost_at (some e) = e.cost

-- How an attempt under the shard's lock ends: the loop returns, or evicts that many bytes first.
pub data Attempt (A : Type 0) : Type 0 where
  done : A → Attempt A
  need : ℕ → Attempt A

-- `c.entries.Add(1)` if no entry was replaced.
abbrev pub count_new : Option MemoryEntry → ℕ → ℕ
count_new none n = add64 n 1
count_new (some _) n = n

-- The branch of `set` that stores: `old` is the replaced entry.
unfoldable pub commit_set :
    Env → Key → Bytes → Option ℕ → ℕ → Option MemoryEntry → MemoryCache → MemoryCache
commit_set env key value expires_at cost old c =
    let i = shard_for env c key in
    let d = put_entry i key (new_entry c value expires_at cost) (allocated c) in
    record d {
      entries = count_new old d.entries;
      current = if ltb cost (cost_at old) then sub64 d.current (cost_at old - cost) else d.current;
    }

-- `expiresAt` of `set`, for which only a cache with expiration reads the clock.
abbrev pub deadline : Env → Option ℕ → MemoryCache → Option ℕ × MemoryCache
deadline env none c = (none, c)
deadline env (some ttl) c = (some (now env c + ttl), called c)

abbrev pub store_after :
    Env
    → Key
    → Bytes
    → Option ℕ
    → ℕ
    → Option MemoryEntry
    → MemoryCache × Bool
    → Attempt Bool × MemoryCache
store_after env key value ttl cost old (c, true) =
    let (expires_at, d) = deadline env ttl c in
    (done true, commit_set env key value expires_at cost old d)
store_after env key value ttl cost old (c, false) = (need (cost - cost_at old), c)

-- One pass of the loop of `set`; `ttl` is `none` for an entry without expiration. A cost is the
-- size of an object in memory, so that the difference of two costs is exact.
unfoldable pub set_attempt : Env → Key → Bytes → Option ℕ → MemoryCache → Attempt Bool × MemoryCache
set_attempt env key value ttl c =
    let cost = item_cost key value in
    let old = entry_at env c key in
    store_after env key value ttl cost old
      (if leb cost (cost_at old) then (c, true) else try_reserve (cost - cost_at old) c)

-- After `evictFor`: report the evictions, and try again if there is room.
abbrev pub after_eviction :
    {A : Type 0}
    → (MemoryCache → Option (A × MemoryCache))
    → A
    → Option Room
    → Option (A × MemoryCache)
after_eviction again full none = none
after_eviction again full (some r) =
    if r.room
    then again (notify_eviction r.summary r.cache)
    else some (full, notify_eviction r.summary r.cache)

abbrev pub after_attempt :
    {A : Type 0}
    → Env
    → (MemoryCache → Option (A × MemoryCache))
    → A
    → Attempt A × MemoryCache
    → Option (A × MemoryCache)
after_attempt env again full (done r, d) = some (r, d)
after_attempt env again full (need bytes, d) = after_eviction again full (evict_for env bytes d)

-- The loops of `set`, `Add` and `changeCounter`: attempt, evict, notify, and try again.
unfoldable pub evicting_loop :
    {A : Type 0}
    → Env
    → (MemoryCache → Attempt A × MemoryCache)
    → A
    → ℕ
    → MemoryCache
    → Option (A × MemoryCache)
evicting_loop env attempt full zero c = none
evicting_loop env attempt full (suc fuel) c =
    after_attempt env (λ d. evicting_loop env attempt full fuel d) full (attempt c)

-- Without a competing writer three attempts are enough.
abbrev pub attempt_fuel : ℕ
attempt_fuel = 3

-- The loop's answer with a nil error.
abbrev pub replied : Option (Bool × MemoryCache) → Option (Reply Bool × MemoryCache)
replied none = none
replied (some (b, c)) = some (success b, c)

unfoldable pub store :
    Env → Key → Bytes → Option ℕ → MemoryCache → Option (Reply Bool × MemoryCache)
store env key value ttl c =
    if ltb c.max_item_size (item_cost key value)
    then some (failure false item_too_large, c)
    else replied (evicting_loop env (set_attempt env key value ttl) false attempt_fuel c)

-- `Set`; a nil value is `none`.
unfoldable pub set_value :
    Env → Key → Option Bytes → Duration → MemoryCache → Option (Reply Bool × MemoryCache)
set_value env key none ttl c =
    some (failure false (if not_positive ttl then invalid_ttl else nil_value), c)
set_value env key (some value) ttl c =
    if not_positive ttl
    then some (failure false invalid_ttl, c)
    else store env key value (some (pos_part ttl)) c

unfoldable pub forever : Env → Key → Option Bytes → MemoryCache → Option (Reply Bool × MemoryCache)
forever env key none c = some (failure false nil_value, c)
forever env key (some value) c = store env key value none c

-- The branch of `Add` for an absent key.
unfoldable pub add_absent : Env → Key → Bytes → ℕ → ℕ → MemoryCache → Attempt Bool × MemoryCache
add_absent env key value expires_at cost c =
    let (d, reserved) = try_reserve cost c in
    let i = shard_for env d key in
    let e = put_entry i key (new_entry d value (some expires_at) cost) (allocated d) in
    if reserved then (done true, record e { entries = add64 e.entries 1 }) else (need cost, d)

abbrev pub add_found :
    Env → Key → Bytes → ℕ → ℕ → MemoryCache → Option MemoryEntry → Attempt Bool × MemoryCache
add_found env key value ttl t c none = add_absent env key value (t + ttl) (item_cost key value) c
add_found env key value ttl t c (some old) =
    if is_expired old.expires_at t
    then add_absent env key value (t + ttl) (item_cost key value)
        (drop_entry (shard_for env c key) key old.cost c)
    else (done false, c)

-- One pass of the loop of `Add`.
unfoldable pub add_attempt : Env → Key → Bytes → ℕ → MemoryCache → Attempt Bool × MemoryCache
add_attempt env key value ttl c =
    add_found env key value ttl (now env c) (called c) (entry_at env c key)

unfoldable pub add :
    Env → Key → Option Bytes → Duration → MemoryCache → Option (Reply Bool × MemoryCache)
add env key none ttl c =
    some (failure false (if not_positive ttl then invalid_ttl else nil_value), c)
add env key (some value) ttl c =
    if not_positive ttl
    then some (failure false invalid_ttl, c)
    else if ltb c.max_item_size (item_cost key value)
    then some (failure false item_too_large, c)
    else replied (evicting_loop env (add_attempt env key value (pos_part ttl)) false attempt_fuel c)

abbrev pub forget_found : Env → Key → MemoryCache → Option MemoryEntry → Bool × MemoryCache
forget_found env key c none = (false, c)
forget_found env key c (some e) = (
  if is_expired e.expires_at (now env c) then false else true,
  drop_entry (shard_for env c key) key e.cost (called c),
)

-- `Forget`; its error is always nil.
unfoldable pub forget : Env → Key → MemoryCache → Bool × MemoryCache
forget env key c = forget_found env key c (entry_at env c key)

abbrev pub touched : ℕ → ℕ → ℕ → Key → MemoryEntry → MemoryCache → Bool × MemoryCache
touched t ttl i key e c =
    if is_expired e.expires_at t then (false, drop_entry i key e.cost c) else (
      true,
      put_entry i key
          (store_max_access_clock (record e { expires_at = some (t + ttl) }) c.lru_clock) c,
    )

abbrev pub touch_found : Env → Key → ℕ → MemoryCache → Option MemoryEntry → Bool × MemoryCache
touch_found env key ttl c none = (false, c)
touch_found env key ttl c (some e) = touched (now env c) ttl (shard_for env c key) key e (called c)

unfoldable pub touch : Env → Key → Duration → MemoryCache → Reply Bool × MemoryCache
touch env key ttl c =
    let (b, d) = touch_found env key (pos_part ttl) c (entry_at env c key) in
    if not_positive ttl then (failure false invalid_ttl, c) else (success b, d)

-- `Flush`; it always reports true.
unfoldable pub flush : MemoryCache → Bool × MemoryCache
flush c = (true, record c { shards = replicate (length c.shards) []; current = 0; entries = 0 })
