-- ===== src/Memory/Count.antt =====
-- `Increment` and `Decrement` of `MemoryCache` (`changeCounter`, internal/cache/memory/cache.go).
use frankenphp_tiered_cache.Base.{
  ℕ, ◌-◌, Bool, true, false, Option, none, some, ltb, leb, if◌then◌else◌, length,
}
use frankenphp_tiered_cache.Base.Int.{ℤ, pos}
use frankenphp_tiered_cache.Base.Dict.{Key}
use frankenphp_tiered_cache.Contract.{
  Bytes, Reply, foreign, success, failure, item_too_large, insufficient_memory, counter_overflow,
}
use frankenphp_tiered_cache.Counter.{counter_result, parse_int, format_int}
use frankenphp_tiered_cache.Memory.State.{
  Env, MemoryEntry, MemoryCache, is_expired, item_cost, shard_for, entry_at, drop_entry, called,
  now, try_reserve,
}
use frankenphp_tiered_cache.Memory.Ops.{
  Attempt, done, need, cost_at, commit_set, evicting_loop, attempt_fuel,
}

-- The error of `strconv.ParseInt`.
abbrev pub not_an_integer : Reply ℤ
not_an_integer = record { result = pos 0; error = some (foreign 0) }

-- The entry that counts, after an expired one is deleted.
abbrev pub live_found :
    Env → Key → MemoryCache → Option MemoryEntry → Option MemoryEntry × MemoryCache
live_found env key c none = (none, c)
live_found env key c (some e) =
    if is_expired e.expires_at (now env c)
    then (none, drop_entry (shard_for env c key) key e.cost (called c))
    else (some e, called c)

unfoldable pub live_entry : Env → Key → MemoryCache → Option MemoryEntry × MemoryCache
live_entry env key c = live_found env key c (entry_at env c key)

abbrev pub expires_of : Option MemoryEntry → Option ℕ
expires_of none = none
expires_of (some e) = e.expires_at

-- The number that an entry holds; a missing entry counts as 0.
abbrev pub counter_at : Option MemoryEntry → Option ℤ
counter_at none = some (pos 0)
counter_at (some e) = parse_int e.value.content

-- `[]byte(strconv.FormatInt(result, 10))`
abbrev pub encoded : Env → ℤ → Bytes
encoded env z = record { content = format_int z; cap = env.bytes_cap (length (format_int z)) }

abbrev pub count_after :
    Env → Key → ℤ → ℕ → Option MemoryEntry → MemoryCache × Bool → Attempt (Reply ℤ) × MemoryCache
count_after env key z cost old (c, true) =
    (done (success z), commit_set env key (encoded env z) (expires_of old) cost old c)
count_after env key z cost old (c, false) = (need (cost - cost_at old), c)

unfoldable pub store_counter :
    Env → Key → ℤ → Option MemoryEntry → MemoryCache → Attempt (Reply ℤ) × MemoryCache
store_counter env key z old c =
    let cost = item_cost key (encoded env z) in
    if ltb c.max_item_size cost
    then (done (failure (pos 0) item_too_large), c)
    else count_after env key z cost old
        (if leb cost (cost_at old) then (c, true) else try_reserve (cost - cost_at old) c)

abbrev pub change_to :
    Env → Key → Option MemoryEntry → MemoryCache → Option ℤ → Attempt (Reply ℤ) × MemoryCache
change_to env key old c none = (done (failure (pos 0) counter_overflow), c)
change_to env key old c (some z) = store_counter env key z old c

abbrev pub change_from :
    Env
    → Key
    → ℤ
    → Bool
    → Option MemoryEntry
    → MemoryCache
    → Option ℤ
    → Attempt (Reply ℤ) × MemoryCache
change_from env key value decrement old c none = (done not_an_integer, c)
change_from env key value decrement old c (some current) =
    change_to env key old c (counter_result current value decrement)

unfoldable pub change_entry :
    Env → Key → ℤ → Bool → Option MemoryEntry → MemoryCache → Attempt (Reply ℤ) × MemoryCache
change_entry env key value decrement old c =
    change_from env key value decrement old c (counter_at old)

-- One pass of the loop of `changeCounter`.
unfoldable pub counter_attempt :
    Env → Key → ℤ → Bool → MemoryCache → Attempt (Reply ℤ) × MemoryCache
counter_attempt env key value decrement c =
    let (old, d) = live_entry env key c in change_entry env key value decrement old d

unfoldable pub change_counter : Env → Key → ℤ → Bool → MemoryCache → Option (Reply ℤ × MemoryCache)
change_counter env key value decrement =
    evicting_loop env (counter_attempt env key value decrement)
      (failure (pos 0) insufficient_memory) attempt_fuel

unfoldable pub increment : Env → Key → ℤ → MemoryCache → Option (Reply ℤ × MemoryCache)
unfolding change_counter
increment env key value = change_counter env key value false

unfoldable pub decrement : Env → Key → ℤ → MemoryCache → Option (Reply ℤ × MemoryCache)
unfolding change_counter
decrement env key value = change_counter env key value true
