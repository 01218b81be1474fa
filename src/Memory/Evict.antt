-- ===== src/Memory/Evict.antt =====
-- Memory pressure (internal/cache/memory/cache.go): `purgeExpired`, `evictOneLRU`,
-- `tryEvictCandidate`, `evictFor` and `notifyEviction`. The locks serialise these steps; each is
-- run here without a competing writer.
use frankenphp_tiered_cache.Base.{
  ℕ, zero, suc, ◌+◌, ◌-◌, ◌*◌, ◌/◌, ◌%◌, Bool, true, false, ◌&&◌, Option, none, some, List, [], ◌∷◌,
  ◌==◌, ltb, leb, if◌then◌else◌, length, get_elem?,
}
use frankenphp_tiered_cache.Base.Word.{sign_bit, add64, sub64, mul64}
use frankenphp_tiered_cache.Base.Dict.{Key, lookup}
use frankenphp_tiered_cache.Memory.State.{
  Env, MemoryEntry, Entries, EvictionSummary, MemoryCache, is_expired, shard_at, drop_entry, called,
  now, exceeds,
}

-- A shard's map with the two counters that its purge changes.
pub record Purged : Type 0 where
  pub kept : Entries
  pub current : ℕ
  pub entries : ℕ

-- The loop of `purgeExpiredShard`: it visits every entry and deletes the expired ones.
unfoldable pub purge_entries : ℕ → Entries → ℕ → ℕ → Purged
purge_entries t [] cur n = record { kept = []; current = cur; entries = n }
purge_entries t ((key, e) ∷ m) cur n =
    let gone = is_expired e.expires_at t in
    let rest =
      purge_entries t m (if gone then sub64 cur e.cost else cur) (if gone then sub64 n 1 else n) in
    if gone then rest else record rest { kept = (key, e) ∷ rest.kept }

-- The shards with the two counters, after `purgeExpired` has visited them.
pub record PurgedAll : Type 0 where
  pub shards : List Entries
  pub current : ℕ
  pub entries : ℕ

unfoldable pub purge_shards : ℕ → List Entries → ℕ → ℕ → PurgedAll
purge_shards t [] cur n = record { shards = []; current = cur; entries = n }
purge_shards t (m ∷ ms) cur n =
    let p = purge_entries t m cur n in
    let rest = purge_shards t ms p.current p.entries in
    record rest { shards = p.kept ∷ rest.shards }

unfoldable pub purge_expired : ℕ → MemoryCache → MemoryCache
purge_expired t c =
    let p = purge_shards t c.shards c.current c.entries in
    record c { shards = p.shards; current = p.current; entries = p.entries }

pub record Candidate : Type 0 where
  pub shard : ℕ
  pub key : Key
  pub entry : MemoryEntry

abbrev pub as_candidate : ℕ → Option (Key × MemoryEntry) → Option Candidate
as_candidate i none = none
as_candidate i (some (key, e)) = some (record { shard = i; key = key; entry = e })

-- The first entry that a `range` over the map yields, if there is one.
unfoldable pub first_entry : Env → ℕ → ℕ → Entries → Option Candidate
first_entry env call i m = as_candidate i (get_elem? m (env.choose call % length m))

-- The older of the best candidate so far and a new one; a tie keeps the former.
abbrev pub older : Option Candidate → Candidate → Candidate
older none b = b
older (some a) b = if ltb b.entry.last_access a.entry.last_access then b else a

-- What an iteration of the sampling loop does with the entry that it finds.
abbrev pub note_sample : Option Candidate → Option Candidate → Option Candidate
note_sample oldest none = oldest
note_sample oldest (some b) = some (older oldest b)

abbrev pub count_sample : ℕ → Option Candidate → ℕ
count_sample sampled none = sampled
count_sample sampled (some _) = suc sampled

-- The sampling loop of `evictOneLRU`, on the attempts left.
unfoldable pub sample : Env → MemoryCache → ℕ → ℕ → ℕ → Option Candidate → Option Candidate × ℕ
sample env c zero call sampled oldest = (oldest, call)
sample env c (suc left) call sampled oldest =
    let i = env.choose call % length c.shards in
    let found = first_entry env (call + 1) i (shard_at c i) in
    let rest =
      sample env c left (call + 2) (count_sample sampled found) (note_sample oldest found) in
    if ltb sampled c.lru_samples then rest else (oldest, call)

abbrev pub or_else : Option Candidate → Option Candidate → Option Candidate
or_else none rest = rest
or_else (some a) rest = some a

-- The fallback loop: the first entry of the first shard that holds one.
unfoldable pub scan : Env → ℕ → ℕ → List Entries → Option Candidate
scan env call i [] = none
scan env call i (m ∷ ms) = or_else (first_entry env call i m) (scan env (call + 1) (suc i) ms)

pub record EvictionResult : Type 0 where
  pub removed : Bool
  pub live : Bool
  pub bytes : ℕ

abbrev pub nothing_evicted : EvictionResult
nothing_evicted = record { removed = false; live = false; bytes = 0 }

abbrev pub evict_current :
    Env → Candidate → MemoryEntry → MemoryCache → EvictionResult × MemoryCache
evict_current env a e c = (
  record {
    removed = true;
    live = if is_expired e.expires_at (now env c) then false else true;
    bytes = e.cost;
  },
  drop_entry a.shard a.key e.cost (called c),
)

-- The entry is dropped only if the map still holds the very entry that was sampled.
abbrev pub evict_found :
    Env → Candidate → MemoryCache → Option MemoryEntry → EvictionResult × MemoryCache
evict_found env a c none = (nothing_evicted, c)
evict_found env a c (some e) =
    if e.ref == a.entry.ref then evict_current env a e c else (nothing_evicted, c)

unfoldable pub try_evict_candidate : Env → Candidate → MemoryCache → EvictionResult × MemoryCache
try_evict_candidate env a c = evict_found env a c (lookup a.key (shard_at c a.shard))

abbrev pub attempts : MemoryCache → ℕ
attempts c =
    if ltb (c.lru_samples * 4) (length c.shards) then length c.shards else c.lru_samples * 4

-- The candidate of `evictOneLRU`, with the number of the next environment call.
abbrev pub or_scan : Env → MemoryCache → ℕ → Option Candidate → Option Candidate × ℕ
or_scan env c call none = (scan env call 0 c.shards, call + length c.shards)
or_scan env c call (some a) = (some a, call)

unfoldable pub choose_candidate : Env → MemoryCache → Option Candidate × ℕ
choose_candidate env c =
    let (found, call) = sample env c (attempts c) c.calls 0 none in or_scan env c call found

abbrev pub evict_chosen : Env → Option Candidate → MemoryCache → EvictionResult × MemoryCache
evict_chosen env none c = (nothing_evicted, c)
evict_chosen env (some a) c = try_evict_candidate env a c

unfoldable pub evict_one_lru : Env → MemoryCache → EvictionResult × MemoryCache
evict_one_lru env c =
    let (found, call) = choose_candidate env c in evict_chosen env found (record c { calls = call })

abbrev pub max_eviction_retries : ℕ
max_eviction_retries = 3

-- `summary.Entries++` and `summary.Bytes += result.bytes` for a live entry with an observer.
abbrev pub tally : Bool → EvictionResult → EvictionSummary → EvictionSummary
tally observer r s =
    if r.live && observer
    then record { entries = s.entries + 1; bytes = add64 s.bytes r.bytes }
    else s

-- How many failed evictions stand in a row after one more.
abbrev pub failures : ℕ → ℕ → EvictionResult → ℕ → ℕ
failures before after r failed = if r.removed then 0 else if ltb after before then 0 else suc failed

-- The loop of `evictFor`; `none` means that the fuel ran out.
unfoldable pub evict_loop :
    Env → ℕ → ℕ → ℕ → EvictionSummary → MemoryCache → Option (EvictionSummary × MemoryCache)
evict_loop env zero target failed s c = none
evict_loop env (suc fuel) target failed s c =
    let (r, d) = evict_one_lru env c in
    let failed' = failures c.current d.current r failed in
    let s' = if r.removed then tally c.observer r s else s in
    let rest = evict_loop env fuel target failed' s' d in
    let stop = some (s', d) in
    if exceeds c.current target
    then if leb max_eviction_retries failed' then stop else rest
    else some (s, c)

-- `c.maxMemory * evictionTargetPct / 100` as an `int64`; a negative one counts as 0, to which the
-- code raises the target.
unfoldable pub low_water : ℕ → ℕ
low_water max_memory = let p = mul64 max_memory 95 in if ltb p sign_bit then p / 100 else 0

-- The `target` of `evictFor`; a negative difference counts as 0 in the same way.
unfoldable pub eviction_target : ℕ → ℕ → ℕ
eviction_target max_memory required =
    let target = max_memory - required in
    if ltb (low_water max_memory) target then low_water max_memory else target

abbrev pub no_evictions : EvictionSummary
no_evictions = record { entries = 0; bytes = 0 }

-- `evictFor` returns whether there is room now, and the live entries that it evicted.
pub record Room : Type 0 where
  pub room : Bool
  pub summary : EvictionSummary
  pub cache : MemoryCache

abbrev pub room_after : ℕ → Option (EvictionSummary × MemoryCache) → Option Room
room_after required none = none
room_after required (some (s, c)) = some (record {
  room = if exceeds (add64 c.current required) c.max_memory then false else true;
  summary = s;
  cache = c;
})

-- One pass for each entry, and the passes that may fail.
unfoldable pub eviction_fuel : List Entries → ℕ
eviction_fuel [] = 4
eviction_fuel (m ∷ ms) = length m + eviction_fuel ms

unfoldable pub evict_for : Env → ℕ → MemoryCache → Option Room
evict_for env required c =
    let d = purge_expired (now env c) (called c) in
    let evicted = room_after required (
      evict_loop env (eviction_fuel d.shards) (eviction_target c.max_memory required) 0 no_evictions
        d) in
    if leb required 0
    then some (record { room = true; summary = no_evictions; cache = c })
    else if exceeds (add64 c.current required) c.max_memory
    then evicted
    else some (record { room = true; summary = no_evictions; cache = c })

unfoldable pub notify_eviction : EvictionSummary → MemoryCache → MemoryCache
notify_eviction s c =
    if c.observer then if s.entries == 0 then c else record c { evictions = s ∷ c.evictions } else c
