-- ===== src/Memory/Account/Choose.antt =====
-- The choice of `evictOneLRU` (internal/cache/memory/cache.go).
use frankenphp_tiered_cache.Base.{
  ℕ, suc, zero, ◌+◌, ◌%◌, ◌<◌, ◌≡◌, refl, Option, none, some, List, [], ◌∷◌, arith, length, get_or,
  get_elem?, All, All-get_or, ltb, ltb→lt, Bool-cases, Option-cases, inl, inr,
}
use frankenphp_tiered_cache.Base.Dict.{Key, lookup, key_eq_iff, Distinct}
use frankenphp_tiered_cache.Memory.State.{Env, MemoryEntry, Entries, MemoryCache, shard_at}
use frankenphp_tiered_cache.Memory.Evict.{
  Candidate, first_entry, note_sample, count_sample, sample, scan, choose_candidate, or_scan,
  attempts,
}
use frankenphp_tiered_cache.Memory.Account.Totals.{IsShard, total_entries}

pub lookup-get_elem? :
    (m : Entries) (j : ℕ) (k : Key) (e : MemoryEntry)
    → Distinct m
    → get_elem? m j ≡ some (k, e)
    → lookup k m ≡ some e
unfolding lookup
lookup-get_elem? [] j k e d h = ground arith
lookup-get_elem? ((i, f) ∷ m) zero k e d h = ground (arith, key_eq_iff i k)
lookup-get_elem? ((i, f) ∷ m) (suc j) k e d h =
    ground (arith, key_eq_iff i k, lookup-get_elem? m j k e d.1 h)

get_elem?_total :
    (m : Entries) (j : ℕ) → j < length m → (p : Key × MemoryEntry) × (get_elem? m j ≡ some p)
get_elem?_total [] j h = elim h [ ]
get_elem?_total (p ∷ m) zero h = (p, refl)
get_elem?_total (p ∷ m) (suc j) h = get_elem?_total m j (omega arith)

-- A candidate that the cache holds.
abbrev pub IsCandidate : MemoryCache → Option Candidate → Type 0
IsCandidate c none = Unit
IsCandidate c (some a) = lookup a.key (shard_at c a.shard) ≡ some a.entry

first_entry-IsCandidate :
    (env : Env) (call i : ℕ) (c : MemoryCache)
    → All IsShard c.shards
    → IsCandidate c (first_entry env call i (shard_at c i))
unfolding first_entry
first_entry-IsCandidate env call i c s =
    let m = shard_at c i in
    let d = (All-get_or IsShard c.shards i [] s (tt, tt)).0 in
    elim (Option-cases (get_elem? m (env.choose call % length m))) [
      | inl empty ↦ rw empty tt
      | inr ((k, e), found) ↦ rw found (lookup-get_elem? m (env.choose call % length m) k e d found)
    ]

note_sample-IsCandidate :
    (c : MemoryCache) (a b : Option Candidate)
    → IsCandidate c a
    → IsCandidate c b
    → IsCandidate c (note_sample a b)
note_sample-IsCandidate c a none h k = h
note_sample-IsCandidate c none (some b) h k = k
note_sample-IsCandidate c (some a) (some b) h k = ground arith

sample-IsCandidate :
    (env : Env) (c : MemoryCache) (left call sampled : ℕ) (a : Option Candidate)
    → All IsShard c.shards
    → IsCandidate c a
    → IsCandidate c (sample env c left call sampled a).0
unfolding sample
sample-IsCandidate env c zero call sampled a s h = h
sample-IsCandidate env c (suc left) call sampled a s h =
    let i = env.choose call % length c.shards in
    let found = first_entry env (call + 1) i (shard_at c i) in
    let ih =
      sample-IsCandidate env c left (call + 2) (count_sample sampled found) (note_sample a found) s
        (note_sample-IsCandidate c a found h (first_entry-IsCandidate env (call + 1) i c s)) in
    elim (Bool-cases (ltb sampled c.lru_samples)) [
      | inl more ↦ rw more ih
      | inr enough ↦ rw enough h
    ]

first_entry_found :
    (env : Env) (call i : ℕ) (m : Entries)
    → 0 < length m
    → Distinct m
    → (a : Candidate) × (first_entry env call i m ≡ some a)
      × (a.shard ≡ i)
      × (lookup a.key m ≡ some a.entry)
unfolding first_entry
first_entry_found env call i m h d =
    let j = env.choose call % length m in
    let ((k, e), found) = get_elem?_total m j (omega arith) in
    (record { shard = i; key = k; entry = e }, rw found, refl, lookup-get_elem? m j k e d found)

first_entry_empty :
    (env : Env) (call i : ℕ) (m : Entries) → length m ≡ 0 → first_entry env call i m ≡ none
unfolding first_entry
first_entry_empty env call i [] h = refl
first_entry_empty env call i (p ∷ m) h = absurd (omega arith)

-- The scan finds a stored entry in shards that hold one.
scan_found :
    (env : Env) (call i : ℕ) (ms : List Entries)
    → All IsShard ms
    → 0 < total_entries ms
    → (a : Candidate) × (j : ℕ) × (scan env call i ms ≡ some a)
      × (a.shard ≡ i + j)
      × (lookup a.key (get_or ms j []) ≡ some a.entry)
unfolding scan
scan_found env call i [] s h = absurd (omega arith)
scan_found env call i (m ∷ ms) s h = elim (Bool-cases (ltb 0 (length m))) [
  | inl full ↦
      let (a, found, at, stands) =
        first_entry_found env call i m (ltb→lt 0 (length m) full) s.0.0 in
      (a, 0, rw found, omega arith, stands)
  | inr empty ↦
      let none_here = first_entry_empty env call i m (ground arith) in
      let (a, j, found, at, stands) = scan_found env (call + 1) (suc i) ms s.1 (ground arith) in
      (a, suc j, rw none_here found, omega arith, stands)
]

-- The candidate is the sampled one, or one that the scan finds.
or_scan_found :
    (env : Env) (c : MemoryCache) (call : ℕ) (o : Option Candidate)
    → IsCandidate c o
    → All IsShard c.shards
    → 0 < total_entries c.shards
    → (a : Candidate) × ((or_scan env c call o).0 ≡ some a)
      × (lookup a.key (shard_at c a.shard) ≡ some a.entry)
or_scan_found env c call none good s h =
    let (b, j, found, at, stands) = scan_found env call 0 c.shards s h in
    let here : b.shard ≡ j = omega arith in (b, found, rw here stands)
or_scan_found env c call (some a) good s h = (a, refl, good)

-- `evictOneLRU` has a stored entry to evict whenever the cache holds one.
pub choose_candidate_found :
    (env : Env) (c : MemoryCache)
    → All IsShard c.shards
    → 0 < total_entries c.shards
    → (a : Candidate) × ((choose_candidate env c).0 ≡ some a)
      × (lookup a.key (shard_at c a.shard) ≡ some a.entry)
unfolding choose_candidate
choose_candidate_found env c s h =
    let r = sample env c (attempts c) c.calls 0 none in
    or_scan_found env c r.1 r.0 (sample-IsCandidate env c (attempts c) c.calls 0 none s tt) s h
