-- ===== src/Memory/Account/Purge.antt =====
-- `purgeExpired` (internal/cache/memory/cache.go) and the accounting.
use frankenphp_tiered_cache.Base.{
  ℕ, suc, zero, ◌+◌, ◌%◌, ◌<◌, ◌≤◌, ◌≡◌, refl, Option, none, some, List, [], ◌∷◌, arith, length,
  get_or, All, if◌then◌else◌, Bool-cases, ◌⊎◌, inl, inr,
}
use frankenphp_tiered_cache.Base.Word.{word_mod, sub64}
use frankenphp_tiered_cache.Base.Dict.{Key, lookup, key_eq_iff, Distinct}
use frankenphp_tiered_cache.Memory.State.{MemoryEntry, Entries, MemoryCache, is_expired, shard_at}
use frankenphp_tiered_cache.Memory.Evict.{purge_entries, purge_shards, purge_expired}
use frankenphp_tiered_cache.Memory.Account.Totals.{IsShard, total_cost, total_costs, total_entries}
use frankenphp_tiered_cache.Memory.Lookup.{Shrinks}
use frankenphp_tiered_cache.Memory.Account.Invariant.{IsValid, SameLimits}

-- What is left of an entry at a time.
abbrev pub unexpired : ℕ → Option MemoryEntry → Option MemoryEntry
unexpired t none = none
unexpired t (some e) = if is_expired e.expires_at t then none else some e

pub lookup-purge_entries :
    (t : ℕ) (k : Key) (m : Entries) (cur n : ℕ)
    → Distinct m
    → lookup k (purge_entries t m cur n).kept ≡ unexpired t (lookup k m)
unfolding purge_entries lookup
lookup-purge_entries t k [] cur n d = refl
lookup-purge_entries t k ((j, e) ∷ m) cur n d = elim (Bool-cases (is_expired e.expires_at t)) [
  | inl gone ↦
      rw (gone, lookup-purge_entries t k m (sub64 cur e.cost) (sub64 n 1) d.1)
        (ground (arith, key_eq_iff j k))
  | inr stays ↦ rw (stays, lookup-purge_entries t k m cur n d.1) (ground (arith, key_eq_iff j k))
]

-- What a purge keeps is a map, with the right costs.
purge_entries-IsShard :
    (t : ℕ) (m : Entries) (cur n : ℕ) → IsShard m → IsShard (purge_entries t m cur n).kept
unfolding purge_entries
purge_entries-IsShard t [] cur n s = s
purge_entries-IsShard t ((j, e) ∷ m) cur n s = elim (Bool-cases (is_expired e.expires_at t)) [
  | inl gone ↦ rw gone (purge_entries-IsShard t m (sub64 cur e.cost) (sub64 n 1) (s.0.1, s.1.1))
  | inr stays ↦
      let (d, a) = purge_entries-IsShard t m cur n (s.0.1, s.1.1) in
      rw stays ((ground (arith, lookup-purge_entries t j m cur n s.0.1), d), (s.1.0, a))
]

-- `cur` and `n` count a shard's entries beside `x` other bytes and `y` other entries.
purge_entries_counts :
    (t : ℕ) (m : Entries) (cur n x y : ℕ)
    → cur ≡ total_cost m + x
    → cur < word_mod
    → n ≡ (length m + y) % word_mod
    → let p = purge_entries t m cur n in
      (p.current ≡ total_cost p.kept + x)
      × (p.entries ≡ (length p.kept + y) % word_mod)
      × (p.current ≤ cur)
      × (length p.kept ≤ length m)
unfolding purge_entries sub64
purge_entries_counts t [] cur n x y h l k = omega arith
purge_entries_counts t ((j, e) ∷ m) cur n x y h l k =
    elim (Bool-cases (is_expired e.expires_at t)) [
      | inl gone ↦ rw gone (
          let r =
            purge_entries_counts t m (sub64 cur e.cost) (sub64 n 1) x y (omega arith) (omega arith)
              (omega arith) in
          omega arith)
      | inr stays ↦ rw stays (
          let r =
            purge_entries_counts t m cur n (e.cost + x) (1 + y) (omega arith) l (omega arith) in
          omega arith)
    ]

purge_shards_counts :
    (t : ℕ) (ms : List Entries) (cur n x y : ℕ)
    → All IsShard ms
    → cur ≡ total_costs ms + x
    → cur < word_mod
    → n ≡ (total_entries ms + y) % word_mod
    → let p = purge_shards t ms cur n in
      All IsShard p.shards
      × (p.current ≡ total_costs p.shards + x)
      × (p.entries ≡ (total_entries p.shards + y) % word_mod)
      × (p.current ≤ cur)
      × (length p.shards ≡ length ms)
      × (total_entries p.shards ≤ total_entries ms)
unfolding purge_shards
purge_shards_counts t [] cur n x y s h l k = (tt, h, k, omega arith, refl, omega arith)
purge_shards_counts t (m ∷ ms) cur n x y s h l k =
    let p = purge_entries t m cur n in
    let q =
      purge_entries_counts t m cur n (total_costs ms + x) (total_entries ms + y) (omega arith) l
        (omega arith) in
    let r =
      purge_shards_counts t ms p.current p.entries (total_cost p.kept + x) (length p.kept + y) s.1
        (omega arith) (omega arith) (omega arith) in
    (
      (purge_entries-IsShard t m cur n s.0, r.0),
      omega arith,
      omega arith,
      omega arith,
      omega arith,
      omega arith,
    )

pub purge_expired-IsValid : (t : ℕ) (c : MemoryCache) → IsValid c → IsValid (purge_expired t c)
unfolding purge_expired
purge_expired-IsValid t c v =
    let r =
      purge_shards_counts t c.shards c.current c.entries 0 0 v.kept v.accounted (omega arith)
        (omega arith) in
    record {
      sharded = omega arith;
      kept = r.0;
      accounted = r.1;
      bounded = omega arith;
      counted = omega arith;
      limited = v.limited;
      items_fit = v.items_fit;
    }

length-purge_shards :
    (t : ℕ) (ms : List Entries) (cur n : ℕ) → length (purge_shards t ms cur n).shards ≡ length ms
unfolding purge_shards
length-purge_shards t [] cur n = refl
length-purge_shards t (m ∷ ms) cur n =
    let p = purge_entries t m cur n in omega (arith, length-purge_shards t ms p.current p.entries)

pub purge_expired-SameLimits : (t : ℕ) (c : MemoryCache) → SameLimits c (purge_expired t c)
unfolding purge_expired
purge_expired-SameLimits t c = record {
  same_max = refl;
  same_item = refl;
  same_shards = length-purge_shards t c.shards c.current c.entries;
  same_observer = refl;
}

-- A purge removes exactly the expired entries.
pub lookup-purge_shards :
    (t i : ℕ) (k : Key) (ms : List Entries) (cur n : ℕ)
    → All IsShard ms
    → lookup k (get_or (purge_shards t ms cur n).shards i [])
      ≡ unexpired t (lookup k (get_or ms i []))
unfolding purge_shards lookup
lookup-purge_shards t i k [] cur n s = refl
lookup-purge_shards t zero k (m ∷ ms) cur n s = lookup-purge_entries t k m cur n s.0.0
lookup-purge_shards t (suc i) k (m ∷ ms) cur n s =
    let p = purge_entries t m cur n in lookup-purge_shards t i k ms p.current p.entries s.1

unexpired-cases : (t : ℕ) (o : Option MemoryEntry) → (unexpired t o ≡ none) ⊎ (unexpired t o ≡ o)
unexpired-cases t none = inl refl
unexpired-cases t (some e) = ground arith

pub purge_expired-Shrinks :
    (t : ℕ) (c : MemoryCache) → All IsShard c.shards → Shrinks c (purge_expired t c)
unfolding purge_expired
purge_expired-Shrinks t c s = λ i k.
    rw (lookup-purge_shards t i k c.shards c.current c.entries s)
      (unexpired-cases t (lookup k (shard_at c i)))
