-- ===== src/Memory/Correct/Renew.antt =====
-- `Touch` and `Flush` of `MemoryCache` (internal/cache/memory/cache.go).
use frankenphp_tiered_cache.Base.{
  ℕ, zero, suc, ◌+◌, ◌%◌, ◌≡◌, refl, Bool, true, false, Option, none, some, [], arith, length,
  replicate, get_or, Bool-cases, Option-cases, inl, inr, All-replicate, length-replicate,
}
use frankenphp_tiered_cache.Base.Int.{pos_part}
use frankenphp_tiered_cache.Base.Dict.{Key, lookup}
use frankenphp_tiered_cache.Contract.{Duration, not_positive}
use frankenphp_tiered_cache.Memory.State.{
  Env, MemoryEntry, Entries, MemoryCache, is_expired, entry_at, store_max_access_clock, now,
}
use frankenphp_tiered_cache.Memory.Ops.{touch, touch_found, flush}
use frankenphp_tiered_cache.Memory.Account.Totals.{IsShard, total_costs, total_entries}
use frankenphp_tiered_cache.Memory.Account.Invariant.{IsValid}
use frankenphp_tiered_cache.Memory.Account.Put.{access_keeps}
use frankenphp_tiered_cache.Memory.Correct.Single.{
  Keeps, Keeps-refl, is_live, dropped, replaced, access_expires,
}

-- What `Touch` leaves of an entry: the value with a new expiration, or nothing.
abbrev pub Renewed : ℕ → ℕ → Option MemoryEntry → Option MemoryEntry → Type 0
Renewed t ttl none after = after ≡ none
Renewed t ttl (some e) none = is_expired e.expires_at t ≡ true
Renewed t ttl (some e) (some e') =
    (is_expired e.expires_at t ≡ false) × (e'.value ≡ e.value) × (e'.expires_at ≡ some (t + ttl))

-- An answer `p.0` and a state `p.1` after `k` was touched in `c`.
pub record Touches (env : Env) (k : Key) (ttl : ℕ) (c : MemoryCache) (p : Bool × MemoryCache)
    : Type 0 where
  pub answers : p.0 ≡ is_live (now env c) (entry_at env c k)
  pub renewed : Renewed (now env c) ttl (entry_at env c k) (entry_at env p.1 k)
  pub keeps : Keeps env k c p.1

touch_found_lem :
    (env : Env) (k : Key) (ttl : ℕ) (c : MemoryCache)
    → IsValid c
    → Touches env k ttl c (touch_found env k ttl c (entry_at env c k))
touch_found_lem env k ttl c v = elim (Option-cases (entry_at env c k)) [
  | inl absent ↦
      rw absent
        (record { answers = rw absent; renewed = rw absent refl; keeps = Keeps-refl env k c v })
  | inr (e, found) ↦ elim (Bool-cases (is_expired e.expires_at (now env c))) [
    | inl gone ↦
        let (keeps, absent) = dropped env k e c found v in
        rw (found, gone)
          (record { answers = rw (found, gone); renewed = rw (found, absent) gone; keeps = keeps })
    | inr alive ↦
        let fresh = record e { expires_at = some (now env c + ttl) } in
        let (same_cost, same_value) = access_keeps fresh c.lru_clock in
        let (keeps, present) =
          replaced env k e (store_max_access_clock fresh c.lru_clock) c found same_cost same_value
            v in
        rw (found, alive)
          (record {
            answers = rw (found, alive);
            renewed = rw (found, present) (alive, same_value, access_expires fresh c.lru_clock);
            keeps = keeps;
          })
  ]
]

-- `Touch` with a positive TTL answers without an error, in a valid cache, whether the key is there
-- and not expired. Then an entry that was there and not expired has the same value and expires at
-- the clock's reading plus the TTL, an expired one is gone, every other key holds what it held, and
-- the cache is valid.
pub touch_lem :
    (env : Env) (k : Key) (ttl : Duration) (c : MemoryCache)
    → IsValid c
    → not_positive ttl ≡ false
    → let (r, d) = touch env k ttl c in
      (r.error ≡ none) × Touches env k (pos_part ttl) c (r.result, d)
unfolding touch
touch_lem env k ttl c v h = rw h (refl, touch_found_lem env k (pos_part ttl) c v)

pub total_costs-replicate : (n : ℕ) → total_costs (replicate n []) ≡ 0
total_costs-replicate zero = refl
total_costs-replicate (suc n) = omega (arith, total_costs-replicate n)

pub total_entries-replicate : (n : ℕ) → total_entries (replicate n []) ≡ 0
total_entries-replicate zero = refl
total_entries-replicate (suc n) = omega (arith, total_entries-replicate n)

pub get_or-replicate : (n i : ℕ) → get_or (replicate n (let m : Entries = [] in m)) i [] ≡ []
get_or-replicate zero i = refl
get_or-replicate (suc n) zero = refl
get_or-replicate (suc n) (suc i) = get_or-replicate n i

-- The state `d` after `c` was flushed.
pub record Flushed (env : Env) (c d : MemoryCache) : Type 0 where
  pub valid : IsValid d
  pub empty : (k : Key) → entry_at env d k ≡ none
  pub no_bytes : d.current ≡ 0
  pub no_entries : d.entries ≡ 0

-- `Flush` of a valid cache leaves a valid cache in which no key has an entry, and whose counters of
-- bytes and of entries are 0.
pub flush_lem : (env : Env) (c : MemoryCache) → IsValid c → Flushed env c (flush c).1
unfolding flush entry_at lookup
flush_lem env c v =
    let n = length c.shards in
    record {
      valid = record {
        sharded = rw (length-replicate n (let m : Entries = [] in m)) v.sharded;
        kept = All-replicate IsShard n [] (tt, tt);
        accounted = omega (arith, total_costs-replicate n);
        bounded = omega arith;
        counted = omega (arith, total_entries-replicate n);
        limited = v.limited;
        items_fit = v.items_fit;
      };
      empty = λ k.
          rw (get_or-replicate n (env.hash k % length (replicate n (let m : Entries = [] in m))));
      no_bytes = refl;
      no_entries = refl;
    }
