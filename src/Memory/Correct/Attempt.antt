-- ===== src/Memory/Correct/Attempt.antt =====
-- One attempt of `set` (internal/cache/memory/cache.go).
use frankenphp_tiered_cache.Base.{
  ℕ, ◌+◌, ◌-◌, ◌<◌, ◌≤◌, ◌≡◌, refl, Bool, true, false, Option, none, some, arith, leb, leb→le,
  lt→leb_false, Bool-cases, inl, inr,
}
use frankenphp_tiered_cache.Base.Word.{add64}
use frankenphp_tiered_cache.Base.Dict.{Key}
use frankenphp_tiered_cache.Contract.{Bytes}
use frankenphp_tiered_cache.Memory.State.{
  Env, MemoryCache, item_cost, entry_at, called, try_reserve, put_entry,
}
use frankenphp_tiered_cache.Memory.Ops.{
  Attempt, done, need, cost_at, set_attempt, store_after, commit_set,
}
use frankenphp_tiered_cache.Memory.Account.Invariant.{IsAccounted, IsValid, calls-IsAccounted}
use frankenphp_tiered_cache.Memory.Correct.Stored.{expires, Stored, commit_set-Stored, Stored-from}

-- The bytes that a write of `cost` needs beside those of the entry that it replaces.
abbrev pub extra : Env → Key → ℕ → MemoryCache → ℕ
extra env k cost c = cost - cost_at (entry_at env c k)

-- The reservation of a write: it counts the bytes if they fit, and changes nothing otherwise.
pub reserve_fits :
    (bytes : ℕ) (c : MemoryCache)
    → IsValid c
    → c.current + bytes ≤ c.max_memory
    → try_reserve bytes c ≡ (record c { current = c.current + bytes }, true)
unfolding try_reserve add64
reserve_fits bytes c v h = ground arith

pub reserve_full :
    (bytes : ℕ) (c : MemoryCache)
    → IsValid c
    → bytes ≤ c.max_memory
    → c.max_memory < c.current + bytes
    → try_reserve bytes c ≡ (c, false)
unfolding try_reserve add64
reserve_full bytes c v h k = ground arith

pub reserved-IsAccounted :
    (bytes : ℕ) (c : MemoryCache)
    → IsValid c
    → c.current + bytes ≤ c.max_memory
    → IsAccounted bytes (record c { current = c.current + bytes })
reserved-IsAccounted bytes c v h = ground arith

-- An expiration comes from the reading `n` of the clock, the last one that led to `d`.
abbrev pub IsLastReading : Option ℕ → ℕ → MemoryCache → Type 0
IsLastReading none n d = Unit {0}
IsLastReading (some ttl) n d = d.calls ≡ n + 1

-- An attempt that is done has stored the value, in a cache that differs from `c` by its counter.
unfoldable pub DoneStored :
    Env → Key → Bytes → Option ℕ → MemoryCache → Attempt Bool × MemoryCache → Type 0
DoneStored env k value ttl c p =
    (n : ℕ) × (p.0 ≡ done true)
    × IsLastReading ttl n p.1
    × Stored env k value (expires env n ttl) c p.1

store_after-DoneStored :
    (env : Env) (k : Key) (value : Bytes) (ttl : Option ℕ) (c : MemoryCache)
    → IsAccounted (extra env k (item_cost k value) c) c
    → DoneStored env k value ttl c
        (store_after env k value ttl (item_cost k value) (entry_at env c k) (c, true))
unfolding DoneStored entry_at commit_set put_entry
store_after-DoneStored env k value none c v = (0, refl, tt, commit_set-Stored env k value none c v)
store_after-DoneStored env k value (some ttl) c v = (
  c.calls,
  refl,
  refl,
  Stored-from env k value (some (env.now c.calls + ttl)) c.current (c.calls + 1) c _ (
      commit_set-Stored env k value (some (env.now c.calls + ttl)) (called c)
        (calls-IsAccounted (extra env k (item_cost k value) c) c v (c.calls + 1))),
)

-- An attempt with room stores the value.
pub set_attempt_fits :
    (env : Env) (k : Key) (value : Bytes) (ttl : Option ℕ) (c : MemoryCache)
    → IsValid c
    → c.current + extra env k (item_cost k value) c ≤ c.max_memory
    → DoneStored env k value ttl c (set_attempt env k value ttl c)
unfolding set_attempt DoneStored entry_at
set_attempt_fits env k value ttl c v h =
    let cost = item_cost k value in
    let old = entry_at env c k in
    elim (Bool-cases (leb cost (cost_at old))) [
      | inl smaller ↦
          let exact : extra env k cost c ≡ 0 = omega (arith, leb→le cost (cost_at old) smaller) in
          rw smaller (store_after-DoneStored env k value ttl c (rw exact v))
      | inr larger ↦
          rw (larger, reserve_fits (cost - cost_at old) c v h)
            (let d = record c { current = c.current + (cost - cost_at old) } in
              let (n, ends, last, s) =
                store_after-DoneStored env k value ttl d
                  (reserved-IsAccounted (cost - cost_at old) c v h) in
              (n, ends, last, Stored-from env k value (expires env n ttl) d.current c.calls c _ s))
    ]

-- An attempt without room changes nothing.
pub set_attempt_full :
    (env : Env) (k : Key) (value : Bytes) (ttl : Option ℕ) (c : MemoryCache)
    → IsValid c
    → item_cost k value ≤ c.max_memory
    → c.max_memory < c.current + extra env k (item_cost k value) c
    → set_attempt env k value ttl c ≡ (need (extra env k (item_cost k value) c), c)
unfolding set_attempt
set_attempt_full env k value ttl c v h l =
    let cost = item_cost k value in
    let old = entry_at env c k in
    let larger : leb cost (cost_at old) ≡ false =
      lt→leb_false cost (cost_at old) (omega (arith, v.bounded)) in
    rw (larger, reserve_full (cost - cost_at old) c v (omega arith) l)
