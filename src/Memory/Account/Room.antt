-- ===== src/Memory/Account/Room.antt =====
-- `evictFor` of `MemoryCache` (internal/cache/memory/cache.go) and the room that it makes.
use frankenphp_tiered_cache.Base.{
  ℕ, ◌+◌, ◌-◌, ◌^◌, ◌<◌, ◌≤◌, ◌≡◌, refl, true, false, some, List, [], ◌∷◌, arith, leb, leb→le,
  Bool-cases, inl, inr,
}
use frankenphp_tiered_cache.Base.Word.{add64}
use frankenphp_tiered_cache.Memory.State.{Env, Entries, MemoryCache, exceeds, called, now}
use frankenphp_tiered_cache.Memory.Evict.{
  Room, evict_loop, eviction_fuel, eviction_target, evict_for, purge_expired, no_evictions,
  room_after,
}
use frankenphp_tiered_cache.Memory.Account.Totals.{total_entries}
use frankenphp_tiered_cache.Memory.Account.Invariant.{
  IsValid, SameLimits, SameLimits-refl, SameLimits-trans, calls-IsAccounted,
}
use frankenphp_tiered_cache.Memory.Lookup.{Shrinks, Shrinks-refl, Shrinks-trans}
use frankenphp_tiered_cache.Memory.Account.Purge.{
  purge_expired-IsValid, purge_expired-SameLimits, purge_expired-Shrinks,
}
use frankenphp_tiered_cache.Memory.Account.Evict.{evict_loop-Reaches}

eviction_fuel-eq : (ms : List Entries) → eviction_fuel ms ≡ total_entries ms + 4
unfolding eviction_fuel
eviction_fuel-eq [] = omega arith
eviction_fuel-eq (m ∷ ms) = omega (arith, eviction_fuel-eq ms)

eviction_target-le : (max required : ℕ) → eviction_target max required ≤ max - required
unfolding eviction_target
eviction_target-le max required = ground arith

-- Below 2^62 the sum of the code is exact.
pub fits_lem : (a b max : ℕ) → a + b ≤ max → max < 2 ^ 62 → exceeds (add64 a b) max ≡ false
unfolding add64
fits_lem a b max h l = ground arith

pub exceeds_lem :
    (a b max : ℕ) → a ≤ max → b ≤ max → max < 2 ^ 62 → exceeds (add64 a b) max ≡ false → a + b ≤ max
unfolding add64
exceeds_lem a b max h k l e = ground arith

-- A state in which there is room for the required bytes.
pub record MakesRoom (required : ℕ) (c : MemoryCache) (r : Room) : Type 0 where
  pub roomy : r.room ≡ true
  pub valid : IsValid r.cache
  pub shrinks : Shrinks c r.cache
  pub space : r.cache.current + required ≤ c.max_memory
  pub limits : SameLimits c r.cache

evict_loop-MakesRoom :
    (env : Env) (required : ℕ) (c d : MemoryCache)
    → IsValid d
    → SameLimits c d
    → Shrinks c d
    → required ≤ c.max_memory
    → (r : Room) × (room_after required (
          evict_loop env
            (eviction_fuel d.shards)
            (eviction_target c.max_memory required)
            0
            no_evictions
            d)
        ≡ some r)
      × MakesRoom required c r
evict_loop-MakesRoom env required c d v l k h =
    let target = eviction_target c.max_memory required in
    let (s, e, ends, reaches) =
      evict_loop-Reaches env (eviction_fuel d.shards) target 0 no_evictions d v
        (omega (arith, eviction_fuel-eq d.shards)) in
    let limits = SameLimits-trans l reaches.limits in
    let le = eviction_target-le c.max_memory required in
    let space : e.current + required ≤ c.max_memory = omega arith in
    let fits : exceeds (add64 e.current required) e.max_memory ≡ false =
      fits_lem e.current required e.max_memory (omega arith) (omega arith) in
    (
      record { room = true; summary = s; cache = e },
      rw (ends, fits),
      record {
        roomy = refl;
        valid = reaches.valid;
        shrinks = Shrinks-trans c d e k reaches.shrinks;
        space = space;
        limits = limits;
      },
    )

purge_limits : (env : Env) (c : MemoryCache) → SameLimits c (purge_expired (now env c) (called c))
purge_limits env c =
    let l = purge_expired-SameLimits (now env c) (called c) in
    record {
      same_max = l.same_max;
      same_item = l.same_item;
      same_shards = l.same_shards;
      same_observer = l.same_observer;
    }

-- `evictFor` of at most as many bytes as the memory limit, in a valid cache, ends within the fuel and
-- answers true; then the bytes fit beside what is left, the cache is valid, its limits are the same,
-- and every entry that is left was there before.
pub evict_for-MakesRoom :
    (env : Env) (required : ℕ) (c : MemoryCache)
    → IsValid c
    → required ≤ c.max_memory
    → (r : Room) × (evict_for env required c ≡ some r) × MakesRoom required c r
unfolding evict_for
evict_for-MakesRoom env required c v h =
    let t = now env c in
    let d = purge_expired t (called c) in
    let valid = purge_expired-IsValid t (called c) (calls-IsAccounted 0 c v (c.calls + 1)) in
    let limits = purge_limits env c in
    let shrinks : Shrinks c d = λ i k. purge_expired-Shrinks t (called c) v.kept i k in
    let (r, ends, makes) = evict_loop-MakesRoom env required c d valid limits shrinks h in
    let same : Room = record { room = true; summary = no_evictions; cache = c } in
    elim (Bool-cases (leb required 0)) [
      | inl nothing ↦ (
        same,
        rw nothing,
        record {
          roomy = refl;
          valid = v;
          shrinks = Shrinks-refl c;
          space = omega (arith, leb→le required 0 nothing);
          limits = SameLimits-refl c;
        },
      )
      | inr something ↦ elim (Bool-cases (exceeds (add64 c.current required) c.max_memory)) [
        | inr fits ↦ (
          same,
          rw (something, fits),
          record {
            roomy = refl;
            valid = v;
            shrinks = Shrinks-refl c;
            space = exceeds_lem c.current required c.max_memory v.bounded h v.limited fits;
            limits = SameLimits-refl c;
          },
        )
        | inl full ↦ (r, rw (something, full) ends, makes)
      ]
    ]
