-- ===== src/Tiered/Correct/Build.antt =====
-- What `newTieredCache` makes (internal/cache/tiered/cache.go), and how a flush of the Redis bus
-- (internal/cache/redis/invalidation.go) reaches it.
use frankenphp_tiered_cache.Base.{
  ℕ, ◌*◌, ◌^◌, ◌≡◌, refl, Bool, true, false, not, Option, none, some, ◌⊎◌, inl, inr, List, [], ◌∷◌,
  length, arith, if◌then◌else◌,
}
use frankenphp_tiered_cache.Base.Int.{pos, negsuc, ltb_ℤ}
use frankenphp_tiered_cache.Base.Dict.{Key, key_eq}
use frankenphp_tiered_cache.Contract.{Duration, Error}
use frankenphp_tiered_cache.Tiered.Build.{
  Config, BuildError, is_zero, normalized, hex, new_invalidation_origin, Built, with_bus,
  configured, new_tiered_cache,
}
use frankenphp_tiered_cache.Tiered.Correct.Keeps.{IsSound}

-- The random source fills what it is asked for, or fails.
abbrev pub Fills : ℕ → Error ⊎ List ℕ → Type 0
Fills n (inl e) = Unit
Fills n (inr bytes) = length bytes ≡ n

-- What was built: a sound, open and healthy cache that is ready exactly without a bus, with an
-- origin that is empty exactly without a bus, and with a positive recovery interval.
abbrev pub IsBuilt : {S1 S2 B : Type 0} → Bool → BuildError ⊎ Built S1 S2 B → Type 0
IsBuilt has_bus (inl e) = Unit
IsBuilt has_bus (inr b) =
    IsSound b.cache
    × (b.cache.is_closed ≡ false)
    × (b.cache.degraded ≡ false)
    × (b.cache.invalidation_ready ≡ not has_bus)
    × (key_eq [] b.origin ≡ not has_bus)
    × (ltb_ℤ (pos 0) b.recovery_interval ≡ true)

-- An origin of random bytes is not empty.
abbrev HasOrigin : BuildError ⊎ Key → Type 0
HasOrigin (inl e) = Unit
HasOrigin (inr origin) = key_eq [] origin ≡ false

new_invalidation_origin-HasOrigin :
    (read : ℕ → Error ⊎ List ℕ) → Fills 16 (read 16) → HasOrigin (new_invalidation_origin read)
unfolding new_invalidation_origin hex key_eq
new_invalidation_origin-HasOrigin read h = go (read 16) h
  where
    go :
        (r : Error ⊎ List ℕ)
        → Fills 16 r
        → HasOrigin (elim r [ inl e ↦ inl (BuildError.no_origin e) | inr bytes ↦ inr (hex bytes) ])
    go (inl e) h = tt
    go (inr []) h = ground (arith, h)
    go (inr (b ∷ bs)) h = refl

-- A configuration that was accepted has a positive interval.
abbrev HasInterval : BuildError ⊎ Config → Type 0
HasInterval (inl e) = Unit
HasInterval (inr c) = ltb_ℤ (pos 0) c.recovery_interval ≡ true

is_positive : (d : Duration) → is_zero d ≡ false → ltb_ℤ d (pos 0) ≡ false → ltb_ℤ (pos 0) d ≡ true
is_positive (pos n) z h = ground (arith, z, h)
is_positive (negsuc n) z h = ground (arith, z, h)

normalized-HasInterval : (c : Config) → HasInterval (normalized c)
unfolding normalized
normalized-HasInterval c =
    go (is_zero c.recovery_interval) (ltb_ℤ c.recovery_interval (pos 0)) refl refl
  where
    go :
        (zero negative : Bool)
        → is_zero c.recovery_interval ≡ zero
        → ltb_ℤ c.recovery_interval (pos 0) ≡ negative
        → HasInterval (
            if zero
            then inr (record { recovery_interval = pos (5 * 10 ^ 9) })
            else if negative
            then inl BuildError.negative_recovery_interval
            else inr c)
    go true negative z n = refl
    go false true z n = tt
    go false false z n = is_positive c.recovery_interval z n

module _ {S1 S2 B : Type 0} where
  with_bus-IsBuilt :
      (c : Config) (l1 : S1) (l2 : S2) (bus : B) (origin : BuildError ⊎ Key)
      → HasOrigin origin
      → ltb_ℤ (pos 0) c.recovery_interval ≡ true
      → IsBuilt true (with_bus c l1 l2 bus origin)
  with_bus-IsBuilt c l1 l2 bus (inl e) h i = tt
  with_bus-IsBuilt c l1 l2 bus (inr origin) h i =
      (((λ up. (refl, refl, refl)), (tt, λ f. refl)), refl, refl, refl, h, i)

  configured-IsBuilt :
      (read : ℕ → Error ⊎ List ℕ) (has_bus : Bool) (c : BuildError ⊎ Config) (l1 : S1) (l2 : S2)
      (bus : B)
      → Fills 16 (read 16)
      → HasInterval c
      → IsBuilt has_bus (configured read has_bus c l1 l2 bus)
  unfolding key_eq
  configured-IsBuilt read has_bus (inl e) l1 l2 bus h i = tt
  configured-IsBuilt read false (inr c) l1 l2 bus h i =
      (((λ up. (refl, refl, refl)), (tt, λ f. refl)), refl, refl, refl, refl, i)
  configured-IsBuilt read true (inr c) l1 l2 bus h i =
      with_bus-IsBuilt c l1 l2 bus (new_invalidation_origin read)
        (new_invalidation_origin-HasOrigin read h) i

  -- If the random source fills what it is asked for, then a cache that is built, from whatever
  -- configuration and backends, is open and healthy, has nothing that waits and no cause of an
  -- outage, is ready exactly if it has no bus, has an origin exactly if it has a bus, and has a
  -- positive recovery interval.
  pub new_tiered_cache-IsBuilt :
      (read : ℕ → Error ⊎ List ℕ) (has_bus : Bool) (c : Config) (l1 : Option S1) (l2 : Option S2)
      (bus : B)
      → Fills 16 (read 16)
      → IsBuilt has_bus (new_tiered_cache read has_bus c l1 l2 bus)
  unfolding new_tiered_cache
  new_tiered_cache-IsBuilt read has_bus c none l2 bus h = tt
  new_tiered_cache-IsBuilt read has_bus c (some l1) none bus h = tt
  new_tiered_cache-IsBuilt read has_bus c (some l1) (some l2) bus h =
      configured-IsBuilt read has_bus (normalized c) l1 l2 bus h (normalized-HasInterval c)
