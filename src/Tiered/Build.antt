-- ===== src/Tiered/Build.antt =====
-- The construction of a `TieredCache` (internal/cache/tiered/cache.go, config.go and
-- invalidation.go). The random bytes of the origin are a parameter; the goroutines that the
-- constructor starts are the calls of `Tiered.History`.
use frankenphp_tiered_cache.Base.{
  ℕ, ◌+◌, ◌-◌, ◌*◌, ◌/◌, ◌%◌, ◌^◌, Bool, true, false, ◌&&◌, Option, none, some, ◌⊎◌, inl, inr, List,
  [], ◌∷◌, ltb, if◌then◌else◌,
}
use frankenphp_tiered_cache.Base.Int.{pos, ltb_ℤ, leb_ℤ}
use frankenphp_tiered_cache.Base.Dict.{Key}
use frankenphp_tiered_cache.Contract.{Duration, Error}
use frankenphp_tiered_cache.Observability.Observation.{invalidation_ready}
use frankenphp_tiered_cache.Tiered.State.{TieredCache, observe}

pub record Config : Type 0 where
  pub recovery_interval : Duration

pub data BuildError : Type 0 where
  nil_l1 nil_l2 negative_recovery_interval : BuildError
  no_origin : Error → BuildError

-- Five seconds.
abbrev pub default_recovery_interval : Duration
default_recovery_interval = pos (5 * 10 ^ 9)

abbrev pub is_zero : Duration → Bool
is_zero d = leb_ℤ d (pos 0) && leb_ℤ (pos 0) d

unfoldable pub normalized : Config → BuildError ⊎ Config
normalized c =
    if is_zero c.recovery_interval
    then inr (record { recovery_interval = default_recovery_interval })
    else if ltb_ℤ c.recovery_interval (pos 0)
    then inl negative_recovery_interval
    else inr c

abbrev pub invalidation_origin_size : ℕ
invalidation_origin_size = 16

-- A digit of hex.EncodeToString.
abbrev pub hex_digit : ℕ → ℕ
hex_digit n = if ltb n 10 then n + b'0' else (n - 10) + b'a'

unfoldable pub hex : List ℕ → Key
hex [] = []
hex (b ∷ bs) = hex_digit (b / 16) ∷ hex_digit (b % 16) ∷ hex bs

-- `newInvalidationOrigin`, with what the random source answers for that many bytes.
unfoldable pub new_invalidation_origin : (ℕ → Error ⊎ List ℕ) → BuildError ⊎ Key
new_invalidation_origin read = elim (read invalidation_origin_size) [
  | inl e ↦ inl (no_origin e)
  | inr bytes ↦ inr (hex bytes)
]

-- What the constructor makes: the recovery interval, the origin (empty without a bus) and the state.
pub record Built (S1 S2 B : Type 0) : Type 0 where
  pub recovery_interval : Duration
  pub origin : Key
  pub cache : TieredCache S1 S2 B

module _ {S1 S2 B : Type 0} where
  abbrev pub fresh : Bool → S1 → S2 → B → TieredCache S1 S2 B
  fresh ready l1 l2 bus = record {
    l1 = l1;
    l2 = l2;
    bus = bus;
    metrics = [];
    degraded = false;
    state_err = none;
    health_epoch = 0;
    recovery_wake = false;
    pending_invalidations = [];
    pending_flush = false;
    mutation_version = 0;
    invalidation_ready = ready;
    is_closed = false;
    close_err = none;
    readings = 0;
  }

  -- Without a bus the cache is ready at once.
  abbrev pub without_bus : Config → S1 → S2 → B → Built S1 S2 B
  without_bus c l1 l2 bus = record {
    recovery_interval = c.recovery_interval;
    origin = [];
    cache = observe (invalidation_ready true) (fresh true l1 l2 bus);
  }

  abbrev pub with_bus : Config → S1 → S2 → B → BuildError ⊎ Key → BuildError ⊎ Built S1 S2 B
  with_bus c l1 l2 bus (inl e) = inl e
  with_bus c l1 l2 bus (inr origin) = inr (record {
    recovery_interval = c.recovery_interval;
    origin = origin;
    cache = fresh false l1 l2 bus;
  })

  abbrev pub configured :
      (ℕ → Error ⊎ List ℕ) → Bool → BuildError ⊎ Config → S1 → S2 → B → BuildError ⊎ Built S1 S2 B
  configured read has_bus (inl e) l1 l2 bus = inl e
  configured read false (inr c) l1 l2 bus = inr (without_bus c l1 l2 bus)
  configured read true (inr c) l1 l2 bus = with_bus c l1 l2 bus (new_invalidation_origin read)

  abbrev pub composed :
      (ℕ → Error ⊎ List ℕ) → Bool → Config → Option S1 → Option S2 → B → BuildError ⊎ Built S1 S2 B
  composed read has_bus c none l2 bus = inl nil_l1
  composed read has_bus c (some l1) none bus = inl nil_l2
  composed read has_bus c (some l1) (some l2) bus = configured read has_bus (normalized c) l1 l2 bus

  -- `newTieredCache`; a backend that is nil is `none`.
  unfoldable pub new_tiered_cache :
      (ℕ → Error ⊎ List ℕ) → Bool → Config → Option S1 → Option S2 → B → BuildError ⊎ Built S1 S2 B
  unfolding normalized new_invalidation_origin
  new_tiered_cache read has_bus c l1 l2 bus = composed read has_bus c l1 l2 bus
