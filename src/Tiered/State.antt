-- ===== src/Tiered/State.antt =====
-- The state of `TieredCache` (internal/cache/tiered/cache.go), over the backends that it composes.
-- A backend is an interface of the source (internal/cache/cache.go): it has a state of its own, and
-- a call returns the new state. The clock of a backend's state may move by itself: whatever other
-- processes do to Redis between two calls is part of what its operations answer.
use frankenphp_tiered_cache.Base.{
  ℕ, ◌+◌, ◌-◌, Bool, true, false, Option, none, some, List, ◌∷◌, if◌then◌else◌,
}
use frankenphp_tiered_cache.Base.Int.{ℤ}
use frankenphp_tiered_cache.Base.Word.{add64}
use frankenphp_tiered_cache.Base.Dict.{Key}
use frankenphp_tiered_cache.Contract.{
  Bytes, Error, Item, Reply, sentinel, wrap, closed, l2_unavailable, redis_command, is_error,
}
use frankenphp_tiered_cache.Invalidation.{Event}
use frankenphp_tiered_cache.Observability.Observation.{
  Observation, Operation, L2ErrorClass, error_none, error_transport, error_command, l2_call,
}

-- `cache.Cache`, called with a TTL that is positive and values that are not nil. A result of `get`
-- that is `none` is a nil value.
pub record Backend (S : Type 0) : Type 0 where
  pub get : Key → S → S × Reply (Option Item)
  pub get_many : List Key → S → S × Reply (List (Key × Item))
  pub add : Key → Bytes → ℕ → S → S × Reply Bool
  pub set_many : List (Key × Bytes) → ℕ → S → S × Reply Bool
  pub set : Key → Bytes → ℕ → S → S × Reply Bool
  pub forever : Key → Bytes → S → S × Reply Bool
  pub forget : Key → S → S × Reply Bool
  pub touch : Key → ℕ → S → S × Reply Bool
  pub flush : S → S × Reply Bool
  pub increment : Key → ℤ → S → S × Reply ℤ
  pub decrement : Key → ℤ → S → S × Reply ℤ
  pub close : S → S × Option Error

-- `invalidation.Bus`, as far as the cache calls it; a subscription is `Tiered.Subscriber`.
pub record Bus (B : Type 0) : Type 0 where
  pub publish : Event → B → B × Option Error
  pub close : B → B × Option Error

-- What a `TieredCache` is composed of: L1, L2, the bus (nil if `has_bus` is false), this instance's
-- origin, and the clock, as its n-th reading.
pub record System (S1 S2 B : Type 0) : Type 0 where
  pub l1 : Backend S1
  pub l2 : Backend S2
  pub bus : Bus B
  pub has_bus : Bool
  pub origin : Key
  pub clock : ℕ → ℕ

-- `metrics` are the calls made on the metrics state, the last one first; `recovery_wake` says that
-- the channel of that name holds its token; `readings` counts the readings of the clock.
pub record TieredCache (S1 S2 B : Type 0) : Type 0 where
  pub l1 : S1
  pub l2 : S2
  pub bus : B
  pub metrics : List Observation
  pub degraded : Bool
  pub state_err : Option Error
  pub health_epoch : ℕ
  pub recovery_wake : Bool
  pub pending_invalidations : List (Key × Unit {0})
  pub pending_flush : Bool
  pub mutation_version : ℕ
  pub invalidation_ready : Bool
  pub is_closed : Bool
  pub close_err : Option Error
  pub readings : ℕ

-- The wrapped cause of the state, or the bare error.
abbrev pub unavailable : Option Error → Error
unavailable none = sentinel l2_unavailable
unavailable (some e) = wrap (sentinel l2_unavailable) e

abbrev pub error_class : Option Error → L2ErrorClass
error_class none = error_none
error_class (some e) = if is_error e redis_command then error_command else error_transport

module _ {S1 S2 B : Type 0} where
  abbrev pub observe : Observation → TieredCache S1 S2 B → TieredCache S1 S2 B
  observe o t = record t { metrics = o ∷ t.metrics }

  -- `c.mutationVersion.Add(1)`
  abbrev pub bump_version : TieredCache S1 S2 B → TieredCache S1 S2 B
  bump_version t = record t { mutation_version = add64 t.mutation_version 1 }

  module _ (sys : System S1 S2 B) where
    -- `time.Now()`, and the state after that reading.
    abbrev pub now : TieredCache S1 S2 B → ℕ
    now t = sys.clock t.readings

    abbrev pub read_clock : TieredCache S1 S2 B → TieredCache S1 S2 B
    read_clock t = record t { readings = t.readings + 1 }

    -- `observeL2`, with a metrics state.
    unfoldable pub observe_l2 :
        Operation → ℕ → Option Error → TieredCache S1 S2 B → TieredCache S1 S2 B
    observe_l2 op started err t =
        observe (l2_call op (now t - started) (error_class err)) (read_clock t)

    -- Whether the cache serves: it is healthy, and its bus, if any, is ready.
    abbrev pub is_available : TieredCache S1 S2 B → Bool
    is_available t =
        if t.degraded then false else if sys.has_bus then t.invalidation_ready else true

    -- `unavailableError`
    unfoldable pub unavailable_error : TieredCache S1 S2 B → Option Error
    unavailable_error t = if is_available t then none else some (unavailable t.state_err)

    -- The two checks that open every operation.
    unfoldable pub refusal : TieredCache S1 S2 B → Option Error
    unfolding unavailable_error
    refusal t = if t.is_closed then some (sentinel closed) else unavailable_error t
