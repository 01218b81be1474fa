-- ===== src/Observability/Observation.antt =====
-- The calls that the cache makes on `MetricsState` (internal/observability/metrics.go), as data.
use frankenphp_tiered_cache.Base.{ℕ, Bool}

pub data Operation : Type 0 where
  get get_many set set_many add forever forget touch flush increment decrement recovery_probe :
      Operation

pub data LookupResult : Type 0 where
  l1_hit l2_hit miss : LookupResult

pub data L2ErrorClass : Type 0 where
  error_none error_transport error_command : L2ErrorClass

pub data InvalidationDirection : Type 0 where
  published received : InvalidationDirection

pub data InvalidationType : Type 0 where
  key_invalidation flush_invalidation : InvalidationType

pub data InvalidationResult : Type 0 where
  invalidation_success invalidation_error ignored_self : InvalidationResult

pub data SubscriberErrorStage : Type 0 where
  stage_subscribe stage_receive stage_apply : SubscriberErrorStage

pub data L1FlushFallbackResult : Type 0 where
  fallback_success fallback_failure : L1FlushFallbackResult

-- One constructor for each `Observe...` and `Set...` method that the cache calls; `ObserveLookup`
-- and `ObserveL1Miss` are those with the count 1.
pub data Observation : Type 0 where
  lookups : LookupResult → ℕ → Observation
  l1_misses : ℕ → Observation
  l2_call : Operation → ℕ → L2ErrorClass → Observation
  batch : Operation → ℕ → Observation
  set_degraded : Bool → Observation
  subscriber_error : SubscriberErrorStage → Observation
  post_commit_error : Operation → Observation
  recovery_attempt : Observation
  recovery_result : Bool → Observation
  invalidation_ready : Bool → Observation
  invalidation : InvalidationDirection → InvalidationType → InvalidationResult → Observation
  pending_invalidations : ℕ → Observation
  pending_flush : Bool → Observation
  l1_mutation_error : Observation
  l1_flush_fallback : L1FlushFallbackResult → Observation
