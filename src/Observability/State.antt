-- ===== src/Observability/State.antt =====
-- The state of the metrics and the values of its enumerations
-- (internal/observability/metrics.go). The arrays are lists, which a value of an enumeration indexes.
use frankenphp_tiered_cache.Base.{ℕ, ◌*◌, List, [], ◌∷◌, replicate}
use frankenphp_tiered_cache.Base.Int.{ℤ, pos}
use frankenphp_tiered_cache.Observability.Observation.{
  Operation, LookupResult, l1_hit, l2_hit, miss, L2ErrorClass, error_none, error_transport,
  error_command, InvalidationDirection, published, received, InvalidationType, key_invalidation,
  flush_invalidation, InvalidationResult, invalidation_success, invalidation_error, ignored_self,
  SubscriberErrorStage, stage_subscribe, stage_receive, stage_apply, L1FlushFallbackResult,
  fallback_success, fallback_failure,
}

-- The values of the enumerations, in the order of their constants.
abbrev pub operation_code : Operation → ℕ
operation_code Operation.get = 0
operation_code Operation.get_many = 1
operation_code Operation.set = 2
operation_code Operation.set_many = 3
operation_code Operation.add = 4
operation_code Operation.forever = 5
operation_code Operation.forget = 6
operation_code Operation.touch = 7
operation_code Operation.flush = 8
operation_code Operation.increment = 9
operation_code Operation.decrement = 10
operation_code Operation.recovery_probe = 11

abbrev pub operation_count : ℕ
operation_count = 12

abbrev pub lookup_code : LookupResult → ℕ
lookup_code l1_hit = 0
lookup_code l2_hit = 1
lookup_code miss = 2

abbrev pub lookup_result_count : ℕ
lookup_result_count = 3

-- L2ErrorNone is the largest value of the type.
abbrev pub error_code : L2ErrorClass → ℕ
error_code error_none = 255
error_code error_transport = 0
error_code error_command = 1

abbrev pub l2_error_class_count : ℕ
l2_error_class_count = 2

abbrev pub direction_code : InvalidationDirection → ℕ
direction_code published = 0
direction_code received = 1

abbrev pub type_code : InvalidationType → ℕ
type_code key_invalidation = 0
type_code flush_invalidation = 1

abbrev pub result_code : InvalidationResult → ℕ
result_code invalidation_success = 0
result_code invalidation_error = 1
result_code ignored_self = 2

abbrev pub stage_code : SubscriberErrorStage → ℕ
stage_code stage_subscribe = 0
stage_code stage_receive = 1
stage_code stage_apply = 2

abbrev pub fallback_code : L1FlushFallbackResult → ℕ
fallback_code fallback_success = 0
fallback_code fallback_failure = 1

abbrev pub l2_latency_bucket_count : ℕ
l2_latency_bucket_count = 16

abbrev pub microsecond : ℕ
microsecond = 1000

-- In nanoseconds, from 100 microseconds to 10 seconds.
abbrev pub l2_latency_bucket_upper_bounds : List ℕ
l2_latency_bucket_upper_bounds =
    100 * microsecond
    ∷ 500 * microsecond
    ∷ 1000 * microsecond
    ∷ 2500 * microsecond
    ∷ 5000 * microsecond
    ∷ 10000 * microsecond
    ∷ 25000 * microsecond
    ∷ 50000 * microsecond
    ∷ 100000 * microsecond
    ∷ 250000 * microsecond
    ∷ 500000 * microsecond
    ∷ 1000000 * microsecond
    ∷ 2500000 * microsecond
    ∷ 5000000 * microsecond
    ∷ 10000000 * microsecond
    ∷ []

pub record L2OperationState : Type 0 where
  pub calls : ℕ
  pub errors : List ℕ
  pub latency_buckets : List ℕ
  pub latency_sum_nanos : ℕ
  pub batch_calls : ℕ
  pub batch_items : ℕ

abbrev pub empty_operation : L2OperationState
empty_operation = record {
  calls = 0;
  errors = replicate l2_error_class_count 0;
  latency_buckets = replicate l2_latency_bucket_count 0;
  latency_sum_nanos = 0;
  batch_calls = 0;
  batch_items = 0;
}

-- A gauge of 0 or 1 is a number, as in the source.
pub record MetricsState : Type 0 where
  pub lookup : List ℕ
  pub l1_misses : ℕ
  pub l2 : List L2OperationState
  pub l1_entries : ℤ
  pub l1_bytes : ℤ
  pub l1_max_bytes : ℤ
  pub l1_max_item_bytes : ℤ
  pub l1_evictions : ℕ
  pub l1_evicted_bytes : ℕ
  pub degraded : ℕ
  pub degraded_transitions : ℕ
  pub recovery_attempts : ℕ
  pub recovery_successes : ℕ
  pub recovery_failures : ℕ
  pub invalidation_ready : ℕ
  pub invalidation : List (List (List ℕ))
  pub subscriber_errors : List ℕ
  pub pending_invalidations : ℕ
  pub pending_flush : ℕ
  pub post_commit_errors : List ℕ
  pub l1_mutation_errors : ℕ
  pub l1_flush_fallbacks : List ℕ

-- The zero value.
abbrev pub new_metrics : MetricsState
new_metrics = record {
  lookup = replicate 3 0;
  l1_misses = 0;
  l2 = replicate 12 empty_operation;
  l1_entries = pos 0;
  l1_bytes = pos 0;
  l1_max_bytes = pos 0;
  l1_max_item_bytes = pos 0;
  l1_evictions = 0;
  l1_evicted_bytes = 0;
  degraded = 0;
  degraded_transitions = 0;
  recovery_attempts = 0;
  recovery_successes = 0;
  recovery_failures = 0;
  invalidation_ready = 0;
  invalidation = replicate 2 (replicate 2 (replicate 3 0));
  subscriber_errors = replicate 3 0;
  pending_invalidations = 0;
  pending_flush = 0;
  post_commit_errors = replicate 12 0;
  l1_mutation_errors = 0;
  l1_flush_fallbacks = replicate 2 0;
}
