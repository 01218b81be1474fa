-- ===== src/Observability/Metrics.antt =====
-- `MetricsState` (internal/observability/metrics.go). The arrays are lists, which a value of an
-- enumeration indexes; a counter is a `uint64` that wraps around. A method on a nil state does
-- nothing: `observed` below is the methods on a state that may be nil.
use frankenphp_tiered_cache.Base.{
  ℕ, suc, Bool, true, false, Option, none, some, List, [], ◌∷◌, ◌==◌, ltb, leb, get_or, set,
  if◌then◌else◌,
}
use frankenphp_tiered_cache.Base.Int.{ℤ, pos, pos_part, ltb_ℤ}
use frankenphp_tiered_cache.Base.Word.{add64}
use frankenphp_tiered_cache.Observability.Observation.{
  Observation, lookups, l2_call, batch, subscriber_error, post_commit_error, recovery_attempt,
  recovery_result,
}
use frankenphp_tiered_cache.Observability.State.{
  operation_code, operation_count, lookup_code, lookup_result_count, error_code,
  l2_error_class_count, direction_code, type_code, result_code, stage_code, fallback_code,
  l2_latency_bucket_upper_bounds, L2OperationState, empty_operation, MetricsState, new_metrics,
}

-- `counters[i].Add(n)`, for an index that may be out of range.
unfoldable pub add_at : ℕ → ℕ → List ℕ → List ℕ
add_at i n counters = set counters i (add64 (get_or counters i 0) n)

abbrev pub flag : Bool → ℕ
flag true = 1
flag false = 0

unfoldable pub observe_lookups : ℕ → ℕ → MetricsState → MetricsState
observe_lookups result count m =
    if leb lookup_result_count result then m else record m { lookup = add_at result count m.lookup }

unfoldable pub observe_l1_misses : ℕ → MetricsState → MetricsState
observe_l1_misses count m = record m { l1_misses = add64 m.l1_misses count }

-- The loop over the bounds, from the i-th on.
unfoldable pub bucket_of : ℕ → ℕ → List ℕ → ℕ
bucket_of elapsed i [] = 15
bucket_of elapsed i (bound ∷ bounds) =
    let rest = bucket_of elapsed (suc i) bounds in if leb elapsed bound then i else rest

-- What one call adds to its operation.
unfoldable pub observe_call : ℕ → ℕ → L2OperationState → L2OperationState
observe_call elapsed class s = record s {
  calls = add64 s.calls 1;
  latency_sum_nanos = add64 s.latency_sum_nanos elapsed;
  latency_buckets = add_at (bucket_of elapsed 0 l2_latency_bucket_upper_bounds) 1 s.latency_buckets;
  errors = if ltb class l2_error_class_count then add_at class 1 s.errors else s.errors;
}

-- A duration below 0 counts as 0.
unfoldable pub observe_l2 : ℕ → ℤ → ℕ → MetricsState → MetricsState
observe_l2 operation elapsed class m = if leb operation_count operation then m else record m {
  l2 =
      set m.l2 operation
        (observe_call (pos_part elapsed) class (get_or m.l2 operation empty_operation));
}

unfoldable pub add_batch : ℕ → L2OperationState → L2OperationState
add_batch items s = record s {
  batch_calls = add64 s.batch_calls 1;
  batch_items = add64 s.batch_items items;
}

unfoldable pub observe_batch : ℕ → ℕ → MetricsState → MetricsState
observe_batch operation items m = if leb operation_count operation then m else record m {
  l2 = set m.l2 operation (add_batch items (get_or m.l2 operation empty_operation));
}

unfoldable pub set_l1_usage : ℤ → ℤ → MetricsState → MetricsState
set_l1_usage entries bytes m = record m { l1_entries = entries; l1_bytes = bytes }

unfoldable pub set_l1_limits : ℤ → ℤ → MetricsState → MetricsState
set_l1_limits max_bytes max_item_bytes m = record m {
  l1_max_bytes = max_bytes;
  l1_max_item_bytes = max_item_bytes;
}

unfoldable pub observe_l1_eviction : ℕ → ℤ → MetricsState → MetricsState
observe_l1_eviction entries bytes m = record m {
  l1_evictions = add64 m.l1_evictions entries;
  l1_evicted_bytes =
      if ltb_ℤ (pos 0) bytes then add64 m.l1_evicted_bytes (pos_part bytes) else m.l1_evicted_bytes;
}

-- CompareAndSwap from 0 to 1 counts a transition.
unfoldable pub set_degraded : Bool → MetricsState → MetricsState
set_degraded true m =
    if m.degraded == 0
    then record m { degraded = 1; degraded_transitions = add64 m.degraded_transitions 1 }
    else m
set_degraded false m = record m { degraded = 0 }

unfoldable pub observe_subscriber_error : ℕ → MetricsState → MetricsState
observe_subscriber_error stage m =
    if leb 3 stage then m else record m { subscriber_errors = add_at stage 1 m.subscriber_errors }

unfoldable pub observe_post_commit_error : ℕ → MetricsState → MetricsState
observe_post_commit_error operation m =
    if leb operation_count operation
    then m
    else record m { post_commit_errors = add_at operation 1 m.post_commit_errors }

unfoldable pub observe_recovery_attempt : MetricsState → MetricsState
observe_recovery_attempt m = record m { recovery_attempts = add64 m.recovery_attempts 1 }

unfoldable pub observe_recovery_result : Bool → MetricsState → MetricsState
observe_recovery_result true m = record m { recovery_successes = add64 m.recovery_successes 1 }
observe_recovery_result false m = record m { recovery_failures = add64 m.recovery_failures 1 }

unfoldable pub set_invalidation_ready : Bool → MetricsState → MetricsState
set_invalidation_ready value m = record m { invalidation_ready = flag value }

-- `m.invalidation[direction][typ][result].Add(1)`
unfoldable pub add_in : ℕ → ℕ → ℕ → List (List (List ℕ)) → List (List (List ℕ))
add_in d t r table =
    let types = get_or table d [] in set table d (set types t (add_at r 1 (get_or types t [])))

unfoldable pub observe_invalidation : ℕ → ℕ → ℕ → MetricsState → MetricsState
observe_invalidation direction typ result m =
    if leb 2 direction
    then m
    else if leb 2 typ
    then m
    else if leb 3 result
    then m
    else record m { invalidation = add_in direction typ result m.invalidation }

unfoldable pub set_pending_invalidations : ℕ → MetricsState → MetricsState
set_pending_invalidations value m = record m { pending_invalidations = value }

unfoldable pub set_pending_flush : Bool → MetricsState → MetricsState
set_pending_flush value m = record m { pending_flush = flag value }

unfoldable pub observe_l1_mutation_error : MetricsState → MetricsState
observe_l1_mutation_error m = record m { l1_mutation_errors = add64 m.l1_mutation_errors 1 }

unfoldable pub observe_l1_flush_fallback : ℕ → MetricsState → MetricsState
observe_l1_flush_fallback result m =
    if leb 2 result
    then m
    else record m { l1_flush_fallbacks = add_at result 1 m.l1_flush_fallbacks }

-- The method that each observation calls.
unfoldable pub observe_one : Observation → MetricsState → MetricsState
observe_one (lookups r n) m = observe_lookups (lookup_code r) n m
observe_one (Observation.l1_misses n) m = observe_l1_misses n m
observe_one (l2_call op elapsed class) m =
    observe_l2 (operation_code op) (pos elapsed) (error_code class) m
observe_one (batch op items) m = observe_batch (operation_code op) items m
observe_one (Observation.set_degraded b) m = set_degraded b m
observe_one (subscriber_error stage) m = observe_subscriber_error (stage_code stage) m
observe_one (post_commit_error op) m = observe_post_commit_error (operation_code op) m
observe_one recovery_attempt m = observe_recovery_attempt m
observe_one (recovery_result ok) m = observe_recovery_result ok m
observe_one (Observation.invalidation_ready b) m = set_invalidation_ready b m
observe_one (Observation.invalidation d t r) m =
    observe_invalidation (direction_code d) (type_code t) (result_code r) m
observe_one (Observation.pending_invalidations n) m = set_pending_invalidations n m
observe_one (Observation.pending_flush b) m = set_pending_flush b m
observe_one Observation.l1_mutation_error m = observe_l1_mutation_error m
observe_one (Observation.l1_flush_fallback r) m = observe_l1_flush_fallback (fallback_code r) m

-- A state that may be nil.
abbrev pub observed : Observation → Option MetricsState → Option MetricsState
observed o none = none
observed o (some m) = some (observe_one o m)

-- The state after the observations of a list, the last one first.
unfoldable pub recorded : List Observation → MetricsState
recorded [] = new_metrics
recorded (o ∷ os) = observe_one o (recorded os)
