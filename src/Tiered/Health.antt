-- ===== src/Tiered/Health.antt =====
-- Health of `TieredCache` (internal/cache/tiered/health.go).
use frankenphp_tiered_cache.Base.{
  ℕ, ◌+◌, ◌==◌, ◌&&◌, not, Bool, true, false, Option, none, some, if◌then◌else◌,
}
use frankenphp_tiered_cache.Contract.{
  Error, Reply, sentinel, joined, join, l2_unavailable, l1_flush_not_completed, is_nil,
}
use frankenphp_tiered_cache.Observability.Observation.{
  set_degraded, l1_mutation_error, l1_flush_fallback, fallback_success, fallback_failure,
}
use frankenphp_tiered_cache.Tiered.State.{System, TieredCache, observe, unavailable_error}

abbrev pub cause_or : Option Error → Error
cause_or none = sentinel l2_unavailable
cause_or (some e) = e

-- The error of `flushL1`: a flush that reports false is an error too.
abbrev pub flush_error : Reply Bool → Option Error
flush_error r =
    if is_nil r.error && not r.result then some (sentinel l1_flush_not_completed) else r.error

module _ {S1 S2 B : Type 0} where
  unfoldable pub transition_to_degraded : Option Error → TieredCache S1 S2 B → TieredCache S1 S2 B
  transition_to_degraded cause t =
      if t.degraded
      then t
      else observe (set_degraded true) (record t {
        degraded = true;
        health_epoch = t.health_epoch + 1;
        state_err = some (cause_or cause);
        recovery_wake = true;
      })

  module _ (sys : System S1 S2 B) where
    -- `flushL1`
    unfoldable pub flush_l1 : TieredCache S1 S2 B → TieredCache S1 S2 B × Reply Bool
    flush_l1 t =
        let (s, r) = sys.l1.flush t.l1 in
        (record t { l1 = s }, record { result = r.result; error = flush_error r })

    unfoldable pub flush_l1_locked : TieredCache S1 S2 B → TieredCache S1 S2 B
    flush_l1_locked t =
        let (u, r) = flush_l1 t in
        if t.is_closed then t else record u { state_err = join u.state_err r.error }

    unfoldable pub degrade_locked : Option Error → Bool → TieredCache S1 S2 B → TieredCache S1 S2 B
    degrade_locked cause flush t =
        let u = transition_to_degraded cause t in if flush then flush_l1_locked u else u

    unfoldable pub degrade_and_flush : Option Error → TieredCache S1 S2 B → TieredCache S1 S2 B
    degrade_and_flush cause t = flush_l1_locked (transition_to_degraded cause t)

    -- After the flush of `reconcileL1MutationErrorLocked`: a failed one degrades the cache.
    abbrev pub reconciled :
        Error → TieredCache S1 S2 B → Option Error → TieredCache S1 S2 B × Option Error
    reconciled e t none = (observe (l1_flush_fallback fallback_success) t, some e)
    reconciled e t (some f) = (
      degrade_locked (some (joined e f)) false (observe (l1_flush_fallback fallback_failure) t),
      some (joined e f),
    )

    -- `reconcileL1MutationErrorLocked`
    unfoldable pub reconcile :
        Option Error → TieredCache S1 S2 B → TieredCache S1 S2 B × Option Error
    reconcile none t = (t, none)
    reconcile (some e) t =
        let (u, r) = flush_l1 (observe l1_mutation_error t) in reconciled e u r.error

    -- `enterHealthy`
    unfoldable pub enter_healthy : ℕ → TieredCache S1 S2 B → TieredCache S1 S2 B × Bool
    enter_healthy expected_epoch t =
        if t.degraded
          && t.health_epoch == expected_epoch
          && (if sys.has_bus then t.invalidation_ready else true)
        then (observe (set_degraded false) (record t { degraded = false; state_err = none }), true)
        else (t, false)

    -- `unavailableErrorIf`
    abbrev pub unavailable_error_if : Option Error → TieredCache S1 S2 B → Option Error
    unavailable_error_if none t = none
    unavailable_error_if (some e) t = unavailable_error sys t
