-- ===== src/Observability/Correct/Histogram.antt =====
-- What the collector's histogram says of an operation (internal/observability/metrics.go and
-- internal/observability/collector.go).
use mathlib.Core.Path.{subst}
use frankenphp_tiered_cache.Base.{
  ℕ, zero, suc, ◌%◌, ◌≡◌, refl, sym, ap, ◌∙◌, Bool, true, false, ◌&&◌, List, [], ◌∷◌, leb, length,
  map, All, if◌then◌else◌, arith, replicate,
}
use frankenphp_tiered_cache.Base.Word.{word_mod, add64}
use frankenphp_tiered_cache.Observability.Observation.{
  Operation, L2ErrorClass, Observation, lookups, l1_misses, l2_call, batch, set_degraded,
  subscriber_error, post_commit_error, recovery_attempt, recovery_result, invalidation_ready,
  invalidation, pending_invalidations, pending_flush, l1_mutation_error, l1_flush_fallback,
}
use frankenphp_tiered_cache.Observability.Metrics.{
  add_at, observe_call, add_batch, recorded, bucket_of,
}
use frankenphp_tiered_cache.Observability.State.{
  error_code, L2OperationState, l2_latency_bucket_upper_bounds,
}
use frankenphp_tiered_cache.Observability.Histogram.{cumulative_buckets, histogram_buckets}
use frankenphp_tiered_cache.Observability.Correct.Counts.{
  at, same_operation, change, changes, at-recorded,
}
use frankenphp_tiered_cache.Observability.Correct.Buckets.{
  count_if, is_call, is_call_within, Agrees, and_within, cumulative_buckets-add_at,
  bounds-Ascending, bucket_of_bounds, add64_next, Agrees-ext, length-add_at, map-cumulative_buckets,
}

-- The state of an operation counts its calls, and its histogram the calls up to each bound.
abbrev Counted : Operation → List Observation → L2OperationState → Type 0
Counted op os s =
    (s.calls ≡ count_if (is_call op) os % word_mod)
    × Agrees (λ b. count_if (is_call_within op b) os) (histogram_buckets s.latency_buckets)
    × (length s.latency_buckets ≡ 16)

observe_call-Counted :
    (op a : Operation) (elapsed : ℕ) (class : L2ErrorClass) (os : List Observation)
    (s : L2OperationState) (b : Bool)
    → same_operation a op ≡ b
    → Counted op os s
    → Counted op
        (l2_call a elapsed class ∷ os)
        (if b then observe_call elapsed (error_code class) s else s)
unfolding count_if observe_call histogram_buckets
observe_call-Counted op a elapsed class os s true e (calls, buckets, l) = (
  add64_next s.calls (count_if (is_call op) os) calls
      ∙ ap
          (λ x. (if x then suc (count_if (is_call op) os) else count_if (is_call op) os) % word_mod)
          (sym e),
  Agrees-ext (and_within elapsed (λ b. count_if (is_call_within op b) os))
      (λ b. count_if (is_call_within op b) (l2_call a elapsed class ∷ os))
      (cumulative_buckets 0 l2_latency_bucket_upper_bounds
        (add_at (bucket_of elapsed 0 l2_latency_bucket_upper_bounds) 1 s.latency_buckets))
      (λ b.
        ap
          (λ x.
            if x && leb elapsed b
            then suc (count_if (is_call_within op b) os)
            else count_if (is_call_within op b) os)
          (sym e))
      (subst
        (λ i.
          Agrees (and_within elapsed (λ b. count_if (is_call_within op b) os))
            (cumulative_buckets 0 l2_latency_bucket_upper_bounds (add_at i 1 s.latency_buckets)))
        (bucket_of_bounds elapsed)
        (cumulative_buckets-add_at elapsed 0 0 (λ b. count_if (is_call_within op b) os)
          l2_latency_bucket_upper_bounds s.latency_buckets bounds-Ascending buckets)),
  length-add_at (bucket_of elapsed 0 l2_latency_bucket_upper_bounds) 1 s.latency_buckets ∙ l,
)
observe_call-Counted op a elapsed class os s false e (calls, buckets, l) = (
  calls
      ∙ ap
          (λ x. (if x then suc (count_if (is_call op) os) else count_if (is_call op) os) % word_mod)
          (sym e),
  Agrees-ext (λ b. count_if (is_call_within op b) os)
      (λ b. count_if (is_call_within op b) (l2_call a elapsed class ∷ os))
      (histogram_buckets s.latency_buckets)
      (λ b.
        ap
          (λ x.
            if x && leb elapsed b
            then suc (count_if (is_call_within op b) os)
            else count_if (is_call_within op b) os)
          (sym e))
      buckets,
  l,
)

add_batch-Counted :
    (op a : Operation) (items : ℕ) (os : List Observation) (s : L2OperationState) (b : Bool)
    → Counted op os s
    → Counted op (batch a items ∷ os) (if b then add_batch items s else s)
unfolding count_if add_batch
add_batch-Counted op a items os s true h = h
add_batch-Counted op a items os s false h = h

change-Counted :
    (op : Operation) (o : Observation) (os : List Observation) (s : L2OperationState)
    → Counted op os s
    → Counted op (o ∷ os) (change op o s)
unfolding count_if
change-Counted op (l2_call a elapsed class) os s h =
    observe_call-Counted op a elapsed class os s (same_operation a op) refl h
change-Counted op (batch a items) os s h = add_batch-Counted op a items os s (same_operation a op) h
change-Counted op (lookups r n) os s h = h
change-Counted op (l1_misses n) os s h = h
change-Counted op (set_degraded b) os s h = h
change-Counted op (subscriber_error e) os s h = h
change-Counted op (post_commit_error o) os s h = h
change-Counted op recovery_attempt os s h = h
change-Counted op (recovery_result b) os s h = h
change-Counted op (invalidation_ready b) os s h = h
change-Counted op (invalidation d t r) os s h = h
change-Counted op (pending_invalidations n) os s h = h
change-Counted op (pending_flush b) os s h = h
change-Counted op l1_mutation_error os s h = h
change-Counted op (l1_flush_fallback r) os s h = h

zero-Agrees :
    (bounds : List ℕ) (n : ℕ) → Agrees (λ b. 0) (cumulative_buckets 0 bounds (replicate n 0))
unfolding cumulative_buckets add64
zero-Agrees [] n = tt
zero-Agrees (b ∷ bs) zero = tt
zero-Agrees (b ∷ bs) (suc n) = (refl, zero-Agrees bs n)

changes-Counted : (op : Operation) (os : List Observation) → Counted op os (changes op os)
unfolding count_if histogram_buckets
changes-Counted op [] = (refl, zero-Agrees l2_latency_bucket_upper_bounds 16, refl)
changes-Counted op (o ∷ os) = change-Counted op o os (changes op os) (changes-Counted op os)

-- After any observations, the calls of an operation are the calls that were observed, its histogram
-- has the 15 bounds, and each of its buckets is the number of those calls that took no longer than
-- its bound, all modulo 2^64.
pub recorded-Counted :
    (op : Operation) (os : List Observation)
    → ((at op (recorded os)).calls ≡ count_if (is_call op) os % word_mod)
      × (map (λ p. p.0) (histogram_buckets (at op (recorded os)).latency_buckets)
          ≡ l2_latency_bucket_upper_bounds)
      × All
          (λ p. p.1 ≡ count_if (is_call_within op p.0) os % word_mod)
          (histogram_buckets (at op (recorded os)).latency_buckets)
unfolding histogram_buckets
recorded-Counted op os =
    let (calls, buckets, l) =
      subst (Counted op os) (sym (at-recorded op os).1) (changes-Counted op os) in
    (
      calls,
      map-cumulative_buckets 0 l2_latency_bucket_upper_bounds (at op (recorded os)).latency_buckets
          (omega (arith, l)),
      buckets,
    )
