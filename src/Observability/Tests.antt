-- ===== src/Observability/Tests.antt =====
-- Runs of the metrics and of the pressure reporter (internal/observability).
use frankenphp_tiered_cache.Base.{◌%◌, ◌≡◌, refl, false, List, [], ◌∷◌, map, All, arith}
use frankenphp_tiered_cache.Base.Int.{pos}
use frankenphp_tiered_cache.Base.Word.{word_mod, add64}
use frankenphp_tiered_cache.Counter.{to_int64}
use frankenphp_tiered_cache.Observability.Observation.{
  Operation, Observation, l2_call, batch, error_none, error_transport,
}
use frankenphp_tiered_cache.Observability.Metrics.{recorded}
use frankenphp_tiered_cache.Observability.State.{l2_latency_bucket_upper_bounds}
use frankenphp_tiered_cache.Observability.Histogram.{histogram_buckets}
use frankenphp_tiered_cache.Observability.Pressure.{
  PressureEvent, eviction, tick, close, observe_eviction, flush_pressure, pressure_step,
  pressure_run,
}
use frankenphp_tiered_cache.Observability.Correct.Counts.{at}
use frankenphp_tiered_cache.Observability.Correct.Histogram.{recorded-Counted}
use frankenphp_tiered_cache.Observability.Correct.Buckets.{count_if, is_call, is_call_within}
use frankenphp_tiered_cache.Observability.Correct.Pressure.{fresh, reports_everything}
use frankenphp_tiered_cache.Observability.Correct.Evictions.{
  total_entries, total_bytes, reported_entries, reported_bytes,
}

-- A slow failure, a batch and a fast read.
abbrev observations : List Observation
observations =
    l2_call Operation.get 20000000000 error_transport
    ∷ batch Operation.get_many 3
    ∷ l2_call Operation.get 700000 error_none
    ∷ []

recorded-Counted_example :
    ((at Operation.get (recorded observations)).calls
      ≡ count_if (is_call Operation.get) observations % word_mod)
    × (map (λ p. p.0) (histogram_buckets (at Operation.get (recorded observations)).latency_buckets)
        ≡ l2_latency_bucket_upper_bounds)
    × All
        (λ p. p.1 ≡ count_if (is_call_within Operation.get p.0) observations % word_mod)
        (histogram_buckets (at Operation.get (recorded observations)).latency_buckets)
recorded-Counted_example = recorded-Counted Operation.get observations

abbrev events : List PressureEvent
events = eviction 2 (pos 30) ∷ tick ∷ tick ∷ eviction 0 (pos 5) ∷ eviction 1 (pos 4) ∷ []

totals : (total_entries events ≡ 3) × (total_bytes events ≡ 34)
unfolding total_entries total_bytes
totals = (refl, refl)

still_running : (pressure_run events (fresh (pos 60))).stopped ≡ false
unfolding pressure_run pressure_step observe_eviction flush_pressure add64 to_int64
still_running = refl

reports_everything_example :
    (reported_entries (pressure_step close (pressure_run events (fresh (pos 60)))).reports
      ≡ total_entries events)
    × (reported_bytes (pressure_step close (pressure_run events (fresh (pos 60)))).reports
        ≡ total_bytes events)
reports_everything_example =
    reports_everything (pos 60) events (omega (arith, totals.0)) (omega (arith, totals.1))
      still_running
