-- ===== src/Observability/Histogram.antt =====
-- The histogram of an operation's latency (`histogramBuckets` of
-- internal/observability/collector.go). A bound stays in nanoseconds: seconds are its print.
use frankenphp_tiered_cache.Base.{ℕ, List, [], ◌∷◌}
use frankenphp_tiered_cache.Base.Word.{add64}
use frankenphp_tiered_cache.Observability.State.{l2_latency_bucket_upper_bounds}

-- The loop over the bounds and their counts, with the sum so far.
unfoldable pub cumulative_buckets : ℕ → List ℕ → List ℕ → List (ℕ × ℕ)
cumulative_buckets sum [] counts = []
cumulative_buckets sum (bound ∷ bounds) [] = []
cumulative_buckets sum (bound ∷ bounds) (count ∷ counts) =
    (bound, add64 sum count) ∷ cumulative_buckets (add64 sum count) bounds counts

unfoldable pub histogram_buckets : List ℕ → List (ℕ × ℕ)
histogram_buckets counts = cumulative_buckets 0 l2_latency_bucket_upper_bounds counts
