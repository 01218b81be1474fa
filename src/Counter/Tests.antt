-- ===== src/Counter/Tests.antt =====
-- Counters at the ends of `int64`.
use frankenphp_tiered_cache.Base.{◌≡◌, true, none, some, arith, if◌then◌else◌}
use frankenphp_tiered_cache.Base.Int.{pos}
use frankenphp_tiered_cache.Counter.Arithmetic.{min_int64, IsInt64, counter_result}
use frankenphp_tiered_cache.Counter.Bounds.{fits, exact_result, counter_result_exact}

one-IsInt64 : IsInt64 (pos 1)
one-IsInt64 = ground arith

min-IsInt64 : IsInt64 min_int64
min-IsInt64 = ground arith

-- `1 - minInt64` overflows.
counter_result_exact_example : counter_result (pos 1) min_int64 true ≡ (
    if fits (exact_result (pos 1) min_int64 true)
    then some (exact_result (pos 1) min_int64 true)
    else none)
counter_result_exact_example = counter_result_exact (pos 1) min_int64 true one-IsInt64 min-IsInt64
