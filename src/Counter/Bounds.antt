-- ===== src/Counter/Bounds.antt =====
-- The overflow checks of the counters against exact integers.
use frankenphp_tiered_cache.Base.{◌≡◌, Bool, true, false, none, some, arith, if◌then◌else◌, ◌&&◌}
use frankenphp_tiered_cache.Base.Int.{
  ℤ, pos, negsuc, ◌+ℤ◌, ◌-ℤ◌, leb_ℤ, +ℤ_parts, -ℤ_parts, eq_of_parts,
}
use frankenphp_tiered_cache.Counter.Arithmetic.{
  min_int64, max_int64, to_int64, IsInt64, checked_counter_add, counter_result,
}

-- An `int64` keeps its value.
pub to_int64_exact : (z : ℤ) → IsInt64 z → to_int64 z ≡ z
unfolding to_int64
to_int64_exact (pos n) h = ground arith
to_int64_exact (negsuc n) h = ground arith

-- Whether an integer fits an `int64`.
abbrev pub fits : ℤ → Bool
fits z = leb_ℤ min_int64 z && leb_ℤ z max_int64

pub checked_counter_add_exact :
    (current value : ℤ)
    → IsInt64 current
    → IsInt64 value
    → checked_counter_add current value
      ≡ (if fits (current +ℤ value) then some (current +ℤ value) else none)
unfolding checked_counter_add
checked_counter_add_exact current value h k = ground (
  arith,
  to_int64_exact (max_int64 -ℤ value),
  to_int64_exact (min_int64 -ℤ value),
  to_int64_exact (current +ℤ value),
  +ℤ_parts current value,
  -ℤ_parts max_int64 value,
  -ℤ_parts min_int64 value,
)

abbrev pub exact_result : ℤ → ℤ → Bool → ℤ
exact_result current value false = current +ℤ value
exact_result current value true = current -ℤ value

-- For an `int64` counter and operand, the result of an increment or decrement is the exact sum or
-- difference if an `int64` holds that, and an overflow error (`none`) otherwise; `minInt64` is no
-- exception.
pub counter_result_exact :
    (current value : ℤ) (decrement : Bool)
    → IsInt64 current
    → IsInt64 value
    → counter_result current value decrement ≡ (
        if fits (exact_result current value decrement)
        then some (exact_result current value decrement)
        else none)
unfolding counter_result
counter_result_exact current value false h k = checked_counter_add_exact current value h k
counter_result_exact current value true h k = ground (
  arith,
  checked_counter_add_exact current (pos 0 -ℤ value),
  to_int64_exact (pos 0 -ℤ value),
  to_int64_exact (max_int64 +ℤ current),
  to_int64_exact (max_int64 +ℤ current +ℤ pos 1),
  +ℤ_parts max_int64 current,
  +ℤ_parts (max_int64 +ℤ current) (pos 1),
  -ℤ_parts (pos 0) value,
  -ℤ_parts current value,
  +ℤ_parts current (pos 0 -ℤ value),
  eq_of_parts (max_int64 +ℤ current +ℤ pos 1) (current -ℤ value),
  eq_of_parts (current +ℤ (pos 0 -ℤ value)) (current -ℤ value),
)
