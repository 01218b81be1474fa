-- ===== src/Counter/Arithmetic.antt =====
-- `checkedCounterAdd` and `counterResult` of internal/cache/memory/cache.go.
use frankenphp_tiered_cache.Base.{
  ◌-◌, ◌%◌, ◌^◌, Bool, true, false, ◌&&◌, Option, none, some, ltb, if◌then◌else◌,
}
use frankenphp_tiered_cache.Base.Int.{ℤ, pos, negsuc, ◌+ℤ◌, ◌-ℤ◌, ◌≤ℤ◌, ltb_ℤ, leb_ℤ}

abbrev pub min_int64 : ℤ
min_int64 = negsuc (2 ^ 63 - 1)

abbrev pub max_int64 : ℤ
max_int64 = pos (2 ^ 63 - 1)

-- The `int64` that has the bits of an integer.
unfoldable pub to_int64 : ℤ → ℤ
to_int64 (pos n) =
    if ltb (n % 2 ^ 64) (2 ^ 63) then pos (n % 2 ^ 64) else negsuc (2 ^ 64 - 1 - n % 2 ^ 64)
to_int64 (negsuc n) =
    if ltb (n % 2 ^ 64) (2 ^ 63) then negsuc (n % 2 ^ 64) else pos (2 ^ 64 - 1 - n % 2 ^ 64)

abbrev pub IsInt64 : ℤ → Type 0
IsInt64 z = (min_int64 ≤ℤ z) × (z ≤ℤ max_int64)

-- `none` is ErrCounterOverflow.
unfoldable pub checked_counter_add : ℤ → ℤ → Option ℤ
checked_counter_add current value =
    if ltb_ℤ (pos 0) value && ltb_ℤ (to_int64 (max_int64 -ℤ value)) current
    then none
    else if ltb_ℤ value (pos 0) && ltb_ℤ current (to_int64 (min_int64 -ℤ value))
    then none
    else some (to_int64 (current +ℤ value))

-- The test `value == minInt64`, for an `int64`.
abbrev pub is_min_int64 : ℤ → Bool
is_min_int64 value = leb_ℤ value min_int64

unfoldable pub counter_result : ℤ → ℤ → Bool → Option ℤ
counter_result current value false = checked_counter_add current value
counter_result current value true =
    if is_min_int64 value
    then if leb_ℤ (pos 0) current
      then none
      else some (to_int64 (to_int64 (max_int64 +ℤ current) +ℤ pos 1))
    else checked_counter_add current (to_int64 (pos 0 -ℤ value))
