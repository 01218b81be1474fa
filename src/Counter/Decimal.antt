-- ===== src/Counter/Decimal.antt =====
-- `strconv.FormatInt(z, 10)` and `strconv.ParseInt(s, 10, 64)` on byte strings.
use frankenphp_tiered_cache.Base.{
  ℕ, zero, suc, ◌+◌, ◌-◌, ◌*◌, ◌/◌, ◌%◌, ◌^◌, Bool, true, false, ◌&&◌, Option, none, some, List, [],
  ◌∷◌, ◌++◌, ◌==◌, ltb, leb, if◌then◌else◌,
}
use frankenphp_tiered_cache.Base.Int.{ℤ, pos, negsuc}

-- The digits of a number, on the number of digits that are left to write.
unfoldable pub format_digits : ℕ → ℕ → List ℕ
format_digits zero n = []
format_digits (suc left) n =
    let rest = format_digits left (n / 10) in
    if ltb n 10 then (n + b'0') ∷ [] else rest ++ (n % 10 + b'0') ∷ []

-- An `int64` has at most 19 digits.
unfoldable pub format_int : ℤ → List ℕ
format_int (pos n) = format_digits 19 n
format_int (negsuc n) = b'-' ∷ format_digits 19 (suc n)

abbrev pub is_digit : ℕ → Bool
is_digit c = leb b'0' c && leb c b'9'

unfoldable pub parse_digits : ℕ → List ℕ → Option ℕ
parse_digits acc [] = some acc
parse_digits acc (c ∷ s) =
    let rest = parse_digits (acc * 10 + (c - b'0')) s in if is_digit c then rest else none

-- A text without digits is refused.
abbrev pub parse_unsigned : List ℕ → Option ℕ
parse_unsigned [] = none
parse_unsigned (c ∷ s) = parse_digits 0 (c ∷ s)

abbrev pub in_range : Bool → Option ℕ → Option ℤ
in_range negative none = none
in_range false (some n) = if ltb n (2 ^ 63) then some (pos n) else none
in_range true (some zero) = some (pos 0)
in_range true (some (suc n)) = if ltb n (2 ^ 63) then some (negsuc n) else none

-- `none` is a syntax or a range error.
unfoldable pub parse_int : List ℕ → Option ℤ
parse_int [] = none
parse_int (c ∷ s) =
    if c == b'+'
    then in_range false (parse_unsigned s)
    else if c == b'-'
    then in_range true (parse_unsigned s)
    else in_range false (parse_unsigned (c ∷ s))
