-- ===== src/Redis/Pattern.antt =====
-- The key prefix of the Redis backend and the pattern that finds the keys with it
-- (`prefixedKey` and `redisScanPattern` of internal/cache/redis/cache.go).
use frankenphp_tiered_cache.Base.{
  ℕ, zero, suc, Bool, ◌&&◌, ◌||◌, List, [], ◌∷◌, ◌++◌, ◌==◌, leb, if◌then◌else◌,
}
use frankenphp_tiered_cache.Base.Dict.{Key}

abbrev pub prefixed_key : Key → Key → Key
prefixed_key key_prefix key = key_prefix ++ key

abbrev pub is_within : ℕ → ℕ → ℕ → Bool
is_within low high b = leb low b && leb b high

-- A byte that can only go on with a character.
abbrev pub is_continuation : ℕ → Bool
is_continuation b = is_within 128 191 b

-- Whether a character of two bytes, of three or of four starts with these.
abbrev pub is_two : ℕ → ℕ → Bool
is_two a b = is_within 194 223 a && is_continuation b

abbrev pub is_three : ℕ → ℕ → ℕ → Bool
is_three a b c =
    ((a == 224 && is_within 160 191 b)
      || (is_within 225 236 a && is_continuation b)
      || (a == 237 && is_within 128 159 b)
      || (is_within 238 239 a && is_continuation b))
    && is_continuation c

abbrev pub is_four : ℕ → ℕ → ℕ → ℕ → Bool
is_four a b c d =
    ((a == 240 && is_within 144 191 b)
      || (is_within 241 243 a && is_continuation b)
      || (a == 244 && is_within 128 143 b))
    && is_continuation c
    && is_continuation d

-- How many bytes follow the first one in the character that a text starts with; `invalid` where
-- `range` finds no character and yields U+FFFD for one byte.
pub data Width : Type 0 where
  invalid : Width
  follow : ℕ → Width

abbrev width_four : ℕ → List ℕ → Width
width_four a (b ∷ c ∷ d ∷ _) = if is_four a b c d then follow 3 else invalid
width_four a _ = invalid

abbrev width_three : ℕ → List ℕ → Width
width_three a (b ∷ c ∷ s) = if is_three a b c then follow 2 else width_four a (b ∷ c ∷ s)
width_three a _ = invalid

abbrev width_two : ℕ → List ℕ → Width
width_two a (b ∷ s) = if is_two a b then follow 1 else width_three a (b ∷ s)
width_two a [] = invalid

unfoldable pub rune_width : ℕ → List ℕ → Width
rune_width a s = if leb a 127 then follow 0 else width_two a s

-- `case '\\', '*', '?', '['`
abbrev pub is_special : ℕ → Bool
is_special c = c == b'\\' || c == b'*' || c == b'?' || c == b'['

-- U+FFFD in UTF-8.
abbrev pub replacement : List ℕ
replacement = 239 ∷ 191 ∷ 189 ∷ []

abbrev pub escaped_with : Width → ℕ → List ℕ → List ℕ
escaped_with invalid c rest = replacement ++ rest
escaped_with (follow n) c rest = if is_special c then b'\\' ∷ c ∷ rest else c ∷ rest

abbrev pub left_after : Width → ℕ
left_after invalid = 0
left_after (follow n) = n

-- The loop, on how many bytes of the present character are left to copy. `WriteRune` writes back
-- the bytes of the character that `range` has read.
unfoldable pub escape : ℕ → List ℕ → List ℕ
escape n [] = []
escape (suc n) (b ∷ s) = b ∷ escape n s
escape zero (b ∷ s) = escaped_with (rune_width b s) b (escape (left_after (rune_width b s)) s)

unfoldable pub redis_scan_pattern : Key → List ℕ
redis_scan_pattern key_prefix = escape 0 key_prefix ++ b'*' ∷ []
