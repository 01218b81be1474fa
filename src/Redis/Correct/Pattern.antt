-- ===== src/Redis/Correct/Pattern.antt =====
-- What `redisScanPattern` matches (internal/cache/redis/cache.go), over any matcher that does what
-- Redis documents of glob patterns.
use frankenphp_tiered_cache.Base.{
  ℕ, zero, suc, ◌≡◌, refl, ap, ◌∙◌, Bool, true, false, ◌&&◌, ◌||◌, List, [], ◌∷◌, ◌++◌, ◌==◌, leb,
  if◌then◌else◌, arith,
}
use frankenphp_tiered_cache.Base.Dict.{Key}
use frankenphp_tiered_cache.Redis.Pattern.{
  is_special, Width, invalid, follow, rune_width, escaped_with, left_after, escape,
  redis_scan_pattern,
}

-- The characters to which Redis documents a meaning in a pattern.
abbrev pub is_glob : ℕ → Bool
is_glob c = c == b'*' || c == b'?' || c == b'[' || c == b'\\'

-- The documented part of MATCH: a star at the end takes any text, a backslash makes the next
-- character an ordinary one, and an ordinary character stands for itself.
pub record GlobLaws (matches : List ℕ → Key → Bool) : Type 0 where
  pub star : (key : Key) → matches (b'*' ∷ []) key ≡ true
  pub quoted_end : (c : ℕ) (p : List ℕ) → matches (b'\\' ∷ c ∷ p) [] ≡ false
  pub quoted :
      (c d : ℕ) (p : List ℕ) (key : Key)
      → matches (b'\\' ∷ c ∷ p) (d ∷ key) ≡ (c == d) && matches p key
  pub plain_end : (c : ℕ) (p : List ℕ) → is_glob c ≡ false → matches (c ∷ p) [] ≡ false
  pub plain :
      (c d : ℕ) (p : List ℕ) (key : Key)
      → is_glob c ≡ false
      → matches (c ∷ p) (d ∷ key) ≡ (c == d) && matches p key

-- Whether a key starts with a prefix.
unfoldable pub has_prefix : List ℕ → Key → Bool
has_prefix [] key = true
has_prefix (c ∷ p) [] = false
has_prefix (c ∷ p) (d ∷ key) = (c == d) && has_prefix p key

abbrev pub is_utf8_with : Width → Bool → Bool
is_utf8_with invalid rest = false
is_utf8_with (follow n) rest = rest

-- Whether a text is valid UTF-8, from `n` bytes within a character on.
unfoldable pub is_utf8 : ℕ → List ℕ → Bool
is_utf8 zero [] = true
is_utf8 (suc n) [] = false
is_utf8 (suc n) (b ∷ s) = leb 128 b && is_utf8 n s
is_utf8 zero (b ∷ s) = is_utf8_with (rune_width b s) (is_utf8 (left_after (rune_width b s)) s)

module _ (matches : List ℕ → Key → Bool) (laws : GlobLaws matches) where
  matches-plain :
      (c : ℕ) (p q : List ℕ) (key : Key)
      → is_glob c ≡ false
      → ((k : Key) → matches p k ≡ has_prefix q k)
      → matches (c ∷ p) key ≡ has_prefix (c ∷ q) key
  unfolding has_prefix
  matches-plain c p q [] h rest = laws.plain_end c p h
  matches-plain c p q (d ∷ key) h rest = laws.plain c d p key h ∙ ap (λ x. (c == d) && x) (rest key)

  matches-quoted :
      (c : ℕ) (p q : List ℕ) (key : Key)
      → ((k : Key) → matches p k ≡ has_prefix q k)
      → matches (b'\\' ∷ c ∷ p) key ≡ has_prefix (c ∷ q) key
  unfolding has_prefix
  matches-quoted c p q [] rest = laws.quoted_end c p
  matches-quoted c p q (d ∷ key) rest = laws.quoted c d p key ∙ ap (λ x. (c == d) && x) (rest key)

  matches-byte :
      (special : Bool) (c : ℕ) (p q : List ℕ) (key : Key)
      → is_special c ≡ special
      → ((k : Key) → matches (p ++ b'*' ∷ []) k ≡ has_prefix q k)
      → matches ((if special then b'\\' ∷ c ∷ p else c ∷ p) ++ b'*' ∷ []) key
        ≡ has_prefix (c ∷ q) key
  matches-byte true c p q key h rest = matches-quoted c (p ++ b'*' ∷ []) q key rest
  matches-byte false c p q key h rest =
      matches-plain c (p ++ b'*' ∷ []) q key (ground (arith, h)) rest

  matches-escaped_with :
      (w : Width) (c : ℕ) (q : List ℕ) (key : Key)
      → ((n : ℕ) (k : Key)
          → is_utf8 n q ≡ true
          → matches (escape n q ++ b'*' ∷ []) k ≡ has_prefix q k)
      → is_utf8_with w (is_utf8 (left_after w) q) ≡ true
      → matches (escaped_with w c (escape (left_after w) q) ++ b'*' ∷ []) key
        ≡ has_prefix (c ∷ q) key
  matches-escaped_with invalid c q key rest h = ground (arith, h)
  matches-escaped_with (follow n) c q key rest h =
      matches-byte (is_special c) c (escape n q) q key refl (λ k. rest n k h)

  matches-escape :
      (n : ℕ) (p : List ℕ) (key : Key)
      → is_utf8 n p ≡ true
      → matches (escape n p ++ b'*' ∷ []) key ≡ has_prefix p key
  unfolding is_utf8 escape has_prefix
  matches-escape zero [] key h = laws.star key
  matches-escape (suc n) [] key h = ground (arith, h)
  matches-escape (suc n) (b ∷ s) key h =
      matches-plain b (escape n s ++ b'*' ∷ []) s key (ground (arith, h))
        (λ k. matches-escape n s k (ground (arith, h)))
  matches-escape zero (b ∷ s) key h =
      matches-escaped_with (rune_width b s) b s key (λ n k v. matches-escape n s k v) h

  -- For a prefix that is valid UTF-8, the pattern matches a key exactly if the key starts with the
  -- prefix, byte by byte, whatever special characters the prefix has.
  pub matches-redis_scan_pattern :
      (p : Key) (key : Key)
      → is_utf8 0 p ≡ true
      → matches (redis_scan_pattern p) key ≡ has_prefix p key
  unfolding redis_scan_pattern
  matches-redis_scan_pattern p key h = matches-escape 0 p key h
