-- ===== src/Redis/Config.antt =====
-- The configuration of the Redis backend and of the bus (internal/cache/redis/config.go).
use frankenphp_tiered_cache.Base.{
  ℕ, Bool, ◌⊎◌, inl, inr, Option, none, some, [], ◌∷◌, if◌then◌else◌,
}
use frankenphp_tiered_cache.Base.Int.{ℤ, pos, ltb_ℤ}
use frankenphp_tiered_cache.Base.Dict.{Key}
use frankenphp_tiered_cache.Contract.{Duration}

pub record Config : Type 0 where
  pub addr : Key
  pub username : Key
  pub password : Key
  pub db : ℤ
  pub key_prefix : Key
  pub dial_timeout : Duration
  pub read_timeout : Duration
  pub write_timeout : Duration

pub data ConfigError : Type 0 where
  negative_db negative_dial_timeout negative_read_timeout negative_write_timeout : ConfigError

-- 127.0.0.1:6379
abbrev pub default_addr : Key
default_addr =
    b'1' ∷ b'2' ∷ b'7' ∷ b'.' ∷ b'0' ∷ b'.' ∷ b'0' ∷ b'.' ∷ b'1' ∷ b':' ∷ b'6' ∷ b'3' ∷ b'7' ∷ b'9'
    ∷ []

-- franken_cache:
abbrev pub default_key_prefix : Key
default_key_prefix =
    b'f' ∷ b'r' ∷ b'a' ∷ b'n' ∷ b'k' ∷ b'e' ∷ b'n' ∷ b'_' ∷ b'c' ∷ b'a' ∷ b'c' ∷ b'h' ∷ b'e' ∷ b':'
    ∷ []

abbrev pub flush_scan_count : ℕ
flush_scan_count = 100

abbrev pub or_default : Key → Key → Key
or_default [] d = d
or_default (c ∷ s) d = c ∷ s

abbrev pub is_negative : ℤ → Bool
is_negative z = ltb_ℤ z (pos 0)

abbrev pub with_defaults : Config → Config
with_defaults c = record c {
  addr = or_default c.addr default_addr;
  key_prefix = or_default c.key_prefix default_key_prefix;
}

unfoldable pub config_error : Config → Option ConfigError
config_error c =
    if is_negative c.db
    then some negative_db
    else if is_negative c.dial_timeout
    then some negative_dial_timeout
    else if is_negative c.read_timeout
    then some negative_read_timeout
    else if is_negative c.write_timeout
    then some negative_write_timeout
    else none

abbrev pub normalized_with : Option ConfigError → Config → ConfigError ⊎ Config
normalized_with none c = inr c
normalized_with (some e) c = inl e

unfoldable pub normalized : Config → ConfigError ⊎ Config
unfolding config_error
normalized c = normalized_with (config_error (with_defaults c)) (with_defaults c)
