-- ===== src/Redis/Tests/Flush.antt =====
-- Runs of `Flush` and of the pattern (internal/cache/redis/cache.go).
use frankenphp_tiered_cache.Base.{◌≡◌, refl, Bool, true, none, some, arith, false}
use frankenphp_tiered_cache.Contract.{Reply}
use frankenphp_tiered_cache.Redis.Pattern.{redis_scan_pattern, rune_width}
use frankenphp_tiered_cache.Redis.Cache.{RedisCache}
use frankenphp_tiered_cache.Redis.Flush.{flush}
use frankenphp_tiered_cache.Redis.Correct.Pattern.{has_prefix, is_utf8, matches-redis_scan_pattern}
use frankenphp_tiered_cache.Redis.Correct.Flush.{Flushed, flush-Flushed}
use frankenphp_tiered_cache.Redis.Tests.Server.{
  glob, glob-GlobLaws, only_key, key_prefix, stored, left, server, server-ServerLaws,
}

key_prefix_valid : is_utf8 0 key_prefix ≡ true
unfolding is_utf8 rune_width
key_prefix_valid = refl

matches-redis_scan_pattern_example :
    glob (redis_scan_pattern key_prefix) only_key ≡ has_prefix key_prefix only_key
matches-redis_scan_pattern_example =
    matches-redis_scan_pattern glob glob-GlobLaws key_prefix only_key key_prefix_valid

abbrev full : RedisCache Bool
full = record { client = true; key_prefix = key_prefix; closed_once = false; close_err = none }

flush-Flushed_example :
    (r : Reply Bool) × ((flush server 1 full).1 ≡ some r)
    × Flushed server glob stored left server-ServerLaws key_prefix true
        (flush server 1 full).0.client
        r.error
        r.result
flush-Flushed_example =
    flush-Flushed server glob stored left server-ServerLaws glob-GlobLaws 1 full key_prefix_valid
      (omega arith)
