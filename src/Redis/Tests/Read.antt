-- ===== src/Redis/Tests/Read.antt =====
-- Runs of `GetMany` and `SetMany` (internal/cache/redis/cache.go).
use frankenphp_tiered_cache.Base.{◌≡◌, refl, Bool, true, false, Option, none, some, List, [], ◌∷◌}
use frankenphp_tiered_cache.Base.Dict.{Key, lookup}
use frankenphp_tiered_cache.Base.Int.{pos}
use frankenphp_tiered_cache.Contract.{Bytes}
use frankenphp_tiered_cache.Redis.Client.{redis_client}
use frankenphp_tiered_cache.Redis.Cache.{RedisCache, ErrorTests, is_member, get, get_many, set_many}
use frankenphp_tiered_cache.Redis.Correct.Script.{when}
use frankenphp_tiered_cache.Redis.Correct.Read.{get_many_reads}
use frankenphp_tiered_cache.Redis.Correct.Write.{Sends, set_many-Sends}
use frankenphp_tiered_cache.Redis.Tests.Server.{
  commands, commands-ScriptLaws, entry, key_prefix, only_value, server,
}

abbrev tests : ErrorTests
tests = record {
  is_nil_reply = λ e. false;
  is_redis_error = λ e. true;
  has_error_prefix = λ e p. true;
}

abbrev full : RedisCache Bool
full = record { client = true; key_prefix = key_prefix; closed_once = false; close_err = none }

get_many_reads_example :
    ((get_many (redis_client commands) ((b'x' ∷ []) ∷ (b'x' ∷ []) ∷ []) full).0 ≡ full)
    × ((get_many (redis_client commands) ((b'x' ∷ []) ∷ (b'x' ∷ []) ∷ []) full).1.error ≡ none)
    × (lookup
          (b'x' ∷ [])
          (get_many (redis_client commands) ((b'x' ∷ []) ∷ (b'x' ∷ []) ∷ []) full).1.result
        ≡ when
            (is_member (b'x' ∷ []) ((b'x' ∷ []) ∷ (b'x' ∷ []) ∷ []))
            (get (redis_client commands) tests (b'x' ∷ []) full).1.result)
get_many_reads_example =
    get_many_reads commands entry commands-ScriptLaws tests ((b'x' ∷ []) ∷ (b'x' ∷ []) ∷ [])
      (b'x' ∷ []) full

abbrev batch : List (Key × Option Bytes)
batch = (b'x' ∷ [], some only_value) ∷ []

set_many-Sends_example : Sends server batch (pos 5) full (set_many server batch (pos 5) full)
set_many-Sends_example = set_many-Sends server (b'x' ∷ [], some only_value) [] (pos 5) full refl
