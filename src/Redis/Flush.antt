-- ===== src/Redis/Flush.antt =====
-- `Flush` and `deleteMatching` of `RedisCache` (internal/cache/redis/cache.go).
use frankenphp_tiered_cache.Base.{
  ℕ, zero, suc, Bool, true, false, Option, none, some, List, [], ◌∷◌, ◌==◌,
}
use frankenphp_tiered_cache.Base.Dict.{Key}
use frankenphp_tiered_cache.Contract.{Error, Reply, success}
use frankenphp_tiered_cache.Redis.Config.{flush_scan_count}
use frankenphp_tiered_cache.Redis.Pattern.{redis_scan_pattern}
use frankenphp_tiered_cache.Redis.Client.{Client}
use frankenphp_tiered_cache.Redis.Cache.{RedisCache, call}

-- How the loop ended: `unfinished` is out of fuel.
pub data Deletion : Type 0 where
  finished : Option Error → Deletion
  unfinished : Deletion

module _ {S : Type 0} (impl : Client S) where
  -- DEL, unless there is no key.
  unfoldable pub delete_batch : List Key → S → S × Option Error
  delete_batch [] s = (s, none)
  delete_batch (k ∷ ks) s = (let (s1, r) = impl.del (k ∷ ks) s in (s1, r.error))

  -- The end of one turn, given what the next turn does.
  abbrev pub turn_with : Option Error → Bool → S → (S → S × Deletion) → S × Deletion
  turn_with (some e) last s next_turn = (s, finished (some e))
  turn_with none true s next_turn = (s, finished none)
  turn_with none false s next_turn = next_turn s

  abbrev pub scanned_with : Option Error → ℕ → List Key → S → (S → S × Deletion) → S × Deletion
  scanned_with (some e) next keys s next_turn = (s, finished (some e))
  scanned_with none next keys s next_turn =
      let (s1, e) = delete_batch keys s in turn_with e (next == 0) s1 next_turn

  unfoldable pub delete_matching : ℕ → List ℕ → ℕ → S → S × Deletion
  delete_matching zero match cursor s = (s, unfinished)
  delete_matching (suc fuel) match cursor s =
      let (s1, r) = impl.scan cursor match flush_scan_count s in
      scanned_with r.error r.next r.keys s1 (λ s2. delete_matching fuel match r.next s2)

  abbrev pub flushed : Deletion → Option (Reply Bool)
  flushed (finished none) = some (success true)
  flushed (finished (some e)) = some (record { result = false; error = some e })
  flushed unfinished = none

  -- `none` is a loop that is still running.
  unfoldable pub flush : ℕ → RedisCache S → RedisCache S × Option (Reply Bool)
  flush fuel c =
      let (c1, d) = call (delete_matching fuel (redis_scan_pattern c.key_prefix) 0) c in
      (c1, flushed d)
