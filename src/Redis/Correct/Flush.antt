-- ===== src/Redis/Correct/Flush.antt =====
-- `Flush` of the Redis backend as a whole (internal/cache/redis/cache.go).
use frankenphp_tiered_cache.Base.{
  ℕ, zero, suc, ◌<◌, ◌≡◌, refl, ap, ◌∙◌, Bool, true, false, Option, none, some, List, ◌==◌,
  if◌then◌else◌, arith,
}
use frankenphp_tiered_cache.Base.Dict.{Key}
use frankenphp_tiered_cache.Contract.{Error, Reply, Bytes, success}
use frankenphp_tiered_cache.Redis.Pattern.{redis_scan_pattern}
use frankenphp_tiered_cache.Redis.Client.{Client}
use frankenphp_tiered_cache.Redis.Cache.{RedisCache}
use frankenphp_tiered_cache.Redis.Flush.{
  Deletion, finished, turn_with, scanned_with, delete_matching, flushed, flush,
}
use frankenphp_tiered_cache.Redis.Correct.Pattern.{
  GlobLaws, has_prefix, is_utf8, matches-redis_scan_pattern,
}
use frankenphp_tiered_cache.Redis.Correct.Walk.{
  scanned_state, scan_reply, deleted_state, delete_error, delete_matching-Walked,
}
use frankenphp_tiered_cache.Redis.Correct.Server.{ServerLaws, Walk-clears}

module _ {S : Type 0} (impl : Client S) (matches : List ℕ → Key → Bool)
    (stored : Key → S → Option Bytes) (left : ℕ → S → ℕ)
    (laws : ServerLaws impl matches stored left) where
  -- The loop ends on fuel that exceeds the calls that are left.
  delete_matching-ends :
      (fuel cursor : ℕ) (match : List ℕ) (s : S)
      → left cursor s < fuel
      → (e : Option Error) × ((delete_matching impl fuel match cursor s).1 ≡ finished e)
  unfolding delete_matching
  delete_matching-ends zero cursor match s h = ground (arith, h)
  delete_matching-ends (suc fuel) cursor match s h =
      scanned (scan_reply impl match cursor s).error (λ at_end.
        delete_matching-ends fuel (scan_reply impl match cursor s).next match
          (deleted_state impl match cursor s) (omega (arith, h, laws.ends cursor match s at_end)))
    where
      next_turn : S → S × Deletion
      next_turn s2 = delete_matching impl fuel match (scan_reply impl match cursor s).next s2

      turned :
          (e : Option Error) (last : Bool)
          → (last ≡ false
              → (e : Option Error) × ((next_turn (deleted_state impl match cursor s)).1
                  ≡ finished e))
          → (x : Option Error) × ((turn_with impl e last
                (deleted_state impl match cursor s)
                next_turn).1
              ≡ finished x)
      turned (some e) last rest = (some e, refl)
      turned none true rest = (none, refl)
      turned none false rest = rest refl

      scanned :
          (e : Option Error)
          → ((scan_reply impl match cursor s).next == 0 ≡ false
              → (e : Option Error) × ((next_turn (deleted_state impl match cursor s)).1
                  ≡ finished e))
          → (x : Option Error) × ((scanned_with impl e
                (scan_reply impl match cursor s).next
                (scan_reply impl match cursor s).keys
                (scanned_state impl match cursor s)
                next_turn).1
              ≡ finished x)
      scanned (some e) rest = (some e, refl)
      scanned none rest =
          turned (delete_error impl match cursor s) ((scan_reply impl match cursor s).next == 0)
            rest

  -- What the answer of `Flush` means for the server: after `true`, no key with the prefix is left
  -- and every other key is as before.
  abbrev pub Flushed : Key → S → S → Option Error → Bool → Type 0
  Flushed key_prefix before after (some e) answer = answer ≡ false
  Flushed key_prefix before after none answer =
      (answer ≡ true)
      × ((key : Key)
          → stored key after ≡ (if has_prefix key_prefix key then none else stored key before))

  flushed-Flushed :
      (globs : GlobLaws matches) (key_prefix : Key) (before : S) (fuel : ℕ) (e : Option Error)
      → is_utf8 0 key_prefix ≡ true
      → (delete_matching impl fuel (redis_scan_pattern key_prefix) 0 before).1 ≡ finished e
      → (r : Reply Bool) × (flushed impl (finished e) ≡ some r)
        × Flushed key_prefix before
            (delete_matching impl fuel (redis_scan_pattern key_prefix) 0 before).0
            r.error
            r.result
  flushed-Flushed globs key_prefix before fuel (some e) valid h =
      (record { result = false; error = some e }, refl, refl)
  flushed-Flushed globs key_prefix before fuel none valid h =
      let (seen, walk) =
        delete_matching-Walked impl (redis_scan_pattern key_prefix) fuel 0 before h in
      (
        success true,
        refl,
        (
          refl,
          λ key.
              Walk-clears impl matches stored left laws key (redis_scan_pattern key_prefix) before
                (delete_matching impl fuel (redis_scan_pattern key_prefix) 0 before).0 seen walk
              ∙ ap (λ b. if b then none else stored key before)
                  (matches-redis_scan_pattern matches globs key_prefix key valid),
        ),
      )

  -- For a prefix that is valid UTF-8, `Flush` ends on fuel that exceeds the SCAN calls of a
  -- traversal. If it answers `true` then no key that starts with the prefix is left on the server
  -- and every other key is as before; otherwise it answers `false` with the error.
  pub flush-Flushed :
      (globs : GlobLaws matches) (fuel : ℕ) (c : RedisCache S)
      → is_utf8 0 c.key_prefix ≡ true
      → left 0 c.client < fuel
      → (r : Reply Bool) × ((flush impl fuel c).1 ≡ some r)
        × Flushed c.key_prefix c.client (flush impl fuel c).0.client r.error r.result
  unfolding flush
  flush-Flushed globs fuel c valid enough =
      let (e, h) = delete_matching-ends fuel 0 (redis_scan_pattern c.key_prefix) c.client enough in
      let (r, answer, rest) = flushed-Flushed globs c.key_prefix c.client fuel e valid h in
      (r, ap (flushed impl) h ∙ answer, rest)
