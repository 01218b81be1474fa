-- ===== src/Redis/Correct/Walk.antt =====
-- The traversals that `deleteMatching` makes (internal/cache/redis/cache.go).
use frankenphp_tiered_cache.Base.{
  ℕ, zero, suc, ◌≡◌, refl, Bool, true, false, Option, none, some, List, ◌++◌, ◌==◌, arith,
}
use frankenphp_tiered_cache.Base.Dict.{Key}
use frankenphp_tiered_cache.Contract.{Error}
use frankenphp_tiered_cache.Redis.Config.{flush_scan_count}
use frankenphp_tiered_cache.Redis.Client.{Client, ScanReply}
use frankenphp_tiered_cache.Redis.Flush.{
  Deletion, finished, delete_batch, turn_with, scanned_with, delete_matching,
}

module _ {S : Type 0} (impl : Client S) (match : List ℕ) where
  abbrev pub scanned_state : ℕ → S → S
  scanned_state cursor s = (impl.scan cursor match flush_scan_count s).0

  abbrev pub scan_reply : ℕ → S → ScanReply
  scan_reply cursor s = (impl.scan cursor match flush_scan_count s).1

  abbrev pub deleted_state : ℕ → S → S
  deleted_state cursor s = (delete_batch impl (scan_reply cursor s).keys (scanned_state cursor s)).0

  abbrev pub delete_error : ℕ → S → Option Error
  delete_error cursor s = (delete_batch impl (scan_reply cursor s).keys (scanned_state cursor s)).1

  -- A traversal without an error, from a cursor to its end: the keys that SCAN returned, each batch
  -- deleted before the next call.
  pub data Walk : ℕ → S → List Key → S → Type 0 where
    last_turn :
        (cursor : ℕ) (s : S)
        → (scan_reply cursor s).error ≡ none
        → delete_error cursor s ≡ none
        → (scan_reply cursor s).next == 0 ≡ true
        → Walk cursor s (scan_reply cursor s).keys (deleted_state cursor s)
    turn :
        (cursor : ℕ) (s : S) (seen : List Key) (last : S)
        → (scan_reply cursor s).error ≡ none
        → delete_error cursor s ≡ none
        → (scan_reply cursor s).next == 0 ≡ false
        → Walk (scan_reply cursor s).next (deleted_state cursor s) seen last
        → Walk cursor s ((scan_reply cursor s).keys ++ seen) last

  -- What a loop that ended without an error has walked.
  abbrev pub Walked : ℕ → S → S → Type 0
  Walked cursor s last = (seen : List Key) × Walk cursor s seen last

  turn_with-Walked :
      (cursor : ℕ) (s : S) (next_turn : S → S × Deletion) (e : Option Error) (last : Bool)
      → (scan_reply cursor s).error ≡ none
      → delete_error cursor s ≡ e
      → (scan_reply cursor s).next == 0 ≡ last
      → ((next_turn (deleted_state cursor s)).1 ≡ finished none
          → Walked
              (scan_reply cursor s).next
              (deleted_state cursor s)
              (next_turn (deleted_state cursor s)).0)
      → (turn_with impl e last (deleted_state cursor s) next_turn).1 ≡ finished none
      → Walked cursor s (turn_with impl e last (deleted_state cursor s) next_turn).0
  turn_with-Walked cursor s next_turn (some e) last ok deleted at_end rest h = ground (arith, h)
  turn_with-Walked cursor s next_turn none true ok deleted at_end rest h =
      ((scan_reply cursor s).keys, last_turn cursor s ok deleted at_end)
  turn_with-Walked cursor s next_turn none false ok deleted at_end rest h =
      let (seen, walk) = rest h in
      (
        (scan_reply cursor s).keys ++ seen,
        turn cursor s seen (next_turn (deleted_state cursor s)).0 ok deleted at_end walk,
      )

  scanned_with-Walked :
      (cursor : ℕ) (s : S) (next_turn : S → S × Deletion) (e : Option Error)
      → (scan_reply cursor s).error ≡ e
      → ((next_turn (deleted_state cursor s)).1 ≡ finished none
          → Walked
              (scan_reply cursor s).next
              (deleted_state cursor s)
              (next_turn (deleted_state cursor s)).0)
      → (scanned_with impl e
          (scan_reply cursor s).next
          (scan_reply cursor s).keys
          (scanned_state cursor s)
          next_turn).1
        ≡ finished none
      → Walked cursor s
          (scanned_with impl e
            (scan_reply cursor s).next
            (scan_reply cursor s).keys
            (scanned_state cursor s)
            next_turn).0
  scanned_with-Walked cursor s next_turn (some e) ok rest h = ground (arith, h)
  scanned_with-Walked cursor s next_turn none ok rest h =
      turn_with-Walked cursor s next_turn (delete_error cursor s) ((scan_reply cursor s).next == 0)
        ok refl refl rest h

  pub delete_matching-Walked :
      (fuel cursor : ℕ) (s : S)
      → (delete_matching impl fuel match cursor s).1 ≡ finished none
      → Walked cursor s (delete_matching impl fuel match cursor s).0
  unfolding delete_matching
  delete_matching-Walked zero cursor s h = ground (arith, h)
  delete_matching-Walked (suc fuel) cursor s h =
      scanned_with-Walked cursor s
        (λ s2. delete_matching impl fuel match (scan_reply cursor s).next s2)
        (scan_reply cursor s).error refl
        (delete_matching-Walked fuel (scan_reply cursor s).next (deleted_state cursor s)) h
