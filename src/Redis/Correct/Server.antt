-- ===== src/Redis/Correct/Server.antt =====
-- What a traversal of `deleteMatching` leaves of a server (internal/cache/redis/cache.go), over any
-- server that does what Redis documents of SCAN and DEL.
use frankenphp_tiered_cache.Base.{
  ℕ, ◌<◌, ◌≡◌, refl, sym, ap, ◌∙◌, ◌≢◌, inl, inr, Bool, true, false, Option, none, List, [], ◌∷◌,
  ◌++◌, ◌==◌, if◌then◌else◌, arith, Option-cases,
}
use frankenphp_tiered_cache.Base.Dict.{Key}
use frankenphp_tiered_cache.Contract.{Bytes}
use frankenphp_tiered_cache.Redis.Client.{Client}
use frankenphp_tiered_cache.Redis.Cache.{is_member}
use frankenphp_tiered_cache.Redis.Flush.{delete_batch}
use frankenphp_tiered_cache.Redis.Correct.Walk.{
  scanned_state, scan_reply, deleted_state, delete_error, Walk, last_turn, turn,
}

-- The documented part of SCAN and DEL, for a server that no other client writes to meanwhile. A
-- traversal returns every key that stays from its start to its end, possibly more than once, and
-- ends: `left` bounds the calls that are left.
pub record ServerLaws {S : Type 0} (impl : Client S) (matches : List ℕ → Key → Bool)
    (stored : Key → S → Option Bytes) (left : ℕ → S → ℕ) : Type 0 where
  pub scan_keeps :
      (k : Key) (cursor : ℕ) (match : List ℕ) (s : S)
      → stored k (scanned_state impl match cursor s) ≡ stored k s
  pub scan_matches :
      (k : Key) (cursor : ℕ) (match : List ℕ) (s : S)
      → is_member k (scan_reply impl match cursor s).keys ≡ true
      → matches match k ≡ true
  pub del_keeps :
      (k : Key) (ks : List Key) (s : S)
      → is_member k ks ≡ false
      → stored k (impl.del ks s).0 ≡ stored k s
  pub del_removes :
      (k : Key) (ks : List Key) (s : S)
      → (impl.del ks s).1.error ≡ none
      → is_member k ks ≡ true
      → stored k (impl.del ks s).0 ≡ none
  pub traversal :
      (k : Key) (match : List ℕ) (s last : S) (seen : List Key)
      → Walk impl match 0 s seen last
      → matches match k ≡ true
      → stored k last ≢ none
      → is_member k seen ≡ true
  pub ends :
      (cursor : ℕ) (match : List ℕ) (s : S)
      → (scan_reply impl match cursor s).next == 0 ≡ false
      → left (scan_reply impl match cursor s).next (deleted_state impl match cursor s)
        < left cursor s

is_member-append :
    (k : Key) (xs ys : List Key)
    → is_member k (xs ++ ys) ≡ (if is_member k xs then true else is_member k ys)
is_member-append k [] ys = refl
is_member-append k (x ∷ xs) ys = ground (arith, is_member-append k xs ys)

module _ {S : Type 0} (impl : Client S) (matches : List ℕ → Key → Bool)
    (stored : Key → S → Option Bytes) (left : ℕ → S → ℕ)
    (laws : ServerLaws impl matches stored left) where
  -- A batch that was deleted without an error: its keys are gone and the others are as before.
  stored-delete_batch :
      (k : Key) (ks : List Key) (s : S)
      → (delete_batch impl ks s).1 ≡ none
      → stored k (delete_batch impl ks s).0 ≡ (if is_member k ks then none else stored k s)
  unfolding delete_batch
  stored-delete_batch k [] s ok = refl
  stored-delete_batch k (j ∷ ks) s ok = go (is_member k (j ∷ ks)) refl
    where
      go :
          (b : Bool)
          → is_member k (j ∷ ks) ≡ b
          → stored k (impl.del (j ∷ ks) s).0 ≡ (if b then none else stored k s)
      go true h = laws.del_removes k (j ∷ ks) s ok h
      go false h = laws.del_keeps k (j ∷ ks) s h

  stored-deleted_state :
      (k : Key) (match : List ℕ) (cursor : ℕ) (s : S)
      → delete_error impl match cursor s ≡ none
      → stored k (deleted_state impl match cursor s)
        ≡ (if is_member k (scan_reply impl match cursor s).keys then none else stored k s)
  stored-deleted_state k match cursor s ok =
      stored-delete_batch k (scan_reply impl match cursor s).keys
        (scanned_state impl match cursor s) ok
      ∙ ap (λ v. if is_member k (scan_reply impl match cursor s).keys then none else v)
          (laws.scan_keeps k cursor match s)

  -- After a traversal, the keys that it returned are gone and the others are as before.
  stored-Walk :
      (k : Key) (match : List ℕ) (cursor : ℕ) (s last : S) (seen : List Key)
      → Walk impl match cursor s seen last
      → stored k last ≡ (if is_member k seen then none else stored k s)
  stored-Walk k match cursor s last seen (last_turn _ _ ok deleted at_end) =
      stored-deleted_state k match cursor s deleted
  stored-Walk k match cursor s last seen (turn _ _ rest _ ok deleted more walk) =
      stored-Walk k match (scan_reply impl match cursor s).next (deleted_state impl match cursor s)
        last rest walk
      ∙ go (is_member k (scan_reply impl match cursor s).keys) (is_member k rest)
          (stored-deleted_state k match cursor s deleted)
          (is_member-append k (scan_reply impl match cursor s).keys rest)
    where
      go :
          (here later : Bool)
          → stored k (deleted_state impl match cursor s) ≡ (if here then none else stored k s)
          → is_member k ((scan_reply impl match cursor s).keys ++ rest)
            ≡ (if here then true else later)
          → (if later then none else stored k (deleted_state impl match cursor s)) ≡ (
              if is_member k ((scan_reply impl match cursor s).keys ++ rest)
              then none
              else stored k s)
      go true true e m = ap (λ b. if b then none else stored k s) (sym m)
      go true false e m = e ∙ ap (λ b. if b then none else stored k s) (sym m)
      go false true e m = ap (λ b. if b then none else stored k s) (sym m)
      go false false e m = e ∙ ap (λ b. if b then none else stored k s) (sym m)

  -- A traversal returns only keys that match.
  Walk-matches :
      (k : Key) (match : List ℕ) (cursor : ℕ) (s last : S) (seen : List Key)
      → Walk impl match cursor s seen last
      → is_member k seen ≡ true
      → matches match k ≡ true
  Walk-matches k match cursor s last seen (last_turn _ _ ok deleted at_end) h =
      laws.scan_matches k cursor match s h
  Walk-matches k match cursor s last seen (turn _ _ rest _ ok deleted more walk) h =
      go (is_member k (scan_reply impl match cursor s).keys) refl
        (sym (is_member-append k (scan_reply impl match cursor s).keys rest) ∙ h)
        (Walk-matches k match (scan_reply impl match cursor s).next
          (deleted_state impl match cursor s) last rest walk)
    where
      go :
          (here : Bool)
          → is_member k (scan_reply impl match cursor s).keys ≡ here
          → (if here then true else is_member k rest) ≡ true
          → (is_member k rest ≡ true → matches match k ≡ true)
          → matches match k ≡ true
      go true e m later = laws.scan_matches k cursor match s e
      go false e m later = later m

  -- What stands under a key after a whole traversal.
  pub Walk-clears :
      (k : Key) (match : List ℕ) (s last : S) (seen : List Key)
      → Walk impl match 0 s seen last
      → stored k last ≡ (if matches match k then none else stored k s)
  Walk-clears k match s last seen walk =
      go (is_member k seen) (matches match k) refl refl (stored-Walk k match 0 s last seen walk)
    where
      go :
          (member matching : Bool)
          → is_member k seen ≡ member
          → matches match k ≡ matching
          → stored k last ≡ (if member then none else stored k s)
          → stored k last ≡ (if matching then none else stored k s)
      go true true e m h = h
      go false false e m h = h
      go true false e m h = ground (arith, sym m ∙ Walk-matches k match 0 s last seen walk e)
      go false true e m h = elim (Option-cases (stored k last)) [
        | inl gone ↦ gone
        | inr (v, there) ↦ ground (
          arith,
          sym e
              ∙ laws.traversal k match s last seen walk m
                  (λ gone. ground (arith, sym there ∙ gone)),
        )
      ]
