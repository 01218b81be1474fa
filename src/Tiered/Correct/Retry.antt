-- ===== src/Tiered/Correct/Retry.antt =====
-- The retry of the invalidations that wait (`recoverPendingInvalidations` of
-- internal/cache/tiered/invalidation.go).
use frankenphp_tiered_cache.Base.{
  ◌≡◌, refl, ap, arith, ◌∙◌, ◌⊎◌, inl, inr, Bool, true, false, Option, none, some, List, [], ◌∷◌,
  if◌then◌else◌,
}
use frankenphp_tiered_cache.Base.Dict.{Key, key_eq_refl, erase, erase-Distinct}
use frankenphp_tiered_cache.Contract.{Error}
use frankenphp_tiered_cache.Observability.Observation.{key_invalidation, flush_invalidation}
use frankenphp_tiered_cache.Tiered.State.{System, TieredCache}
use frankenphp_tiered_cache.Tiered.Publish.{
  key_event, publish_event, publish_key_invalidation, publish_flush_invalidation, flush_event,
  unmark_key, unless_failed, publish_pending, flush_published, recover_pending_invalidations,
}
use frankenphp_tiered_cache.Tiered.Correct.Keeps.{IsQueue}

module _ {S1 S2 B : Type 0} (sys : System S1 S2 B) where
  -- What the retry leaves.
  abbrev pub Leaves : TieredCache S1 S2 B → TieredCache S1 S2 B → Type 0
  Leaves t u =
      (u.l1 ≡ t.l1)
      × (u.l2 ≡ t.l2)
      × (u.degraded ≡ t.degraded)
      × (u.is_closed ≡ t.is_closed)
      × (IsQueue t → IsQueue u)

  Leaves-trans : (t u v : TieredCache S1 S2 B) → Leaves t u → Leaves u v → Leaves t v
  Leaves-trans t u v (a, b, c, d, q) (a', b', c', d', q') =
      (a' ∙ a, b' ∙ b, c' ∙ c, d' ∙ d, λ queue. q' (q queue))

  -- Nothing waits.
  abbrev pub IsIdle : TieredCache S1 S2 B → Type 0
  IsIdle t = (t.pending_invalidations ≡ []) × (t.pending_flush ≡ false)

  -- A retry leaves L1, L2 and the health, and empties what waits or says that it has failed.
  abbrev pub Retries : TieredCache S1 S2 B → TieredCache S1 S2 B × Bool → Type 0
  Retries t (u, fine) = Leaves t u × ((fine ≡ false) ⊎ IsIdle u)

  publish_key-Leaves :
      (key : Key) (t : TieredCache S1 S2 B) (on : Bool)
      → let u =
          (if on then publish_event sys (key_event sys key) key_invalidation t else (t, none)).0 in
        Leaves t u
        × (u.pending_invalidations ≡ t.pending_invalidations)
        × (u.pending_flush ≡ t.pending_flush)
  publish_key-Leaves key t true = ((refl, refl, refl, refl, λ q. q), refl, refl)
  publish_key-Leaves key t false = ((refl, refl, refl, refl, λ q. q), refl, refl)

  sent_key-Leaves :
      (key : Key) (t : TieredCache S1 S2 B)
      → let u = (publish_key_invalidation sys key t).0 in
        Leaves t u
        × (u.pending_invalidations ≡ t.pending_invalidations)
        × (u.pending_flush ≡ t.pending_flush)
  unfolding publish_key_invalidation
  sent_key-Leaves key t = publish_key-Leaves key t sys.has_bus

  erase_head : (key : Key) (keys : List (Key × Unit {0})) → erase key ((key, tt) ∷ keys) ≡ keys
  unfolding erase
  erase_head key keys = rw (key_eq_refl key)

  publish_pending-Retries :
      (keys : List (Key × Unit {0})) (t : TieredCache S1 S2 B)
      → t.pending_invalidations ≡ keys
      → t.pending_flush ≡ false
      → Retries t (publish_pending sys keys t)
  unfolding publish_pending
  publish_pending-Retries [] t same off = ((refl, refl, refl, refl, λ q. q), inr (same, off))
  publish_pending-Retries ((key, w) ∷ keys) t same off =
      let (u, err) = publish_key_invalidation sys key t in
      let (leaves, kept, flushes) = sent_key-Leaves key t in
      let erased : erase key u.pending_invalidations ≡ keys =
        (ap (erase key) (kept ∙ same)) ∙ erase_head key keys in
      let (leaves', done) =
        publish_pending-Retries keys (unmark_key sys key u) erased (flushes ∙ off) in
      let unmarked : Leaves t (unmark_key sys key u) = (
        leaves.0,
        leaves.1,
        leaves.2,
        leaves.3,
        λ q. (
          erase-Distinct key u.pending_invalidations (leaves.4 q).0,
          λ f. ground (arith, flushes ∙ off, f),
        ),
      ) in
      go u err leaves (
        Leaves-trans t (unmark_key sys key u) (publish_pending sys keys (unmark_key sys key u)).0
            unmarked leaves',
        done,
      )
    where
      go :
          (u : TieredCache S1 S2 B) (err : Option Error)
          → Leaves t u
          → Retries t (publish_pending sys keys (unmark_key sys key u))
          → Retries t (unless_failed sys err u (publish_pending sys keys (unmark_key sys key u)))
      go u none leaves rest = rest
      go u (some e) leaves rest = (leaves, inl refl)

  flush_published-Retries :
      (t u : TieredCache S1 S2 B) (err : Option Error)
      → Leaves t u
      → u.pending_invalidations ≡ []
      → Retries t (flush_published sys (u, err))
  flush_published-Retries t u none leaves empty = (
    (leaves.0, leaves.1, leaves.2, leaves.3, λ q. ((leaves.4 q).0, λ f. empty)),
    inr (empty, refl),
  )
  flush_published-Retries t u (some e) leaves empty = (leaves, inl refl)

  sent_flush-Leaves :
      (t : TieredCache S1 S2 B) (on : Bool)
      → let u =
          (if on then publish_event sys (flush_event sys) flush_invalidation t else (t, none)).0 in
        Leaves t u × (u.pending_invalidations ≡ t.pending_invalidations)
  sent_flush-Leaves t true = ((refl, refl, refl, refl, λ q. q), refl)
  sent_flush-Leaves t false = ((refl, refl, refl, refl, λ q. q), refl)

  -- Without a bus nothing ever waits.
  recovers :
      (on flushes : Bool) (t : TieredCache S1 S2 B)
      → sys.has_bus ≡ on
      → t.pending_flush ≡ flushes
      → IsQueue t
      → (on ≡ false → IsIdle t)
      → Retries t (
          if on
          then if flushes
            then flush_published sys (publish_flush_invalidation sys t)
            else publish_pending sys t.pending_invalidations t
          else (t, true))
  unfolding publish_flush_invalidation
  recovers true true t on waits queue idle =
      let sent = publish_flush_invalidation sys t in
      let (leaves, kept) = sent_flush-Leaves t sys.has_bus in
      flush_published-Retries t sent.0 sent.1 leaves (kept ∙ queue.1 waits)
  recovers true false t on waits queue idle =
      publish_pending-Retries t.pending_invalidations t refl waits
  recovers false flushes t on waits queue idle = ((refl, refl, refl, refl, λ q. q), inr (idle refl))

  pub recover_pending-Retries :
      (t : TieredCache S1 S2 B)
      → IsQueue t
      → (sys.has_bus ≡ false → IsIdle t)
      → Retries t (recover_pending_invalidations sys t)
  unfolding recover_pending_invalidations
  recover_pending-Retries t queue idle = recovers sys.has_bus t.pending_flush t refl refl queue idle
