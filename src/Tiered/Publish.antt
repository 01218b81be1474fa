-- ===== src/Tiered/Publish.antt =====
-- Invalidations that `TieredCache` sends, and those that wait for a retry
-- (internal/cache/tiered/invalidation.go).
use frankenphp_tiered_cache.Base.{
  Bool, true, false, Option, none, some, List, [], ◌∷◌, length, if◌then◌else◌,
}
use frankenphp_tiered_cache.Base.Dict.{Key, insert, erase}
use frankenphp_tiered_cache.Contract.{Error}
use frankenphp_tiered_cache.Invalidation.{Event, invalidate, flush, protocol_version}
use frankenphp_tiered_cache.Observability.Observation.{
  InvalidationType, InvalidationResult, key_invalidation, flush_invalidation, published,
  invalidation, invalidation_success, invalidation_error, pending_invalidations, pending_flush,
}
use frankenphp_tiered_cache.Tiered.State.{System, TieredCache, observe}
use frankenphp_tiered_cache.Tiered.Health.{degrade_locked}

abbrev pub result_of : Option Error → InvalidationResult
result_of none = invalidation_success
result_of (some _) = invalidation_error

module _ {S1 S2 B : Type 0} (sys : System S1 S2 B) where
  abbrev pub publish_event :
      Event → InvalidationType → TieredCache S1 S2 B → TieredCache S1 S2 B × Option Error
  publish_event event typ t =
      let (b, err) = sys.bus.publish event t.bus in
      (observe (invalidation published typ (result_of err)) (record t { bus = b }), err)

  abbrev pub key_event : Key → Event
  key_event key = record {
    version = protocol_version;
    event_type = invalidate;
    key = key;
    origin = sys.origin;
  }

  abbrev pub flush_event : Event
  flush_event = record {
    version = protocol_version;
    event_type = flush;
    key = [];
    origin = sys.origin;
  }

  unfoldable pub publish_key_invalidation :
      Key → TieredCache S1 S2 B → TieredCache S1 S2 B × Option Error
  publish_key_invalidation key t =
      if sys.has_bus then publish_event (key_event key) key_invalidation t else (t, none)

  unfoldable pub publish_flush_invalidation :
      TieredCache S1 S2 B → TieredCache S1 S2 B × Option Error
  publish_flush_invalidation t =
      if sys.has_bus then publish_event flush_event flush_invalidation t else (t, none)

  -- A key that waits already stays; a pending flush covers every key.
  unfoldable pub mark_pending_invalidation : Key → TieredCache S1 S2 B → TieredCache S1 S2 B
  mark_pending_invalidation key t =
      let keys = insert key tt t.pending_invalidations in
      if sys.has_bus
      then if t.pending_flush
        then t
        else observe (pending_invalidations (length keys))
            (record t { pending_invalidations = keys })
      else t

  unfoldable pub mark_pending_flush : TieredCache S1 S2 B → TieredCache S1 S2 B
  mark_pending_flush t =
      if sys.has_bus
      then observe (pending_flush true) (
          observe (pending_invalidations 0)
            (record t { pending_flush = true; pending_invalidations = [] }))
      else t

  abbrev pub or_mark_key :
      Key → TieredCache S1 S2 B × Option Error → TieredCache S1 S2 B × Option Error
  or_mark_key key (t, none) = (t, none)
  or_mark_key key (t, some e) =
      (degrade_locked sys (some e) true (mark_pending_invalidation key t), some e)

  -- The step that ends every change of a key: publish, and keep the key for a retry on an error.
  unfoldable pub publish_or_mark : Key → TieredCache S1 S2 B → TieredCache S1 S2 B × Option Error
  publish_or_mark key t = or_mark_key key (publish_key_invalidation key t)

  abbrev pub or_mark_flush : TieredCache S1 S2 B × Option Error → TieredCache S1 S2 B × Option Error
  or_mark_flush (t, none) = (t, none)
  or_mark_flush (t, some e) = (degrade_locked sys (some e) true (mark_pending_flush t), some e)

  unfoldable pub publish_flush_or_mark : TieredCache S1 S2 B → TieredCache S1 S2 B × Option Error
  publish_flush_or_mark t = or_mark_flush (publish_flush_invalidation t)

  abbrev pub unmark_key : Key → TieredCache S1 S2 B → TieredCache S1 S2 B
  unmark_key key t =
      let keys = erase key t.pending_invalidations in
      observe (pending_invalidations (length keys)) (record t { pending_invalidations = keys })

  abbrev pub unless_failed :
      Option Error → TieredCache S1 S2 B → TieredCache S1 S2 B × Bool → TieredCache S1 S2 B × Bool
  unless_failed none t rest = rest
  unless_failed (some _) t rest = (t, false)

  -- The loop of `recoverPendingInvalidations` over the keys that it visits.
  unfoldable pub publish_pending :
      List (Key × Unit {0}) → TieredCache S1 S2 B → TieredCache S1 S2 B × Bool
  publish_pending [] t = (t, true)
  publish_pending ((key, _) ∷ keys) t =
      let (u, err) = publish_key_invalidation key t in
      unless_failed err u (publish_pending keys (unmark_key key u))

  abbrev pub flush_published : TieredCache S1 S2 B × Option Error → TieredCache S1 S2 B × Bool
  flush_published (t, none) =
      (observe (pending_flush false) (record t { pending_flush = false }), true)
  flush_published (t, some _) = (t, false)

  unfoldable pub recover_pending_invalidations : TieredCache S1 S2 B → TieredCache S1 S2 B × Bool
  recover_pending_invalidations t =
      if sys.has_bus
      then if t.pending_flush
        then flush_published (publish_flush_invalidation t)
        else publish_pending t.pending_invalidations t
      else (t, true)
