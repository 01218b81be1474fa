-- ===== src/Tiered/Subscriber.antt =====
-- The invalidations that `TieredCache` receives (`applyInvalidation` and
-- `runInvalidationSubscriber` of internal/cache/tiered/invalidation.go). The loop is a step for
-- each thing that the bus answers.
use frankenphp_tiered_cache.Base.{Bool, true, false, Option, none, some, if◌then◌else◌}
use frankenphp_tiered_cache.Base.Dict.{key_eq}
use frankenphp_tiered_cache.Contract.{Error, foreign, sentinel, closed}
use frankenphp_tiered_cache.Invalidation.{
  Event, EventType, EventError, invalidate, flush, other, validate, unsupported_version,
  key_not_empty, unsupported_type,
}
use frankenphp_tiered_cache.Observability.Observation.{
  InvalidationType, key_invalidation, flush_invalidation, received, invalidation, ignored_self,
  invalidation_ready, subscriber_error, stage_subscribe, stage_receive, stage_apply,
}
use frankenphp_tiered_cache.Tiered.State.{System, TieredCache, observe, bump_version}
use frankenphp_tiered_cache.Tiered.Health.{flush_l1, degrade_and_flush}
use frankenphp_tiered_cache.Tiered.Publish.{result_of}
use frankenphp_tiered_cache.Tiered.Commit.{forget_l1}

abbrev pub event_error : EventError → Error
event_error unsupported_version = foreign 1
event_error key_not_empty = foreign 2
event_error unsupported_type = foreign 3

abbrev pub label : EventType → InvalidationType
label flush = flush_invalidation
label invalidate = key_invalidation
label other = key_invalidation

-- What the loop of the subscriber meets. `subscribe_failed` and `receive_failed` are errors of the
-- bus; `cancelled` is an error after the context has ended.
pub data SubscriberEvent : Type 0 where
  subscribing : SubscriberEvent
  subscribe_failed : Error → SubscriberEvent
  subscribed : SubscriberEvent
  receive_failed : Error → SubscriberEvent
  event_received : Event → SubscriberEvent

module _ {S1 S2 B : Type 0} (sys : System S1 S2 B) where
  -- The change of L1 that an event of another instance asks for.
  abbrev pub apply_to_l1 :
      Event → EventType → TieredCache S1 S2 B → TieredCache S1 S2 B × Option Error
  apply_to_l1 event flush t = let (u, r) = flush_l1 sys t in (u, r.error)
  apply_to_l1 event invalidate t = let (u, r) = forget_l1 sys event.key t in (u, r.error)
  apply_to_l1 event other t = let (u, r) = forget_l1 sys event.key t in (u, r.error)

  abbrev pub noted :
      EventType → TieredCache S1 S2 B × Option Error → TieredCache S1 S2 B × Option Error
  noted typ (t, err) = (observe (invalidation received (label typ) (result_of err)) t, err)

  abbrev pub apply_valid :
      Event → Option EventError → TieredCache S1 S2 B → TieredCache S1 S2 B × Option Error
  apply_valid event (some e) t = (t, some (event_error e))
  apply_valid event none t =
      if key_eq event.origin sys.origin
      then (observe (invalidation received (label event.event_type) ignored_self) t, none)
      else if t.is_closed
      then (t, some (sentinel closed))
      else noted event.event_type (apply_to_l1 event event.event_type (bump_version t))

  -- `applyInvalidation`
  unfoldable pub apply_invalidation :
      Event → TieredCache S1 S2 B → TieredCache S1 S2 B × Option Error
  apply_invalidation event t = apply_valid event (validate event) t

  -- `flushLocalL1`
  unfoldable pub flush_local_l1 : TieredCache S1 S2 B → TieredCache S1 S2 B × Option Error
  flush_local_l1 t =
      let (u, r) = flush_l1 sys (bump_version t) in
      if t.is_closed then (t, some (sentinel closed)) else (u, r.error)

  abbrev pub set_ready : Bool → TieredCache S1 S2 B → TieredCache S1 S2 B
  set_ready b t = observe (invalidation_ready b) (record t { invalidation_ready = b })

  -- After an error, unless the cache is closed.
  abbrev pub unless_closed : TieredCache S1 S2 B → TieredCache S1 S2 B → TieredCache S1 S2 B
  unless_closed t u = if t.is_closed then t else u

  abbrev pub after_initial_flush : TieredCache S1 S2 B × Option Error → TieredCache S1 S2 B
  after_initial_flush (t, none) = set_ready true t
  after_initial_flush (t, some e) = unless_closed t (degrade_and_flush sys (some e) t)

  abbrev pub after_event : TieredCache S1 S2 B × Option Error → TieredCache S1 S2 B
  after_event (t, none) = t
  after_event (t, some e) =
      let u = set_ready false t in
      unless_closed u (degrade_and_flush sys (some e) (observe (subscriber_error stage_apply) u))

  -- One step of `runInvalidationSubscriber`.
  unfoldable pub subscriber_step : SubscriberEvent → TieredCache S1 S2 B → TieredCache S1 S2 B
  subscriber_step subscribing t = unless_closed t (set_ready false t)
  subscriber_step (subscribe_failed e) t =
      unless_closed t
        (degrade_and_flush sys (some e) (observe (subscriber_error stage_subscribe) t))
  subscriber_step subscribed t = after_initial_flush (flush_local_l1 t)
  subscriber_step (receive_failed e) t =
      let u = set_ready false t in
      unless_closed u (degrade_and_flush sys (some e) (observe (subscriber_error stage_receive) u))
  subscriber_step (event_received event) t = after_event (apply_invalidation event t)
