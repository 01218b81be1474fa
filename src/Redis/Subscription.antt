-- ===== src/Redis/Subscription.antt =====
-- The subscription to invalidations (`redisInvalidationSubscription` in
-- internal/cache/redis/invalidation.go): what the two goroutines put into its channels, and `Receive`.
-- A channel with a buffer is a list that its capacity bounds.
use frankenphp_tiered_cache.Base.{
  ℕ, Bool, true, false, Option, none, some, List, [], ◌∷◌, ◌++◌, length, ltb, if◌then◌else◌,
}
use frankenphp_tiered_cache.Base.Int.{ℤ}
use frankenphp_tiered_cache.Base.Dict.{Key}
use frankenphp_tiered_cache.Contract.{Error, foreign}
use frankenphp_tiered_cache.Invalidation.{Event, other}
use frankenphp_tiered_cache.Redis.Tracking.{
  Part, Decoded, decoded, malformed_notification, redis_flush_event, decode_tracking_invalidations,
}

-- `invalidationResult`
pub record InvalidationResult : Type 0 where
  pub event : Event
  pub err : Option Error

-- `tracking_overflow` and `refresh_marker` say that the channel of that name holds its token, and
-- `cancelled` that the subscription's context is done.
pub record Subscription : Type 0 where
  pub tracking_client_id : ℤ
  pub pubsub_messages : List InvalidationResult
  pub tracking_messages : List InvalidationResult
  pub tracking_overflow : Bool
  pub tracking_errors : Option Error
  pub refresh_marker : Bool
  pub cancelled : Bool

abbrev pub tracking_buffer_size : ℕ
tracking_buffer_size = 256

-- The zero `Event`.
abbrev pub empty_event : Event
empty_event = record { version = 0; event_type = other; key = []; origin = [] }

-- An error made of a text, or around the error of a call.
abbrev pub malformed_error : Error
malformed_error = foreign 0

abbrev pub of_event : Event → InvalidationResult
of_event e = record { event = e; err = none }

abbrev pub of_error : Error → InvalidationResult
of_error e = record { event = empty_event; err = some e }

unfoldable pub enqueue_tracking : InvalidationResult → Subscription → Subscription
enqueue_tracking r s =
    if ltb (length s.tracking_messages) tracking_buffer_size
    then record s { tracking_messages = s.tracking_messages ++ r ∷ [] }
    else record s { tracking_overflow = true }

abbrev pub error_or : Option Error → Error → Option Error
error_or none e = some e
error_or (some first) e = some first

unfoldable pub send_tracking_error : Error → Subscription → Subscription
send_tracking_error e s = record s { tracking_errors = error_or s.tracking_errors e }

unfoldable pub enqueue_events : List Event → Subscription → Subscription
enqueue_events [] s = s
enqueue_events (e ∷ events) s = enqueue_events events (enqueue_tracking (of_event e) s)

abbrev pub request_refresh : Bool → Subscription → Subscription
request_refresh true s = record s { refresh_marker = true }
request_refresh false s = s

abbrev pub notified : Decoded → Subscription → Subscription
notified malformed_notification s = enqueue_tracking (of_error malformed_error) s
notified (decoded events refresh) s = request_refresh refresh (enqueue_events events s)

-- `HandlePushNotification`, with the active subscription if there is one.
unfoldable pub handle_push_notification :
    Key → List Part → Option Subscription → Option Subscription
handle_push_notification tracking_key notification none = none
handle_push_notification tracking_key notification (some s) =
    some (notified (decode_tracking_invalidations tracking_key notification) s)

-- `sendPubSub` while the channel, which holds one result, is free: the other branch is the end of
-- the context, and a full channel blocks.
abbrev pub room_for :
    List InvalidationResult → InvalidationResult → Option (List InvalidationResult)
room_for [] r = some (r ∷ [])
room_for (_ ∷ _) r = none

abbrev pub sent_pubsub : Option (List InvalidationResult) → Subscription → Option Subscription
sent_pubsub none s = none
sent_pubsub (some messages) s = some (record s { pubsub_messages = messages })

unfoldable pub send_pubsub : InvalidationResult → Subscription → Option Subscription
send_pubsub r s = sent_pubsub (room_for s.pubsub_messages r) s

-- The branches of the second `select`. Go takes any branch that is ready.
pub data Source : Type 0 where
  from_pubsub from_tracking from_overflow from_errors : Source
  caller_done : Error → Source
  subscription_done : Error → Source

abbrev pub Received : Type 0
Received = Option (Subscription × InvalidationResult)

abbrev pub take_pubsub : List InvalidationResult → Subscription → Received
take_pubsub [] s = none
take_pubsub (r ∷ rest) s = some (record s { pubsub_messages = rest }, r)

abbrev pub take_tracking : List InvalidationResult → Subscription → Received
take_tracking [] s = none
take_tracking (r ∷ rest) s = some (record s { tracking_messages = rest }, r)

abbrev pub take_overflow : Bool → Subscription → Received
take_overflow false s = none
take_overflow true s = some (record s { tracking_overflow = false }, of_event redis_flush_event)

abbrev pub take_error : Option Error → Subscription → Received
take_error none s = none
take_error (some e) s = some (record s { tracking_errors = none }, of_error e)

abbrev pub take_done : Bool → Error → Subscription → Received
take_done false e s = none
take_done true e s = some (s, of_error e)

-- `none` is a branch that is not ready.
unfoldable pub select_source : Source → Subscription → Received
select_source from_pubsub s = take_pubsub s.pubsub_messages s
select_source from_tracking s = take_tracking s.tracking_messages s
select_source from_overflow s = take_overflow s.tracking_overflow s
select_source from_errors s = take_error s.tracking_errors s
select_source (caller_done e) s = some (s, of_error e)
select_source (subscription_done e) s = take_done s.cancelled e s

abbrev pub error_first : Received → Received → Received
error_first none r = r
error_first (some x) r = some x

-- `Receive`: an error that waits goes first.
unfoldable pub receive : Source → Subscription → Received
receive source s = error_first (take_error s.tracking_errors s) (select_source source s)
