-- ===== src/Redis/Correct/Owed.antt =====
-- What a subscription owes its reader (internal/cache/redis/invalidation.go).
use frankenphp_tiered_cache.Base.{
  ◌≡◌, refl, ap, ◌∙◌, Bool, true, false, ◌||◌, Option, none, some, List, [], ◌∷◌, ◌++◌, length, ltb,
  replicate, if◌then◌else◌, arith,
}
use frankenphp_tiered_cache.Base.Dict.{Key}
use frankenphp_tiered_cache.Contract.{Error, is_nil}
use frankenphp_tiered_cache.Invalidation.{Event, EventType, invalidate, flush, other}
use frankenphp_tiered_cache.Redis.Tracking.{
  Part, Decoded, decoded, malformed_notification, redis_flush_event, decode_tracking_invalidations,
}
use frankenphp_tiered_cache.Redis.Subscription.{
  InvalidationResult, Subscription, tracking_buffer_size, of_event, of_error, malformed_error,
  enqueue_tracking, send_tracking_error, enqueue_events, notified, handle_push_notification,
  room_for, sent_pubsub, send_pubsub, Source, from_pubsub, from_tracking, from_overflow,
  from_errors, caller_done, subscription_done, take_pubsub, take_tracking, take_overflow,
  take_error, take_done, select_source, error_first, receive,
}
use frankenphp_tiered_cache.Redis.Actions.{
  Action, notify, deliver, fail, take, or_same, received_or_nothing, act, act_all,
}
use frankenphp_tiered_cache.Redis.Correct.Tracking.{Announces, decode-Announces}

abbrev pub is_flush_type : EventType → Bool
is_flush_type flush = true
is_flush_type invalidate = false
is_flush_type other = false

-- A flush event without an error.
abbrev pub is_flush : InvalidationResult → Bool
is_flush r = if is_nil r.err then is_flush_type r.event.event_type else false

unfoldable pub has_flush : List InvalidationResult → Bool
has_flush [] = false
has_flush (r ∷ rs) = is_flush r || has_flush rs

-- Whether a flush event waits in the queue, or the overflow stands for one.
unfoldable pub owes_flush : Subscription → Bool
owes_flush s = has_flush s.tracking_messages || s.tracking_overflow

has_flush-append :
    (xs ys : List InvalidationResult) → has_flush (xs ++ ys) ≡ (has_flush xs || has_flush ys)
unfolding has_flush
has_flush-append [] ys = refl
has_flush-append (x ∷ xs) ys = ground (arith, has_flush-append xs ys)

-- A result that was put into the queue: what was owed is owed still, and a flush is owed.
enqueue_tracking-owes :
    (r : InvalidationResult) (s : Subscription)
    → (is_flush r || owes_flush s) ≡ true
    → owes_flush (enqueue_tracking r s) ≡ true
unfolding enqueue_tracking owes_flush has_flush
enqueue_tracking-owes r s h = go (ltb (length s.tracking_messages) tracking_buffer_size)
  where
    go :
        (b : Bool)
        → owes_flush (
            if b
            then record s { tracking_messages = s.tracking_messages ++ r ∷ [] }
            else record s { tracking_overflow = true })
          ≡ true
    go true = ground (arith, has_flush-append s.tracking_messages (r ∷ []), h)
    go false = ground arith

enqueue_events-owes :
    (events : List Event) (s : Subscription)
    → owes_flush s ≡ true
    → owes_flush (enqueue_events events s) ≡ true
unfolding enqueue_events
enqueue_events-owes [] s h = h
enqueue_events-owes (e ∷ events) s h =
    enqueue_events-owes events (enqueue_tracking (of_event e) s)
      (enqueue_tracking-owes (of_event e) s (ground (arith, h)))

notified-owes :
    (d : Decoded) (s : Subscription) → owes_flush s ≡ true → owes_flush (notified d s) ≡ true
unfolding owes_flush
notified-owes malformed_notification s h =
    enqueue_tracking-owes (of_error malformed_error) s (ground (arith, h))
notified-owes (decoded events true) s h = enqueue_events-owes events s h
notified-owes (decoded events false) s h = enqueue_events-owes events s h

-- What is owed after an action, or was received in it.
abbrev Kept : Subscription × List InvalidationResult → Type 0
Kept x = (has_flush x.1 || owes_flush x.0) ≡ true

sent_pubsub-Kept :
    (messages : List InvalidationResult) (r : InvalidationResult) (s : Subscription)
    → owes_flush s ≡ true
    → Kept (or_same (sent_pubsub (room_for messages r) s) s, [])
unfolding owes_flush has_flush
sent_pubsub-Kept [] r s h = h
sent_pubsub-Kept (m ∷ messages) r s h = h

select_source-Kept :
    (source : Source) (s : Subscription)
    → owes_flush s ≡ true
    → Kept (received_or_nothing (select_source source s) s)
unfolding select_source owes_flush has_flush
select_source-Kept from_pubsub s h = pubsub s.pubsub_messages
  where
    pubsub : (m : List InvalidationResult) → Kept (received_or_nothing (take_pubsub m s) s)
    pubsub [] = h
    pubsub (r ∷ rest) = ground (arith, h)
select_source-Kept from_tracking s h = tracking s.tracking_messages h
  where
    tracking :
        (m : List InvalidationResult)
        → (has_flush m || s.tracking_overflow) ≡ true
        → Kept (received_or_nothing (take_tracking m s) s)
    tracking [] e = h
    tracking (r ∷ rest) e = ground (arith, e)
select_source-Kept from_overflow s h = overflow s.tracking_overflow
  where
    overflow : (b : Bool) → Kept (received_or_nothing (take_overflow b s) s)
    overflow true = refl
    overflow false = h
select_source-Kept from_errors s h = errors s.tracking_errors
  where
    errors : (e : Option Error) → Kept (received_or_nothing (take_error e s) s)
    errors none = h
    errors (some e) = ground (arith, h)
select_source-Kept (caller_done e) s h = ground (arith, h)
select_source-Kept (subscription_done e) s h = cancelled s.cancelled
  where
    cancelled : (b : Bool) → Kept (received_or_nothing (take_done b e s) s)
    cancelled true = ground (arith, h)
    cancelled false = h

receive-Kept :
    (errors : Option Error) (source : Source) (s : Subscription)
    → owes_flush s ≡ true
    → Kept (received_or_nothing (error_first (take_error errors s) (select_source source s)) s)
unfolding owes_flush has_flush
receive-Kept none source s h = select_source-Kept source s h
receive-Kept (some e) source s h = ground (arith, h)

act-Kept : (k : Key) (a : Action) (s : Subscription) → owes_flush s ≡ true → Kept (act k a s)
unfolding act handle_push_notification send_pubsub send_tracking_error receive has_flush owes_flush
act-Kept k (notify n) s h = notified-owes (decode_tracking_invalidations k n) s h
act-Kept k (deliver r) s h = sent_pubsub-Kept s.pubsub_messages r s h
act-Kept k (fail e) s h = h
act-Kept k (take source) s h = receive-Kept s.tracking_errors source s h

Kept-append :
    (first rest : List InvalidationResult) (between last : Subscription) (b : Bool)
    → owes_flush between ≡ b
    → Kept (between, first)
    → (owes_flush between ≡ true → Kept (last, rest))
    → Kept (last, first ++ rest)
Kept-append first rest between last true e here later =
    ground (arith, has_flush-append first rest, later e)
Kept-append first rest between last false e here later =
    ground (arith, has_flush-append first rest, here, e)

-- As long as a flush is owed, it is owed or received.
pub act_all-Kept :
    (k : Key) (actions : List Action) (s : Subscription)
    → owes_flush s ≡ true
    → Kept (act_all k actions s)
unfolding act_all has_flush
act_all-Kept k [] s h = h
act_all-Kept k (a ∷ actions) s h =
    Kept-append (act k a s).1 (act_all k actions (act k a s).0).1 (act k a s).0
      (act_all k actions (act k a s).0).0 (owes_flush (act k a s).0) refl (act-Kept k a s h)
      (act_all-Kept k actions (act k a s).0)

notify-owes :
    (k : Key) (n : List Part) (s : Subscription)
    → Announces k n
    → owes_flush (act k (notify n) s).0 ≡ true
unfolding act handle_push_notification enqueue_events owes_flush
notify-owes k n s a =
    ap (λ d. owes_flush (notified d s)) (decode-Announces k n a)
    ∙ enqueue_tracking-owes (of_event redis_flush_event) s refl

-- After a notification that announces a reset, whatever happened before and in whatever order
-- things happen afterwards, a flush event has been received since, or one waits in the queue or is
-- signalled by the overflow.
pub notify-Kept :
    (k : Key) (n : List Part) (later : List Action) (s : Subscription)
    → Announces k n
    → (has_flush (act_all k (notify n ∷ later) s).1
        || owes_flush (act_all k (notify n ∷ later) s).0)
      ≡ true
unfolding act_all act
notify-Kept k n later s a = act_all-Kept k later (act k (notify n) s).0 (notify-owes k n s a)

-- The receives that empty the queue.
abbrev pub drain : Subscription → List Action
drain s = replicate (length s.tracking_messages) (take from_tracking) ++ take from_overflow ∷ []

abbrev pub overflow_events : Bool → List InvalidationResult
overflow_events true = of_event redis_flush_event ∷ []
overflow_events false = []

-- A subscription without an error, with this overflow and this queue.
abbrev waiting : Subscription → Bool → List InvalidationResult → Subscription
waiting s overflow messages = record s {
  tracking_errors = none;
  tracking_overflow = overflow;
  tracking_messages = messages;
}

drain-waiting :
    (k : Key) (s : Subscription) (overflow : Bool) (messages : List InvalidationResult)
    → (act_all k (drain (waiting s overflow messages)) (waiting s overflow messages)).1
      ≡ messages ++ overflow_events overflow
unfolding act_all act receive select_source
drain-waiting k s true [] = refl
drain-waiting k s false [] = refl
drain-waiting k s overflow (m ∷ messages) = ap (λ x. m ∷ x) (drain-waiting k s overflow messages)

-- If no error waits, then the reader that takes from the queue as often as it has results, and then
-- from the overflow, receives every queued result in its order, and a flush event after them if
-- the queue overflowed.
pub drain_delivers :
    (k : Key) (s : Subscription)
    → s.tracking_errors ≡ none
    → (act_all k (drain s) s).1 ≡ s.tracking_messages ++ overflow_events s.tracking_overflow
drain_delivers k s ok =
    ap (λ e. (act_all k (drain s) (record s { tracking_errors = e })).1) ok
    ∙ drain-waiting k s s.tracking_overflow s.tracking_messages
