-- ===== src/Redis/Actions.antt =====
-- The interleavings of what happens to a subscription (internal/cache/redis/invalidation.go).
use frankenphp_tiered_cache.Base.{Option, none, some, List, [], ◌∷◌, ◌++◌}
use frankenphp_tiered_cache.Base.Dict.{Key}
use frankenphp_tiered_cache.Contract.{Error}
use frankenphp_tiered_cache.Redis.Tracking.{Part}
use frankenphp_tiered_cache.Redis.Subscription.{
  InvalidationResult, Subscription, send_tracking_error, handle_push_notification, send_pubsub,
  Source, Received, receive,
}

-- What the goroutines and the client's calls do to an active subscription, in any order.
pub data Action : Type 0 where
  notify : List Part → Action
  deliver : InvalidationResult → Action
  fail : Error → Action
  take : Source → Action

abbrev pub or_same : Option Subscription → Subscription → Subscription
or_same none s = s
or_same (some s1) s = s1

abbrev pub received_or_nothing : Received → Subscription → Subscription × List InvalidationResult
received_or_nothing none s = (s, [])
received_or_nothing (some (s1, r)) s = (s1, r ∷ [])

-- One action, and what `Receive` returned. An action that blocks leaves the state.
unfoldable pub act : Key → Action → Subscription → Subscription × List InvalidationResult
act k (notify n) s = (or_same (handle_push_notification k n (some s)) s, [])
act k (deliver r) s = (or_same (send_pubsub r s) s, [])
act k (fail e) s = (send_tracking_error e s, [])
act k (take source) s = received_or_nothing (receive source s) s

unfoldable pub act_all : Key → List Action → Subscription → Subscription × List InvalidationResult
act_all k [] s = (s, [])
act_all k (a ∷ actions) s =
    let (s1, out) = act k a s in let (s2, rest) = act_all k actions s1 in (s2, out ++ rest)
