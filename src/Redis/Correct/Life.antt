-- ===== src/Redis/Correct/Life.antt =====
-- What the life of a subscription promises (internal/cache/redis/invalidation.go).
use frankenphp_tiered_cache.Base.{◌≡◌, refl, ◌⊎◌, inl, inr, Bool, true, false, Option, none, some}
use frankenphp_tiered_cache.Base.Int.{ℤ}
use frankenphp_tiered_cache.Base.Dict.{Key}
use frankenphp_tiered_cache.Contract.{Error, is_nil}
use frankenphp_tiered_cache.Redis.Subscription.{
  Subscription, Source, Received, take_error, error_first, select_source, error_or,
  send_tracking_error, receive,
}
use frankenphp_tiered_cache.Redis.Monitor.{
  Connections, InvalidationBus, new_subscription, same_id, subscribe, ensure_tracking_marker,
  close_subscription, subscribed_with_marker, subscribed_tracking, subscribed_as, subscribed_over,
  subscribed_on, Turn, refreshed_with, refresh_if, probed_as, probe_error, probed, refresh_turn,
  probe_turn,
}

module _ {N : Type 0} (net : Connections N) where
  -- What `Subscribe` did, by its error: without one there was no subscription and now there is one
  -- with empty channels; with one, the active subscription is the one of before.
  abbrev pub Subscribed : Option Subscription → InvalidationBus N × Option Error → Type 0
  Subscribed before (b, none) =
      (before ≡ none)
      × ((id : ℤ) × (b.tracking_sub ≡ some (record new_subscription { tracking_client_id = id })))
  Subscribed before (b, some e) = b.tracking_sub ≡ before

  subscribed_with_marker-Subscribed :
      (e : Option Error) (id : ℤ) (b : InvalidationBus N)
      → b.tracking_sub ≡ some (record new_subscription { tracking_client_id = id })
      → Subscribed none (subscribed_with_marker net e b)
  unfolding close_subscription
  subscribed_with_marker-Subscribed (some e) id b h = refl
  subscribed_with_marker-Subscribed none id b h = (refl, (id, h))

  subscribed_tracking-Subscribed :
      (e : Option Error) (id : ℤ) (b : InvalidationBus N)
      → b.tracking_sub ≡ some (record new_subscription { tracking_client_id = id })
      → Subscribed none (subscribed_tracking net e b)
  unfolding close_subscription
  subscribed_tracking-Subscribed (some e) id b h = refl
  subscribed_tracking-Subscribed none id b h =
      subscribed_with_marker-Subscribed (ensure_tracking_marker net b.tracking_key b.network).1 id
        (record b { network = (ensure_tracking_marker net b.tracking_key b.network).0 }) h

  subscribed_as-Subscribed :
      (e : Option Error) (id : ℤ) (b : InvalidationBus N)
      → Subscribed none (subscribed_as net e id b)
  unfolding close_subscription
  subscribed_as-Subscribed (some e) id b = refl
  subscribed_as-Subscribed none id b =
      subscribed_tracking-Subscribed (net.client_tracking b.network).1 id
        (record b {
          network = (net.client_tracking b.network).0;
          tracking_sub = some (record new_subscription { tracking_client_id = id });
        })
        refl

  subscribed_over-Subscribed :
      (active : Option Subscription) (b : InvalidationBus N)
      → b.tracking_sub ≡ active
      → Subscribed active (subscribed_over net active b)
  subscribed_over-Subscribed (some s) b h = h
  subscribed_over-Subscribed none b h =
      subscribed_as-Subscribed (net.client_id b.network).1.error (net.client_id b.network).1.result
        (record b { network = (net.client_id b.network).0; tracking_sub = some new_subscription })

  subscribed_on-Subscribed :
      (e : Option Error) (b : InvalidationBus N) → Subscribed b.tracking_sub (subscribed_on net e b)
  subscribed_on-Subscribed (some e) b = refl
  subscribed_on-Subscribed none b = subscribed_over-Subscribed b.tracking_sub b refl

  -- Without an error, `Subscribe` found no active subscription and leaves one with empty channels;
  -- with an error, wherever it arose, it leaves the active subscription, or none, as it was.
  pub subscribe-Subscribed : (b : InvalidationBus N) → Subscribed b.tracking_sub (subscribe net b)
  unfolding subscribe
  subscribe-Subscribed b =
      subscribed_on-Subscribed (net.receive_confirmation b.network).1
        (record b { network = (net.receive_confirmation b.network).0 })

  -- A received result that is an error.
  abbrev pub IsFailure : Received → Type 0
  IsFailure none = false ≡ true
  IsFailure (some (s, r)) = is_nil r.err ≡ false

  -- What a turn of the monitor means for the reader.
  abbrev pub Monitored : Turn net → Type 0
  Monitored (n, s, true) = Unit
  Monitored (n, s, false) =
      (s.cancelled ≡ true) ⊎ ((source : Source) → IsFailure (receive source s))

  take_error-IsFailure :
      (errors : Option Error) (e : Error) (rest : Received) (s : Subscription)
      → IsFailure (error_first (take_error (error_or errors e) s) rest)
  take_error-IsFailure none e rest s = refl
  take_error-IsFailure (some first) e rest s = refl

  receive-IsFailure :
      (e : Error) (s : Subscription) (source : Source)
      → IsFailure (receive source (send_tracking_error e s))
  unfolding receive send_tracking_error
  receive-IsFailure e s source =
      take_error-IsFailure s.tracking_errors e (select_source source (send_tracking_error e s))
        (send_tracking_error e s)

  refreshed_with-Monitored :
      (e : Option Error) (n : N) (s : Subscription) → Monitored (refreshed_with net e n s)
  refreshed_with-Monitored none n s = tt
  refreshed_with-Monitored (some e) n s = inr (receive-IsFailure _ s)

  -- The branch of `refreshMarker`: if the goroutine ends then the next `Receive` fails.
  pub refresh_turn-Monitored :
      (key : Key) (n : N) (s : Subscription) → Monitored (refresh_turn net key n s)
  unfolding refresh_turn
  refresh_turn-Monitored key n s =
      refreshed_with-Monitored (ensure_tracking_marker net key n).1
        (ensure_tracking_marker net key n).0 (record s { refresh_marker = false })

  refresh_if-Monitored :
      (b : Bool) (key : Key) (n : N) (s : Subscription) → Monitored (refresh_if net b key n s)
  refresh_if-Monitored false key n s = tt
  refresh_if-Monitored true key n s = refresh_turn-Monitored key n s

  probed_as-Monitored :
      (b : Bool) (key : Key) (n : N) (s : Subscription) → Monitored (probed_as net b key n s)
  probed_as-Monitored true key n s = refresh_if-Monitored s.refresh_marker key n s
  probed_as-Monitored false key n s = inr (receive-IsFailure _ s)

  probe_error-Monitored :
      (b : Bool) (e : Error) (n : N) (s : Subscription)
      → s.cancelled ≡ b
      → Monitored (probe_error net b e n s)
  probe_error-Monitored true e n s h = inl h
  probe_error-Monitored false e n s h = inr (receive-IsFailure _ s)

  probed-Monitored :
      (e : Option Error) (id : ℤ) (key : Key) (n : N) (s : Subscription)
      → Monitored (probed net e id key n s)
  probed-Monitored (some e) id key n s = probe_error-Monitored s.cancelled e n s refl
  probed-Monitored none id key n s = probed_as-Monitored (same_id id s.tracking_client_id) key n s

  -- When a turn of the monitor ends it, be it a failed probe, a changed connection or a marker that
  -- cannot be restored, then either the subscription was cancelled or the next `Receive` fails,
  -- whatever else waits in the channels: the loss of tracking is never silent.
  pub probe_turn-Monitored :
      (key : Key) (n : N) (s : Subscription)
      → Monitored (probe_turn net key n s) × Monitored (refresh_turn net key n s)
  unfolding probe_turn
  probe_turn-Monitored key n s = (
    probed-Monitored (net.client_id n).1.error (net.client_id n).1.result key (net.client_id n).0 s,
    refresh_turn-Monitored key n s,
  )
