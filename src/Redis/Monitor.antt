-- ===== src/Redis/Monitor.antt =====
-- The life of a subscription (internal/cache/redis/invalidation.go): `Subscribe`, `Close`, the
-- marker and the turns of `monitorTracking`. The calls on go-redis connections are a parameter.
use frankenphp_tiered_cache.Base.{
  Bool, true, false, Option, none, some, [], ◌∷◌, if◌then◌else◌, ◌&&◌,
}
use frankenphp_tiered_cache.Base.Int.{ℤ, pos, leb_ℤ}
use frankenphp_tiered_cache.Base.Dict.{Key}
use frankenphp_tiered_cache.Contract.{Error, Reply, foreign, wrap, join}
use frankenphp_tiered_cache.Redis.Subscription.{Subscription, send_tracking_error}

-- The connections of one bus: PUBSUB's own, and the one that tracks keys.
pub record Connections (N : Type 0) : Type 0 where
  pub receive_confirmation : N → N × Option Error
  pub close_pubsub : N → N × Option Error
  pub client_id : N → N × Reply ℤ
  pub client_tracking : N → N × Option Error
  pub set_nx : Key → Key → N → N × Option Error
  pub get : Key → N → N × Option Error
  pub close_tracking : N → N × Option Error
  pub close_client : N → N × Option Error

-- `InvalidationBus`; `closed_once` says that the function of `closeOnce` ran.
pub record InvalidationBus (N : Type 0) : Type 0 where
  pub network : N
  pub channel : Key
  pub tracking_key : Key
  pub tracking_sub : Option Subscription
  pub closed_once : Bool
  pub close_err : Option Error

-- The texts that the code puts before an error.
abbrev pub already_active : Error
already_active = foreign 1

abbrev pub identify_failed : Error
identify_failed = foreign 2

abbrev pub enable_failed : Error
enable_failed = foreign 3

abbrev pub marker_failed : Error
marker_failed = foreign 4

abbrev pub probe_failed : Error
probe_failed = foreign 5

abbrev pub connection_changed : Error
connection_changed = foreign 6

-- The value 1.
abbrev pub marker_value : Key
marker_value = b'1' ∷ []

-- The subscription that `Subscribe` makes.
abbrev pub new_subscription : Subscription
new_subscription = record {
  tracking_client_id = pos 0;
  pubsub_messages = [];
  tracking_messages = [];
  tracking_overflow = false;
  tracking_errors = none;
  refresh_marker = false;
  cancelled = false;
}

abbrev pub same_id : ℤ → ℤ → Bool
same_id a b = leb_ℤ a b && leb_ℤ b a

module _ {N : Type 0} (net : Connections N) where
  abbrev marked : Option Error → Key → N → N × Option Error
  marked (some e) key n = (n, some e)
  marked none key n = net.get key n

  unfoldable pub ensure_tracking_marker : Key → N → N × Option Error
  ensure_tracking_marker key n = (let (n1, e) = net.set_nx key marker_value n in marked e key n1)

  -- The first `Close` of a subscription: its error, and the bus without it.
  unfoldable pub close_subscription : InvalidationBus N → InvalidationBus N × Option Error
  close_subscription b =
      let (n1, e1) = net.close_pubsub b.network in
      let (n2, e2) = net.close_tracking n1 in
      (record b { network = n2; tracking_sub = none }, join e1 e2)

  -- A failure after the subscription was made active.
  abbrev pub abandoned : Error → Error → InvalidationBus N → InvalidationBus N × Option Error
  abandoned text cause b = (let (b1, _) = close_subscription b in (b1, some (wrap text cause)))

  abbrev pub subscribed_with_marker :
      Option Error → InvalidationBus N → InvalidationBus N × Option Error
  subscribed_with_marker (some e) b = abandoned marker_failed e b
  subscribed_with_marker none b = (b, none)

  abbrev pub subscribed_tracking :
      Option Error → InvalidationBus N → InvalidationBus N × Option Error
  subscribed_tracking (some e) b = abandoned enable_failed e b
  subscribed_tracking none b =
      let (n1, e) = ensure_tracking_marker b.tracking_key b.network in
      subscribed_with_marker e (record b { network = n1 })

  abbrev pub subscribed_as : Option Error → ℤ → InvalidationBus N → InvalidationBus N × Option Error
  subscribed_as (some e) id b = abandoned identify_failed e b
  subscribed_as none id b =
      let (n1, e) = net.client_tracking b.network in
      subscribed_tracking e (record b {
        network = n1;
        tracking_sub = some (record new_subscription { tracking_client_id = id });
      })

  -- After the confirmation, with the subscription that is active already.
  abbrev pub subscribed_over :
      Option Subscription → InvalidationBus N → InvalidationBus N × Option Error
  subscribed_over (some active) b =
      let (n1, _) = net.close_pubsub b.network in (record b { network = n1 }, some already_active)
  subscribed_over none b =
      let (n1, r) = net.client_id b.network in
      subscribed_as r.error r.result
        (record b { network = n1; tracking_sub = some new_subscription })

  abbrev pub subscribed_on : Option Error → InvalidationBus N → InvalidationBus N × Option Error
  subscribed_on (some e) b =
      let (n1, _) = net.close_pubsub b.network in (record b { network = n1 }, some e)
  subscribed_on none b = subscribed_over b.tracking_sub b

  -- `Subscribe`; the new subscription is the bus's `tracking_sub`.
  unfoldable pub subscribe : InvalidationBus N → InvalidationBus N × Option Error
  subscribe b =
      let (n1, e) = net.receive_confirmation b.network in
      subscribed_on e (record b { network = n1 })

  -- `InvalidationBus.Close`
  unfoldable pub close_bus : InvalidationBus N → InvalidationBus N × Option Error
  close_bus b =
      let (n1, e) = net.close_client b.network in
      if b.closed_once
      then (b, b.close_err)
      else (record b { network = n1; closed_once = true; close_err = e }, e)

  -- The state of the goroutine: the network, the subscription and whether it goes on.
  abbrev pub Turn : Type 0
  Turn = N × Subscription × Bool

  abbrev pub gave_up : Error → Error → N → Subscription → Turn
  gave_up text cause n s = (n, send_tracking_error (wrap text cause) s, false)

  abbrev pub refreshed_with : Option Error → N → Subscription → Turn
  refreshed_with (some e) n s = gave_up marker_failed e n s
  refreshed_with none n s = (n, s, true)

  -- The branch of `refreshMarker`, which took the token.
  unfoldable pub refresh_turn : Key → N → Subscription → Turn
  refresh_turn key n s =
      let (n1, e) = ensure_tracking_marker key n in
      refreshed_with e n1 (record s { refresh_marker = false })

  -- A token that came with the tick.
  abbrev pub refresh_if : Bool → Key → N → Subscription → Turn
  refresh_if false key n s = (n, s, true)
  refresh_if true key n s = refresh_turn key n s

  abbrev pub probed_as : Bool → Key → N → Subscription → Turn
  probed_as true key n s = refresh_if s.refresh_marker key n s
  probed_as false key n s = (n, send_tracking_error connection_changed s, false)

  -- A failed probe is an error unless the context is done.
  abbrev pub probe_error : Bool → Error → N → Subscription → Turn
  probe_error true e n s = (n, s, false)
  probe_error false e n s = gave_up probe_failed e n s

  abbrev pub probed : Option Error → ℤ → Key → N → Subscription → Turn
  probed (some e) id key n s = probe_error s.cancelled e n s
  probed none id key n s = probed_as (same_id id s.tracking_client_id) key n s

  -- The branch of the ticker.
  unfoldable pub probe_turn : Key → N → Subscription → Turn
  unfolding refresh_turn
  probe_turn key n s = (let (n1, r) = net.client_id n in probed r.error r.result key n1 s)
