-- ===== src/Redis/Tests/Bus.antt =====
-- Runs of the invalidation bus (internal/cache/redis/invalidation.go).
use frankenphp_tiered_cache.Base.{ℕ, ◌≡◌, refl, ◌↔◌, ◌||◌, true, false, none, [], ◌∷◌, ◌++◌, List}
use frankenphp_tiered_cache.Base.Int.{pos}
use frankenphp_tiered_cache.Base.Dict.{Key}
use frankenphp_tiered_cache.Contract.{foreign, success}
use frankenphp_tiered_cache.Redis.Wire.{bytes, text}
use frankenphp_tiered_cache.Redis.Tracking.{
  Part, scalar, values, missing, invalidate_name, decode_tracking_invalidations,
}
use frankenphp_tiered_cache.Redis.Subscription.{Subscription, from_tracking}
use frankenphp_tiered_cache.Redis.Actions.{Action, notify, take, fail, act_all}
use frankenphp_tiered_cache.Redis.Monitor.{
  Connections, InvalidationBus, new_subscription, subscribe, probe_turn, refresh_turn,
}
use frankenphp_tiered_cache.Redis.Correct.Tracking.{
  Announces, flushed_database, reset, decode_iff-Announces,
}
use frankenphp_tiered_cache.Redis.Correct.Owed.{
  has_flush, owes_flush, notify-Kept, drain, overflow_events, drain_delivers,
}
use frankenphp_tiered_cache.Redis.Correct.Life.{
  Subscribed, subscribe-Subscribed, Monitored, probe_turn-Monitored,
}

abbrev marker : Key
marker = b'm' ∷ []

abbrev flush_all : List Part
flush_all = scalar (text invalidate_name) ∷ missing ∷ []

abbrev later : List Action
later = fail (foreign 7) ∷ take from_tracking ∷ take from_tracking ∷ []

decode_iff-Announces_example :
    (decode_tracking_invalidations marker
        (scalar (text invalidate_name) ∷ values (text [] ∷ bytes marker ∷ []) ∷ [])
      ≡ reset)
    ↔ Announces marker (scalar (text invalidate_name) ∷ values (text [] ∷ bytes marker ∷ []) ∷ [])
decode_iff-Announces_example =
    decode_iff-Announces marker
      (scalar (text invalidate_name) ∷ values (text [] ∷ bytes marker ∷ []) ∷ [])

notify-Kept_example :
    (has_flush (act_all marker (notify flush_all ∷ later) new_subscription).1
      || owes_flush (act_all marker (notify flush_all ∷ later) new_subscription).0)
    ≡ true
notify-Kept_example = notify-Kept marker flush_all later new_subscription flushed_database

abbrev overflowed : Subscription
overflowed = record new_subscription { tracking_overflow = true }

drain_delivers_example :
    (act_all marker (drain overflowed) overflowed).1
    ≡ overflowed.tracking_messages ++ overflow_events true
drain_delivers_example = drain_delivers marker overflowed refl

-- The state is the identity of the connection.
abbrev net : Connections ℕ
net = record {
  receive_confirmation = λ n. (n, none);
  close_pubsub = λ n. (n, none);
  client_id = λ n. (n, success (pos n));
  client_tracking = λ n. (n, none);
  set_nx = λ k v n. (n, none);
  get = λ k n. (n, none);
  close_tracking = λ n. (n, none);
  close_client = λ n. (n, none);
}

abbrev bus : InvalidationBus ℕ
bus = record {
  network = 3;
  channel = [];
  tracking_key = marker;
  tracking_sub = none;
  closed_once = false;
  close_err = none;
}

subscribe-Subscribed_example : Subscribed net none (subscribe net bus)
subscribe-Subscribed_example = subscribe-Subscribed net bus

probe_turn-Monitored_example :
    Monitored net (probe_turn net marker 3 new_subscription)
    × Monitored net (refresh_turn net marker 3 new_subscription)
probe_turn-Monitored_example = probe_turn-Monitored net marker 3 new_subscription
