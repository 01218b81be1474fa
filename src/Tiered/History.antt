-- ===== src/Tiered/History.antt =====
-- What may happen to a `TieredCache` under its locks, one thing after the other, in any order: the
-- mutations, the two parts of `Get` and of `GetMany`, the four parts of a recovery, what the subscriber
-- meets, and `Close` (internal/cache/tiered).
use frankenphp_tiered_cache.Base.{ℕ, Bool, Option, List, [], ◌∷◌}
use frankenphp_tiered_cache.Base.Int.{ℤ}
use frankenphp_tiered_cache.Base.Dict.{Key}
use frankenphp_tiered_cache.Contract.{Bytes, Duration}
use frankenphp_tiered_cache.Tiered.State.{System, TieredCache}
use frankenphp_tiered_cache.Tiered.Set.{set, forever, add}
use frankenphp_tiered_cache.Tiered.SetMany.{set_many}
use frankenphp_tiered_cache.Tiered.Remove.{forget, touch, flush}
use frankenphp_tiered_cache.Tiered.Count.{change_counter}
use frankenphp_tiered_cache.Tiered.Read.{Fetched, get_begin, get_finish}
use frankenphp_tiered_cache.Tiered.ManyState.{FetchedMany}
use frankenphp_tiered_cache.Tiered.ReadMany.{get_many_read, get_many_finish}
use frankenphp_tiered_cache.Tiered.Recovery.{
  recovery_probe, recovery_retry, recovery_flush, recovery_enter, close,
}
use frankenphp_tiered_cache.Tiered.Subscriber.{SubscriberEvent, subscriber_step}

-- `calls_get_finish` is the end of a `Get` with whatever it has fetched, at any time; a `GetMany` may
-- read at any version, and end with whatever it has fetched; a recovery may end with any epoch.
pub data Call : Type 0 where
  calls_set : Key → Option Bytes → Duration → Call
  calls_forever : Key → Option Bytes → Call
  calls_add : Key → Option Bytes → Duration → Call
  calls_set_many : List (Key × Option Bytes) → Duration → Call
  calls_forget : Key → Call
  calls_touch : Key → Duration → Call
  calls_flush : Call
  calls_change_counter : Key → ℤ → Bool → Call
  calls_get_begin : Key → Call
  calls_get_finish : Key → Fetched → Call
  calls_get_many_read : List Key → ℕ → Call
  calls_get_many_finish : FetchedMany → Call
  calls_recovery_probe : Call
  calls_recovery_retry : Call
  calls_recovery_flush : Call
  calls_recovery_enter : ℕ → Call
  meets : SubscriberEvent → Call
  calls_close : Call

module _ {S1 S2 B : Type 0} (sys : System S1 S2 B) where
  abbrev pub run : Call → TieredCache S1 S2 B → TieredCache S1 S2 B
  run (calls_set key value ttl) t = (set sys key value ttl t).0
  run (calls_forever key value) t = (forever sys key value t).0
  run (calls_add key value ttl) t = (add sys key value ttl t).0
  run (calls_set_many values ttl) t = (set_many sys values ttl t).0
  run (calls_forget key) t = (forget sys key t).0
  run (calls_touch key ttl) t = (touch sys key ttl t).0
  run calls_flush t = (flush sys t).0
  run (calls_change_counter key value decrement) t = (change_counter sys key value decrement t).0
  run (calls_get_begin key) t = (get_begin sys key t).0
  run (calls_get_finish key fetched) t = (get_finish sys key fetched t).0
  run (calls_get_many_read keys version) t = (get_many_read sys keys version t).0
  run (calls_get_many_finish fetched) t = (get_many_finish sys fetched t).0
  run calls_recovery_probe t = (recovery_probe sys t).0
  run calls_recovery_retry t = (recovery_retry sys t).0
  run calls_recovery_flush t = (recovery_flush sys t).0
  run (calls_recovery_enter epoch) t = recovery_enter sys epoch t
  run (meets event) t = subscriber_step sys event t
  run calls_close t = (close sys t).0

  abbrev pub run_all : List Call → TieredCache S1 S2 B → TieredCache S1 S2 B
  run_all [] t = t
  run_all (c ∷ calls) t = run_all calls (run c t)
