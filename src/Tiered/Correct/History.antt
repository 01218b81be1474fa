-- ===== src/Tiered/Correct/History.antt =====
-- The health of `TieredCache` in every history of `Tiered.History`.
use frankenphp_tiered_cache.Base.{
  ◌≡◌, Bool, true, false, Option, none, some, List, [], ◌∷◌, if◌then◌else◌,
}
use frankenphp_tiered_cache.Base.Int.{pos_part}
use frankenphp_tiered_cache.Base.Dict.{Key}
use frankenphp_tiered_cache.Contract.{Bytes, Duration, not_positive}
use frankenphp_tiered_cache.Tiered.State.{System, TieredCache}
use frankenphp_tiered_cache.Tiered.Set.{set, forever, add}
use frankenphp_tiered_cache.Tiered.SetMany.{set_many, non_nil, set_many_values}
use frankenphp_tiered_cache.Tiered.Remove.{touch}
use frankenphp_tiered_cache.Tiered.Recovery.{close}
use frankenphp_tiered_cache.Tiered.History.{
  Call, calls_set, calls_forever, calls_add, calls_set_many, calls_forget, calls_touch, calls_flush,
  calls_change_counter, calls_get_begin, calls_get_finish, calls_get_many_read,
  calls_get_many_finish, calls_recovery_probe, calls_recovery_retry, calls_recovery_flush,
  calls_recovery_enter, meets, calls_close, run, run_all,
}
use frankenphp_tiered_cache.Tiered.Correct.Keeps.{IsSound, Safe}
use frankenphp_tiered_cache.Tiered.Correct.Sound.{
  set_locked-IsSound, add_locked-IsSound, change_counter-IsSound,
}
use frankenphp_tiered_cache.Tiered.Correct.Removal.{
  forget-IsSound, touch_locked-IsSound, flush-IsSound,
}
use frankenphp_tiered_cache.Tiered.Correct.Batch.{set_many_locked-IsSound}
use frankenphp_tiered_cache.Tiered.Correct.Reads.{get_begin-Safe, get_finish-Keeps}
use frankenphp_tiered_cache.Tiered.Correct.ReadSafe.{get_many_read-Safe, get_many_finish-Safe}
use frankenphp_tiered_cache.Tiered.Correct.Events.{subscriber_step-Safe}
use frankenphp_tiered_cache.Tiered.Correct.Retry.{IsIdle}
use frankenphp_tiered_cache.Tiered.Correct.Healthy.{
  recovery_probe-IsSound, recovery_retry-IsSound, recovery_flush-IsSound, recovery_enter-IsSound,
}

module _ {S1 S2 B : Type 0} (sys : System S1 S2 B) where
  Safe-if :
      {A : Type 0} (b : Bool) (t : TieredCache S1 S2 B) (p q : TieredCache S1 S2 B × A)
      → Safe t p.0
      → Safe t q.0
      → Safe t (if b then p else q).0
  Safe-if true t p q left right = left
  Safe-if false t p q left right = right

  set-Safe :
      (key : Key) (value : Option Bytes) (ttl : Duration) (t : TieredCache S1 S2 B)
      → Safe t (set sys key value ttl t).0
  unfolding set
  set-Safe key none ttl t = λ s. s
  set-Safe key (some value) ttl t =
      Safe-if (not_positive ttl) t _ _ (λ s. s)
        (set_locked-IsSound sys key value (some (pos_part ttl)) t)

  forever-Safe :
      (key : Key) (value : Option Bytes) (t : TieredCache S1 S2 B)
      → Safe t (forever sys key value t).0
  unfolding forever
  forever-Safe key none t = λ s. s
  forever-Safe key (some value) t = set_locked-IsSound sys key value none t

  add-Safe :
      (key : Key) (value : Option Bytes) (ttl : Duration) (t : TieredCache S1 S2 B)
      → Safe t (add sys key value ttl t).0
  unfolding add
  add-Safe key none ttl t = λ s. s
  add-Safe key (some value) ttl t =
      Safe-if (not_positive ttl) t _ _ (λ s. s) (add_locked-IsSound sys key value (pos_part ttl) t)

  set_many-Safe :
      (values : List (Key × Option Bytes)) (ttl : Duration) (t : TieredCache S1 S2 B)
      → Safe t (set_many sys values ttl t).0
  unfolding set_many
  set_many-Safe [] ttl t = λ s. s
  set_many-Safe (v ∷ values) ttl t =
      Safe-if (not_positive ttl) t _ _ (λ s. s) (go (non_nil (v ∷ values)))
    where
      go :
          (known : Option (List (Key × Bytes)))
          → Safe t (set_many_values sys known (pos_part ttl) t).0
      go none = λ s. s
      go (some known) = set_many_locked-IsSound sys known (pos_part ttl) t

  touch-Safe :
      (key : Key) (ttl : Duration) (t : TieredCache S1 S2 B) → Safe t (touch sys key ttl t).0
  unfolding touch
  touch-Safe key ttl t =
      Safe-if (not_positive ttl) t _ _ (λ s. s) (touch_locked-IsSound sys key (pos_part ttl) t)

  close-Safe : (t : TieredCache S1 S2 B) → Safe t (close sys t).0
  unfolding close
  close-Safe t = Safe-if t.is_closed t _ _ (λ s. s) (λ s. s)

  -- Nothing waits where a recovery ends.
  abbrev pub EndsIdle : Call → TieredCache S1 S2 B → Type 0
  EndsIdle (calls_recovery_enter epoch) t = IsIdle sys t
  EndsIdle c t = Unit {0}

  abbrev pub AllEndIdle : List Call → TieredCache S1 S2 B → Type 0
  AllEndIdle [] t = Unit {0}
  AllEndIdle (c ∷ calls) t = EndsIdle c t × AllEndIdle calls (run sys c t)

  run-Safe :
      (c : Call) (t : TieredCache S1 S2 B)
      → sys.has_bus ≡ true
      → EndsIdle c t
      → Safe t (run sys c t)
  run-Safe (calls_set key value ttl) t on idle = set-Safe key value ttl t
  run-Safe (calls_forever key value) t on idle = forever-Safe key value t
  run-Safe (calls_add key value ttl) t on idle = add-Safe key value ttl t
  run-Safe (calls_set_many values ttl) t on idle = set_many-Safe values ttl t
  run-Safe (calls_forget key) t on idle = forget-IsSound sys key t
  run-Safe (calls_touch key ttl) t on idle = touch-Safe key ttl t
  run-Safe calls_flush t on idle = flush-IsSound sys t
  run-Safe (calls_change_counter key value decrement) t on idle =
      change_counter-IsSound sys key value decrement t
  run-Safe (calls_get_begin key) t on idle = get_begin-Safe sys key t
  run-Safe (calls_get_finish key fetched) t on idle = (get_finish-Keeps sys key fetched t).3
  run-Safe (calls_get_many_read keys version) t on idle = get_many_read-Safe sys keys version t
  run-Safe (calls_get_many_finish fetched) t on idle = get_many_finish-Safe sys fetched t
  run-Safe calls_recovery_probe t on idle = recovery_probe-IsSound sys t
  run-Safe calls_recovery_retry t on idle = recovery_retry-IsSound sys t on
  run-Safe calls_recovery_flush t on idle = recovery_flush-IsSound sys t
  run-Safe (calls_recovery_enter epoch) t on idle = recovery_enter-IsSound sys epoch t idle
  run-Safe (meets event) t on idle = subscriber_step-Safe sys event t
  run-Safe calls_close t on idle = close-Safe t

  pub run_all-Safe :
      (calls : List Call) (t : TieredCache S1 S2 B)
      → sys.has_bus ≡ true
      → AllEndIdle calls t
      → Safe t (run_all sys calls t)
  run_all-Safe [] t on idle sound = sound
  run_all-Safe (c ∷ calls) t on (idle, later) sound =
      run_all-Safe calls (run sys c t) on later (run-Safe c t on idle sound)

  -- In a cache with a bus, start where a healthy cache has nothing that waits and no cause of an
  -- outage, and where no key waits twice or beside a pending flush. Whatever mutations, reads, events
  -- of the subscriber, closes and parts of recoveries follow in whatever order: if nothing waits
  -- wherever the last part of a recovery comes, then that is so of the state that they leave.
  pub run_all-IsSound :
      (calls : List Call) (t : TieredCache S1 S2 B)
      → sys.has_bus ≡ true
      → AllEndIdle calls t
      → IsSound t
      → IsSound (run_all sys calls t)
  run_all-IsSound calls t on idle = run_all-Safe calls t on idle
