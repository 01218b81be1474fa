-- ===== src/Tiered/Tests/Recovery.antt =====
-- Runs of a recovery between other operations (internal/cache/tiered/recovery.go).
use frankenphp_tiered_cache.Base.{ℕ, ◌≡◌, ◌⊎◌, refl, true, false, none, some, List, [], ◌∷◌, arith}
use frankenphp_tiered_cache.Base.Int.{pos}
use frankenphp_tiered_cache.Base.Dict.{lookup, key_eq, erase, insert}
use frankenphp_tiered_cache.Contract.{foreign}
use frankenphp_tiered_cache.Tiered.State.{TieredCache, observe_l2}
use frankenphp_tiered_cache.Tiered.Health.{
  flush_l1, flush_l1_locked, degrade_locked, transition_to_degraded, enter_healthy,
}
use frankenphp_tiered_cache.Tiered.Publish.{
  publish_or_mark, publish_key_invalidation, mark_pending_invalidation, publish_pending,
  recover_pending_invalidations,
}
use frankenphp_tiered_cache.Tiered.Recovery.{
  Others, recovery_probe, recovery_retry, recovery_flush, recovery_enter, recovery_finish,
  try_recovery,
}
use frankenphp_tiered_cache.Tiered.History.{
  Call, calls_set, calls_flush, calls_recovery_probe, calls_recovery_retry, calls_recovery_flush,
  calls_recovery_enter, run_all,
}
use frankenphp_tiered_cache.Tiered.Correct.Keeps.{IsSound}
use frankenphp_tiered_cache.Tiered.Correct.Retry.{IsIdle}
use frankenphp_tiered_cache.Tiered.Correct.Refuse.{between, try_recovery-heals}
use frankenphp_tiered_cache.Tiered.Correct.Publish.{publish_or_mark-Keeps}
use frankenphp_tiered_cache.Tiered.Correct.Recover.{Recovers, StayDown, try_recovery-Recovers}
use frankenphp_tiered_cache.Tiered.Correct.History.{AllEndIdle, run_all-IsSound}
use frankenphp_tiered_cache.Tiered.Tests.{Values, system, healthy, key_a, ten}

-- A cache that has degraded while a `Set` of `a` holds the mutation lock, as when L1 could neither be
-- written nor flushed: the publication of that `Set` is still to come, and fails.
abbrev fallen : TieredCache Values Values ℕ
fallen = record healthy { degraded = true; state_err = some (foreign 0); health_epoch = 1 }

-- The `Set` goes on while the recovery waits for the mutation lock.
abbrev set_goes_on : Others Values Values ℕ
set_goes_on = record {
  before_retry = λ t. t;
  before_checks = λ t. t;
  before_flush = λ t. (publish_or_mark system key_a t).0;
  before_end = λ t. t;
}

set_goes_on-StayDown : StayDown system set_goes_on
set_goes_on-StayDown = record {
  retry_down = λ t down. down;
  checks_down = λ t down. down;
  flush_down = λ t down. (publish_or_mark-Keeps system key_a t).4 down;
  end_down = λ t down. down;
}

-- The recovery and the `Set` leave a healthy cache in which the key of the `Set` waits.
healthy_and_waiting :
    ((try_recovery system set_goes_on fallen).degraded ≡ false)
    × ((try_recovery system set_goes_on fallen).pending_invalidations ≡ (key_a, tt) ∷ [])
unfolding try_recovery recovery_finish recovery_probe recovery_retry recovery_flush recovery_enter
    observe_l2 recover_pending_invalidations publish_pending publish_or_mark
    publish_key_invalidation mark_pending_invalidation degrade_locked transition_to_degraded
    flush_l1_locked flush_l1 enter_healthy lookup insert
healthy_and_waiting = (refl, refl)

try_recovery-Recovers_example :
    Recovers system set_goes_on fallen (try_recovery system set_goes_on fallen)
unfolding recovery_probe observe_l2 lookup
try_recovery-Recovers_example =
    try_recovery-Recovers system set_goes_on fallen set_goes_on-StayDown refl
      (tt, λ f. ground (arith, f)) (λ f. ground (arith, f))

-- A degraded cache with a key that waits, and a bus that works again.
abbrev degraded : TieredCache Values Values ℕ
degraded = record healthy {
  bus = 0;
  degraded = true;
  state_err = some (foreign 0);
  pending_invalidations = (key_a, tt) ∷ [];
}

abbrev calls : List Call
calls =
    calls_recovery_probe
    ∷ calls_recovery_retry
    ∷ calls_recovery_flush
    ∷ calls_recovery_enter 0
    ∷ calls_set key_a (some ten) (pos 500)
    ∷ []

calls-AllEndIdle : AllEndIdle system calls degraded
unfolding recovery_probe recovery_retry recovery_flush observe_l2 recover_pending_invalidations
    publish_pending publish_key_invalidation flush_l1 lookup erase key_eq
calls-AllEndIdle = (tt, (tt, (tt, ((refl, refl), (tt, tt)))))

run_all-IsSound_example : IsSound (run_all system calls degraded)
unfolding lookup
run_all-IsSound_example =
    run_all-IsSound system calls degraded refl calls-AllEndIdle
      ((λ up. ground (arith, up)), ((refl, tt), λ f. ground (arith, f)))

abbrev writes : List Call
writes = calls_set key_a (some ten) (pos 500) ∷ calls_flush ∷ []

try_recovery-heals_example :
    let u = try_recovery system (between system writes [] writes writes) degraded in
    (u.degraded ≡ true) ⊎ (IsIdle system u × (u.state_err ≡ none))
unfolding lookup
try_recovery-heals_example =
    try_recovery-heals system writes [] writes writes degraded (tt, (tt, tt)) tt (tt, (tt, tt))
      (tt, (tt, tt)) refl ((refl, tt), λ f. ground (arith, f)) (λ off. ground (arith, off))
