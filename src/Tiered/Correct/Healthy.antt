-- ===== src/Tiered/Correct/Healthy.antt =====
-- The health of `TieredCache` under the parts of a recovery (internal/cache/tiered/recovery.go).
use mathlib.Core.Path.{subst}
use frankenphp_tiered_cache.Base.{
  ◌≡◌, refl, sym, arith, ℕ, ◌∙◌, inl, inr, Bool, true, false, Option, none, some, List, [],
  Bool-cases, if◌then◌else◌,
}
use frankenphp_tiered_cache.Base.Dict.{Key}
use frankenphp_tiered_cache.Contract.{Error}
use frankenphp_tiered_cache.Tiered.State.{System, TieredCache, observe_l2}
use frankenphp_tiered_cache.Tiered.Health.{flush_l1}
use frankenphp_tiered_cache.Tiered.Publish.{
  publish_flush_invalidation, publish_pending, flush_published, recover_pending_invalidations,
}
use frankenphp_tiered_cache.Tiered.Recovery.{
  recovery_probe_key, may_recover, after_probe, after_pending, after_flush, recovery_probe,
  recovery_retry, recovery_flush, recovery_enter,
}
use frankenphp_tiered_cache.Tiered.Correct.Keeps.{IsSound, Safe, degraded-IsSound}
use frankenphp_tiered_cache.Tiered.Correct.Retry.{IsIdle}
use frankenphp_tiered_cache.Tiered.Correct.Recover.{recovery_retry-Part, recovery_enter-Enters}

module _ {S1 S2 B : Type 0} (sys : System S1 S2 B) where
  pub recovery_probe-IsSound : (t : TieredCache S1 S2 B) → Safe t (recovery_probe sys t).0
  unfolding recovery_probe observe_l2
  recovery_probe-IsSound t sound =
      go (may_recover sys t) _ sound (sys.l2.get recovery_probe_key t.l2).1.error
    where
      go :
          (due : Bool) (v : TieredCache S1 S2 B)
          → IsSound v
          → (err : Option Error) → IsSound (if due then after_probe sys err v else (t, false)).0
      go true v kept none = kept
      go true v kept (some e) = kept
      go false v kept err = sound

  -- A retry does nothing if nothing waits.
  idle_retry :
      (t : TieredCache S1 S2 B) (on flushes : Bool) (keys : List (Key × Unit {0}))
      → flushes ≡ false
      → keys ≡ []
      → (if on
          then if flushes
            then flush_published sys (publish_flush_invalidation sys t)
            else publish_pending sys keys t
          else (t, true))
        ≡ (t, true)
  unfolding publish_pending
  idle_retry t true flushes keys off empty = rw (off, empty) refl
  idle_retry t false flushes keys off empty = refl

  pub recovery_retry-IsSound :
      (t : TieredCache S1 S2 B) → sys.has_bus ≡ true → Safe t (recovery_retry sys t).0
  unfolding recovery_retry recover_pending_invalidations
  recovery_retry-IsSound t on sound = elim (Bool-cases t.degraded) [
    | inl down ↦
        let (health, _, queue) =
          recovery_retry-Part sys t sound.1 (λ off. ground (arith, on, off)) in
        degraded-IsSound (recovery_retry sys t).0 (health ∙ down) queue
    | inr up ↦
        let (empty, off, _) = sound.0 up in
        subst (λ p. IsSound (after_pending sys p).0)
          (sym (idle_retry t sys.has_bus t.pending_flush t.pending_invalidations off empty)) sound
  ]

  pub recovery_flush-IsSound : (t : TieredCache S1 S2 B) → Safe t (recovery_flush sys t).0
  unfolding recovery_flush flush_l1
  recovery_flush-IsSound t sound = go t.is_closed (flush_l1 sys t).1.error
    where
      go :
          (shut : Bool) (err : Option Error)
          → IsSound (if shut then (t, false) else after_flush sys err (flush_l1 sys t).0).0
      go true err = sound
      go false none = sound
      go false (some e) = sound

  -- The end of a recovery, if nothing waits then.
  pub recovery_enter-IsSound :
      (epoch : ℕ) (t : TieredCache S1 S2 B) → IsIdle sys t → Safe t (recovery_enter sys epoch t)
  recovery_enter-IsSound epoch t idle sound = elim (recovery_enter-Enters sys epoch t) [
    | inl same ↦ subst IsSound (sym same) sound
    | inr (_, _, cause, _, keys, flushes) ↦
        ((λ up. (keys ∙ idle.0, flushes ∙ idle.1, cause)), (rw keys sound.1.0, λ f. keys ∙ idle.0))
  ]
