-- ===== src/Tiered/Correct/Recover.antt =====
-- Recovery of `TieredCache` (internal/cache/tiered/recovery.go).
use frankenphp_tiered_cache.Base.{
  ◌≡◌, refl, ap, arith, ◌&&◌, ◌==◌, ==_iff, ℕ, ◌∙◌, ◌⊎◌, inl, inr, Bool, true, false, Option, none,
  some, if◌then◌else◌,
}
use frankenphp_tiered_cache.Contract.{Error}
use frankenphp_tiered_cache.Observability.Observation.{set_degraded}
use frankenphp_tiered_cache.Tiered.State.{System, TieredCache, observe, observe_l2}
use frankenphp_tiered_cache.Tiered.Health.{flush_l1, enter_healthy}
use frankenphp_tiered_cache.Tiered.Publish.{recover_pending_invalidations}
use frankenphp_tiered_cache.Tiered.Recovery.{
  recovery_probe_key, may_recover, Others, after_pending, after_probe, recovery_probe,
  recovery_retry, note_success, after_flush, recovery_flush, recovery_enter, when_on,
  recovery_finish, try_recovery,
}
use frankenphp_tiered_cache.Tiered.Correct.Keeps.{IsQueue}
use frankenphp_tiered_cache.Tiered.Correct.Retry.{IsIdle, Retries, recover_pending-Retries}

module _ {S1 S2 B : Type 0} (sys : System S1 S2 B) where
  -- The states between the parts of a recovery: after the retry, at the checks, before the flush of
  -- L1, and before the end.
  abbrev pub retried : Others S1 S2 B → TieredCache S1 S2 B → TieredCache S1 S2 B
  retried o t = (recovery_retry sys (o.before_retry (recovery_probe sys t).0)).0

  abbrev pub checked : Others S1 S2 B → TieredCache S1 S2 B → TieredCache S1 S2 B
  checked o t = o.before_checks (retried o t)

  abbrev pub awaited : Others S1 S2 B → TieredCache S1 S2 B → TieredCache S1 S2 B
  awaited o t = o.before_flush (checked o t)

  abbrev pub at_end : Others S1 S2 B → TieredCache S1 S2 B → TieredCache S1 S2 B
  at_end o t = o.before_end (recovery_flush sys (awaited o t)).0

  -- What the end of a recovery does if it makes the cache healthy.
  abbrev pub Enters : ℕ → TieredCache S1 S2 B → TieredCache S1 S2 B → Type 0
  Enters epoch t u =
      (t.health_epoch ≡ epoch)
      × (u.degraded ≡ false)
      × (u.state_err ≡ none)
      × (u.l1 ≡ t.l1)
      × (u.pending_invalidations ≡ t.pending_invalidations)
      × (u.pending_flush ≡ t.pending_flush)

  -- What a recovery may leave.
  abbrev pub Recovers : Others S1 S2 B → TieredCache S1 S2 B → TieredCache S1 S2 B → Type 0
  Recovers o t u =
      (u.degraded ≡ true)
      ⊎ (((sys.l2.get recovery_probe_key t.l2).1.error ≡ none)
          × IsIdle sys (retried o t)
          × ((awaited o t).is_closed ≡ false)
          × ((flush_l1 sys (awaited o t)).1.error ≡ none)
          × ((recovery_flush sys (awaited o t)).0.l1 ≡ (flush_l1 sys (awaited o t)).0.l1)
          × Enters (checked o t).health_epoch (at_end o t) u)

  -- The other operations leave a degraded cache degraded.
  pub record StayDown (o : Others S1 S2 B) : Type 0 where
    pub retry_down :
        (t : TieredCache S1 S2 B) → t.degraded ≡ true → (o.before_retry t).degraded ≡ true
    pub checks_down :
        (t : TieredCache S1 S2 B) → t.degraded ≡ true → (o.before_checks t).degraded ≡ true
    pub flush_down :
        (t : TieredCache S1 S2 B) → t.degraded ≡ true → (o.before_flush t).degraded ≡ true
    pub end_down : (t : TieredCache S1 S2 B) → t.degraded ≡ true → (o.before_end t).degraded ≡ true

  when_on-lem :
      (P : TieredCache S1 S2 B → Type 0) (rest : TieredCache S1 S2 B → TieredCache S1 S2 B)
      (t : TieredCache S1 S2 B) (goes_on : Bool)
      → (goes_on ≡ true → P (rest t))
      → (goes_on ≡ false → P t)
      → P (when_on sys rest (t, goes_on))
  when_on-lem P rest t true on off = on refl
  when_on-lem P rest t false on off = off refl

  -- A part keeps the health and what waits; what holds if it goes on.
  abbrev pub Part : Type 0 → TieredCache S1 S2 B → TieredCache S1 S2 B × Bool → Type 0
  Part Done t p =
      (p.0.degraded ≡ t.degraded)
      × (p.0.pending_invalidations ≡ t.pending_invalidations)
      × (p.0.pending_flush ≡ t.pending_flush)
      × (p.1 ≡ true → Done)

  pub recovery_probe-Part :
      (t : TieredCache S1 S2 B)
      → Part ((sys.l2.get recovery_probe_key t.l2).1.error ≡ none) t (recovery_probe sys t)
  unfolding recovery_probe observe_l2
  recovery_probe-Part t =
      go (may_recover sys t) _ refl refl refl (sys.l2.get recovery_probe_key t.l2).1.error
    where
      go :
          (due : Bool) (v : TieredCache S1 S2 B)
          → v.degraded ≡ t.degraded
          → v.pending_invalidations ≡ t.pending_invalidations
          → v.pending_flush ≡ t.pending_flush
          → (err : Option Error)
          → Part (err ≡ none) t (if due then after_probe sys err v else (t, false))
      go true v health keys flushes none = (health, keys, flushes, λ on. refl)
      go true v health keys flushes (some e) = (health, keys, flushes, λ on. ground (arith, on))
      go false v health keys flushes err = (refl, refl, refl, λ on. ground (arith, on))

  pub recovery_retry-Part :
      (t : TieredCache S1 S2 B)
      → IsQueue t
      → (sys.has_bus ≡ false → IsIdle sys t)
      → ((recovery_retry sys t).0.degraded ≡ t.degraded)
        × ((recovery_retry sys t).1 ≡ true → IsIdle sys (recovery_retry sys t).0)
        × IsQueue (recovery_retry sys t).0
  unfolding recovery_retry
  recovery_retry-Part t queue idle =
      let r = recover_pending_invalidations sys t in
      go r.0 r.1 (recover_pending-Retries sys t queue idle)
    where
      go :
          (u : TieredCache S1 S2 B) (fine : Bool)
          → Retries sys t (u, fine)
          → let p = after_pending sys (u, fine) in
            (p.0.degraded ≡ t.degraded) × (p.1 ≡ true → IsIdle sys p.0) × IsQueue p.0
      go u true (leaves, inr empty) = (leaves.2, (λ on. empty), leaves.4 queue)
      go u true (leaves, inl failed) = (leaves.2, (λ on. ground (arith, failed)), leaves.4 queue)
      go u false (leaves, done) = (leaves.2, (λ on. ground (arith, on)), leaves.4 queue)

  pub recovery_flush-Part :
      (t : TieredCache S1 S2 B)
      → Part
          ((t.is_closed ≡ false)
            × ((flush_l1 sys t).1.error ≡ none)
            × ((recovery_flush sys t).0.l1 ≡ (flush_l1 sys t).0.l1))
          t
          (recovery_flush sys t)
  unfolding recovery_flush flush_l1
  recovery_flush-Part t = go t.is_closed (flush_l1 sys t).1.error
    where
      go :
          (shut : Bool) (err : Option Error)
          → let u = (flush_l1 sys t).0 in
            let p : TieredCache S1 S2 B × Bool =
              if shut then (t, false) else after_flush sys err u in
            Part ((shut ≡ false) × (err ≡ none) × (p.0.l1 ≡ u.l1)) t p
      go true err = (refl, refl, refl, λ on. ground (arith, on))
      go false none = (refl, refl, refl, λ on. (refl, refl, refl))
      go false (some e) = (refl, refl, refl, λ on. ground (arith, on))

  pub recovery_enter-Enters :
      (epoch : ℕ) (t : TieredCache S1 S2 B)
      → (recovery_enter sys epoch t ≡ t) ⊎ Enters epoch t (recovery_enter sys epoch t)
  unfolding recovery_enter enter_healthy
  recovery_enter-Enters epoch t =
      go t.degraded (t.health_epoch == epoch) (if sys.has_bus then t.invalidation_ready else true)
        refl
    where
      go :
          (down same ready : Bool)
          → (t.health_epoch == epoch) ≡ same
          → let u = note_success sys (
              if down && same && ready
              then (
                observe (set_degraded false) (record t { degraded = false; state_err = none }),
                true,
              )
              else (t, false)) in
            (u ≡ t) ⊎ Enters epoch t u
      go false same ready h = inl refl
      go true false ready h = inl refl
      go true true false h = inl refl
      go true true true h = inr ((==_iff t.health_epoch epoch).0 h, refl, refl, refl, refl, refl)

  -- A recovery of a degraded cache, whatever other operations do between its parts but make the
  -- cache healthy: if no key waits twice or beside a pending flush before the retry, and nothing
  -- waits if there is no bus, then the cache is left degraded, or Redis answered the probe without an
  -- error, the retry left nothing that waits, L1 was flushed without an error in an open cache after
  -- the checks, and the cache has not degraded anew since the checks; then the cache is healthy with
  -- no cause, and L1 and what waits are what the other operations have left before the end.
  pub try_recovery-Recovers :
      (o : Others S1 S2 B) (t : TieredCache S1 S2 B)
      → StayDown o
      → t.degraded ≡ true
      → IsQueue (o.before_retry (recovery_probe sys t).0)
      → (sys.has_bus ≡ false → IsIdle sys (o.before_retry (recovery_probe sys t).0))
      → Recovers o t (try_recovery sys o t)
  unfolding try_recovery recovery_finish
  try_recovery-Recovers o t stay down queue idle =
      let (probe_down, _, _, probed) = recovery_probe-Part t in
      let before = o.before_retry (recovery_probe sys t).0 in
      let (retry_down, fine, _) = recovery_retry-Part before queue idle in
      let down_1 = stay.retry_down (recovery_probe sys t).0 (probe_down ∙ down) in
      let down_2 = stay.checks_down (retried o t) (retry_down ∙ down_1) in
      let down_3 = stay.flush_down (checked o t) down_2 in
      let (flush_down, _, _, flushed) = recovery_flush-Part (awaited o t) in
      let down_4 = stay.end_down (recovery_flush sys (awaited o t)).0 (flush_down ∙ down_3) in
      let ends : TieredCache S1 S2 B → TieredCache S1 S2 B =
        λ u. recovery_enter sys (checked o t).health_epoch (o.before_end u) in
      let finishes : TieredCache S1 S2 B → TieredCache S1 S2 B =
        λ v. recovery_finish sys o (o.before_checks v) in
      let retries : TieredCache S1 S2 B → TieredCache S1 S2 B =
        λ u. when_on sys finishes (recovery_retry sys (o.before_retry u)) in
      when_on-lem (Recovers o t) retries (recovery_probe sys t).0 (recovery_probe sys t).1
        (λ on.
          when_on-lem (Recovers o t) finishes (retried o t) (recovery_retry sys before).1
            (λ on_2.
              checks (may_recover sys (checked o t))
                (when_on sys ends (recovery_flush sys (awaited o t))) down_2
                (when_on-lem (Recovers o t) ends (recovery_flush sys (awaited o t)).0
                  (recovery_flush sys (awaited o t)).1
                  (λ on_3. elim (recovery_enter-Enters (checked o t).health_epoch (at_end o t)) [
                    | inl same ↦ inl ((ap (λ u. u.degraded) same) ∙ down_4)
                    | inr enters ↦
                        let (opened, clean, l1) = flushed on_3 in
                        inr (probed on, fine on_2, opened, clean, l1, enters)
                  ])
                  (λ off. inl (flush_down ∙ down_3))))
            (λ off. inl (retry_down ∙ down_1)))
        (λ off. inl (probe_down ∙ down))
    where
      checks :
          (due : Bool) (u : TieredCache S1 S2 B)
          → (checked o t).degraded ≡ true
          → Recovers o t u
          → Recovers o t (if due then u else checked o t)
      checks true u still rest = rest
      checks false u still rest = inl still
