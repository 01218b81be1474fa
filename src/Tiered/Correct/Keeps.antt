-- ===== src/Tiered/Correct/Keeps.antt =====
-- What the steps of `TieredCache` after its call of L2 leave as it was (internal/cache/tiered/
-- health.go, invalidation.go and mutations.go), and the invariant of the cache's health.
use frankenphp_tiered_cache.Base.{
  ℕ, ◌-◌, ◌≡◌, refl, ◌∙◌, Bool, true, false, Option, none, some, [], arith, ltb, if◌then◌else◌,
}
use frankenphp_tiered_cache.Base.Dict.{Key, Distinct}
use frankenphp_tiered_cache.Contract.{Bytes, Error, joined}
use frankenphp_tiered_cache.Observability.Observation.{
  l1_flush_fallback, fallback_failure, l1_mutation_error,
}
use frankenphp_tiered_cache.Tiered.State.{System, TieredCache, now, observe}
use frankenphp_tiered_cache.Tiered.Health.{
  transition_to_degraded, flush_l1, flush_l1_locked, degrade_locked, degrade_and_flush, reconciled,
  reconcile,
}
use frankenphp_tiered_cache.Tiered.Commit.{write_l1, forget_l1}

module _ {S1 S2 B : Type 0} where
  -- No key waits twice, and none beside a pending flush.
  abbrev pub IsQueue : TieredCache S1 S2 B → Type 0
  IsQueue t =
      Distinct t.pending_invalidations × (t.pending_flush ≡ true → t.pending_invalidations ≡ [])

  -- A healthy cache has no invalidation that waits and no cause.
  abbrev pub IsSound : TieredCache S1 S2 B → Type 0
  IsSound t =
      (t.degraded ≡ false
        → (t.pending_invalidations ≡ []) × (t.pending_flush ≡ false) × (t.state_err ≡ none))
      × IsQueue t

  -- The health of a cache between two states: soundness goes on.
  abbrev pub Safe : TieredCache S1 S2 B → TieredCache S1 S2 B → Type 0
  Safe t u = IsSound t → IsSound u

  -- L2, the version and the closed flag are those of `t`; soundness and degradation last.
  abbrev pub Keeps : TieredCache S1 S2 B → TieredCache S1 S2 B → Type 0
  Keeps t u =
      (u.l2 ≡ t.l2)
      × (u.mutation_version ≡ t.mutation_version)
      × (u.is_closed ≡ t.is_closed)
      × (IsSound t → IsSound u)
      × (t.degraded ≡ true → u.degraded ≡ true)

  pub Keeps-refl : (t : TieredCache S1 S2 B) → Keeps t t
  Keeps-refl t = (refl, refl, refl, (λ s. s), λ d. d)

  pub Keeps-trans : (t u v : TieredCache S1 S2 B) → Keeps t u → Keeps u v → Keeps t v
  Keeps-trans t u v (l2, version, shut, sound, down) (l2', version', shut', sound', down') =
      (l2' ∙ l2, version' ∙ version, shut' ∙ shut, (λ s. sound' (sound s)), λ d. down' (down d))

  pub Keeps-if :
      {A : Type 0} (b : Bool) (t : TieredCache S1 S2 B) (p q : TieredCache S1 S2 B × A)
      → Keeps t p.0
      → Keeps t q.0
      → Keeps t (if b then p else q).0
  Keeps-if true t p q left right = left
  Keeps-if false t p q left right = right

  pub degraded-IsSound : (t : TieredCache S1 S2 B) → t.degraded ≡ true → IsQueue t → IsSound t
  degraded-IsSound t down keys = ((λ up. ground (arith, down, up)), keys)

  -- A degraded cache, with the keys of `t`.
  abbrev pub Falls : TieredCache S1 S2 B → TieredCache S1 S2 B → Type 0
  Falls t u =
      (u.l2 ≡ t.l2)
      × (u.mutation_version ≡ t.mutation_version)
      × (u.is_closed ≡ t.is_closed)
      × (u.degraded ≡ true)
      × (u.pending_invalidations ≡ t.pending_invalidations)
      × (u.pending_flush ≡ t.pending_flush)
      × (u.bus ≡ t.bus)

  pub Falls-Keeps :
      (t u v : TieredCache S1 S2 B)
      → u.l2 ≡ t.l2
      → u.mutation_version ≡ t.mutation_version
      → u.is_closed ≡ t.is_closed
      → (IsQueue t → IsQueue u)
      → Falls u v
      → Keeps t v
  Falls-Keeps t u v l2 version shut keys (l2', version', shut', down, same, flushes, _) = (
    l2' ∙ l2,
    version' ∙ version,
    shut' ∙ shut,
    (λ s.
        let (distinct, covered) = keys s.1 in
        degraded-IsSound v down (rw same distinct, λ f. same ∙ covered (rw⁻¹ flushes f))),
    λ d. down,
  )

  Falls-if :
      (b : Bool) (t u v : TieredCache S1 S2 B)
      → (b ≡ true → Falls t u)
      → (b ≡ false → Falls t v)
      → Falls t (if b then u else v)
  Falls-if true t u v left right = left refl
  Falls-if false t u v left right = right refl

  pub transition_to_degraded-Falls :
      (cause : Option Error) (t : TieredCache S1 S2 B) → Falls t (transition_to_degraded cause t)
  unfolding transition_to_degraded
  transition_to_degraded-Falls cause t =
      Falls-if t.degraded t t _ (λ e. (refl, refl, refl, e, refl, refl, refl))
        λ e. (refl, refl, refl, refl, refl, refl, refl)

  module _ (sys : System S1 S2 B) where
    pub flush_l1-Keeps : (t : TieredCache S1 S2 B) → Keeps t (flush_l1 sys t).0
    unfolding flush_l1
    flush_l1-Keeps t = Keeps-refl t

    pub flush_l1_locked-Falls :
        (t u : TieredCache S1 S2 B) → Falls t u → Falls t (flush_l1_locked sys u)
    unfolding flush_l1_locked flush_l1
    flush_l1_locked-Falls t u falls = Falls-if u.is_closed t u _ (λ e. falls) λ e. falls

    pub degrade_locked-Falls :
        (cause : Option Error) (flush : Bool) (t : TieredCache S1 S2 B)
        → Falls t (degrade_locked sys cause flush t)
    unfolding degrade_locked
    degrade_locked-Falls cause true t =
        flush_l1_locked-Falls t (transition_to_degraded cause t)
          (transition_to_degraded-Falls cause t)
    degrade_locked-Falls cause false t = transition_to_degraded-Falls cause t

    pub degrade_locked-Keeps :
        (cause : Option Error) (flush : Bool) (t : TieredCache S1 S2 B)
        → Keeps t (degrade_locked sys cause flush t)
    degrade_locked-Keeps cause flush t =
        Falls-Keeps t t (degrade_locked sys cause flush t) refl refl refl (λ d. d)
          (degrade_locked-Falls cause flush t)

    pub degrade_and_flush-Keeps :
        (cause : Option Error) (t : TieredCache S1 S2 B) → Keeps t (degrade_and_flush sys cause t)
    unfolding degrade_and_flush
    degrade_and_flush-Keeps cause t =
        Falls-Keeps t t (flush_l1_locked sys (transition_to_degraded cause t)) refl refl refl
          (λ d. d)
          (flush_l1_locked-Falls t (transition_to_degraded cause t)
            (transition_to_degraded-Falls cause t))

    reconciled-Keeps :
        (e : Error) (t : TieredCache S1 S2 B) (f : Option Error) → Keeps t (reconciled sys e t f).0
    reconciled-Keeps e t none = Keeps-refl t
    reconciled-Keeps e t (some f) =
        degrade_locked-Keeps (some (joined e f)) false
          (observe (l1_flush_fallback fallback_failure) t)

    pub reconcile-Keeps :
        (err : Option Error) (t : TieredCache S1 S2 B) → Keeps t (reconcile sys err t).0
    unfolding reconcile
    reconcile-Keeps none t = Keeps-refl t
    reconcile-Keeps (some e) t =
        let flushed = flush_l1 sys (observe l1_mutation_error t) in
        Keeps-trans t flushed.0 (reconciled sys e flushed.0 flushed.1.error).0
          (flush_l1-Keeps (observe l1_mutation_error t))
          (reconciled-Keeps e flushed.0 flushed.1.error)

    pub write_l1-Keeps :
        (key : Key) (value : Bytes) (deadline : Option ℕ) (t : TieredCache S1 S2 B)
        → Keeps t (write_l1 sys key value deadline t).0
    unfolding write_l1
    write_l1-Keeps key value none t = Keeps-refl t
    write_l1-Keeps key value (some deadline) t =
        Keeps-if (ltb 0 (deadline - now sys t)) t _ _ (Keeps-refl t) (Keeps-refl t)

    pub forget_l1-Keeps : (key : Key) (t : TieredCache S1 S2 B) → Keeps t (forget_l1 sys key t).0
    unfolding forget_l1
    forget_l1-Keeps key t = Keeps-refl t
