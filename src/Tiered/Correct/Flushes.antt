-- ===== src/Tiered/Correct/Flushes.antt =====
-- The outcomes of `Flush` of `TieredCache` (internal/cache/tiered/mutations.go).
use frankenphp_tiered_cache.Base.{
  ◌≡◌, refl, ◌∙◌, ◌⊎◌, inl, inr, Bool, true, false, Option, none, some, arith, if◌then◌else◌,
}
use frankenphp_tiered_cache.Base.Word.{add64}
use frankenphp_tiered_cache.Contract.{Error, Reply}
use frankenphp_tiered_cache.Observability.Observation.{Operation, flush_invalidation}
use frankenphp_tiered_cache.Tiered.State.{System, TieredCache, bump_version, refusal, observe_l2}
use frankenphp_tiered_cache.Tiered.Health.{flush_l1}
use frankenphp_tiered_cache.Tiered.Publish.{
  flush_event, publish_event, publish_flush_invalidation, mark_pending_flush, or_mark_flush,
  publish_flush_or_mark,
}
use frankenphp_tiered_cache.Tiered.Commit.{observe_post_commit, post_commit_cause}
use frankenphp_tiered_cache.Tiered.Remove.{degrade_on, flush_committed, flush_answered, flush}
use frankenphp_tiered_cache.Tiered.Correct.Keeps.{Keeps-trans, flush_l1-Keeps, degrade_locked-Falls}
use frankenphp_tiered_cache.Tiered.Correct.Publish.{publish_flush_or_mark-Keeps}
use frankenphp_tiered_cache.Tiered.Correct.Removal.{degrade_on-Keeps}
use frankenphp_tiered_cache.Tiered.Correct.Mutate.{
  Outcome, answered, l2_failed-Fails, guarded-Outcome,
}

module _ {S1 S2 B : Type 0} (sys : System S1 S2 B) where
  -- With the bus in state `b`: nobody is to be told, or the flush was published, or the cache is
  -- degraded and the flush waits.
  abbrev pub FlushTold : B → TieredCache S1 S2 B → Type 0
  FlushTold b u =
      (sys.has_bus ≡ false)
      ⊎ ((sys.bus.publish (flush_event sys) b).1 ≡ none)
      ⊎ ((u.degraded ≡ true) × (u.pending_flush ≡ true))

  -- After the flush of L1 in state `t`: it has succeeded and stands, or the cache is degraded.
  abbrev pub Emptied : TieredCache S1 S2 B → TieredCache S1 S2 B → Type 0
  Emptied t u =
      (u.degraded ≡ true) ⊎ (((flush_l1 sys t).1.error ≡ none) × (u.l1 ≡ (flush_l1 sys t).0.l1))

  flagged_if :
      (b : Bool) (u v : TieredCache S1 S2 B)
      → b ≡ true
      → u.pending_flush ≡ true
      → (if b then u else v).pending_flush ≡ true
  flagged_if true u v on flagged = flagged
  flagged_if false u v on flagged = ground (arith, on)

  mark_pending_flush-waits :
      (t : TieredCache S1 S2 B)
      → sys.has_bus ≡ true
      → (mark_pending_flush sys t).pending_flush ≡ true
  unfolding mark_pending_flush
  mark_pending_flush-waits t on = flagged_if sys.has_bus _ t on refl

  or_mark_flush-Told :
      (t : TieredCache S1 S2 B) (err : Option Error)
      → sys.has_bus ≡ true
      → let u = (or_mark_flush sys (t, err)).0 in
        (err ≡ none) ⊎ ((u.degraded ≡ true) × (u.pending_flush ≡ true))
  or_mark_flush-Told t none on = inl refl
  or_mark_flush-Told t (some e) on =
      let falls = degrade_locked-Falls sys (some e) true (mark_pending_flush sys t) in
      inr (falls.3, falls.5 ∙ mark_pending_flush-waits t on)

  sent_flush-Told :
      (t : TieredCache S1 S2 B) (on : Bool)
      → sys.has_bus ≡ on
      → FlushTold t.bus
          (or_mark_flush sys
            (if on then publish_event sys (flush_event sys) flush_invalidation t else (t, none))).0
  sent_flush-Told t true on =
      let sent = publish_event sys (flush_event sys) flush_invalidation t in
      inr (or_mark_flush-Told sent.0 sent.1 on)
  sent_flush-Told t false off = inl off

  publish_flush_or_mark-Told :
      (t : TieredCache S1 S2 B) → FlushTold t.bus (publish_flush_or_mark sys t).0
  unfolding publish_flush_or_mark publish_flush_invalidation
  publish_flush_or_mark-Told t = sent_flush-Told t sys.has_bus refl

  or_mark_flush-l1 :
      (t : TieredCache S1 S2 B) (err : Option Error)
      → let u = (or_mark_flush sys (t, err)).0 in (u.degraded ≡ true) ⊎ (u.l1 ≡ t.l1)
  or_mark_flush-l1 t none = inr refl
  or_mark_flush-l1 t (some e) =
      inl (degrade_locked-Falls sys (some e) true (mark_pending_flush sys t)).3

  sent_flush-l1 :
      (t : TieredCache S1 S2 B) (on : Bool)
      → (if on then publish_event sys (flush_event sys) flush_invalidation t else (t, none)).0.l1
        ≡ t.l1
  sent_flush-l1 t true = refl
  sent_flush-l1 t false = refl

  publish_flush_or_mark-l1 :
      (t : TieredCache S1 S2 B)
      → let u = (publish_flush_or_mark sys t).0 in (u.degraded ≡ true) ⊎ (u.l1 ≡ t.l1)
  unfolding publish_flush_or_mark publish_flush_invalidation
  publish_flush_or_mark-l1 t =
      let sent =
        if sys.has_bus
        then publish_event sys (flush_event sys) flush_invalidation t
        else (t, none) in
      elim (or_mark_flush-l1 sent.0 sent.1) [
        | inl down ↦ inl down
        | inr same ↦ inr (same ∙ sent_flush-l1 t sys.has_bus)
      ]

  -- The flush of L1 stands or the cache falls; the bus waits for its event either way.
  degrade_on-Emptied :
      (t u : TieredCache S1 S2 B) (err : Option Error)
      → (flush_l1 sys t).1.error ≡ err
      → u.l1 ≡ (flush_l1 sys t).0.l1
      → Emptied t (degrade_on sys err u) × ((degrade_on sys err u).bus ≡ u.bus)
  degrade_on-Emptied t u none answer same = (inr (answer, same), refl)
  degrade_on-Emptied t u (some e) answer same =
      let (_, _, _, down, _, _, bus) = degrade_locked-Falls sys (some e) false u in (inl down, bus)

  Emptied-publish :
      (t v : TieredCache S1 S2 B) → Emptied t v → Emptied t (publish_flush_or_mark sys v).0
  Emptied-publish t v (inl down) = inl ((publish_flush_or_mark-Keeps sys v).4 down)
  Emptied-publish t v (inr (fine, same)) = elim (publish_flush_or_mark-l1 v) [
    | inl down ↦ inl down
    | inr kept ↦ inr (fine, kept ∙ same)
  ]

  -- Redis was flushed in state `t`: the version is the next one, L1 is empty or the cache degraded, and
  -- the bus in state `b` was told or will be.
  abbrev pub Clears :
      S2 → B → TieredCache S1 S2 B → TieredCache S1 S2 B → TieredCache S1 S2 B → Type 0
  Clears s b t u v =
      (v.l2 ≡ s) × (v.mutation_version ≡ add64 t.mutation_version 1) × FlushTold b v × Emptied u v

  -- The outcomes of `Flush`, by what Redis answers.
  abbrev pub FlushOutcome : TieredCache S1 S2 B → TieredCache S1 S2 B × Reply Bool → Type 0
  FlushOutcome t p =
      let call = sys.l2.flush t.l2 in
      let u = bump_version (answered sys Operation.flush call t) in
      Outcome sys false call.0 (refusal sys t) call.1.error t (λ q. Clears call.0 t.bus t u q.0) p

  observed-Clears :
      (op : Operation) (cause : Option Error) (s : S2) (b : B) (t u v : TieredCache S1 S2 B)
      → Clears s b t u v
      → Clears s b t u (observe_post_commit sys op cause v)
  observed-Clears op none s b t u v h = h
  observed-Clears op (some e) s b t u v h = h

  FlushTold-bus : (b c : B) (u : TieredCache S1 S2 B) → b ≡ c → FlushTold b u → FlushTold c u
  FlushTold-bus b c u same told = rw⁻¹ same told

  flushed_bus : (t : TieredCache S1 S2 B) → (flush_l1 sys t).0.bus ≡ t.bus
  unfolding flush_l1
  flushed_bus t = refl

  flush_answered-Outcome :
      (err : Option Error) (flushed : Bool) (t u : TieredCache S1 S2 B)
      → u.mutation_version ≡ t.mutation_version
      → u.bus ≡ t.bus
      → Outcome sys false u.l2 none err t
          (λ q. Clears u.l2 t.bus t (bump_version u) q.0)
          (flush_answered sys err flushed u)
  unfolding flush_committed
  flush_answered-Outcome (some e) flushed t u version same =
      let (down, l2, kept, nothing, marked) = l2_failed-Fails sys false e false u in
      (down, l2, kept ∙ version, nothing, marked)
  flush_answered-Outcome none flushed t u version same =
      let b = bump_version u in
      let w = flush_l1 sys b in
      let v = degrade_on sys w.1.error w.0 in
      let x = publish_flush_or_mark sys v in
      let (emptied, bus) = degrade_on-Emptied b w.0 w.1.error refl refl in
      let keeps =
        Keeps-trans b v x.0
          (Keeps-trans b w.0 v (flush_l1-Keeps sys b) (degrade_on-Keeps sys w.1.error w.0))
          (publish_flush_or_mark-Keeps sys v) in
      observed-Clears Operation.flush (post_commit_cause sys w.1.error x.1 x.0) u.l2 t.bus t b x.0 (
        keeps.0,
        keeps.1 ∙ (rw version refl),
        FlushTold-bus v.bus t.bus x.0 (bus ∙ flushed_bus b ∙ same) (publish_flush_or_mark-Told v),
        Emptied-publish b v emptied,
      )

  -- `Flush`: a closed or unavailable cache answers that error and stays as it is; if Redis fails, the
  -- answer is false with an error that is `ErrL2Unavailable`, the cache is degraded, and the version
  -- stays; otherwise the version is the next one, Redis stays as that call left it, L1 has been flushed
  -- without an error or the cache is degraded, and the other instances are told or the cache is
  -- degraded with the flush waiting for a retry.
  pub flush-Outcome : (t : TieredCache S1 S2 B) → FlushOutcome t (flush sys t)
  unfolding flush observe_l2
  flush-Outcome t =
      let call = sys.l2.flush t.l2 in
      guarded-Outcome sys false call.0 call.1.error (refusal sys t) t _ _ (
        flush_answered-Outcome call.1.error call.1.result t (answered sys Operation.flush call t)
          refl refl)
