-- ===== src/Tiered/Correct/Removes.antt =====
-- The outcomes of `Forget` and `Touch` of `TieredCache` (internal/cache/tiered/mutations.go).
use frankenphp_tiered_cache.Base.{ℕ, ◌+◌, ◌≡◌, refl, ◌∙◌, ◌||◌, Bool, false, Option, none, some}
use frankenphp_tiered_cache.Base.Dict.{Key}
use frankenphp_tiered_cache.Contract.{Error, Reply}
use frankenphp_tiered_cache.Observability.Observation.{Operation}
use frankenphp_tiered_cache.Tiered.State.{
  System, TieredCache, bump_version, now, refusal, observe_l2,
}
use frankenphp_tiered_cache.Tiered.Health.{reconcile}
use frankenphp_tiered_cache.Tiered.Publish.{publish_or_mark}
use frankenphp_tiered_cache.Tiered.Commit.{forget_l1, post_commit_cause}
use frankenphp_tiered_cache.Tiered.Remove.{forget_committed, forget_answered, forget, touch_l1}
use frankenphp_tiered_cache.Tiered.Correct.Keeps.{forget_l1-Keeps}
use frankenphp_tiered_cache.Tiered.Correct.Mutate.{
  Commits, Outcome, answered, l2_failed-Fails, guarded-Outcome, observed-Commits, settled_commit,
}

module _ {S1 S2 B : Type 0} (sys : System S1 S2 B) where
  -- The outcomes of `Forget`, by what Redis answers.
  abbrev pub ForgetOutcome : Key → TieredCache S1 S2 B → TieredCache S1 S2 B × Reply Bool → Type 0
  ForgetOutcome key t p =
      let call = sys.l2.forget key t.l2 in
      let w = forget_l1 sys key (bump_version (answered sys Operation.forget call t)) in
      Outcome sys false call.0 (refusal sys t) call.1.error t
        (λ q.
          (q.1.result ≡ (w.1.result || call.1.result)) × Commits sys key call.0 t w.1.error w.0 q.0)
        p

  forget_answered-Outcome :
      (key : Key) (err : Option Error) (removed : Bool) (t u : TieredCache S1 S2 B)
      → u.mutation_version ≡ t.mutation_version
      → let w = forget_l1 sys key (bump_version u) in
        Outcome sys false u.l2 none err t
          (λ q. (q.1.result ≡ (w.1.result || removed)) × Commits sys key u.l2 t w.1.error w.0 q.0)
          (forget_answered sys key err removed u)
  unfolding forget_committed
  forget_answered-Outcome key (some e) removed t u version =
      let (down, l2, kept, nothing, marked) = l2_failed-Fails sys false e false u in
      (down, l2, kept ∙ version, nothing, marked)
  forget_answered-Outcome key none removed t u version =
      let w = forget_l1 sys key (bump_version u) in
      let v = reconcile sys w.1.error w.0 in
      let x = publish_or_mark sys key v.0 in
      let keeps = forget_l1-Keeps sys key (bump_version u) in
      (
        refl,
        observed-Commits sys Operation.forget (post_commit_cause sys v.1 x.1 x.0) key u.l2 t
            w.1.error w.0 x.0
            (settled_commit sys key Operation.forget u.l2 t w.0 w.1.error keeps.0
              (keeps.1 ∙ (rw version refl))),
      )

  -- `Forget`: a closed or unavailable cache answers that error and stays as it is; if Redis fails, the
  -- answer is false with an error that is `ErrL2Unavailable`, the cache is degraded, and the version
  -- stays; otherwise the answer says whether L1 or Redis had the key, the version is the next one,
  -- Redis stays as that call left it, L1 has lost the key without an error or has been flushed without one or
  -- the cache is degraded, and the other instances are told or the cache is degraded with the key
  -- waiting for a retry.
  pub forget-Outcome :
      (key : Key) (t : TieredCache S1 S2 B) → ForgetOutcome key t (forget sys key t)
  unfolding forget observe_l2
  forget-Outcome key t =
      let call = sys.l2.forget key t.l2 in
      guarded-Outcome sys false call.0 call.1.error (refusal sys t) t _ _ (
        forget_answered-Outcome key call.1.error call.1.result t
          (answered sys Operation.forget call t) refl)

  -- The outcomes of `Touch`, by what Redis answers.
  abbrev pub TouchOutcome :
      Key → ℕ → TieredCache S1 S2 B → TieredCache S1 S2 B × Reply Bool → Type 0
  TouchOutcome key ttl t p =
      let call = sys.l2.touch key ttl t.l2 in
      let u = answered sys Operation.touch call t in
      let w = touch_l1 sys key (now sys t + ttl) call.1.result (bump_version u) in
      Outcome sys false call.0 (refusal sys t) call.1.error t
        (λ q.
          (q.1.result ≡ (call.1.result || w.1.result)) × Commits sys key call.0 t w.1.error w.0 q.0)
        p
