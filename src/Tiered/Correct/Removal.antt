-- ===== src/Tiered/Correct/Removal.antt =====
-- The health of `TieredCache` under `Forget`, `Touch` and `Flush`
-- (internal/cache/tiered/mutations.go).
use frankenphp_tiered_cache.Base.{ℕ, ◌+◌, ◌-◌, Bool, true, false, Option, none, some, ltb}
use frankenphp_tiered_cache.Base.Dict.{Key}
use frankenphp_tiered_cache.Contract.{Error}
use frankenphp_tiered_cache.Observability.Observation.{Operation}
use frankenphp_tiered_cache.Tiered.State.{
  System, TieredCache, bump_version, now, refusal, observe_l2,
}
use frankenphp_tiered_cache.Tiered.Health.{reconcile, flush_l1}
use frankenphp_tiered_cache.Tiered.Publish.{publish_or_mark, publish_flush_or_mark}
use frankenphp_tiered_cache.Tiered.Commit.{forget_l1, post_commit_cause}
use frankenphp_tiered_cache.Tiered.Remove.{
  forget_committed, forget_answered, forget, touch_l1, touch_committed, touch_answered,
  touch_locked, degrade_on, flush_committed, flush_answered, flush,
}
use frankenphp_tiered_cache.Tiered.Correct.Keeps.{
  IsSound, Keeps, Keeps-refl, Keeps-if, degrade_locked-Keeps, forget_l1-Keeps, flush_l1-Keeps,
}
use frankenphp_tiered_cache.Tiered.Correct.Publish.{publish_flush_or_mark-Keeps}
use frankenphp_tiered_cache.Tiered.Correct.Mutate.{answered}
use frankenphp_tiered_cache.Tiered.Correct.Sound.{
  guarded-IsSound, l2_failed-IsSound, tail-IsSound, observed-IsSound,
}

module _ {S1 S2 B : Type 0} (sys : System S1 S2 B) where
  forget_answered-IsSound :
      (key : Key) (err : Option Error) (removed : Bool) (t : TieredCache S1 S2 B)
      → IsSound t
      → IsSound (forget_answered sys key err removed t).0
  unfolding forget_committed
  forget_answered-IsSound key (some e) removed t sound = l2_failed-IsSound sys false e false t sound
  forget_answered-IsSound key none removed t sound =
      let w = forget_l1 sys key (bump_version t) in
      let v = reconcile sys w.1.error w.0 in
      let x = publish_or_mark sys key v.0 in
      observed-IsSound sys Operation.forget (post_commit_cause sys v.1 x.1 x.0) x.0 (
        tail-IsSound sys key w.1.error (bump_version t) w.0
          (forget_l1-Keeps sys key (bump_version t)) sound)

  pub forget-IsSound :
      (key : Key) (t : TieredCache S1 S2 B) → IsSound t → IsSound (forget sys key t).0
  unfolding forget observe_l2
  forget-IsSound key t sound =
      let call = sys.l2.forget key t.l2 in
      guarded-IsSound sys false (refusal sys t) t _ sound (
        forget_answered-IsSound key call.1.error call.1.result
          (answered sys Operation.forget call t) sound)

  pub touch_l1-Keeps :
      (key : Key) (deadline : ℕ) (touched : Bool) (t : TieredCache S1 S2 B)
      → Keeps t (touch_l1 sys key deadline touched t).0
  unfolding touch_l1 forget_l1
  touch_l1-Keeps key deadline false t = Keeps-refl t
  touch_l1-Keeps key deadline true t =
      Keeps-if (ltb 0 (deadline - now sys t)) t _ _ (Keeps-refl t) (Keeps-refl t)

  touch_answered-IsSound :
      (key : Key) (deadline : ℕ) (err : Option Error) (touched : Bool) (t : TieredCache S1 S2 B)
      → IsSound t
      → IsSound (touch_answered sys key deadline err touched t).0
  unfolding touch_committed
  touch_answered-IsSound key deadline (some e) touched t sound =
      l2_failed-IsSound sys false e true t sound
  touch_answered-IsSound key deadline none touched t sound =
      let w = touch_l1 sys key deadline touched (bump_version t) in
      let v = reconcile sys w.1.error w.0 in
      let x = publish_or_mark sys key v.0 in
      observed-IsSound sys Operation.touch (post_commit_cause sys v.1 x.1 x.0) x.0 (
        tail-IsSound sys key w.1.error (bump_version t) w.0
          (touch_l1-Keeps key deadline touched (bump_version t)) sound)

  pub touch_locked-IsSound :
      (key : Key) (ttl : ℕ) (t : TieredCache S1 S2 B)
      → IsSound t
      → IsSound (touch_locked sys key ttl t).0
  unfolding touch_locked observe_l2
  touch_locked-IsSound key ttl t sound =
      let call = sys.l2.touch key ttl t.l2 in
      guarded-IsSound sys false (refusal sys t) t _ sound (
        touch_answered-IsSound key (now sys t + ttl) call.1.error call.1.result
          (answered sys Operation.touch call t) sound)

  pub degrade_on-Keeps :
      (err : Option Error) (t : TieredCache S1 S2 B) → Keeps t (degrade_on sys err t)
  degrade_on-Keeps none t = Keeps-refl t
  degrade_on-Keeps (some e) t = degrade_locked-Keeps sys (some e) false t

  flush_answered-IsSound :
      (err : Option Error) (flushed : Bool) (t : TieredCache S1 S2 B)
      → IsSound t
      → IsSound (flush_answered sys err flushed t).0
  unfolding flush_committed
  flush_answered-IsSound (some e) flushed t sound = l2_failed-IsSound sys false e false t sound
  flush_answered-IsSound none flushed t sound =
      let w = flush_l1 sys (bump_version t) in
      let v = degrade_on sys w.1.error w.0 in
      let x = publish_flush_or_mark sys v in
      observed-IsSound sys Operation.flush (post_commit_cause sys w.1.error x.1 x.0) x.0 (
        (publish_flush_or_mark-Keeps sys v).3
          ((degrade_on-Keeps w.1.error w.0).3 ((flush_l1-Keeps sys (bump_version t)).3 sound)))

  pub flush-IsSound : (t : TieredCache S1 S2 B) → IsSound t → IsSound (flush sys t).0
  unfolding flush observe_l2
  flush-IsSound t sound =
      let call = sys.l2.flush t.l2 in
      guarded-IsSound sys false (refusal sys t) t _ sound (
        flush_answered-IsSound call.1.error call.1.result (answered sys Operation.flush call t)
          sound)
