-- ===== src/Tiered/Correct/Batch.antt =====
-- The health of `TieredCache` under `SetMany` (internal/cache/tiered/mutations.go).
use frankenphp_tiered_cache.Base.{
  ℕ, ◌+◌, ◌-◌, refl, ◌∙◌, Bool, true, false, Option, none, some, List, [], ◌∷◌, length, ltb,
}
use frankenphp_tiered_cache.Base.Dict.{Key}
use frankenphp_tiered_cache.Contract.{Bytes, Error, join}
use frankenphp_tiered_cache.Observability.Observation.{Operation, batch}
use frankenphp_tiered_cache.Tiered.State.{
  System, TieredCache, observe, bump_version, now, read_clock, refusal, observe_l2,
}
use frankenphp_tiered_cache.Tiered.Health.{reconcile}
use frankenphp_tiered_cache.Tiered.Publish.{publish_key_invalidation, mark_pending_invalidation}
use frankenphp_tiered_cache.Tiered.Commit.{stored_error}
use frankenphp_tiered_cache.Tiered.SetMany.{
  set_all_l1, forget_all_l1, write_all_l1, mark_all, published_or_marked, publish_all,
  set_many_committed, set_many_answered, set_many_locked,
}
use frankenphp_tiered_cache.Tiered.Correct.Keeps.{
  IsSound, Keeps, Keeps-trans, Keeps-refl, Keeps-if, reconcile-Keeps,
}
use frankenphp_tiered_cache.Tiered.Correct.Publish.{
  Marks, mark_pending_invalidation-Marks, marked-Keeps, publish_key-Keeps,
}
use frankenphp_tiered_cache.Tiered.Correct.Mutate.{answered}
use frankenphp_tiered_cache.Tiered.Correct.Sound.{
  guarded-IsSound, l2_failed-IsSound, finish_marked-IsSound,
}

module _ {S1 S2 B : Type 0} (sys : System S1 S2 B) where
  set_all_l1-Keeps :
      (remaining : ℕ) (values : List (Key × Bytes)) (err : Option Error) (t : TieredCache S1 S2 B)
      → Keeps t (set_all_l1 sys remaining values err t).0
  unfolding set_all_l1
  set_all_l1-Keeps remaining [] err t = Keeps-refl t
  set_all_l1-Keeps remaining ((key, value) ∷ values) err t =
      let (s, r) = sys.l1.set key value remaining t.l1 in
      set_all_l1-Keeps remaining values (join err (stored_error r)) (record t { l1 = s })

  forget_all_l1-Keeps :
      (values : List (Key × Bytes)) (err : Option Error) (t : TieredCache S1 S2 B)
      → Keeps t (forget_all_l1 sys values err t).0
  unfolding forget_all_l1
  forget_all_l1-Keeps [] err t = Keeps-refl t
  forget_all_l1-Keeps ((key, value) ∷ values) err t =
      let (s, r) = sys.l1.forget key t.l1 in
      forget_all_l1-Keeps values (join err r.error) (record t { l1 = s })

  write_all_l1-Keeps :
      (values : List (Key × Bytes)) (deadline : ℕ) (t : TieredCache S1 S2 B)
      → Keeps t (write_all_l1 sys values deadline t).0
  unfolding write_all_l1
  write_all_l1-Keeps values deadline t =
      let u = read_clock sys t in
      Keeps-if (ltb 0 (deadline - now sys t)) t _ _
        (set_all_l1-Keeps (deadline - now sys t) values none u) (forget_all_l1-Keeps values none u)

  mark_all-Marks :
      (values : List (Key × Bytes)) (t u : TieredCache S1 S2 B)
      → Marks sys t u
      → Marks sys t (mark_all sys values u)
  unfolding mark_all
  mark_all-Marks [] t u marks = marks
  mark_all-Marks ((key, value) ∷ values) t u (l2, version, shut, queue) =
      let (l2', version', shut', queue') = mark_pending_invalidation-Marks sys key u in
      mark_all-Marks values t (mark_pending_invalidation sys key u)
        (l2' ∙ l2, version' ∙ version, shut' ∙ shut, λ q. queue' (queue q))

  published_or_marked-Keeps :
      (whole : List (Key × Bytes)) (err : Option Error) (t : TieredCache S1 S2 B)
      (rest : TieredCache S1 S2 B × Option Error)
      → Keeps t rest.0
      → Keeps t (published_or_marked sys whole err t rest).0
  published_or_marked-Keeps whole none t rest keeps = keeps
  published_or_marked-Keeps whole (some e) t rest keeps =
      marked-Keeps sys t (mark_all sys whole t) e
        (mark_all-Marks whole t t (refl, refl, refl, λ q. q))

  publish_all-Keeps :
      (whole values : List (Key × Bytes)) (t : TieredCache S1 S2 B)
      → Keeps t (publish_all sys whole values t).0
  unfolding publish_all
  publish_all-Keeps whole [] t = Keeps-refl t
  publish_all-Keeps whole ((key, value) ∷ values) t =
      let sent = publish_key_invalidation sys key t in
      Keeps-trans t sent.0
        (published_or_marked sys whole sent.1 sent.0 (publish_all sys whole values sent.0)).0
        (publish_key-Keeps sys key t)
        (published_or_marked-Keeps whole sent.1 sent.0 (publish_all sys whole values sent.0)
          (publish_all-Keeps whole values sent.0))

  set_many_answered-IsSound :
      (values : List (Key × Bytes)) (deadline : ℕ) (err : Option Error) (stored : Bool)
      (t : TieredCache S1 S2 B)
      → IsSound t
      → IsSound (set_many_answered sys values deadline err stored t).0
  unfolding set_many_committed
  set_many_answered-IsSound values deadline (some e) stored t sound =
      l2_failed-IsSound sys false e false t sound
  set_many_answered-IsSound values deadline none false t sound = sound
  set_many_answered-IsSound values deadline none true t sound =
      let w = write_all_l1 sys values deadline (bump_version t) in
      let v = reconcile sys w.1 w.0 in
      let x = publish_all sys values values v.0 in
      finish_marked-IsSound sys Operation.set_many true v.1 x.1 x.0 (
        (publish_all-Keeps values values v.0).3 (
          (reconcile-Keeps sys w.1 w.0).3
            ((write_all_l1-Keeps values deadline (bump_version t)).3 sound)))

  pub set_many_locked-IsSound :
      (values : List (Key × Bytes)) (ttl : ℕ) (t : TieredCache S1 S2 B)
      → IsSound t
      → IsSound (set_many_locked sys values ttl t).0
  unfolding set_many_locked observe_l2
  set_many_locked-IsSound values ttl t sound =
      let call = sys.l2.set_many values ttl t.l2 in
      let u =
        observe (batch Operation.set_many (length values))
          (answered sys Operation.set_many call t) in
      guarded-IsSound sys false (refusal sys t) t _ sound
        (set_many_answered-IsSound values (now sys t + ttl) call.1.error call.1.result u sound)
