-- ===== src/Tiered/Correct/Sound.antt =====
-- The health of `TieredCache` under `Set`, `Forever`, `Add` and the counters
-- (internal/cache/tiered/mutations.go).
use frankenphp_tiered_cache.Base.{ℕ, ◌+◌, Bool, true, false, Option, none, some, if◌then◌else◌}
use frankenphp_tiered_cache.Base.Int.{ℤ, pos}
use frankenphp_tiered_cache.Base.Dict.{Key}
use frankenphp_tiered_cache.Contract.{Bytes, Error, Reply, join, is_error, redis_command}
use frankenphp_tiered_cache.Observability.Observation.{Operation}
use frankenphp_tiered_cache.Tiered.State.{
  System, TieredCache, bump_version, now, refusal, observe_l2, unavailable_error,
}
use frankenphp_tiered_cache.Tiered.Health.{reconcile}
use frankenphp_tiered_cache.Tiered.Publish.{publish_or_mark}
use frankenphp_tiered_cache.Tiered.Commit.{
  guarded, l2_failed, write_l1, forget_l1, observe_post_commit, post_commit_cause, finish_marked,
}
use frankenphp_tiered_cache.Tiered.Set.{
  set_operation, set_l2, deadline_of, finish_set, set_committed, set_answered, set_locked,
  add_committed, add_answered, add_locked,
}
use frankenphp_tiered_cache.Tiered.Remove.{flush}
use frankenphp_tiered_cache.Tiered.Count.{
  counter_operation, count_l2, finish_counter, counter_committed, counter_answered, change_counter,
}
use frankenphp_tiered_cache.Tiered.Correct.Keeps.{
  IsSound, Keeps, degrade_locked-Keeps, write_l1-Keeps, forget_l1-Keeps,
}
use frankenphp_tiered_cache.Tiered.Correct.Settle.{settles}
use frankenphp_tiered_cache.Tiered.Correct.Mutate.{answered}

module _ {S1 S2 B : Type 0} (sys : System S1 S2 B) where
  pub guarded-IsSound :
      {A : Type 0} (nothing : A) (refused : Option Error) (t : TieredCache S1 S2 B)
      (rest : TieredCache S1 S2 B × Reply A)
      → IsSound t
      → IsSound rest.0
      → IsSound (guarded sys nothing refused t rest).0
  guarded-IsSound nothing none t rest before after = after
  guarded-IsSound nothing (some e) t rest before after = before

  pub l2_failed-IsSound :
      {A : Type 0} (nothing : A) (e : Error) (flush : Bool) (t : TieredCache S1 S2 B)
      → IsSound t
      → IsSound (l2_failed sys nothing e flush t).0
  l2_failed-IsSound nothing e flush t sound = (degrade_locked-Keeps sys (some e) flush t).3 sound

  -- After L1 was changed the tail keeps soundness.
  pub tail-IsSound :
      (key : Key) (err : Option Error) (t u : TieredCache S1 S2 B)
      → Keeps t u
      → IsSound t
      → IsSound (publish_or_mark sys key (reconcile sys err u).0).0
  tail-IsSound key err t u keeps sound = (settles sys key err u).0.3 (keeps.3 sound)

  pub observed-IsSound :
      (op : Operation) (cause : Option Error) (t : TieredCache S1 S2 B)
      → IsSound t
      → IsSound (observe_post_commit sys op cause t)
  observed-IsSound op none t sound = sound
  observed-IsSound op (some e) t sound = sound

  finish_set-IsSound :
      (op : Operation) (l1_err publish_err : Option Error) (t : TieredCache S1 S2 B)
      → IsSound t
      → IsSound (finish_set sys op l1_err publish_err t).0
  finish_set-IsSound op none none t sound = sound
  finish_set-IsSound op none (some e) t sound =
      observed-IsSound op (join none (unavailable_error sys t)) t sound
  finish_set-IsSound op (some f) publish_err t sound =
      observed-IsSound op (join (some f) (unavailable_error sys t)) t sound

  pub finish_marked-IsSound :
      {A : Type 0} (op : Operation) (result : A) (l1_err publish_err : Option Error)
      (t : TieredCache S1 S2 B)
      → IsSound t
      → IsSound (finish_marked sys op result l1_err publish_err t).0
  finish_marked-IsSound op result none none t sound = sound
  finish_marked-IsSound op result none (some e) t sound =
      observed-IsSound op (post_commit_cause sys none (some e) t) t sound
  finish_marked-IsSound op result (some f) publish_err t sound =
      observed-IsSound op (post_commit_cause sys (some f) publish_err t) t sound

  finish_counter-IsSound :
      (op : Operation) (result : ℤ) (cause : Option Error) (t : TieredCache S1 S2 B)
      → IsSound t
      → IsSound (finish_counter sys op result cause t).0
  finish_counter-IsSound op result none t sound = sound
  finish_counter-IsSound op result (some e) t sound = sound

  set_answered-IsSound :
      (key : Key) (value : Bytes) (deadline : Option ℕ) (op : Operation) (err : Option Error)
      (stored : Bool) (t : TieredCache S1 S2 B)
      → IsSound t
      → IsSound (set_answered sys key value deadline op err stored t).0
  unfolding set_committed
  set_answered-IsSound key value deadline op (some e) stored t sound =
      l2_failed-IsSound false e false t sound
  set_answered-IsSound key value deadline op none false t sound = sound
  set_answered-IsSound key value deadline op none true t sound =
      let w = write_l1 sys key value deadline (bump_version t) in
      let v = reconcile sys w.1 w.0 in
      let x = publish_or_mark sys key v.0 in
      finish_set-IsSound op v.1 x.1 x.0 (
        tail-IsSound key w.1 (bump_version t) w.0
          (write_l1-Keeps sys key value deadline (bump_version t)) sound)

  pub set_locked-IsSound :
      (key : Key) (value : Bytes) (ttl : Option ℕ) (t : TieredCache S1 S2 B)
      → IsSound t
      → IsSound (set_locked sys key value ttl t).0
  unfolding set_locked observe_l2
  set_locked-IsSound key value ttl t sound =
      let call = set_l2 sys key value ttl t.l2 in
      let u = answered sys (set_operation sys ttl) call t in
      guarded-IsSound false (refusal sys t) t _ sound (
        set_answered-IsSound key value (deadline_of sys (now sys t) ttl) (set_operation sys ttl)
          call.1.error call.1.result u sound)

  add_answered-IsSound :
      (key : Key) (value : Bytes) (deadline : ℕ) (err : Option Error) (added : Bool)
      (t : TieredCache S1 S2 B)
      → IsSound t
      → IsSound (add_answered sys key value deadline err added t).0
  unfolding add_committed
  add_answered-IsSound key value deadline (some e) added t sound =
      l2_failed-IsSound false e false t sound
  add_answered-IsSound key value deadline none false t sound = sound
  add_answered-IsSound key value deadline none true t sound =
      let w = write_l1 sys key value (some deadline) (bump_version t) in
      let v = reconcile sys w.1 w.0 in
      let x = publish_or_mark sys key v.0 in
      finish_marked-IsSound Operation.add true v.1 x.1 x.0 (
        tail-IsSound key w.1 (bump_version t) w.0
          (write_l1-Keeps sys key value (some deadline) (bump_version t)) sound)

  pub add_locked-IsSound :
      (key : Key) (value : Bytes) (ttl : ℕ) (t : TieredCache S1 S2 B)
      → IsSound t
      → IsSound (add_locked sys key value ttl t).0
  unfolding add_locked observe_l2
  add_locked-IsSound key value ttl t sound =
      let call = sys.l2.add key value ttl t.l2 in
      guarded-IsSound false (refusal sys t) t _ sound (
        add_answered-IsSound key value (now sys t + ttl) call.1.error call.1.result
          (answered sys Operation.add call t) sound)

  counter_answered-IsSound :
      (key : Key) (op : Operation) (err : Option Error) (result : ℤ) (t : TieredCache S1 S2 B)
      → IsSound t
      → IsSound (counter_answered sys key op err result t).0
  unfolding counter_committed
  counter_answered-IsSound key op (some e) result t sound = go (is_error e redis_command)
    where
      go :
          (b : Bool)
          → IsSound
              (if b
                then (t, record { result = pos 0; error = some e })
                else l2_failed sys (pos 0) e false t).0
      go true = sound
      go false = l2_failed-IsSound (pos 0) e false t sound
  counter_answered-IsSound key op none result t sound =
      let w = forget_l1 sys key (bump_version t) in
      let v = reconcile sys w.1.error w.0 in
      let x = publish_or_mark sys key v.0 in
      finish_counter-IsSound op result (post_commit_cause sys v.1 x.1 x.0) x.0 (
        tail-IsSound key w.1.error (bump_version t) w.0 (forget_l1-Keeps sys key (bump_version t))
          sound)

  pub change_counter-IsSound :
      (key : Key) (value : ℤ) (decrement : Bool) (t : TieredCache S1 S2 B)
      → IsSound t
      → IsSound (change_counter sys key value decrement t).0
  unfolding change_counter observe_l2
  change_counter-IsSound key value decrement t sound =
      let call = count_l2 sys decrement key value t.l2 in
      let op = counter_operation sys decrement in
      guarded-IsSound (pos 0) (refusal sys t) t _ sound
        (counter_answered-IsSound key op call.1.error call.1.result (answered sys op call t) sound)
