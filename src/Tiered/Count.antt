-- ===== src/Tiered/Count.antt =====
-- `Increment` and `Decrement` of `TieredCache` (internal/cache/tiered/mutations.go).
use frankenphp_tiered_cache.Base.{Bool, true, false, Option, none, some, if◌then◌else◌}
use frankenphp_tiered_cache.Base.Int.{ℤ, pos}
use frankenphp_tiered_cache.Base.Dict.{Key}
use frankenphp_tiered_cache.Contract.{Error, Reply, success, is_error, redis_command}
use frankenphp_tiered_cache.Observability.Observation.{Operation, post_commit_error}
use frankenphp_tiered_cache.Tiered.State.{
  System, TieredCache, observe, bump_version, now, read_clock, refusal,
}
use frankenphp_tiered_cache.Tiered.Health.{reconcile}
use frankenphp_tiered_cache.Tiered.Publish.{publish_or_mark}
use frankenphp_tiered_cache.Tiered.Commit.{
  guarded, l2_failed, called_l2, forget_l1, after_commit, post_commit_cause,
}

module _ {S1 S2 B : Type 0} (sys : System S1 S2 B) where
  abbrev pub counter_operation : Bool → Operation
  counter_operation false = Operation.increment
  counter_operation true = Operation.decrement

  abbrev pub count_l2 : Bool → Key → ℤ → S2 → S2 × Reply ℤ
  count_l2 false = sys.l2.increment
  count_l2 true = sys.l2.decrement

  abbrev pub finish_counter :
      Operation → ℤ → Option Error → TieredCache S1 S2 B → TieredCache S1 S2 B × Reply ℤ
  finish_counter op result none t = (t, success result)
  finish_counter op result (some e) t = (
    observe (post_commit_error op) t,
    record { result = result; error = some (after_commit (some e)) },
  )

  unfoldable pub counter_committed :
      Key → ℤ → Operation → TieredCache S1 S2 B → TieredCache S1 S2 B × Reply ℤ
  counter_committed key result op t =
      let (u, r) = forget_l1 sys key (bump_version t) in
      let (v, l1_err) = reconcile sys r.error u in
      let (w, publish_err) = publish_or_mark sys key v in
      finish_counter op result (post_commit_cause sys l1_err publish_err w) w

  -- An error that Redis answers to the command itself does not degrade the cache.
  abbrev pub counter_answered :
      Key → Operation → Option Error → ℤ → TieredCache S1 S2 B → TieredCache S1 S2 B × Reply ℤ
  counter_answered key op (some e) result t =
      if is_error e redis_command
      then (t, record { result = pos 0; error = some e })
      else l2_failed sys (pos 0) e false t
  counter_answered key op none result t = counter_committed key result op t

  unfoldable pub change_counter :
      Key → ℤ → Bool → TieredCache S1 S2 B → TieredCache S1 S2 B × Reply ℤ
  change_counter key value decrement t =
      let started = now sys t in
      let op = counter_operation decrement in
      let (s, r) = count_l2 decrement key value t.l2 in
      let u = called_l2 sys op started (s, r) (read_clock sys t) in
      guarded sys (pos 0) (refusal sys t) t (counter_answered key op r.error r.result u)
