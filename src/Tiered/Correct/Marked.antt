-- ===== src/Tiered/Correct/Marked.antt =====
-- `Add`, `Increment` and `Decrement` of `TieredCache`, whose errors after a commit are marked with
-- `ErrPostCommit` (internal/cache/tiered/mutations.go).
use frankenphp_tiered_cache.Base.{
  ℕ, ◌+◌, ◌≡◌, refl, ◌∙◌, Bool, true, false, Option, none, some, if◌then◌else◌,
}
use frankenphp_tiered_cache.Base.Int.{ℤ, pos}
use frankenphp_tiered_cache.Base.Dict.{Key}
use frankenphp_tiered_cache.Contract.{Bytes, Error, Reply, is_error, post_commit, redis_command}
use frankenphp_tiered_cache.Observability.Observation.{Operation}
use frankenphp_tiered_cache.Tiered.State.{
  System, TieredCache, bump_version, now, refusal, observe_l2,
}
use frankenphp_tiered_cache.Tiered.Health.{reconcile}
use frankenphp_tiered_cache.Tiered.Publish.{publish_or_mark}
use frankenphp_tiered_cache.Tiered.Commit.{
  guarded, write_l1, forget_l1, l2_failed, finish_marked, post_commit_cause, after_commit,
}
use frankenphp_tiered_cache.Tiered.Set.{add_committed, add_answered, add_locked}
use frankenphp_tiered_cache.Tiered.Count.{
  counter_operation, count_l2, finish_counter, counter_committed, counter_answered, change_counter,
}
use frankenphp_tiered_cache.Tiered.Correct.Keeps.{forget_l1-Keeps}
use frankenphp_tiered_cache.Tiered.Correct.Mutate.{
  is_only, Fails, Commits, Outcome, Declines, answered, l2_failed-Fails, guarded-Outcome,
  observed-Commits, settled_commit, write_l1-Commits,
}

after_commit-Marked : (cause : Option Error) → is_error (after_commit cause) post_commit ≡ true
unfolding is_error
after_commit-Marked none = refl
after_commit-Marked (some e) = refl

module _ {S1 S2 B : Type 0} (sys : System S1 S2 B) where
  -- The answer after a commit: the result of Redis, and at most a marked error.
  abbrev pub Reports : {A : Type 0} → A → TieredCache S1 S2 B × Reply A → Type 0
  Reports result p = (p.1.result ≡ result) × (is_only post_commit p.1.error ≡ true)

  finish_marked-Commits :
      (op : Operation) (key : Key) (s : S2) (t : TieredCache S1 S2 B) (err : Option Error)
      (u : TieredCache S1 S2 B) (l1_err publish_err : Option Error) (v : TieredCache S1 S2 B)
      → Commits sys key s t err u v
      → let p = finish_marked sys op true l1_err publish_err v in
        Reports true p × Commits sys key s t err u p.0
  finish_marked-Commits op key s t err u none none v h = ((refl, refl), h)
  finish_marked-Commits op key s t err u none (some e) v h =
      let cause = post_commit_cause sys none (some e) v in
      ((refl, after_commit-Marked cause), observed-Commits sys op cause key s t err u v h)
  finish_marked-Commits op key s t err u (some f) publish_err v h =
      let cause = post_commit_cause sys (some f) publish_err v in
      ((refl, after_commit-Marked cause), observed-Commits sys op cause key s t err u v h)

  finish_counter-Commits :
      (op : Operation) (result : ℤ) (key : Key) (s : S2) (t : TieredCache S1 S2 B)
      (err : Option Error) (u : TieredCache S1 S2 B) (cause : Option Error)
      (v : TieredCache S1 S2 B)
      → Commits sys key s t err u v
      → let p = finish_counter sys op result cause v in
        Reports result p × Commits sys key s t err u p.0
  finish_counter-Commits op result key s t err u none v h = ((refl, refl), h)
  finish_counter-Commits op result key s t err u (some e) v h =
      ((refl, after_commit-Marked (some e)), h)

  -- The outcomes of `Add`, by what Redis answers.
  abbrev pub AddOutcome :
      Key → Bytes → ℕ → TieredCache S1 S2 B → TieredCache S1 S2 B × Reply Bool → Type 0
  AddOutcome key value ttl t p =
      let call = sys.l2.add key value ttl t.l2 in
      let u = answered sys Operation.add call t in
      let w = write_l1 sys key value (some (now sys t + ttl)) (bump_version u) in
      Outcome sys false call.0 (refusal sys t) call.1.error t
        (λ q.
          if call.1.result
          then Reports true q × Commits sys key call.0 t w.1 w.0 q.0
          else Declines sys call.0 t q)
        p

  add_answered-Outcome :
      (key : Key) (value : Bytes) (deadline : ℕ) (err : Option Error) (added : Bool)
      (t u : TieredCache S1 S2 B)
      → u.mutation_version ≡ t.mutation_version
      → u.l1 ≡ t.l1
      → let w = write_l1 sys key value (some deadline) (bump_version u) in
        Outcome sys false u.l2 none err t
          (λ q.
            if added
            then Reports true q × Commits sys key u.l2 t w.1 w.0 q.0
            else Declines sys u.l2 t q)
          (add_answered sys key value deadline err added u)
  unfolding add_committed
  add_answered-Outcome key value deadline (some e) added t u version same =
      let (down, l2, kept, nothing, marked) = l2_failed-Fails sys false e false u in
      (down, l2, kept ∙ version, nothing, marked)
  add_answered-Outcome key value deadline none false t u version same = (refl, refl, same, version)
  add_answered-Outcome key value deadline none true t u version same =
      let w = write_l1 sys key value (some deadline) (bump_version u) in
      let v = reconcile sys w.1 w.0 in
      let x = publish_or_mark sys key v.0 in
      finish_marked-Commits Operation.add key u.l2 t w.1 w.0 v.1 x.1 x.0
        (write_l1-Commits sys key value (some deadline) Operation.add t u version)

  -- `Add`: a closed or unavailable cache answers that error and stays as it is; if Redis fails, the
  -- answer is false with an error that is `ErrL2Unavailable`, the cache is degraded, and the version
  -- stays; if Redis has the key already, the answer is false, L1 and the version stay; if Redis has
  -- added it, the answer is true with no error but one that is `ErrPostCommit`, the version is the next
  -- one, Redis stays as that call left it, and L1 and the other instances are as after `Set`.
  pub add_locked-Outcome :
      (key : Key) (value : Bytes) (ttl : ℕ) (t : TieredCache S1 S2 B)
      → AddOutcome key value ttl t (add_locked sys key value ttl t)
  unfolding add_locked observe_l2
  add_locked-Outcome key value ttl t =
      let call = sys.l2.add key value ttl t.l2 in
      guarded-Outcome sys false call.0 call.1.error (refusal sys t) t _ _ (
        add_answered-Outcome key value (now sys t + ttl) call.1.error call.1.result t
          (answered sys Operation.add call t) refl refl)

  -- Redis refused the command itself: nothing changes, and its error is the answer.
  abbrev pub Refuses : Error → S2 → TieredCache S1 S2 B → TieredCache S1 S2 B × Reply ℤ → Type 0
  Refuses e s t p =
      (p.1 ≡ record { result = pos 0; error = some e })
      × (p.0.l2 ≡ s)
      × (p.0.l1 ≡ t.l1)
      × (p.0.mutation_version ≡ t.mutation_version)
      × (p.0.degraded ≡ t.degraded)

  -- The outcome of a counter, with `s` the state of Redis after the call.
  abbrev pub Counts :
      Option Error
      → Option Error
      → ℤ
      → Key
      → S2
      → TieredCache S1 S2 B
      → TieredCache S1 S2 B
      → TieredCache S1 S2 B × Reply ℤ
      → Type 0
  Counts (some e) err result key s t u p = p ≡ (t, record { result = pos 0; error = some e })
  Counts none (some e) result key s t u p =
      if is_error e redis_command then Refuses e s t p else Fails sys (pos 0) s t p
  Counts none none result key s t u p =
      let w = forget_l1 sys key (bump_version u) in
      Reports result p × Commits sys key s t w.1.error w.0 p.0

  counter_answered-Counts :
      (key : Key) (op : Operation) (err : Option Error) (result : ℤ) (t u : TieredCache S1 S2 B)
      → u.mutation_version ≡ t.mutation_version
      → u.l1 ≡ t.l1
      → u.degraded ≡ t.degraded
      → Counts none err result key u.l2 t u (counter_answered sys key op err result u)
  unfolding counter_committed
  counter_answered-Counts key op (some e) result t u version same health =
      go (is_error e redis_command)
    where
      go :
          (b : Bool)
          → let p =
              if b
              then (u, record { result = pos 0; error = some e })
              else l2_failed sys (pos 0) e false u in
            if b then Refuses e u.l2 t p else Fails sys (pos 0) u.l2 t p
      go true = (refl, refl, same, version, health)
      go false =
          let (down, l2, kept, nothing, marked) = l2_failed-Fails sys (pos 0) e false u in
          (down, l2, kept ∙ version, nothing, marked)
  counter_answered-Counts key op none result t u version same health =
      let w = forget_l1 sys key (bump_version u) in
      let v = reconcile sys w.1.error w.0 in
      let x = publish_or_mark sys key v.0 in
      let keeps = forget_l1-Keeps sys key (bump_version u) in
      finish_counter-Commits op result key u.l2 t w.1.error w.0 (post_commit_cause sys v.1 x.1 x.0)
        x.0 (settled_commit sys key op u.l2 t w.0 w.1.error keeps.0 (keeps.1 ∙ (rw version refl)))

  guarded-Counts :
      (err : Option Error) (result : ℤ) (key : Key) (s : S2) (refused : Option Error)
      (t u : TieredCache S1 S2 B) (rest : TieredCache S1 S2 B × Reply ℤ)
      → Counts none err result key s t u rest
      → Counts refused err result key s t u (guarded sys (pos 0) refused t rest)
  guarded-Counts err result key s none t u rest h = h
  guarded-Counts err result key s (some e) t u rest h = refl

  -- The outcomes of `Increment` and `Decrement`, by what Redis answers.
  abbrev pub CounterOutcome :
      Key → ℤ → Bool → TieredCache S1 S2 B → TieredCache S1 S2 B × Reply ℤ → Type 0
  CounterOutcome key value decrement t p =
      let call = count_l2 sys decrement key value t.l2 in
      Counts (refusal sys t) call.1.error call.1.result key call.0 t
        (answered sys (counter_operation sys decrement) call t) p

  -- `Increment` and `Decrement`: a closed or unavailable cache answers that error and stays as it is; an
  -- error that is `ErrRedisCommand` is answered, and L1, the version and the health stay; any other
  -- error of Redis is answered as `ErrL2Unavailable`, and the cache is degraded; if Redis has counted,
  -- the answer is its result with no error but one that is `ErrPostCommit`, the version is the next
  -- one, Redis stays as that call left it, L1 has lost the key without an error or has been flushed without
  -- one or the cache is degraded, and the other instances are told or the cache is degraded with the
  -- key waiting for a retry.
  pub change_counter-Outcome :
      (key : Key) (value : ℤ) (decrement : Bool) (t : TieredCache S1 S2 B)
      → CounterOutcome key value decrement t (change_counter sys key value decrement t)
  unfolding change_counter observe_l2
  change_counter-Outcome key value decrement t =
      let call = count_l2 sys decrement key value t.l2 in
      let op = counter_operation sys decrement in
      let u = answered sys op call t in
      guarded-Counts call.1.error call.1.result key call.0 (refusal sys t) t u _
        (counter_answered-Counts key op call.1.error call.1.result t u refl refl refl)
