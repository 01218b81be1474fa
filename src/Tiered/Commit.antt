-- ===== src/Tiered/Commit.antt =====
-- The steps that the mutations of `TieredCache` share (internal/cache/tiered/mutations.go).
use frankenphp_tiered_cache.Base.{ℕ, ◌-◌, ◌&&◌, not, Bool, Option, none, some, ltb, if◌then◌else◌}
use frankenphp_tiered_cache.Base.Dict.{Key}
use frankenphp_tiered_cache.Contract.{
  Bytes, Error, Reply, sentinel, wrap, join, is_nil, success, l1_mutation_not_stored, post_commit,
}
use frankenphp_tiered_cache.Observability.Observation.{Operation, post_commit_error}
use frankenphp_tiered_cache.Tiered.State.{
  System, TieredCache, observe, now, read_clock, observe_l2, unavailable_error,
}
use frankenphp_tiered_cache.Tiered.Health.{degrade_locked, unavailable_error_if}

-- A write that reports false without an error counts as `errL1MutationNotStored`.
abbrev pub stored_error : Reply Bool → Option Error
stored_error r =
    if is_nil r.error && not r.result then some (sentinel l1_mutation_not_stored) else r.error

-- `fmt.Errorf("%w: %w", ErrPostCommit, err)`
abbrev pub after_commit : Option Error → Error
after_commit none = sentinel post_commit
after_commit (some e) = wrap (sentinel post_commit) e

module _ {S1 S2 B : Type 0} (sys : System S1 S2 B) where
  -- The checks that open an operation, and the rest of it.
  abbrev pub guarded :
      {A : Type 0}
      → A
      → Option Error
      → TieredCache S1 S2 B
      → TieredCache S1 S2 B × Reply A
      → TieredCache S1 S2 B × Reply A
  guarded nothing none t rest = rest
  guarded nothing (some e) t rest = (t, record { result = nothing; error = some e })

  -- A failed L2 call degrades the cache; the error that is returned wraps the cause.
  abbrev pub l2_failed :
      {A : Type 0} → A → Error → Bool → TieredCache S1 S2 B → TieredCache S1 S2 B × Reply A
  l2_failed nothing e flush t =
      let u = degrade_locked sys (some e) flush t in
      (u, record { result = nothing; error = unavailable_error sys u })

  -- One L2 call, timed and counted.
  abbrev pub called_l2 :
      {A : Type 0} → Operation → ℕ → S2 × Reply A → TieredCache S1 S2 B → TieredCache S1 S2 B
  called_l2 op started (s, r) t = observe_l2 sys op started r.error (record t { l2 = s })

  -- L1 gets the value for what is left until the deadline, or loses the key after it. `none` is an
  -- entry without expiration.
  unfoldable pub write_l1 :
      Key → Bytes → Option ℕ → TieredCache S1 S2 B → TieredCache S1 S2 B × Option Error
  write_l1 key value none t =
      let (s, r) = sys.l1.forever key value t.l1 in (record t { l1 = s }, stored_error r)
  write_l1 key value (some deadline) t =
      let remaining = deadline - now sys t in
      let u = read_clock sys t in
      let (s, r) = sys.l1.set key value remaining u.l1 in
      let (s', r') = sys.l1.forget key u.l1 in
      if ltb 0 remaining
      then (record u { l1 = s }, stored_error r)
      else (record u { l1 = s' }, r'.error)

  unfoldable pub forget_l1 : Key → TieredCache S1 S2 B → TieredCache S1 S2 B × Reply Bool
  forget_l1 key t = let (s, r) = sys.l1.forget key t.l1 in (record t { l1 = s }, r)

  -- `observePostCommitError`
  abbrev pub observe_post_commit :
      Operation → Option Error → TieredCache S1 S2 B → TieredCache S1 S2 B
  observe_post_commit op none t = t
  observe_post_commit op (some e) t = observe (post_commit_error op) t

  -- The error after a commit, from those of L1 and of the publication.
  abbrev pub post_commit_cause : Option Error → Option Error → TieredCache S1 S2 B → Option Error
  post_commit_cause l1_err publish_err t =
      join l1_err (unavailable_error_if sys (join l1_err publish_err) t)

  -- `Add`, `SetMany` and the counters mark it with `ErrPostCommit`.
  abbrev pub finish_marked :
      {A : Type 0}
      → Operation
      → A
      → Option Error
      → Option Error
      → TieredCache S1 S2 B
      → TieredCache S1 S2 B × Reply A
  finish_marked op result none none t = (t, success result)
  finish_marked op result l1_err publish_err t =
      let cause = post_commit_cause l1_err publish_err t in
      (
        observe_post_commit op cause t,
        record { result = result; error = some (after_commit cause) },
      )
