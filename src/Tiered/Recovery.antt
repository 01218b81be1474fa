-- ===== src/Tiered/Recovery.antt =====
-- Recovery and shutdown of `TieredCache` (internal/cache/tiered/recovery.go and lifecycle.go). A
-- recovery is a probe, a retry of the pending invalidations, a flush of L1 and the end; other
-- operations may step in between, so each part is a function.
use frankenphp_tiered_cache.Base.{ℕ, Bool, true, false, Option, none, some, [], ◌∷◌, if◌then◌else◌}
use frankenphp_tiered_cache.Base.Dict.{Key}
use frankenphp_tiered_cache.Contract.{Error, join}
use frankenphp_tiered_cache.Observability.Observation.{Operation, recovery_attempt, recovery_result}
use frankenphp_tiered_cache.Tiered.State.{
  System, TieredCache, observe, bump_version, now, read_clock,
}
use frankenphp_tiered_cache.Tiered.Health.{flush_l1, enter_healthy}
use frankenphp_tiered_cache.Tiered.Publish.{recover_pending_invalidations}
use frankenphp_tiered_cache.Tiered.Commit.{called_l2}

-- "\x00frankenphp-tiered-cache/recovery-probe"
abbrev pub recovery_probe_key : Key
recovery_probe_key =
    0 ∷ b'f' ∷ b'r' ∷ b'a' ∷ b'n' ∷ b'k' ∷ b'e' ∷ b'n' ∷ b'p' ∷ b'h' ∷ b'p' ∷ b'-' ∷ b't' ∷ b'i'
    ∷ b'e' ∷ b'r' ∷ b'e' ∷ b'd' ∷ b'-' ∷ b'c' ∷ b'a' ∷ b'c' ∷ b'h' ∷ b'e' ∷ b'/' ∷ b'r' ∷ b'e'
    ∷ b'c' ∷ b'o' ∷ b'v' ∷ b'e' ∷ b'r' ∷ b'y' ∷ b'-' ∷ b'p' ∷ b'r' ∷ b'o' ∷ b'b' ∷ b'e' ∷ []

-- What other operations do between the parts of a recovery, which holds no lock in the first two
-- places, and not that of the mutations in the last two: before the retry, before the checks under
-- the recovery lock, while the mutation lock is waited for, and before the cache becomes healthy.
pub record Others (S1 S2 B : Type 0) : Type 0 where
  pub before_retry : TieredCache S1 S2 B → TieredCache S1 S2 B
  pub before_checks : TieredCache S1 S2 B → TieredCache S1 S2 B
  pub before_flush : TieredCache S1 S2 B → TieredCache S1 S2 B
  pub before_end : TieredCache S1 S2 B → TieredCache S1 S2 B

module _ {S1 S2 B : Type 0} (sys : System S1 S2 B) where
  -- The cache is degraded, and its bus, if any, is ready.
  abbrev pub may_recover : TieredCache S1 S2 B → Bool
  may_recover t = if t.degraded then (if sys.has_bus then t.invalidation_ready else true) else false

  -- The probe of L2; the answer says whether recovery goes on.
  abbrev pub after_probe : Option Error → TieredCache S1 S2 B → TieredCache S1 S2 B × Bool
  after_probe (some e) t = (observe (recovery_result false) t, false)
  after_probe none t = (t, true)

  unfoldable pub recovery_probe : TieredCache S1 S2 B → TieredCache S1 S2 B × Bool
  recovery_probe t =
      let u = observe recovery_attempt t in
      let started = now sys u in
      let (s, r) = sys.l2.get recovery_probe_key u.l2 in
      let v = called_l2 sys Operation.recovery_probe started (s, r) (read_clock sys u) in
      if may_recover t then after_probe r.error v else (t, false)

  -- The retry of the invalidations that wait, under their own lock.
  abbrev pub after_pending : TieredCache S1 S2 B × Bool → TieredCache S1 S2 B × Bool
  after_pending (t, true) = (t, true)
  after_pending (t, false) = (observe (recovery_result false) t, false)

  unfoldable pub recovery_retry : TieredCache S1 S2 B → TieredCache S1 S2 B × Bool
  recovery_retry t = after_pending (recover_pending_invalidations sys t)

  -- The flush of L1 under the mutation lock.
  abbrev pub after_flush : Option Error → TieredCache S1 S2 B → TieredCache S1 S2 B × Bool
  after_flush (some e) t = (observe (recovery_result false) t, false)
  after_flush none t = (t, true)

  unfoldable pub recovery_flush : TieredCache S1 S2 B → TieredCache S1 S2 B × Bool
  recovery_flush t =
      let (u, r) = flush_l1 sys t in if t.is_closed then (t, false) else after_flush r.error u

  -- The end, which the mutation lock does not protect.
  abbrev pub note_success : TieredCache S1 S2 B × Bool → TieredCache S1 S2 B
  note_success (t, true) = observe (recovery_result true) t
  note_success (t, false) = t

  unfoldable pub recovery_enter : ℕ → TieredCache S1 S2 B → TieredCache S1 S2 B
  recovery_enter epoch t = note_success (enter_healthy sys epoch t)

  abbrev pub when_on :
      (TieredCache S1 S2 B → TieredCache S1 S2 B) → TieredCache S1 S2 B × Bool → TieredCache S1 S2 B
  when_on rest (t, true) = rest t
  when_on rest (t, false) = t

  -- The part under the recovery lock, from its checks on: the epoch is read before the mutation
  -- lock is held.
  unfoldable pub recovery_finish : Others S1 S2 B → TieredCache S1 S2 B → TieredCache S1 S2 B
  recovery_finish o t =
      if may_recover t
      then when_on (λ u. recovery_enter t.health_epoch (o.before_end u))
          (recovery_flush (o.before_flush t))
      else t

  -- `tryRecovery`
  unfoldable pub try_recovery : Others S1 S2 B → TieredCache S1 S2 B → TieredCache S1 S2 B
  try_recovery o t =
      when_on
        (λ u.
          when_on (λ v. recovery_finish o (o.before_checks v)) (recovery_retry (o.before_retry u)))
        (recovery_probe t)

  -- `Close`: the bus, L2 and L1 are closed once; later calls answer the same error.
  unfoldable pub close : TieredCache S1 S2 B → TieredCache S1 S2 B × Option Error
  close t =
      let (b, bus_err) = sys.bus.close t.bus in
      let (s2, l2_err) = sys.l2.close t.l2 in
      let (s1, l1_err) = sys.l1.close t.l1 in
      let err = join (if sys.has_bus then bus_err else none) (join l2_err l1_err) in
      let u = record (bump_version t) { is_closed = true } in
      if t.is_closed then (t, t.close_err) else (
        record u { bus = if sys.has_bus then b else t.bus; l2 = s2; l1 = s1; close_err = err },
        err,
      )
