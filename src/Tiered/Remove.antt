-- ===== src/Tiered/Remove.antt =====
-- `Forget`, `Touch` and `Flush` of `TieredCache` (internal/cache/tiered/mutations.go).
use frankenphp_tiered_cache.Base.{
  ℕ, ◌+◌, ◌-◌, ◌&&◌, ◌||◌, Bool, true, false, Option, none, some, ltb, if◌then◌else◌,
}
use frankenphp_tiered_cache.Base.Int.{pos_part}
use frankenphp_tiered_cache.Base.Dict.{Key}
use frankenphp_tiered_cache.Contract.{
  Duration, Error, Reply, failure, is_nil, invalid_ttl, not_positive,
}
use frankenphp_tiered_cache.Observability.Observation.{Operation}
use frankenphp_tiered_cache.Tiered.State.{
  System, TieredCache, bump_version, now, read_clock, refusal,
}
use frankenphp_tiered_cache.Tiered.Health.{flush_l1, degrade_locked, reconcile}
use frankenphp_tiered_cache.Tiered.Publish.{publish_or_mark, publish_flush_or_mark}
use frankenphp_tiered_cache.Tiered.Commit.{
  guarded, l2_failed, called_l2, forget_l1, observe_post_commit, post_commit_cause,
}

module _ {S1 S2 B : Type 0} (sys : System S1 S2 B) where
  -- The end of the three operations: the error after the commit is returned as it is.
  abbrev pub finish :
      Operation
      → Bool
      → Option Error
      → Option Error
      → TieredCache S1 S2 B
      → TieredCache S1 S2 B × Reply Bool
  finish op result l1_err publish_err t =
      let cause = post_commit_cause sys l1_err publish_err t in
      (observe_post_commit sys op cause t, record { result = result; error = cause })

  unfoldable pub forget_committed :
      Key → Bool → TieredCache S1 S2 B → TieredCache S1 S2 B × Reply Bool
  forget_committed key l2_removed t =
      let (u, r) = forget_l1 sys key (bump_version t) in
      let (v, l1_err) = reconcile sys r.error u in
      let (w, publish_err) = publish_or_mark sys key v in
      finish Operation.forget (r.result || l2_removed) l1_err publish_err w

  abbrev pub forget_answered :
      Key → Option Error → Bool → TieredCache S1 S2 B → TieredCache S1 S2 B × Reply Bool
  forget_answered key (some e) removed t = l2_failed sys false e false t
  forget_answered key none removed t = forget_committed key removed t

  unfoldable pub forget : Key → TieredCache S1 S2 B → TieredCache S1 S2 B × Reply Bool
  forget key t =
      let started = now sys t in
      let (s, r) = sys.l2.forget key t.l2 in
      let u = called_l2 sys Operation.forget started (s, r) (read_clock sys t) in
      guarded sys false (refusal sys t) t (forget_answered key r.error r.result u)

  -- L1 follows what Redis answered; after the deadline the key is forgotten and counts as touched.
  unfoldable pub touch_l1 : Key → ℕ → Bool → TieredCache S1 S2 B → TieredCache S1 S2 B × Reply Bool
  touch_l1 key deadline false t = forget_l1 sys key t
  touch_l1 key deadline true t =
      let remaining = deadline - now sys t in
      let u = read_clock sys t in
      let (s, r) = sys.l1.touch key remaining u.l1 in
      let (v, r') = forget_l1 sys key u in
      if ltb 0 remaining
      then (record u { l1 = s }, r)
      else (v, record { result = true; error = r'.error })

  unfoldable pub touch_committed :
      Key → ℕ → Bool → TieredCache S1 S2 B → TieredCache S1 S2 B × Reply Bool
  touch_committed key deadline l2_touched t =
      let (u, r) = touch_l1 key deadline l2_touched (bump_version t) in
      let (v, l1_err) = reconcile sys r.error u in
      let (w, publish_err) = publish_or_mark sys key v in
      finish Operation.touch (l2_touched || r.result) l1_err publish_err w

  -- A failed `Touch` of Redis flushes L1, unlike the other mutations.
  abbrev pub touch_answered :
      Key → ℕ → Option Error → Bool → TieredCache S1 S2 B → TieredCache S1 S2 B × Reply Bool
  touch_answered key deadline (some e) touched t = l2_failed sys false e true t
  touch_answered key deadline none touched t = touch_committed key deadline touched t

  unfoldable pub touch_locked : Key → ℕ → TieredCache S1 S2 B → TieredCache S1 S2 B × Reply Bool
  touch_locked key ttl t =
      let started = now sys t in
      let (s, r) = sys.l2.touch key ttl t.l2 in
      let u = called_l2 sys Operation.touch started (s, r) (read_clock sys t) in
      guarded sys false (refusal sys t) t (touch_answered key (started + ttl) r.error r.result u)

  unfoldable pub touch : Key → Duration → TieredCache S1 S2 B → TieredCache S1 S2 B × Reply Bool
  touch key ttl t =
      if not_positive ttl then (t, failure false invalid_ttl) else touch_locked key (pos_part ttl) t

  -- A failed flush of L1 degrades the cache.
  abbrev pub degrade_on : Option Error → TieredCache S1 S2 B → TieredCache S1 S2 B
  degrade_on none t = t
  degrade_on (some e) t = degrade_locked sys (some e) false t

  unfoldable pub flush_committed : Bool → TieredCache S1 S2 B → TieredCache S1 S2 B × Reply Bool
  flush_committed l2_flushed t =
      let (u, r) = flush_l1 sys (bump_version t) in
      let (w, publish_err) = publish_flush_or_mark sys (degrade_on r.error u) in
      finish Operation.flush (r.result && l2_flushed && is_nil r.error && is_nil publish_err)
        r.error publish_err w

  abbrev pub flush_answered :
      Option Error → Bool → TieredCache S1 S2 B → TieredCache S1 S2 B × Reply Bool
  flush_answered (some e) flushed t = l2_failed sys false e false t
  flush_answered none flushed t = flush_committed flushed t

  unfoldable pub flush : TieredCache S1 S2 B → TieredCache S1 S2 B × Reply Bool
  flush t =
      let started = now sys t in
      let (s, r) = sys.l2.flush t.l2 in
      let u = called_l2 sys Operation.flush started (s, r) (read_clock sys t) in
      guarded sys false (refusal sys t) t (flush_answered r.error r.result u)
