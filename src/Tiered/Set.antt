-- ===== src/Tiered/Set.antt =====
-- `Set`, `Forever` and `Add` of `TieredCache` (internal/cache/tiered/mutations.go).
use frankenphp_tiered_cache.Base.{ℕ, ◌+◌, Bool, true, false, Option, none, some, if◌then◌else◌}
use frankenphp_tiered_cache.Base.Int.{pos_part}
use frankenphp_tiered_cache.Base.Dict.{Key}
use frankenphp_tiered_cache.Contract.{
  Bytes, Duration, Error, Reply, success, failure, join, invalid_ttl, nil_value, not_positive,
}
use frankenphp_tiered_cache.Observability.Observation.{Operation}
use frankenphp_tiered_cache.Tiered.State.{
  System, TieredCache, bump_version, now, read_clock, refusal, unavailable_error,
}
use frankenphp_tiered_cache.Tiered.Health.{reconcile}
use frankenphp_tiered_cache.Tiered.Publish.{publish_or_mark}
use frankenphp_tiered_cache.Tiered.Commit.{
  guarded, l2_failed, called_l2, write_l1, observe_post_commit, finish_marked,
}

module _ {S1 S2 B : Type 0} (sys : System S1 S2 B) where
  abbrev pub set_operation : Option ℕ → Operation
  set_operation none = Operation.forever
  set_operation (some _) = Operation.set

  abbrev pub set_l2 : Key → Bytes → Option ℕ → S2 → S2 × Reply Bool
  set_l2 key value none = sys.l2.forever key value
  set_l2 key value (some ttl) = sys.l2.set key value ttl

  abbrev pub deadline_of : ℕ → Option ℕ → Option ℕ
  deadline_of started none = none
  deadline_of started (some ttl) = some (started + ttl)

  -- The end of `set`: its errors after a commit are not marked with `ErrPostCommit`.
  abbrev pub finish_set :
      Operation
      → Option Error
      → Option Error
      → TieredCache S1 S2 B
      → TieredCache S1 S2 B × Reply Bool
  finish_set op none none t = (t, success true)
  finish_set op l1_err publish_err t =
      let cause = join l1_err (unavailable_error sys t) in
      (observe_post_commit sys op cause t, record { result = true; error = cause })

  -- After Redis has stored the value: L1, then the other instances.
  unfoldable pub set_committed :
      Key → Bytes → Option ℕ → Operation → TieredCache S1 S2 B → TieredCache S1 S2 B × Reply Bool
  set_committed key value deadline op t =
      let (u, written) = write_l1 sys key value deadline (bump_version t) in
      let (v, l1_err) = reconcile sys written u in
      let (w, publish_err) = publish_or_mark sys key v in finish_set op l1_err publish_err w

  abbrev pub set_answered :
      Key
      → Bytes
      → Option ℕ
      → Operation
      → Option Error
      → Bool
      → TieredCache S1 S2 B
      → TieredCache S1 S2 B × Reply Bool
  set_answered key value deadline op (some e) stored t = l2_failed sys false e false t
  set_answered key value deadline op none false t = (t, success false)
  set_answered key value deadline op none true t = set_committed key value deadline op t

  -- `set`, with the mutation lock held; `ttl` is `none` for an entry without expiration.
  unfoldable pub set_locked :
      Key → Bytes → Option ℕ → TieredCache S1 S2 B → TieredCache S1 S2 B × Reply Bool
  set_locked key value ttl t =
      let started = now sys t in
      let (s, r) = set_l2 key value ttl t.l2 in
      let u = called_l2 sys (set_operation ttl) started (s, r) (read_clock sys t) in
      guarded sys false (refusal sys t) t
        (set_answered key value (deadline_of started ttl) (set_operation ttl) r.error r.result u)

  unfoldable pub set :
      Key → Option Bytes → Duration → TieredCache S1 S2 B → TieredCache S1 S2 B × Reply Bool
  set key none ttl t = (t, failure false (if not_positive ttl then invalid_ttl else nil_value))
  set key (some value) ttl t =
      if not_positive ttl
      then (t, failure false invalid_ttl)
      else set_locked key value (some (pos_part ttl)) t

  unfoldable pub forever :
      Key → Option Bytes → TieredCache S1 S2 B → TieredCache S1 S2 B × Reply Bool
  forever key none t = (t, failure false nil_value)
  forever key (some value) t = set_locked key value none t

  unfoldable pub add_committed :
      Key → Bytes → ℕ → TieredCache S1 S2 B → TieredCache S1 S2 B × Reply Bool
  add_committed key value deadline t =
      let (u, written) = write_l1 sys key value (some deadline) (bump_version t) in
      let (v, l1_err) = reconcile sys written u in
      let (w, publish_err) = publish_or_mark sys key v in
      finish_marked sys Operation.add true l1_err publish_err w

  abbrev pub add_answered :
      Key → Bytes → ℕ → Option Error → Bool → TieredCache S1 S2 B → TieredCache S1 S2 B × Reply Bool
  add_answered key value deadline (some e) added t = l2_failed sys false e false t
  add_answered key value deadline none false t = (t, success false)
  add_answered key value deadline none true t = add_committed key value deadline t

  unfoldable pub add_locked :
      Key → Bytes → ℕ → TieredCache S1 S2 B → TieredCache S1 S2 B × Reply Bool
  add_locked key value ttl t =
      let started = now sys t in
      let (s, r) = sys.l2.add key value ttl t.l2 in
      let u = called_l2 sys Operation.add started (s, r) (read_clock sys t) in
      guarded sys false (refusal sys t) t
        (add_answered key value (started + ttl) r.error r.result u)

  unfoldable pub add :
      Key → Option Bytes → Duration → TieredCache S1 S2 B → TieredCache S1 S2 B × Reply Bool
  add key none ttl t = (t, failure false (if not_positive ttl then invalid_ttl else nil_value))
  add key (some value) ttl t =
      if not_positive ttl
      then (t, failure false invalid_ttl)
      else add_locked key value (pos_part ttl) t
