-- ===== src/Tiered/SetMany.antt =====
-- `SetMany` of `TieredCache` (internal/cache/tiered/mutations.go).
use frankenphp_tiered_cache.Base.{
  ℕ, ◌+◌, ◌-◌, Bool, true, false, Option, none, some, List, [], ◌∷◌, length, ltb, if◌then◌else◌,
}
use frankenphp_tiered_cache.Base.Int.{pos_part}
use frankenphp_tiered_cache.Base.Dict.{Key}
use frankenphp_tiered_cache.Contract.{
  Bytes, Duration, Error, Reply, success, failure, join, invalid_ttl, nil_value, not_positive,
}
use frankenphp_tiered_cache.Observability.Observation.{Operation, batch}
use frankenphp_tiered_cache.Tiered.State.{
  System, TieredCache, observe, bump_version, now, read_clock, refusal,
}
use frankenphp_tiered_cache.Tiered.Health.{degrade_locked, reconcile}
use frankenphp_tiered_cache.Tiered.Publish.{publish_key_invalidation, mark_pending_invalidation}
use frankenphp_tiered_cache.Tiered.Commit.{
  guarded, l2_failed, called_l2, stored_error, finish_marked,
}

-- The values of a batch, if none of them is nil.
unfoldable pub non_nil : List (Key × Option Bytes) → Option (List (Key × Bytes))
non_nil [] = some []
non_nil ((key, none) ∷ values) = none
non_nil ((key, some value) ∷ values) = elim (non_nil values) [
  | none ↦ none
  | some rest ↦ some ((key, value) ∷ rest)
]

module _ {S1 S2 B : Type 0} (sys : System S1 S2 B) where
  -- The loop that writes the batch into L1; the errors are joined.
  unfoldable pub set_all_l1 :
      ℕ
      → List (Key × Bytes)
      → Option Error
      → TieredCache S1 S2 B
      → TieredCache S1 S2 B × Option Error
  set_all_l1 remaining [] err t = (t, err)
  set_all_l1 remaining ((key, value) ∷ values) err t =
      let (s, r) = sys.l1.set key value remaining t.l1 in
      set_all_l1 remaining values (join err (stored_error r)) (record t { l1 = s })

  -- The loop that forgets the batch in L1.
  unfoldable pub forget_all_l1 :
      List (Key × Bytes) → Option Error → TieredCache S1 S2 B → TieredCache S1 S2 B × Option Error
  forget_all_l1 [] err t = (t, err)
  forget_all_l1 ((key, _) ∷ values) err t =
      let (s, r) = sys.l1.forget key t.l1 in
      forget_all_l1 values (join err r.error) (record t { l1 = s })

  unfoldable pub write_all_l1 :
      List (Key × Bytes) → ℕ → TieredCache S1 S2 B → TieredCache S1 S2 B × Option Error
  write_all_l1 values deadline t =
      let remaining = deadline - now sys t in
      let u = read_clock sys t in
      if ltb 0 remaining then set_all_l1 remaining values none u else forget_all_l1 values none u

  unfoldable pub mark_all : List (Key × Bytes) → TieredCache S1 S2 B → TieredCache S1 S2 B
  mark_all [] t = t
  mark_all ((key, _) ∷ values) t = mark_all values (mark_pending_invalidation sys key t)

  abbrev pub published_or_marked :
      List (Key × Bytes)
      → Option Error
      → TieredCache S1 S2 B
      → TieredCache S1 S2 B × Option Error
      → TieredCache S1 S2 B × Option Error
  published_or_marked whole none t rest = rest
  published_or_marked whole (some e) t rest =
      (degrade_locked sys (some e) true (mark_all whole t), some e)

  -- The loop that publishes the batch; the first error keeps every key of the batch for a retry.
  unfoldable pub publish_all :
      List (Key × Bytes)
      → List (Key × Bytes)
      → TieredCache S1 S2 B
      → TieredCache S1 S2 B × Option Error
  publish_all whole [] t = (t, none)
  publish_all whole ((key, _) ∷ values) t =
      let (u, err) = publish_key_invalidation sys key t in
      published_or_marked whole err u (publish_all whole values u)

  unfoldable pub set_many_committed :
      List (Key × Bytes) → ℕ → TieredCache S1 S2 B → TieredCache S1 S2 B × Reply Bool
  set_many_committed values deadline t =
      let (u, written) = write_all_l1 values deadline (bump_version t) in
      let (v, l1_err) = reconcile sys written u in
      let (w, publish_err) = publish_all values values v in
      finish_marked sys Operation.set_many true l1_err publish_err w

  abbrev pub set_many_answered :
      List (Key × Bytes)
      → ℕ
      → Option Error
      → Bool
      → TieredCache S1 S2 B
      → TieredCache S1 S2 B × Reply Bool
  set_many_answered values deadline (some e) stored t = l2_failed sys false e false t
  set_many_answered values deadline none false t = (t, success false)
  set_many_answered values deadline none true t = set_many_committed values deadline t

  unfoldable pub set_many_locked :
      List (Key × Bytes) → ℕ → TieredCache S1 S2 B → TieredCache S1 S2 B × Reply Bool
  set_many_locked values ttl t =
      let started = now sys t in
      let (s, r) = sys.l2.set_many values ttl t.l2 in
      let u =
        observe (batch Operation.set_many (length values))
          (called_l2 sys Operation.set_many started (s, r) (read_clock sys t)) in
      guarded sys false (refusal sys t) t
        (set_many_answered values (started + ttl) r.error r.result u)

  abbrev pub set_many_values :
      Option (List (Key × Bytes)) → ℕ → TieredCache S1 S2 B → TieredCache S1 S2 B × Reply Bool
  set_many_values none ttl t = (t, failure false nil_value)
  set_many_values (some values) ttl t = set_many_locked values ttl t

  unfoldable pub set_many :
      List (Key × Option Bytes) → Duration → TieredCache S1 S2 B → TieredCache S1 S2 B × Reply Bool
  set_many [] ttl t = (t, if not_positive ttl then failure false invalid_ttl else success false)
  set_many (v ∷ values) ttl t =
      if not_positive ttl
      then (t, failure false invalid_ttl)
      else set_many_values (non_nil (v ∷ values)) (pos_part ttl) t
