-- ===== src/Tiered/Correct/Publish.antt =====
-- What publications and the marks for a retry leave as it was
-- (internal/cache/tiered/invalidation.go).
use frankenphp_tiered_cache.Base.{
  ◌≡◌, refl, Bool, true, false, Option, none, some, arith, length, if◌then◌else◌,
}
use frankenphp_tiered_cache.Base.Dict.{Key, insert, insert-Distinct}
use frankenphp_tiered_cache.Contract.{Error}
use frankenphp_tiered_cache.Observability.Observation.{pending_invalidations}
use frankenphp_tiered_cache.Tiered.State.{System, TieredCache, observe}
use frankenphp_tiered_cache.Tiered.Health.{degrade_locked}
use frankenphp_tiered_cache.Tiered.Publish.{
  publish_key_invalidation, publish_flush_invalidation, mark_pending_invalidation,
  mark_pending_flush, or_mark_key, or_mark_flush, publish_or_mark, publish_flush_or_mark,
}
use frankenphp_tiered_cache.Tiered.Correct.Keeps.{
  IsQueue, Keeps, Keeps-refl, Keeps-trans, Keeps-if, Falls-Keeps, degrade_locked-Falls,
}

module _ {S1 S2 B : Type 0} (sys : System S1 S2 B) where
  pub publish_key-Keeps :
      (key : Key) (t : TieredCache S1 S2 B) → Keeps t (publish_key_invalidation sys key t).0
  unfolding publish_key_invalidation
  publish_key-Keeps key t = Keeps-if sys.has_bus t _ _ (Keeps-refl t) (Keeps-refl t)

  pub publish_flush-Keeps : (t : TieredCache S1 S2 B) → Keeps t (publish_flush_invalidation sys t).0
  unfolding publish_flush_invalidation
  publish_flush-Keeps t = Keeps-if sys.has_bus t _ _ (Keeps-refl t) (Keeps-refl t)

  -- A marked key makes a cache unsound that is not degraded right after.
  abbrev pub Marks : TieredCache S1 S2 B → TieredCache S1 S2 B → Type 0
  Marks t u =
      (u.l2 ≡ t.l2)
      × (u.mutation_version ≡ t.mutation_version)
      × (u.is_closed ≡ t.is_closed)
      × (IsQueue t → IsQueue u)

  Marks-if :
      (b : Bool) (t u v : TieredCache S1 S2 B)
      → Marks t u
      → Marks t v
      → Marks t (if b then u else v)
  Marks-if true t u v left right = left
  Marks-if false t u v left right = right

  pub mark_pending_invalidation-Marks :
      (key : Key) (t : TieredCache S1 S2 B) → Marks t (mark_pending_invalidation sys key t)
  unfolding mark_pending_invalidation
  mark_pending_invalidation-Marks key t =
      let same : Marks t t = (refl, refl, refl, λ d. d) in
      Marks-if sys.has_bus t _ t (inserted t.pending_flush refl) same
    where
      inserted :
          (b : Bool)
          → t.pending_flush ≡ b
          → Marks t (
              if b
              then t
              else observe
                  (pending_invalidations (length (insert key tt t.pending_invalidations)))
                  (record t { pending_invalidations = insert key tt t.pending_invalidations }))
      inserted true e = (refl, refl, refl, λ q. q)
      inserted false e = (
        refl,
        refl,
        refl,
        λ q. (insert-Distinct key tt t.pending_invalidations q.0, λ f. ground (arith, e, f)),
      )

  pub mark_pending_flush-Marks : (t : TieredCache S1 S2 B) → Marks t (mark_pending_flush sys t)
  unfolding mark_pending_flush
  mark_pending_flush-Marks t =
      Marks-if sys.has_bus t _ t (refl, refl, refl, λ d. (tt, λ f. refl)) (refl, refl, refl, λ d. d)

  pub marked-Keeps :
      (t u : TieredCache S1 S2 B) (e : Error)
      → Marks t u
      → Keeps t (degrade_locked sys (some e) true u)
  marked-Keeps t u e (l2, version, shut, keys) =
      Falls-Keeps t u (degrade_locked sys (some e) true u) l2 version shut keys
        (degrade_locked-Falls sys (some e) true u)

  or_mark_key-Keeps :
      (key : Key) (t : TieredCache S1 S2 B) (err : Option Error)
      → Keeps t (or_mark_key sys key (t, err)).0
  or_mark_key-Keeps key t none = Keeps-refl t
  or_mark_key-Keeps key t (some e) =
      marked-Keeps t (mark_pending_invalidation sys key t) e (mark_pending_invalidation-Marks key t)

  or_mark_flush-Keeps :
      (t : TieredCache S1 S2 B) (err : Option Error) → Keeps t (or_mark_flush sys (t, err)).0
  or_mark_flush-Keeps t none = Keeps-refl t
  or_mark_flush-Keeps t (some e) =
      marked-Keeps t (mark_pending_flush sys t) e (mark_pending_flush-Marks t)

  pub publish_or_mark-Keeps :
      (key : Key) (t : TieredCache S1 S2 B) → Keeps t (publish_or_mark sys key t).0
  unfolding publish_or_mark
  publish_or_mark-Keeps key t =
      let sent = publish_key_invalidation sys key t in
      Keeps-trans t sent.0 (or_mark_key sys key sent).0 (publish_key-Keeps key t)
        (or_mark_key-Keeps key sent.0 sent.1)

  pub publish_flush_or_mark-Keeps :
      (t : TieredCache S1 S2 B) → Keeps t (publish_flush_or_mark sys t).0
  unfolding publish_flush_or_mark
  publish_flush_or_mark-Keeps t =
      let sent = publish_flush_invalidation sys t in
      Keeps-trans t sent.0 (or_mark_flush sys sent).0 (publish_flush-Keeps t)
        (or_mark_flush-Keeps sent.0 sent.1)
