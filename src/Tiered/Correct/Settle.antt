-- ===== src/Tiered/Correct/Settle.antt =====
-- The tail of every change of a key in `TieredCache` after Redis has made it: an error of L1 is
-- repaired, and the other instances are told (internal/cache/tiered/mutations.go and
-- invalidation.go).
use frankenphp_tiered_cache.Base.{
  ◌≡◌, refl, ◌∙◌, ◌⊎◌, inl, inr, Bool, true, false, Option, none, some, arith, if◌then◌else◌,
}
use frankenphp_tiered_cache.Base.Dict.{Key, key_eq_refl, lookup, insert, lookup-insert}
use frankenphp_tiered_cache.Contract.{Error, joined}
use frankenphp_tiered_cache.Observability.Observation.{
  l1_flush_fallback, fallback_failure, l1_mutation_error, key_invalidation,
}
use frankenphp_tiered_cache.Tiered.State.{System, TieredCache, observe}
use frankenphp_tiered_cache.Tiered.Health.{flush_l1, degrade_locked, reconciled, reconcile}
use frankenphp_tiered_cache.Tiered.Publish.{
  key_event, publish_event, publish_key_invalidation, mark_pending_invalidation, or_mark_key,
  publish_or_mark,
}
use frankenphp_tiered_cache.Tiered.Correct.Keeps.{
  Keeps, Keeps-trans, Falls, degrade_locked-Falls, reconcile-Keeps,
}
use frankenphp_tiered_cache.Tiered.Correct.Publish.{publish_or_mark-Keeps}

module _ {S1 S2 B : Type 0} (sys : System S1 S2 B) where
  -- The key waits for a retry, alone or with every key.
  abbrev pub Waits : Key → TieredCache S1 S2 B → Type 0
  Waits key t = (t.pending_flush ≡ true) ⊎ (lookup key t.pending_invalidations ≡ some tt)

  -- With the bus in state `b`: nobody is to be told, or the event was published, or the cache is
  -- degraded and the key waits.
  abbrev pub Told : Key → B → TieredCache S1 S2 B → Type 0
  Told key b u =
      (sys.has_bus ≡ false)
      ⊎ ((sys.bus.publish (key_event sys key) b).1 ≡ none)
      ⊎ ((u.degraded ≡ true) × Waits key u)

  -- After a change of L1 that answered `err` in state `t`: the change stands, or L1 was flushed
  -- instead, or the cache is degraded.
  abbrev pub Fresh : Option Error → TieredCache S1 S2 B → TieredCache S1 S2 B → Type 0
  Fresh err t u =
      (u.degraded ≡ true)
      ⊎ ((err ≡ none) × (u.l1 ≡ t.l1))
      ⊎ (((flush_l1 sys t).1.error ≡ none) × (u.l1 ≡ (flush_l1 sys t).0.l1))

  abbrev pub Settled : Key → Option Error → TieredCache S1 S2 B → TieredCache S1 S2 B → Type 0
  Settled key err t u = Keeps t u × Told key t.bus u × Fresh err t u

  Waits-if :
      (key : Key) (b : Bool) (u v : TieredCache S1 S2 B)
      → (b ≡ true → Waits key u)
      → (b ≡ false → Waits key v)
      → Waits key (if b then u else v)
  Waits-if key true u v left right = left refl
  Waits-if key false u v left right = right refl

  mark_pending_invalidation-Waits :
      (key : Key) (t : TieredCache S1 S2 B)
      → sys.has_bus ≡ true
      → Waits key (mark_pending_invalidation sys key t)
  unfolding mark_pending_invalidation
  mark_pending_invalidation-Waits key t on =
      let found : lookup key (insert key tt t.pending_invalidations) ≡ some tt =
        lookup-insert key key tt t.pending_invalidations ∙ (rw (key_eq_refl key)) in
      Waits-if key sys.has_bus _ t
        (λ e. Waits-if key t.pending_flush t _ (λ f. inl f) (λ f. inr found))
        λ off. ground (arith, on, off)

  Waits-Falls : (key : Key) (t u : TieredCache S1 S2 B) → Falls t u → Waits key t → Waits key u
  Waits-Falls key t u (_, _, _, _, keys, flushes, _) (inl h) = inl (flushes ∙ h)
  Waits-Falls key t u (_, _, _, _, keys, flushes, _) (inr h) = inr (rw keys h)

  -- A publication that failed leaves the cache degraded and the key waiting.
  or_mark_key-Waits :
      (key : Key) (t : TieredCache S1 S2 B) (err : Option Error)
      → sys.has_bus ≡ true
      → (err ≡ none)
        ⊎ (((or_mark_key sys key (t, err)).0.degraded ≡ true)
            × Waits key (or_mark_key sys key (t, err)).0)
  or_mark_key-Waits key t none on = inl refl
  or_mark_key-Waits key t (some e) on =
      let marked = mark_pending_invalidation sys key t in
      let falls = degrade_locked-Falls sys (some e) true marked in
      inr (
        falls.3,
        Waits-Falls key marked (degrade_locked sys (some e) true marked) falls
            (mark_pending_invalidation-Waits key t on),
      )

  sent-Told :
      (key : Key) (t : TieredCache S1 S2 B) (on : Bool)
      → sys.has_bus ≡ on
      → Told key t.bus
          (or_mark_key sys key
            (if on then publish_event sys (key_event sys key) key_invalidation t else (t, none))).0
  sent-Told key t true on =
      let sent = publish_event sys (key_event sys key) key_invalidation t in
      inr (or_mark_key-Waits key sent.0 sent.1 on)
  sent-Told key t false off = inl off

  pub publish_or_mark-Told :
      (key : Key) (t : TieredCache S1 S2 B) → Told key t.bus (publish_or_mark sys key t).0
  unfolding publish_or_mark publish_key_invalidation
  publish_or_mark-Told key t = sent-Told key t sys.has_bus refl

  or_mark_key-l1 :
      (key : Key) (t : TieredCache S1 S2 B) (err : Option Error)
      → ((or_mark_key sys key (t, err)).0.degraded ≡ true)
        ⊎ ((or_mark_key sys key (t, err)).0.l1 ≡ t.l1)
  or_mark_key-l1 key t none = inr refl
  or_mark_key-l1 key t (some e) =
      inl (degrade_locked-Falls sys (some e) true (mark_pending_invalidation sys key t)).3

  sent-l1 :
      (key : Key) (t : TieredCache S1 S2 B) (on : Bool)
      → (if on then publish_event sys (key_event sys key) key_invalidation t else (t, none)).0.l1
        ≡ t.l1
  sent-l1 key t true = refl
  sent-l1 key t false = refl

  publish_or_mark-l1 :
      (key : Key) (t : TieredCache S1 S2 B)
      → ((publish_or_mark sys key t).0.degraded ≡ true) ⊎ ((publish_or_mark sys key t).0.l1 ≡ t.l1)
  unfolding publish_or_mark publish_key_invalidation
  publish_or_mark-l1 key t =
      let sent =
        if sys.has_bus
        then publish_event sys (key_event sys key) key_invalidation t
        else (t, none) in
      elim (or_mark_key-l1 key sent.0 sent.1) [
        | inl down ↦ inl down
        | inr same ↦ inr (same ∙ sent-l1 key t sys.has_bus)
      ]

  reconciled-Fresh :
      (e : Error) (t u : TieredCache S1 S2 B) (f : Option Error)
      → u.l1 ≡ (flush_l1 sys t).0.l1
      → (flush_l1 sys t).1.error ≡ f
      → Fresh (some e) t (reconciled sys e u f).0 × ((reconciled sys e u f).0.bus ≡ u.bus)
  reconciled-Fresh e t u none same answered = (inr (inr (answered, same)), refl)
  reconciled-Fresh e t u (some f) same answered =
      let failed = observe (l1_flush_fallback fallback_failure) u in
      let (_, _, _, down, _, _, bus) = degrade_locked-Falls sys (some (joined e f)) false failed in
      (inl down, bus)

  reconcile-Fresh :
      (err : Option Error) (t : TieredCache S1 S2 B)
      → Fresh err t (reconcile sys err t).0 × ((reconcile sys err t).0.bus ≡ t.bus)
  unfolding reconcile flush_l1
  reconcile-Fresh none t = (inr (inl (refl, refl)), refl)
  reconcile-Fresh (some e) t =
      let flushed = flush_l1 sys (observe l1_mutation_error t) in
      reconciled-Fresh e t flushed.0 flushed.1.error refl refl

  Fresh-publish :
      (key : Key) (err : Option Error) (t v : TieredCache S1 S2 B)
      → Fresh err t v
      → Fresh err t (publish_or_mark sys key v).0
  Fresh-publish key err t v (inl down) = inl ((publish_or_mark-Keeps sys key v).4 down)
  Fresh-publish key err t v (inr (inl (fine, same))) = elim (publish_or_mark-l1 key v) [
    | inl down ↦ inl down
    | inr kept ↦ inr (inl (fine, kept ∙ same))
  ]
  Fresh-publish key err t v (inr (inr (fine, same))) = elim (publish_or_mark-l1 key v) [
    | inl down ↦ inl down
    | inr kept ↦ inr (inr (fine, kept ∙ same))
  ]

  Told-bus : (key : Key) (b c : B) (u : TieredCache S1 S2 B) → b ≡ c → Told key b u → Told key c u
  Told-bus key b c u same told = rw⁻¹ same told

  pub settles :
      (key : Key) (err : Option Error) (t : TieredCache S1 S2 B)
      → Settled key err t (publish_or_mark sys key (reconcile sys err t).0).0
  settles key err t =
      let v = (reconcile sys err t).0 in
      let (fresh, bus) = reconcile-Fresh err t in
      (
        Keeps-trans t v (publish_or_mark sys key v).0 (reconcile-Keeps sys err t)
            (publish_or_mark-Keeps sys key v),
        Told-bus key v.bus t.bus (publish_or_mark sys key v).0 bus (publish_or_mark-Told key v),
        Fresh-publish key err t v fresh,
      )
