-- ===== src/Tiered/Correct/Mutate.antt =====
-- `Set`, `Forever`, `Add`, `Forget`, `Touch` and the counters of `TieredCache`: every outcome of a
-- mutation of one key (internal/cache/tiered/mutations.go).
use frankenphp_tiered_cache.Base.{
  ℕ, ◌≡◌, refl, ◌∙◌, Bool, true, false, Option, none, some, arith, if◌then◌else◌,
}
use frankenphp_tiered_cache.Base.Word.{add64}
use frankenphp_tiered_cache.Base.Dict.{Key}
use frankenphp_tiered_cache.Contract.{
  Bytes, Error, Reply, Sentinel, is_error, success, join, l2_unavailable,
}
use frankenphp_tiered_cache.Observability.Observation.{Operation}
use frankenphp_tiered_cache.Tiered.State.{
  System, TieredCache, bump_version, now, read_clock, unavailable, unavailable_error, refusal,
  observe_l2,
}
use frankenphp_tiered_cache.Tiered.Health.{degrade_locked, reconcile}
use frankenphp_tiered_cache.Tiered.Publish.{publish_or_mark}
use frankenphp_tiered_cache.Tiered.Commit.{
  guarded, l2_failed, called_l2, write_l1, observe_post_commit,
}
use frankenphp_tiered_cache.Tiered.Set.{
  set_operation, set_l2, deadline_of, finish_set, set_committed, set_answered, set_locked,
}
use frankenphp_tiered_cache.Tiered.Correct.Keeps.{degrade_locked-Falls, write_l1-Keeps}
use frankenphp_tiered_cache.Tiered.Correct.Settle.{Told, Fresh, settles}

-- An error, if any, that `errors.Is` finds to be `s`; `is_marked` asks for an error.
abbrev pub is_only : Sentinel → Option Error → Bool
is_only s none = true
is_only s (some e) = is_error e s

abbrev pub is_marked : Sentinel → Option Error → Bool
is_marked s none = false
is_marked s (some e) = is_error e s

module _ {S1 S2 B : Type 0} (sys : System S1 S2 B) where
  -- Redis failed: nothing is written, the cache is degraded, and the answer says so.
  abbrev pub Fails :
      {A : Type 0} → A → S2 → TieredCache S1 S2 B → TieredCache S1 S2 B × Reply A → Type 0
  Fails nothing s t p =
      (p.0.degraded ≡ true)
      × (p.0.l2 ≡ s)
      × (p.0.mutation_version ≡ t.mutation_version)
      × (p.1.result ≡ nothing)
      × (is_marked l2_unavailable p.1.error ≡ true)

  -- Redis changed the key and L1 answered `err` in state `u`: the version is the next one, and the
  -- tail has run.
  abbrev pub Commits :
      Key
      → S2
      → TieredCache S1 S2 B
      → Option Error
      → TieredCache S1 S2 B
      → TieredCache S1 S2 B
      → Type 0
  Commits key s t err u v =
      (v.l2 ≡ s)
      × (v.mutation_version ≡ add64 t.mutation_version 1)
      × Told sys key u.bus v
      × Fresh sys err u v

  unavailable-Marked : (cause : Option Error) → is_error (unavailable cause) l2_unavailable ≡ true
  unfolding is_error
  unavailable-Marked none = refl
  unavailable-Marked (some e) = refl

  degraded_error :
      (t : TieredCache S1 S2 B)
      → t.degraded ≡ true
      → is_marked l2_unavailable (unavailable_error sys t) ≡ true
  unfolding unavailable_error
  degraded_error t down = go t.degraded down
    where
      go :
          (b : Bool)
          → b ≡ true
          → is_marked l2_unavailable (
              if if b then false else if sys.has_bus then t.invalidation_ready else true
              then none
              else some (unavailable t.state_err))
            ≡ true
      go false h = ground (arith, h)
      go true h = unavailable-Marked t.state_err

  pub l2_failed-Fails :
      {A : Type 0} (nothing : A) (e : Error) (flush : Bool) (t : TieredCache S1 S2 B)
      → Fails nothing t.l2 t (l2_failed sys nothing e flush t)
  l2_failed-Fails nothing e flush t =
      let (l2, version, _, down, _, _, _) = degrade_locked-Falls sys (some e) flush t in
      (down, l2, version, refl, degraded_error (degrade_locked sys (some e) flush t) down)

  -- The outcome of a mutation, from what the two checks and Redis answered.
  abbrev pub Outcome :
      {A : Type 0}
      → A
      → S2
      → Option Error
      → Option Error
      → TieredCache S1 S2 B
      → (TieredCache S1 S2 B × Reply A → Type 0)
      → TieredCache S1 S2 B × Reply A
      → Type 0
  Outcome nothing s (some e) err t done p = p ≡ (t, record { result = nothing; error = some e })
  Outcome nothing s none (some e) t done p = Fails nothing s t p
  Outcome nothing s none none t done p = done p

  -- Redis declined the change: L1 and the version stay.
  abbrev pub Declines : S2 → TieredCache S1 S2 B → TieredCache S1 S2 B × Reply Bool → Type 0
  Declines s t p =
      (p.1 ≡ success false)
      × (p.0.l2 ≡ s)
      × (p.0.l1 ≡ t.l1)
      × (p.0.mutation_version ≡ t.mutation_version)

  -- The cache when Redis has answered `s` to a call that began at this state.
  abbrev pub answered :
      {A : Type 0} → Operation → S2 × Reply A → TieredCache S1 S2 B → TieredCache S1 S2 B
  answered op (s, r) t = called_l2 sys op (now sys t) (s, r) (read_clock sys t)

  pub guarded-Outcome :
      {A : Type 0} (nothing : A) (s : S2) (err : Option Error) (refused : Option Error)
      (t : TieredCache S1 S2 B) (done : TieredCache S1 S2 B × Reply A → Type 0)
      (rest : TieredCache S1 S2 B × Reply A)
      → Outcome nothing s none err t done rest
      → Outcome nothing s refused err t done (guarded sys nothing refused t rest)
  guarded-Outcome nothing s err none t done rest h = h
  guarded-Outcome nothing s err (some e) t done rest h = refl

  pub settled_commit :
      (key : Key) (op : Operation) (s : S2) (t u : TieredCache S1 S2 B) (err : Option Error)
      → u.l2 ≡ s
      → u.mutation_version ≡ add64 t.mutation_version 1
      → Commits key s t err u (publish_or_mark sys key (reconcile sys err u).0).0
  settled_commit key op s t u err l2 version =
      let settled = settles sys key err u in
      (settled.0.0 ∙ l2, settled.0.1 ∙ version, settled.1, settled.2)

  pub write_l1-Commits :
      (key : Key) (value : Bytes) (deadline : Option ℕ) (op : Operation) (t u : TieredCache S1 S2 B)
      → u.mutation_version ≡ t.mutation_version
      → let w = write_l1 sys key value deadline (bump_version u) in
        Commits key u.l2 t w.1 w.0 (publish_or_mark sys key (reconcile sys w.1 w.0).0).0
  write_l1-Commits key value deadline op t u version =
      let w = write_l1 sys key value deadline (bump_version u) in
      let keeps = write_l1-Keeps sys key value deadline (bump_version u) in
      settled_commit key op u.l2 t w.0 w.1 keeps.0 (keeps.1 ∙ (rw version refl))

  -- The outcomes of `Set` and `Forever`, by what Redis answers.
  abbrev pub SetOutcome :
      Key → Bytes → Option ℕ → TieredCache S1 S2 B → TieredCache S1 S2 B × Reply Bool → Type 0
  SetOutcome key value ttl t p =
      let call = set_l2 sys key value ttl t.l2 in
      let u = answered (set_operation sys ttl) call t in
      let w = write_l1 sys key value (deadline_of sys (now sys t) ttl) (bump_version u) in
      Outcome false call.0 (refusal sys t) call.1.error t
        (λ q.
          if call.1.result
          then (q.1.result ≡ true) × Commits key call.0 t w.1 w.0 q.0
          else Declines call.0 t q)
        p

  pub observed-Commits :
      (op : Operation) (cause : Option Error) (key : Key) (s : S2) (t : TieredCache S1 S2 B)
      (err : Option Error) (u v : TieredCache S1 S2 B)
      → Commits key s t err u v
      → Commits key s t err u (observe_post_commit sys op cause v)
  observed-Commits op none key s t err u v h = h
  observed-Commits op (some e) key s t err u v h = h

  finish_set-Commits :
      (op : Operation) (key : Key) (s : S2) (t : TieredCache S1 S2 B) (err : Option Error)
      (u : TieredCache S1 S2 B) (l1_err publish_err : Option Error) (v : TieredCache S1 S2 B)
      → Commits key s t err u v
      → let p = finish_set sys op l1_err publish_err v in
        (p.1.result ≡ true) × Commits key s t err u p.0
  finish_set-Commits op key s t err u none none v h = (refl, h)
  finish_set-Commits op key s t err u none (some e) v h =
      (refl, observed-Commits op (join none (unavailable_error sys v)) key s t err u v h)
  finish_set-Commits op key s t err u (some f) publish_err v h =
      (refl, observed-Commits op (join (some f) (unavailable_error sys v)) key s t err u v h)

  set_answered-Outcome :
      (key : Key) (value : Bytes) (deadline : Option ℕ) (op : Operation) (err : Option Error)
      (stored : Bool) (t u : TieredCache S1 S2 B)
      → u.mutation_version ≡ t.mutation_version
      → u.l1 ≡ t.l1
      → let p = set_answered sys key value deadline op err stored u in
        let w = write_l1 sys key value deadline (bump_version u) in
        Outcome false u.l2 none err t
          (λ q.
            if stored
            then (q.1.result ≡ true) × Commits key u.l2 t w.1 w.0 q.0
            else Declines u.l2 t q)
          p
  unfolding set_committed
  set_answered-Outcome key value deadline op (some e) stored t u version same =
      let (down, l2, kept, nothing, marked) = l2_failed-Fails false e false u in
      (down, l2, kept ∙ version, nothing, marked)
  set_answered-Outcome key value deadline op none false t u version same =
      (refl, refl, same, version)
  set_answered-Outcome key value deadline op none true t u version same =
      let w = write_l1 sys key value deadline (bump_version u) in
      let v = reconcile sys w.1 w.0 in
      let x = publish_or_mark sys key v.0 in
      finish_set-Commits op key u.l2 t w.1 w.0 v.1 x.1 x.0
        (write_l1-Commits key value deadline op t u version)

  -- `Set` (with a TTL) and `Forever` (without): a closed or unavailable cache answers that error and
  -- stays as it is; if Redis fails, the answer is false with an error that is `ErrL2Unavailable`, the
  -- cache is degraded, and the version stays; if Redis declines, the answer is false, L1 and the version
  -- stay; if Redis has stored the value, the answer is true, the version is the next one, Redis stays as
  -- that call left it, L1 holds what its write without an error left or has been flushed without an error
  -- or the cache is degraded, and the other instances have been told or the cache is degraded with the
  -- key waiting for a retry.
  pub set_locked-Outcome :
      (key : Key) (value : Bytes) (ttl : Option ℕ) (t : TieredCache S1 S2 B)
      → SetOutcome key value ttl t (set_locked sys key value ttl t)
  unfolding set_locked observe_l2
  set_locked-Outcome key value ttl t =
      let call = set_l2 sys key value ttl t.l2 in
      let op = set_operation sys ttl in
      let u = answered op call t in
      let deadline = deadline_of sys (now sys t) ttl in
      guarded-Outcome false call.0 call.1.error (refusal sys t) t _ _
        (set_answered-Outcome key value deadline op call.1.error call.1.result t u refl refl)
