-- ===== src/Tiered/Correct/Events.antt =====
-- The invalidations that `TieredCache` receives, and the reads that are under way then
-- (internal/cache/tiered/invalidation.go and read.go).
use frankenphp_tiered_cache.Base.{
  ℕ, ◌≡◌, refl, ap, sym, ◌∙◌, ◌≢◌, Bool, true, false, Option, none, some, arith, if◌then◌else◌,
}
use frankenphp_tiered_cache.Base.Word.{add64}
use frankenphp_tiered_cache.Base.Dict.{Key, key_eq}
use frankenphp_tiered_cache.Contract.{Bytes, Error, Reply, sentinel, closed}
use frankenphp_tiered_cache.Invalidation.{
  Event, EventType, EventError, invalidate, flush, other, validate,
}
use frankenphp_tiered_cache.Observability.Observation.{
  invalidation, received, ignored_self, subscriber_error, stage_subscribe, stage_receive,
  stage_apply,
}
use frankenphp_tiered_cache.Tiered.State.{System, TieredCache, observe, bump_version, now, refusal}
use frankenphp_tiered_cache.Tiered.Health.{flush_l1, degrade_and_flush}
use frankenphp_tiered_cache.Tiered.Commit.{write_l1}
use frankenphp_tiered_cache.Tiered.Set.{set_operation, set_l2, deadline_of, set_locked}
use frankenphp_tiered_cache.Tiered.Read.{Fetched, GetStep, retry, failed, get_finish}
use frankenphp_tiered_cache.Tiered.Subscriber.{
  SubscriberEvent, subscribing, subscribe_failed, subscribed, receive_failed, event_received, label,
  apply_to_l1, noted, apply_valid, apply_invalidation, flush_local_l1, set_ready, unless_closed,
  after_initial_flush, after_event, subscriber_step,
}
use frankenphp_tiered_cache.Tiered.Correct.Keeps.{
  IsSound, Safe, Keeps, degrade_and_flush-Keeps, forget_l1-Keeps, flush_l1-Keeps,
}
use frankenphp_tiered_cache.Tiered.Correct.Reads.{get_finish_stale}
use frankenphp_tiered_cache.Tiered.Correct.Mutate.{
  Outcome, Commits, Declines, answered, set_locked-Outcome,
}

add64_ne : (v : ℕ) → v ≢ add64 v 1
unfolding add64
add64_ne v h = omega arith

module _ {S1 S2 B : Type 0} (sys : System S1 S2 B) where
  -- A change of the version discards the reads of L2 that began before it.
  bumped_discards :
      (key : Key) (f : Fetched) (t u : TieredCache S1 S2 B)
      → f.version ≡ t.mutation_version
      → u.mutation_version ≡ add64 t.mutation_version 1
      → get_finish sys key f u ≡ (u, if u.is_closed then failed (sentinel closed) else retry)
  bumped_discards key f t u began bumped =
      get_finish_stale sys key f u λ h. add64_ne t.mutation_version (sym began ∙ h ∙ bumped)

  committed_version :
      (key : Key) (s : S2) (t : TieredCache S1 S2 B) (err : Option Error) (u : TieredCache S1 S2 B)
      (p : TieredCache S1 S2 B × Reply Bool) (refused l2_err : Option Error) (stored : Bool)
      → refused ≡ none
      → l2_err ≡ none
      → stored ≡ true
      → Outcome sys false s refused l2_err t
          (λ q.
            if stored
            then (q.1.result ≡ true) × Commits sys key s t err u q.0
            else Declines sys s t q)
          p
      → p.0.mutation_version ≡ add64 t.mutation_version 1
  committed_version key s t err u p none none true serves fine kept (_, commits) = commits.1
  committed_version key s t err u p none none false serves fine kept outcome = ground (arith, kept)
  committed_version key s t err u p none (some e) stored serves fine kept outcome =
      ground (arith, fine)
  committed_version key s t err u p (some e) l2_err stored serves fine kept outcome =
      ground (arith, serves)

  -- After a `Set` or `Forever` whose value Redis has stored without an error, in a cache that is open
  -- and available, what a `Get` of any key has read from Redis at the version before it is not used:
  -- the state stays, and the read starts again unless the cache is closed.
  pub set_locked_discards :
      (key j : Key) (value : Bytes) (ttl : Option ℕ) (f : Fetched) (t : TieredCache S1 S2 B)
      → refusal sys t ≡ none
      → (set_l2 sys key value ttl t.l2).1 ≡ record { result = true; error = none }
      → f.version ≡ t.mutation_version
      → let u = (set_locked sys key value ttl t).0 in
        get_finish sys j f u ≡ (u, if u.is_closed then failed (sentinel closed) else retry)
  set_locked_discards key j value ttl f t serves stored began =
      let call = set_l2 sys key value ttl t.l2 in
      let u = answered sys (set_operation sys ttl) call t in
      let w = write_l1 sys key value (deadline_of sys (now sys t) ttl) (bump_version u) in
      bumped_discards j f t (set_locked sys key value ttl t).0 began (
        committed_version key (set_l2 sys key value ttl t.l2).0 t w.1 w.0
          (set_locked sys key value ttl t) (refusal sys t) call.1.error call.1.result serves
          (ap (λ r. r.error) stored) (ap (λ r. r.result) stored)
          (set_locked-Outcome sys key value ttl t))

  applied-Keeps :
      (event : Event) (typ : EventType) (t : TieredCache S1 S2 B)
      → Keeps t (apply_to_l1 sys event typ t).0
  applied-Keeps event flush t = flush_l1-Keeps sys t
  applied-Keeps event invalidate t = forget_l1-Keeps sys event.key t
  applied-Keeps event other t = forget_l1-Keeps sys event.key t

  applied_version :
      (event : Event) (own shut : Bool) (t : TieredCache S1 S2 B)
      → own ≡ false
      → shut ≡ false
      → let u =
          (if own
            then (observe (invalidation received (label event.event_type) ignored_self) t, none)
            else if shut
            then (t, some (sentinel closed))
            else noted sys event.event_type
                (apply_to_l1 sys event event.event_type (bump_version t))).0 in
        (u.mutation_version ≡ add64 t.mutation_version 1) × (u.is_closed ≡ t.is_closed)
  applied_version event false false t remote alive =
      let keeps = applied-Keeps event event.event_type (bump_version t) in (keeps.1, keeps.2)
  applied_version event true shut t remote alive = ground (arith, remote)
  applied_version event false true t remote alive = ground (arith, alive)

  closed_retry :
      (u : TieredCache S1 S2 B) (shut : Bool)
      → shut ≡ false
      → let p : TieredCache S1 S2 B × GetStep =
          (u, if shut then failed (sentinel closed) else retry) in
        p ≡ (u, retry)
  closed_retry u false h = refl
  closed_retry u true h = ground (arith, h)

  -- After a valid event of another instance has reached a cache that is not closed, what a `Get` has
  -- read from Redis at the version before it is not used: the state stays, and the read starts again.
  pub apply_invalidation_discards :
      (event : Event) (j : Key) (f : Fetched) (t : TieredCache S1 S2 B)
      → validate event ≡ none
      → key_eq event.origin sys.origin ≡ false
      → t.is_closed ≡ false
      → f.version ≡ t.mutation_version
      → let u = (apply_invalidation sys event t).0 in get_finish sys j f u ≡ (u, retry)
  unfolding apply_invalidation
  apply_invalidation_discards event j f t valid remote alive began =
      let u = (apply_valid sys event none t).0 in
      let (bumped, same) =
        applied_version event (key_eq event.origin sys.origin) t.is_closed t remote alive in
      let shut : u.is_closed ≡ false = same ∙ alive in
      rw valid (bumped_discards j f t u began bumped ∙ closed_retry u u.is_closed shut)

  set_ready-Safe : (b : Bool) (t : TieredCache S1 S2 B) → Safe t (set_ready sys b t)
  set_ready-Safe b t sound = sound

  unless_closed-Safe :
      (s t u : TieredCache S1 S2 B) → Safe s t → Safe s u → Safe s (unless_closed sys t u)
  unless_closed-Safe s t u left right = go t.is_closed
    where
      go : (b : Bool) → Safe s (if b then t else u)
      go true = left
      go false = right

  falls-Safe :
      (e : Error) (t u : TieredCache S1 S2 B) → Safe t u → Safe t (degrade_and_flush sys (some e) u)
  falls-Safe e t u safe sound = (degrade_and_flush-Keeps sys (some e) u).3 (safe sound)

  after_initial_flush-Safe :
      (t u : TieredCache S1 S2 B) (err : Option Error)
      → Safe t u
      → Safe t (after_initial_flush sys (u, err))
  after_initial_flush-Safe t u none safe = safe
  after_initial_flush-Safe t u (some e) safe =
      unless_closed-Safe t u (degrade_and_flush sys (some e) u) safe (falls-Safe e t u safe)

  after_event-Safe :
      (t u : TieredCache S1 S2 B) (err : Option Error)
      → Safe t u
      → Safe t (after_event sys (u, err))
  after_event-Safe t u none safe = safe
  after_event-Safe t u (some e) safe =
      let v = set_ready sys false u in
      unless_closed-Safe t v _ safe (falls-Safe e t (observe (subscriber_error stage_apply) v) safe)

  flush_local_l1-Safe : (t : TieredCache S1 S2 B) → Safe t (flush_local_l1 sys t).0
  unfolding flush_local_l1 flush_l1
  flush_local_l1-Safe t sound = go t.is_closed
    where
      go :
          (b : Bool)
          → let flushed = flush_l1 sys (bump_version t) in
            let p : TieredCache S1 S2 B × Option Error =
              if b then (t, some (sentinel closed)) else (flushed.0, flushed.1.error) in
            IsSound p.0
      go true = sound
      go false = sound

  applied-Safe :
      (event : Event) (verdict : Option EventError) (t : TieredCache S1 S2 B)
      → Safe t (apply_valid sys event verdict t).0
  applied-Safe event (some e) t sound = sound
  applied-Safe event none t sound = go (key_eq event.origin sys.origin) t.is_closed
    where
      go :
          (own shut : Bool)
          → IsSound
              (if own
                then (observe (invalidation received (label event.event_type) ignored_self) t, none)
                else if shut
                then (t, some (sentinel closed))
                else noted sys event.event_type
                    (apply_to_l1 sys event event.event_type (bump_version t))).0
      go true shut = sound
      go false true = sound
      go false false = (applied-Keeps event event.event_type (bump_version t)).3 sound

  -- The loop of the subscriber keeps soundness, whatever the bus answers.
  pub subscriber_step-Safe :
      (event : SubscriberEvent) (t : TieredCache S1 S2 B) → Safe t (subscriber_step sys event t)
  unfolding subscriber_step apply_invalidation
  subscriber_step-Safe subscribing t =
      unless_closed-Safe t t (set_ready sys false t) (λ s. s) (λ s. s)
  subscriber_step-Safe (subscribe_failed e) t =
      unless_closed-Safe t t _ (λ s. s)
        (falls-Safe e t (observe (subscriber_error stage_subscribe) t) λ s. s)
  subscriber_step-Safe subscribed t =
      let flushed = flush_local_l1 sys t in
      after_initial_flush-Safe t flushed.0 flushed.1 (flush_local_l1-Safe t)
  subscriber_step-Safe (receive_failed e) t =
      let u = set_ready sys false t in
      unless_closed-Safe t u _ (λ s. s)
        (falls-Safe e t (observe (subscriber_error stage_receive) u) λ s. s)
  subscriber_step-Safe (event_received event) t =
      let applied = apply_valid sys event (validate event) t in
      after_event-Safe t applied.0 applied.1 (applied-Safe event (validate event) t)
