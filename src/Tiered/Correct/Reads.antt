-- ===== src/Tiered/Correct/Reads.antt =====
-- `Get` of `TieredCache` (internal/cache/tiered/read.go).
use frankenphp_tiered_cache.Base.{
  ℕ, ◌-◌, ◌==◌, ◌≡◌, refl, Bool, true, false, Option, none, some, ltb, if◌then◌else◌, ==_iff, ◌≢◌,
}
use frankenphp_tiered_cache.Base.Dict.{Key}
use frankenphp_tiered_cache.Contract.{Error, Item, sentinel, closed}
use frankenphp_tiered_cache.Tiered.State.{
  System, TieredCache, now, refusal, unavailable_error, observe_l2,
}
use frankenphp_tiered_cache.Tiered.Read.{
  Fetched, GetStep, retry, failed, answer_or, fetch, after_l1, get_begin, warm, after_second_l1,
  after_fetch, get_finish,
}
use frankenphp_tiered_cache.Tiered.Correct.Keeps.{
  IsSound, Safe, Keeps, Keeps-refl, Keeps-if, degrade_locked-Keeps,
}

module _ {S1 S2 B : Type 0} (sys : System S1 S2 B) where
  warm-Keeps :
      (key : Key) (started : ℕ) (item : Item) (t : TieredCache S1 S2 B)
      → Keeps t (warm sys key started item t).0
  unfolding warm
  warm-Keeps key started item t =
      let left = item.ttl - (now sys t - started) in
      Keeps-if (ltb 0 item.ttl) t _ _ (Keeps-if (ltb 0 left) t _ _ (Keeps-refl t) (Keeps-refl t))
        (Keeps-refl t)

  after_second_l1-Keeps :
      (key : Key) (started : ℕ) (value : Option Item) (err : Option Error) (current : Option Item)
      (t : TieredCache S1 S2 B)
      → Keeps t (after_second_l1 sys key started value err current t).0
  after_second_l1-Keeps key started value (some e) current t = Keeps-refl t
  after_second_l1-Keeps key started value none (some item) t = Keeps-refl t
  after_second_l1-Keeps key started none none none t = Keeps-refl t
  after_second_l1-Keeps key started (some item) none none t = warm-Keeps key started item t

  after_fetch-Keeps :
      (key : Key) (started : ℕ) (value : Option Item) (err : Option Error) (t : TieredCache S1 S2 B)
      → Keeps t (after_fetch sys key started value err t).0
  after_fetch-Keeps key started value (some e) t = degrade_locked-Keeps sys (some e) true t
  after_fetch-Keeps key started value none t =
      let (s, r) = sys.l1.get key t.l1 in
      after_second_l1-Keeps key started value r.error r.result (record t { l1 = s })

  answer_or-Keeps :
      (err : Option Error) (t : TieredCache S1 S2 B) (rest : TieredCache S1 S2 B × GetStep)
      → Keeps t rest.0
      → Keeps t (answer_or sys err t rest).0
  answer_or-Keeps none t rest keeps = keeps
  answer_or-Keeps (some e) t rest keeps = Keeps-refl t

  -- The part of `Get` under the lock changes neither L2 nor the version, and keeps soundness.
  pub get_finish-Keeps :
      (key : Key) (f : Fetched) (t : TieredCache S1 S2 B) → Keeps t (get_finish sys key f t).0
  unfolding get_finish
  get_finish-Keeps key f t = Keeps-if t.is_closed t _ _ (Keeps-refl t) (
      Keeps-if (f.version == t.mutation_version) t _ _
        (answer_or-Keeps (unavailable_error sys t) t _
          (after_fetch-Keeps key f.started f.value f.err t))
        (Keeps-refl t))

  -- What Redis answered to a `Get` at another version than the present one is not used: the state
  -- stays, and the read starts again unless the cache is closed.
  pub get_finish_stale :
      (key : Key) (f : Fetched) (t : TieredCache S1 S2 B)
      → f.version ≢ t.mutation_version
      → get_finish sys key f t ≡ (t, if t.is_closed then failed (sentinel closed) else retry)
  unfolding get_finish
  get_finish_stale key f t stale = go t.is_closed (f.version == t.mutation_version) refl
    where
      go :
          (shut same : Bool)
          → (f.version == t.mutation_version) ≡ same
          → (if shut
              then (t, failed (sentinel closed))
              else if same
              then answer_or sys
                  (unavailable_error sys t)
                  t
                  (after_fetch sys key f.started f.value f.err t)
              else (t, retry))
            ≡ (t, if shut then failed (sentinel closed) else retry)
      go true same e = refl
      go false true e = absurd (stale ((==_iff f.version t.mutation_version).0 e))
      go false false e = refl

  fetched-Safe :
      (err : Option Error) (key : Key) (value : Option Item) (t : TieredCache S1 S2 B)
      → Safe t (after_l1 sys key err value t).0
  unfolding fetch observe_l2
  fetched-Safe (some e) key value t sound = sound
  fetched-Safe none key (some item) t sound =
      (answer_or-Keeps (refusal sys t) t _ (Keeps-refl t)).3 sound
  fetched-Safe none key none t sound = sound

  pub get_begin-Safe : (key : Key) (t : TieredCache S1 S2 B) → Safe t (get_begin sys key t).0
  unfolding get_begin
  get_begin-Safe key t sound = go (refusal sys t)
    where
      go :
          (err : Option Error)
          → IsSound
              (answer_or sys err t (
                after_l1 sys key
                  (sys.l1.get key t.l1).1.error
                  (sys.l1.get key t.l1).1.result
                  (record t { l1 = (sys.l1.get key t.l1).0 }))).0
      go none =
          let (s, r) = sys.l1.get key t.l1 in
          fetched-Safe r.error key r.result (record t { l1 = s }) sound
      go (some e) = sound
