-- ===== src/Tiered/Read.antt =====
-- `Get` of `TieredCache` (internal/cache/tiered/read.go). The read of L2 runs without the mutation
-- lock, so `Get` is two functions: what runs before other operations may step in, and what runs
-- after them under the lock.
use frankenphp_tiered_cache.Base.{
  ℕ, ◌-◌, ◌==◌, true, Option, none, some, List, [], ◌∷◌, ltb, if◌then◌else◌,
}
use frankenphp_tiered_cache.Base.Dict.{Key}
use frankenphp_tiered_cache.Contract.{Error, Item, Reply, sentinel, success, closed}
use frankenphp_tiered_cache.Observability.Observation.{
  Operation, LookupResult, lookups, l1_misses, l1_hit, l2_hit, miss,
}
use frankenphp_tiered_cache.Tiered.State.{
  System, TieredCache, observe, now, read_clock, refusal, unavailable_error,
}
use frankenphp_tiered_cache.Tiered.Health.{degrade_locked}
use frankenphp_tiered_cache.Tiered.Commit.{called_l2}

-- What `Get` holds while it waits for the lock: the version before the L2 read, when that began, and
-- what it answered.
pub record Fetched : Type 0 where
  pub version : ℕ
  pub started : ℕ
  pub value : Option Item
  pub err : Option Error

pub data GetStep : Type 0 where
  answered : Reply (Option Item) → GetStep
  fetched : Fetched → GetStep
  retry : GetStep

abbrev pub failed : Error → GetStep
failed e = answered (record { result = none; error = some e })

module _ {S1 S2 B : Type 0} (sys : System S1 S2 B) where
  abbrev pub answer_or :
      Option Error
      → TieredCache S1 S2 B
      → TieredCache S1 S2 B × GetStep
      → TieredCache S1 S2 B × GetStep
  answer_or none t rest = rest
  answer_or (some e) t rest = (t, failed e)

  -- The read of L2, at the version that is loaded before it.
  unfoldable pub fetch : Key → TieredCache S1 S2 B → TieredCache S1 S2 B × GetStep
  fetch key t =
      let started = now sys t in
      let (s, r) = sys.l2.get key t.l2 in
      (
        called_l2 sys Operation.get started (s, r) (read_clock sys t),
        fetched (record {
          version = t.mutation_version;
          started = started;
          value = r.result;
          err = r.error;
        }),
      )

  -- A hit in L1 is answered after the two checks have run once more.
  abbrev pub after_l1 :
      Key → Option Error → Option Item → TieredCache S1 S2 B → TieredCache S1 S2 B × GetStep
  after_l1 key (some e) value t = (t, failed e)
  after_l1 key none (some item) t =
      answer_or (refusal sys t) t (observe (lookups l1_hit 1) t, answered (success (some item)))
  after_l1 key none none t = fetch key t

  unfoldable pub get_begin : Key → TieredCache S1 S2 B → TieredCache S1 S2 B × GetStep
  get_begin key t =
      let (s, r) = sys.l1.get key t.l1 in
      answer_or (refusal sys t) t (after_l1 key r.error r.result (record t { l1 = s }))

  abbrev pub missed : LookupResult → TieredCache S1 S2 B → TieredCache S1 S2 B
  missed result t = observe (lookups result 1) (observe (l1_misses 1) t)

  -- An L2 value is written into L1 for what is left of its TTL, measured from before the read; 0
  -- means no expiration.
  unfoldable pub warm :
      Key → ℕ → Item → TieredCache S1 S2 B → TieredCache S1 S2 B × Reply (Option Item)
  warm key started item t =
      let elapsed = now sys t - started in
      let u = read_clock sys t in
      let left = item.ttl - elapsed in
      let (s, _) = sys.l1.set key item.value left u.l1 in
      let (s', _) = sys.l1.forever key item.value t.l1 in
      if ltb 0 item.ttl
      then if ltb 0 left
        then (missed l2_hit (record u { l1 = s }), success (some (record item { ttl = left })))
        else (missed miss u, success none)
      else (missed l2_hit (record t { l1 = s' }), success (some item))

  abbrev pub after_second_l1 :
      Key
      → ℕ
      → Option Item
      → Option Error
      → Option Item
      → TieredCache S1 S2 B
      → TieredCache S1 S2 B × GetStep
  after_second_l1 key started value (some e) current t = (t, failed e)
  after_second_l1 key started value none (some item) t =
      (missed l1_hit t, answered (success (some item)))
  after_second_l1 key started none none none t = (missed miss t, answered (success none))
  after_second_l1 key started (some item) none none t =
      let (u, r) = warm key started item t in (u, answered r)

  abbrev pub after_fetch :
      Key → ℕ → Option Item → Option Error → TieredCache S1 S2 B → TieredCache S1 S2 B × GetStep
  after_fetch key started value (some e) t =
      let u = degrade_locked sys (some e) true t in
      (u, answered (record { result = none; error = unavailable_error sys u }))
  after_fetch key started value none t =
      let (s, r) = sys.l1.get key t.l1 in
      after_second_l1 key started value r.error r.result (record t { l1 = s })

  -- Under the lock: a mutation since the version was loaded starts the read again.
  unfoldable pub get_finish : Key → Fetched → TieredCache S1 S2 B → TieredCache S1 S2 B × GetStep
  get_finish key f t =
      if t.is_closed
      then (t, failed (sentinel closed))
      else if f.version == t.mutation_version
      then answer_or (unavailable_error sys t) t (after_fetch key f.started f.value f.err t)
      else (t, retry)

  abbrev pub finish_after :
      Key
      → (TieredCache S1 S2 B → TieredCache S1 S2 B)
      → TieredCache S1 S2 B × GetStep
      → TieredCache S1 S2 B × GetStep
  finish_after key others (t, answered r) = (t, answered r)
  finish_after key others (t, fetched f) = get_finish key f (others t)
  finish_after key others (t, retry) = (t, retry)

  abbrev pub loop_after :
      TieredCache S1 S2 B × GetStep
      → (TieredCache S1 S2 B → Option (TieredCache S1 S2 B × Reply (Option Item)))
      → Option (TieredCache S1 S2 B × Reply (Option Item))
  loop_after (t, answered r) again = some (t, r)
  loop_after (t, fetched f) again = again t
  loop_after (t, retry) again = again t

  -- `Get`, with what the other operations do during each of its L2 reads; after the last of them
  -- nothing steps in. `none` would mean that the loop has not ended then.
  unfoldable pub get :
      Key
      → List (TieredCache S1 S2 B → TieredCache S1 S2 B)
      → TieredCache S1 S2 B
      → Option (TieredCache S1 S2 B × Reply (Option Item))
  get key [] t = loop_after (finish_after key (λ u. u) (get_begin key t)) (λ u. none)
  get key (others ∷ rest) t =
      loop_after (finish_after key others (get_begin key t)) (λ u. get key rest u)
