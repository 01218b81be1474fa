-- ===== src/Tiered/ReadMany.antt =====
-- `GetMany` of `TieredCache` (internal/cache/tiered/read.go), as three parts: the checks and the
-- version under the lock, the reads of L1 and L2 without it, and the end under it. Other operations
-- may step in between.
use frankenphp_tiered_cache.Base.{
  ℕ, ◌-◌, ◌==◌, ◌⊎◌, inl, inr, true, Option, none, some, List, [], ◌∷◌, ltb, length, if◌then◌else◌,
}
use frankenphp_tiered_cache.Base.Dict.{Key, lookup, insert}
use frankenphp_tiered_cache.Base.Word.{add64}
use frankenphp_tiered_cache.Contract.{Error, Item, sentinel, success, closed}
use frankenphp_tiered_cache.Observability.Observation.{
  Operation, lookups, l1_misses, batch, l1_hit, l2_hit, miss,
}
use frankenphp_tiered_cache.Tiered.State.{
  System, TieredCache, observe, now, read_clock, refusal, unavailable_error,
}
use frankenphp_tiered_cache.Tiered.Health.{degrade_locked}
use frankenphp_tiered_cache.Tiered.Commit.{called_l2}
use frankenphp_tiered_cache.Tiered.ManyState.{
  Scan, empty_scan, Batched, FetchedMany, ManyStep, answered, fetched, retry, many_failed, count_at,
  scanned, Tally,
}

module _ {S1 S2 B : Type 0} (sys : System S1 S2 B) where
  abbrev pub many_or :
      Option Error
      → TieredCache S1 S2 B
      → TieredCache S1 S2 B × ManyStep
      → TieredCache S1 S2 B × ManyStep
  many_or none t rest = rest
  many_or (some e) t rest = (t, many_failed e)

  -- The end of one turn of the first loop, given what the other turns do.
  abbrev pub scan_on :
      Key
      → Option Error
      → Option Item
      → Scan
      → TieredCache S1 S2 B
      → (Scan → TieredCache S1 S2 B → TieredCache S1 S2 B × (Error ⊎ Scan))
      → TieredCache S1 S2 B × (Error ⊎ Scan)
  scan_on key (some e) value s t rest = (t, inl e)
  scan_on key none value s t rest = rest (scanned key value s) t

  -- The loop that reads L1; an error of L1 ends it.
  unfoldable pub scan_l1 :
      List Key → Scan → TieredCache S1 S2 B → TieredCache S1 S2 B × (Error ⊎ Scan)
  scan_l1 [] s t = (t, inr s)
  scan_l1 (key ∷ keys) s t =
      let (l1, r) = sys.l1.get key t.l1 in
      scan_on key r.error r.result s (record t { l1 = l1 }) (λ s2 u. scan_l1 keys s2 u)

  -- One batch read for the misses.
  unfoldable pub fetch_many : ℕ → Scan → TieredCache S1 S2 B → TieredCache S1 S2 B × ManyStep
  fetch_many version s t =
      let started = now sys t in
      let (l2, r) = sys.l2.get_many s.misses t.l2 in
      let elapsed = now sys (read_clock sys t) - started in
      let u =
        called_l2 sys Operation.get_many started (l2, r) (read_clock sys (read_clock sys t)) in
      (
        observe (batch Operation.get_many (length s.misses)) u,
        fetched (record {
          version = version;
          scan = s;
          batched = some (record { l2_results = r.result; l2_err = r.error; elapsed = elapsed });
        }),
      )

  abbrev pub fetch_unless_empty :
      List Key → ℕ → Scan → TieredCache S1 S2 B → TieredCache S1 S2 B × ManyStep
  fetch_unless_empty [] version s t =
      (t, fetched (record { version = version; scan = s; batched = none }))
  fetch_unless_empty (_ ∷ _) version s t = fetch_many version s t

  abbrev pub after_scan : ℕ → TieredCache S1 S2 B × (Error ⊎ Scan) → TieredCache S1 S2 B × ManyStep
  after_scan version (t, inl e) = (t, many_failed e)
  after_scan version (t, inr s) = fetch_unless_empty s.misses version s t

  -- The reads without the lock, at the version that was loaded under it.
  unfoldable pub get_many_read : List Key → ℕ → TieredCache S1 S2 B → TieredCache S1 S2 B × ManyStep
  unfolding fetch_many
  get_many_read keys version t = after_scan version (scan_l1 keys empty_scan t)

  -- What one miss finds in L2, with what is left of its TTL; 0 means no expiration.
  unfoldable pub warm_many :
      Key → ℕ → ℕ → Option Item → Tally → TieredCache S1 S2 B → TieredCache S1 S2 B × Tally
  warm_many key elapsed count none y t = (t, record y { misses = add64 y.misses count })
  warm_many key elapsed count (some item) y t =
      let left = item.ttl - elapsed in
      let (s, _) = sys.l1.set key item.value left t.l1 in
      let (s', _) = sys.l1.forever key item.value t.l1 in
      let hit = record y { l2_hits = add64 y.l2_hits count } in
      if ltb 0 item.ttl
      then if ltb 0 left
        then (
          record t { l1 = s },
          record hit { results = insert key (record item { ttl = left }) y.results },
        )
        else (t, record y { misses = add64 y.misses count })
      else (record t { l1 = s' }, record hit { results = insert key item y.results })

  abbrev pub hit_again : Key → ℕ → Item → Tally → Tally
  hit_again key count item y = record y {
    l1_hits = add64 y.l1_hits count;
    results = insert key item y.results;
  }

  abbrev pub tally_on :
      Key
      → Option Error
      → Option Item
      → ℕ
      → ℕ
      → Option Item
      → Tally
      → TieredCache S1 S2 B
      → (Tally → TieredCache S1 S2 B → TieredCache S1 S2 B × (Error ⊎ Tally))
      → TieredCache S1 S2 B × (Error ⊎ Tally)
  tally_on key (some e) current elapsed count found y t rest = (t, inl e)
  tally_on key none (some item) elapsed count found y t rest = rest (hit_again key count item y) t
  tally_on key none none elapsed count found y t rest =
      let (u, y2) = warm_many key elapsed count found y t in rest y2 u

  -- The second loop: L1 once more, then what L2 answered.
  unfoldable pub tally_misses :
      List Key
      → List (Key × ℕ)
      → Batched
      → Tally
      → TieredCache S1 S2 B
      → TieredCache S1 S2 B × (Error ⊎ Tally)
  tally_misses [] counts b y t = (t, inr y)
  tally_misses (key ∷ keys) counts b y t =
      let (l1, r) = sys.l1.get key t.l1 in
      tally_on key r.error r.result b.elapsed (count_at key counts) (lookup key b.l2_results) y
        (record t { l1 = l1 }) (λ y2 u. tally_misses keys counts b y2 u)

  -- The four observations of a batch, in their order.
  abbrev pub observe_tally : ℕ → Tally → TieredCache S1 S2 B → TieredCache S1 S2 B
  observe_tally missed y t = observe (lookups miss y.misses) (
      observe (lookups l2_hit y.l2_hits)
        (observe (lookups l1_hit y.l1_hits) (observe (l1_misses missed) t)))

  abbrev pub tallied : ℕ → TieredCache S1 S2 B × (Error ⊎ Tally) → TieredCache S1 S2 B × ManyStep
  tallied missed (t, inl e) = (t, many_failed e)
  tallied missed (t, inr y) = (observe_tally missed y t, answered (success y.results))

  abbrev pub first_tally : Scan → Tally
  first_tally s = record { results = s.results; l1_hits = s.l1_hit_count; l2_hits = 0; misses = 0 }

  abbrev pub after_batch :
      Option Error → Scan → Batched → TieredCache S1 S2 B → TieredCache S1 S2 B × ManyStep
  after_batch (some e) s b t =
      let u = degrade_locked sys (some e) true t in
      (u, answered (record { result = []; error = unavailable_error sys u }))
  after_batch none s b t =
      tallied s.l1_miss_count (tally_misses s.misses s.miss_counts b (first_tally s) t)

  abbrev pub after_many :
      Option Batched → Scan → TieredCache S1 S2 B → TieredCache S1 S2 B × ManyStep
  after_many none s t = (observe (lookups l1_hit s.l1_hit_count) t, answered (success s.results))
  after_many (some b) s t = after_batch b.l2_err s b t

  -- Under the lock: a mutation since the version was loaded starts the read again.
  unfoldable pub get_many_finish :
      FetchedMany → TieredCache S1 S2 B → TieredCache S1 S2 B × ManyStep
  unfolding tally_misses
  get_many_finish f t =
      if t.is_closed
      then (t, many_failed (sentinel closed))
      else if f.version == t.mutation_version
      then many_or (unavailable_error sys t) t (after_many f.batched f.scan t)
      else (t, retry)

  -- The checks and the version under the lock, then the reads, with what the other operations do
  -- in between.
  unfoldable pub get_many_begin :
      List Key
      → (TieredCache S1 S2 B → TieredCache S1 S2 B)
      → TieredCache S1 S2 B
      → TieredCache S1 S2 B × ManyStep
  unfolding get_many_read
  get_many_begin [] others t = (t, answered (success []))
  get_many_begin (key ∷ keys) others t =
      many_or (refusal sys t) t (get_many_read (key ∷ keys) t.mutation_version (others t))
