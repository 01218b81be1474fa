-- ===== src/Tiered/Correct/ReadMany.antt =====
-- `GetMany` of `TieredCache` as a whole (internal/cache/tiered/read.go).
use mathlib.Core.Path.{subst}
use frankenphp_tiered_cache.Base.{
  ℕ, ◌+◌, ◌^◌, ◌<◌, ◌≡◌, ◌⊎◌, inl, inr, refl, ap, Bool, true, false, Option, none, some, List, [],
  ◌∷◌, ◌==◌, length, if◌then◌else◌, arith,
}
use frankenphp_tiered_cache.Base.Dict.{Key}
use frankenphp_tiered_cache.Contract.{Error, is_nil, sentinel, closed}
use frankenphp_tiered_cache.Observability.Observation.{Observation, lookups}
use frankenphp_tiered_cache.Tiered.State.{System, TieredCache, unavailable_error}
use frankenphp_tiered_cache.Tiered.ManyState.{
  Scan, empty_scan, Batched, FetchedMany, ManyStep, answered, fetched, retry, many_failed, Tally,
}
use frankenphp_tiered_cache.Tiered.ReadMany.{
  many_or, scan_l1, fetch_many, fetch_unless_empty, after_scan, get_many_read, tally_misses,
  tallied, first_tally, after_batch, after_many, get_many_finish,
}
use frankenphp_tiered_cache.Tiered.Correct.Scan.{empty_scan-IsScanOf, ScansTo, scan_l1-ScansTo}
use frankenphp_tiered_cache.Tiered.Correct.Misses.{sum_counts, IsScanOf}
use frankenphp_tiered_cache.Tiered.Health.{degrade_locked}
use frankenphp_tiered_cache.Tiered.Correct.Keeps.{degrade_locked-Falls}
use frankenphp_tiered_cache.Tiered.Correct.Tally.{
  TalliesTo, tally_misses-TalliesTo, tally_misses-metrics,
}

-- All lookups that the observations of a list count.
unfoldable pub lookups_in : List Observation → ℕ
lookups_in [] = 0
lookups_in (lookups result n ∷ os) = n + lookups_in os
lookups_in (_ ∷ os) = lookups_in os

zero_plus : (n : ℕ) → 0 + n ≡ n
zero_plus n = omega arith

sums_to : (a b c n : ℕ) → a + b ≡ n → c ≡ b → a + 0 + 0 + c ≡ n
sums_to a b c n h e = omega (arith, h, e)

module _ {S1 S2 B : Type 0} where
  -- An answer without an error has counted `n` lookups.
  abbrev pub CountedBy : Option Error → ℕ → TieredCache S1 S2 B → TieredCache S1 S2 B → Type 0
  CountedBy none n t u = lookups_in u.metrics ≡ n + lookups_in t.metrics
  CountedBy (some e) n t u = Unit

  abbrev pub Counts : ℕ → TieredCache S1 S2 B → TieredCache S1 S2 B × ManyStep → Type 0
  Counts n t (u, answered r) = CountedBy r.error n t u
  Counts n t (u, fetched f) = false ≡ true
  Counts n t (u, retry) = u ≡ t

module _ {S1 S2 B : Type 0} (sys : System S1 S2 B) where
  tallied-Counts :
      (n missed : ℕ) (t u : TieredCache S1 S2 B) (o : Error ⊎ Tally)
      → TalliesTo n o
      → u.metrics ≡ t.metrics
      → Counts n t (tallied sys missed (u, o))
  unfolding lookups_in
  tallied-Counts n missed t u (inl e) h m = tt
  tallied-Counts n missed t u (inr y) h m = omega (arith, h, ap lookups_in m)

  refused-CountedBy :
      (n : ℕ) (t u : TieredCache S1 S2 B) (d : Bool)
      → d ≡ true
      → CountedBy (unavailable_error sys (record u { degraded = d })) n t u
  unfolding unavailable_error
  refused-CountedBy n t u true h = tt
  refused-CountedBy n t u false h = ground (arith, h)

  after_batch-Counts :
      (n : ℕ) (err : Option Error) (s : Scan) (b : Batched) (t : TieredCache S1 S2 B)
      → n < 2 ^ 63
      → IsScanOf n s
      → Counts n t (after_batch sys err s b t)
  after_batch-Counts n (some e) s b t small h =
      refused-CountedBy n t (degrade_locked sys (some e) true t)
        (degrade_locked sys (some e) true t).degraded (degrade_locked-Falls sys (some e) true t).3
  after_batch-Counts n none s b t small h =
      tallied-Counts n s.l1_miss_count t
        (tally_misses sys s.misses s.miss_counts b (first_tally sys s) t).0
        (tally_misses sys s.misses s.miss_counts b (first_tally sys s) t).1
        (subst
          (λ m. TalliesTo m (tally_misses sys s.misses s.miss_counts b (first_tally sys s) t).1)
          (sums_to s.l1_hit_count s.l1_miss_count (sum_counts s.misses s.miss_counts) n h.total
            h.counted)
          (tally_misses-TalliesTo sys s.misses s.miss_counts b (first_tally sys s) t
            (omega (arith, small, h.total, h.counted))))
        (tally_misses-metrics sys s.misses s.miss_counts b (first_tally sys s) t)

  -- Without misses, every key was a hit of L1.
  after_many-Counts :
      (n : ℕ) (b : Option Batched) (s : Scan) (t : TieredCache S1 S2 B)
      → n < 2 ^ 63
      → IsScanOf n s
      → (b ≡ none → s.misses ≡ [])
      → Counts n t (after_many sys b s t)
  unfolding lookups_in
  after_many-Counts n none s t small h empty =
      omega (arith, h.total, h.counted, ap (λ ks. sum_counts ks s.miss_counts) (empty refl))
  after_many-Counts n (some b) s t small h empty = after_batch-Counts n b.l2_err s b t small h

  many_or-Counts :
      (n : ℕ) (err : Option Error) (t : TieredCache S1 S2 B) (rest : TieredCache S1 S2 B × ManyStep)
      → Counts n t rest
      → Counts n t (many_or sys err t rest)
  many_or-Counts n none t rest h = h
  many_or-Counts n (some e) t rest h = tt

  get_many_finish-Counts :
      (n : ℕ) (f : FetchedMany) (t : TieredCache S1 S2 B)
      → n < 2 ^ 63
      → IsScanOf n f.scan
      → (f.batched ≡ none → f.scan.misses ≡ [])
      → Counts n t (get_many_finish sys f t)
  unfolding get_many_finish
  get_many_finish-Counts n f t small h empty = go t.is_closed (f.version == t.mutation_version)
    where
      go :
          (shut same : Bool)
          → Counts n t (
              if shut
              then (t, many_failed (sentinel closed))
              else if same
              then many_or sys (unavailable_error sys t) t (after_many sys f.batched f.scan t)
              else (t, retry))
      go true same = tt
      go false false = refl
      go false true =
          many_or-Counts n (unavailable_error sys t) t (after_many sys f.batched f.scan t)
            (after_many-Counts n f.batched f.scan t small h empty)

  -- What a step of the reads comes to at the end, in whatever state the lock is taken.
  abbrev pub EndsCounted : ℕ → TieredCache S1 S2 B → ManyStep → Type 0
  EndsCounted n u (answered r) = is_nil r.error ≡ false
  EndsCounted n u (fetched f) = Counts n u (get_many_finish sys f u)
  EndsCounted n u retry = false ≡ true

  fetched-EndsCounted :
      (n version : ℕ) (misses : List Key) (s : Scan) (t u : TieredCache S1 S2 B)
      → n < 2 ^ 63
      → s.misses ≡ misses
      → IsScanOf n s
      → EndsCounted n u (fetch_unless_empty sys misses version s t).1
  unfolding fetch_many
  fetched-EndsCounted n version [] s t u small none_left h =
      get_many_finish-Counts n (record { version = version; scan = s; batched = none }) u small h
        (λ e. none_left)
  fetched-EndsCounted n version (k ∷ ks) s t u small some_left h =
      get_many_finish-Counts n _ u small h (λ e. ground (arith, e))

  after_scan-EndsCounted :
      (n version : ℕ) (t u : TieredCache S1 S2 B) (o : Error ⊎ Scan)
      → n < 2 ^ 63
      → ScansTo n o
      → EndsCounted n u (after_scan sys version (t, o)).1
  after_scan-EndsCounted n version t u (inl e) small h = refl
  after_scan-EndsCounted n version t u (inr s) small h =
      fetched-EndsCounted n version s.misses s t u small refl h

  -- Whatever L1, L2 and other operations do, an answer of GetMany without an error has counted
  -- exactly one lookup for each key that was asked for, be it a hit of L1, a hit of L2 or a miss,
  -- and also for a key that was asked for twice; an end that starts again leaves the state.
  pub get_many_counts :
      (keys : List Key) (version : ℕ) (t u : TieredCache S1 S2 B)
      → length keys < 2 ^ 63
      → EndsCounted (length keys) u (get_many_read sys keys version t).1
  unfolding get_many_read
  get_many_counts keys version t u small =
      after_scan-EndsCounted (length keys) version (scan_l1 sys keys empty_scan t).0 u
        (scan_l1 sys keys empty_scan t).1 small
        (subst (λ n. ScansTo n (scan_l1 sys keys empty_scan t).1) (zero_plus (length keys))
          (scan_l1-ScansTo sys keys 0 empty_scan t (omega (arith, small)) empty_scan-IsScanOf))
