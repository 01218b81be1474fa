-- ===== src/Tiered/Correct/ReadSafe.antt =====
-- The health of `TieredCache` under `GetMany` (internal/cache/tiered/read.go).
use frankenphp_tiered_cache.Base.{
  ℕ, ◌-◌, ◌==◌, ◌⊎◌, inl, inr, true, false, Bool, Option, none, some, List, [], ◌∷◌, ltb,
  if◌then◌else◌,
}
use frankenphp_tiered_cache.Base.Dict.{Key, lookup}
use frankenphp_tiered_cache.Contract.{Error, Item}
use frankenphp_tiered_cache.Tiered.State.{System, TieredCache, unavailable_error, observe_l2}
use frankenphp_tiered_cache.Tiered.ManyState.{
  Scan, empty_scan, Batched, FetchedMany, ManyStep, count_at, scanned, Tally,
}
use frankenphp_tiered_cache.Tiered.ReadMany.{
  many_or, scan_on, scan_l1, fetch_many, fetch_unless_empty, after_scan, get_many_read, warm_many,
  hit_again, tally_on, tally_misses, tallied, first_tally, after_batch, after_many, get_many_finish,
}
use frankenphp_tiered_cache.Tiered.Correct.Keeps.{Safe, degrade_locked-Keeps}

module _ {S1 S2 B : Type 0} (sys : System S1 S2 B) where
  scan_on-Safe :
      (key : Key) (err : Option Error) (value : Option Item) (s : Scan) (t : TieredCache S1 S2 B)
      (rest : Scan → TieredCache S1 S2 B → TieredCache S1 S2 B × (Error ⊎ Scan))
      → ((s2 : Scan) (u : TieredCache S1 S2 B) → Safe u (rest s2 u).0)
      → Safe t (scan_on sys key err value s t rest).0
  scan_on-Safe key (some e) value s t rest later = λ sound. sound
  scan_on-Safe key none value s t rest later = later (scanned key value s) t

  scan_l1-Safe :
      (keys : List Key) (s : Scan) (t : TieredCache S1 S2 B) → Safe t (scan_l1 sys keys s t).0
  unfolding scan_l1
  scan_l1-Safe [] s t sound = sound
  scan_l1-Safe (key ∷ keys) s t sound =
      let (l1, r) = sys.l1.get key t.l1 in
      scan_on-Safe key r.error r.result s (record t { l1 = l1 }) (λ s2 u. scan_l1 sys keys s2 u)
        (scan_l1-Safe keys) sound

  after_scan-Safe :
      (version : ℕ) (t : TieredCache S1 S2 B) (o : Error ⊎ Scan)
      → Safe t (after_scan sys version (t, o)).0
  unfolding fetch_many observe_l2
  after_scan-Safe version t (inl e) = λ sound. sound
  after_scan-Safe version t (inr s) = fetched s.misses
    where
      fetched : (misses : List Key) → Safe t (fetch_unless_empty sys misses version s t).0
      fetched [] = λ sound. sound
      fetched (k ∷ ks) = λ sound. sound

  -- The reads without the lock keep soundness.
  pub get_many_read-Safe :
      (keys : List Key) (version : ℕ) (t : TieredCache S1 S2 B)
      → Safe t (get_many_read sys keys version t).0
  unfolding get_many_read fetch_many observe_l2
  get_many_read-Safe keys version t sound =
      after_scan-Safe version (scan_l1 sys keys empty_scan t).0 (scan_l1 sys keys empty_scan t).1
        (scan_l1-Safe keys empty_scan t sound)

  Safe-if :
      {A : Type 0} (b : Bool) (t : TieredCache S1 S2 B) (p q : TieredCache S1 S2 B × A)
      → Safe t p.0
      → Safe t q.0
      → Safe t (if b then p else q).0
  Safe-if true t p q left right = left
  Safe-if false t p q left right = right

  warm_many-Safe :
      (key : Key) (elapsed count : ℕ) (found : Option Item) (y : Tally) (t : TieredCache S1 S2 B)
      → Safe t (warm_many sys key elapsed count found y t).0
  unfolding warm_many
  warm_many-Safe key elapsed count none y t = λ sound. sound
  warm_many-Safe key elapsed count (some item) y t =
      Safe-if (ltb 0 item.ttl) t _ _ (Safe-if (ltb 0 (item.ttl - elapsed)) t _ _ (λ s. s) (λ s. s))
        (λ s. s)

  tally_on-Safe :
      (key : Key) (err : Option Error) (current : Option Item) (elapsed count : ℕ)
      (found : Option Item) (y : Tally) (t : TieredCache S1 S2 B)
      (rest : Tally → TieredCache S1 S2 B → TieredCache S1 S2 B × (Error ⊎ Tally))
      → ((y2 : Tally) (u : TieredCache S1 S2 B) → Safe u (rest y2 u).0)
      → Safe t (tally_on sys key err current elapsed count found y t rest).0
  tally_on-Safe key (some e) current elapsed count found y t rest later = λ sound. sound
  tally_on-Safe key none (some item) elapsed count found y t rest later =
      later (hit_again sys key count item y) t
  tally_on-Safe key none none elapsed count found y t rest later = λ sound.
      later (warm_many sys key elapsed count found y t).1
        (warm_many sys key elapsed count found y t).0
        (warm_many-Safe key elapsed count found y t sound)

  tally_misses-Safe :
      (keys : List Key) (counts : List (Key × ℕ)) (b : Batched) (y : Tally)
      (t : TieredCache S1 S2 B)
      → Safe t (tally_misses sys keys counts b y t).0
  unfolding tally_misses
  tally_misses-Safe [] counts b y t sound = sound
  tally_misses-Safe (key ∷ keys) counts b y t sound =
      let (l1, r) = sys.l1.get key t.l1 in
      tally_on-Safe key r.error r.result b.elapsed (count_at key counts) (lookup key b.l2_results) y
        (record t { l1 = l1 }) (λ y2 u. tally_misses sys keys counts b y2 u)
        (tally_misses-Safe keys counts b) sound

  tallied-Safe :
      (missed : ℕ) (t : TieredCache S1 S2 B) (o : Error ⊎ Tally)
      → Safe t (tallied sys missed (t, o)).0
  tallied-Safe missed t (inl e) sound = sound
  tallied-Safe missed t (inr y) sound = sound

  after_many-Safe :
      (b : Option Batched) (s : Scan) (t : TieredCache S1 S2 B) → Safe t (after_many sys b s t).0
  after_many-Safe none s t = λ sound. sound
  after_many-Safe (some b) s t = batched b.l2_err
    where
      batched : (err : Option Error) → Safe t (after_batch sys err s b t).0
      batched (some e) = (degrade_locked-Keeps sys (some e) true t).3
      batched none = λ sound.
          let (u, o) = tally_misses sys s.misses s.miss_counts b (first_tally sys s) t in
          tallied-Safe s.l1_miss_count u o
            (tally_misses-Safe s.misses s.miss_counts b (first_tally sys s) t sound)

  many_or-Safe :
      (err : Option Error) (t : TieredCache S1 S2 B) (rest : TieredCache S1 S2 B × ManyStep)
      → Safe t rest.0
      → Safe t (many_or sys err t rest).0
  many_or-Safe none t rest safe = safe
  many_or-Safe (some e) t rest safe = λ sound. sound

  -- The end under the lock keeps soundness.
  pub get_many_finish-Safe :
      (f : FetchedMany) (t : TieredCache S1 S2 B) → Safe t (get_many_finish sys f t).0
  unfolding get_many_finish
  get_many_finish-Safe f t =
      Safe-if t.is_closed t _ _ (λ s. s)
        (Safe-if (f.version == t.mutation_version) t _ _
          (many_or-Safe (unavailable_error sys t) t _ (after_many-Safe f.batched f.scan t))
          (λ s. s))
