-- ===== src/Tiered/Correct/Tally.antt =====
-- The second loop of `GetMany` (internal/cache/tiered/read.go): what it counts.
use mathlib.Core.Path.{subst}
use frankenphp_tiered_cache.Base.{
  ℕ, ◌+◌, ◌-◌, ◌^◌, ◌<◌, ◌≡◌, ◌⊎◌, inl, inr, refl, ◌∙◌, Bool, true, false, Option, none, some, List,
  [], ◌∷◌, ltb, if◌then◌else◌, arith,
}
use frankenphp_tiered_cache.Base.Dict.{Key, lookup}
use frankenphp_tiered_cache.Base.Word.{add64}
use frankenphp_tiered_cache.Contract.{Error, Item}
use frankenphp_tiered_cache.Tiered.State.{System, TieredCache}
use frankenphp_tiered_cache.Tiered.ManyState.{Batched, count_at, Tally}
use frankenphp_tiered_cache.Tiered.ReadMany.{warm_many, hit_again, tally_on, tally_misses}
use frankenphp_tiered_cache.Tiered.Correct.Misses.{sum_counts, add64_small}

-- What a tally has counted.
abbrev pub tally_total : Tally → ℕ
tally_total y = y.l1_hits + y.l2_hits + y.misses

abbrev pub TalliesTo : ℕ → Error ⊎ Tally → Type 0
TalliesTo n (inl e) = Unit
TalliesTo n (inr y) = tally_total y ≡ n

regroup : (a b c d : ℕ) → a ≡ b + c → a + d ≡ b + (c + d)
regroup a b c d h = omega (arith, h)

total_if :
    {A : Type 0} (b : Bool) (p q : A × Tally) (m : ℕ)
    → tally_total p.1 ≡ m
    → tally_total q.1 ≡ m
    → tally_total (if b then p else q).1 ≡ m
total_if true p q m left right = left
total_if false p q m left right = right

metrics_if :
    {S1 S2 B A : Type 0} (b : Bool) (p q : TieredCache S1 S2 B × A) (t : TieredCache S1 S2 B)
    → p.0.metrics ≡ t.metrics
    → q.0.metrics ≡ t.metrics
    → (if b then p else q).0.metrics ≡ t.metrics
metrics_if true p q t left right = left
metrics_if false p q t left right = right

module _ {S1 S2 B : Type 0} (sys : System S1 S2 B) where
  warm_many_total :
      (key : Key) (elapsed count : ℕ) (found : Option Item) (y : Tally) (t : TieredCache S1 S2 B)
      → tally_total y + count < 2 ^ 63
      → tally_total (warm_many sys key elapsed count found y t).1 ≡ tally_total y + count
  unfolding warm_many
  warm_many_total key elapsed count none y t small =
      omega (arith, add64_small y.misses count (omega (arith, small)))
  warm_many_total key elapsed count (some item) y t small =
      total_if (ltb 0 item.ttl) _ _ (tally_total y + count)
        (total_if (ltb 0 (item.ttl - elapsed)) _ _ (tally_total y + count) hit missed) hit
    where
      hit : y.l1_hits + add64 y.l2_hits count + y.misses ≡ tally_total y + count
      hit = omega (arith, add64_small y.l2_hits count (omega (arith, small)))

      missed : y.l1_hits + y.l2_hits + add64 y.misses count ≡ tally_total y + count
      missed = omega (arith, add64_small y.misses count (omega (arith, small)))

  tally_on-TalliesTo :
      (key : Key) (err : Option Error) (current : Option Item) (elapsed count : ℕ)
      (found : Option Item) (y : Tally) (t : TieredCache S1 S2 B)
      (rest : Tally → TieredCache S1 S2 B → TieredCache S1 S2 B × (Error ⊎ Tally)) (m : ℕ)
      → tally_total y + count < 2 ^ 63
      → ((y2 : Tally) (u : TieredCache S1 S2 B)
          → tally_total y2 ≡ tally_total y + count
          → TalliesTo m (rest y2 u).1)
      → TalliesTo m (tally_on sys key err current elapsed count found y t rest).1
  tally_on-TalliesTo key (some e) current elapsed count found y t rest m small later = tt
  tally_on-TalliesTo key none (some item) elapsed count found y t rest m small later =
      later (hit_again sys key count item y) t
        (omega (arith, add64_small y.l1_hits count (omega (arith, small))))
  tally_on-TalliesTo key none none elapsed count found y t rest m small later =
      later (warm_many sys key elapsed count found y t).1
        (warm_many sys key elapsed count found y t).0
        (warm_many_total key elapsed count found y t small)

  pub tally_misses-TalliesTo :
      (keys : List Key) (counts : List (Key × ℕ)) (b : Batched) (y : Tally)
      (t : TieredCache S1 S2 B)
      → tally_total y + sum_counts keys counts < 2 ^ 63
      → TalliesTo (tally_total y + sum_counts keys counts) (tally_misses sys keys counts b y t).1
  unfolding tally_misses
  tally_misses-TalliesTo [] counts b y t small = omega arith
  tally_misses-TalliesTo (key ∷ keys) counts b y t small =
      let (l1, r) = sys.l1.get key t.l1 in
      tally_on-TalliesTo key r.error r.result b.elapsed (count_at key counts)
        (lookup key b.l2_results) y (record t { l1 = l1 })
        (λ y2 u. tally_misses sys keys counts b y2 u)
        (tally_total y + (count_at key counts + sum_counts keys counts)) (omega (arith, small))
        (λ y2 u e.
          subst (λ m. TalliesTo m (tally_misses sys keys counts b y2 u).1)
            (regroup (tally_total y2) (tally_total y) (count_at key counts) (sum_counts keys counts)
              e)
            (tally_misses-TalliesTo keys counts b y2 u (omega (arith, small, e))))

  -- The second loop changes L1 only.
  warm_many-metrics :
      (key : Key) (elapsed count : ℕ) (found : Option Item) (y : Tally) (t : TieredCache S1 S2 B)
      → (warm_many sys key elapsed count found y t).0.metrics ≡ t.metrics
  unfolding warm_many
  warm_many-metrics key elapsed count none y t = refl
  warm_many-metrics key elapsed count (some item) y t =
      metrics_if (ltb 0 item.ttl) _ _ t (metrics_if (ltb 0 (item.ttl - elapsed)) _ _ t refl refl)
        refl

  tally_on-metrics :
      (key : Key) (err : Option Error) (current : Option Item) (elapsed count : ℕ)
      (found : Option Item) (y : Tally) (t : TieredCache S1 S2 B)
      (rest : Tally → TieredCache S1 S2 B → TieredCache S1 S2 B × (Error ⊎ Tally))
      → ((y2 : Tally) (u : TieredCache S1 S2 B) → (rest y2 u).0.metrics ≡ u.metrics)
      → (tally_on sys key err current elapsed count found y t rest).0.metrics ≡ t.metrics
  tally_on-metrics key (some e) current elapsed count found y t rest later = refl
  tally_on-metrics key none (some item) elapsed count found y t rest later =
      later (hit_again sys key count item y) t
  tally_on-metrics key none none elapsed count found y t rest later =
      later (warm_many sys key elapsed count found y t).1
        (warm_many sys key elapsed count found y t).0
      ∙ warm_many-metrics key elapsed count found y t

  pub tally_misses-metrics :
      (keys : List Key) (counts : List (Key × ℕ)) (b : Batched) (y : Tally)
      (t : TieredCache S1 S2 B)
      → (tally_misses sys keys counts b y t).0.metrics ≡ t.metrics
  unfolding tally_misses
  tally_misses-metrics [] counts b y t = refl
  tally_misses-metrics (key ∷ keys) counts b y t =
      let (l1, r) = sys.l1.get key t.l1 in
      tally_on-metrics key r.error r.result b.elapsed (count_at key counts)
        (lookup key b.l2_results) y (record t { l1 = l1 })
        (λ y2 u. tally_misses sys keys counts b y2 u) (tally_misses-metrics keys counts b)
