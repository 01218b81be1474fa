-- ===== src/Tiered/Correct/Scan.antt =====
-- The first loop of `GetMany` (internal/cache/tiered/read.go): what it counts.
use mathlib.Core.Path.{subst, subst₂}
use frankenphp_tiered_cache.Base.{
  ℕ, zero, suc, ◌+◌, ◌^◌, ◌≤◌, ◌<◌, ◌≡◌, ◌⊎◌, inl, inr, refl, sym, ap, ◌∙◌, Bool, true, false,
  Option, none, some, List, [], ◌∷◌, ◌++◌, ◌==◌, ltb, length, if◌then◌else◌, arith,
}
use frankenphp_tiered_cache.Base.Dict.{Key, key_eq, key_eq_iff, key_eq_refl, lookup, insert}
use frankenphp_tiered_cache.Base.Word.{add64}
use frankenphp_tiered_cache.Contract.{Error, Item}
use frankenphp_tiered_cache.Tiered.State.{System, TieredCache}
use frankenphp_tiered_cache.Tiered.ManyState.{
  Scan, empty_scan, count_at, scan_miss, scan_hit, scanned,
}
use frankenphp_tiered_cache.Tiered.ReadMany.{scan_on, scan_l1}
use frankenphp_tiered_cache.Tiered.Correct.Misses.{
  occurs, IsScanOf, count_at-insert, sum_counts-append, occurs-append, Once-append,
  sum_counts-insert_other, sum_counts-insert-suc, count_at-le, add64_small,
}

scan_hit-IsScanOf :
    (n : ℕ) (key : Key) (item : Item) (s : Scan)
    → n + 1 < 2 ^ 63
    → IsScanOf n s
    → IsScanOf (n + 1) (scan_hit key item s)
unfolding scan_hit
scan_hit-IsScanOf n key item s small h = record {
  total = omega (arith, h.total, add64_small s.l1_hit_count 1 (omega (arith, h.total, small)));
  counted = h.counted;
  counts_of = h.counts_of;
  once = h.once;
}

-- The state after a miss, with the new count and whether the miss is new.
abbrev counted_miss : Key → ℕ → Bool → Scan → Scan
counted_miss key count new s = record s {
  l1_miss_count = add64 s.l1_miss_count 1;
  miss_counts = insert key count s.miss_counts;
  misses = if new then s.misses ++ key ∷ [] else s.misses;
}

new_miss-IsScanOf :
    (n : ℕ) (key : Key) (s : Scan)
    → n + 1 < 2 ^ 63
    → count_at key s.miss_counts ≡ 0
    → IsScanOf n s
    → IsScanOf (n + 1) (counted_miss key 1 true s)
new_miss-IsScanOf n key s small e h = record {
  total = omega (arith, h.total, add64_small s.l1_miss_count 1 (omega (arith, h.total, small)));
  counted = omega (
    arith,
    h.counted,
    add64_small s.l1_miss_count 1 (omega (arith, h.total, small)),
    sum_counts-append s.misses key (insert key 1 s.miss_counts),
    sum_counts-insert_other s.misses key 1 s.miss_counts absent,
    count_at-insert key key 1 s.miss_counts
        ∙ ap (λ b. if b then 1 else count_at key s.miss_counts) (key_eq_refl key),
  );
  counts_of = λ k.
      ground
        (arith, occurs-append s.misses key k, count_at-insert key k 1 s.miss_counts, h.counts_of k);
  once = Once-append s.misses key absent h.once;
}
  where
    absent : occurs key s.misses ≡ false
    absent = h.counts_of key ∙ ap (ltb 0) e

again-IsScanOf :
    (n : ℕ) (key : Key) (s : Scan)
    → n + 1 < 2 ^ 63
    → ltb 0 (count_at key s.miss_counts) ≡ true
    → IsScanOf n s
    → IsScanOf (n + 1) (counted_miss key (suc (count_at key s.miss_counts)) false s)
again-IsScanOf n key s small e h = record {
  total = omega (arith, h.total, add64_small s.l1_miss_count 1 (omega (arith, h.total, small)));
  counted = omega (
    arith,
    h.counted,
    add64_small s.l1_miss_count 1 (omega (arith, h.total, small)),
    sum_counts-insert-suc s.misses key s.miss_counts h.once (h.counts_of key ∙ e),
  );
  counts_of = λ k. again k (key_eq key k) refl;
  once = h.once;
}
  where
    again :
        (k : Key) (b : Bool)
        → key_eq key k ≡ b
        → occurs k s.misses
          ≡ ltb 0 (count_at k (insert key (suc (count_at key s.miss_counts)) s.miss_counts))
    again k true q =
        ap (λ x. occurs x s.misses) (sym ((key_eq_iff key k).0 q))
        ∙ h.counts_of key
        ∙ e
        ∙ ground (arith, q, count_at-insert key k (suc (count_at key s.miss_counts)) s.miss_counts)
    again k false q =
        h.counts_of k
        ∙ ground (arith, q, count_at-insert key k (suc (count_at key s.miss_counts)) s.miss_counts)

count_at_bound :
    (n : ℕ) (key : Key) (s : Scan)
    → IsScanOf n s
    → (b : Bool) → occurs key s.misses ≡ b
    → count_at key s.miss_counts ≤ n
count_at_bound n key s h true e =
    omega (arith, h.total, h.counted, count_at-le s.misses key s.miss_counts e)
count_at_bound n key s h false e = ground (arith, sym (h.counts_of key) ∙ e)

scan_miss-IsScanOf :
    (n : ℕ) (key : Key) (s : Scan)
    → n + 1 < 2 ^ 63
    → IsScanOf n s
    → IsScanOf (n + 1) (scan_miss key s)
unfolding scan_miss
scan_miss-IsScanOf n key s small h = go (count_at key s.miss_counts) refl
  where
    next : add64 (count_at key s.miss_counts) 1 ≡ suc (count_at key s.miss_counts)
    next = omega (
      arith,
      add64_small (count_at key s.miss_counts) 1
          (omega (arith, count_at_bound n key s h (occurs key s.misses) refl, small)),
    )

    later :
        (c : ℕ)
        → count_at key s.miss_counts ≡ suc c
        → false ≡ (add64 (count_at key s.miss_counts) 1 == 1)
    later c e = ground (arith, next, e)

    go :
        (c : ℕ)
        → count_at key s.miss_counts ≡ c
        → IsScanOf (n + 1) (
            counted_miss key
              (add64 (count_at key s.miss_counts) 1)
              (add64 (count_at key s.miss_counts) 1 == 1)
              s)
    go zero e =
        subst (λ v. IsScanOf (n + 1) (counted_miss key v (v == 1) s)) (sym (next ∙ ap suc e))
          (new_miss-IsScanOf n key s small e h)
    go (suc c) e =
        subst₂ (λ v b. IsScanOf (n + 1) (counted_miss key v b s)) (sym next) (later c e)
          (again-IsScanOf n key s small (ground (arith, e)) h)

scanned-IsScanOf :
    (n : ℕ) (key : Key) (value : Option Item) (s : Scan)
    → n + 1 < 2 ^ 63
    → IsScanOf n s
    → IsScanOf (n + 1) (scanned key value s)
scanned-IsScanOf n key none s small h = scan_miss-IsScanOf n key s small h
scanned-IsScanOf n key (some item) s small h = scan_hit-IsScanOf n key item s small h

pub empty_scan-IsScanOf : IsScanOf 0 empty_scan
unfolding lookup
empty_scan-IsScanOf = record { total = refl; counted = refl; counts_of = λ k. refl; once = tt }

-- What the first loop leaves, unless L1 failed.
abbrev pub ScansTo : ℕ → Error ⊎ Scan → Type 0
ScansTo n (inl e) = Unit
ScansTo n (inr s) = IsScanOf n s

one_more : (n : ℕ) (keys : List Key) → n + 1 + length keys ≡ n + suc (length keys)
one_more n keys = omega arith

module _ {S1 S2 B : Type 0} (sys : System S1 S2 B) where
  scan_on-ScansTo :
      (n : ℕ) (key : Key) (err : Option Error) (value : Option Item) (s : Scan)
      (t : TieredCache S1 S2 B)
      (rest : Scan → TieredCache S1 S2 B → TieredCache S1 S2 B × (Error ⊎ Scan)) (m : ℕ)
      → n + 1 < 2 ^ 63
      → IsScanOf n s
      → ((s2 : Scan) (u : TieredCache S1 S2 B) → IsScanOf (n + 1) s2 → ScansTo m (rest s2 u).1)
      → ScansTo m (scan_on sys key err value s t rest).1
  scan_on-ScansTo n key (some e) value s t rest m small h later = tt
  scan_on-ScansTo n key none value s t rest m small h later =
      later (scanned key value s) t (scanned-IsScanOf n key value s small h)

  pub scan_l1-ScansTo :
      (keys : List Key) (n : ℕ) (s : Scan) (t : TieredCache S1 S2 B)
      → n + length keys < 2 ^ 63
      → IsScanOf n s
      → ScansTo (n + length keys) (scan_l1 sys keys s t).1
  unfolding scan_l1
  scan_l1-ScansTo [] n s t small h = subst (λ m. IsScanOf m s) (omega arith) h
  scan_l1-ScansTo (key ∷ keys) n s t small h =
      let (l1, r) = sys.l1.get key t.l1 in
      scan_on-ScansTo n key r.error r.result s (record t { l1 = l1 })
        (λ s2 u. scan_l1 sys keys s2 u) (n + suc (length keys)) (omega (arith, small)) h
        (λ s2 u h2.
          subst (λ m. ScansTo m (scan_l1 sys keys s2 u).1) (one_more n keys)
            (scan_l1-ScansTo keys (n + 1) s2 u (omega (arith, small)) h2))
