-- ===== src/Tiered/Correct/Misses.antt =====
-- The miss counts of `GetMany` (internal/cache/tiered/read.go).
use frankenphp_tiered_cache.Base.{
  ℕ, suc, ◌+◌, ◌^◌, ◌≤◌, ◌<◌, ◌≡◌, refl, sym, ap, ◌∙◌, Bool, true, false, some, List, [], ◌∷◌, ◌++◌,
  ltb, if◌then◌else◌, arith,
}
use frankenphp_tiered_cache.Base.Dict.{Key, key_eq, key_eq_iff, lookup, insert, lookup-insert}
use frankenphp_tiered_cache.Base.Word.{add64}
use frankenphp_tiered_cache.Tiered.ManyState.{Scan, count_of, count_at}

-- The sum of the counts of some keys.
abbrev pub sum_counts : List Key → List (Key × ℕ) → ℕ
sum_counts [] counts = 0
sum_counts (k ∷ ks) counts = count_at k counts + sum_counts ks counts

abbrev pub occurs : Key → List Key → Bool
occurs k [] = false
occurs k (j ∷ ks) = if key_eq j k then true else occurs k ks

-- No key stands twice.
abbrev Once : List Key → Type 0
Once [] = Unit
Once (k ∷ ks) = (occurs k ks ≡ false) × Once ks

-- A scan of `n` keys: its misses are the keys with a count, and the counts add up.
pub record IsScanOf (n : ℕ) (s : Scan) : Type 0 where
  pub total : s.l1_hit_count + s.l1_miss_count ≡ n
  pub counted : sum_counts s.misses s.miss_counts ≡ s.l1_miss_count
  pub counts_of : (k : Key) → occurs k s.misses ≡ ltb 0 (count_at k s.miss_counts)
  pub once : Once s.misses

pub count_at-insert :
    (k j : Key) (v : ℕ) (m : List (Key × ℕ))
    → count_at j (insert k v m) ≡ (if key_eq k j then v else count_at j m)
count_at-insert k j v m = ap count_of (lookup-insert k j v m) ∙ go (key_eq k j)
  where
    go : (b : Bool) → count_of (if b then some v else lookup j m) ≡ (if b then v else count_at j m)
    go true = refl
    go false = refl

pub sum_counts-append :
    (ks : List Key) (k : Key) (m : List (Key × ℕ))
    → sum_counts (ks ++ k ∷ []) m ≡ sum_counts ks m + count_at k m
sum_counts-append [] k m = omega arith
sum_counts-append (j ∷ ks) k m = omega (arith, sum_counts-append ks k m)

pub occurs-append :
    (ks : List Key) (k j : Key)
    → occurs j (ks ++ k ∷ []) ≡ (if occurs j ks then true else key_eq k j)
occurs-append [] k j = ground arith
occurs-append (i ∷ ks) k j = ground (arith, occurs-append ks k j)

pub Once-append : (ks : List Key) (k : Key) → occurs k ks ≡ false → Once ks → Once (ks ++ k ∷ [])
Once-append [] k h o = (refl, tt)
Once-append (j ∷ ks) k h (o, more) = (
  ground (arith, occurs-append ks k j, h, o, key_eq_iff k j, key_eq_iff j k),
  Once-append ks k (ground (arith, h)) more,
)

key_eq_flip : (j k : Key) (b : Bool) → key_eq j k ≡ b → key_eq k j ≡ b
key_eq_flip j k true e = (key_eq_iff k j).1 (sym ((key_eq_iff j k).0 e))
key_eq_flip j k false e = ground (arith, e, key_eq_iff k j, key_eq_iff j k)

-- A new count of a key that is not among these, and of one that is.
pub sum_counts-insert_other :
    (ks : List Key) (k : Key) (v : ℕ) (m : List (Key × ℕ))
    → occurs k ks ≡ false
    → sum_counts ks (insert k v m) ≡ sum_counts ks m
sum_counts-insert_other [] k v m h = refl
sum_counts-insert_other (j ∷ ks) k v m h = ground (
  arith,
  h,
  count_at-insert k j v m,
  key_eq_iff k j,
  key_eq_iff j k,
  sum_counts-insert_other ks k v m,
)

pub sum_counts-insert-suc :
    (ks : List Key) (k : Key) (m : List (Key × ℕ))
    → Once ks
    → occurs k ks ≡ true
    → sum_counts ks (insert k (suc (count_at k m)) m) ≡ suc (sum_counts ks m)
sum_counts-insert-suc [] k m o h = ground (arith, h)
sum_counts-insert-suc (j ∷ ks) k m (o, more) h =
    go (key_eq j k) refl h (sum_counts-insert-suc ks k m more)
  where
    go :
        (b : Bool)
        → key_eq j k ≡ b
        → (if b then true else occurs k ks) ≡ true
        → (occurs k ks ≡ true
            → sum_counts ks (insert k (suc (count_at k m)) m) ≡ suc (sum_counts ks m))
        → count_at j (insert k (suc (count_at k m)) m)
            + sum_counts ks (insert k (suc (count_at k m)) m)
          ≡ suc (count_at j m + sum_counts ks m)
    go true e h rest =
        let jk = (key_eq_iff j k).0 e in
        omega (
          arith,
          count_at-insert k j (suc (count_at k m)) m
              ∙ ap (λ b. if b then suc (count_at k m) else count_at j m)
                  ((key_eq_iff k j).1 (sym jk)),
          sum_counts-insert_other ks k (suc (count_at k m)) m (ap (λ x. occurs x ks) (sym jk) ∙ o),
          ap (λ x. count_at x m) jk,
        )
    go false e h rest = omega (
      arith,
      count_at-insert k j (suc (count_at k m)) m
          ∙ ap (λ b. if b then suc (count_at k m) else count_at j m) (key_eq_flip j k false e),
      rest h,
    )

pub count_at-le :
    (ks : List Key) (k : Key) (m : List (Key × ℕ))
    → occurs k ks ≡ true
    → count_at k m ≤ sum_counts ks m
count_at-le [] k m h = ground (arith, h)
count_at-le (j ∷ ks) k m h = go (key_eq j k) refl h (count_at-le ks k m)
  where
    go :
        (b : Bool)
        → key_eq j k ≡ b
        → (if b then true else occurs k ks) ≡ true
        → (occurs k ks ≡ true → count_at k m ≤ sum_counts ks m)
        → count_at k m ≤ count_at j m + sum_counts ks m
    go true e h rest = omega (arith, ap (λ x. count_at x m) ((key_eq_iff j k).0 e))
    go false e h rest = omega (arith, rest h)

pub add64_small : (m n : ℕ) → m + n < 2 ^ 63 → add64 m n ≡ m + n
unfolding add64
add64_small m n h = omega (arith, h)
