-- ===== src/Observability/Correct/Buckets.antt =====
-- The buckets of a histogram (internal/observability/metrics.go and collector.go).
use mathlib.Core.Path.{subst}
use frankenphp_tiered_cache.Base.{
  ℕ, suc, ◌+◌, ◌%◌, ◌≤◌, ◌≡◌, refl, sym, ap, ◌∙◌, Bool, true, false, ◌&&◌, List, [], ◌∷◌, leb,
  length, get_or, map, All, length-set, if◌then◌else◌, arith, leb→le, le→leb,
}
use frankenphp_tiered_cache.Base.Word.{word_mod, add64}
use frankenphp_tiered_cache.Observability.Observation.{Operation, Observation, l2_call}
use frankenphp_tiered_cache.Observability.Metrics.{add_at, bucket_of}
use frankenphp_tiered_cache.Observability.State.{l2_latency_bucket_upper_bounds}
use frankenphp_tiered_cache.Observability.Histogram.{cumulative_buckets}
use frankenphp_tiered_cache.Observability.Correct.Counts.{same_operation}

-- How many members of a list satisfy a test.
unfoldable pub count_if : {A : Type 0} → (A → Bool) → List A → ℕ
count_if p [] = 0
count_if p (x ∷ xs) = if p x then suc (count_if p xs) else count_if p xs

abbrev pub is_call : Operation → Observation → Bool
is_call op (l2_call a elapsed class) = same_operation a op
is_call op _ = false

abbrev pub is_call_within : Operation → ℕ → Observation → Bool
is_call_within op bound (l2_call a elapsed class) = same_operation a op && leb elapsed bound
is_call_within op bound _ = false

abbrev Ascending : ℕ → List ℕ → Type 0
Ascending low [] = Unit
Ascending low (b ∷ bs) = (low ≤ b) × Ascending b bs

-- The index of the first bound that is not below, counted from here.
unfoldable pub bucket_from : ℕ → List ℕ → ℕ
bucket_from e [] = 0
bucket_from e (b ∷ bs) = if leb e b then 0 else suc (bucket_from e bs)

bucket_of-bucket_from :
    (e i : ℕ) (bs : List ℕ) → i + length bs ≡ 15 → bucket_of e i bs ≡ i + bucket_from e bs
unfolding bucket_of bucket_from
bucket_of-bucket_from e i [] h = omega (arith, h)
bucket_of-bucket_from e i (b ∷ bs) h =
    ground (arith, h, bucket_of-bucket_from e (suc i) bs (omega (arith, h)))

-- Each bound with the number of calls up to it.
abbrev Holds : (ℕ → ℕ) → ℕ × ℕ → Type 0
Holds f p = p.1 ≡ f p.0 % word_mod

abbrev pub Agrees : (ℕ → ℕ) → List (ℕ × ℕ) → Type 0
Agrees f ps = All (Holds f) ps

abbrev pub and_within : ℕ → (ℕ → ℕ) → ℕ → ℕ
and_within e f b = if leb e b then suc (f b) else f b

add64-suc : (s c n : ℕ) → add64 s c ≡ n % word_mod → add64 (add64 s c) 1 ≡ suc n % word_mod
unfolding add64
add64-suc s c n h = omega (arith, h)

add64_assoc : (s c d : ℕ) → add64 s (add64 c d) ≡ add64 (add64 s c) d
unfolding add64
add64_assoc s c d = omega arith

add64_swap : (s c d : ℕ) → add64 (add64 s d) c ≡ add64 (add64 s c) d
unfolding add64
add64_swap s c d = omega arith

and_within_le : (e : ℕ) (f : ℕ → ℕ) (b : ℕ) → e ≤ b → and_within e f b ≡ suc (f b)
and_within_le e f b h = ap (λ x. if x then suc (f b) else f b) (le→leb e b h)

-- One more call below the first bound is one more call everywhere.
cumulative_buckets-suc :
    (e low s : ℕ) (f : ℕ → ℕ) (bounds counts : List ℕ)
    → e ≤ low
    → Ascending low bounds
    → Agrees f (cumulative_buckets s bounds counts)
    → Agrees (and_within e f) (cumulative_buckets (add64 s 1) bounds counts)
unfolding cumulative_buckets
cumulative_buckets-suc e low s f [] counts le up h = tt
cumulative_buckets-suc e low s f (b ∷ bs) [] le up h = tt
cumulative_buckets-suc e low s f (b ∷ bs) (c ∷ cs) le up h = (
  add64_swap s c 1
      ∙ add64-suc s c (f b) h.0
      ∙ ap (λ n. n % word_mod) (sym (and_within_le e f b (omega (arith, le, up.0)))),
  subst (λ x. Agrees (and_within e f) (cumulative_buckets x bs cs)) (sym (add64_swap s c 1))
      (cumulative_buckets-suc e b (add64 s c) f bs cs (omega (arith, le, up.0)) up.1 h.1),
)

-- One more call in its bucket is one more call for every bound that it is within.
pub cumulative_buckets-add_at :
    (e low s : ℕ) (f : ℕ → ℕ) (bounds counts : List ℕ)
    → Ascending low bounds
    → Agrees f (cumulative_buckets s bounds counts)
    → Agrees (and_within e f) (cumulative_buckets s bounds (add_at (bucket_from e bounds) 1 counts))
unfolding cumulative_buckets add_at bucket_from
cumulative_buckets-add_at e low s f [] counts up h = tt
cumulative_buckets-add_at e low s f (b ∷ bs) [] up h = tt
cumulative_buckets-add_at e low s f (b ∷ bs) (c ∷ cs) up h =
    go (leb e b) refl (cumulative_buckets-add_at e b (add64 s c) f bs cs up.1 h.1)
  where
    go :
        (within : Bool)
        → leb e b ≡ within
        → Agrees
            (and_within e f)
            (cumulative_buckets (add64 s c) bs (add_at (bucket_from e bs) 1 cs))
        → Agrees (and_within e f) (
            cumulative_buckets s
              (b ∷ bs)
              (add_at (if within then 0 else suc (bucket_from e bs)) 1 (c ∷ cs)))
    go true w later = (
      add64_assoc s c 1
          ∙ add64-suc s c (f b) h.0
          ∙ ap (λ n. n % word_mod) (sym (and_within_le e f b (leb→le e b w))),
      subst (λ x. Agrees (and_within e f) (cumulative_buckets x bs cs)) (sym (add64_assoc s c 1))
          (cumulative_buckets-suc e b (add64 s c) f bs cs (leb→le e b w) up.1 h.1),
    )
    go false w later =
        (h.0 ∙ ap (λ n. n % word_mod) (ap (λ x. if x then suc (f b) else f b) (sym w)), later)

pub bounds-Ascending : Ascending 0 l2_latency_bucket_upper_bounds
bounds-Ascending = (
  omega arith,
  (
    omega arith,
    (
      omega arith,
      (
        omega arith,
        (
          omega arith,
          (
            omega arith,
            (
              omega arith,
              (
                omega arith,
                (
                  omega arith,
                  (
                    omega arith,
                    (omega arith, (omega arith, (omega arith, (omega arith, (omega arith, tt))))),
                  ),
                ),
              ),
            ),
          ),
        ),
      ),
    ),
  ),
)

pub bucket_of_bounds :
    (e : ℕ)
    → bucket_from e l2_latency_bucket_upper_bounds ≡ bucket_of e 0 l2_latency_bucket_upper_bounds
bucket_of_bounds e = omega (arith, bucket_of-bucket_from e 0 l2_latency_bucket_upper_bounds refl)

pub add64_next : (c n : ℕ) → c ≡ n % word_mod → add64 c 1 ≡ suc n % word_mod
unfolding add64
add64_next c n h = omega (arith, h)

pub Agrees-ext :
    (f g : ℕ → ℕ) (ps : List (ℕ × ℕ)) → ((b : ℕ) → f b ≡ g b) → Agrees f ps → Agrees g ps
Agrees-ext f g [] e h = tt
Agrees-ext f g (p ∷ ps) e h = (h.0 ∙ ap (λ n. n % word_mod) (e p.0), Agrees-ext f g ps e h.1)

pub length-add_at : (i n : ℕ) (xs : List ℕ) → length (add_at i n xs) ≡ length xs
unfolding add_at
length-add_at i n xs = length-set xs i (add64 (get_or xs i 0) n)

pub map-cumulative_buckets :
    (s : ℕ) (bounds counts : List ℕ)
    → length bounds ≤ length counts
    → map (λ p. p.0) (cumulative_buckets s bounds counts) ≡ bounds
unfolding cumulative_buckets
map-cumulative_buckets s [] counts h = refl
map-cumulative_buckets s (b ∷ bs) [] h = ground (arith, h)
map-cumulative_buckets s (b ∷ bs) (c ∷ cs) h =
    ap (λ x. b ∷ x) (map-cumulative_buckets (add64 s c) bs cs (omega (arith, h)))
