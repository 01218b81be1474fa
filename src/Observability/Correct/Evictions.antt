-- ===== src/Observability/Correct/Evictions.antt =====
-- What a pressure reporter accounts for (internal/observability/pressure.go).
use frankenphp_tiered_cache.Base.{
  ℕ, ◌+◌, ◌^◌, ◌≤◌, ◌<◌, ◌≡◌, refl, ap, ◌∙◌, Bool, true, false, ◌||◌, List, [], ◌∷◌, ◌==◌,
  if◌then◌else◌, arith,
}
use frankenphp_tiered_cache.Base.Int.{ℤ, pos, negsuc, pos_part, ltb_ℤ, ◌+ℤ◌}
use frankenphp_tiered_cache.Base.Word.{add64}
use frankenphp_tiered_cache.Counter.{to_int64}
use frankenphp_tiered_cache.Observability.Pressure.{
  PressureSummary, PressureReporter, PressureEvent, eviction, observe_eviction,
}

-- The evictions of a list of events that count: at least one entry, and bytes that are not negative.
abbrev pub is_counted : ℕ → ℤ → Bool
is_counted entries bytes = if entries == 0 || ltb_ℤ bytes (pos 0) then false else true

-- The totals of one event.
abbrev pub entries_in : PressureEvent → ℕ
entries_in (eviction entries bytes) = if is_counted entries bytes then entries else 0
entries_in _ = 0

abbrev pub bytes_in : PressureEvent → ℕ
bytes_in (eviction entries bytes) = if is_counted entries bytes then pos_part bytes else 0
bytes_in _ = 0

unfoldable pub total_entries : List PressureEvent → ℕ
total_entries [] = 0
total_entries (e ∷ es) = entries_in e + total_entries es

unfoldable pub total_bytes : List PressureEvent → ℕ
total_bytes [] = 0
total_bytes (e ∷ es) = bytes_in e + total_bytes es

-- What was reported so far.
unfoldable pub reported_entries : List PressureSummary → ℕ
reported_entries [] = 0
reported_entries (s ∷ ss) = s.evicted_entries + reported_entries ss

unfoldable pub reported_bytes : List PressureSummary → ℕ
reported_bytes [] = 0
reported_bytes (s ∷ ss) = pos_part s.evicted_bytes + reported_bytes ss

-- Nothing is lost: what was reported and what is pending are these totals. Bytes wait only beside
-- entries.
pub record Accounts (entries bytes : ℕ) (r : PressureReporter) : Type 0 where
  pub waiting : ℕ
  pub is_waiting : r.evicted_bytes ≡ pos waiting
  pub entries_of : reported_entries r.reports + r.evicted_entries ≡ entries
  pub bytes_of : reported_bytes r.reports + waiting ≡ bytes
  pub with_entries : r.evicted_entries ≡ 0 → waiting ≡ 0

pub renumber :
    (e b e1 b1 : ℕ) (r : PressureReporter) → e ≡ e1 → b ≡ b1 → Accounts e b r → Accounts e1 b1 r
renumber e b e1 b1 r p q a = record {
  waiting = a.waiting;
  is_waiting = a.is_waiting;
  entries_of = a.entries_of ∙ p;
  bytes_of = a.bytes_of ∙ q;
  with_entries = a.with_entries;
}

to_int64_add : (m n : ℕ) → m + n < 2 ^ 63 → to_int64 (pos m +ℤ pos n) ≡ pos (m + n)
unfolding to_int64 ◌+ℤ◌
to_int64_add m n h = ground (arith, h)

add64_small : (m n : ℕ) → m + n < 2 ^ 64 → add64 m n ≡ m + n
unfolding add64
add64_small m n h = omega (arith, h)

is_pos :
    (entries : ℕ) (bytes : ℤ)
    → (entries == 0 || ltb_ℤ bytes (pos 0)) ≡ false
    → bytes ≡ pos (pos_part bytes)
is_pos entries (pos n) h = refl
is_pos entries (negsuc n) h = ground (arith, h)

is_positive :
    (entries : ℕ) (bytes : ℤ) → (entries == 0 || ltb_ℤ bytes (pos 0)) ≡ false → 1 ≤ entries
is_positive entries bytes h = ground (arith, h)

pub observe_eviction-Accounts :
    (entries : ℕ) (bytes : ℤ) (e b : ℕ) (r : PressureReporter)
    → Accounts e b r
    → (if is_counted entries bytes then entries else 0) + e < 2 ^ 64
    → (if is_counted entries bytes then pos_part bytes else 0) + b < 2 ^ 63
    → Accounts
        ((if is_counted entries bytes then entries else 0) + e)
        ((if is_counted entries bytes then pos_part bytes else 0) + b)
        (observe_eviction entries bytes r)
unfolding observe_eviction
observe_eviction-Accounts entries bytes e b r a he hb =
    go (entries == 0 || ltb_ℤ bytes (pos 0)) refl he hb
  where
    go :
        (ignored : Bool)
        → (entries == 0 || ltb_ℤ bytes (pos 0)) ≡ ignored
        → (if (if ignored then false else true) then entries else 0) + e < 2 ^ 64
        → (if (if ignored then false else true) then pos_part bytes else 0) + b < 2 ^ 63
        → Accounts
            ((if (if ignored then false else true) then entries else 0) + e)
            ((if (if ignored then false else true) then pos_part bytes else 0) + b)
            (if ignored then r else record r {
              evicted_entries = add64 r.evicted_entries entries;
              evicted_bytes = to_int64 (r.evicted_bytes +ℤ bytes);
            })
    go true h he hb = record {
      waiting = a.waiting;
      is_waiting = a.is_waiting;
      entries_of = omega (arith, a.entries_of);
      bytes_of = omega (arith, a.bytes_of);
      with_entries = a.with_entries;
    }
    go false h he hb = record {
      waiting = a.waiting + pos_part bytes;
      is_waiting =
          ap to_int64 (
            ap (λ x. x +ℤ bytes) a.is_waiting
            ∙ ap (λ x. pos a.waiting +ℤ x) (is_pos entries bytes h))
          ∙ to_int64_add a.waiting (pos_part bytes) (omega (arith, a.bytes_of, hb));
      entries_of = omega (
        arith,
        a.entries_of,
        add64_small r.evicted_entries entries (omega (arith, a.entries_of, he)),
      );
      bytes_of = omega (arith, a.bytes_of);
      with_entries = λ z. ground (
        arith,
        z,
        add64_small r.evicted_entries entries (omega (arith, a.entries_of, he)),
        is_positive entries bytes h,
      );
    }
