-- ===== src/Observability/Correct/Pressure.antt =====
-- What a pressure reporter reports (internal/observability/pressure.go).
use frankenphp_tiered_cache.Base.{
  ℕ, ◌+◌, ◌^◌, ◌<◌, ◌≡◌, refl, ap, Bool, true, false, List, [], ◌∷◌, ◌==◌, if◌then◌else◌, arith,
}
use frankenphp_tiered_cache.Base.Int.{pos, pos_part}
use frankenphp_tiered_cache.Contract.{Duration}
use frankenphp_tiered_cache.Observability.Pressure.{
  PressureSummary, PressureReporter, PressureEvent, eviction, tick, close, flush_pressure,
  summary_of, cleared, pressure_step, pressure_run,
}
use frankenphp_tiered_cache.Observability.Correct.Evictions.{
  entries_in, bytes_in, total_entries, total_bytes, reported_entries, reported_bytes, Accounts,
  renumber, observe_eviction-Accounts,
}

flush_pressure-Accounts :
    (e b : ℕ) (r : PressureReporter) → Accounts e b r → Accounts e b (flush_pressure r)
unfolding flush_pressure reported_entries reported_bytes
flush_pressure-Accounts e b r a = go (r.evicted_entries == 0) refl
  where
    go :
        (z : Bool)
        → r.evicted_entries == 0 ≡ z
        → Accounts e b
            (if z then cleared r else record (cleared r) { reports = summary_of r ∷ r.reports })
    go true z = record {
      waiting = 0;
      is_waiting = refl;
      entries_of = ground (arith, z, a.entries_of);
      bytes_of = ground (arith, a.bytes_of, a.with_entries (ground (arith, z)));
      with_entries = λ w. refl;
    }
    go false z = record {
      waiting = 0;
      is_waiting = refl;
      entries_of = omega (arith, a.entries_of);
      bytes_of = omega (arith, a.bytes_of, ap pos_part a.is_waiting);
      with_entries = λ w. refl;
    }

-- A turn of `run`, unless it has returned.
unless_stopped-Accounts :
    (stopped : Bool) (e b : ℕ) (r r1 : PressureReporter)
    → Accounts e b r
    → Accounts e b r1
    → Accounts e b (if stopped then r else r1)
unless_stopped-Accounts true e b r r1 a a1 = a
unless_stopped-Accounts false e b r r1 a a1 = a1

stopped-Accounts :
    (e b : ℕ) (r : PressureReporter) → Accounts e b r → Accounts e b (record r { stopped = true })
stopped-Accounts e b r a = record {
  waiting = a.waiting;
  is_waiting = a.is_waiting;
  entries_of = a.entries_of;
  bytes_of = a.bytes_of;
  with_entries = a.with_entries;
}

pressure_step-Accounts :
    (event : PressureEvent) (e b : ℕ) (r : PressureReporter)
    → Accounts e b r
    → entries_in event + e < 2 ^ 64
    → bytes_in event + b < 2 ^ 63
    → Accounts (entries_in event + e) (bytes_in event + b) (pressure_step event r)
unfolding pressure_step
pressure_step-Accounts (eviction entries bytes) e b r a he hb =
    observe_eviction-Accounts entries bytes e b r a he hb
pressure_step-Accounts tick e b r a he hb =
    renumber e b (0 + e) (0 + b) (if r.stopped then r else flush_pressure r) (omega arith)
      (omega arith)
      (unless_stopped-Accounts r.stopped e b r (flush_pressure r) a
        (flush_pressure-Accounts e b r a))
pressure_step-Accounts close e b r a he hb =
    renumber e b (0 + e) (0 + b)
      (if r.stopped then r else record (flush_pressure r) { stopped = true }) (omega arith)
      (omega arith)
      (unless_stopped-Accounts r.stopped e b r (record (flush_pressure r) { stopped = true }) a
        (stopped-Accounts e b (flush_pressure r) (flush_pressure-Accounts e b r a)))

pressure_run-Accounts :
    (es : List PressureEvent) (e b : ℕ) (r : PressureReporter)
    → Accounts e b r
    → total_entries es + e < 2 ^ 64
    → total_bytes es + b < 2 ^ 63
    → Accounts (total_entries es + e) (total_bytes es + b) (pressure_run es r)
unfolding pressure_run total_entries total_bytes
pressure_run-Accounts [] e b r a he hb =
    renumber e b (0 + e) (0 + b) r (omega arith) (omega arith) a
pressure_run-Accounts (event ∷ es) e b r a he hb =
    renumber (total_entries es + (entries_in event + e)) (total_bytes es + (bytes_in event + b))
      (entries_in event + total_entries es + e) (bytes_in event + total_bytes es + b)
      (pressure_run es (pressure_step event r)) (omega arith) (omega arith)
      (pressure_run-Accounts es (entries_in event + e) (bytes_in event + b) (pressure_step event r)
        (pressure_step-Accounts event e b r a (omega (arith, he)) (omega (arith, hb)))
        (omega (arith, he)) (omega (arith, hb)))

-- Right after a `Close` that ends `run`, everything counted has been reported.
close-Accounts :
    (e b : ℕ) (r : PressureReporter)
    → r.stopped ≡ false
    → Accounts e b r
    → (reported_entries (pressure_step close r).reports ≡ e)
      × (reported_bytes (pressure_step close r).reports ≡ b)
unfolding pressure_step flush_pressure reported_entries reported_bytes
close-Accounts e b r running a = go r.stopped (r.evicted_entries == 0) running refl
  where
    closed_reports : Bool → Bool → List PressureSummary
    closed_reports stopped none_pending =
        (if stopped
          then r
          else record (if none_pending
              then cleared r
              else record (cleared r) { reports = summary_of r ∷ r.reports }) {
                stopped = true;
              }).reports

    go :
        (stopped none_pending : Bool)
        → stopped ≡ false
        → r.evicted_entries == 0 ≡ none_pending
        → (reported_entries (closed_reports stopped none_pending) ≡ e)
          × (reported_bytes (closed_reports stopped none_pending) ≡ b)
    go true none_pending h z = ground (arith, h)
    go false true h z = (
      ground (arith, z, a.entries_of),
      ground (arith, a.bytes_of, a.with_entries (ground (arith, z))),
    )
    go false false h z =
        (omega (arith, a.entries_of), omega (arith, a.bytes_of, ap pos_part a.is_waiting))

-- The reporter that `NewPressureReporter` makes.
abbrev pub fresh : Duration → PressureReporter
fresh interval = record {
  interval = interval;
  reports = [];
  evicted_entries = 0;
  evicted_bytes = pos 0;
  stopped = false;
}

fresh-Accounts : (interval : Duration) → Accounts 0 0 (fresh interval)
unfolding reported_entries reported_bytes
fresh-Accounts interval = record {
  waiting = 0;
  is_waiting = refl;
  entries_of = refl;
  bytes_of = refl;
  with_entries = λ z. refl;
}

-- If the evicted entries of a reporter's life stay below 2^64 and their bytes below 2^63, then
-- whatever ticks fell between the evictions, after the `Close` that ends it the summaries it has
-- reported add up to exactly the evictions that count: those of at least one entry and of bytes
-- that are not negative.
pub reports_everything :
    (interval : Duration) (es : List PressureEvent)
    → total_entries es < 2 ^ 64
    → total_bytes es < 2 ^ 63
    → (pressure_run es (fresh interval)).stopped ≡ false
    → (reported_entries (pressure_step close (pressure_run es (fresh interval))).reports
        ≡ total_entries es)
      × (reported_bytes (pressure_step close (pressure_run es (fresh interval))).reports
          ≡ total_bytes es)
reports_everything interval es he hb running =
    let (e, b) =
      close-Accounts (total_entries es + 0) (total_bytes es + 0) (pressure_run es (fresh interval))
        running
        (pressure_run-Accounts es 0 0 (fresh interval) (fresh-Accounts interval) (omega (arith, he))
          (omega (arith, hb))) in
    (omega (arith, e), omega (arith, b))
