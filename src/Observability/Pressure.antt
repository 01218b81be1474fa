-- ===== src/Observability/Pressure.antt =====
-- `PressureReporter` (internal/observability/pressure.go). The callback is the list of the summaries
-- that it was called with, the last one first.
use frankenphp_tiered_cache.Base.{
  ℕ, Bool, true, false, ◌||◌, ◌⊎◌, inl, inr, List, [], ◌∷◌, ◌==◌, if◌then◌else◌,
}
use frankenphp_tiered_cache.Base.Int.{ℤ, pos, ltb_ℤ, leb_ℤ, ◌+ℤ◌}
use frankenphp_tiered_cache.Base.Word.{add64}
use frankenphp_tiered_cache.Contract.{Duration}
use frankenphp_tiered_cache.Counter.{to_int64}

pub record PressureSummary : Type 0 where
  pub evicted_entries : ℕ
  pub evicted_bytes : ℤ
  pub window : Duration

-- `stopped` says that `run` has returned.
pub record PressureReporter : Type 0 where
  pub interval : Duration
  pub reports : List PressureSummary
  pub evicted_entries : ℕ
  pub evicted_bytes : ℤ
  pub stopped : Bool

pub data ReporterError : Type 0 where
  invalid_interval nil_reporter : ReporterError

-- `NewPressureReporter`; `has_report` says that the callback is not nil.
unfoldable pub new_pressure_reporter : Duration → Bool → ReporterError ⊎ PressureReporter
new_pressure_reporter interval has_report =
    if leb_ℤ interval (pos 0)
    then inl invalid_interval
    else if has_report
    then inr (record {
      interval = interval;
      reports = [];
      evicted_entries = 0;
      evicted_bytes = pos 0;
      stopped = false;
    })
    else inl nil_reporter

-- `Observe`
unfoldable pub observe_eviction : ℕ → ℤ → PressureReporter → PressureReporter
observe_eviction entries bytes r = if entries == 0 || ltb_ℤ bytes (pos 0) then r else record r {
  evicted_entries = add64 r.evicted_entries entries;
  evicted_bytes = to_int64 (r.evicted_bytes +ℤ bytes);
}

-- The summary that a flush reports.
abbrev pub summary_of : PressureReporter → PressureSummary
summary_of r = record {
  evicted_entries = r.evicted_entries;
  evicted_bytes = r.evicted_bytes;
  window = r.interval;
}

abbrev pub cleared : PressureReporter → PressureReporter
cleared r = record r { evicted_entries = 0; evicted_bytes = pos 0 }

unfoldable pub flush_pressure : PressureReporter → PressureReporter
flush_pressure r =
    if r.evicted_entries == 0
    then cleared r
    else record (cleared r) { reports = summary_of r ∷ r.reports }

-- What may happen to a reporter: an eviction, a tick of `run`, or `Close`, which ends `run` after a
-- last flush.
pub data PressureEvent : Type 0 where
  eviction : ℕ → ℤ → PressureEvent
  tick close : PressureEvent

unfoldable pub pressure_step : PressureEvent → PressureReporter → PressureReporter
unfolding flush_pressure
pressure_step (eviction entries bytes) r = observe_eviction entries bytes r
pressure_step tick r = if r.stopped then r else flush_pressure r
pressure_step close r = if r.stopped then r else record (flush_pressure r) { stopped = true }

-- A sequence of events, the first one first.
unfoldable pub pressure_run : List PressureEvent → PressureReporter → PressureReporter
pressure_run [] r = r
pressure_run (e ∷ es) r = pressure_run es (pressure_step e r)
