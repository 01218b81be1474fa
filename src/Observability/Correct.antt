-- ===== src/Observability/Correct.antt =====
-- What holds of the metrics (internal/observability).
pub mod Counts
pub mod Buckets
pub mod Histogram
pub mod Evictions
pub mod Pressure
