-- ===== src/Observability.antt =====
-- Metrics (internal/observability).
pub mod Observation
pub mod State
pub mod Metrics
pub mod Histogram
pub mod Pressure
pub mod Correct
mod Tests
