-- ===== src/Memory.antt =====
-- The process-local cache (internal/cache/memory).
pub mod State
pub mod Account
pub mod Evict
pub mod Ops
pub mod Count
pub mod Config
pub mod Maintenance
pub mod Batch
pub mod Lookup
pub mod Correct
mod Tests
