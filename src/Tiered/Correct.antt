-- ===== src/Tiered/Correct.antt =====
-- Theorems about `TieredCache`.
pub mod Keeps
pub mod Publish
pub mod Settle
pub mod Mutate
pub mod Marked
pub mod Retry
pub mod Recover
pub mod Healthy
pub mod Sound
pub mod Removal
pub mod Batch
pub mod Reads
pub mod Misses
pub mod Scan
pub mod Tally
pub mod ReadMany
pub mod ReadSafe
pub mod Events
pub mod Refuse
pub mod History
pub mod Build
pub mod Removes
pub mod Flushes
