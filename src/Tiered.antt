-- ===== src/Tiered.antt =====
-- The two-tier cache (internal/cache/tiered).
pub mod State
pub mod Health
pub mod Publish
pub mod Commit
pub mod Set
pub mod SetMany
pub mod Remove
pub mod Count
pub mod Read
pub mod ManyState
pub mod ReadMany
pub mod Recovery
pub mod Subscriber
pub mod History
pub mod Build
pub mod Correct
mod Tests
