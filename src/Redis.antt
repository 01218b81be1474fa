-- ===== src/Redis.antt =====
-- The Redis backend and the Redis invalidation bus (internal/cache/redis).
pub mod Config
pub mod Pattern
pub mod Wire
pub mod Client
pub mod Cache
pub mod Flush
pub mod Tracking
pub mod Subscription
pub mod Actions
pub mod Monitor
pub mod Correct
mod Tests
