-- ===== src/Redis/Correct.antt =====
-- What holds of the Redis backend and of the invalidation bus (internal/cache/redis).
pub mod Pattern
pub mod Walk
pub mod Server
pub mod Flush
pub mod Script
pub mod Read
pub mod Write
pub mod Tracking
pub mod Owed
pub mod Life
