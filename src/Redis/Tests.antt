-- ===== src/Redis/Tests.antt =====
-- The Redis backend on concrete inputs (internal/cache/redis).
mod Server
mod Flush
mod Read
mod Bus
