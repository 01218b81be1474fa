-- ===== src/Memory/Correct.antt =====
-- The operations of `MemoryCache`: what each stores, deletes and answers.
pub mod Stored
pub mod Retry
pub mod Attempt
pub mod Store
pub mod Single
pub mod Renew
pub mod Absent
pub mod Add
pub mod Expire
pub mod Build
pub mod Sweep
