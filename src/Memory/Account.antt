-- ===== src/Memory/Account.antt =====
-- What the two counters of `MemoryCache` count: the bytes and the number of the stored entries.
pub mod Totals
pub mod Invariant
pub mod Drop
pub mod Put
pub mod Purge
pub mod Choose
pub mod Evict
pub mod Room
