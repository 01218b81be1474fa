-- ===== src/Lib.antt =====
-- A verification library for the two-tier cache of frankenphp-tiered-cache.
--
-- The program is a cache for PHP: `MemoryCache` (L1, internal/cache/memory) in the process, Redis (L2)
-- behind it, and `TieredCache` (internal/cache/tiered) over both. A `TieredCache` writes Redis first,
-- which is authoritative, then L1, and then publishes an event on an invalidation bus
-- (internal/cache/invalidation), so that the other instances forget the key. An error of Redis, of the
-- bus, or of a flush of L1 degrades the cache: it refuses every call until a recovery has probed Redis,
-- retried the invalidations that wait, and flushed L1.
--
-- Files, with the code that they model:
--   Base            Go's strings as byte lists, maps as association lists, `int64` and `uint64`, and
--                   lists measured by native numbers.
--   Contract        internal/cache/cache.go: the declared errors and what `errors.Is` finds, values,
--                   items, and the pair of a result and an error that calls return.
--   Counter         counterResult, checkedCounterAdd, strconv's decimal texts; Arithmetic and Decimal
--                   define them, Bounds is about them.
--   Memory.State    internal/cache/memory/cache.go: the state of `MemoryCache`, shardFor, isExpired,
--                   itemCost, recordAccess, tryReserve.
--   Memory.Evict    evictFor, evictOneLRU, tryEvictCandidate, purgeExpired, notifyEviction.
--   Memory.Ops      Get, Set, Forever, Add, Forget, Touch, Flush, set, deleteExpired.
--   Memory.Count    Increment, Decrement, changeCounter.
--   Memory.Batch    GetMany, SetMany.
--   Memory.Config   internal/cache/memory/config.go, newMemoryCache.
--   Memory.Maintenance  internal/cache/memory/expiration.go and maintenance.go, one tick of
--                   runMaintenance.
--   Memory.Account  the invariant `IsValid` and what keeps it; Memory.Lookup what a key reads;
--                   Memory.Correct the operations.
--   Invalidation    internal/cache/invalidation/invalidation.go: events and Validate.
--   Observability   internal/observability: Observation has the calls that the cache makes on its
--                   metrics state, as data; State and Metrics are metrics.go, Histogram the histogram of
--                   collector.go, Pressure is pressure.go; Correct is about them.
--   Tiered.State    internal/cache/tiered/cache.go: the state, over any L1, L2 and bus; the checks that
--                   open an operation.
--   Tiered.Health   internal/cache/tiered/health.go.
--   Tiered.Publish, Tiered.Subscriber  internal/cache/tiered/invalidation.go.
--   Tiered.Commit, Tiered.Set, Tiered.SetMany, Tiered.Remove, Tiered.Count
--                   internal/cache/tiered/mutations.go.
--   Tiered.Build    newTieredCache, config.go and newInvalidationOrigin.
--   Tiered.Read, Tiered.ManyState, Tiered.ReadMany  Get and GetMany of internal/cache/tiered/read.go.
--   Tiered.Recovery internal/cache/tiered/recovery.go and lifecycle.go.
--   Redis.Config, Redis.Pattern, Redis.Wire, Redis.Client, Redis.Cache, Redis.Flush
--                   internal/cache/redis/config.go and cache.go: the prefix and its SCAN pattern, the
--                   scripts and their answers, `redisClient`, `RedisCache`.
--   Redis.Tracking, Redis.Subscription, Redis.Actions, Redis.Monitor
--                   internal/cache/redis/invalidation.go: tracking notifications, the channels and
--                   `Receive`, their interleavings, `Subscribe` and `monitorTracking`; Redis.Correct is
--                   about the Redis modules.
--   Tiered.History  sequences of these operations; Tiered.Correct is about all of them.
--
-- A function of the source takes the state and returns the new state beside its answer. What a lock
-- protects is one step; `Get` and `GetMany` of `TieredCache` are two and three, since they read Redis
-- without the lock. A recovery probes Redis and retries what waits without the lock of the mutations,
-- flushes L1 under it, and makes the cache healthy after it: these are four parts. In `try_recovery` any
-- function of the state stands for what others do between two parts, the rest of a mutation that has
-- begun before included; in Tiered.History the parts come between whole mutations, in any order. The clock,
-- the random choice of a shard, the hash, and the capacity of a new slice are functions of the
-- environment, which the n-th call reads at n; so they may answer anything. go-redis is a parameter too:
-- its commands, and what it finds in an error; what Redis documents of SCAN, MATCH, DEL and scripts is
-- the hypothesis of the theorems that need it (GlobLaws, ServerLaws, ScriptLaws). L1, L2 and the bus of a
-- `TieredCache` are records of operations over states of their own: nothing is assumed of them, and
-- their errors are values. An error keeps what `errors.Is` finds in it, not its text.
--
-- Loops run on fuel where they are not structural. evictFor gets a round for each entry and four more: a
-- round evicts an entry while there is one. The loop of set gets three attempts: the second has the
-- room that the first lacked. `none` means that the fuel ran out, and the entries below that say that
-- an operation ends exclude it. The invariant of `MemoryCache` bounds the memory limit by 2^62, below
-- which no sum of the code wraps; the product in evictFor may wrap, and does so in the model.
--
-- The deletion loop of Flush (Redis.Flush) runs on fuel that exceeds the SCAN calls of a traversal.
--
-- Not modelled: the JSON of the bus and the options of its client, the goroutines' lives, what the
-- collector hands to Prometheus (internal/observability/collector.go) but for its histogram, and the
-- PHP extension. Operations of `MemoryCache` do not interleave.
pub mod Base
pub mod Contract
pub mod Memory
pub mod Counter
pub mod Invalidation
pub mod Observability
pub mod Tiered
pub mod Redis
