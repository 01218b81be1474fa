-- ===== src/Counter.antt =====
-- Signed 64-bit counters (internal/cache/memory/cache.go): `counterResult` and `checkedCounterAdd`
-- with the wrap-around of `int64` written out, and the decimal texts that `strconv` reads and
-- writes.
mod Arithmetic
mod Decimal
pub mod Bounds
mod Tests
unfoldable pub use Arithmetic.*
unfoldable pub use Decimal.*
