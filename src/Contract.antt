-- ===== src/Contract.antt =====
-- The contract that the backends share (internal/cache/cache.go): errors, values and items. Error
-- texts are left out; what `errors.Is` can find in an error is kept.
use frankenphp_tiered_cache.Base.{ℕ, Bool, true, false, ◌||◌, Option, none, some, List, ◌==◌}
use frankenphp_tiered_cache.Base.Int.{ℤ, pos, leb_ℤ}

-- The error values that the packages declare.
pub data Sentinel : Type 0 where
  invalid_ttl nil_value item_too_large insufficient_memory counter_overflow redis_command : Sentinel
  closed l2_unavailable post_commit : Sentinel
  l1_mutation_not_stored l1_flush_not_completed : Sentinel

abbrev pub rank : Sentinel → ℕ
rank invalid_ttl = 0
rank nil_value = 1
rank item_too_large = 2
rank insufficient_memory = 3
rank counter_overflow = 4
rank redis_command = 5
rank closed = 6
rank l2_unavailable = 7
rank post_commit = 8
rank l1_mutation_not_stored = 9
rank l1_flush_not_completed = 10

-- `foreign` is an error made elsewhere (a socket, a parser); `wrap` is `fmt.Errorf("%w: %w")` and
-- `joined` is `errors.Join` of two errors that are not nil.
pub data Error : Type 0 where
  sentinel : Sentinel → Error
  foreign : ℕ → Error
  wrap : Error → Error → Error
  joined : Error → Error → Error

-- `errors.Is` for a declared error.
unfoldable pub is_error : Error → Sentinel → Bool
is_error (sentinel s) t = rank s == rank t
is_error (foreign _) t = false
is_error (wrap a b) t = is_error a t || is_error b t
is_error (joined a b) t = is_error a t || is_error b t

-- `errors.Join` on errors that may be nil.
abbrev pub join : Option Error → Option Error → Option Error
join none b = b
join (some a) none = some a
join (some a) (some b) = some (joined a b)

-- `err == nil`
abbrev pub is_nil : Option Error → Bool
is_nil none = true
is_nil (some _) = false

-- A byte slice: its bytes and its capacity. A nil slice is `none` of an `Option Bytes`.
pub record Bytes : Type 0 where
  pub content : List ℕ
  pub cap : ℕ

-- `time.Duration` in nanoseconds, which may be negative.
abbrev pub Duration : Type 0
Duration = ℤ

-- `ttl <= 0`
abbrev pub not_positive : Duration → Bool
not_positive ttl = leb_ℤ ttl (pos 0)

pub record Item : Type 0 where
  pub value : Bytes
  pub ttl : ℕ

-- A Go call that returns a value and an error.
pub record Reply (A : Type 0) : Type 0 where
  pub result : A
  pub error : Option Error

abbrev pub success : {A : Type 0} → A → Reply A
success a = record { result = a; error = none }

abbrev pub failure : {A : Type 0} → A → Sentinel → Reply A
failure a s = record { result = a; error = some (sentinel s) }
