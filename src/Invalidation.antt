-- ===== src/Invalidation.antt =====
-- Invalidation events (internal/cache/invalidation/invalidation.go).
use frankenphp_tiered_cache.Base.{ℕ, Option, none, some, [], ◌==◌, if◌then◌else◌}
use frankenphp_tiered_cache.Base.Dict.{Key}

-- `other` stands for any type that the protocol does not know.
pub data EventType : Type 0 where
  invalidate flush other : EventType

-- A message between cache instances.
pub record Event : Type 0 where
  pub version : ℕ
  pub event_type : EventType
  pub key : Key
  pub origin : Key

pub data EventError : Type 0 where
  unsupported_version key_not_empty unsupported_type : EventError

abbrev pub protocol_version : ℕ
protocol_version = 1

abbrev pub validate_type : EventType → Key → Option EventError
validate_type invalidate key = none
validate_type flush [] = none
validate_type flush key = some key_not_empty
validate_type other key = some unsupported_type

-- `Event.Validate`; `none` is a nil error.
unfoldable pub validate : Event → Option EventError
validate e =
    if e.version == protocol_version
    then validate_type e.event_type e.key
    else some unsupported_version
