-- ===== src/Redis/Tracking.antt =====
-- Redis tracking notifications (`decodeTrackingInvalidations` and its helpers in
-- internal/cache/redis/invalidation.go).
use frankenphp_tiered_cache.Base.{Bool, true, false, ◌||◌, Option, none, some, List, [], ◌∷◌, ◌++◌}
use frankenphp_tiered_cache.Base.Dict.{Key, key_eq}
use frankenphp_tiered_cache.Invalidation.{Event, flush, protocol_version}
use frankenphp_tiered_cache.Redis.Wire.{Value, bytes, text}

-- A part of a push notification: a nil value, one of the two list types that the code names, or
-- any other value.
pub data Part : Type 0 where
  missing : Part
  values : List Value → Part
  strings : List Key → Part
  scalar : Value → Part

-- The events and whether the marker wants a refresh; the error's text is left out.
pub data Decoded : Type 0 where
  decoded : List Event → Bool → Decoded
  malformed_notification : Decoded

-- __invalidation
abbrev pub invalidation_channel_suffix : Key
invalidation_channel_suffix =
    b'_' ∷ b'_' ∷ b'i' ∷ b'n' ∷ b'v' ∷ b'a' ∷ b'l' ∷ b'i' ∷ b'd' ∷ b'a' ∷ b't' ∷ b'i' ∷ b'o' ∷ b'n'
    ∷ []

unfoldable pub invalidation_channel : Key → Key
invalidation_channel key_prefix = key_prefix ++ invalidation_channel_suffix

-- The name of the notification.
abbrev pub invalidate_name : Key
invalidate_name = b'i' ∷ b'n' ∷ b'v' ∷ b'a' ∷ b'l' ∷ b'i' ∷ b'd' ∷ b'a' ∷ b't' ∷ b'e' ∷ []

-- A zero byte, then frankenphp-tiered-cache:l1-generation
abbrev pub tracking_key_suffix : Key
tracking_key_suffix =
    0 ∷ b'f' ∷ b'r' ∷ b'a' ∷ b'n' ∷ b'k' ∷ b'e' ∷ b'n' ∷ b'p' ∷ b'h' ∷ b'p' ∷ b'-' ∷ b't' ∷ b'i'
    ∷ b'e' ∷ b'r' ∷ b'e' ∷ b'd' ∷ b'-' ∷ b'c' ∷ b'a' ∷ b'c' ∷ b'h' ∷ b'e' ∷ b':' ∷ b'l' ∷ b'1'
    ∷ b'-' ∷ b'g' ∷ b'e' ∷ b'n' ∷ b'e' ∷ b'r' ∷ b'a' ∷ b't' ∷ b'i' ∷ b'o' ∷ b'n' ∷ []

abbrev pub redis_flush_event : Event
redis_flush_event = record { version = protocol_version; event_type = flush; key = []; origin = [] }

unfoldable pub redis_tracking_key : Value → Option Key
redis_tracking_key (text s) = some s
redis_tracking_key (bytes s) = some s
redis_tracking_key _ = none

abbrev pub either_changed : Option Key → Key → Option Bool → Option Bool
either_changed none tracking_key rest = none
either_changed (some k) tracking_key none = none
either_changed (some k) tracking_key (some b) = some (key_eq k tracking_key || b)

-- The loop over the keys: whether one is the marker, or none at a value that is no key.
unfoldable pub marker_changed : Key → List Value → Option Bool
marker_changed tracking_key [] = some false
marker_changed tracking_key (v ∷ vs) =
    either_changed (redis_tracking_key v) tracking_key (marker_changed tracking_key vs)

abbrev pub as_values : List Key → List Value
as_values [] = []
as_values (k ∷ ks) = text k ∷ as_values ks

abbrev pub decoded_change : Option Bool → Decoded
decoded_change none = malformed_notification
decoded_change (some true) = decoded (redis_flush_event ∷ []) true
decoded_change (some false) = decoded [] false

abbrev pub decode_list : Key → Part → Decoded
decode_list tracking_key missing = decoded (redis_flush_event ∷ []) true
decode_list tracking_key (values vs) = decoded_change (marker_changed tracking_key vs)
decode_list tracking_key (strings ks) = decoded_change (marker_changed tracking_key (as_values ks))
decode_list tracking_key (scalar _) = malformed_notification

abbrev pub if_named : Bool → Decoded → Decoded
if_named true d = d
if_named false d = malformed_notification

unfoldable pub decode_tracking_invalidations : Key → List Part → Decoded
unfolding marker_changed
decode_tracking_invalidations tracking_key (scalar (text name) ∷ list ∷ []) =
    if_named (key_eq name invalidate_name) (decode_list tracking_key list)
decode_tracking_invalidations tracking_key _ = malformed_notification
