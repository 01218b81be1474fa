-- ===== src/Redis/Cache.antt =====
-- `RedisCache` (internal/cache/redis/cache.go). What errors.Is and errors.As find in an error of
-- go-redis is a parameter.
use frankenphp_tiered_cache.Base.{
  Bool, true, false, ◌&&◌, ◌||◌, ◌⊎◌, inl, inr, Option, none, some, List, [], ◌∷◌, if◌then◌else◌,
}
use frankenphp_tiered_cache.Base.Int.{ℤ, pos, ltb_ℤ}
use frankenphp_tiered_cache.Base.Dict.{Key, key_eq, lookup, insert}
use frankenphp_tiered_cache.Contract.{
  Bytes, Duration, Error, Reply, sentinel, wrap, invalid_ttl, nil_value, redis_command, failure,
  success, is_nil, not_positive,
}
use frankenphp_tiered_cache.Redis.Config.{Config, ConfigError, normalized}
use frankenphp_tiered_cache.Redis.Pattern.{prefixed_key}
use frankenphp_tiered_cache.Redis.Wire.{TimedItem}
use frankenphp_tiered_cache.Redis.Client.{Client}

-- The prefixes that `isLogicalCounterError` looks for.
pub data LogicalError : Type 0 where
  not_an_integer would_overflow decrement_would_overflow wrong_type : LogicalError

-- What go-redis finds in an error: its Nil reply, an error that the server sent, and the prefix of
-- the server's text.
pub record ErrorTests : Type 0 where
  pub is_nil_reply : Error → Bool
  pub is_redis_error : Error → Bool
  pub has_error_prefix : Error → LogicalError → Bool

-- `closed_once` says that the function of `closeOnce` ran.
pub record RedisCache (S : Type 0) : Type 0 where
  pub client : S
  pub key_prefix : Key
  pub closed_once : Bool
  pub close_err : Option Error

abbrev built : {S : Type 0} → (Config → S) → ConfigError ⊎ Config → ConfigError ⊎ RedisCache S
built new_client (inl e) = inl e
built new_client (inr c) = inr (record {
  client = new_client c;
  key_prefix = c.key_prefix;
  closed_once = false;
  close_err = none;
})

-- `New`, with what go-redis makes of the options.
unfoldable pub new_redis_cache : {S : Type 0} → (Config → S) → Config → ConfigError ⊎ RedisCache S
new_redis_cache new_client config = built new_client (normalized config)

abbrev pub committed : Option Error → Reply Bool
committed none = success true
committed (some e) = record { result = false; error = some e }

unfoldable pub is_logical_counter_error : ErrorTests → Error → Bool
is_logical_counter_error tests e =
    tests.has_error_prefix e not_an_integer
    || tests.has_error_prefix e would_overflow
    || tests.has_error_prefix e decrement_would_overflow
    || tests.has_error_prefix e wrong_type

unfoldable pub wrap_redis_command_error : ErrorTests → Option Error → Option Error
wrap_redis_command_error tests none = none
wrap_redis_command_error tests (some e) =
    if tests.is_redis_error e && is_logical_counter_error tests e
    then some (wrap (sentinel redis_command) e)
    else some e

-- `errors.Is(err, goredis.Nil)`
abbrev pub is_missing : ErrorTests → Option Error → Bool
is_missing tests none = false
is_missing tests (some e) = tests.is_nil_reply e

abbrev pub is_member : Key → List Key → Bool
is_member k [] = false
is_member k (j ∷ ks) = if key_eq j k then true else is_member k ks

-- The loop that collects the prefixed keys, with the keys seen so far.
unfoldable pub distinct_prefixed : Key → List Key → List Key → List Key
distinct_prefixed key_prefix seen [] = []
distinct_prefixed key_prefix seen (key ∷ keys) =
    let again = distinct_prefixed key_prefix seen keys in
    let rest = distinct_prefixed key_prefix (prefixed_key key_prefix key ∷ seen) keys in
    if is_member (prefixed_key key_prefix key) seen
    then again
    else prefixed_key key_prefix key ∷ rest

abbrev pub put_found : Key → Option TimedItem → List (Key × TimedItem) → List (Key × TimedItem)
put_found key none result = result
put_found key (some i) result = insert key i result

-- The loop that maps the found keys back, with the result so far.
unfoldable pub collect_found :
    Key → List (Key × TimedItem) → List Key → List (Key × TimedItem) → List (Key × TimedItem)
collect_found key_prefix found [] result = result
collect_found key_prefix found (key ∷ keys) result =
    collect_found key_prefix found keys
      (put_found key (lookup (prefixed_key key_prefix key) found) result)

abbrev pub prefixed_onto : Key → Bytes → Option (List (Key × Bytes)) → Option (List (Key × Bytes))
prefixed_onto key value none = none
prefixed_onto key value (some rest) = some ((key, value) ∷ rest)

-- The loop that prefixes a batch; `none` is a nil value. A Go map has no key twice.
unfoldable pub prefixed_values : Key → List (Key × Option Bytes) → Option (List (Key × Bytes))
prefixed_values key_prefix [] = some []
prefixed_values key_prefix ((key, none) ∷ values) = none
prefixed_values key_prefix ((key, some value) ∷ values) =
    prefixed_onto (prefixed_key key_prefix key) value (prefixed_values key_prefix values)

module _ {S : Type 0} where
  -- A call of the client, and what it answered.
  abbrev pub call : {A : Type 0} → (S → S × A) → RedisCache S → RedisCache S × A
  call f c = (let (s, a) = f c.client in (record c { client = s }, a))

  abbrev pub key_of : RedisCache S → Key → Key
  key_of c key = prefixed_key c.key_prefix key

  abbrev pub committed_call : (S → S × Option Error) → RedisCache S → RedisCache S × Reply Bool
  committed_call f c = (let (c1, e) = call f c in (c1, committed e))

module _ {S : Type 0} (impl : Client S) (tests : ErrorTests) where
  abbrev pub found_or_nothing : Reply (Option TimedItem) → Reply (Option TimedItem)
  found_or_nothing r = if is_missing tests r.error then success none else r

  unfoldable pub get : Key → RedisCache S → RedisCache S × Reply (Option TimedItem)
  get key c = (let (c1, r) = call (impl.get (key_of c key)) c in (c1, found_or_nothing r))

  abbrev pub counted : Reply ℤ → Reply ℤ
  counted r = record { result = r.result; error = wrap_redis_command_error tests r.error }

  unfoldable pub increment : Key → ℤ → RedisCache S → RedisCache S × Reply ℤ
  increment key value c =
      let (c1, r) = call (impl.incr_by (key_of c key) value) c in (c1, counted r)

  unfoldable pub decrement : Key → ℤ → RedisCache S → RedisCache S × Reply ℤ
  decrement key value c =
      let (c1, r) = call (impl.decr_by (key_of c key) value) c in (c1, counted r)

module _ {S : Type 0} (impl : Client S) where
  abbrev pub found_many :
      Key → List Key → Reply (List (Key × TimedItem)) → Reply (List (Key × TimedItem))
  found_many key_prefix keys r =
      if is_nil r.error
      then success (collect_found key_prefix r.result keys [])
      else record { result = []; error = r.error }

  unfoldable pub get_many : List Key → RedisCache S → RedisCache S × Reply (List (Key × TimedItem))
  get_many [] c = (c, success [])
  get_many (key ∷ keys) c =
      let (c1, r) = call (impl.get_many (distinct_prefixed c.key_prefix [] (key ∷ keys))) c in
      (c1, found_many c.key_prefix (key ∷ keys) r)

  abbrev set_some : Key → Option Bytes → Duration → RedisCache S → RedisCache S × Reply Bool
  set_some key none ttl c = (c, failure false nil_value)
  set_some key (some value) ttl c = committed_call (impl.set (key_of c key) value ttl) c

  unfoldable pub set : Key → Option Bytes → Duration → RedisCache S → RedisCache S × Reply Bool
  set key value ttl c =
      let stored = set_some key value ttl c in
      if not_positive ttl then (c, failure false invalid_ttl) else stored

  abbrev add_some : Key → Option Bytes → Duration → RedisCache S → RedisCache S × Reply Bool
  add_some key none ttl c = (c, failure false nil_value)
  add_some key (some value) ttl c = call (impl.set_nx (key_of c key) value ttl) c

  unfoldable pub add : Key → Option Bytes → Duration → RedisCache S → RedisCache S × Reply Bool
  add key value ttl c =
      let stored = add_some key value ttl c in
      if not_positive ttl then (c, failure false invalid_ttl) else stored

  abbrev set_prefixed :
      Option (List (Key × Bytes)) → Duration → RedisCache S → RedisCache S × Reply Bool
  set_prefixed none ttl c = (c, failure false nil_value)
  set_prefixed (some values) ttl c = committed_call (impl.set_many values ttl) c

  abbrev set_batch : List (Key × Option Bytes) → Duration → RedisCache S → RedisCache S × Reply Bool
  set_batch [] ttl c = (c, success false)
  set_batch (v ∷ values) ttl c = set_prefixed (prefixed_values c.key_prefix (v ∷ values)) ttl c

  unfoldable pub set_many :
      List (Key × Option Bytes) → Duration → RedisCache S → RedisCache S × Reply Bool
  set_many values ttl c =
      let stored = set_batch values ttl c in
      if not_positive ttl then (c, failure false invalid_ttl) else stored

  unfoldable pub forever : Key → Option Bytes → RedisCache S → RedisCache S × Reply Bool
  forever key value c = set_some key value (pos 0) c

  unfoldable pub forget : Key → RedisCache S → RedisCache S × Reply Bool
  forget key c =
      let (c1, r) = call (impl.del (key_of c key ∷ [])) c in
      (c1, record { result = ltb_ℤ (pos 0) r.result; error = r.error })

  unfoldable pub touch : Key → Duration → RedisCache S → RedisCache S × Reply Bool
  touch key ttl c =
      let touched = call (impl.expire (key_of c key) ttl) c in
      if not_positive ttl then (c, failure false invalid_ttl) else touched

  unfoldable pub close : RedisCache S → RedisCache S × Option Error
  close c =
      let (c1, e) = call impl.close c in
      if c.closed_once
      then (c, c.close_err)
      else (record c1 { closed_once = true; close_err = e }, e)
