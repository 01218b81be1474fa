-- ===== src/Redis/Wire.antt =====
-- What Redis answers to the two scripts that read, and how the answers are taken apart
-- (internal/cache/redis/cache.go). A script is modelled over what `redis.call` answers.
use frankenphp_tiered_cache.Base.{
  ℕ, zero, suc, ◌*◌, Bool, true, false, Option, none, some, List, [], ◌∷◌, ◌++◌, length,
}
use frankenphp_tiered_cache.Base.Int.{ℤ, pos, negsuc}
use frankenphp_tiered_cache.Base.Dict.{Key, insert}
use frankenphp_tiered_cache.Contract.{Bytes, Duration, Error, foreign, Reply, success}
use frankenphp_tiered_cache.Counter.{to_int64}

-- A value of the Go type `interface{}`, as go-redis makes it of an answer's part. `other` stands
-- for every type that the code does not name.
pub data Value : Type 0 where
  nothing : Value
  bytes : List ℕ → Value
  text : List ℕ → Value
  boolean : Bool → Value
  integer : ℤ → Value
  other : ℕ → Value

-- A whole answer: a list of values, or anything else.
pub data Answer : Type 0 where
  parts : List Value → Answer
  single : Value → Answer

-- `cache.Item` with the `time.Duration` that the source has, which may be negative.
pub record TimedItem : Type 0 where
  pub value : Bytes
  pub ttl : Duration

-- What a parser answers: a value, or an error that says what was not expected.
pub data Parsed (A : Type 0) : Type 0 where
  parsed : A → Parsed A
  malformed : Parsed A

-- An error made by `fmt.Errorf` of a text.
abbrev pub unexpected_answer : Error
unexpected_answer = foreign 0

abbrev pub and_then : {A B : Type 0} → Parsed A → (A → Parsed B) → Parsed B
and_then malformed f = malformed
and_then (parsed a) f = f a

abbrev pub as_reply : {A : Type 0} → A → Parsed A → Reply A
as_reply d (parsed a) = success a
as_reply d malformed = record { result = d; error = some unexpected_answer }

-- `make` and `copy`
abbrev pub copied : List ℕ → Bytes
copied s = record { content = s; cap = length s }

unfoldable pub redis_result_bytes : Value → Parsed (Option Bytes)
redis_result_bytes nothing = parsed none
redis_result_bytes (bytes s) = parsed (some (copied s))
redis_result_bytes (text s) = parsed (some (copied s))
redis_result_bytes (boolean false) = parsed none
redis_result_bytes (boolean true) = malformed
redis_result_bytes (integer _) = malformed
redis_result_bytes (other _) = malformed

-- `time.Duration(ttlMillis) * time.Millisecond` wraps around.
unfoldable pub parse_pttl : ℤ → Parsed Duration
parse_pttl (negsuc zero) = parsed (pos 0)
parse_pttl (negsuc (suc _)) = malformed
parse_pttl (pos zero) = parsed (pos 1)
parse_pttl (pos (suc n)) = parsed (to_int64 (pos (suc n * 1000000)))

abbrev pub item_of : Option Bytes → Parsed Duration → Parsed (Option TimedItem)
item_of value malformed = malformed
item_of none (parsed ttl) = parsed none
item_of (some b) (parsed ttl) = parsed (some (record { value = b; ttl = ttl }))

-- `if ttlMillis == -2`
abbrev pub timed_by : Option Bytes → ℤ → Parsed (Option TimedItem)
timed_by value (negsuc (suc zero)) = parsed none
timed_by value z = item_of value (parse_pttl z)

abbrev pub timed : Option Bytes → Value → Parsed (Option TimedItem)
timed value (integer z) = timed_by value z
timed value _ = malformed

-- A value and the TTL that stands after it.
unfoldable pub parse_pair : Value → Value → Parsed (Option TimedItem)
parse_pair v t = and_then (redis_result_bytes v) (λ value. timed value t)

unfoldable pub parse_get : Answer → Parsed (Option TimedItem)
parse_get (parts (v ∷ t ∷ [])) = parse_pair v t
parse_get (parts _) = malformed
parse_get (single _) = malformed

abbrev pub stored_item : Key → Option TimedItem → List (Key × TimedItem) → List (Key × TimedItem)
stored_item key none items = items
stored_item key (some i) items = insert key i items

-- The loop over the keys, with the map so far and the parts that are left.
unfoldable pub parse_items :
    List Key → List Value → List (Key × TimedItem) → Parsed (List (Key × TimedItem))
parse_items [] [] items = parsed items
parse_items (key ∷ keys) (v ∷ t ∷ rest) items =
    and_then (parse_pair v t) (λ i. parse_items keys rest (stored_item key i items))
parse_items _ _ items = malformed

-- An answer whose length is not twice the number of keys is refused, in the source before the loop.
unfoldable pub parse_get_many : Answer → List Key → Parsed (List (Key × TimedItem))
parse_get_many (parts values) keys = parse_items keys values []
parse_get_many (single _) keys = malformed

-- A Lua `false` reaches Go as a nil value.
abbrev pub lua_pair_of : Option (List ℕ) → ℤ → List Value
lua_pair_of none t = nothing ∷ integer (negsuc 1) ∷ []
lua_pair_of (some s) t = text s ∷ integer t ∷ []

module _ (call_get : Key → Option (List ℕ)) (call_pttl : Key → ℤ) where
  abbrev pub lua_pair : Key → List Value
  lua_pair key = lua_pair_of (call_get key) (call_pttl key)

  unfoldable pub get_with_ttl_script : Key → Answer
  get_with_ttl_script key = parts (lua_pair key)

  unfoldable pub lua_pairs : List Key → List Value
  lua_pairs [] = []
  lua_pairs (key ∷ keys) = lua_pair key ++ lua_pairs keys

  unfoldable pub get_many_with_ttl_script : List Key → Answer
  unfolding lua_pairs
  get_many_with_ttl_script keys = parts (lua_pairs keys)
