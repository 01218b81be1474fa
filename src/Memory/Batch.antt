-- ===== src/Memory/Batch.antt =====
-- `GetMany` and `SetMany` of `MemoryCache` (internal/cache/memory/cache.go).
use frankenphp_tiered_cache.Base.{
  ℕ, Bool, true, false, Option, none, some, List, [], ◌∷◌, ltb, if◌then◌else◌,
}
use frankenphp_tiered_cache.Base.Dict.{Key, insert}
use frankenphp_tiered_cache.Contract.{
  Bytes, Duration, Item, Reply, Sentinel, success, failure, invalid_ttl, nil_value, item_too_large,
  not_positive,
}
use frankenphp_tiered_cache.Memory.State.{Env, MemoryCache, item_cost}
use frankenphp_tiered_cache.Memory.Ops.{get, set_value}

abbrev pub with_item : Key → Option Item → List (Key × Item) → List (Key × Item)
with_item key none found = found
with_item key (some item) found = insert key item found

unfoldable pub get_many_from :
    Env → List Key → List (Key × Item) → MemoryCache → List (Key × Item) × MemoryCache
get_many_from env [] found c = (found, c)
get_many_from env (key ∷ keys) found c =
    let (item, d) = get env key c in get_many_from env keys (with_item key item found) d

unfoldable pub get_many : Env → List Key → MemoryCache → List (Key × Item) × MemoryCache
unfolding get_many_from
get_many env keys c = get_many_from env keys [] c

-- A Go map of values; a nil value is `none`.
abbrev pub Values : Type 0
Values = List (Key × Option Bytes)

-- The error of the validation loop, if there is one.
unfoldable pub refuse_values : ℕ → Values → Option Sentinel
refuse_values max_item_size [] = none
refuse_values max_item_size ((key, none) ∷ values) = some nil_value
refuse_values max_item_size ((key, some value) ∷ values) =
    if ltb max_item_size (item_cost key value)
    then some item_too_large
    else refuse_values max_item_size values

-- The storing loop.
unfoldable pub set_all : Env → Duration → Values → MemoryCache → Option (Reply Bool × MemoryCache)
set_all env ttl [] c = some (success true, c)
set_all env ttl ((key, value) ∷ values) c = elim (set_value env key value ttl c) [
  | none ↦ none
  | some (reply, d) ↦ elim reply.error [
    | some e ↦ some (record { result = false; error = some e }, d)
    | none ↦ elim reply.result [ true ↦ set_all env ttl values d | false ↦ some (success false, d) ]
  ]
]

abbrev pub set_nonempty :
    Env → Duration → Values → MemoryCache → Option Sentinel → Option (Reply Bool × MemoryCache)
set_nonempty env ttl values c (some e) = some (failure false e, c)
set_nonempty env ttl values c none = set_all env ttl values c

unfoldable pub set_many : Env → Values → Duration → MemoryCache → Option (Reply Bool × MemoryCache)
set_many env [] ttl c =
    some (if not_positive ttl then failure false invalid_ttl else success false, c)
set_many env (v ∷ values) ttl c =
    if not_positive ttl
    then some (failure false invalid_ttl, c)
    else set_nonempty env ttl (v ∷ values) c (refuse_values c.max_item_size (v ∷ values))
