-- ===== src/Redis/Correct/Write.antt =====
-- `SetMany` of the Redis backend (internal/cache/redis/cache.go).
use mathlib.Core.List.{Memᴰ}
use frankenphp_tiered_cache.Base.{
  ◌≡◌, refl, sym, ap, ◌∙◌, ◌⊎◌, inl, inr, Bool, false, Option, none, some, List, [], ◌∷◌, arith,
}
use frankenphp_tiered_cache.Base.Dict.{Key, lookup}
use frankenphp_tiered_cache.Contract.{
  Bytes, Duration, Error, Reply, failure, nil_value, is_nil, not_positive,
}
use frankenphp_tiered_cache.Redis.Pattern.{prefixed_key}
use frankenphp_tiered_cache.Redis.Client.{Client}
use frankenphp_tiered_cache.Redis.Cache.{
  RedisCache, committed, prefixed_values, prefixed_onto, set_many,
}
use frankenphp_tiered_cache.Redis.Correct.Script.{key_eq-prefixed_key}

abbrev pub flat : Option (Option Bytes) → Option Bytes
flat none = none
flat (some v) = v

abbrev lookup_in : Key → Option (List (Key × Bytes)) → Option Bytes
lookup_in k none = none
lookup_in k (some m) = lookup k m

lookup_in-prefixed_onto :
    (p key k : Key) (v : Bytes) (values : List (Key × Option Bytes))
    (r : Option (List (Key × Bytes))) (sent : List (Key × Bytes))
    → prefixed_onto (prefixed_key p k) v r ≡ some sent
    → ((m : List (Key × Bytes))
        → r ≡ some m
        → lookup (prefixed_key p key) m ≡ flat (lookup key values))
    → lookup (prefixed_key p key) sent ≡ flat (lookup key ((k, some v) ∷ values))
unfolding lookup
lookup_in-prefixed_onto p key k v values none sent h rest = ground (arith, h)
lookup_in-prefixed_onto p key k v values (some m) sent h rest =
    ap (lookup_in (prefixed_key p key)) (sym h)
    ∙ ground (arith, rest m refl, key_eq-prefixed_key p k key)

-- What is sent for a batch without a nil value, key by key.
lookup-prefixed_values :
    (p key : Key) (values : List (Key × Option Bytes)) (sent : List (Key × Bytes))
    → prefixed_values p values ≡ some sent
    → lookup (prefixed_key p key) sent ≡ flat (lookup key values)
unfolding prefixed_values lookup
lookup-prefixed_values p key [] sent h = ap (lookup_in (prefixed_key p key)) (sym h)
lookup-prefixed_values p key ((k, none) ∷ values) sent h = ground (arith, h)
lookup-prefixed_values p key ((k, some v) ∷ values) sent h =
    lookup_in-prefixed_onto p key k v values (prefixed_values p values) sent h
      (lookup-prefixed_values p key values)

-- A batch has a prefixed form, or a nil value.
prefixed_cases :
    (p : Key) (values : List (Key × Option Bytes))
    → ((sent : List (Key × Bytes)) × (prefixed_values p values ≡ some sent))
      ⊎ ((k : Key) × Memᴰ (k, none) values × (prefixed_values p values ≡ none))
unfolding prefixed_values
prefixed_cases p [] = inl ([], refl)
prefixed_cases p ((k, none) ∷ values) = inr (k, Memᴰ.head refl, refl)
prefixed_cases p ((k, some v) ∷ values) = elim (prefixed_cases p values) [
  | inl (sent, h) ↦ inl (_, ap (prefixed_onto (prefixed_key p k) v) h)
  | inr (j, m, h) ↦ inr (j, Memᴰ.tail m, ap (prefixed_onto (prefixed_key p k) v) h)
]

module _ {S : Type 0} (impl : Client S) where
  -- What a batch sends: under the prefixed form of each key its value, in one call of the client
  -- whose error decides the answer; or one of its values is nil, and the client is not called.
  abbrev pub Sends :
      List (Key × Option Bytes) → Duration → RedisCache S → RedisCache S × Reply Bool → Type 0
  Sends values ttl c r =
      ((sent : List (Key × Bytes)) × ((key : Key)
          → lookup (prefixed_key c.key_prefix key) sent ≡ flat (lookup key values))
        × (r.0 ≡ record c { client = (impl.set_many sent ttl c.client).0 })
        × (r.1.error ≡ (impl.set_many sent ttl c.client).1)
        × (r.1.result ≡ is_nil (impl.set_many sent ttl c.client).1))
      ⊎ ((k : Key) × Memᴰ (k, none) values × (r ≡ (c, failure false nil_value)))

  -- `SetMany` with a positive TTL of a batch that is not empty either calls the client once, with
  -- the value of each key under its prefixed form and with nothing else under such a form, answers
  -- the client's error, and answers true exactly without one; or the batch has a nil value, and it
  -- answers that error without a call.
  pub set_many-Sends :
      (v : Key × Option Bytes) (values : List (Key × Option Bytes)) (ttl : Duration)
      (c : RedisCache S)
      → not_positive ttl ≡ false
      → Sends (v ∷ values) ttl c (set_many impl (v ∷ values) ttl c)
  unfolding set_many
  set_many-Sends v values ttl c positive = elim (prefixed_cases c.key_prefix (v ∷ values)) [
    | inl (sent, h) ↦ inl (
      sent,
      λ key. lookup-prefixed_values c.key_prefix key (v ∷ values) sent h,
      rw (positive, h) refl,
      rw (positive, h) (committed_error (impl.set_many sent ttl c.client).1),
      rw (positive, h) (committed_result (impl.set_many sent ttl c.client).1),
    )
    | inr (k, m, h) ↦ inr (k, m, rw (positive, h) refl)
  ]
    where
      committed_error : (e : Option Error) → (committed e).error ≡ e
      committed_error none = refl
      committed_error (some e) = refl

      committed_result : (e : Option Error) → (committed e).result ≡ is_nil e
      committed_result none = refl
      committed_result (some e) = refl
