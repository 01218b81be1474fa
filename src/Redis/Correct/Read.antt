-- ===== src/Redis/Correct/Read.antt =====
-- What the reads of the Redis backend answer (internal/cache/redis/cache.go): `RedisCache` over
-- `redisClient`, over a server that runs the scripts.
use frankenphp_tiered_cache.Base.{
  ◌≡◌, refl, sym, ap, ◌∙◌, Bool, true, false, Option, none, List, [], ◌∷◌, if◌then◌else◌, arith,
  inr,
}
use frankenphp_tiered_cache.Base.Dict.{Key, lookup}
use frankenphp_tiered_cache.Contract.{success}
use frankenphp_tiered_cache.Redis.Pattern.{prefixed_key}
use frankenphp_tiered_cache.Redis.Wire.{
  TimedItem, parse_get, parse_get_many, get_with_ttl_script, get_many_with_ttl_script,
}
use frankenphp_tiered_cache.Redis.Client.{GoRedis, client_get, client_get_many, redis_client}
use frankenphp_tiered_cache.Redis.Cache.{
  RedisCache, ErrorTests, is_member, distinct_prefixed, collect_found, get, get_many,
}
use frankenphp_tiered_cache.Redis.Wire.{as_reply}
use frankenphp_tiered_cache.Redis.Client.{scripted}
use frankenphp_tiered_cache.Redis.Cache.{found_or_nothing, found_many}
use frankenphp_tiered_cache.Redis.Correct.Script.{
  Entry, bytes_of, pttl_of, IsShort, item_for, when, or_else, or_else-none,
  is_member-distinct_prefixed, lookup-collect_found, scripted_items, parse_get-get_with_ttl_script,
  parse_get_many-script, lookup-scripted_items,
}

module _ {S : Type 0} (go : GoRedis S) (entry : Key → S → Entry) where
  -- A server that runs the two scripts on what it stores, without an error, and where no key lives
  -- longer than a `time.Duration` can say.
  pub record ScriptLaws : Type 0 where
    pub runs_get :
        (key : Key) (s : S)
        → go.run_get key s ≡ (
          s,
          inr (get_with_ttl_script (λ k. bytes_of (entry k s)) (λ k. pttl_of (entry k s)) key),
        )
    pub runs_get_many :
        (keys : List Key) (s : S)
        → go.run_get_many keys s ≡ (
          s,
          inr (
              get_many_with_ttl_script (λ k. bytes_of (entry k s)) (λ k. pttl_of (entry k s)) keys),
        )
    pub short : (key : Key) (s : S) → IsShort (entry key s)

module _ {S : Type 0} (go : GoRedis S) (entry : Key → S → Entry) (laws : ScriptLaws go entry)
    (tests : ErrorTests) where
  client_get_reads :
      (key : Key) (s : S) → client_get go key s ≡ (s, success (item_for (entry key s)))
  unfolding client_get
  client_get_reads key s =
      ap (λ x. (x.0, scripted none parse_get x.1)) (laws.runs_get key s)
      ∙ ap (λ p. (s, as_reply none p))
          (parse_get-get_with_ttl_script (λ k. entry k s) (λ k. laws.short k s) key)

  -- `Get` answers what the server stores under the prefixed key, with its TTL.
  pub get_reads :
      (key : Key) (c : RedisCache S)
      → get (redis_client go) tests key c
        ≡ (c, success (item_for (entry (prefixed_key c.key_prefix key) c.client)))
  unfolding get redis_client
  get_reads key c =
      ap (λ x. (record c { client = x.0 }, found_or_nothing (redis_client go) tests x.1))
        (client_get_reads (prefixed_key c.key_prefix key) c.client)

  client_get_many_reads :
      (keys : List Key) (s : S)
      → client_get_many go keys s
        ≡ (s, success (scripted_items (λ k. entry k s) (λ k. laws.short k s) keys []))
  unfolding client_get_many
  client_get_many_reads keys s =
      ap (λ x. (x.0, scripted [] (λ a. parse_get_many a keys) x.1)) (laws.runs_get_many keys s)
      ∙ ap (λ p. (s, as_reply [] p))
          (parse_get_many-script (λ k. entry k s) (λ k. laws.short k s) keys)

  found_many_reads :
      (p : Key) (keys : List Key) (key : Key) (s : S)
      → lookup key (
          collect_found p
            (scripted_items (λ k. entry k s) (λ k. laws.short k s) (distinct_prefixed p [] keys) [])
            keys
            [])
        ≡ when (is_member key keys) (item_for (entry (prefixed_key p key) s))
  unfolding lookup
  found_many_reads p keys key s =
      lookup-collect_found p
        (scripted_items (λ k. entry k s) (λ k. laws.short k s) (distinct_prefixed p [] keys) []) key
        keys []
      ∙ go_on (is_member key keys) (is_member (prefixed_key p key) (distinct_prefixed p [] keys))
          (lookup (prefixed_key p key) (
            scripted_items (λ k. entry k s) (λ k. laws.short k s) (distinct_prefixed p [] keys) []))
          (is_member-distinct_prefixed p key [] keys)
          (lookup-scripted_items (λ k. entry k s) (λ k. laws.short k s) (prefixed_key p key)
            (distinct_prefixed p [] keys) [])
    where
      go_on :
          (asked sent : Bool) (found : Option TimedItem)
          → (if sent then true else false) ≡ (if asked then true else false)
          → found ≡ or_else (when sent (item_for (entry (prefixed_key p key) s))) none
          → or_else (when asked found) none ≡ when asked (item_for (entry (prefixed_key p key) s))
      go_on false sent found e h = refl
      go_on true false found e h = ground (arith, e)
      go_on true true found e h =
          or_else-none found ∙ h ∙ or_else-none (item_for (entry (prefixed_key p key) s))

  -- `GetMany` leaves the cache as it is and answers without an error, and its map has a key exactly
  -- if the key was asked for and the server stores something under its prefixed key, with the item
  -- that `Get` answers.
  pub get_many_reads :
      (keys : List Key) (key : Key) (c : RedisCache S)
      → ((get_many (redis_client go) keys c).0 ≡ c)
        × ((get_many (redis_client go) keys c).1.error ≡ none)
        × (lookup key (get_many (redis_client go) keys c).1.result
            ≡ when (is_member key keys) (get (redis_client go) tests key c).1.result)
  unfolding get_many redis_client lookup
  get_many_reads [] key c = (refl, refl, refl)
  get_many_reads (k ∷ keys) key c = (
    ap (λ x. record c { client = x.0 }) (asked c),
    ap (λ x. (found_many (redis_client go) c.key_prefix (k ∷ keys) x.1).error) (asked c),
    ap (λ x. lookup key (found_many (redis_client go) c.key_prefix (k ∷ keys) x.1).result) (asked c)
        ∙ found_many_reads c.key_prefix (k ∷ keys) key c.client
        ∙ ap (λ x. when (is_member key (k ∷ keys)) x.1.result) (sym (get_reads key c)),
  )
    where
      asked :
          (c : RedisCache S)
          → client_get_many go (distinct_prefixed c.key_prefix [] (k ∷ keys)) c.client ≡ (
            c.client,
            success (
                scripted_items
                  (λ k. entry k c.client)
                  (λ k. laws.short k c.client)
                  (distinct_prefixed c.key_prefix [] (k ∷ keys))
                  []),
          )
      asked c = client_get_many_reads (distinct_prefixed c.key_prefix [] (k ∷ keys)) c.client
