-- ===== src/Redis/Correct/Script.antt =====
-- The answers of the scripts and the maps that `GetMany` makes of them
-- (internal/cache/redis/cache.go).
use frankenphp_tiered_cache.Base.{
  ℕ, zero, suc, ◌<◌, ◌*◌, ◌^◌, ◌≡◌, refl, sym, ap, ◌∙◌, Bool, true, false, Option, none, some, List,
  [], ◌∷◌, ◌++◌, if◌then◌else◌, arith,
}
use frankenphp_tiered_cache.Base.Int.{ℤ, pos, negsuc}
use frankenphp_tiered_cache.Base.Dict.{Key, key_eq, key_eq_iff, lookup, lookup-insert}
use frankenphp_tiered_cache.Counter.{to_int64}
use frankenphp_tiered_cache.Redis.Pattern.{prefixed_key}
use frankenphp_tiered_cache.Redis.Wire.{
  Parsed, parsed, TimedItem, copied, redis_result_bytes, parse_pttl, parse_pair, parse_get,
  stored_item, parse_items, parse_get_many, get_with_ttl_script, lua_pairs, lua_pair_of, Value,
  parts, get_many_with_ttl_script, and_then,
}
use frankenphp_tiered_cache.Redis.Cache.{is_member, distinct_prefixed, put_found, collect_found}

-- What a server stores under a key: the bytes and the milliseconds left, if it expires.
abbrev pub Entry : Type 0
Entry = Option (List ℕ × Option ℕ)

abbrev pub bytes_of : Entry → Option (List ℕ)
bytes_of none = none
bytes_of (some (b, _)) = some b

-- What PTTL documents: -2 for a missing key and -1 for one that does not expire.
abbrev pub pttl_of : Entry → ℤ
pttl_of none = negsuc 1
pttl_of (some (_, none)) = negsuc 0
pttl_of (some (_, some ms)) = pos ms

abbrev pub IsShort : Entry → Type 0
IsShort (some (_, some ms)) = ms * 1000000 < 2 ^ 63
IsShort _ = Unit

-- The item that a reader wants: a TTL in nanoseconds, 0 for none and 1 for the last millisecond.
abbrev pub expiry : Option ℕ → ℤ
expiry none = pos 0
expiry (some zero) = pos 1
expiry (some (suc n)) = pos (suc n * 1000000)

abbrev pub item_for : Entry → Option TimedItem
item_for none = none
item_for (some (b, ms)) = some (record { value = copied b; ttl = expiry ms })

to_int64_small : (n : ℕ) → n < 2 ^ 63 → to_int64 (pos n) ≡ pos n
unfolding to_int64
to_int64_small n h = ground (arith, h)

abbrev pub or_else : {A : Type 0} → Option A → Option A → Option A
or_else none b = b
or_else (some a) b = some a

pub or_else-none : {A : Type 0} (a : Option A) → or_else a none ≡ a
or_else-none none = refl
or_else-none (some a) = refl

abbrev pub when : {A : Type 0} → Bool → Option A → Option A
when true a = a
when false a = none

pub key_eq-prefixed_key : (p a b : Key) → key_eq (prefixed_key p a) (prefixed_key p b) ≡ key_eq a b
unfolding key_eq
key_eq-prefixed_key [] a b = refl
key_eq-prefixed_key (c ∷ p) a b = ground (arith, key_eq-prefixed_key p a b)

-- Whether a prefixed key is asked for, if the keys before it are those of `seen`.
pub is_member-distinct_prefixed :
    (p : Key) (key : Key) (seen keys : List Key)
    → (if is_member (prefixed_key p key) (distinct_prefixed p seen keys)
        then true
        else is_member (prefixed_key p key) seen)
      ≡ (if is_member key keys then true else is_member (prefixed_key p key) seen)
unfolding distinct_prefixed
is_member-distinct_prefixed p key seen [] = refl
is_member-distinct_prefixed p key seen (k ∷ keys) =
    go (is_member (prefixed_key p k) seen) (key_eq k key) refl refl
      (is_member-distinct_prefixed p key seen keys)
      (is_member-distinct_prefixed p key (prefixed_key p k ∷ seen) keys)
  where
    go :
        (again here : Bool)
        → is_member (prefixed_key p k) seen ≡ again
        → key_eq k key ≡ here
        → (if is_member (prefixed_key p key) (distinct_prefixed p seen keys)
            then true
            else is_member (prefixed_key p key) seen)
          ≡ (if is_member key keys then true else is_member (prefixed_key p key) seen)
        → (if is_member (prefixed_key p key) (distinct_prefixed p (prefixed_key p k ∷ seen) keys)
            then true
            else is_member (prefixed_key p key) (prefixed_key p k ∷ seen))
          ≡ (if is_member key keys
              then true
              else is_member (prefixed_key p key) (prefixed_key p k ∷ seen))
        → (if is_member (prefixed_key p key) (
              if again
              then distinct_prefixed p seen keys
              else prefixed_key p k ∷ distinct_prefixed p (prefixed_key p k ∷ seen) keys)
            then true
            else is_member (prefixed_key p key) seen)
          ≡ (if (if here then true else is_member key keys)
              then true
              else is_member (prefixed_key p key) seen)
    go true true e h with_seen with_key = ground (
      arith,
      with_seen,
      ap (λ x. is_member (prefixed_key p x) seen) (sym ((key_eq_iff k key).0 h)) ∙ e,
    )
    go true false e h with_seen with_key = with_seen
    go false here e h with_seen with_key = ground (arith, with_key, key_eq-prefixed_key p k key ∙ h)

or_else-when :
    {A : Type 0} (here later : Bool) (a b c : Option A)
    → (here ≡ true → b ≡ a)
    → or_else (when later a) (or_else (when here b) c)
      ≡ or_else (when (if here then true else later) a) c
or_else-when false later a b c h = refl
or_else-when true true none b c h = ap (λ x. or_else x c) (h refl)
or_else-when true true (some x) b c h = refl
or_else-when true false a b c h = ap (λ x. or_else x c) (h refl)

lookup-put_found :
    (k j : Key) (i : Option TimedItem) (m : List (Key × TimedItem))
    → lookup k (put_found j i m) ≡ or_else (when (key_eq j k) i) (lookup k m)
lookup-put_found k j none m = ground arith
lookup-put_found k j (some i) m = ground (arith, lookup-insert j k i m)

pub lookup-collect_found :
    (p : Key) (found : List (Key × TimedItem)) (k : Key) (keys : List Key)
    (result : List (Key × TimedItem))
    → lookup k (collect_found p found keys result)
      ≡ or_else (when (is_member k keys) (lookup (prefixed_key p k) found)) (lookup k result)
unfolding collect_found
lookup-collect_found p found k [] result = refl
lookup-collect_found p found k (j ∷ keys) result =
    lookup-collect_found p found k keys (put_found j (lookup (prefixed_key p j) found) result)
    ∙ ap (or_else (when (is_member k keys) (lookup (prefixed_key p k) found)))
        (lookup-put_found k j (lookup (prefixed_key p j) found) result)
    ∙ or_else-when (key_eq j k) (is_member k keys) (lookup (prefixed_key p k) found)
        (lookup (prefixed_key p j) found) (lookup k result)
        (λ e. ap (λ x. lookup (prefixed_key p x) found) ((key_eq_iff j k).0 e))

lookup-stored_item :
    (k j : Key) (i : Option TimedItem) (m : List (Key × TimedItem))
    → lookup k (stored_item j i m) ≡ or_else (when (key_eq j k) i) (lookup k m)
lookup-stored_item k j none m = ground arith
lookup-stored_item k j (some i) m = ground (arith, lookup-insert j k i m)

abbrev timed_item : List ℕ → ℤ → Parsed (Option TimedItem)
timed_item b t = parsed (some (record { value = copied b; ttl = t }))

parse_get-lua_pair_of :
    (e : Entry)
    → IsShort e
    → parse_get (parts (lua_pair_of (bytes_of e) (pttl_of e))) ≡ parsed (item_for e)
unfolding parse_get parse_pair redis_result_bytes parse_pttl
parse_get-lua_pair_of none h = refl
parse_get-lua_pair_of (some (b, none)) h = refl
parse_get-lua_pair_of (some (b, some zero)) h = refl
parse_get-lua_pair_of (some (b, some (suc n))) h =
    ap (timed_item b) (to_int64_small (suc n * 1000000) h)

parse_items_nil : (items : List (Key × TimedItem)) → parse_items [] [] items ≡ parsed items
unfolding parse_items
parse_items_nil items = refl

parse_items-lua_pair_of :
    (e : Entry) (k : Key) (keys : List Key) (rest : List Value) (items : List (Key × TimedItem))
    → IsShort e
    → parse_items (k ∷ keys) (lua_pair_of (bytes_of e) (pttl_of e) ++ rest) items
      ≡ parse_items keys rest (stored_item k (item_for e) items)
unfolding parse_items parse_pair redis_result_bytes parse_pttl
parse_items-lua_pair_of none k keys rest items h = refl
parse_items-lua_pair_of (some (b, none)) k keys rest items h = refl
parse_items-lua_pair_of (some (b, some zero)) k keys rest items h = refl
parse_items-lua_pair_of (some (b, some (suc n))) k keys rest items h =
    ap (λ t. and_then (timed_item b t) (λ i. parse_items keys rest (stored_item k i items)))
      (to_int64_small (suc n * 1000000) h)

module _ (entry : Key → Entry) (short : (k : Key) → IsShort (entry k)) where
  abbrev call_get : Key → Option (List ℕ)
  call_get k = bytes_of (entry k)

  abbrev call_pttl : Key → ℤ
  call_pttl k = pttl_of (entry k)

  -- The map that the parser makes of what the script returns.
  abbrev pub scripted_items : List Key → List (Key × TimedItem) → List (Key × TimedItem)
  scripted_items [] items = items
  scripted_items (k ∷ keys) items = scripted_items keys (stored_item k (item_for (entry k)) items)

  pub parse_get-get_with_ttl_script :
      (key : Key)
      → parse_get (get_with_ttl_script call_get call_pttl key) ≡ parsed (item_for (entry key))
  unfolding get_with_ttl_script
  parse_get-get_with_ttl_script key = parse_get-lua_pair_of (entry key) (short key)

  pub parse_items-lua_pairs :
      (keys : List Key) (items : List (Key × TimedItem))
      → parse_items keys (lua_pairs call_get call_pttl keys) items
        ≡ parsed (scripted_items keys items)
  unfolding lua_pairs
  parse_items-lua_pairs [] items = parse_items_nil items
  parse_items-lua_pairs (k ∷ keys) items =
      parse_items-lua_pair_of (entry k) k keys (lua_pairs call_get call_pttl keys) items (short k)
      ∙ parse_items-lua_pairs keys (stored_item k (item_for (entry k)) items)

  pub lookup-scripted_items :
      (k : Key) (keys : List Key) (items : List (Key × TimedItem))
      → lookup k (scripted_items keys items)
        ≡ or_else (when (is_member k keys) (item_for (entry k))) (lookup k items)
  lookup-scripted_items k [] items = refl
  lookup-scripted_items k (j ∷ keys) items =
      lookup-scripted_items k keys (stored_item j (item_for (entry j)) items)
      ∙ ap (or_else (when (is_member k keys) (item_for (entry k))))
          (lookup-stored_item k j (item_for (entry j)) items)
      ∙ or_else-when (key_eq j k) (is_member k keys) (item_for (entry k)) (item_for (entry j))
          (lookup k items) (λ e. ap (λ x. item_for (entry x)) ((key_eq_iff j k).0 e))

  pub parse_get_many-script :
      (keys : List Key)
      → parse_get_many (get_many_with_ttl_script call_get call_pttl keys) keys
        ≡ parsed (scripted_items keys [])
  unfolding parse_get_many get_many_with_ttl_script
  parse_get_many-script keys = parse_items-lua_pairs keys []
