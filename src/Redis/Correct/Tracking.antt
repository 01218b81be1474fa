-- ===== src/Redis/Correct/Tracking.antt =====
-- Which notifications reset the whole cache (internal/cache/redis/invalidation.go).
use mathlib.Core.Path.{subst}
use frankenphp_tiered_cache.Base.{
  ◌≡◌, refl, sym, ap, ◌∙◌, ◌↔◌, Bool, true, false, ◌||◌, Option, none, some, List, [], ◌∷◌, ◌++◌,
  All, arith,
}
use frankenphp_tiered_cache.Base.Dict.{Key, key_eq, key_eq_iff, key_eq_refl}
use frankenphp_tiered_cache.Redis.Wire.{Value, nothing, bytes, text, boolean, integer, other}
use frankenphp_tiered_cache.Redis.Tracking.{
  Part, missing, values, strings, scalar, Decoded, decoded, invalidate_name, redis_flush_event,
  redis_tracking_key, either_changed, marker_changed, as_values, decoded_change, decode_list,
  if_named, decode_tracking_invalidations,
}

-- The key that a value is: the bytes of a string or of a byte slice.
abbrev pub IsKeyValue : Key → Value → Type 0
IsKeyValue k (text s) = s ≡ k
IsKeyValue k (bytes s) = s ≡ k
IsKeyValue k _ = false ≡ true

abbrev pub AllKeys : List Value → Type 0
AllKeys vs = All (λ v. (k : Key) × IsKeyValue k v) vs

-- A list of keys with a given one among them.
pub record IsAmong (k : Key) (vs : List Value) : Type 0 where
  pub before : List Value
  pub value : Value
  pub after : List Value
  pub parts_of : vs ≡ before ++ value ∷ after
  pub keys_before : AllKeys before
  pub is_key : IsKeyValue k value
  pub keys_after : AllKeys after

-- The notifications that say that the database was flushed, or that the marker changed.
pub data Announces (tracking_key : Key) : List Part → Type 0 where
  flushed_database : Announces tracking_key (scalar (text invalidate_name) ∷ missing ∷ [])
  among_values :
      (vs : List Value)
      → IsAmong tracking_key vs
      → Announces tracking_key (scalar (text invalidate_name) ∷ values vs ∷ [])
  among_strings :
      (ks : List Key)
      → IsAmong tracking_key (as_values ks)
      → Announces tracking_key (scalar (text invalidate_name) ∷ strings ks ∷ [])

abbrev Change : Key → List Value → Option Bool → Type 0
Change k vs none = Unit
Change k vs (some false) = AllKeys vs
Change k vs (some true) = IsAmong k vs

redis_tracking_key-IsKeyValue :
    (k : Key) (v : Value) → redis_tracking_key v ≡ some k → IsKeyValue k v
unfolding redis_tracking_key
redis_tracking_key-IsKeyValue k (text s) h = ground (arith, h)
redis_tracking_key-IsKeyValue k (bytes s) h = ground (arith, h)
redis_tracking_key-IsKeyValue k nothing h = ground (arith, h)
redis_tracking_key-IsKeyValue k (boolean _) h = ground (arith, h)
redis_tracking_key-IsKeyValue k (integer _) h = ground (arith, h)
redis_tracking_key-IsKeyValue k (other _) h = ground (arith, h)

IsKeyValue-redis_tracking_key :
    (k : Key) (v : Value) → IsKeyValue k v → redis_tracking_key v ≡ some k
unfolding redis_tracking_key
IsKeyValue-redis_tracking_key k (text s) h = ap some h
IsKeyValue-redis_tracking_key k (bytes s) h = ap some h
IsKeyValue-redis_tracking_key k nothing h = ground (arith, h)
IsKeyValue-redis_tracking_key k (boolean _) h = ground (arith, h)
IsKeyValue-redis_tracking_key k (integer _) h = ground (arith, h)
IsKeyValue-redis_tracking_key k (other _) h = ground (arith, h)

AllKeys-append :
    (k : Key) (v : Value) (before after : List Value)
    → AllKeys before
    → IsKeyValue k v
    → AllKeys after
    → AllKeys (before ++ v ∷ after)
AllKeys-append k v [] after b h a = ((k, h), a)
AllKeys-append k v (x ∷ before) after b h a = (b.0, AllKeys-append k v before after b.1 h a)

AllKeys-IsAmong : (k : Key) (vs : List Value) → IsAmong k vs → AllKeys vs
AllKeys-IsAmong k vs a =
    subst AllKeys (sym a.parts_of)
      (AllKeys-append k a.value a.before a.after a.keys_before a.is_key a.keys_after)

IsAmong-head :
    (k : Key) (v : Value) (vs : List Value) → IsKeyValue k v → AllKeys vs → IsAmong k (v ∷ vs)
IsAmong-head k v vs h rest = record {
  before = [];
  value = v;
  after = vs;
  parts_of = refl;
  keys_before = tt;
  is_key = h;
  keys_after = rest;
}

IsAmong-tail :
    (k : Key) (v : Value) (vs : List Value)
    → ((j : Key) × IsKeyValue j v)
    → IsAmong k vs
    → IsAmong k (v ∷ vs)
IsAmong-tail k v vs h a = record {
  before = v ∷ a.before;
  value = a.value;
  after = a.after;
  parts_of = ap (λ x. v ∷ x) a.parts_of;
  keys_before = (h, a.keys_before);
  is_key = a.is_key;
  keys_after = a.keys_after;
}

-- One more value in front.
either_changed-Change :
    (k : Key) (v : Value) (vs : List Value) (o : Option Key) (rest : Option Bool)
    → redis_tracking_key v ≡ o
    → Change k vs rest
    → Change k (v ∷ vs) (either_changed o k rest)
either_changed-Change k v vs none rest e h = tt
either_changed-Change k v vs (some j) none e h = tt
either_changed-Change k v vs (some j) (some b) e h = go (key_eq j k) b refl h
  where
    is_key_of : key_eq j k ≡ true → IsKeyValue k v
    is_key_of s = redis_tracking_key-IsKeyValue k v (e ∙ ap some ((key_eq_iff j k).0 s))

    go :
        (same later : Bool)
        → key_eq j k ≡ same
        → Change k vs (some later)
        → Change k (v ∷ vs) (some (same || later))
    go true true s h = IsAmong-head k v vs (is_key_of s) (AllKeys-IsAmong k vs h)
    go true false s h = IsAmong-head k v vs (is_key_of s) h
    go false true s h = IsAmong-tail k v vs (j, redis_tracking_key-IsKeyValue j v e) h
    go false false s h = ((j, redis_tracking_key-IsKeyValue j v e), h)

either_changed-some :
    (j k : Key) (o : Option Key) (r : Option Bool) (b : Bool)
    → o ≡ some j
    → r ≡ some b
    → either_changed o k r ≡ some (key_eq j k || b)
either_changed-some j k o r b e h = rw (e, h)

or_true : (b : Bool) → (b || true) ≡ true
or_true true = refl
or_true false = refl

-- What a notification that announces a reset decodes to.
abbrev pub reset : Decoded
reset = decoded (redis_flush_event ∷ []) true

named : {d : Decoded} → d ≡ reset → if_named (key_eq invalidate_name invalidate_name) d ≡ reset
named {d} h = ap (λ b. if_named b d) (key_eq_refl invalidate_name) ∙ h

marker_changed-Change : (k : Key) (vs : List Value) → Change k vs (marker_changed k vs)
unfolding marker_changed
marker_changed-Change k [] = tt
marker_changed-Change k (v ∷ vs) =
    either_changed-Change k v vs (redis_tracking_key v) (marker_changed k vs) refl
      (marker_changed-Change k vs)

marker_changed-AllKeys :
    (k : Key) (vs : List Value) → AllKeys vs → (b : Bool) × (marker_changed k vs ≡ some b)
unfolding marker_changed
marker_changed-AllKeys k [] h = (false, refl)
marker_changed-AllKeys k (v ∷ vs) ((j, h), rest) =
    let (b, e) = marker_changed-AllKeys k vs rest in
    (
      key_eq j k || b,
      either_changed-some j k (redis_tracking_key v) (marker_changed k vs) b
          (IsKeyValue-redis_tracking_key j v h) e,
    )

marker_changed-append :
    (k : Key) (v : Value) (before after : List Value)
    → AllKeys before
    → IsKeyValue k v
    → AllKeys after
    → marker_changed k (before ++ v ∷ after) ≡ some true
unfolding marker_changed
marker_changed-append k v [] after h a rest =
    let (b, e) = marker_changed-AllKeys k after rest in
    either_changed-some k k (redis_tracking_key v) (marker_changed k after) b
      (IsKeyValue-redis_tracking_key k v a) e
    ∙ ap (λ c. some (c || b)) (key_eq_refl k)
marker_changed-append k v (x ∷ before) after ((j, h), more) a rest =
    either_changed-some j k (redis_tracking_key x) (marker_changed k (before ++ v ∷ after)) true
      (IsKeyValue-redis_tracking_key j x h) (marker_changed-append k v before after more a rest)
    ∙ ap some (or_true (key_eq j k))

marker_changed-IsAmong :
    (k : Key) (vs : List Value) → IsAmong k vs → marker_changed k vs ≡ some true
marker_changed-IsAmong k vs a =
    ap (marker_changed k) a.parts_of
    ∙ marker_changed-append k a.value a.before a.after a.keys_before a.is_key a.keys_after

pub decode-Announces :
    (k : Key) (n : List Part) → Announces k n → decode_tracking_invalidations k n ≡ reset
unfolding decode_tracking_invalidations
decode-Announces k _ flushed_database = named refl
decode-Announces k _ (among_values vs a) = named (ap decoded_change (marker_changed-IsAmong k vs a))
decode-Announces k _ (among_strings ks a) =
    named (ap decoded_change (marker_changed-IsAmong k (as_values ks) a))

decoded_change-reset : (o : Option Bool) → decoded_change o ≡ reset → o ≡ some true
decoded_change-reset none h = ground (arith, h)
decoded_change-reset (some true) h = refl
decoded_change-reset (some false) h = ground (arith, h)

IsAmong-reset :
    (k : Key) (vs : List Value) → decoded_change (marker_changed k vs) ≡ reset → IsAmong k vs
IsAmong-reset k vs h =
    subst (Change k vs) (decoded_change-reset (marker_changed k vs) h) (marker_changed-Change k vs)

Announces-decode_list :
    (k : Key) (list : Part)
    → decode_list k list ≡ reset
    → Announces k (scalar (text invalidate_name) ∷ list ∷ [])
Announces-decode_list k missing h = flushed_database
Announces-decode_list k (values vs) h = among_values vs (IsAmong-reset k vs h)
Announces-decode_list k (strings ks) h = among_strings ks (IsAmong-reset k (as_values ks) h)
Announces-decode_list k (scalar _) h = ground (arith, h)

Announces-if_named :
    (k name : Key) (list : Part) (b : Bool)
    → key_eq name invalidate_name ≡ b
    → if_named b (decode_list k list) ≡ reset
    → Announces k (scalar (text name) ∷ list ∷ [])
Announces-if_named k name list false e h = ground (arith, h)
Announces-if_named k name list true e h =
    subst (λ x. Announces k (scalar (text x) ∷ list ∷ []))
      (sym ((key_eq_iff name invalidate_name).0 e)) (Announces-decode_list k list h)

Announces-decode :
    (k : Key) (n : List Part) → decode_tracking_invalidations k n ≡ reset → Announces k n
unfolding decode_tracking_invalidations
Announces-decode k (scalar (text name) ∷ list ∷ []) h =
    Announces-if_named k name list (key_eq name invalidate_name) refl h
Announces-decode k _ h = ground (arith, h)

-- A notification decodes to one flush of the whole cache and a refresh of the marker exactly if it
-- is the notification `invalidate` with a null list, or with a list of keys (strings or byte
-- slices, and nothing else) with the marker key at some place.
pub decode_iff-Announces :
    (k : Key) (n : List Part) → (decode_tracking_invalidations k n ≡ reset) ↔ Announces k n
decode_iff-Announces k n = (Announces-decode k n, decode-Announces k n)
