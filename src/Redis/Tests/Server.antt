-- ===== src/Redis/Tests/Server.antt =====
-- A matcher of patterns and a server with one key, for the runs of internal/cache/redis/cache.go.
use frankenphp_tiered_cache.Base.{
  ℕ, ◌≡◌, refl, sym, ap, ◌∙◌, ◌≢◌, Bool, true, false, ◌&&◌, ◌||◌, not, Option, none, some, List, [],
  ◌∷◌, ◌==◌, if◌then◌else◌, arith, inr,
}
use frankenphp_tiered_cache.Base.Int.{pos}
use frankenphp_tiered_cache.Base.Dict.{Key, key_eq, key_eq_iff}
use frankenphp_tiered_cache.Contract.{Bytes, success}
use frankenphp_tiered_cache.Redis.Config.{flush_scan_count}
use frankenphp_tiered_cache.Redis.Wire.{get_with_ttl_script, get_many_with_ttl_script, copied}
use frankenphp_tiered_cache.Redis.Client.{Client, GoRedis, redis_client}
use frankenphp_tiered_cache.Redis.Cache.{is_member}
use frankenphp_tiered_cache.Redis.Flush.{delete_batch}
use frankenphp_tiered_cache.Redis.Correct.Pattern.{is_glob, GlobLaws}
use frankenphp_tiered_cache.Redis.Correct.Walk.{Walk, last_turn, turn}
use frankenphp_tiered_cache.Redis.Correct.Server.{ServerLaws}
use frankenphp_tiered_cache.Redis.Correct.Script.{Entry, IsShort, bytes_of, pttl_of}
use frankenphp_tiered_cache.Redis.Correct.Read.{ScriptLaws}

-- Patterns whose last character may be a star.
unfoldable pub glob : List ℕ → Key → Bool
glob [] [] = true
glob [] (d ∷ k) = false
glob (c ∷ []) [] = c == b'*'
glob (c ∷ []) (d ∷ k) = c == b'*' || (c == d && glob [] k)
glob (c ∷ e ∷ p) [] = c == b'*'
glob (c ∷ e ∷ p) (d ∷ k) =
    let quoted = glob p k in
    let plain = glob (e ∷ p) k in
    if c == b'*' then true else if c == b'\\' then e == d && quoted else c == d && plain

glob_star : (key : Key) → glob (b'*' ∷ []) key ≡ true
unfolding glob
glob_star [] = refl
glob_star (d ∷ k) = refl

glob_quoted_end : (c : ℕ) (p : List ℕ) → glob (b'\\' ∷ c ∷ p) [] ≡ false
unfolding glob
glob_quoted_end c p = refl

glob_quoted :
    (c d : ℕ) (p : List ℕ) (key : Key) → glob (b'\\' ∷ c ∷ p) (d ∷ key) ≡ (c == d) && glob p key
unfolding glob
glob_quoted c d p key = refl

glob_plain_end : (c : ℕ) (p : List ℕ) → is_glob c ≡ false → glob (c ∷ p) [] ≡ false
unfolding glob
glob_plain_end c [] h = ground (arith, h)
glob_plain_end c (e ∷ p) h = ground (arith, h)

glob_plain :
    (c d : ℕ) (p : List ℕ) (key : Key)
    → is_glob c ≡ false
    → glob (c ∷ p) (d ∷ key) ≡ (c == d) && glob p key
unfolding glob
glob_plain c d [] key h = ground (arith, h)
glob_plain c d (e ∷ p) key h = ground (arith, h)

pub glob-GlobLaws : GlobLaws glob
glob-GlobLaws = record {
  star = glob_star;
  quoted_end = glob_quoted_end;
  quoted = glob_quoted;
  plain_end = glob_plain_end;
  plain = glob_plain;
}

-- The only key that the server may store: a*b:x.
abbrev pub only_key : Key
only_key = b'a' ∷ b'*' ∷ b'b' ∷ b':' ∷ b'x' ∷ []

abbrev pub key_prefix : Key
key_prefix = b'a' ∷ b'*' ∷ b'b' ∷ b':' ∷ []

abbrev pub only_value : Bytes
only_value = copied (7 ∷ [])

abbrev keys_if : Bool → List Key
keys_if true = only_key ∷ []
keys_if false = []

-- The state says whether the key is stored.
abbrev pub entry : Key → Bool → Entry
entry k s = if s && key_eq k only_key then some (7 ∷ [], some 1500) else none

abbrev pub commands : GoRedis Bool
commands = record {
  run_get = λ k s.
      (s, inr (get_with_ttl_script (λ j. bytes_of (entry j s)) (λ j. pttl_of (entry j s)) k));
  run_get_many = λ ks s.
      (s, inr (get_many_with_ttl_script (λ j. bytes_of (entry j s)) (λ j. pttl_of (entry j s)) ks));
  set = λ k v ttl s. (true, none);
  set_nx = λ k v ttl s. (true, success (not s));
  tx_pipelined = λ q s. (true, none);
  incr_by = λ k v s. (s, success v);
  decr_by = λ k v s. (s, success v);
  del = λ ks s. (s && not (is_member only_key ks), success (pos 1));
  expire = λ k ttl s. (s, success s);
  scan = λ cursor match count s.
      (s, record { keys = keys_if (s && glob match only_key); next = 0; error = none });
  close = λ s. (s, none);
}

entry-IsShort : (b : Bool) → IsShort (if b then some (7 ∷ [], some 1500) else none)
entry-IsShort true = omega arith
entry-IsShort false = tt

pub commands-ScriptLaws : ScriptLaws commands entry
commands-ScriptLaws = record {
  runs_get = λ k s. refl;
  runs_get_many = λ ks s. refl;
  short = λ k s. entry-IsShort (s && key_eq k only_key);
}

abbrev pub stored : Key → Bool → Option Bytes
stored k s = if s && key_eq k only_key then some only_value else none

-- One call is a whole traversal.
abbrev pub left : ℕ → Bool → ℕ
left cursor s = 0

abbrev pub server : Client Bool
server = redis_client commands

is_member-keys_if : (k : Key) (b : Bool) → is_member k (keys_if b) ≡ (b && key_eq only_key k)
is_member-keys_if k true = ground arith
is_member-keys_if k false = refl

server_scan_matches :
    (k : Key) (cursor : ℕ) (match : List ℕ) (s : Bool)
    → is_member k (server.scan cursor match flush_scan_count s).1.keys ≡ true
    → glob match k ≡ true
unfolding redis_client
server_scan_matches k cursor match s h =
    go (glob match only_key) (key_eq only_key k) refl refl
      (sym (is_member-keys_if k (s && glob match only_key)) ∙ h)
  where
    go :
        (b e : Bool)
        → glob match only_key ≡ b
        → key_eq only_key k ≡ e
        → ((s && b) && e) ≡ true
        → glob match k ≡ true
    go b true g e h = ap (glob match) (sym ((key_eq_iff only_key k).0 e)) ∙ g ∙ ground (arith, h)
    go b false g e h = ground (arith, h)

server_del_keeps :
    (k : Key) (ks : List Key) (s : Bool)
    → is_member k ks ≡ false
    → stored k (server.del ks s).0 ≡ stored k s
unfolding redis_client
server_del_keeps k ks s h = go (key_eq k only_key) refl
  where
    go :
        (e : Bool)
        → key_eq k only_key ≡ e
        → (if (s && not (is_member only_key ks)) && e then some only_value else none)
          ≡ (if s && e then some only_value else none)
    go false e = ground arith
    go true e = ground (arith, ap (λ x. is_member x ks) (sym ((key_eq_iff k only_key).0 e)) ∙ h)

server_del_removes :
    (k : Key) (ks : List Key) (s : Bool)
    → is_member k ks ≡ true
    → stored k (server.del ks s).0 ≡ none
unfolding redis_client
server_del_removes k ks s h = go (key_eq k only_key) refl
  where
    go :
        (e : Bool)
        → key_eq k only_key ≡ e
        → (if (s && not (is_member only_key ks)) && e then some only_value else none) ≡ none
    go false e = ground arith
    go true e = ground (arith, ap (λ x. is_member x ks) (sym ((key_eq_iff k only_key).0 e)) ∙ h)

delete_batch_le : (ks : List Key) (s : Bool) → (delete_batch server ks s).0 ≡ true → s ≡ true
unfolding delete_batch redis_client
delete_batch_le [] s h = h
delete_batch_le (k ∷ ks) true h = refl
delete_batch_le (k ∷ ks) false h = h

one_batch :
    (k : Key) (match : List ℕ) (s last e : Bool)
    → key_eq k only_key ≡ e
    → glob match k ≡ true
    → (last ≡ true → s ≡ true)
    → stored k last ≢ none
    → is_member k (keys_if (s && glob match only_key)) ≡ true
one_batch k match s last false e g le h = absurd (h (ground (arith, e)))
one_batch k match s false true e g le h = absurd (h refl)
one_batch k match s true true e g le h =
    is_member-keys_if k (s && glob match only_key)
    ∙ ground (
      arith,
      le refl,
      ap (glob match) (sym ((key_eq_iff k only_key).0 e)) ∙ g,
      key_eq_iff k only_key,
      key_eq_iff only_key k,
    )

-- What is stored after the one batch was in it.
server_traversal :
    (k : Key) (match : List ℕ) (s last : Bool) (seen : List Key)
    → Walk server match 0 s seen last
    → glob match k ≡ true
    → stored k last ≢ none
    → is_member k seen ≡ true
unfolding redis_client
server_traversal k match s last seen (last_turn _ _ ok deleted at_end) g h =
    one_batch k match s (delete_batch server (keys_if (s && glob match only_key)) s).0
      (key_eq k only_key) refl g (delete_batch_le (keys_if (s && glob match only_key)) s) h
server_traversal k match s last seen (turn _ _ rest _ ok deleted more walk) g h =
    ground (arith, more)

pub server-ServerLaws : ServerLaws server glob stored left
unfolding redis_client
server-ServerLaws = record {
  scan_keeps = λ k cursor match s. refl;
  scan_matches = server_scan_matches;
  del_keeps = server_del_keeps;
  del_removes = λ k ks s ok. server_del_removes k ks s;
  traversal = server_traversal;
  ends = λ cursor match s h. ground (arith, h);
}
