-- ===== src/Redis/Client.antt =====
-- The client of the Redis backend (internal/cache/redis/cache.go): the interface that the backend
-- calls, and its implementation over the commands of go-redis, which are a parameter.
use frankenphp_tiered_cache.Base.{ℕ, Bool, ◌⊎◌, inl, inr, Option, none, some, List, [], ◌∷◌}
use frankenphp_tiered_cache.Base.Int.{ℤ}
use frankenphp_tiered_cache.Base.Dict.{Key}
use frankenphp_tiered_cache.Contract.{Bytes, Duration, Error, Reply}
use frankenphp_tiered_cache.Redis.Wire.{
  Answer, Parsed, TimedItem, as_reply, parse_get, parse_get_many,
}

-- What a SCAN call returns: the keys, the next cursor and an error.
pub record ScanReply : Type 0 where
  pub keys : List Key
  pub next : ℕ
  pub error : Option Error

-- The interface `client`, over the state of what stands behind it.
pub record Client (S : Type 0) : Type 0 where
  pub get : Key → S → S × Reply (Option TimedItem)
  pub get_many : List Key → S → S × Reply (List (Key × TimedItem))
  pub set : Key → Bytes → Duration → S → S × Option Error
  pub set_nx : Key → Bytes → Duration → S → S × Reply Bool
  pub set_many : List (Key × Bytes) → Duration → S → S × Option Error
  pub incr_by : Key → ℤ → S → S × Reply ℤ
  pub decr_by : Key → ℤ → S → S × Reply ℤ
  pub del : List Key → S → S × Reply ℤ
  pub expire : Key → Duration → S → S × Reply Bool
  pub scan : ℕ → List ℕ → ℕ → S → S × ScanReply
  pub close : S → S × Option Error

-- A command within a transaction.
pub data Queued : Type 0 where
  set_command : Key → Bytes → Duration → Queued

-- The calls on `goredis.Client`. A script's answer stands in an `Option` of the error.
pub record GoRedis (S : Type 0) : Type 0 where
  pub run_get : Key → S → S × (Error ⊎ Answer)
  pub run_get_many : List Key → S → S × (Error ⊎ Answer)
  pub set : Key → Bytes → Duration → S → S × Option Error
  pub set_nx : Key → Bytes → Duration → S → S × Reply Bool
  pub tx_pipelined : List Queued → S → S × Option Error
  pub incr_by : Key → ℤ → S → S × Reply ℤ
  pub decr_by : Key → ℤ → S → S × Reply ℤ
  pub del : List Key → S → S × Reply ℤ
  pub expire : Key → Duration → S → S × Reply Bool
  pub scan : ℕ → List ℕ → ℕ → S → S × ScanReply
  pub close : S → S × Option Error

abbrev pub queued_sets : List (Key × Bytes) → Duration → List Queued
queued_sets [] ttl = []
queued_sets ((key, value) ∷ values) ttl = set_command key value ttl ∷ queued_sets values ttl

-- The reply to a script that returned an error or an answer.
abbrev pub scripted : {A : Type 0} → A → (Answer → Parsed A) → Error ⊎ Answer → Reply A
scripted d parse (inl e) = record { result = d; error = some e }
scripted d parse (inr a) = as_reply d (parse a)

module _ {S : Type 0} (go : GoRedis S) where
  unfoldable pub client_get : Key → S → S × Reply (Option TimedItem)
  client_get key s = (let (s1, answer) = go.run_get key s in (s1, scripted none parse_get answer))

  unfoldable pub client_get_many : List Key → S → S × Reply (List (Key × TimedItem))
  client_get_many keys s =
      let (s1, answer) = go.run_get_many keys s in
      (s1, scripted [] (λ a. parse_get_many a keys) answer)

  unfoldable pub client_set_many : List (Key × Bytes) → Duration → S → S × Option Error
  client_set_many values ttl s = go.tx_pipelined (queued_sets values ttl) s

  -- `redisClient`, whose other methods hand the command on.
  unfoldable pub redis_client : Client S
  unfolding client_get client_get_many client_set_many
  redis_client = record {
    get = client_get;
    get_many = client_get_many;
    set = go.set;
    set_nx = go.set_nx;
    set_many = client_set_many;
    incr_by = go.incr_by;
    decr_by = go.decr_by;
    del = go.del;
    expire = go.expire;
    scan = go.scan;
    close = go.close;
  }
