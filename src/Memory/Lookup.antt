-- ===== src/Memory/Lookup.antt =====
-- What a key reads after an entry is stored or deleted.
use frankenphp_tiered_cache.Base.{
  ℕ, ◌<◌, ◌≡◌, refl, ap, ◌∙◌, ◌⊎◌, inl, inr, true, none, some, List, [], ◌==◌, ==_iff, arith,
  length, get_or, set, All, All-get_or, get_or-set_self, get_or-set_ne, length-set, if◌then◌else◌,
  Bool-cases,
}
use frankenphp_tiered_cache.Base.Dict.{
  Key, lookup, insert, erase, key_eq, key_eq_iff, lookup-insert, lookup-erase_ne, lookup-erase_self,
}
use frankenphp_tiered_cache.Memory.State.{
  Env, MemoryEntry, Entries, MemoryCache, shard_for, shard_at, entry_at, put_entry, drop_entry,
}
use frankenphp_tiered_cache.Memory.Account.Totals.{IsShard}
use frankenphp_tiered_cache.Memory.Account.Put.{shard_for-lt}

-- A read of shard `b` after shard `a` was replaced.
pub shard-set :
    (ms : List Entries) (a b : ℕ) (m : Entries)
    → a < length ms
    → get_or (set ms a m) b [] ≡ (if a == b then m else get_or ms b [])
shard-set ms a b m h = elim (Bool-cases (a == b)) [
  | inl same ↦ let p : a ≡ b = (==_iff a b).0 same in rw (same, ← p) (get_or-set_self ms a m [] h)
  | inr other ↦ rw other (get_or-set_ne ms a b m [] (λ p. ground arith))
]

same_shard :
    (env : Env) (c : MemoryCache) (k j : Key)
    → key_eq k j ≡ true
    → shard_for env c k ≡ shard_for env c j
same_shard env c k j h = ap (shard_for env c) ((key_eq_iff k j).0 h)

pub entry_at-put_entry :
    (env : Env) (c : MemoryCache) (k j : Key) (e : MemoryEntry)
    → 0 < length c.shards
    → entry_at env (put_entry (shard_for env c k) k e c) j
      ≡ (if key_eq k j then some e else entry_at env c j)
unfolding entry_at put_entry
entry_at-put_entry env c k j e h =
    let a = shard_for env c k in
    let b = shard_for env c j in
    let m = insert k e (shard_at c a) in
    rw (length-set c.shards a m, shard-set c.shards a b m (shard_for-lt env c k h))
      (ground (arith, lookup-insert k j e (shard_at c a), same_shard env c k j))

-- Deleting `k` hides `k`; another key of the shard reads as before.
pub lookup-erase :
    (k j : Key) (m : Entries)
    → IsShard m
    → lookup j (erase k m) ≡ (if key_eq k j then none else lookup j m)
lookup-erase k j m s = elim (Bool-cases (key_eq k j)) [
  | inl same ↦ let p : k ≡ j = (key_eq_iff k j).0 same in rw (same, ← p) (lookup-erase_self k m s.0)
  | inr other ↦ rw other (lookup-erase_ne k j m (λ p. ground (arith, key_eq_iff k j, p)))
]

pub entry_at-drop_entry :
    (env : Env) (c : MemoryCache) (k j : Key) (cost : ℕ)
    → 0 < length c.shards
    → All IsShard c.shards
    → entry_at env (drop_entry (shard_for env c k) k cost c) j
      ≡ (if key_eq k j then none else entry_at env c j)
unfolding entry_at drop_entry
entry_at-drop_entry env c k j cost h s =
    let a = shard_for env c k in
    let b = shard_for env c j in
    let m = erase k (shard_at c a) in
    let good = All-get_or IsShard c.shards a [] s (tt, tt) in
    rw (length-set c.shards a m, shard-set c.shards a b m (shard_for-lt env c k h))
      (ground (arith, lookup-erase k j (shard_at c a) good, same_shard env c k j))

-- `d` holds no entry that `c` does not hold, and each that it holds is unchanged.
abbrev pub Shrinks : MemoryCache → MemoryCache → Type 0
Shrinks c d =
    (i : ℕ) (k : Key)
    → (lookup k (shard_at d i) ≡ none) ⊎ (lookup k (shard_at d i) ≡ lookup k (shard_at c i))

pub Shrinks-trans : (c d e : MemoryCache) → Shrinks c d → Shrinks d e → Shrinks c e
Shrinks-trans c d e p q = λ i k. elim (q i k) [
  | inl gone ↦ inl gone
  | inr same ↦ elim (p i k) [ inl gone ↦ inl (same ∙ gone) | inr before ↦ inr (same ∙ before) ]
]

pub drop_entry-Shrinks :
    (i : ℕ) (k : Key) (cost : ℕ) (c : MemoryCache)
    → i < length c.shards
    → All IsShard c.shards
    → Shrinks c (drop_entry i k cost c)
unfolding drop_entry
drop_entry-Shrinks i k cost c h s = λ b j.
    rw (shard-set c.shards i b (erase k (shard_at c i)) h) (
      ground (arith, lookup-erase k j (shard_at c i) (All-get_or IsShard c.shards i [] s (tt, tt))))

pub Shrinks-refl : (c : MemoryCache) → Shrinks c c
Shrinks-refl c = λ i k. inr refl

-- So each key reads nothing, or what it read before.
pub Shrinks-entry_at :
    (env : Env) (c d : MemoryCache) (k : Key)
    → length d.shards ≡ length c.shards
    → Shrinks c d
    → (entry_at env d k ≡ none) ⊎ (entry_at env d k ≡ entry_at env c k)
unfolding entry_at
Shrinks-entry_at env c d k same h = rw same (h (shard_for env c k) k)
