-- ===== src/Memory/Account/Totals.antt =====
-- The bytes and the entries of a shard and of all shards, under the updates of a map.
use frankenphp_tiered_cache.Base.{
  ℕ, suc, zero, ◌+◌, ◌<◌, ◌≡◌, Option, none, some, List, [], ◌∷◌, arith, length, get_or, set, All,
}
use frankenphp_tiered_cache.Base.Dict.{
  Key, lookup, insert, erase, key_eq_iff, Distinct, insert-Distinct, erase-Distinct,
}
use frankenphp_tiered_cache.Memory.State.{MemoryEntry, Entries, item_cost}
use frankenphp_tiered_cache.Memory.Ops.{cost_at}

abbrev pub total_cost : Entries → ℕ
total_cost [] = 0
total_cost ((_, e) ∷ m) = e.cost + total_cost m

abbrev pub total_costs : List Entries → ℕ
total_costs [] = 0
total_costs (m ∷ ms) = total_cost m + total_costs ms

abbrev pub total_entries : List Entries → ℕ
total_entries [] = 0
total_entries (m ∷ ms) = length m + total_entries ms

pub total_costs-set :
    (ms : List Entries) (i : ℕ) (m : Entries)
    → i < length ms
    → total_costs (set ms i m) + total_cost (get_or ms i []) ≡ total_costs ms + total_cost m
total_costs-set [] i m h = elim h [ ]
total_costs-set (n ∷ ms) zero m h = omega arith
total_costs-set (n ∷ ms) (suc i) m h = omega (arith, total_costs-set ms i m)

pub total_entries-set :
    (ms : List Entries) (i : ℕ) (m : Entries)
    → i < length ms
    → total_entries (set ms i m) + length (get_or ms i []) ≡ total_entries ms + length m
total_entries-set [] i m h = elim h [ ]
total_entries-set (n ∷ ms) zero m h = omega arith
total_entries-set (n ∷ ms) (suc i) m h = omega (arith, total_entries-set ms i m)

pub total_cost-erase :
    (k : Key) (e : MemoryEntry) (m : Entries)
    → lookup k m ≡ some e
    → total_cost (erase k m) + e.cost ≡ total_cost m
unfolding lookup erase
total_cost-erase k e [] h = ground arith
total_cost-erase k e ((j, f) ∷ m) h = ground (arith, total_cost-erase k e m)

pub total_cost-insert :
    (k : Key) (e : MemoryEntry) (m : Entries)
    → total_cost (insert k e m) + cost_at (lookup k m) ≡ total_cost m + e.cost
unfolding lookup insert
total_cost-insert k e [] = ground arith
total_cost-insert k e ((j, f) ∷ m) = ground (arith, total_cost-insert k e m)

-- 1 if the key is new.
abbrev pub new_count : Option MemoryEntry → ℕ
new_count none = 1
new_count (some _) = 0

pub length-insert :
    (k : Key) (e : MemoryEntry) (m : Entries)
    → length (insert k e m) ≡ length m + new_count (lookup k m)
unfolding lookup insert
length-insert k e [] = ground arith
length-insert k e ((j, f) ∷ m) = ground (arith, length-insert k e m)

-- An entry's cost is that of its key and value.
abbrev pub HasCost : Key × MemoryEntry → Type 0
HasCost (k, e) = e.cost ≡ item_cost k e.value

-- A map holds each key once, and its costs are right.
abbrev pub IsShard : Entries → Type 0
IsShard m = Distinct m × All HasCost m

insert-costs :
    (k : Key) (e : MemoryEntry) (m : Entries)
    → HasCost (k, e)
    → All HasCost m
    → All HasCost (insert k e m)
unfolding insert
insert-costs k e [] h a = (h, tt)
insert-costs k e ((j, f) ∷ m) h a = ground (arith, insert-costs k e m h a.1)

erase-costs : (k : Key) (m : Entries) → All HasCost m → All HasCost (erase k m)
unfolding erase
erase-costs k [] a = tt
erase-costs k ((j, f) ∷ m) a = ground (arith, erase-costs k m a.1)

pub insert-IsShard :
    (k : Key) (e : MemoryEntry) (m : Entries) → HasCost (k, e) → IsShard m → IsShard (insert k e m)
insert-IsShard k e m h s = (insert-Distinct k e m s.0, insert-costs k e m h s.1)

pub erase-IsShard : (k : Key) (m : Entries) → IsShard m → IsShard (erase k m)
erase-IsShard k m s = (erase-Distinct k m s.0, erase-costs k m s.1)

-- A found entry's cost is right.
pub lookup-HasCost :
    (k : Key) (e : MemoryEntry) (m : Entries) → lookup k m ≡ some e → All HasCost m → HasCost (k, e)
unfolding lookup
lookup-HasCost k e [] h a = ground arith
lookup-HasCost k e ((j, f) ∷ m) h a = ground (arith, key_eq_iff j k, lookup-HasCost k e m)
