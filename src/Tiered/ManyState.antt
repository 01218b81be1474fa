-- ===== src/Tiered/ManyState.antt =====
-- What `GetMany` of `TieredCache` (internal/cache/tiered/read.go) holds between its parts: what the
-- loops find and count.
use frankenphp_tiered_cache.Base.{ℕ, ◌==◌, Option, none, some, List, [], ◌∷◌, ◌++◌, if◌then◌else◌}
use frankenphp_tiered_cache.Base.Dict.{Key, lookup, insert}
use frankenphp_tiered_cache.Base.Word.{add64}
use frankenphp_tiered_cache.Contract.{Error, Item, Reply}

abbrev pub Items : Type 0
Items = List (Key × Item)

-- What the first loop has found: the results, the misses without repetition, how often each was
-- asked for, and the two counters.
pub record Scan : Type 0 where
  pub results : Items
  pub misses : List Key
  pub miss_counts : List (Key × ℕ)
  pub l1_hit_count : ℕ
  pub l1_miss_count : ℕ

abbrev pub empty_scan : Scan
empty_scan = record {
  results = [];
  misses = [];
  miss_counts = [];
  l1_hit_count = 0;
  l1_miss_count = 0;
}

-- What L2 answered for the misses, and how long it took.
pub record Batched : Type 0 where
  pub l2_results : Items
  pub l2_err : Option Error
  pub elapsed : ℕ

-- What `GetMany` holds while it waits for the lock; without misses L2 is not read.
pub record FetchedMany : Type 0 where
  pub version : ℕ
  pub scan : Scan
  pub batched : Option Batched

pub data ManyStep : Type 0 where
  answered : Reply Items → ManyStep
  fetched : FetchedMany → ManyStep
  retry : ManyStep

abbrev pub many_failed : Error → ManyStep
many_failed e = answered (record { result = []; error = some e })

-- `missCounts[key]`
abbrev pub count_of : Option ℕ → ℕ
count_of none = 0
count_of (some n) = n

abbrev pub count_at : Key → List (Key × ℕ) → ℕ
count_at key counts = count_of (lookup key counts)

-- `missCounts[key]++`, and the key is a new miss if the count is 1 then.
unfoldable pub scan_miss : Key → Scan → Scan
scan_miss key s =
    let count = add64 (count_at key s.miss_counts) 1 in
    record s {
      l1_miss_count = add64 s.l1_miss_count 1;
      miss_counts = insert key count s.miss_counts;
      misses = if count == 1 then s.misses ++ key ∷ [] else s.misses;
    }

unfoldable pub scan_hit : Key → Item → Scan → Scan
scan_hit key item s = record s {
  l1_hit_count = add64 s.l1_hit_count 1;
  results = insert key item s.results;
}

abbrev pub scanned : Key → Option Item → Scan → Scan
scanned key none s = scan_miss key s
scanned key (some item) s = scan_hit key item s

-- The totals of the second loop, and the results.
pub record Tally : Type 0 where
  pub results : Items
  pub l1_hits : ℕ
  pub l2_hits : ℕ
  pub misses : ℕ
