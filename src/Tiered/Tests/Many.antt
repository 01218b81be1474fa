-- ===== src/Tiered/Tests/Many.antt =====
-- Runs of `GetMany` and of the construction (internal/cache/tiered/read.go and cache.go).
use frankenphp_tiered_cache.Base.{ℕ, refl, true, List, some, ◌⊎◌, inr, [], ◌∷◌, replicate, arith}
use frankenphp_tiered_cache.Base.Int.{pos}
use frankenphp_tiered_cache.Base.Dict.{Key}
use frankenphp_tiered_cache.Contract.{Error}
use frankenphp_tiered_cache.Tiered.ReadMany.{get_many_read}
use frankenphp_tiered_cache.Tiered.Build.{Config, new_tiered_cache}
use frankenphp_tiered_cache.Tiered.Correct.ReadMany.{EndsCounted, get_many_counts}
use frankenphp_tiered_cache.Tiered.Correct.Build.{IsBuilt, new_tiered_cache-IsBuilt}
use frankenphp_tiered_cache.Tiered.Tests.{system, healthy, key_a, key_b}

-- One hit, one miss twice.
abbrev asked : List Key
asked = key_b ∷ key_a ∷ key_a ∷ []

get_many_counts_example : EndsCounted system 3 healthy (get_many_read system asked 0 healthy).1
get_many_counts_example = get_many_counts system asked 0 healthy healthy (omega arith)

abbrev read_random : ℕ → Error ⊎ List ℕ
read_random n = inr (replicate n 7)

abbrev config : Config
config = record { recovery_interval = pos 0 }

new_tiered_cache-IsBuilt_example :
    IsBuilt true
      (new_tiered_cache read_random true config (some healthy.l1) (some healthy.l2) healthy.bus)
new_tiered_cache-IsBuilt_example =
    new_tiered_cache-IsBuilt read_random true config (some healthy.l1) (some healthy.l2) healthy.bus
      refl
