-- ===== src/Base/Dict.antt =====
-- Go maps keyed by strings: association lists over byte strings.
use frankenphp_tiered_cache.Base.Tests.{◌==◌, if◌then◌else◌}
use frankenphp_tiered_cache.Base.Lists.{length}
use Prim.Native.Nat.{ℕ, suc}
use mathlib.Core.Path.{◌≡◌, refl}
use mathlib.Core.Logic.{◌≢◌, ◌↔◌}
use mathlib.Core.Bool.{Bool, true, false, ◌&&◌}
use mathlib.Core.Option.{Option, none, some}
use mathlib.Core.List.{List, [], ◌∷◌}
use native.Mathlib.Omega.{arith}

-- A Go string: its bytes.
abbrev pub Key : Type 0
Key = List ℕ

unfoldable pub key_eq : Key → Key → Bool
key_eq [] [] = true
key_eq (a ∷ s) (b ∷ t) = (a == b) && key_eq s t
key_eq _ _ = false

pub key_eq_iff : (a b : Key) → (key_eq a b ≡ true) ↔ (a ≡ b)
unfolding key_eq
key_eq_iff [] [] = ground arith
key_eq_iff (a ∷ s) (b ∷ t) = ground (arith, key_eq_iff s t)
key_eq_iff _ _ = ground arith

pub key_eq_refl : (a : Key) → key_eq a a ≡ true
key_eq_refl a = (key_eq_iff a a).1 refl

module _ {V : Type 0} where
  unfoldable pub lookup : Key → List (Key × V) → Option V
  lookup k [] = none
  lookup k ((j, v) ∷ m) = if key_eq j k then some v else lookup k m

  -- `m[k] = v`
  unfoldable pub insert : Key → V → List (Key × V) → List (Key × V)
  insert k v [] = (k, v) ∷ []
  insert k v ((j, w) ∷ m) = if key_eq j k then (k, v) ∷ m else (j, w) ∷ insert k v m

  -- `delete(m, k)`
  unfoldable pub erase : Key → List (Key × V) → List (Key × V)
  erase k [] = []
  erase k ((j, w) ∷ m) = if key_eq j k then m else (j, w) ∷ erase k m

  -- No key stands twice.
  abbrev pub Distinct : List (Key × V) → Type 0
  Distinct [] = Unit
  Distinct ((k, _) ∷ m) = (lookup k m ≡ none) × Distinct m

  pub lookup-insert :
      (k j : Key) (v : V) (m : List (Key × V))
      → lookup j (insert k v m) ≡ (if key_eq k j then some v else lookup j m)
  unfolding lookup insert
  lookup-insert k j v [] = refl
  lookup-insert k j v ((i, w) ∷ m) =
      ground (arith, key_eq_iff k j, key_eq_iff i k, key_eq_iff i j, lookup-insert k j v m)

  pub lookup-erase_ne : (k j : Key) (m : List (Key × V)) → j ≢ k → lookup j (erase k m) ≡ lookup j m
  unfolding lookup erase
  lookup-erase_ne k j [] h = refl
  lookup-erase_ne k j ((i, w) ∷ m) h =
      ground (arith, key_eq_iff i k, key_eq_iff i j, lookup-erase_ne k j m h)

  pub lookup-erase_self : (k : Key) (m : List (Key × V)) → Distinct m → lookup k (erase k m) ≡ none
  unfolding lookup erase
  lookup-erase_self k [] h = refl
  lookup-erase_self k ((i, w) ∷ m) h = ground (arith, key_eq_iff i k, lookup-erase_self k m h.1)

  pub insert-Distinct :
      (k : Key) (v : V) (m : List (Key × V)) → Distinct m → Distinct (insert k v m)
  unfolding lookup insert
  insert-Distinct k v [] h = ground arith
  insert-Distinct k v ((i, w) ∷ m) h =
      ground
        (arith, key_eq_iff i k, key_eq_iff k i, insert-Distinct k v m h.1, lookup-insert k i v m)

  pub erase-Distinct : (k : Key) (m : List (Key × V)) → Distinct m → Distinct (erase k m)
  unfolding lookup erase
  erase-Distinct k [] h = tt
  erase-Distinct k ((i, w) ∷ m) h =
      ground (arith, key_eq_iff i k, erase-Distinct k m h.1, lookup-erase_ne k i m)

  pub length-erase :
      (k : Key) (v : V) (m : List (Key × V))
      → lookup k m ≡ some v
      → suc (length (erase k m)) ≡ length m
  unfolding lookup erase
  length-erase k v [] h = ground arith
  length-erase k v ((i, w) ∷ m) h = ground (arith, length-erase k v m)
