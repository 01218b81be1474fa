-- ===== src/Base/Word.antt =====
-- 64-bit counters: `int64` and `uint64` values as bit patterns, with the wrap-around written out.
use Prim.Native.Nat.{ℕ, ◌+◌, ◌-◌, ◌*◌, ◌%◌, ◌^◌}
use mathlib.Core.Path.{◌≡◌}
use native.Mathlib.Omega.{arith}

abbrev pub word_mod : ℕ
word_mod = 2 ^ 64

-- The first bit pattern that reads as a negative `int64`.
abbrev pub sign_bit : ℕ
sign_bit = 2 ^ 63

unfoldable pub add64 : ℕ → ℕ → ℕ
add64 a b = (a + b) % word_mod

unfoldable pub sub64 : ℕ → ℕ → ℕ
sub64 a b = (a + (word_mod - b % word_mod)) % word_mod

unfoldable pub mul64 : ℕ → ℕ → ℕ
mul64 a b = (a * b) % word_mod

-- `t` is what a total `x` becomes when `b` is added to it, or `x` when `b` is taken from `t`.
pub add64-mod : (x b : ℕ) → add64 (x % word_mod) b ≡ (x + b) % word_mod
unfolding add64
add64-mod x b = omega arith

pub sub64-mod : (t x b : ℕ) → x + b ≡ t → sub64 (t % word_mod) b ≡ x % word_mod
unfolding sub64
sub64-mod t x b h = omega arith
