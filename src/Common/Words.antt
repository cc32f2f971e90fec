-- ===== src/Common/Words.antt =====
-- `unsigned long` on the 64-bit targets of the module: sums and differences modulo 2^64.
use Prim.Native.Nat.{ℕ, ◌+◌, ◌-◌, ◌%◌, ◌^◌, ◌≤◌, ◌<◌}
use mathlib.Core.Path.{◌≡◌}
use native.Mathlib.Omega.{arith}

abbrev pub ulong_mod : ℕ
ulong_mod = 2 ^ 64

unfoldable pub add64 : ℕ → ℕ → ℕ
add64 a b = (a + b) % ulong_mod

unfoldable pub sub64 : ℕ → ℕ → ℕ
sub64 a b = (a + ulong_mod - b) % ulong_mod

pub add64-eq_add : (a b : ℕ) → a + b < ulong_mod → add64 a b ≡ a + b
unfolding add64
add64-eq_add a b h = omega arith

pub sub64-eq_sub : (a b : ℕ) → b ≤ a → a < ulong_mod → sub64 a b ≡ a - b
unfolding sub64
sub64-eq_sub a b h k = omega arith

pub add64-lt : (a b : ℕ) → add64 a b < ulong_mod
unfolding add64
add64-lt a b = omega arith

pub sub64-lt : (a b : ℕ) → sub64 a b < ulong_mod
unfolding sub64
sub64-lt a b = omega arith
