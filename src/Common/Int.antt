-- ===== src/Common/Int.antt =====
-- The C type `int` for return codes, by the values that occur.
use Prim.Native.Nat.{ℕ}
use mathlib.Core.Bool.{Bool, true, false}

-- `negsuc n` is -(n + 1).
pub data ℤ : Type 0 where
  pos : ℕ → ℤ
  negsuc : ℕ → ℤ

-- `res < 0`.
abbrev pub is_negative : ℤ → Bool
is_negative (pos n) = false
is_negative (negsuc n) = true

-- `if (error)`.
abbrev pub is_nonzero : ℤ → Bool
is_nonzero (pos ℕ.zero) = false
is_nonzero (pos (ℕ.suc n)) = true
is_nonzero (negsuc n) = true

abbrev pub enomem : ℤ
enomem = negsuc 11

abbrev pub minus_one : ℤ
minus_one = negsuc 0
