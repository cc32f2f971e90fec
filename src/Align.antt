-- ===== src/Align.antt =====
-- src/kutils.h: rounding of addresses and sizes to a multiple of 1 << shift. The code's shifts are 12
-- and 13, for which `1 << shift` is an int.
pub mod Bounds
use netmalloc.Common.{ℕ, ◌*◌, ◌/◌, ◌%◌, ◌^◌, ◌==◌, if◌then◌else◌, add64}

-- `x >> shift << shift`: the second shift drops no bit, since the first made room.
unfoldable pub align_floor : ℕ → ℕ → ℕ
align_floor x shift = if x % 2 ^ shift == 0 then x else x / 2 ^ shift * 2 ^ shift

unfoldable pub align_ceil : ℕ → ℕ → ℕ
unfolding align_floor
align_ceil x shift = if x % 2 ^ shift == 0 then x else align_floor (add64 x (2 ^ shift)) shift
