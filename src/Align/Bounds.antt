-- ===== src/Align/Bounds.antt =====
-- What the two roundings promise: a multiple of the unit, and the nearest one on its side.
use native.Mathlib.Nat.{
  add-div_right, div-add-mod', div-mul-le_self, lt-div-mul-add, mul-mod_left, one-le-pow,
}
use netmalloc.Common.{
  ℕ, ◌+◌, ◌*◌, ◌/◌, ◌%◌, ◌^◌, ◌≤◌, ◌<◌, ◌≡◌, ap, inl, inr, arith, add64-eq_add, ulong_mod,
  Bool-cases, ◌==◌,
}
use netmalloc.Align.{align_floor, align_ceil}

pub pos-two_pow : (s : ℕ) → 0 < 2 ^ s
pos-two_pow s = one-le-pow s 2 (omega arith)

pub align_floor-eq : (x s : ℕ) → align_floor x s ≡ x / 2 ^ s * 2 ^ s
unfolding align_floor
align_floor-eq x s = elim (Bool-cases (x % 2 ^ s == 0)) [
  | inl e ↦ rw e (ground (arith, div-add-mod' x (2 ^ s)))
  | inr e ↦ rw e
]

-- `align_floor` rounds down to the nearest multiple of the unit.
pub align_floor-bounds :
    (x shift : ℕ)
    → (align_floor x shift % 2 ^ shift ≡ 0)
      × (align_floor x shift ≤ x)
      × (x < align_floor x shift + 2 ^ shift)
align_floor-bounds x s =
    rw (align_floor-eq x s)
      (mul-mod_left (x / 2 ^ s) (2 ^ s), div-mul-le_self x (2 ^ s), lt-div-mul-add (pos-two_pow s))

align_floor-add : (x s : ℕ) → align_floor (x + 2 ^ s) s ≡ align_floor x s + 2 ^ s
align_floor-add x s =
    rw (align_floor-eq (x + 2 ^ s) s, align_floor-eq x s)
      (ground (arith, ap (λ (q : ℕ). q * 2 ^ s) (add-div_right x (pos-two_pow s))))

-- `align_ceil` rounds up to the nearest multiple of the unit, if the sum does not wrap.
pub align_ceil-bounds :
    (x shift : ℕ)
    → x + 2 ^ shift < ulong_mod
    → (align_ceil x shift % 2 ^ shift ≡ 0)
      × (x ≤ align_ceil x shift)
      × (align_ceil x shift < x + 2 ^ shift)
unfolding align_ceil
align_ceil-bounds x s h = elim (Bool-cases (x % 2 ^ s == 0)) [
  | inl e ↦ rw e (ground arith, omega arith, omega (arith, pos-two_pow s))
  | inr e ↦
      rw (e, add64-eq_add x (2 ^ s) h)
        (let b = align_floor-bounds (x + 2 ^ s) s in
          unfold align_floor in
          (
            b.0,
            omega (arith, b.2),
            ground (
              arith,
              align_floor-add x s,
              align_floor-bounds x s,
              align_floor-eq x s,
              div-add-mod' x (2 ^ s),
            ),
          ))
]
