-- ===== src/Region/Used.antt =====
-- The bytes that an area has given out, as the specification of its operations.
pub mod Free
pub mod Add
use netmalloc.Common.{
  ℕ, ◌+◌, ◌≤◌, ◌<◌, ◌≡◌, refl, Bool, true, false, ◌&&◌, ◌||◌, List, [], ◌∷◌, arith, ◌==◌, ltb, leb,
  rebuild,
}
use netmalloc.Region.Order.{CursorOrdered, end_of, Ordered, OrderedBack, end_behind, Ordered-le}
use netmalloc.Region.{RegionStruct, cursor}

-- The address lies in the region.
abbrev pub covers : ℕ → RegionStruct → Bool
covers a r = leb r.virtual_start a && ltb a (r.virtual_start + r.size)

-- A region that is given out covers the address.
unfoldable pub used_at : ℕ → List RegionStruct → Bool
used_at a [] = false
used_at a (r ∷ l) = (r.free == 0 && covers a r) || used_at a l

pub used_at-rebuild :
    (a : ℕ) (bs l : List RegionStruct) → used_at a (rebuild bs l) ≡ (used_at a bs || used_at a l)
unfolding used_at rebuild
used_at-rebuild a [] l = refl
used_at-rebuild a (b ∷ bs) l = ground (arith, used_at-rebuild a bs (b ∷ l))

module _ (a : ℕ) where
  -- Below the regions, and behind them, nothing is given out.
  pub used_at-below :
      (lo hi : ℕ) (l : List RegionStruct) → Ordered lo l hi → a < lo → used_at a l ≡ false
  unfolding used_at
  used_at-below lo hi [] o h = refl
  used_at-below lo hi (r ∷ l) o h = ground (arith, used_at-below (end_of r) hi l o.1 (omega arith))

  pub used_at-behind :
      (lo : ℕ) (bs : List RegionStruct)
      → OrderedBack lo bs
      → end_behind lo bs ≤ a
      → used_at a bs ≡ false
  unfolding used_at
  used_at-behind lo [] b h = refl
  used_at-behind lo (r ∷ bs) b h = ground (arith, used_at-behind lo bs b.1 (omega arith))

  pub used_at-above :
      (lo hi : ℕ) (l : List RegionStruct) → Ordered lo l hi → hi ≤ a → used_at a l ≡ false
  unfolding used_at
  used_at-above lo hi [] o h = refl
  used_at-above lo hi (r ∷ l) o h =
      ground (arith, used_at-above (end_of r) hi l o.1 h, Ordered-le (end_of r) hi l o.1)

  -- Where one region covers the address, no region before or behind it does.
  pub covers_alone :
      (lo hi : ℕ) (bs : List RegionStruct) (r : RegionStruct) (l : List RegionStruct)
      → CursorOrdered lo (cursor bs r l) hi
      → covers a r ≡ true
      → (used_at a bs ≡ false) × (used_at a l ≡ false)
  covers_alone lo hi bs r l o h =
      (used_at-behind lo bs o.0 (ground arith), used_at-below (end_of r) hi l o.1.1 (ground arith))
