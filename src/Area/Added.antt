-- ===== src/Area/Added.antt =====
-- Creating a region in the area that was chosen for it.
use netmalloc.Common.{ℕ, ◌+◌, ◌≡◌, Option}
use netmalloc.Region.{RegionStruct, AreaStruct}
use netmalloc.Region.Order.{Ordered}
use netmalloc.Region.Used.Add.{Gives}
use netmalloc.Region.Coalesced.{Coalesced}

-- The area after a region of `size` bytes has been created in `before`, and what was returned.
pub record Created (lo hi size : ℕ) (before : AreaStruct) (out : AreaStruct × Option RegionStruct)
    : Type 0 where
  pub ordered : Ordered lo out.0.regions (hi + size)
  pub coalesced : Coalesced out.0.regions
  pub head : out.0.head_free ≡ before.head_free
  pub gives : (a : ℕ) → Gives a size before.regions out
