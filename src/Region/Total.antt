-- ===== src/Region/Total.antt =====
-- The order and the account of an area whose regions are coalesced, where every operation returns.
use netmalloc.Common.{
  ℕ, ◌+◌, ◌≤◌, ◌<◌, ◌≡◌, ◌≢◌, Bool, true, ◌==◌, if◌then◌else◌, ulong_mod, Returns, Returns-Holds,
}
use netmalloc.Region.{AreaStruct, Cursor, nodes, add_region, free_region}
use netmalloc.Region.Order.{Ordered}
use netmalloc.Region.Order.Add.{add_region-Ordered}
use netmalloc.Region.Coalesced.{Coalesced, free_region-Coalesced}
use netmalloc.Region.Coalesced.Add.{add_region-Coalesced}
use netmalloc.Region.Space.{accounted, free_region-accounted}
use netmalloc.Region.Space.Add.{AccountsFor, Below, reuses, add_region-Accounts}

-- In an area in good order an allocation returns, whatever kmalloc answers, and keeps the regions in
-- order, with none reaching more than `size` bytes further than they did before.
pub add_region-keeps_order :
    (split_ok append_ok : Bool) (lo hi : ℕ) (area : AreaStruct) (size : ℕ)
    → hi + size < ulong_mod
    → Ordered lo area.regions hi
    → Coalesced area.regions
    → area.head_free ≢ 1
    → Returns
        (λ out. Ordered lo out.0.regions (hi + size))
        (add_region split_ok append_ok lo area size)
add_region-keeps_order split_ok append_ok lo hi area size fits o w h =
    Returns-Holds _ _ (add_region split_ok append_ok lo area size)
      (add_region-Coalesced split_ok append_ok lo size area h w)
      (add_region-Ordered split_ok append_ok lo hi area size fits o)

-- Freeing a region, where the regions are coalesced, the list's head does not look free and the sum
-- does not wrap, returns. It keeps the
-- account of the area, its free space and its bytes in use together, if the region was in use; if
-- the region was free already, it adds the size of the region to the account once more.
pub free_region-keeps_account :
    (area : AreaStruct) (c : Cursor)
    → area.regions ≡ nodes c
    → area.free_space + c.focus.size < ulong_mod
    → Coalesced (nodes c)
    → area.head_free ≢ 1
    → Returns
        (λ m. accounted m ≡ accounted area + (if c.focus.free == 0 then 0 else c.focus.size))
        (free_region area c)
free_region-keeps_account area c whole fits w h =
    Returns-Holds _ _ (free_region area c) (free_region-Coalesced area c h w)
      (free_region-accounted area c whole fits)

-- An allocation where a split finds memory, in an area whose regions are coalesced and have words as
-- sizes, whose list's head does not look free, and that claims enough free space, returns. With a
-- region in the result, the regions in use have `size` bytes more than before, and the free space
-- `size` bytes less, unless the first free region that is large enough has exactly the size asked
-- for: then the free space is as before, and so `size` bytes too large. NULL leaves the area as it
-- was.
pub add_region-moves_account :
    (append_ok : Bool) (lo size : ℕ) (area : AreaStruct)
    → size ≤ area.free_space
    → area.free_space < ulong_mod
    → Below area.regions
    → Coalesced area.regions
    → area.head_free ≢ 1
    → Returns
        (AccountsFor area size (reuses size area.regions))
        (add_region true append_ok lo area size)
add_region-moves_account append_ok lo size area enough fits b w h =
    Returns-Holds _ _ (add_region true append_ok lo area size)
      (add_region-Coalesced true append_ok lo size area h w)
      (add_region-Accounts append_ok lo size area enough fits b)
