-- ===== src/Tests/Regions.antt =====
-- Runs on the region lists of src/area.c.
use netmalloc.Common.{rebuild, ℕ, ◌+◌, ◌≡◌, refl, inl, inr, true, [], ◌∷◌, arith, Returns}
use netmalloc.Region.{RegionStruct, AreaStruct, Cursor, cursor, add_region, free_region}
use netmalloc.Region.Order.{Ordered, CursorOrdered}
use netmalloc.Region.Coalesced.{Coalesced, free_region-Coalesced}
use netmalloc.Region.Coalesced.Add.{LeavesCoalesced, add_region-Coalesced}
use netmalloc.Region.Total.{free_region-keeps_account, add_region-moves_account}
use netmalloc.Region.Space.{accounted}
use netmalloc.Region.Space.Add.{AccountsFor, reuses}

abbrev region : ℕ → ℕ → ℕ → RegionStruct
region free size start = record { free = free; size = size; virtual_start = start }

-- A free region between two in use.
abbrev used_1 : RegionStruct
used_1 = region 0 100 8192

abbrev hole : RegionStruct
hole = region 1 200 8292

abbrev used_2 : RegionStruct
used_2 = region 0 50 8492

abbrev area : AreaStruct
area = record {
  vma = 7;
  pid = 1;
  size = 8192;
  free_space = 8042;
  head_free = 0;
  head_size = 0;
  regions = used_1 ∷ hole ∷ used_2 ∷ [];
}

abbrev at_used_1 : Cursor
at_used_1 = cursor [] used_1 (hole ∷ used_2 ∷ [])

area-Ordered : Ordered 8192 area.regions 8542
area-Ordered = (omega arith, (omega arith, (omega arith, omega arith)))

at_used_1-Ordered : CursorOrdered 8192 at_used_1 8542
at_used_1-Ordered = (tt, (omega arith, (omega arith, (omega arith, omega arith))))

area-Coalesced : Coalesced area.regions
area-Coalesced = (inl (omega arith), (inl (omega arith), (inr (omega arith), omega arith)))

free_region-Coalesced_example :
    Returns (λ m. Coalesced m.regions × (m.head_free ≡ 0)) (free_region area at_used_1)
unfolding rebuild
free_region-Coalesced_example = free_region-Coalesced area at_used_1 (omega arith) area-Coalesced

free_region-keeps_account_example :
    Returns (λ m. accounted m ≡ accounted area + 0) (free_region area at_used_1)
unfolding rebuild
free_region-keeps_account_example =
    free_region-keeps_account area at_used_1 refl (omega arith) area-Coalesced (omega arith)

add_region-Coalesced_example : Returns (LeavesCoalesced 0) (add_region true true 8192 area 80)
add_region-Coalesced_example =
    add_region-Coalesced true true 8192 80 area (omega arith) area-Coalesced

-- The hole is reused whole.
add_region-moves_account_example :
    Returns (AccountsFor area 200 (reuses 200 area.regions)) (add_region true true 8192 area 200)
add_region-moves_account_example =
    add_region-moves_account true 8192 200 area (omega arith) (omega arith)
      (omega arith, (omega arith, (omega arith, tt))) area-Coalesced (omega arith)
