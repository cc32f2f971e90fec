-- ===== src/Tests/Areas.antt =====
-- Runs on the area list of src/area.c.
use netmalloc.Common.{
  ◌++◌, ℕ, ◌≡◌, refl, inl, inr, true, false, none, some, [], ◌∷◌, arith, ◌==◌, if◌then◌else◌,
  Returns, rebuild,
}
use netmalloc.Vma.{VmAreaStruct, Vmas, next_of, first}
use netmalloc.Region.{RegionStruct, AreaStruct, Cursor, cursor, get_region, find_region}
use netmalloc.Region.Order.{Ordered}
use netmalloc.Region.Order.Add.{tail_end}
use netmalloc.Region.Coalesced.{Coalesced}
use netmalloc.Area.{
  Areas, area_cursor, get_area, find_area, get_area_count, is_valid_address, extend_vma,
  CreateAnswers, create_region, remove_region,
}
use netmalloc.Area.Extend.{Extended, extend_vma-Extended}
use netmalloc.Area.Lookup.{touched, is_valid_address-touched, Located, get_area-Located}
use netmalloc.Area.Create.{none_fits, create_region-tail, create_region-null_area}
use netmalloc.Region.Same.{SameOwner}
use netmalloc.Area.Remove.{HandedOver, Removed, remove_region-Removed}

-- A map with an area of one page at 8192 and a structure of something else at 40960.
abbrev vma : VmAreaStruct
vma = record { vm_mm = 1; vm_start = 8192; vm_end = 12288 }

abbrev behind : VmAreaStruct
behind = record { vm_mm = 1; vm_start = 40960; vm_end = 45056 }

abbrev vmas : Vmas
vmas = record {
  heap = λ p. if p == 7 then some vma else if p == 8 then some behind else none;
  mmap = λ mm. if mm == 1 then 7 ∷ 8 ∷ [] else [];
}

abbrev region : ℕ → ℕ → ℕ → RegionStruct
region free size start = record { free = free; size = size; virtual_start = start }

-- Two holes of 1000 bytes, and 96 bytes behind the last region.
abbrev hole : RegionStruct
hole = region 1 1000 8192

abbrev first_region : RegionStruct
first_region = region 0 1000 9192

abbrev last_region : RegionStruct
last_region = region 0 1000 11192

abbrev area : AreaStruct
area = record {
  vma = 7;
  pid = 1;
  size = 4096;
  free_space = 2096;
  head_free = 0;
  head_size = 0;
  regions = hole ∷ first_region ∷ region 1 1000 10192 ∷ last_region ∷ [];
}

abbrev areas : Areas
areas = record { vmas = vmas; area_list = area ∷ [] }

area-Ordered : Ordered 8192 area.regions 12192
area-Ordered = (omega arith, (omega arith, (omega arith, (omega arith, omega arith))))

area-Coalesced : Coalesced area.regions
area-Coalesced =
    (inl (omega arith), (inr (omega arith), (inl (omega arith), (inr (omega arith), omega arith))))

extend_vma-Extended_example : Returns (Extended vmas area 5000 vma 8) (extend_vma vmas area 5000)
extend_vma-Extended_example =
    extend_vma-Extended vmas area 5000 vma 8 refl (unfold next_of first in refl)
      (λ h. (behind, refl))
      (record { short = omega arith; within = omega arith; fits = omega arith }) (omega arith)

is_valid_address-touched_example :
    is_valid_address 8192 7 areas.area_list ≡ touched 8192 7 areas.area_list
is_valid_address-touched_example =
    is_valid_address-touched 8192 7 12192 areas.area_list (omega arith) (omega arith)
      ((8192, area-Ordered), tt)

get_area-Located_example :
    Returns (Located vmas 1 9192 areas.area_list areas.area_list) (get_area areas 1 9192)
get_area-Located_example = get_area-Located areas 1 9192 ((λ e. (vma, refl)), tt)

abbrev answers : CreateAnswers
answers = record {
  area_ok = true;
  head_free = 0;
  head_size = 0;
  vma = record { symbol = false; kzalloc = 9; insert_vm_struct = λ s mm p. some s };
  split_ok = true;
  append_ok = true;
}

-- An area of another process stands in front.
abbrev other : AreaStruct
other = record area { pid = 2 }

-- The area claims 2096 bytes free, but no hole has 1500 of them: the region ends behind the structure.
create_region-tail_example :
    Returns
      (λ out.
        (r : RegionStruct) × (after : AreaStruct) × (out.1 ≡ some r)
        × (r.free ≡ 0)
        × (r.size ≡ 1500)
        × (r.virtual_start ≡ tail_end 8192 area.regions)
        × (after.regions ≡ area.regions ++ r ∷ [])
        × (out.0.area_list ≡ rebuild (other ∷ []) (after ∷ [])))
      (create_region answers (record areas { area_list = other ∷ area ∷ [] }) 1 1 1500)
create_region-tail_example =
    create_region-tail answers (record areas { area_list = other ∷ area ∷ [] }) 1 1 1500 12192
      (other ∷ []) area [] vma (unfold rebuild in refl) (omega arith, tt) refl refl (omega arith)
      (unfold none_fits in refl) refl area-Ordered (omega arith)

create_region-null_area_example :
    Returns
      (λ out. (out.1 ≡ none) × ((address : ℕ) → get_area out.0 2 address ≡ none))
      (create_region answers areas 2 1 1500)
create_region-null_area_example =
    create_region-null_area answers areas 2 1 1500 (unfold get_area_count in refl) refl refl refl

abbrev at_last : Cursor
at_last = cursor (region 1 1000 10192 ∷ first_region ∷ hole ∷ []) last_region []

remove_region-Removed_example :
    Returns
      (λ out.
        (after : AreaStruct) × (out.0.area_list ≡ rebuild [] (after ∷ []))
        × Removed 8192 12192 area last_region after
        × (last_region.virtual_start ≡ 11192)
        × SameOwner area after
        × HandedOver area after out.1)
      (remove_region areas 1 11192)
remove_region-Removed_example =
    remove_region-Removed areas 1 11192 8192 12192 (area_cursor [] area []) at_last
      (unfold get_area find_area in refl) (unfold get_region find_region in refl) (omega arith)
      area-Ordered area-Coalesced (omega arith)
