-- ===== src/Area.antt =====
-- The area list of src/area.c over the region lists of `Region` and the maps of `Vma`. A pointer
-- to an area is an area cursor, and what the kernel answers during a call is a record. A result
-- `none` is a read through a bad pointer, or the head of a region list handed to kfree.
pub mod Extend
pub mod Lookup
pub mod Count
pub mod Create
pub mod Added
pub mod Container
pub mod Remove
use mathlib.Core.Option
use netmalloc.Common.{
  ℕ, suc, Bool, true, false, ◌&&◌, Option, none, some, List, [], ◌∷◌, ◌++◌, ◌==◌, ltb, leb,
  if◌then◌else◌, add64, sub64, ◌>>=◌, rebuild,
}
use netmalloc.Align.{align_floor, align_ceil}
use netmalloc.Vma.{Vmas, store, vm_next, is_last_vma, Answers, add_vma}
use netmalloc.Region.{RegionStruct, AreaStruct, Cursor, add_region, get_region, free_region}

abbrev pub page_shift : ℕ
page_shift = 12

abbrev pub vma_shift : ℕ
vma_shift = 13

pub record Areas : Type 0 where
  pub vmas : Vmas
  pub area_list : List AreaStruct

pub record AreaCursor : Type 0 where
  pub before : List AreaStruct
  pub area : AreaStruct
  pub after : List AreaStruct

abbrev pub area_cursor : List AreaStruct → AreaStruct → List AreaStruct → AreaCursor
area_cursor bs a l = record { before = bs; area = a; after = l }

-- The list with the area at the cursor as it is now.
abbrev pub area_nodes : AreaCursor → List AreaStruct
area_nodes c = rebuild c.before (c.area ∷ c.after)

-- The loop of `get_area`, at the node behind `bs`. The inner `none` is NULL.
unfoldable pub find_area :
    Vmas → ℕ → ℕ → List AreaStruct → List AreaStruct → Option (Option AreaCursor)
find_area s pid address bs [] = some none
find_area s pid address bs (a ∷ l) =
    let rest = find_area s pid address (a ∷ bs) l in
    if a.pid == pid
    then elim (s.heap a.vma) [
      | none ↦ none
      | some v ↦
          if leb v.vm_start address && ltb address v.vm_end
          then some (some (area_cursor bs a l))
          else rest
    ]
    else rest

unfoldable pub get_area : Areas → ℕ → ℕ → Option (Option AreaCursor)
unfolding find_area
get_area s pid address = find_area s.vmas pid address [] s.area_list

unfoldable pub get_area_count : ℕ → List AreaStruct → ℕ
get_area_count pid [] = 0
get_area_count pid (a ∷ l) =
    let rest = get_area_count pid l in if a.pid == pid then suc rest else rest

-- The page range of a region, with its end rounded up.
abbrev pub page_start : RegionStruct → ℕ
page_start r = align_floor r.virtual_start page_shift

abbrev pub page_end : RegionStruct → ℕ
page_end r = align_ceil (add64 r.virtual_start r.size) page_shift

unfoldable pub valid_region : ℕ → List RegionStruct → Bool
unfolding align_floor align_ceil
valid_region address [] = false
valid_region address (r ∷ l) =
    if (leb (page_start r) address && ltb address (page_end r)) && r.free == 0
    then true
    else valid_region address l

unfoldable pub is_valid_address : ℕ → ℕ → List AreaStruct → Bool
unfolding valid_region
is_valid_address address vma [] = false
is_valid_address address vma (a ∷ l) =
    let rest = is_valid_address address vma l in
    if a.vma == vma then (if valid_region address a.regions then true else rest) else rest

-- The new last area, before `area->vma` is set: kmalloc leaves `vma` and the head as they were.
abbrev pub new_area : ℕ → ℕ → ℕ → ℕ → ℕ → AreaStruct
new_area size pid vma head_free head_size = record {
  vma = vma;
  pid = pid;
  size = size;
  free_space = size;
  head_free = head_free;
  head_size = head_size;
  regions = [];
}

-- By how much the area has to grow.
abbrev pub extra_size : AreaStruct → ℕ → ℕ
extra_size area size =
    sub64 (align_ceil (sub64 (add64 area.size size) area.free_space) page_shift) area.size

-- The maps and the area after the extension; the inner `none` is -1.
unfoldable pub extend_vma : Vmas → AreaStruct → ℕ → Option (Option (Vmas × AreaStruct))
unfolding align_ceil is_last_vma vm_next
extend_vma s area size = do
  let extra = extra_size area size
  v ← s.heap area.vma
  last ← is_last_vma s area.vma
  next ← vm_next s area.vma
  room ←
      (if last then some true else do n ← s.heap next; some (ltb (add64 v.vm_end extra) n.vm_start))
  some (
      if room
      then some (
        store area.vma (some (record v { vm_end = add64 v.vm_end extra })) s,
        record area { size = add64 area.size extra; free_space = add64 area.free_space extra },
      )
      else none)

-- What the kernel answers to `create_region`: to the kmalloc of a new area, with what the fresh
-- memory holds, to `add_vma`, and to the kmalloc of a region in a split and behind the last one.
pub record CreateAnswers : Type 0 where
  pub area_ok : Bool
  pub head_free : ℕ
  pub head_size : ℕ
  pub vma : Answers
  pub split_ok : Bool
  pub append_ok : Bool

-- `get_area_container` once no area in the list will do. The node stays in the list, with `vma`
-- NULL, when `add_vma` fails.
unfoldable pub new_container :
    CreateAnswers → Areas → ℕ → ℕ → ℕ → Option (Areas × Option AreaCursor)
unfolding align_ceil add_vma
new_container k s pid mm size =
    let rounded = align_ceil size vma_shift in
    if k.area_ok
    then (do
      (vmas, vma) ← add_vma k.vma s.vmas mm rounded
      let area = new_area rounded pid vma k.head_free k.head_size
      some (
        record { vmas = vmas; area_list = s.area_list ++ area ∷ [] },
        if vma == 0 then none else some (area_cursor (rebuild s.area_list []) area []),
      ))
    else none

-- The loop of `get_area_container`, at the node behind `bs`.
unfoldable pub scan_containers :
    CreateAnswers
    → Areas
    → ℕ
    → ℕ
    → ℕ
    → List AreaStruct
    → List AreaStruct
    → Option (Areas × Option AreaCursor)
scan_containers k s pid mm size bs [] = new_container k s pid mm size
scan_containers k s pid mm size bs (a ∷ l) =
    let rest = scan_containers k s pid mm size (a ∷ bs) l in
    if a.pid == pid
    then (if leb size a.free_space
        then some (s, some (area_cursor bs a l))
        else elim (extend_vma s.vmas a size) [
          | none ↦ none
          | some extended ↦ elim extended [
            | none ↦ rest
            | some (vmas, a') ↦ some (
              record { vmas = vmas; area_list = rebuild bs (a' ∷ l) },
              some (area_cursor bs a' l),
            )
          ]
        ])
    else rest

unfoldable pub get_area_container :
    CreateAnswers → Areas → ℕ → ℕ → ℕ → Option (Areas × Option AreaCursor)
unfolding scan_containers
get_area_container k s pid mm size = scan_containers k s pid mm size [] s.area_list

-- `add_region` in the area at the cursor.
unfoldable pub add_region_at :
    CreateAnswers → Areas → AreaCursor → ℕ → Option (Areas × Option RegionStruct)
add_region_at k s c size = do
  v ← s.vmas.heap c.area.vma
  (area, region) ← add_region k.split_ok k.append_ok v.vm_start c.area size
  some (record s { area_list = rebuild c.before (area ∷ c.after) }, region)

unfoldable pub create_region :
    CreateAnswers → Areas → ℕ → ℕ → ℕ → Option (Areas × Option RegionStruct)
unfolding get_area_container add_region_at
create_region k s pid mm size = do
  (s', container) ← get_area_container k s pid mm size
  elim container [ none ↦ some (s', none) | some c ↦ add_region_at k s' c size ]

-- The structure of an area without regions.
abbrev pub vma_to_remove : AreaStruct → Option ℕ
vma_to_remove area = elim area.regions [ [] ↦ some area.vma | r ∷ l ↦ none ]

-- `remove_region` once `get_region` has returned, in the area at the cursor.
unfoldable pub remove_region_at : Areas → AreaCursor → Option Cursor → Option (Areas × Option ℕ)
remove_region_at s c none = some (s, none)
remove_region_at s c (some r) = do
  area ← free_region c.area r
  some (record s { area_list = rebuild c.before (area ∷ c.after) }, vma_to_remove area)

-- The areas after `remove_region`, and the structure that it ends by handing to `remove_vma`.
unfoldable pub remove_region : Areas → ℕ → ℕ → Option (Areas × Option ℕ)
unfolding remove_region_at
remove_region s pid address = do
  found ← get_area s pid address
  elim found [ none ↦ some (s, none) | some c ↦ remove_region_at s c (get_region c.area address) ]

abbrev pub init_area_list : List AreaStruct
init_area_list = []

-- Each area is emptied of its regions and taken off.
unfoldable pub remove_regions : List RegionStruct → List RegionStruct
remove_regions [] = []
remove_regions (r ∷ l) = remove_regions l

unfoldable pub remove_area_list : List AreaStruct → List AreaStruct
remove_area_list [] = []
remove_area_list (a ∷ l) = remove_area_list l
