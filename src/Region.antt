-- ===== src/Region.antt =====
-- The region lists of src/area.c and the structures of src/area.h. A pointer to a region is a
-- cursor: the region, the nodes before it, nearest first, and the nodes behind it. With nothing
-- before it, the node before it is the head of the list, the field `regions` of the area, whose own
-- `free` and `size` no code sets: they hold what kmalloc returned. `vm_start` is the value of
-- `area->vma->vm_start`, and `ok` is whether kmalloc has memory. The result `none` of an operation
-- means that it handed the head itself to kfree.
pub mod Merge
pub mod Order
pub mod Used
pub mod Coalesced
pub mod Space
pub mod Find
pub mod Total
pub mod Same
use mathlib.Core.Option
use netmalloc.Common.{
  ℕ, Bool, ◌&&◌, Option, none, some, List, [], ◌∷◌, ◌==◌, ltb, if◌then◌else◌, add64, sub64, rebuild,
}

pub record RegionStruct : Type 0 where
  pub free : ℕ
  pub size : ℕ
  pub virtual_start : ℕ

pub record AreaStruct : Type 0 where
  pub vma : ℕ
  pub pid : ℕ
  pub size : ℕ
  pub free_space : ℕ
  pub head_free : ℕ
  pub head_size : ℕ
  pub regions : List RegionStruct

pub record Cursor : Type 0 where
  pub before : List RegionStruct
  pub focus : RegionStruct
  pub after : List RegionStruct

abbrev pub cursor : List RegionStruct → RegionStruct → List RegionStruct → Cursor
cursor bs r l = record { before = bs; focus = r; after = l }

-- The list that a cursor points into.
abbrev pub nodes : Cursor → List RegionStruct
nodes c = rebuild c.before (c.focus ∷ c.after)

-- Where a region behind the nodes `bs` starts.
abbrev pub start_behind : ℕ → List RegionStruct → ℕ
start_behind vm_start [] = vm_start
start_behind vm_start (prev ∷ bs) = add64 prev.virtual_start prev.size

-- The new node stands between `bs` and `l`; the result is a pointer to it, and NULL without memory.
unfoldable pub add_region_after :
    (ok : Bool)
    → (vm_start : ℕ) → List RegionStruct
    → AreaStruct
    → ℕ
    → List RegionStruct
    → Option (AreaStruct × Cursor)
add_region_after ok vm_start bs area size l =
    let region : RegionStruct = record {
      free = 0;
      size = size;
      virtual_start = start_behind vm_start bs;
    } in
    if ok
    then some (record area { free_space = sub64 area.free_space size }, cursor bs region l)
    else none

unfoldable pub merge_next : Cursor → Cursor
merge_next c = elim c.after [
  | [] ↦ c
  | next ∷ l ↦
      if next.free == 1
      then cursor c.before (record c.focus { size = add64 c.focus.size next.size }) l
      else c
]

-- What the local `region` of `merge_neighbors_region` points to after the second merge: a node, or
-- the head, with its new `size` and the nodes behind it.
pub data Place : Type 0 where
  node : Cursor → Place
  head : ℕ → List RegionStruct → Place

-- The guard `region != first` always holds, since `region` is a node.
unfoldable pub merge_prev : AreaStruct → Cursor → Place
merge_prev area c = elim c.before [
  | [] ↦ if area.head_free == 1 then head (add64 area.head_size c.focus.size) c.after else node c
  | prev ∷ bs ↦
      if prev.free == 1
      then node (cursor bs (record prev { size = add64 prev.size c.focus.size }) c.after)
      else node c
]

unfoldable pub remove_last : AreaStruct → Place → Option AreaStruct
remove_last area (node c) = elim c.after [
  | [] ↦ some (record area { regions = rebuild c.before [] })
  | next ∷ l ↦ some (record area { regions = nodes c })
]
remove_last area (head size []) = none
remove_last area (head size (next ∷ l)) =
    some (record area { head_size = size; regions = next ∷ l })

unfoldable pub merge_neighbors_region : AreaStruct → Cursor → Option AreaStruct
unfolding merge_next merge_prev remove_last
merge_neighbors_region area c = remove_last area (merge_prev area (merge_next c))

-- A free region `r` larger than `size` is cut in two.
unfoldable pub split_region :
    (ok : Bool)
    → (vm_start : ℕ) → AreaStruct
    → ℕ
    → List RegionStruct
    → RegionStruct
    → List RegionStruct
    → Option (AreaStruct × Option RegionStruct)
unfolding add_region_after
split_region ok vm_start area size bs r l =
    let region = record r { free = 0; size = size } in
    let cut = record area {
      free_space = sub64 area.free_space size;
      regions = rebuild bs (region ∷ l);
    } in
    elim (add_region_after ok vm_start (region ∷ bs) cut (sub64 r.size size) l) [
      | none ↦ some (cut, none)
      | some (area', c) ↦
          Option.map (λ merged. (merged, some region))
            (merge_neighbors_region
              (record area' { free_space = add64 area'.free_space c.focus.size })
              (record c { focus = record c.focus { free = 1 } }))
    ]

-- The loop of `get_free_region`, at the node behind `bs`.
unfoldable pub scan_regions :
    (ok : Bool)
    → (vm_start : ℕ) → AreaStruct
    → ℕ
    → List RegionStruct
    → List RegionStruct
    → Option (AreaStruct × Option RegionStruct)
scan_regions ok vm_start area size bs [] = some (area, none)
scan_regions ok vm_start area size bs (r ∷ l) =
    if r.size == size && r.free == 1
    then (let region = record r { free = 0 } in
        some (record area { regions = rebuild bs (region ∷ l) }, some region))
    else if ltb size r.size && r.free == 1
    then split_region ok vm_start area size bs r l
    else scan_regions ok vm_start area size (r ∷ bs) l

unfoldable pub get_free_region :
    (ok : Bool) → (vm_start : ℕ) → AreaStruct → ℕ → Option (AreaStruct × Option RegionStruct)
get_free_region ok vm_start area size = scan_regions ok vm_start area size [] area.regions

-- A region behind the last one. The nodes before it are all nodes, the last one first.
unfoldable pub append_region :
    (ok : Bool) → (vm_start : ℕ) → AreaStruct → ℕ → AreaStruct × Option RegionStruct
unfolding add_region_after
append_region ok vm_start area size =
    elim (add_region_after ok vm_start (rebuild area.regions []) area size []) [
      | none ↦ (area, none)
      | some (area', c) ↦ (record area' { regions = nodes c }, some c.focus)
    ]

-- `add_region` from the result of `get_free_region` on.
unfoldable pub or_append :
    (ok : Bool)
    → (vm_start : ℕ) → ℕ
    → AreaStruct × Option RegionStruct
    → AreaStruct × Option RegionStruct
or_append ok vm_start size (area, some region) = (area, some region)
or_append ok vm_start size (area, none) = append_region ok vm_start area size

-- The two answers of kmalloc are for the node of a split and for that of a new last region.
unfoldable pub add_region :
    (split_ok append_ok : Bool)
    → (vm_start : ℕ) → AreaStruct
    → ℕ
    → Option (AreaStruct × Option RegionStruct)
unfolding or_append
add_region split_ok append_ok vm_start area size =
    Option.map (or_append append_ok vm_start size) (get_free_region split_ok vm_start area size)

unfoldable pub find_region : ℕ → List RegionStruct → List RegionStruct → Option Cursor
find_region address bs [] = none
find_region address bs (r ∷ l) =
    if r.virtual_start == address then some (cursor bs r l) else find_region address (r ∷ bs) l

unfoldable pub get_region : AreaStruct → ℕ → Option Cursor
unfolding find_region
get_region area address = find_region address [] area.regions

-- The part of `remove_region` that frees the region and merges it with its neighbours.
unfoldable pub free_region : AreaStruct → Cursor → Option AreaStruct
free_region area c =
    merge_neighbors_region (record area { free_space = add64 area.free_space c.focus.size })
      (record c { focus = record c.focus { free = 1 } })
