-- ===== src/Entry.antt =====
-- The rest of src/generic_malloc.c: the removal of pages from the storage, the close handler and the
-- two entry points. `remove_vma` asks the kernel to unmap a structure, and the kernel then
-- calls the close handler; that is a step of its own, and `generic_free` ends with the structure that
-- it hands to `remove_vma`. Whole puts the two together.
pub mod Clear
pub mod Free
pub mod View
pub mod Stored
pub mod Close
pub mod Fuel
pub mod Whole
use mathlib.Core.Option
use netmalloc.Common.{
  ℕ, zero, suc, ◌-◌, ◌/◌, Bool, false, not, ◌&&◌, Option, none, some, List, [], ◌∷◌, ◌==◌, ltb,
  if◌then◌else◌, add64, ◌>>=◌, is_negative,
}
use netmalloc.Align.{align_floor, align_ceil}
use netmalloc.Storage.{StorageOps}
use netmalloc.StoredPage.{is_stored_page, remove_stored_page}
use netmalloc.MappedBuffer.{Release, remove_buffer}
use netmalloc.Vma.{page_size}
use netmalloc.Region.{RegionStruct, AreaStruct, Cursor, get_region}
use netmalloc.Area.{
  page_shift, page_start, page_end, get_area, get_area_count, CreateAnswers, create_region,
  remove_region,
}
use netmalloc.Pager.{State, UnmapAnswers, unmap_page}

-- Where the walks of `can_remove_page` stop: at the first region in use, or at the last node.
unfoldable pub first_used : List RegionStruct → RegionStruct → RegionStruct
first_used [] region = region
first_used (r ∷ l) region = if r.free == 0 then r else first_used l r

-- `prev_end > address`, unless the region is the first.
unfoldable pub blocked_before : ℕ → List RegionStruct → Bool
unfolding first_used align_ceil
blocked_before address [] = false
blocked_before address (r ∷ l) =
    let prev = first_used (r ∷ l) r in
    ltb address (align_ceil (add64 prev.virtual_start prev.size) page_shift)

-- `next_start < address + PAGE_SIZE`, unless the region is the last.
unfoldable pub blocked_behind : ℕ → List RegionStruct → Bool
unfolding first_used align_floor
blocked_behind address [] = false
blocked_behind address (r ∷ l) =
    let next = first_used (r ∷ l) r in
    ltb (align_floor next.virtual_start page_shift) (add64 address page_size)

unfoldable pub can_remove_page : ℕ → Cursor → Bool
unfolding blocked_before blocked_behind
can_remove_page address c =
    if blocked_before address c.before then false else not (blocked_behind address c.after)

-- The loop runs once for each page between the two ends.
abbrev pub region_pages : RegionStruct → ℕ
region_pages r = suc ((page_end r - page_start r) / page_size)

-- The regions of the first area on the structure are now `regions`.
unfoldable pub set_regions : ℕ → List RegionStruct → List AreaStruct → List AreaStruct
set_regions vma regions [] = []
set_regions vma regions (a ∷ l) =
    if a.vma == vma then record a { regions = regions } ∷ l else a ∷ set_regions vma regions l

unfoldable pub find_vma : ℕ → List AreaStruct → Option AreaStruct
find_vma vma [] = none
find_vma vma (a ∷ l) = if a.vma == vma then some a else find_vma vma l

unfoldable pub unlink_area : ℕ → List AreaStruct → List AreaStruct
unlink_area vma [] = []
unlink_area vma (a ∷ l) = if a.vma == vma then l else a ∷ unlink_area vma l

module _ {Page : Type 0} (ops : StorageOps Page) (zero_page : Page) where
  -- The body of the loop of `remove_storage_pages`.
  unfoldable pub remove_page : ℕ → Cursor → ℕ → State ops zero_page → State ops zero_page
  remove_page pid c start s =
      if is_stored_page pid start s.stored_pages && can_remove_page start c
      then record s {
        contents = ops.remove s.contents pid start;
        stored_pages = remove_stored_page pid start s.stored_pages;
      }
      else s

  -- The loop from `start` on, on fuel.
  unfoldable pub remove_pages :
      ℕ → ℕ → Cursor → ℕ → ℕ → State ops zero_page → Option (State ops zero_page)
  remove_pages zero pid c start end s = none
  remove_pages (suc fuel) pid c start end s =
      let rest = remove_pages fuel pid c (add64 start page_size) end (remove_page pid c start s) in
      if ltb start end then rest else some s

  -- `remove_storage_pages` once `get_region` has returned.
  unfoldable pub remove_region_pages :
      ℕ → State ops zero_page → Option Cursor → Option (State ops zero_page)
  remove_region_pages pid s none = some s
  remove_region_pages pid s (some c) =
      remove_pages (region_pages c.focus) pid c (page_start c.focus) (page_end c.focus) s

  unfoldable pub remove_storage_pages : State ops zero_page → ℕ → ℕ → Option (State ops zero_page)
  unfolding remove_region_pages
  remove_storage_pages s pid address = do
    area ← get_area s.areas pid address
    elim area [ none ↦ some s | some a ↦ remove_region_pages pid s (get_region a.area address) ]

  -- The inner loop of `close_vma`: each region gives its pages back and is taken off.
  unfoldable pub close_regions :
      ℕ → ℕ → List RegionStruct → State ops zero_page → Option (State ops zero_page)
  close_regions pid vma [] s = some s
  close_regions pid vma (r ∷ l) s = do
    s' ← remove_storage_pages s pid r.virtual_start
    close_regions pid vma l
        (record s' { areas = record s'.areas { area_list = set_regions vma l s'.areas.area_list } })

  unfoldable pub drop_area : ℕ → ℕ → State ops zero_page → State ops zero_page × List Release
  drop_area pid vma s =
      let area_list = unlink_area vma s.areas.area_list in
      let (buffers, released) =
        if get_area_count pid area_list == 0
        then remove_buffer pid s.buffers
        else (s.buffers, []) in
      (record s { areas = record s.areas { area_list = area_list }; buffers = buffers }, released)

  -- The handler that the kernel calls for a structure that it takes out of a map.
  unfoldable pub close_vma : State ops zero_page → ℕ → Option (State ops zero_page × List Release)
  close_vma s vma = elim (find_vma vma s.areas.area_list) [
    | none ↦ some (s, [])
    | some area ↦ Option.map (drop_area area.pid vma) (close_regions area.pid vma area.regions s)
  ]

  -- The result of `unmap_page` is not looked at.
  unfoldable pub generic_free :
      UnmapAnswers
      → UnmapAnswers
      → State ops zero_page
      → ℕ
      → ℕ
      → Option (State ops zero_page × Option ℕ)
  generic_free k k' s pid ptr = do
    (unmapped, error) ← unmap_page ops zero_page k k' s pid false
    removed ← remove_storage_pages unmapped pid ptr
    (areas, vma) ← remove_region removed.areas pid ptr
    some (record removed { areas = areas }, vma)

  -- The address of the new region, and NULL on an error.
  unfoldable pub generic_malloc :
      CreateAnswers
      → UnmapAnswers
      → UnmapAnswers
      → State ops zero_page
      → ℕ
      → ℕ
      → ℕ
      → Option (State ops zero_page × Option ℕ)
  generic_malloc kc k k' s pid mm size = do
    (areas, region) ← create_region kc s.areas pid mm size
    let created : State ops zero_page = record s { areas = areas }
    elim region [
      | none ↦ some (created, none)
      | some r ↦
          Option.map (λ out. (out.0, if is_negative out.1 then none else some r.virtual_start))
            (unmap_page ops zero_page k k' created pid false)
    ]
