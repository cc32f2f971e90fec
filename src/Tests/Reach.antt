-- ===== src/Tests/Reach.antt =====
-- A run of the module: an allocation from an empty start, a first fault in it, and what can follow.
use mathlib.Core.Option
use mathlib.Core.Path.{subst}
use netmalloc.Common.{
  ℕ, ◌≡◌, refl, sym, inl, true, ◌≤◌, ◌≢◌, ◌&&◌, Option, none, some, List, [], ◌∷◌, arith, ◌==◌,
  if◌then◌else◌, Returns, add64, sub64, rebuild,
}
use netmalloc.Align.{align_floor, align_ceil}
use netmalloc.StoredPage.{is_stored_page}
use netmalloc.MappedBuffer.{MappedBuffer, Release, get_buffer, add_buffer}
use netmalloc.Vma.{
  VmAreaStruct, Vmas, is_existing_vma, listed, structs, scan_maps, get_free_space,
  create_vm_area_struct, add_vma,
}
use netmalloc.Region.{
  RegionStruct, AreaStruct, cursor, get_region, find_region, add_region, get_free_region,
  scan_regions, append_region,
}
use netmalloc.Area.{
  Areas, area_cursor, get_area, find_area, CreateAnswers, create_region, new_container,
  is_valid_address, valid_region,
}
use netmalloc.Pager.{
  State, unmap_page, map_page, fill_buffer, put_buffer, generic_malloc_get_page,
  generic_malloc_vm_fault,
}
use netmalloc.Pager.View.Handler.{Handled}
use netmalloc.Pager.View.Unmap.{Willing}
use netmalloc.Entry.{generic_malloc, generic_free}
use netmalloc.Entry.Whole.{netfree_syscall, generic_malloc_vm_close}
use netmalloc.Entry.View.{Freed}
use netmalloc.System.Areas.{Grants}
use netmalloc.System.Steps.{WellFormed, Reachable, start, after, malloc, fault}
use netmalloc.System.Invariant.{Reachable-WellFormed}
use netmalloc.System.Netfree.{Gone, leave_maps, Reachable-Gone}
use netmalloc.System.Progress.{Reachable-Served}
use netmalloc.Pager.View.Fault.{Faulted}
use netmalloc.Pager.View.First.{Fresh}
use netmalloc.System.Reached.{Reachable-Handled, Reachable-Freed}
use netmalloc.Tests.Paging.{table, table-IsReliable, unmapping, unmapping-Willing, mapping}

abbrev pub empty : State table 0
empty = record {
  areas = record { vmas = record { heap = λ p. none; mmap = λ mm. [] }; area_list = [] };
  buffers = [];
  stored_pages = [];
  contents = λ p b. 0;
  memory = λ p. 0;
}

-- The kernel puts the structure at 9 into the map as its only one.
abbrev answers : CreateAnswers
answers = record {
  area_ok = true;
  head_free = 0;
  head_size = 0;
  vma = record {
    symbol = true;
    kzalloc = 9;
    insert_vm_struct =
        λ s mm p. some (record s { mmap = λ m. if m == mm then p ∷ [] else s.mmap m });
  };
  split_ok = true;
  append_ok = true;
}

abbrev region : RegionStruct
region = record { free = 0; size = 5000; virtual_start = 4096 }

abbrev area : AreaStruct
area = record {
  vma = 9;
  pid = 1;
  size = 8192;
  free_space = 3192;
  head_free = 0;
  head_size = 0;
  regions = region ∷ [];
}

abbrev areas : Areas
areas = record {
  vmas = record {
    heap =
        λ p. if 9 == p then some (record { vm_mm = 1; vm_start = 4096; vm_end = 12288 }) else none;
    mmap = λ mm. if mm == 1 then 9 ∷ [] else [];
  };
  area_list = area ∷ [];
}

abbrev allocated : State table 0
allocated = record empty { areas = areas }

allocation :
    generic_malloc table 0 answers (unmapping 0) (unmapping 0) empty 1 1 5000
    ≡ some (allocated, some 4096)
unfolding generic_malloc create_region new_container add_vma create_vm_area_struct structs scan_maps
    align_ceil add_region get_free_region scan_regions rebuild append_region sub64 add64 unmap_page
    get_buffer
allocation = refl

-- The only list of structures of the empty map.
gap_start :
    (l : List VmAreaStruct) → structs empty.areas.vmas [] ≡ some l → get_free_space l 8192 ≤ 8192
unfolding structs get_free_space scan_maps
gap_start l e =
    let q : ◌≡◌ {A = List VmAreaStruct} [] l = cc in
    subst (λ x. get_free_space x 8192 ≤ 8192) q (omega arith)

insert-heap :
    (t u : Vmas) (mmap : ℕ → List ℕ) (q : ℕ) (v : VmAreaStruct)
    → some (record t { mmap = mmap }) ≡ some u
    → u.heap q ≡ some v
    → t.heap q ≡ some v
insert-heap t u mmap q v e h =
    let same : record t { mmap = mmap } ≡ u = cc in subst (λ x. x.heap q ≡ some v) (sym same) h

empty-Grants : Grants answers 8192 empty.areas 1 5000
unfolding align_ceil add64
empty-Grants = record {
  fresh = λ h. tt;
  head = omega arith;
  gap = gap_start;
  inserts = λ t m p u e q v h. (v, insert-heap t u _ q v e h, refl);
  null = refl;
}

first_Fresh : Fresh [] 1 mapping.buffer
unfolding get_buffer
first_Fresh = record {
  kmalloc = refl;
  buffer = omega arith;
  cache = omega arith;
  apart = omega arith;
  private = λ p c h away. absurd (ground arith);
  private_cache = λ p c h away. absurd (ground arith);
}

Reachable-Served_example :
    (vma : ℕ) × (v : VmAreaStruct) × (areas.vmas.heap vma ≡ some v)
    × Returns
        (Faulted table 0 table-IsReliable allocated 1 4096 vma)
        (generic_malloc_vm_fault table 0 (unmapping 0) mapping allocated 1 4096 vma)
unfolding align_floor
Reachable-Served_example =
    Reachable-Served table 0 table-IsReliable 8192 empty allocated answers (unmapping 0)
      (unmapping 0) (unmapping 0) mapping 1 1 5000 4096 5000 (start (omega arith) refl refl refl)
      empty-Grants refl (omega arith) allocation refl (omega arith) (omega arith)
      (inl (unfold get_buffer in refl, first_Fresh)) refl

abbrev buffer : MappedBuffer
buffer = record {
  buffer = 300;
  vma = 9;
  start = 4096;
  pid = 1;
  cache = 400;
  cache_vma = 0;
  cache_start = 0;
}

abbrev pub faulted : State table 0
faulted = record allocated { buffers = buffer ∷ []; memory = λ p. if 300 == p then 0 else 0 }

first_fault :
    generic_malloc_vm_fault table 0 (unmapping 0) mapping allocated 1 4096 9
    ≡ some (faulted, some 300)
unfolding generic_malloc_vm_fault generic_malloc_get_page is_valid_address valid_region align_floor
    align_ceil unmap_page map_page get_buffer add_buffer fill_buffer put_buffer is_stored_page add64
first_fault = refl

pub run : Reachable table 0 13192 faulted
unfolding get_buffer
run =
    after
      (after (start (omega arith) refl refl refl) (
        malloc answers (unmapping 0) (unmapping 0) 1 1 5000 (some 4096) empty-Grants (omega arith)
          allocation))
      (fault (unmapping 0) mapping 1 4096 9 (some 300) (λ b h. absurd (ground arith))
        (λ h k. (omega arith, λ q c e. absurd (ground arith))) first_fault)

Reachable-WellFormed_example : WellFormed table 0 13192 faulted
Reachable-WellFormed_example = Reachable-WellFormed table 0 13192 faulted run

Reachable-Handled_example :
    Returns
      (Handled table 0 table-IsReliable faulted 1 8192 9)
      (generic_malloc_vm_fault table 0 (unmapping 0) mapping faulted 1 8192 9)
Reachable-Handled_example =
    Reachable-Handled table 0 table-IsReliable 13192 faulted (unmapping 0) mapping buffer 8192 9 run
      (omega arith) (unfold get_buffer in refl) (omega arith) (omega arith) (λ h. omega arith)
      (λ h. absurd (h refl)) refl

get_area-9 : get_area areas 1 4096 ≡ some (some (area_cursor [] area []))
unfolding get_area find_area
get_area-9 = refl

get_region-4096 : get_region area 4096 ≡ some (cursor [] region [])
unfolding get_region find_region
get_region-4096 = refl

-- What the kernel has to grant before the buffer's pages are unmapped.
abbrev Unmappable : MappedBuffer → Type 0
Unmappable b =
    (b.vma ≢ 0 → (is_existing_vma areas.vmas b.vma ≡ some true) × Willing (unmapping 300) b.buffer)
    × (b.cache_vma ≢ 0
        → (is_existing_vma areas.vmas b.cache_vma ≡ some true) × Willing (unmapping 400) b.cache)

unmaps : (b : MappedBuffer) → get_buffer 1 faulted.buffers ≡ some b → Unmappable b
unfolding get_buffer is_existing_vma listed
unmaps b e =
    let q : buffer ≡ b = cc in
    subst Unmappable q (λ h. (refl, unmapping-Willing 300), λ h. absurd (h refl))

Reachable-Freed_example :
    Returns
      (λ out.
        (lo : ℕ) × Freed table 0 table-IsReliable faulted 1 lo 13192
          (area_cursor [] area [])
          (cursor [] region [])
          out)
      (generic_free table 0 (unmapping 300) (unmapping 400) faulted 1 4096)
Reachable-Freed_example =
    Reachable-Freed table 0 table-IsReliable 13192 faulted (unmapping 300) (unmapping 400) 1 4096
      (area_cursor [] area []) (cursor [] region []) run (omega arith) get_area-9 get_region-4096
      unmaps

-- The kernel that knows one structure: it calls the handler and empties the map.
abbrev munmap : State table 0 → ℕ → ℕ → ℕ → Option (State table 0 × List Release)
munmap u mm address len =
    if address == 4096 && len == 8192
    then Option.map (leave_maps table 0 table-IsReliable empty.areas.vmas)
        (generic_malloc_vm_close table 0 u 9)
    else none

Reachable-Gone_example :
    Returns
      (Gone table 0 table-IsReliable faulted (area_cursor [] area []) 1 empty.areas.vmas)
      (netfree_syscall table 0 munmap true (unmapping 300) (unmapping 400) faulted 1 4096)
unfolding sub64
Reachable-Gone_example =
    Reachable-Gone table 0 table-IsReliable 13192 faulted (unmapping 300) (unmapping 400) 1 4096
      (area_cursor [] area []) region (record { vm_mm = 1; vm_start = 4096; vm_end = 12288 })
      empty.areas.vmas munmap run (omega arith) get_area-9 get_region-4096 tt refl unmaps
      (λ u e. refl)
