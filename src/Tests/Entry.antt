-- ===== src/Tests/Entry.antt =====
-- Runs on the entry points of src/generic_malloc.c, and on the kernel storage of src/storage.c.
use mathlib.Core.Path.{subst}
use netmalloc.Common.{
  ℕ, ◌%◌, ◌≤◌, ◌≡◌, refl, inl, true, false, ◌&&◌, none, some, List, [], ◌∷◌, arith, ◌==◌,
  if◌then◌else◌, pos, Returns, add64, sub64, rebuild,
}
use netmalloc.MappedBuffer.{MappedBuffer, get_buffer}
use netmalloc.Vma.{is_existing_vma, listed}
use netmalloc.Region.{
  RegionStruct, AreaStruct, Cursor, cursor, add_region, get_free_region, scan_regions,
  append_region,
}
use netmalloc.Region.Order.{Ordered, CursorOrdered}
use netmalloc.Region.Coalesced.{Coalesced}
use netmalloc.Area.{Areas, page_start, page_end, CreateAnswers, create_region}
use netmalloc.Area.Lookup.{touches}
use netmalloc.Pager.{State}
use netmalloc.Entry.Fuel.{remove_region_pages-ends}
use netmalloc.Entry.{
  can_remove_page, region_pages, remove_pages, remove_region_pages, generic_malloc,
}
use netmalloc.Entry.Clear.{can_remove_page-clear}
use netmalloc.Entry.View.{Unmaps, Malloced, generic_malloc-Malloced}
use netmalloc.Storage.Kernel.{
  uint_mod, KernelBufferList, head, kernel_save, kernel_load, kernel_remove,
}
use netmalloc.Storage.Kernel.Memory.{LoadsAs, kernel_save-LoadsAs, kernel_remove-LoadsAs}
use netmalloc.Tests.Paging.{table, table-IsReliable, unmapping, unmapping-Willing}

abbrev region : ℕ → ℕ → RegionStruct
region size start = record { free = 0; size = size; virtual_start = start }

-- The region in the middle has the page at 12288 for itself, and shares its first and last page.
abbrev middle : RegionStruct
middle = region 12000 8292

abbrev pub area : AreaStruct
area = record {
  vma = 7;
  pid = 1;
  size = 12288;
  free_space = 88;
  head_free = 0;
  head_size = 0;
  regions = region 100 8192 ∷ middle ∷ region 100 20292 ∷ [];
}

abbrev at_middle : Cursor
at_middle = cursor (region 100 8192 ∷ []) middle (region 100 20292 ∷ [])

abbrev pub buffer : MappedBuffer
buffer = record {
  buffer = 100;
  vma = 7;
  start = 8192;
  pid = 1;
  cache = 200;
  cache_vma = 7;
  cache_start = 12288;
}

abbrev areas : Areas
areas = record {
  vmas = record {
    heap =
        λ p. if p == 7 then some (record { vm_mm = 1; vm_start = 8192; vm_end = 20480 }) else none;
    mmap = λ mm. if mm == 1 then 7 ∷ [] else [];
  };
  area_list = area ∷ [];
}

abbrev pub state : State table 0
state = record {
  areas = areas;
  buffers = buffer ∷ [];
  stored_pages = record { pid = 1; start = 12288 } ∷ record { pid = 1; start = 16384 } ∷ [];
  contents = λ p b. if p == 1 && b == 16384 then 55 else 0;
  memory = λ p. if p == 100 then 11 else 22;
}

middle-Ordered : CursorOrdered 8192 at_middle 20392
middle-Ordered = ((omega arith, tt), (omega arith, (omega arith, omega arith)))

pub area-Ordered : Ordered 8192 area.regions 20392
area-Ordered = (omega arith, (omega arith, (omega arith, omega arith)))

area-Coalesced : Coalesced area.regions
area-Coalesced = (inl (omega arith), (inl (omega arith), (inl (omega arith), omega arith)))

abbrev state_with : List AreaStruct → State table 0
state_with l = record state { areas = record areas { area_list = l } }

state-Unmaps :
    (l : List AreaStruct) (b : MappedBuffer)
    → get_buffer 1 (state_with l).buffers ≡ some b
    → Unmaps table 0 table-IsReliable (unmapping 100) (unmapping 200) (state_with l) b
unfolding get_buffer is_existing_vma listed
state-Unmaps l b e =
    let q : buffer ≡ b = cc in
    subst (λ x. Unmaps table 0 table-IsReliable (unmapping 100) (unmapping 200) (state_with l) x) q
      (record {
        once = λ h k. omega arith;
        mapped = λ h. (refl, unmapping-Willing 100);
        cached = λ h. (refl, unmapping-Willing 200);
      })

can_remove_page-clear_example :
    (touches 12288 at_middle.before ≡ false) × (touches 12288 at_middle.after ≡ false)
unfolding add64
can_remove_page-clear_example =
    can_remove_page-clear 12288 8192 20392 at_middle (omega arith) (omega arith) middle-Ordered
      (unfold can_remove_page in refl)

remove_region_pages-ends_example :
    (t : State table 0) × (remove_region_pages table 0 1 state (some at_middle) ≡ some t)
    × ((n : ℕ)
        → region_pages middle ≤ n
        → remove_pages table 0 n 1 at_middle (page_start middle) (page_end middle) state ≡ some t)
remove_region_pages-ends_example =
    remove_region_pages-ends table 0 1 at_middle 8192 20392 state (omega arith) middle-Ordered

abbrev answers : CreateAnswers
answers = record {
  area_ok = true;
  head_free = 0;
  head_size = 0;
  vma = record { symbol = false; kzalloc = 9; insert_vm_struct = λ s mm p. some s };
  split_ok = true;
  append_ok = true;
}

abbrev larger : AreaStruct
larger = record area {
  free_space = 38;
  regions = region 100 8192 ∷ middle ∷ region 100 20292 ∷ region 50 20392 ∷ [];
}

create_region-larger :
    create_region answers areas 1 1 50
    ≡ some (record areas { area_list = larger ∷ [] }, some (region 50 20392))
unfolding create_region add_region get_free_region scan_regions rebuild append_region sub64 add64
create_region-larger = refl

generic_malloc-Malloced_example :
    Returns
      (Malloced table 0 table-IsReliable state 1
        (record areas { area_list = larger ∷ [] })
        (some (region 50 20392)))
      (generic_malloc table 0 answers (unmapping 100) (unmapping 200) state 1 1 50)
generic_malloc-Malloced_example =
    generic_malloc-Malloced table 0 table-IsReliable answers (unmapping 100) (unmapping 200) state 1
      1 50 (record areas { area_list = larger ∷ [] }) (some (region 50 20392)) create_region-larger
      (state-Unmaps (larger ∷ []))

abbrev kept : List (KernelBufferList ℕ)
kept = record { pid = 1; address = 4096; buffer = some 5 } ∷ []

kernel_save-LoadsAs_example :
    Returns
      (λ out. (out.1 ≡ pos 0) × LoadsAs 0 (λ p b. 1 == p && 8192 == b % uint_mod) 6 kept out.0)
      (kernel_save 0 true true 1 8192 6 (head kept))
kernel_save-LoadsAs_example = kernel_save-LoadsAs 0 1 8192 6 kept (omega arith)

kernel_remove-LoadsAs_example :
    Returns
      (λ after.
        LoadsAs 0 (λ p b. 1 == p && 4096 == b % uint_mod) 0 kept after
        × (uint_mod ≤ 4096
            → (p b old : ℕ) → kernel_load 0 p b old after ≡ kernel_load 0 p b old (head kept)))
      (kernel_remove 0 1 4096 (head kept))
kernel_remove-LoadsAs_example = kernel_remove-LoadsAs 0 1 4096 kept
