-- ===== src/Tests/Lists.antt =====
-- Runs on src/kutils.h, src/stored_page.c, src/mapped_buffer.c and src/vma.c.
use netmalloc.Common.{
  ℕ, ◌+◌, ◌%◌, ◌^◌, ◌≤◌, ◌<◌, ◌≡◌, ◌≢◌, refl, true, none, some, List, [], ◌∷◌, arith, ◌==◌,
  if◌then◌else◌,
}
use netmalloc.Align.{align_ceil}
use netmalloc.Align.Bounds.{align_ceil-bounds}
use netmalloc.StoredPage.{StoredPage, is_stored_page}
use netmalloc.StoredPage.Set.{Distinct}
use netmalloc.MappedBuffer.{MappedBuffer, Memory, get_buffer, add_buffer, remove_buffer}
use netmalloc.MappedBuffer.Laws.{
  Allocates, FreesPages, OnePerPid, add_buffer-OnePerPid, remove_buffer-OnePerPid,
}
use netmalloc.Region.{AreaStruct}
use netmalloc.Dump.{dump_stored_pages, dump_area_list}
use netmalloc.Dump.ReadBack.{read_pages, read_areas, numbered, printed, dump-read}
use netmalloc.Vma.{VmAreaStruct, page_size, get_free_space}
use netmalloc.Vma.FreeSpace.{IsGap, get_free_space-IsGap}

align_ceil-bounds_example :
    (align_ceil 5000 13 % 2 ^ 13 ≡ 0)
    × (5000 ≤ align_ceil 5000 13)
    × (align_ceil 5000 13 < 5000 + 2 ^ 13)
align_ceil-bounds_example = align_ceil-bounds 5000 13 (omega arith)

abbrev two_pages : List StoredPage
two_pages = record { pid = 1; start = 4096 } ∷ record { pid = 2; start = 4096 } ∷ []

two_pages-Distinct : Distinct two_pages
two_pages-Distinct = unfold is_stored_page in (refl, (refl, tt))

abbrev buffer_1 : MappedBuffer
buffer_1 = record {
  buffer = 100;
  vma = 7;
  start = 4096;
  pid = 1;
  cache = 200;
  cache_vma = 0;
  cache_start = 0;
}

abbrev buffers : List MappedBuffer
buffers = buffer_1 ∷ record buffer_1 { pid = 2; buffer = 300; cache = 400 } ∷ []

buffers-OnePerPid : OnePerPid buffers
buffers-OnePerPid = unfold get_buffer in (refl, (refl, tt))

abbrev memory : Memory
memory = record { kmalloc = true; start = 0; cache_start = 0; buffer = 500; cache = 600 }

add_buffer-OnePerPid_example :
    let r = add_buffer memory 3 buffers in
    OnePerPid r.1
    × ((p : ℕ) → get_buffer p r.1 ≡ (if 3 == p then r.0 else get_buffer p buffers))
    × ((b : MappedBuffer)
        → r.0 ≡ some b
        → (b.buffer ≢ 0) × (b.cache ≢ 0) × (b.vma ≡ 0) × (b.cache_vma ≡ 0))
    × (Allocates memory
        → (b : MappedBuffer) × (r.0 ≡ some b) × (b.pid ≡ 3) × (b.buffer ≡ 500) × (b.cache ≡ 600))
    × (¬ Allocates memory → (r.0 ≡ none) × (r.1 ≡ buffers))
add_buffer-OnePerPid_example =
    add_buffer-OnePerPid memory 3 buffers (unfold get_buffer in refl) buffers-OnePerPid

remove_buffer-OnePerPid_example :
    let r = remove_buffer 2 buffers in
    OnePerPid r.0
    × ((p : ℕ) → get_buffer p r.0 ≡ (if 2 == p then none else get_buffer p buffers))
    × (get_buffer 2 buffers ≡ none → (r.0 ≡ buffers) × (r.1 ≡ []))
    × ((b : MappedBuffer) → get_buffer 2 buffers ≡ some b → FreesPages b r.1)
remove_buffer-OnePerPid_example = remove_buffer-OnePerPid 2 buffers buffers-OnePerPid

-- A map with a gap of three pages between its two structures.
abbrev vmas : List VmAreaStruct
vmas =
    record { vm_mm = 1; vm_start = 4096; vm_end = 8192 }
    ∷ record { vm_mm = 1; vm_start = 20480; vm_end = 24576 }
    ∷ []

get_free_space-IsGap_example :
    let e = get_free_space vmas 8192 in IsGap e (e + 8192) vmas × (page_size ≤ e) × (e ≤ 24576)
get_free_space-IsGap_example =
    get_free_space-IsGap 8192 24576 vmas (omega arith)
      ((omega arith, omega arith), ((omega arith, omega arith), omega arith))

abbrev one_area : AreaStruct
one_area = record {
  vma = 7;
  pid = 1;
  size = 8192;
  free_space = 8092;
  head_free = 0;
  head_size = 0;
  regions = record { free = 0; size = 100; virtual_start = 4096 } ∷ [];
}

dump-read_example :
    (read_pages (dump_stored_pages two_pages) ≡ numbered 0 two_pages)
    × (read_areas (dump_area_list (one_area ∷ [])) ≡ ([], printed one_area ∷ []))
dump-read_example = dump-read two_pages (one_area ∷ [])
