-- ===== src/Dump.antt =====
-- The debug prints of the lists: `dump_stored_pages`, `dump_buffers`, `dump_area_list` and
-- `dump_kernel_buffer_list`. A print is the list of its lines, and a line is its format with the values
-- in it.
pub mod ReadBack
use netmalloc.Common.{ℕ, suc, List, [], ◌∷◌, ◌++◌, ◌==◌, if◌then◌else◌}
use netmalloc.StoredPage.{StoredPage}
use netmalloc.MappedBuffer.{MappedBuffer}
use netmalloc.Region.{RegionStruct, AreaStruct}
use netmalloc.Storage.Kernel.{KernelBufferList}

pub data Line : Type 0 where
  blank stored_pages_title buffers_title areas_title kernel_buffers_title kernel_buffers_empty :
      Line
  page_line : (i pid start : ℕ) → Line
  buffer_line : (pid start : ℕ) → Line
  cache_line : (cache_start : ℕ) → Line
  area_line : (pid size free_space : ℕ) → Line
  region_line : (virtual_start size free : ℕ) → Line
  kernel_buffer_line : (address pid : ℕ) → Line

-- The pages behind the `i` first ones.
unfoldable pub dump_pages : ℕ → List StoredPage → List Line
dump_pages i [] = blank ∷ []
dump_pages i (page ∷ pages) = page_line (suc i) page.pid page.start ∷ dump_pages (suc i) pages

unfoldable pub dump_stored_pages : List StoredPage → List Line
unfolding dump_pages
dump_stored_pages stored_pages = stored_pages_title ∷ dump_pages 0 stored_pages

abbrev pub dump_buffer : MappedBuffer → List Line
dump_buffer buffer =
    buffer_line buffer.pid buffer.start
    ∷ (if buffer.cache_vma == 0 then [] else cache_line buffer.cache_start ∷ [])

unfoldable pub dump_each_buffer : List MappedBuffer → List Line
dump_each_buffer [] = blank ∷ []
dump_each_buffer (buffer ∷ buffers) = dump_buffer buffer ++ dump_each_buffer buffers

unfoldable pub dump_buffers : List MappedBuffer → List Line
unfolding dump_each_buffer
dump_buffers buffers = buffers_title ∷ dump_each_buffer buffers

-- The regions of an area, before the lines of the next one.
unfoldable pub dump_regions : List RegionStruct → List Line → List Line
dump_regions [] rest = rest
dump_regions (region ∷ regions) rest =
    region_line region.virtual_start region.size region.free ∷ dump_regions regions rest

unfoldable pub dump_areas : List AreaStruct → List Line
unfolding dump_regions
dump_areas [] = blank ∷ []
dump_areas (area ∷ areas) =
    area_line area.pid area.size area.free_space ∷ dump_regions area.regions (dump_areas areas)

unfoldable pub dump_area_list : List AreaStruct → List Line
unfolding dump_areas
dump_area_list area_list = areas_title ∷ dump_areas area_list

module _ {Page : Type 0} where
  unfoldable pub dump_kernel_buffers : List (KernelBufferList Page) → List Line
  dump_kernel_buffers [] = []
  dump_kernel_buffers (kb ∷ l) = kernel_buffer_line kb.address kb.pid ∷ dump_kernel_buffers l

  unfoldable pub dump_kernel_buffer_list : List (KernelBufferList Page) → List Line
  unfolding dump_kernel_buffers
  dump_kernel_buffer_list [] = kernel_buffers_empty ∷ []
  dump_kernel_buffer_list (kb ∷ l) = kernel_buffers_title ∷ dump_kernel_buffers (kb ∷ l)
