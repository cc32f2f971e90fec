-- ===== src/Pager/View.antt =====
-- What a process sees at the addresses of its pages, wherever they are kept.
pub mod Unmap
pub mod Fault
pub mod First
pub mod Flush
pub mod Handler
use netmalloc.Common.{ℕ, not, ◌&&◌, Option, none, some, List, ◌==◌, if◌then◌else◌}
use netmalloc.Storage.{StorageOps, IsReliable}
use netmalloc.StoredPage.{StoredPage, is_stored_page}
use netmalloc.MappedBuffer.{MappedBuffer, get_buffer}
use netmalloc.Pager.{State}

module _ {Page : Type 0} (ops : StorageOps Page) (zero_page : Page) (r : IsReliable ops) where
  -- The page as the storage has it: zero, if it was never saved.
  abbrev pub backing : ops.Contents → List StoredPage → ℕ → ℕ → Page
  backing contents pages pid a =
      if is_stored_page pid a pages then r.held contents pid a else zero_page

  -- The page through the buffer of the process: its two mapped pages come before the storage.
  abbrev pub through : Option MappedBuffer → (ℕ → Page) → ℕ → Page → Page
  through none memory a stored = stored
  through (some b) memory a stored =
      if not (b.vma == 0) && b.start == a
      then memory b.buffer
      else if not (b.cache_vma == 0) && b.cache_start == a
      then memory b.cache
      else stored

  abbrev pub view : State ops zero_page → ℕ → ℕ → Page
  view s pid a =
      through (get_buffer pid s.buffers) s.memory a (backing s.contents s.stored_pages pid a)
