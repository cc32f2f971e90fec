-- ===== src/System/Reached.antt =====
-- The fault handler and `generic_free` in reachable states, where the invariant gives what their
-- theorems ask of the lists.
use netmalloc.Common.{
  ℕ, ◌+◌, ◌*◌, ◌%◌, ◌<◌, ◌≡◌, ◌≢◌, true, some, List, [], ◌∷◌, arith, ulong_mod, All-split, Returns,
  Returns-imp, Holds-some,
}
use netmalloc.Storage.{StorageOps, IsReliable}
use netmalloc.MappedBuffer.{MappedBuffer, get_buffer}
use netmalloc.Vma.{is_existing_vma, page_size}
use netmalloc.Region.{AreaStruct, Cursor, get_region}
use netmalloc.Area.{AreaCursor, get_area}
use netmalloc.Area.Lookup.{AllOrdered}
use netmalloc.Pager.{State, UnmapAnswers, MapAnswers, generic_malloc_vm_fault}
use netmalloc.Pager.View.Unmap.{Willing}
use netmalloc.Pager.View.Fault.{Ready}
use netmalloc.Pager.View.Handler.{Handled, generic_malloc_vm_fault-Handled}
use netmalloc.Entry.{generic_free}
use netmalloc.Entry.View.{Freed, generic_free-Freed}
use netmalloc.System.Areas.{AreaSound, AllSound}
use netmalloc.System.Buffers.{BuffersSound}
use netmalloc.System.Removal.{InList, get_area-InList}
use netmalloc.System.Steps.{Reachable}
use netmalloc.System.Invariant.{Reachable-WellFormed}

module _ {Page : Type 0} (ops : StorageOps Page) (zero_page : Page) (r : IsReliable ops) where
  pub AllSound-AllOrdered :
      (s : State ops zero_page) (hi : ℕ) (l : List AreaStruct)
      → AllSound s.areas.vmas hi l
      → AllOrdered hi l
  AllSound-AllOrdered s hi [] o = tt
  AllSound-AllOrdered s hi (a ∷ l) o = ((o.0.lo, o.0.ordered), AllSound-AllOrdered s hi l o.1)

  BuffersSound-Ready :
      (s : State ops zero_page) (b : MappedBuffer)
      → BuffersSound s.buffers
      → get_buffer b.pid s.buffers ≡ some b
      → Ready ops zero_page r s b
  BuffersSound-Ready s b w found = record {
    found = found;
    apart = w.own b.pid b found;
    private = λ p c h away. ground (arith, w.apart b.pid p b c found h away);
    private_cache = λ p c h away. ground (arith, w.apart b.pid p b c found h away);
  }

  -- In a reachable state whose regions end more than a page before 2 ^ 64, with a reliable storage,
  -- a fault on a structure that is not NULL, of a process that has a buffer, at the address of a
  -- page that it has not mapped last, where its older page, if any, can be unmapped and the kernel
  -- inserts the new page: the handler returns a page of the process, mapped at the address and
  -- filled with what the process saw there before, and no process sees any other content than
  -- before, if a region in use on the structure touches the page; if none does, it returns no page
  -- and changes nothing.
  pub Reachable-Handled :
      (hi : ℕ) (s : State ops zero_page) (ku : UnmapAnswers) (km : MapAnswers) (b : MappedBuffer)
      (address vma : ℕ)
      → Reachable ops zero_page hi s
      → hi + page_size < ulong_mod
      → get_buffer b.pid s.buffers ≡ some b
      → address % page_size ≡ 0
      → vma ≢ 0
      → (b.vma ≢ 0 → b.start ≢ address)
      → (b.cache_vma ≢ 0
          → (is_existing_vma s.areas.vmas b.cache_vma ≡ some true) × Willing ku b.cache)
      → km.vm_insert_page ≡ true
      → Returns
          (Handled ops zero_page r s b.pid address vma)
          (generic_malloc_vm_fault ops zero_page ku km s b.pid address vma)
  Reachable-Handled hi s ku km b address vma reached fits found p w free cache ok =
      let formed = Reachable-WellFormed ops zero_page hi s reached in
      generic_malloc_vm_fault-Handled ops zero_page r ku km s b address vma hi p fits
        (AllSound-AllOrdered s hi s.areas.area_list formed.areas)
        (BuffersSound-Ready s b formed.buffers found) w free cache ok

  -- The area that a search finds is sound.
  pub found_area :
      (s : State ops zero_page) (hi pid ptr : ℕ) (a : AreaCursor)
      → AllSound s.areas.vmas hi s.areas.area_list
      → get_area s.areas pid ptr ≡ some (some a)
      → AreaSound s.areas.vmas hi a.area
  found_area s hi pid ptr a o found =
      let whole =
        Holds-some (InList s.areas.area_list) (get_area s.areas pid ptr)
          (get_area-InList s.areas pid ptr) found in
      (All-split (AreaSound s.areas.vmas hi) a.before (a.area ∷ a.after) (rw whole o)).1.0

  -- In a reachable state whose regions end more than two pages before 2 ^ 64, with a reliable
  -- storage, a free of an address that `get_area` finds an area for and that is the start of a
  -- region there, where the mapped pages of the process, if it has any, can be unmapped: it
  -- returns; the area gives back the bytes of that region and no others and stays in order; its
  -- structure is handed to `remove_vma` if no region is left, and none otherwise; and no process
  -- sees any other content than before, except the process itself in pages of that region that no
  -- other region in use of the area touches.
  pub Reachable-Freed :
      (hi : ℕ) (s : State ops zero_page) (k k' : UnmapAnswers) (pid ptr : ℕ) (a : AreaCursor)
      (c : Cursor)
      → Reachable ops zero_page hi s
      → hi + 2 * page_size < ulong_mod
      → get_area s.areas pid ptr ≡ some (some a)
      → get_region a.area ptr ≡ some c
      → ((b : MappedBuffer)
          → get_buffer pid s.buffers ≡ some b
          → (b.vma ≢ 0 → (is_existing_vma s.areas.vmas b.vma ≡ some true) × Willing k b.buffer)
            × (b.cache_vma ≢ 0
                → (is_existing_vma s.areas.vmas b.cache_vma ≡ some true) × Willing k' b.cache))
      → Returns
          (λ out. (lo : ℕ) × Freed ops zero_page r s pid lo hi a c out)
          (generic_free ops zero_page k k' s pid ptr)
  Reachable-Freed hi s k k' pid ptr a c reached fits found hit unmaps =
      let formed = Reachable-WellFormed ops zero_page hi s reached in
      let o = found_area s hi pid ptr a formed.areas found in
      Returns-imp (Freed ops zero_page r s pid o.lo hi a c) _
        (generic_free ops zero_page k k' s pid ptr) (λ out f. (o.lo, f))
        (generic_free-Freed ops zero_page r k k' s pid ptr o.lo hi a c
          (λ b h. record {
            once = formed.buffers.once pid b h;
            mapped = (unmaps b h).0;
            cached = (unmaps b h).1;
          })
          found hit fits o.ordered o.coalesced o.head)
