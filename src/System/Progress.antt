-- ===== src/System/Progress.antt =====
-- What follows an allocation: a fault at any of its bytes.
use netmalloc.Common.{
  none_ne_some, ℕ, ◌+◌, ◌%◌, ◌≤◌, ◌<◌, ◌≡◌, ◌≢◌, sym, ap, ◌∙◌, inl, inr, ◌⊎◌, true, none, some,
  arith, ulong_mod, Holds-some, Returns, Returns-imp,
}
use mathlib.Core.Path.{subst}
use netmalloc.Align.{align_floor}
use netmalloc.Align.Bounds.{align_floor-bounds}
use netmalloc.Storage.{StorageOps, IsReliable}
use netmalloc.MappedBuffer.{MappedBuffer, get_buffer}
use netmalloc.Vma.{VmAreaStruct, is_existing_vma, page_size}
use netmalloc.Area.{page_shift, CreateAnswers}
use netmalloc.Area.Lookup.{touched, AllOrdered, is_valid_address-touched}
use netmalloc.Pager.{State, UnmapAnswers, MapAnswers, generic_malloc_vm_fault}
use netmalloc.Pager.Buffers.{get_buffer-pid}
use netmalloc.Pager.View.Unmap.{Willing}
use netmalloc.Pager.View.Fault.{Faulted}
use netmalloc.Pager.View.First.{Fresh, generic_malloc_get_page-first}
use netmalloc.Pager.View.Handler.{Handled}
use netmalloc.Entry.{generic_malloc}
use netmalloc.Entry.Whole.{netmalloc_syscall}
use netmalloc.System.Areas.{Grants}
use netmalloc.System.Steps.{Reachable, after, malloc}
use netmalloc.System.Invariant.{Reachable-WellFormed}
use netmalloc.System.Reached.{AllSound-AllOrdered, Reachable-Handled}
use netmalloc.System.Served.{generic_malloc-Served}

module _ {Page : Type 0} (ops : StorageOps Page) (zero_page : Page) (r : IsReliable ops) where
  -- The process has no buffer and the allocators would give it two pages of its own, or it has one,
  -- with another page mapped last, and its older page can be unmapped.
  abbrev pub MayFault : UnmapAnswers → MapAnswers → State ops zero_page → ℕ → ℕ → Type 0
  MayFault ku km t pid page =
      ((get_buffer pid t.buffers ≡ none) × Fresh t.buffers pid km.buffer)
      ⊎ ((b : MappedBuffer) × (get_buffer pid t.buffers ≡ some b)
          × (b.vma ≢ 0 → b.start ≢ page)
          × (b.cache_vma ≢ 0
              → (is_existing_vma t.areas.vmas b.cache_vma ≡ some true) × Willing ku b.cache))

  first_fault :
      (hi : ℕ) (t : State ops zero_page) (ku : UnmapAnswers) (km : MapAnswers) (pid page vma : ℕ)
      → hi + page_size < ulong_mod
      → AllOrdered hi t.areas.area_list
      → page % page_size ≡ 0
      → touched page vma t.areas.area_list ≡ true
      → vma ≢ 0
      → km.vm_insert_page ≡ true
      → get_buffer pid t.buffers ≡ none
      → Fresh t.buffers pid km.buffer
      → Returns
          (Faulted ops zero_page r t pid page vma)
          (generic_malloc_vm_fault ops zero_page ku km t pid page vma)
  unfolding generic_malloc_vm_fault
  first_fault hi t ku km pid page vma fits o p in_use w ok missing f =
      rw (is_valid_address-touched page vma hi t.areas.area_list p fits o, in_use)
        (generic_malloc_get_page-first ops zero_page r ku km t pid page vma missing f w ok)

  next_fault :
      (hi : ℕ) (t : State ops zero_page) (ku : UnmapAnswers) (km : MapAnswers) (pid page vma : ℕ)
      (b : MappedBuffer)
      → Reachable ops zero_page hi t
      → hi + page_size < ulong_mod
      → page % page_size ≡ 0
      → touched page vma t.areas.area_list ≡ true
      → vma ≢ 0
      → km.vm_insert_page ≡ true
      → get_buffer pid t.buffers ≡ some b
      → (b.vma ≢ 0 → b.start ≢ page)
      → (b.cache_vma ≢ 0
          → (is_existing_vma t.areas.vmas b.cache_vma ≡ some true) × Willing ku b.cache)
      → Returns
          (Faulted ops zero_page r t pid page vma)
          (generic_malloc_vm_fault ops zero_page ku km t pid page vma)
  next_fault hi t ku km pid page vma b reached fits p in_use w ok found free cache =
      let e : b.pid ≡ pid = get_buffer-pid pid t.buffers b found in
      subst
        (λ q.
          Returns (Faulted ops zero_page r t q page vma)
            (generic_malloc_vm_fault ops zero_page ku km t q page vma))
        e
        (Returns-imp (Handled ops zero_page r t b.pid page vma)
          (Faulted ops zero_page r t b.pid page vma)
          (generic_malloc_vm_fault ops zero_page ku km t b.pid page vma) (λ out h. h.allowed in_use)
          (Reachable-Handled ops zero_page r hi t ku km b page vma reached fits
            (subst (λ q. get_buffer q t.buffers ≡ some b) (sym e) found) p w free cache ok))

  -- After an allocation that returned an address, from a reachable state, where kmalloc has memory
  -- for a split, the kernel grants what the invariant asks of it, all regions stay more than a page
  -- away from the end of the address space, the storage is reliable and no structure stands at
  -- NULL: for each byte of the allocation there is a structure through which a fault at the byte's
  -- page returns a page of the process, mapped there and filled with what the process saw there,
  -- and no process sees any other content than before. The process must be ready for the fault,
  -- with a buffer or with memory for one, and the kernel must insert the page.
  pub Reachable-Served :
      (hi : ℕ) (s t : State ops zero_page) (kc : CreateAnswers) (k k' ku : UnmapAnswers)
      (km : MapAnswers) (pid mm size ptr x : ℕ)
      → Reachable ops zero_page hi s
      → Grants kc hi s.areas mm size
      → kc.split_ok ≡ true
      → hi + size + page_size < ulong_mod
      → netmalloc_syscall ops zero_page kc k k' s pid mm size ≡ some (t, some ptr)
      → t.areas.vmas.heap 0 ≡ none
      → ptr ≤ x
      → x < ptr + size
      → MayFault ku km t pid (align_floor x page_shift)
      → km.vm_insert_page ≡ true
      → (vma : ℕ) × (v : VmAreaStruct) × (t.areas.vmas.heap vma ≡ some v)
        × Returns
            (Faulted ops zero_page r t pid (align_floor x page_shift) vma)
            (generic_malloc_vm_fault ops zero_page ku km t pid (align_floor x page_shift) vma)
  Reachable-Served hi s t kc k k' ku km pid mm size ptr x reached g split fits run null above below
        may ok =
      let page = align_floor x page_shift in
      let formed = Reachable-WellFormed ops zero_page hi s reached in
      let (vma, v, held, pages) =
        Holds-some _ (generic_malloc ops zero_page kc k k' s pid mm size)
          (generic_malloc-Served ops zero_page size hi s kc k k' pid mm formed g split
            (omega arith))
          run in
      let reached' = after reached (malloc kc k k' pid mm size (some ptr) g (omega arith) run) in
      let formed' = Reachable-WellFormed ops zero_page (hi + size) t reached' in
      let p : page % page_size ≡ 0 = omega (arith, align_floor-bounds x page_shift) in
      let w : vma ≢ 0 = λ z. none_ne_some (sym (ap t.areas.vmas.heap z ∙ null) ∙ held) in
      (
        vma,
        v,
        held,
        elim may [
          | inl (missing, f) ↦
              first_fault (hi + size) t ku km pid page vma fits
                (AllSound-AllOrdered ops zero_page r t (hi + size) t.areas.area_list formed'.areas)
                p (pages x above below) w ok missing f
          | inr (b, found, free, cache) ↦
              next_fault (hi + size) t ku km pid page vma b reached' fits p (pages x above below) w
                ok found free cache
        ],
      )
