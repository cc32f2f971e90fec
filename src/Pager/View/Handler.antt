-- ===== src/Pager/View/Handler.antt =====
-- The fault handler as a whole: which faults it refuses, and what the others leave.
use netmalloc.Common.{
  ℕ, ◌+◌, ◌%◌, ◌<◌, ◌≡◌, ◌≢◌, refl, inl, inr, true, false, Option, none, some, ulong_mod,
  Bool-cases, Returns, Returns-imp,
}
use netmalloc.Storage.{StorageOps, IsReliable}
use netmalloc.MappedBuffer.{MappedBuffer}
use netmalloc.Vma.{is_existing_vma, page_size}
use netmalloc.Area.Lookup.{AllOrdered, touched, is_valid_address-touched}
use netmalloc.Pager.{
  State, UnmapAnswers, MapAnswers, generic_malloc_get_page, generic_malloc_vm_fault,
}
use netmalloc.Pager.View.Unmap.{Willing}
use netmalloc.Pager.View.Fault.{Ready, Faulted, generic_malloc_get_page-Faulted}

module _ {Page : Type 0} (ops : StorageOps Page) (zero_page : Page) (r : IsReliable ops) where
  -- A page that a region in use touches is brought in; any other fault changes nothing.
  pub record Handled (s : State ops zero_page) (pid address vma : ℕ)
      (out : State ops zero_page × Option ℕ) : Type 0 where
    pub allowed :
        touched address vma s.areas.area_list ≡ true → Faulted ops zero_page r s pid address vma out
    pub refused : touched address vma s.areas.area_list ≡ false → out ≡ (s, none)

  -- A fault at a page that the process has not mapped, where its two pages differ and no other
  -- process has them, with the regions of all areas in order, a reliable storage and a willing
  -- kernel. If a region in use on the structure touches the page, the handler returns a page of
  -- the process, mapped at the address and filled with what the process saw there before, and no
  -- process sees any other content than before; if none does, it returns no page and changes
  -- nothing.
  pub generic_malloc_vm_fault-Handled :
      (ku : UnmapAnswers) (km : MapAnswers) (s : State ops zero_page) (b : MappedBuffer)
      (address vma hi : ℕ)
      → address % page_size ≡ 0
      → hi + page_size < ulong_mod
      → AllOrdered hi s.areas.area_list
      → Ready ops zero_page r s b
      → vma ≢ 0
      → (b.vma ≢ 0 → b.start ≢ address)
      → (b.cache_vma ≢ 0
          → (is_existing_vma s.areas.vmas b.cache_vma ≡ some true) × Willing ku b.cache)
      → km.vm_insert_page ≡ true
      → Returns
          (Handled s b.pid address vma)
          (generic_malloc_vm_fault ops zero_page ku km s b.pid address vma)
  unfolding generic_malloc_vm_fault
  generic_malloc_vm_fault-Handled ku km s b address vma hi p fits o y w free cache ok =
      let valid = is_valid_address-touched address vma hi s.areas.area_list p fits o in
      rw valid (elim (Bool-cases (touched address vma s.areas.area_list)) [
        | inl e ↦ rw e (
            Returns-imp (Faulted ops zero_page r s b.pid address vma) (Handled s b.pid address vma)
              (generic_malloc_get_page ops zero_page ku km s b.pid address vma)
              (λ out f. record { allowed = λ h. f; refused = λ h. cc })
              (generic_malloc_get_page-Faulted ops zero_page r ku km s b address vma y w free cache
                ok))
        | inr e ↦ rw e (record { allowed = λ h. cc; refused = λ h. refl })
      ])
