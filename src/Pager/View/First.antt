-- ===== src/Pager/View/First.antt =====
-- The first fault of a process, for which a buffer is made.
use netmalloc.Common.{
  ℕ, ◌≡◌, ◌≢◌, refl, inl, inr, true, none, some, List, [], ◌∷◌, ◌++◌, arith, ◌==◌, pos, Bool-cases,
  ==_iff, Returns,
}
use netmalloc.Storage.{StorageOps, IsReliable}
use netmalloc.MappedBuffer.{MappedBuffer, Memory, get_buffer, add_buffer, fresh_buffer}
use netmalloc.MappedBuffer.Laws.{get_buffer-append}
use netmalloc.Pager.{
  State, UnmapAnswers, MapAnswers, fill_buffer, map_page, unmap_page, generic_malloc_get_page,
}
use netmalloc.Pager.View.{view}
use netmalloc.Pager.View.Fault.{
  Private, Ready, Faulted, filled-Faulted, fill_buffer-filled, Faulted-view,
}

-- The allocators succeed, with two pages that no process has.
pub record Fresh (buffers : List MappedBuffer) (pid : ℕ) (m : Memory) : Type 0 where
  pub kmalloc : m.kmalloc ≡ true
  pub buffer : m.buffer ≢ 0
  pub cache : m.cache ≢ 0
  pub apart : m.buffer ≢ m.cache
  pub private : Private buffers pid m.buffer
  pub private_cache : Private buffers pid m.cache

module _ {Page : Type 0} (ops : StorageOps Page) (zero_page : Page) (r : IsReliable ops) where
  abbrev added : State ops zero_page → Memory → ℕ → State ops zero_page
  added s m pid = record s { buffers = s.buffers ++ fresh_buffer m pid ∷ [] }

  Private-added :
      (bs : List MappedBuffer) (m : Memory) (pid page : ℕ)
      → get_buffer pid bs ≡ none
      → Private bs pid page
      → Private (bs ++ fresh_buffer m pid ∷ []) pid page
  Private-added bs m pid page missing private p c h away =
      private p c (ground (arith, get_buffer-append p bs (fresh_buffer m pid) missing)) away

  added-Ready :
      (s : State ops zero_page) (m : Memory) (pid : ℕ)
      → get_buffer pid s.buffers ≡ none
      → Fresh s.buffers pid m
      → Ready ops zero_page r (added s m pid) (fresh_buffer m pid)
  added-Ready s m pid missing f = record {
    found = ground (arith, get_buffer-append pid s.buffers (fresh_buffer m pid) missing);
    apart = f.apart;
    private = Private-added s.buffers m pid m.buffer missing f.private;
    private_cache = Private-added s.buffers m pid m.cache missing f.private_cache;
  }

  added-view :
      (s : State ops zero_page) (m : Memory) (pid p a : ℕ)
      → get_buffer pid s.buffers ≡ none
      → view ops zero_page r (added s m pid) p a ≡ view ops zero_page r s p a
  added-view s m pid p a missing =
      rw (get_buffer-append p s.buffers (fresh_buffer m pid) missing)
        (elim (Bool-cases (pid == p)) [
          | inl e ↦
              let q : get_buffer p s.buffers ≡ none = rw (← (==_iff pid p).0 e) missing in rw (e, q)
          | inr e ↦ rw e
        ])

  unmap_page-none :
      (k k' : UnmapAnswers) (s : State ops zero_page) (pid : ℕ)
      → get_buffer pid s.buffers ≡ none
      → unmap_page ops zero_page k k' s pid true ≡ some (s, pos 0)
  unfolding unmap_page
  unmap_page-none k k' s pid missing = rw (missing, unmap_page)

  map_page-added :
      (k : MapAnswers) (s : State ops zero_page) (pid address vma : ℕ)
      → get_buffer pid s.buffers ≡ none
      → Fresh s.buffers pid k.buffer
      → map_page ops zero_page k s pid address vma
        ≡ fill_buffer ops zero_page k (added s k.buffer pid) (fresh_buffer k.buffer pid) address vma
  unfolding map_page add_buffer
  map_page-added k s pid address vma missing f = rw (missing, map_page) (ground arith)

  -- The first fault of a process, on a structure that is not NULL, where the allocators give the
  -- process two different pages that no process has and the kernel inserts the page, with a
  -- reliable storage: it returns a page mapped at the address, filled with what the process saw
  -- there before; no process sees any other content at any address than before; and the process's
  -- two pages are its own.
  pub generic_malloc_get_page-first :
      (ku : UnmapAnswers) (km : MapAnswers) (s : State ops zero_page) (pid address vma : ℕ)
      → get_buffer pid s.buffers ≡ none
      → Fresh s.buffers pid km.buffer
      → vma ≢ 0
      → km.vm_insert_page ≡ true
      → Returns
          (Faulted ops zero_page r s pid address vma)
          (generic_malloc_get_page ops zero_page ku km s pid address vma)
  unfolding generic_malloc_get_page
  generic_malloc_get_page-first ku km s pid address vma missing f w ok =
      let t = added s km.buffer pid in
      let b = fresh_buffer km.buffer pid in
      rw
        (
          unmap_page-none ku ku s pid missing,
          map_page-added km s pid address vma missing f,
          fill_buffer-filled ops zero_page r km t b address vma ok,
        )
        (Faulted-view ops zero_page r t s pid address vma _
          (λ p a. added-view s km.buffer pid p a missing)
          (filled-Faulted ops zero_page r t b address vma (added-Ready s km.buffer pid missing f)
            refl w (λ h. absurd (h refl))))
