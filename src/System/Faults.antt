-- ===== src/System/Faults.antt =====
-- What an unmapping, and a fault as a whole, leave of the lists, on every branch.
use mathlib.Core.Path.{subst}
use netmalloc.Common.{
  ℕ, ◌≡◌, ◌≢◌, refl, sym, inl, inr, true, false, Option, none, some, arith, if◌then◌else◌, ℤ, pos,
  is_negative, is_nonzero, Bool-cases, Option-cases, Holds, Holds-bind, Holds-some, Holds-imp,
}
use netmalloc.Storage.{StorageOps}
use netmalloc.StoredPage.{is_stored_page}
use netmalloc.StoredPage.Set.{Distinct}
use netmalloc.MappedBuffer.{MappedBuffer, get_buffer, add_buffer, fresh_buffer}
use netmalloc.MappedBuffer.Laws.{add_buffer-OnePerPid}
use netmalloc.Area.{is_valid_address}
use netmalloc.Pager.{
  State, UnmapAnswers, MapAnswers, write_page, cache_page, unmap_page, fill_buffer, map_page,
  generic_malloc_get_page, generic_malloc_vm_fault,
}
use netmalloc.Pager.Buffers.{get_buffer-pid}
use netmalloc.System.Buffers.{
  BuffersSound, put_buffer-Sound, FreshPages, NotMapped, add_buffer-Sound, add_buffer-result,
}
use netmalloc.System.Unmapping.{Paged, OutPaged, Caches, cache_page-Paged, flush_pages-Paged}

module _ {Page : Type 0} (ops : StorageOps Page) (zero_page : Page) where
  Paged-refl :
      (s : State ops zero_page)
      → BuffersSound s.buffers
      → Distinct s.stored_pages
      → Paged ops zero_page s s
  Paged-refl s w d = record { areas = refl; buffers = w; distinct = d }

  -- The buffer that a search finds is found under its own process.
  found_own :
      (s : State ops zero_page) (pid : ℕ) (b : MappedBuffer)
      → get_buffer pid s.buffers ≡ some b
      → get_buffer b.pid s.buffers ≡ some b
  found_own s pid b found =
      subst (λ q. get_buffer q s.buffers ≡ some b) (sym (get_buffer-pid pid s.buffers b found))
        found

  -- Unmapping both pages of a process leaves the areas, and all lists sound.
  pub unmap_page-Paged :
      (k k' : UnmapAnswers) (s : State ops zero_page) (pid : ℕ)
      → BuffersSound s.buffers
      → Distinct s.stored_pages
      → Holds (OutPaged ops zero_page s) (unmap_page ops zero_page k k' s pid false)
  unfolding unmap_page
  unmap_page-Paged k k' s pid w d = elim (Option-cases (get_buffer pid s.buffers)) [
    | inl e ↦ rw (e, unmap_page) (Paged-refl s w d)
    | inr (b, e) ↦
        rw (e, unmap_page) (flush_pages-Paged ops zero_page s b w (found_own s pid b e) k k' d)
  ]

  -- The page that was mapped is the cached one, and stands elsewhere.
  abbrev Cached : ℕ → ℕ → State ops zero_page → State ops zero_page × ℤ → Type 0
  Cached pid address s (t, error) =
      Paged ops zero_page s t
      × ((c : MappedBuffer)
          → get_buffer pid t.buffers ≡ some c
          → c.cache_vma ≢ 0
          → c.cache_start ≢ address)
      × (get_buffer pid t.buffers ≡ none → t.buffers ≡ s.buffers)

  unmap_page-Cached :
      (k k' : UnmapAnswers) (s : State ops zero_page) (pid address : ℕ)
      → BuffersSound s.buffers
      → Distinct s.stored_pages
      → NotMapped pid address s.buffers
      → Holds (Cached pid address s) (unmap_page ops zero_page k k' s pid true)
  unfolding unmap_page
  unmap_page-Cached k k' s pid address w d away = elim (Option-cases (get_buffer pid s.buffers)) [
    | inl e ↦ rw (e, unmap_page) (Paged-refl s w d, λ c h. absurd (ground arith), λ h. refl)
    | inr (b, e) ↦
        let p = get_buffer-pid pid s.buffers b e in
        rw (e, unmap_page)
          (Holds-imp (Caches ops zero_page s b w (found_own s pid b e)) (Cached pid address s)
            (cache_page ops zero_page k s b)
            (λ out h.
              (h.0, λ c f. ground (arith, p, away b e, h.1 c (rw p f)), λ f. absurd (h.2 (rw p f))))
            (cache_page-Paged ops zero_page s b w (found_own s pid b e) k d))
  ]

  abbrev pub PagedPage : State ops zero_page → State ops zero_page × Option ℕ → Type 0
  PagedPage s (t, page) = Paged ops zero_page s t

  module _ (s t : State ops zero_page) (out : Paged ops zero_page s t) where
    fill_buffer-Paged :
        (k : MapAnswers) (b : MappedBuffer) (address vma : ℕ)
        → get_buffer b.pid t.buffers ≡ some b
        → (b.cache_vma ≢ 0 → b.cache_start ≢ address)
        → PagedPage s (fill_buffer ops zero_page k t b address vma)
    unfolding fill_buffer
    fill_buffer-Paged k b address vma found away =
        let stored = is_stored_page b.pid address t.stored_pages in
        let read =
          if stored
          then ops.load t.contents b.pid address (t.memory b.buffer)
          else (zero_page, pos 0) in
        let same : Paged ops zero_page s
            (record t { memory = write_page ops zero_page b.buffer read.0 t.memory }) =
          record { areas = out.areas; buffers = out.buffers; distinct = out.distinct } in
        elim (Bool-cases (is_negative read.1)) [
          | inl e ↦ rw e same
          | inr e ↦ elim (Bool-cases k.vm_insert_page) [
            | inl f ↦
                rw (e, f)
                  (record {
                    areas = out.areas;
                    buffers =
                        put_buffer-Sound t.buffers (record b { vma = vma; start = address }) b
                          out.buffers found (inl (refl, refl)) (λ h j p. away j (sym p));
                    distinct = out.distinct;
                  })
            | inr f ↦ rw (e, f) same
          ]
        ]

  -- The process gets its buffer.
  add_and_fill :
      (k : MapAnswers) (s t : State ops zero_page) (pid address vma : ℕ)
      → Paged ops zero_page s t
      → get_buffer pid t.buffers ≡ none
      → FreshPages k.buffer t.buffers
      → let r = add_buffer k.buffer pid t.buffers in
        let t' : State ops zero_page = record t { buffers = r.1 } in
        PagedPage s (elim r.0 [
          | none ↦ (t', none)
          | some buffer ↦ fill_buffer ops zero_page k t' buffer address vma
        ])
  add_and_fill k s t pid address vma out missing fresh =
      let r = add_buffer k.buffer pid t.buffers in
      let t' : State ops zero_page = record t { buffers = r.1 } in
      let at = (add_buffer-OnePerPid k.buffer pid t.buffers missing out.buffers.one).1 in
      let same : Paged ops zero_page s t' = record {
        areas = out.areas;
        buffers = add_buffer-Sound k.buffer pid t.buffers out.buffers missing fresh;
        distinct = out.distinct;
      } in
      elim (add_buffer-result k.buffer pid t.buffers) [
        | inl e ↦ rw e.0 same
        | inr e ↦ rw e.0 (
            fill_buffer-Paged s t' same k (fresh_buffer k.buffer pid) address vma
              (ground (arith, at pid, e.0)) (λ h. absurd (h refl)))
      ]

  map_page-Paged :
      (k : MapAnswers) (s t : State ops zero_page) (pid address vma : ℕ)
      → Paged ops zero_page s t
      → ((b : MappedBuffer)
          → get_buffer pid t.buffers ≡ some b
          → b.cache_vma ≢ 0
          → b.cache_start ≢ address)
      → (get_buffer pid t.buffers ≡ none → FreshPages k.buffer t.buffers)
      → PagedPage s (map_page ops zero_page k t pid address vma)
  unfolding map_page
  map_page-Paged k s t pid address vma out away fresh =
      elim (Option-cases (get_buffer pid t.buffers)) [
        | inl e ↦ rw (e, map_page) (add_and_fill k s t pid address vma out e (fresh e))
        | inr (b, e) ↦
            rw (e, map_page)
              (fill_buffer-Paged s t out k b address vma (found_own t pid b e) (away b e))
      ]

  -- A fault at a page that is not mapped as the buffer of its process leaves the areas, and all lists
  -- sound.
  pub generic_malloc_vm_fault-Paged :
      (ku : UnmapAnswers) (km : MapAnswers) (s : State ops zero_page) (pid address vma : ℕ)
      → BuffersSound s.buffers
      → Distinct s.stored_pages
      → NotMapped pid address s.buffers
      → FreshPages km.buffer s.buffers
      → Holds (PagedPage s) (generic_malloc_vm_fault ops zero_page ku km s pid address vma)
  unfolding generic_malloc_vm_fault generic_malloc_get_page
  generic_malloc_vm_fault-Paged ku km s pid address vma w d away fresh =
      elim (Bool-cases (is_valid_address address vma s.areas.area_list)) [
        | inl e ↦ rw e (
            Holds-bind (PagedPage s) (unmap_page ops zero_page ku ku s pid true) _ λ out h.
              let (paged, elsewhere, same) =
                Holds-some (Cached pid address s) (unmap_page ops zero_page ku ku s pid true)
                  (unmap_page-Cached ku ku s pid address w d away) h in
              elim (Bool-cases (is_nonzero out.1)) [
                | inl f ↦ rw f paged
                | inr f ↦ rw f (
                    map_page-Paged km s out.0 pid address vma paged elsewhere
                      λ g. subst (FreshPages km.buffer) (sym (same g)) fresh)
              ])
        | inr e ↦ rw e (Paged-refl s w d)
      ]
