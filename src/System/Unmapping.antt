-- ===== src/System/Unmapping.antt =====
-- What `unmap_page` leaves of the buffers and of the list of stored pages, whatever the kernel and the
-- storage answer.
use netmalloc.Common.{
  ◌≡◌, ◌≢◌, refl, ◌∙◌, inl, inr, none, some, arith, ◌==◌, ℤ, pos, is_nonzero, Bool-cases, Holds,
  Holds-bind, Holds-some, Holds-map, Holds-imp,
}
use netmalloc.Storage.{StorageOps}
use netmalloc.StoredPage.Set.{Distinct}
use netmalloc.MappedBuffer.{MappedBuffer, get_buffer, swap_buffer_cache}
use netmalloc.Pager.{
  State, UnmapAnswers, keep_buffer, unmap_buffer, cache_page, flush_cache, flush_pages,
}
use netmalloc.Pager.Buffers.{get_buffer-put}
use netmalloc.System.Buffers.{Once, BuffersSound, SamePages, put_buffer-Sound}
use netmalloc.System.Saved.{Saved, Unmapped-fields, UnmapsTo, unmap_buffer-Saved}

module _ {Page : Type 0} (ops : StorageOps Page) (zero_page : Page) where
  -- The areas are as they were, and the two other lists sound.
  pub record Paged (s t : State ops zero_page) : Type 0 where
    pub areas : t.areas ≡ s.areas
    pub buffers : BuffersSound t.buffers
    pub distinct : Distinct t.stored_pages

  abbrev pub OutPaged : State ops zero_page → State ops zero_page × ℤ → Type 0
  OutPaged s (t, error) = Paged s t

  module _ (s : State ops zero_page) (b : MappedBuffer) (w : BuffersSound s.buffers)
      (found : get_buffer b.pid s.buffers ≡ some b) where
    -- Writing back what the buffer has become.
    keep_buffer-Paged :
        (t : State ops zero_page) (c : MappedBuffer) (error : ℤ)
        → Saved ops zero_page s t
        → c.pid ≡ b.pid
        → SamePages b c
        → Once c
        → OutPaged s (keep_buffer ops zero_page (t, c, error))
    keep_buffer-Paged t c error saved p same once = record {
      areas = saved.areas;
      buffers =
          put_buffer-Sound t.buffers c b (rw saved.buffers w) (rw (saved.buffers, p) found) same
            once;
      distinct = saved.distinct;
    }

    abbrev pub Caches : State ops zero_page × ℤ → Type 0
    Caches (t, error) =
        Paged s t
        × ((c : MappedBuffer)
            → get_buffer b.pid t.buffers ≡ some c
            → (c.cache_vma ≡ b.vma) × (c.cache_start ≡ b.start))
        × (get_buffer b.pid t.buffers ≢ none)

    keep_swapped :
        (t : State ops zero_page) (c : MappedBuffer) (error : ℤ)
        → UnmapsTo ops zero_page s (swap_buffer_cache b) (t, c, error)
        → Caches (keep_buffer ops zero_page (t, c, error))
    unfolding swap_buffer_cache
    keep_swapped t c error (saved, become) =
        let f = Unmapped-fields (swap_buffer_cache b) c become in
        let once = w.once b.pid b found in
        (
          keep_buffer-Paged t c error saved f.0 (inr (f.1, f.2)) (λ h k e. ground (arith, once, f)),
          λ d h. ground (
            arith,
            f,
            saved.buffers,
            found,
            get_buffer-put b.pid c b t.buffers (rw (saved.buffers, f.0) found),
          ),
          λ h. ground (
            arith,
            f,
            saved.buffers,
            found,
            get_buffer-put b.pid c b t.buffers (rw (saved.buffers, f.0) found),
          ),
        )

    pub cache_page-Paged :
        (k : UnmapAnswers) → Distinct s.stored_pages → Holds Caches (cache_page ops zero_page k s b)
    unfolding cache_page
    cache_page-Paged k d =
        let swapped = swap_buffer_cache b in
        elim (Bool-cases (b.cache_vma == 0)) [
          | inl e ↦ rw e (
              keep_swapped s swapped (pos 0)
                (record { areas = refl; buffers = refl; distinct = d }, inl refl))
          | inr e ↦ rw e (
              Holds-map Caches (keep_buffer ops zero_page) (unmap_buffer ops zero_page k s swapped)
                (Holds-imp (UnmapsTo ops zero_page s swapped)
                  (λ out. Caches (keep_buffer ops zero_page out))
                  (unmap_buffer ops zero_page k s swapped)
                  (λ out u. keep_swapped out.0 out.1 out.2 u)
                  (unmap_buffer-Saved ops zero_page k s swapped d)))
        ]

    -- The second half of a flush, from what the first one leaves.
    flush_cache-Paged :
        (k : UnmapAnswers) (t : State ops zero_page) (c : MappedBuffer) (error : ℤ)
        → UnmapsTo ops zero_page s b (t, c, error)
        → Holds (OutPaged s) (flush_cache ops zero_page k (t, c, error))
    unfolding flush_cache swap_buffer_cache
    flush_cache-Paged k t c error (saved, become) =
        let f = Unmapped-fields b c become in
        let once = w.once b.pid b found in
        let keep =
          keep_buffer-Paged t c error saved f.0 (inl (f.1, f.2))
            (λ h j e. ground (arith, once, f)) in
        let swapped = swap_buffer_cache c in
        elim (Bool-cases (is_nonzero error)) [
          | inl e ↦ rw e keep
          | inr e ↦ elim (Bool-cases (c.cache_vma == 0)) [
            | inl g ↦
                rw (e, g)
                  (keep_buffer-Paged t c (pos 0) saved f.0 (inl (f.1, f.2))
                    (λ h j e. ground (arith, once, f)))
            | inr g ↦
                rw (e, g)
                  (Holds-map (OutPaged s) (keep_buffer ops zero_page)
                    (unmap_buffer ops zero_page k t swapped)
                    (Holds-imp (UnmapsTo ops zero_page t swapped)
                      (λ out. OutPaged s (keep_buffer ops zero_page out))
                      (unmap_buffer ops zero_page k t swapped)
                      (λ out u.
                        let l = Unmapped-fields swapped out.1 u.1 in
                        keep_buffer-Paged out.0 out.1 out.2
                          (record {
                            areas = u.0.areas ∙ saved.areas;
                            buffers = u.0.buffers ∙ saved.buffers;
                            distinct = u.0.distinct;
                          })
                          (ground (arith, f, l)) (inr (ground (arith, f, l)))
                          (λ h j e. ground (arith, once, f, l)))
                      (unmap_buffer-Saved ops zero_page k t swapped saved.distinct)))
          ]
        ]

    pub flush_pages-Paged :
        (k k' : UnmapAnswers)
        → Distinct s.stored_pages
        → Holds (OutPaged s) (flush_pages ops zero_page k k' s b)
    unfolding flush_pages
    flush_pages-Paged k k' d = elim (Bool-cases (b.vma == 0)) [
      | inl e ↦ rw e (
          flush_cache-Paged k' s b (pos 0)
            (record { areas = refl; buffers = refl; distinct = d }, inl refl))
      | inr e ↦ rw e (
          Holds-bind (OutPaged s) (unmap_buffer ops zero_page k s b) _ λ out h.
            flush_cache-Paged k' out.0 out.1 out.2 (
              Holds-some (UnmapsTo ops zero_page s b) (unmap_buffer ops zero_page k s b)
                (unmap_buffer-Saved ops zero_page k s b d) h))
    ]
