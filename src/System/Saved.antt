-- ===== src/System/Saved.antt =====
-- What the removal of stored pages and the copies into the storage leave of the lists: the areas and
-- the buffers as they were, whatever the kernel and the storage answer.
use netmalloc.Area.{AreaCursor, get_area}
use netmalloc.Common.{
  Bool, Bool-cases, Holds, Holds-bind, Holds-imp, Option, Option-cases, add64, false, if◌then◌else◌,
  inl, inr, is_negative, is_nonzero, ltb, minus_one, none, pos, refl, some, suc, true, zero, ℕ, ℤ,
  ◌&&◌, ◌∙◌, ◌≡◌, ◌⊎◌,
}
use netmalloc.Entry.{
  can_remove_page, remove_page, remove_pages, remove_region_pages, remove_storage_pages,
}
use netmalloc.MappedBuffer.{MappedBuffer}
use netmalloc.Pager.{
  State, UnmapAnswers, copy_page_from_user, note_stored, remove_user_page, unmap_buffer,
}
use netmalloc.Region.{Cursor, get_region}
use netmalloc.Storage.{StorageOps}
use netmalloc.StoredPage.{is_stored_page}
use netmalloc.StoredPage.Set.{Distinct, add_stored_page-Distinct, remove_stored_page-Distinct}
use netmalloc.Vma.{is_existing_vma, page_size}

-- The buffer at hand is the one before, or that with its page unmapped.
abbrev pub Unmapped : MappedBuffer → MappedBuffer → Type 0
Unmapped b c = (c ≡ b) ⊎ (c ≡ record b { vma = 0 })

pub Unmapped-fields :
    (b c : MappedBuffer)
    → Unmapped b c
    → (c.pid ≡ b.pid)
      × (c.buffer ≡ b.buffer)
      × (c.cache ≡ b.cache)
      × (c.start ≡ b.start)
      × (c.cache_vma ≡ b.cache_vma)
      × (c.cache_start ≡ b.cache_start)
      × ((c.vma ≡ b.vma) ⊎ (c.vma ≡ 0))
Unmapped-fields b c (inl e) = rw e (refl, refl, refl, refl, refl, refl, inl refl)
Unmapped-fields b c (inr e) = rw e (refl, refl, refl, refl, refl, refl, inr refl)

module _ {Page : Type 0} (ops : StorageOps Page) (zero_page : Page) where
  -- The areas and the buffers are as they were, and no stored page stands twice.
  pub record Saved (s t : State ops zero_page) : Type 0 where
    pub areas : t.areas ≡ s.areas
    pub buffers : t.buffers ≡ s.buffers
    pub distinct : Distinct t.stored_pages

  note_stored-Saved :
      (k : UnmapAnswers) (s : State ops zero_page) (pid start : ℕ)
      → Distinct s.stored_pages
      → Saved s (note_stored ops zero_page k s pid start).0
  unfolding note_stored
  note_stored-Saved k s pid start d = elim (Bool-cases (is_stored_page pid start s.stored_pages)) [
    | inl e ↦ rw e (record { areas = refl; buffers = refl; distinct = d })
    | inr e ↦ rw e (record {
      areas = refl;
      buffers = refl;
      distinct = (add_stored_page-Distinct k.stored_page_ok pid start s.stored_pages e d).0;
    })
  ]

  copy_page_from_user-Saved :
      (k : UnmapAnswers) (s : State ops zero_page) (pid start : ℕ)
      → Distinct s.stored_pages
      → Saved s (copy_page_from_user ops zero_page k s pid start).0
  unfolding copy_page_from_user
  copy_page_from_user-Saved k s pid start d = elim (Option-cases k.get_user_pages) [
    | inl e ↦ rw e (record { areas = refl; buffers = refl; distinct = d })
    | inr (page, e) ↦ elim (Bool-cases k.kmap) [
      | inl f ↦
          let saved = ops.save s.contents pid start (s.memory page) in
          elim (Bool-cases (is_negative saved.1)) [
            | inl g ↦ rw (e, f, g) (record { areas = refl; buffers = refl; distinct = d })
            | inr g ↦
                let t = note_stored-Saved k (record s { contents = saved.0 }) pid start d in
                rw (e, f, g)
                  (record { areas = t.areas; buffers = t.buffers; distinct = t.distinct })
          ]
      | inr f ↦ rw (e, f) (record { areas = refl; buffers = refl; distinct = d })
    ]
  ]

  abbrev pub UnmapsTo :
      State ops zero_page → MappedBuffer → State ops zero_page × MappedBuffer × ℤ → Type 0
  UnmapsTo s b (t, c, error) = Saved s t × Unmapped b c

  pub unmap_buffer-Saved :
      (k : UnmapAnswers) (s : State ops zero_page) (b : MappedBuffer)
      → Distinct s.stored_pages
      → Holds (UnmapsTo s b) (unmap_buffer ops zero_page k s b)
  unfolding unmap_buffer
  unmap_buffer-Saved k s b d =
      Holds-bind (UnmapsTo s b) (is_existing_vma s.areas.vmas b.vma) _
        λ existing _. by_cases existing
    where
      by_cases :
          (existing : Bool)
          → UnmapsTo s b (
              if existing
              then (let (s', error) = copy_page_from_user ops zero_page k s b.pid b.start in
                  if is_nonzero error
                  then (s', b, error)
                  else if is_nonzero (remove_user_page ops zero_page k)
                  then (s', b, minus_one)
                  else (s', record b { vma = 0 }, pos 0))
              else (s, b, pos 0))
      by_cases false = (record { areas = refl; buffers = refl; distinct = d }, inl refl)
      by_cases true =
          let saved = copy_page_from_user-Saved k s b.pid b.start d in
          let out = copy_page_from_user ops zero_page k s b.pid b.start in
          elim (Bool-cases (is_nonzero out.1)) [
            | inl e ↦ rw e (saved, inl refl)
            | inr e ↦ elim (Bool-cases (is_nonzero (remove_user_page ops zero_page k))) [
              | inl f ↦ rw (e, f) (saved, inl refl)
              | inr f ↦ rw (e, f) (saved, inr refl)
            ]
          ]

  pub Saved-refl : (s : State ops zero_page) → Distinct s.stored_pages → Saved s s
  Saved-refl s d = record { areas = refl; buffers = refl; distinct = d }

  pub Saved-trans : (s t u : State ops zero_page) → Saved s t → Saved t u → Saved s u
  Saved-trans s t u h k = record {
    areas = k.areas ∙ h.areas;
    buffers = k.buffers ∙ h.buffers;
    distinct = k.distinct;
  }

  remove_page-Saved :
      (pid : ℕ) (c : Cursor) (start : ℕ) (s : State ops zero_page)
      → Distinct s.stored_pages
      → Saved s (remove_page ops zero_page pid c start s)
  unfolding remove_page
  remove_page-Saved pid c start s d =
      elim (Bool-cases (is_stored_page pid start s.stored_pages && can_remove_page start c)) [
        | inl e ↦ rw e (record {
          areas = refl;
          buffers = refl;
          distinct = (remove_stored_page-Distinct pid start s.stored_pages d).0;
        })
        | inr e ↦ rw e (Saved-refl s d)
      ]

  remove_pages-Saved :
      (fuel pid : ℕ) (c : Cursor) (start end : ℕ) (s : State ops zero_page)
      → Distinct s.stored_pages
      → Holds (Saved s) (remove_pages ops zero_page fuel pid c start end s)
  unfolding remove_pages
  remove_pages-Saved zero pid c start end s d = tt
  remove_pages-Saved (suc fuel) pid c start end s d =
      let t = remove_page ops zero_page pid c start s in
      let first = remove_page-Saved pid c start s d in
      let next = add64 start page_size in
      elim (Bool-cases (ltb start end)) [
        | inl e ↦ rw e (
            Holds-imp (Saved t) (Saved s) (remove_pages ops zero_page fuel pid c next end t)
              (λ u. Saved-trans s t u first)
              (remove_pages-Saved fuel pid c next end t first.distinct))
        | inr e ↦ rw e (Saved-refl s d)
      ]

  pub remove_storage_pages-Saved :
      (s : State ops zero_page) (pid address : ℕ)
      → Distinct s.stored_pages
      → Holds (Saved s) (remove_storage_pages ops zero_page s pid address)
  unfolding remove_storage_pages remove_region_pages
  remove_storage_pages-Saved s pid address d =
      Holds-bind (Saved s) (get_area s.areas pid address) _ λ found _. at_area found
    where
      at_region : (c : Option Cursor) → Holds (Saved s) (remove_region_pages ops zero_page pid s c)
      at_region none = Saved-refl s d
      at_region (some c) = remove_pages-Saved _ pid c _ _ s d

      at_area :
          (found : Option AreaCursor)
          → Holds (Saved s) (elim found [
            | none ↦ some s
            | some a ↦ remove_region_pages ops zero_page pid s (get_region a.area address)
          ])
      at_area none = Saved-refl s d
      at_area (some a) = at_region (get_region a.area address)
