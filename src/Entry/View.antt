-- ===== src/Entry/View.antt =====
-- What a free and an allocation leave of the memory that the processes see.
use mathlib.Core.Option
use mathlib.Core.Path.{subst}
use netmalloc.Common.{
  ℕ, ◌+◌, ◌*◌, ◌<◌, ◌≡◌, ◌≢◌, refl, sym, ◌∙◌, inl, inr, true, false, Option, none, some, ◌∷◌, arith,
  rebuild, ulong_mod, Option-cases, Returns, Returns-value, Holds-some, pos,
}
use netmalloc.Storage.{StorageOps, IsReliable}
use netmalloc.MappedBuffer.{MappedBuffer, get_buffer}
use netmalloc.Vma.{page_size, is_existing_vma}
use netmalloc.Region.{RegionStruct, AreaStruct, Cursor, get_region}
use netmalloc.Region.Order.{Ordered, CursorOrdered}
use netmalloc.Region.Order.Free.{get_region-Ordered}
use netmalloc.Region.Coalesced.{Coalesced}
use netmalloc.Area.{Areas, AreaCursor, get_area, CreateAnswers, create_region, remove_region}
use netmalloc.Region.Same.{SameOwner}
use netmalloc.Area.Remove.{HandedOver, Removed, remove_region-Removed}
use netmalloc.Pager.{State, UnmapAnswers, unmap_page}
use netmalloc.Pager.Buffers.{get_buffer-pid}
use netmalloc.Pager.View.{backing, view}
use netmalloc.Pager.View.Unmap.{Willing}
use netmalloc.Pager.View.Flush.{Flushed, unmap_page-Flushed}
use netmalloc.Entry.{remove_storage_pages, generic_free, generic_malloc}
use netmalloc.Entry.Free.{owned, Kept, Kept-view, remove_storage_pages-Kept}

module _ {Page : Type 0} (ops : StorageOps Page) (zero_page : Page) (r : IsReliable ops) where
  -- The pages that the process has mapped, if any, can be unmapped: they are at different addresses, their
  -- structures are in a map, and the kernel refuses nothing.
  pub record Unmaps (k k' : UnmapAnswers) (s : State ops zero_page) (b : MappedBuffer)
      : Type 0 where
    pub once : b.vma ≢ 0 → b.cache_vma ≢ 0 → b.start ≢ b.cache_start
    pub mapped : b.vma ≢ 0 → (is_existing_vma s.areas.vmas b.vma ≡ some true) × Willing k b.buffer
    pub cached :
        b.cache_vma ≢ 0
        → (is_existing_vma s.areas.vmas b.cache_vma ≡ some true) × Willing k' b.cache

  unmap_page-missing :
      (k k' : UnmapAnswers) (s : State ops zero_page) (pid : ℕ)
      → get_buffer pid s.buffers ≡ none
      → unmap_page ops zero_page k k' s pid false ≡ some (s, pos 0)
  unfolding unmap_page
  unmap_page-missing k k' s pid missing = rw (missing, unmap_page)

  pub unmap_page-Unmaps :
      (k k' : UnmapAnswers) (s : State ops zero_page) (pid : ℕ)
      → ((b : MappedBuffer) → get_buffer pid s.buffers ≡ some b → Unmaps k k' s b)
      → Returns (Flushed ops zero_page r s pid) (unmap_page ops zero_page k k' s pid false)
  unmap_page-Unmaps k k' s pid u = elim (Option-cases (get_buffer pid s.buffers)) [
    | inl missing ↦
        rw (unmap_page-missing k k' s pid missing)
          (record { result = refl; areas = refl; stored = λ a. rw missing; others = λ p a. refl })
    | inr (b, found) ↦
        let e = get_buffer-pid pid s.buffers b found in
        let w = u b found in
        subst (λ q. Returns (Flushed ops zero_page r s q) (unmap_page ops zero_page k k' s q false))
          e
          (unmap_page-Flushed ops zero_page r k k' s b
            (subst (λ q. get_buffer q s.buffers ≡ some b) (sym e) found) w.once w.mapped w.cached)
  ]

  -- What a free of the region at the cursor leaves, in the area at `a`.
  pub record Freed (s : State ops zero_page) (pid lo hi : ℕ) (a : AreaCursor) (c : Cursor)
      (out : State ops zero_page × Option ℕ) : Type 0 where
    pub after : AreaStruct
    pub area_list : out.0.areas.area_list ≡ rebuild a.before (after ∷ a.after)
    pub removed : Removed lo hi a.area c.focus after
    pub owner : SameOwner a.area after
    pub vma : HandedOver a.area after out.1
    pub kept :
        (p b : ℕ)
        → owned pid c p b ≡ false
        → view ops zero_page r out.0 p b ≡ view ops zero_page r s p b

  -- The storage part, from the state that the unmapping leaves.
  pub pages_removed :
      (s t : State ops zero_page) (pid ptr lo hi : ℕ) (a : AreaCursor) (c : Cursor)
      → t.areas ≡ s.areas
      → get_area s.areas pid ptr ≡ some (some a)
      → get_region a.area ptr ≡ some c
      → hi + 2 * page_size < ulong_mod
      → Ordered lo a.area.regions hi
      → Returns (Kept ops zero_page r pid c t) (remove_storage_pages ops zero_page t pid ptr)
  pages_removed s t pid ptr lo hi a c same found hit fits o =
      let ro =
        Holds-some (λ x. CursorOrdered lo x hi) (get_region a.area ptr)
          (get_region-Ordered lo hi (omega arith) a.area ptr o) hit in
      remove_storage_pages-Kept ops zero_page r pid c lo hi fits ro t ptr a (rw same found) hit

  -- Freeing an allocated address that `get_area` finds, where the area is in good order and its
  -- regions end more than two pages before 2 ^ 64, the process's pages can be unmapped and the
  -- storage is reliable: it returns; the area gives back the bytes of that region and no others and
  -- stays in good order; its structure is handed to `remove_vma` if no region is left, and none
  -- otherwise; and no process sees any other content than before, except the process itself in
  -- pages of that region that no other region in use of the area touches.
  pub generic_free-Freed :
      (k k' : UnmapAnswers) (s : State ops zero_page) (pid ptr lo hi : ℕ) (a : AreaCursor)
      (c : Cursor)
      → ((b : MappedBuffer) → get_buffer pid s.buffers ≡ some b → Unmaps k k' s b)
      → get_area s.areas pid ptr ≡ some (some a)
      → get_region a.area ptr ≡ some c
      → hi + 2 * page_size < ulong_mod
      → Ordered lo a.area.regions hi
      → Coalesced a.area.regions
      → a.area.head_free ≢ 1
      → Returns (Freed s pid lo hi a c) (generic_free ops zero_page k k' s pid ptr)
  unfolding generic_free
  generic_free-Freed k k' s pid ptr lo hi a c u found hit fits o w h =
      let (out, e, f) =
        Returns-value _ (unmap_page ops zero_page k k' s pid false)
          (unmap_page-Unmaps k k' s pid u) in
      let (t, e', kept) =
        Returns-value _ (remove_storage_pages ops zero_page out.0 pid ptr)
          (pages_removed s out.0 pid ptr lo hi a c f.areas found hit fits o) in
      let same : t.areas ≡ s.areas = kept.areas ∙ f.areas in
      let (done, e'', (after, l, removed, at, owner, vma)) =
        Returns-value _ (remove_region s.areas pid ptr)
          (remove_region-Removed s.areas pid ptr lo hi a c found hit (omega arith) o w h) in
      rw (e, e', same, e'')
        (record {
          after = after;
          area_list = l;
          removed = removed;
          owner = owner;
          vma = vma;
          kept = λ p b free. Kept-view ops zero_page r pid c out.0 t kept p b free ∙ f.others p b;
        })

  -- What an allocation leaves, given the areas and the region that `create_region` returned.
  pub record Malloced (s : State ops zero_page) (pid : ℕ) (areas : Areas)
      (region : Option RegionStruct) (out : State ops zero_page × Option ℕ) : Type 0 where
    pub start : out.1 ≡ Option.map (λ c. c.virtual_start) region
    pub areas_same : out.0.areas ≡ areas
    pub view_same : (p b : ℕ) → view ops zero_page r out.0 p b ≡ view ops zero_page r s p b
    pub stored :
        region ≢ none
        → (b : ℕ)
        → backing ops zero_page r out.0.contents out.0.stored_pages pid b
          ≡ view ops zero_page r s pid b

  -- An allocation, where the process's pages can be unmapped and the storage is reliable: it
  -- returns the start of the region that `create_region` made, or NULL if that made none; no
  -- process sees any other content than before; and if there is a region, the storage then holds
  -- all that the process sees.
  pub generic_malloc-Malloced :
      (kc : CreateAnswers) (k k' : UnmapAnswers) (s : State ops zero_page) (pid mm size : ℕ)
      (areas : Areas) (region : Option RegionStruct)
      → create_region kc s.areas pid mm size ≡ some (areas, region)
      → ((b : MappedBuffer)
          → get_buffer pid s.buffers ≡ some b
          → Unmaps k k' (record s { areas = areas }) b)
      → Returns (Malloced s pid areas region) (generic_malloc ops zero_page kc k k' s pid mm size)
  unfolding generic_malloc
  generic_malloc-Malloced kc k k' s pid mm size areas none e u = rw e (record {
    start = refl;
    areas_same = refl;
    view_same = λ p b. refl;
    stored = λ h. absurd (h refl);
  })
  generic_malloc-Malloced kc k k' s pid mm size areas (some region) e u =
      let created : State ops zero_page = record s { areas = areas } in
      let (out, e', f) =
        Returns-value _ (unmap_page ops zero_page k k' created pid false)
          (unmap_page-Unmaps k k' created pid u) in
      rw (e, e', f.result)
        (record {
          start = refl;
          areas_same = f.areas;
          view_same = f.others;
          stored = λ h. f.stored;
        })
