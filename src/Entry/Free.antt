-- ===== src/Entry/Free.antt =====
-- Freeing a region takes the pages that it alone touches out of the storage, and no other page.
use netmalloc.Common.{
  ℕ, zero, suc, ◌+◌, ◌-◌, ◌*◌, ◌/◌, ◌%◌, ◌≤◌, ◌<◌, ◌≡◌, refl, ◌∙◌, inl, inr, Bool, true, false, not,
  ◌&&◌, ◌||◌, some, arith, ◌==◌, ltb, leb, add64-eq_add, ulong_mod, Bool-cases, Returns,
  Returns-imp,
}
use netmalloc.Align.Bounds.{align_floor-bounds, align_ceil-bounds}
use netmalloc.Storage.{StorageOps, IsReliable}
use netmalloc.StoredPage.{is_stored_page}
use netmalloc.StoredPage.Set.{is_stored_page-remove}
use netmalloc.Vma.{page_size}
use netmalloc.Region.{Cursor, get_region}
use netmalloc.Region.Order.{end_of, CursorOrdered, Ordered-le}
use netmalloc.Area.{AreaCursor, get_area, page_shift, page_start, page_end}
use netmalloc.Area.Lookup.{touches}
use netmalloc.Pager.{State}
use netmalloc.Pager.View.{backing, view}
use netmalloc.Entry.{can_remove_page, remove_page, remove_pages, remove_storage_pages}
use netmalloc.Entry.Clear.{can_remove_page-clear}

pub page_start-aligned : (c : Cursor) → page_start c.focus % page_size ≡ 0
page_start-aligned c = omega (arith, align_floor-bounds c.focus.virtual_start page_shift)

-- The ends of the region's pages, and that the loop's fuel is enough.
pub region_pages-enough :
    (c : Cursor) (lo hi : ℕ)
    → hi + 2 * page_size < ulong_mod
    → CursorOrdered lo c hi
    → (page_end c.focus + page_size < ulong_mod)
      × (page_end c.focus
          ≤ page_start c.focus + (page_end c.focus - page_start c.focus) / page_size * page_size)
region_pages-enough c lo hi fits o =
    let end = Ordered-le (end_of c.focus) hi c.after o.1.1 in
    let f = align_floor-bounds c.focus.virtual_start page_shift in
    let t = align_ceil-bounds (end_of c.focus) page_shift (omega arith) in
    rw (add64-eq_add c.focus.virtual_start c.focus.size (omega arith))
      (omega (arith, t), omega (arith, f, t))

-- The page at `b` of the process `p` belongs to the region at the cursor alone.
abbrev pub owned : ℕ → Cursor → ℕ → ℕ → Bool
owned pid c p b =
    pid == p
    && ((leb (page_start c.focus) b && ltb b (page_end c.focus))
        && not (touches b c.before || touches b c.after))

module _ {Page : Type 0} (ops : StorageOps Page) (zero_page : Page) (r : IsReliable ops) (pid : ℕ)
    (c : Cursor) where
  -- Only the storage has changed, and there only pages that the region alone touches.
  pub record Kept (s t : State ops zero_page) : Type 0 where
    pub areas : t.areas ≡ s.areas
    pub buffers : t.buffers ≡ s.buffers
    pub memory : t.memory ≡ s.memory
    pub backed :
        (p b : ℕ)
        → owned pid c p b ≡ false
        → backing ops zero_page r t.contents t.stored_pages p b
          ≡ backing ops zero_page r s.contents s.stored_pages p b

  Kept-refl : (s : State ops zero_page) → Kept s s
  Kept-refl s = record { areas = refl; buffers = refl; memory = refl; backed = λ p b h. refl }

  Kept-trans : (s t u : State ops zero_page) → Kept s t → Kept t u → Kept s u
  Kept-trans s t u k l = record {
    areas = l.areas ∙ k.areas;
    buffers = l.buffers ∙ k.buffers;
    memory = l.memory ∙ k.memory;
    backed = λ p b h. l.backed p b h ∙ k.backed p b h;
  }

  pub Kept-view :
      (s t : State ops zero_page)
      → Kept s t
      → (p b : ℕ) → owned pid c p b ≡ false
      → view ops zero_page r t p b ≡ view ops zero_page r s p b
  Kept-view s t k p b h = rw (k.buffers, k.memory, k.backed p b h)

  module _ (lo hi : ℕ) (fits : hi + 2 * page_size < ulong_mod) (o : CursorOrdered lo c hi) where
    -- A page that the loop takes out is one that the region alone touches.
    taken :
        (start p b : ℕ)
        → page_start c.focus ≤ start
        → start < page_end c.focus
        → start + page_size < ulong_mod
        → can_remove_page start c ≡ true
        → owned pid c p b ≡ false
        → (pid == p && start == b) ≡ false
    taken start p b h k small e free =
        ground (arith, can_remove_page-clear start lo hi c (omega arith) small o e)

    remove_page-Kept :
        (start : ℕ) (s : State ops zero_page)
        → page_start c.focus ≤ start
        → start < page_end c.focus
        → start + page_size < ulong_mod
        → Kept s (remove_page ops zero_page pid c start s)
    unfolding remove_page
    remove_page-Kept start s h k small =
        elim (Bool-cases (is_stored_page pid start s.stored_pages && can_remove_page start c)) [
          | inl e ↦
              let clear : can_remove_page start c ≡ true = ground arith in
              rw e (record {
                areas = refl;
                buffers = refl;
                memory = refl;
                backed = λ p b free.
                    let away = taken start p b h k small clear free in
                    rw (
                      is_stored_page-remove pid start p b s.stored_pages away,
                      r.remove_held s.contents pid start p b away,
                    );
              })
          | inr e ↦ rw e (Kept-refl s)
        ]

    remove_pages-Kept :
        (fuel start : ℕ) (s : State ops zero_page)
        → page_start c.focus ≤ start
        → page_end c.focus + page_size < ulong_mod
        → page_end c.focus ≤ start + fuel * page_size
        → Returns (Kept s) (remove_pages ops zero_page (suc fuel) pid c start (page_end c.focus) s)
    unfolding remove_pages
    remove_pages-Kept zero start s h small enough =
        let e : ltb start (page_end c.focus) ≡ false = ground arith in rw e (Kept-refl s)
    remove_pages-Kept (suc fuel) start s h small enough =
        elim (Bool-cases (ltb start (page_end c.focus))) [
          | inl e ↦
              let s' = remove_page ops zero_page pid c start s in
              let step = remove_page-Kept start s h (ground arith) (ground arith) in
              let ih =
                remove_pages-Kept fuel (start + page_size) s' (omega arith) small (omega arith) in
              rw (e, add64-eq_add start page_size (ground arith))
                (Returns-imp (Kept s') (Kept s)
                  (remove_pages ops zero_page (suc fuel) pid c (start + page_size)
                    (page_end c.focus) s')
                  (λ t w. Kept-trans s s' t step w) ih)
          | inr e ↦ rw e (Kept-refl s)
        ]

    pub remove_storage_pages-Kept :
        (s : State ops zero_page) (address : ℕ) (a : AreaCursor)
        → get_area s.areas pid address ≡ some (some a)
        → get_region a.area address ≡ some c
        → Returns (Kept s) (remove_storage_pages ops zero_page s pid address)
    unfolding remove_storage_pages
    remove_storage_pages-Kept s address a found hit =
        let enough = region_pages-enough c lo hi fits o in
        let n = (page_end c.focus - page_start c.focus) / page_size in
        rw (found, hit) (remove_pages-Kept n (page_start c.focus) s (omega arith) enough.0 enough.1)
