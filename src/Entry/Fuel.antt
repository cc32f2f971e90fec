-- ===== src/Entry/Fuel.antt =====
-- The loop of `remove_storage_pages` ends: its fuel is enough, and more changes nothing.
use netmalloc.Common.{
  ℕ, zero, suc, ◌+◌, ◌-◌, ◌*◌, ◌/◌, ◌≤◌, ◌<◌, ◌≡◌, refl, inl, inr, false, some, arith, ltb, add64,
  add64-eq_add, ulong_mod, Bool-cases,
}
use netmalloc.Storage.{StorageOps}
use netmalloc.Vma.{page_size}
use netmalloc.Region.{Cursor}
use netmalloc.Region.Order.{CursorOrdered}
use netmalloc.Area.{page_start, page_end}
use netmalloc.Pager.{State}
use netmalloc.Entry.{region_pages, remove_page, remove_pages, remove_region_pages}
use netmalloc.Entry.Free.{region_pages-enough}

module _ {Page : Type 0} (ops : StorageOps Page) (zero_page : Page) (pid : ℕ) (c : Cursor) where
  -- A result does not depend on the fuel that is left.
  remove_pages-more :
      (n m start end : ℕ) (s t : State ops zero_page)
      → n ≤ m
      → remove_pages ops zero_page n pid c start end s ≡ some t
      → remove_pages ops zero_page m pid c start end s ≡ some t
  unfolding remove_pages
  remove_pages-more zero m start end s t h e = cc
  remove_pages-more (suc n) zero start end s t h e = absurd (omega arith)
  remove_pages-more (suc n) (suc m) start end s t h e = elim (Bool-cases (ltb start end)) [
    | inl f ↦ rw f (
        remove_pages-more n m (add64 start page_size) end (remove_page ops zero_page pid c start s)
          t (omega arith) (rw f at e))
    | inr f ↦ rw f (rw f at e)
  ]

  remove_pages-ends :
      (n start : ℕ) (s : State ops zero_page)
      → page_end c.focus + page_size < ulong_mod
      → page_end c.focus ≤ start + n * page_size
      → (t : State ops zero_page) × (remove_pages ops zero_page
            (suc n)
            pid
            c
            start
            (page_end c.focus)
            s
          ≡ some t)
  unfolding remove_pages
  remove_pages-ends zero start s small enough =
      let e : ltb start (page_end c.focus) ≡ false = ground arith in (s, rw e refl)
  remove_pages-ends (suc n) start s small enough =
      elim (Bool-cases (ltb start (page_end c.focus))) [
        | inl e ↦
            let s' = remove_page ops zero_page pid c start s in
            let (t, f) = remove_pages-ends n (start + page_size) s' small (omega arith) in
            (t, rw (e, add64-eq_add start page_size (ground arith)) f)
        | inr e ↦ (s, rw e refl)
      ]

  -- For a region of an area in order, far enough from the end of the address space, and in any state, the
  -- removal of its pages ends: as many turns as the region has pages, and one more to see the end, give
  -- a result, and so does any larger number of turns, with the same result.
  pub remove_region_pages-ends :
      (lo hi : ℕ) (s : State ops zero_page)
      → hi + 2 * page_size < ulong_mod
      → CursorOrdered lo c hi
      → (t : State ops zero_page) × (remove_region_pages ops zero_page pid s (some c) ≡ some t)
        × ((n : ℕ)
            → region_pages c.focus ≤ n
            → remove_pages ops zero_page n pid c (page_start c.focus) (page_end c.focus) s ≡ some t)
  unfolding remove_region_pages
  remove_region_pages-ends lo hi s fits o =
      let (small, enough) = region_pages-enough c lo hi fits o in
      let (t, e) =
        remove_pages-ends ((page_end c.focus - page_start c.focus) / page_size) (page_start c.focus)
          s small enough in
      (
        t,
        e,
        λ n h.
            remove_pages-more (region_pages c.focus) n (page_start c.focus) (page_end c.focus) s t h
              e,
      )
