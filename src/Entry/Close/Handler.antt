-- ===== src/Entry/Close/Handler.antt =====
-- The close handler as a whole.
use netmalloc.Common.{
  All, none, rebuild, ℕ, ◌+◌, ◌*◌, ◌<◌, ◌≡◌, ◌≢◌, refl, ap, ◌∙◌, inl, inr, false, some, List, [],
  ◌∷◌, arith, ◌==◌, ulong_mod, Bool-cases, Returns, Returns-value, Returns-imp, Returns-map,
}
use netmalloc.Storage.{StorageOps, IsReliable}
use netmalloc.MappedBuffer.{Release, get_buffer}
use netmalloc.MappedBuffer.Laws.{OnePerPid, remove_buffer-OnePerPid}
use netmalloc.Vma.{page_size}
use netmalloc.Region.{RegionStruct, AreaStruct}
use netmalloc.Region.Order.{end_of, Ordered}
use netmalloc.Area.{get_area_count}
use netmalloc.Area.Count.{HasNone, get_area_count-HasNone, HasNone-get_area_count}
use netmalloc.Area.Lookup.{AllOrdered, Mapped}
use netmalloc.Pager.{State}
use netmalloc.Pager.View.{view}
use netmalloc.Entry.{
  remove_storage_pages, set_regions, close_regions, find_vma, unlink_area, drop_area, close_vma,
}
use netmalloc.Entry.Close.{
  find_vma-first, AllOrdered-set, AllOrdered-find, unlink_area-set, Mapped-set, Sound, Others,
  Others-trans, remove_storage_pages-Removes,
}

module _ {Page : Type 0} (ops : StorageOps Page) (zero_page : Page) (r : IsReliable ops)
    (pid hi : ℕ) (fits : hi + 2 * page_size < ulong_mod) where
  -- The first region of the area is taken off.
  abbrev without_first : ℕ → List RegionStruct → State ops zero_page → State ops zero_page
  without_first vma l t = record t {
    areas = record t.areas { area_list = set_regions vma l t.areas.area_list };
  }

  without_first-Sound :
      (vma lo : ℕ) (l : List RegionStruct) (s t : State ops zero_page)
      → t.areas ≡ s.areas
      → Ordered lo l hi
      → Sound ops zero_page r pid hi fits s
      → Sound ops zero_page r pid hi fits (without_first vma l t)
  without_first-Sound vma lo l s t same o w = record {
    mapped = Mapped-set t.areas pid vma l t.areas.area_list (rw same w.mapped);
    ordered = AllOrdered-set hi vma lo l t.areas.area_list o (rw same w.ordered);
  }

  -- The inner loop: the other areas are as before, and so is what other processes have stored.
  pub close_regions-Others :
      (vma lo : ℕ) (l : List RegionStruct) (s : State ops zero_page)
      → Ordered lo l hi
      → Sound ops zero_page r pid hi fits s
      → Returns
          (λ t.
            (unlink_area vma t.areas.area_list ≡ unlink_area vma s.areas.area_list)
            × Others ops zero_page r pid hi fits s t)
          (close_regions ops zero_page pid vma l s)
  unfolding close_regions
  close_regions-Others vma lo [] s o w =
      (refl, record { buffers = refl; memory = refl; backed = λ p b k. refl })
  close_regions-Others vma lo (q ∷ l) s o w =
      let (t, e, (same, k)) =
        Returns-value _ (remove_storage_pages ops zero_page s pid q.virtual_start)
          (remove_storage_pages-Removes ops zero_page r pid hi fits s q.virtual_start w) in
      let t' = without_first vma l t in
      let ih =
        close_regions-Others vma (end_of q) l t' o.1
          (without_first-Sound vma (end_of q) l s t same o.1 w) in
      let back : unlink_area vma (set_regions vma l t.areas.area_list)
          ≡ unlink_area vma s.areas.area_list =
        unlink_area-set vma l t.areas.area_list ∙ ap (λ x. unlink_area vma x.area_list) same in
      let k' : Others ops zero_page r pid hi fits s t' = record {
        buffers = k.buffers;
        memory = k.memory;
        backed = k.backed;
      } in
      rw e (
        Returns-imp
          (λ u.
            (unlink_area vma u.areas.area_list ≡ unlink_area vma t'.areas.area_list)
            × Others ops zero_page r pid hi fits t' u)
          (λ u.
            (unlink_area vma u.areas.area_list ≡ unlink_area vma s.areas.area_list)
            × Others ops zero_page r pid hi fits s u)
          (close_regions ops zero_page pid vma l t')
          (λ u h. (h.0 ∙ back, Others-trans ops zero_page r pid hi fits s t' u k' h.1)) ih)

  -- What closing the structure of an area of the process leaves, with the areas in front of it,
  -- nearest first, and those behind.
  pub record Closed (s : State ops zero_page) (before behind : List AreaStruct)
      (out : State ops zero_page × List Release) : Type 0 where
    pub area_list : out.0.areas.area_list ≡ rebuild before behind
    pub last : HasNone pid (rebuild before behind) → get_buffer pid out.0.buffers ≡ none
    pub stays : ¬ HasNone pid (rebuild before behind) → out.0.buffers ≡ s.buffers
    pub buffers : (p : ℕ) → pid ≢ p → get_buffer p out.0.buffers ≡ get_buffer p s.buffers
    pub others : (p b : ℕ) → pid ≢ p → view ops zero_page r out.0 p b ≡ view ops zero_page r s p b

  pub drop_area-Closed :
      (vma : ℕ) (before behind : List AreaStruct) (s t : State ops zero_page)
      → OnePerPid s.buffers
      → unlink_area vma t.areas.area_list ≡ rebuild before behind
      → Others ops zero_page r pid hi fits s t
      → Closed s before behind (drop_area ops zero_page pid vma t)
  unfolding drop_area
  drop_area-Closed vma before behind s t one same k =
      let left = rebuild before behind in
      rw same (elim (Bool-cases (get_area_count pid left == 0)) [
        | inl e ↦
            let gone = remove_buffer-OnePerPid pid t.buffers (rw k.buffers one) in
            rw e (record {
              area_list = refl;
              last = λ h. ground (arith, gone.1 pid);
              stays = λ h. absurd (h (HasNone-get_area_count pid left (ground arith)));
              buffers = λ p h.
                  let away : (pid == p) ≡ false = ground arith in
                  gone.1 p ∙ rw (away, k.buffers) refl;
              others = λ p b h.
                  let away : (pid == p) ≡ false = ground arith in
                  rw (gone.1 p, away, k.memory, k.backed p b h, k.buffers);
            })
        | inr e ↦ rw e (record {
          area_list = refl;
          last = λ h. let n = get_area_count-HasNone pid left h in absurd (ground arith);
          stays = λ h. k.buffers;
          buffers = λ p h. rw k.buffers refl;
          others = λ p b h. rw (k.memory, k.backed p b h, k.buffers);
        })
      ])

  -- Closing the structure of an area of the process, where no area in front has the same structure,
  -- every area of the process has its structure, the regions of all areas are in order and end more
  -- than two pages before the end of the address space, no process has two buffers and the storage
  -- is reliable: it returns; exactly that area is off the list; the process has no buffer if no
  -- area of it is left, and the buffers are as they were otherwise; and every other process has
  -- its buffer as before and sees no other content than before.
  pub close_vma-Closed :
      (s : State ops zero_page) (before behind : List AreaStruct) (area : AreaStruct)
      → s.areas.area_list ≡ rebuild before (area ∷ behind)
      → All (λ a. a.vma ≢ area.vma) before
      → area.pid ≡ pid
      → Mapped s.areas.vmas pid s.areas.area_list
      → AllOrdered hi s.areas.area_list
      → OnePerPid s.buffers
      → Returns (Closed s before behind) (close_vma ops zero_page s area.vma)
  unfolding close_vma
  close_vma-Closed s before behind area whole first same m o one =
      let vma = area.vma in
      let (f, u) = find_vma-first vma before behind area first refl in
      let found : find_vma vma s.areas.area_list ≡ some area = rw whole f in
      let left : unlink_area vma s.areas.area_list ≡ rebuild before behind = rw whole u in
      let (lo, l) = AllOrdered-find hi vma s.areas.area_list area found o in
      let closed =
        close_regions-Others vma lo area.regions s l (record { mapped = m; ordered = o }) in
      rw (found, close_vma, same)
        (Returns-map (Closed s before behind) (drop_area ops zero_page pid vma)
          (close_regions ops zero_page pid vma area.regions s)
          (Returns-imp _ (λ t. Closed s before behind (drop_area ops zero_page pid vma t))
            (close_regions ops zero_page pid vma area.regions s)
            (λ t h. drop_area-Closed vma before behind s t one (h.0 ∙ left) h.1) closed))
