-- ===== src/Entry/Whole.antt =====
-- The two system calls of src/netmalloc.c and the handler `generic_malloc_vm_close`. The whole of a
-- free is `generic_free`, and the structure of an emptied area that `remove_region`
-- hands to `remove_vma` of src/vma.c. The kernel's `do_munmap` is a parameter; for the structures
-- that it takes out of a map it calls their close handler.
use netmalloc.Common.{
  ℕ, ◌+◌, ◌*◌, ◌<◌, ◌≡◌, ◌≢◌, refl, ◌∙◌, Bool, true, false, Option, none, some, List, [], ◌∷◌, ◌++◌,
  arith, ◌==◌, add64, sub64, ◌>>=◌, rebuild, Returns-value, ulong_mod,
}
use netmalloc.Storage.{StorageOps, IsReliable}
use netmalloc.MappedBuffer.{MappedBuffer, Release, get_buffer}
use netmalloc.Vma.{VmAreaStruct, page_size, remove_vma}
use netmalloc.Region.{
  RegionStruct, AreaStruct, cursor, get_region, free_region, merge_neighbors_region, merge_next,
  merge_prev, remove_last,
}
use netmalloc.Region.Order.{Ordered}
use netmalloc.Area.{Areas, AreaCursor, CreateAnswers, get_area, remove_region_at, remove_region}
use netmalloc.Pager.{State, UnmapAnswers, unmap_page}
use netmalloc.Pager.View.{view}
use netmalloc.Entry.{
  find_vma, remove_storage_pages, close_regions, drop_area, close_vma, generic_free, generic_malloc,
}
use netmalloc.Dump.{Line, dump_buffers, dump_stored_pages, dump_area_list}
use netmalloc.Entry.Free.{Kept-view}
use netmalloc.Entry.View.{Unmaps, unmap_page-Unmaps, pages_removed}

module _ {Page : Type 0} (ops : StorageOps Page) (zero_page : Page) where
  -- The system call that allocates.
  abbrev pub netmalloc_syscall :
      CreateAnswers
      → UnmapAnswers
      → UnmapAnswers
      → State ops zero_page
      → ℕ
      → ℕ
      → ℕ
      → Option (State ops zero_page × Option ℕ)
  netmalloc_syscall kc k k' s pid mm size = generic_malloc ops zero_page kc k k' s pid mm size

  -- What the module tells the kernel to call for a structure that goes, with the lists that it prints.
  unfoldable pub generic_malloc_vm_close :
      State ops zero_page → ℕ → Option ((State ops zero_page × List Release) × List Line)
  generic_malloc_vm_close s vma = do
    out ← close_vma ops zero_page s vma
    some (
      out,
      dump_buffers out.0.buffers
          ++ dump_stored_pages out.0.stored_pages
          ++ dump_area_list out.0.areas.area_list,
    )

module _ {Page : Type 0} (ops : StorageOps Page) (zero_page : Page)
    (do_munmap : State ops zero_page
      → ℕ
      → ℕ
      → ℕ
      → Option (State ops zero_page × List Release)) where
  abbrev remove_structure :
      (symbol : Bool) → State ops zero_page × Option ℕ → Option (State ops zero_page × List Release)
  remove_structure symbol (s, none) = some (s, [])
  remove_structure symbol (s, some vma) = remove_vma symbol (do_munmap s) (s, []) s.areas.vmas vma

  -- The system call, with the page memory that it gives back.
  unfoldable pub netfree_syscall :
      (symbol : Bool)
      → UnmapAnswers
      → UnmapAnswers
      → State ops zero_page
      → ℕ
      → ℕ
      → Option (State ops zero_page × List Release)
  unfolding generic_free remove_vma
  netfree_syscall symbol k k' s pid ptr =
      generic_free ops zero_page k k' s pid ptr >>= remove_structure symbol

  -- Once `generic_free` has handed over a structure, and `do_munmap` is known.
  pub netfree_syscall-removes :
      (k k' : UnmapAnswers) (s u : State ops zero_page) (pid ptr vma : ℕ) (v : VmAreaStruct)
      → generic_free ops zero_page k k' s pid ptr ≡ some (u, some vma)
      → u.areas.vmas.heap vma ≡ some v
      → netfree_syscall true k k' s pid ptr
        ≡ do_munmap u v.vm_mm v.vm_start (sub64 v.vm_end v.vm_start)
  unfolding netfree_syscall remove_vma
  netfree_syscall-removes k k' s u pid ptr vma v e h = rw (e, h) refl

abbrev pub emptied : AreaStruct → RegionStruct → AreaStruct
emptied a r = record a { free_space = add64 a.free_space r.size; regions = [] }

-- The only region of an area.
free_region-only :
    (a : AreaStruct) (r : RegionStruct)
    → a.head_free ≢ 1
    → free_region a (cursor [] r []) ≡ some (emptied a r)
unfolding free_region merge_neighbors_region merge_next merge_prev remove_last rebuild
free_region-only a r h = let e : (a.head_free == 1) ≡ false = ground arith in rw e refl

remove_region-only :
    (s : Areas) (pid ptr : ℕ) (a : AreaCursor) (r : RegionStruct)
    → get_area s pid ptr ≡ some (some a)
    → get_region a.area ptr ≡ some (cursor [] r [])
    → a.area.head_free ≢ 1
    → remove_region s pid ptr
      ≡ some
          (record s { area_list = rebuild a.before (emptied a.area r ∷ a.after) }, some a.area.vma)
unfolding remove_region remove_region_at
remove_region-only s pid ptr a r found hit h = rw (found, hit, free_region-only a.area r h) refl

module _ {Page : Type 0} (ops : StorageOps Page) (zero_page : Page) (r : IsReliable ops) where
  -- The state before the area's regions go, and that `generic_free` takes them off it.
  pub record Emptying (s : State ops zero_page) (a : AreaCursor) (c : RegionStruct) (pid : ℕ)
      (run : Option (State ops zero_page × Option ℕ)) : Type 0 where
    pub t : State ops zero_page
    pub areas : t.areas ≡ s.areas
    pub others : (p b : ℕ) → pid ≢ p → view ops zero_page r t p b ≡ view ops zero_page r s p b
    pub result :
        run
        ≡ some (
          record t {
            areas = record t.areas { area_list = rebuild a.before (emptied a.area c ∷ a.after) };
          },
          some a.area.vma,
        )

  pub generic_free-Emptying :
      (k k' : UnmapAnswers) (s : State ops zero_page) (pid ptr lo hi : ℕ) (a : AreaCursor)
      (c : RegionStruct)
      → ((b : MappedBuffer) → get_buffer pid s.buffers ≡ some b → Unmaps ops zero_page r k k' s b)
      → get_area s.areas pid ptr ≡ some (some a)
      → get_region a.area ptr ≡ some (cursor [] c [])
      → hi + 2 * page_size < ulong_mod
      → Ordered lo a.area.regions hi
      → a.area.head_free ≢ 1
      → Emptying s a c pid (generic_free ops zero_page k k' s pid ptr)
  unfolding generic_free
  generic_free-Emptying k k' s pid ptr lo hi a c u found hit fits o h =
      let (out, e, f) =
        Returns-value _ (unmap_page ops zero_page k k' s pid false)
          (unmap_page-Unmaps ops zero_page r k k' s pid u) in
      let (t, e', kept) = Returns-value _ (remove_storage_pages ops zero_page out.0 pid ptr) (
        pages_removed ops zero_page r s out.0 pid ptr lo hi a (cursor [] c []) f.areas found hit
          fits o) in
      let same : t.areas ≡ s.areas = kept.areas ∙ f.areas in
      record {
        t = t;
        areas = same;
        others = λ p b away.
            Kept-view ops zero_page r pid (cursor [] c []) out.0 t kept p b (ground arith)
            ∙ f.others p b;
        result = rw (e, e', same, remove_region-only s.areas pid ptr a c found hit h) refl;
      }

  pub close_vma-empty :
      (s : State ops zero_page) (vma : ℕ) (b : AreaStruct)
      → find_vma vma s.areas.area_list ≡ some b
      → b.regions ≡ []
      → close_vma ops zero_page s vma ≡ some (drop_area ops zero_page b.pid vma s)
  unfolding close_vma close_regions
  close_vma-empty s vma b found e = rw (found, close_vma, e) refl
