-- ===== src/System/Netfree.antt =====
-- The whole of a free in reachable states, where the region is the last of its area: `generic_free`,
-- `remove_vma`, and the close handler that the kernel calls on the way.
use mathlib.Core.Option
use mathlib.Core.Path.{subst}
use netmalloc.Common.{
  ℕ, ◌+◌, ◌*◌, ◌<◌, ◌≡◌, ◌≢◌, refl, ap, ◌∙◌, inl, inr, true, none, some, Option, List, [], ◌∷◌,
  arith, ◌==◌, leb, ltb, ◌&&◌, sub64, rebuild, ulong_mod, All, Bool-cases, Option-cases, Holds,
  Holds-some, Returns,
}
use netmalloc.Storage.{StorageOps, IsReliable}
use netmalloc.MappedBuffer.{MappedBuffer, Release, get_buffer}
use netmalloc.MappedBuffer.Laws.{OnePerPid}
use netmalloc.Vma.{Vmas, VmAreaStruct, is_existing_vma, page_size}
use netmalloc.Region.{RegionStruct, AreaStruct, cursor, get_region}
use netmalloc.Area.{Areas, AreaCursor, find_area, get_area}
use netmalloc.Pager.{State, UnmapAnswers}
use netmalloc.Pager.View.{view}
use netmalloc.Pager.View.Unmap.{Willing}
use netmalloc.Entry.{drop_area, unlink_area}
use netmalloc.Entry.Close.Handler.{Closed, drop_area-Closed}
use netmalloc.Dump.{Line}
use netmalloc.Area.Count.{HasNone}
use netmalloc.Entry.Close.{find_vma-first}
use netmalloc.Entry.Whole.{
  generic_malloc_vm_close, netfree_syscall, netfree_syscall-removes, emptied, generic_free-Emptying,
  close_vma-empty,
}
use netmalloc.System.Steps.{Reachable, after, free}
use netmalloc.System.Invariant.{Reachable-WellFormed}
use netmalloc.System.Reached.{found_area}

-- The area that a search finds is one of the process.
abbrev OfProcess : ℕ → Option AreaCursor → Type 0
OfProcess pid none = Unit {0}
OfProcess pid (some c) = c.area.pid ≡ pid

find_area-OfProcess :
    (s : Vmas) (pid address : ℕ) (bs l : List AreaStruct)
    → Holds (OfProcess pid) (find_area s pid address bs l)
unfolding find_area
find_area-OfProcess s pid address bs [] = tt
find_area-OfProcess s pid address bs (a ∷ l) =
    let rest = find_area-OfProcess s pid address (a ∷ bs) l in
    elim (Bool-cases (a.pid == pid)) [
      | inl e ↦ elim (Option-cases (s.heap a.vma)) [
        | inl f ↦ rw (e, f) tt
        | inr (v, f) ↦ elim (Bool-cases (leb v.vm_start address && ltb address v.vm_end)) [
          | inl c ↦ rw (e, f, c) (ground arith)
          | inr c ↦ rw (e, f, c) rest
        ]
      ]
      | inr e ↦ rw e rest
    ]

get_area-OfProcess : (s : Areas) (pid address : ℕ) → Holds (OfProcess pid) (get_area s pid address)
unfolding get_area
get_area-OfProcess s pid address = find_area-OfProcess s.vmas pid address [] s.area_list

module _ {Page : Type 0} (ops : StorageOps Page) (zero_page : Page) (r : IsReliable ops) where
  -- The area at the cursor is gone, and the maps are those that the kernel leaves.
  pub record Gone (s : State ops zero_page) (a : AreaCursor) (pid : ℕ) (vmas : Vmas)
      (out : State ops zero_page × List Release) : Type 0 where
    pub area_list : out.0.areas.area_list ≡ rebuild a.before a.after
    pub maps : out.0.areas.vmas ≡ vmas
    pub buffer : HasNone pid (rebuild a.before a.after) → get_buffer pid out.0.buffers ≡ none
    pub others : (p b : ℕ) → pid ≢ p → view ops zero_page r out.0 p b ≡ view ops zero_page r s p b

  -- The maps that the kernel leaves once it has called the handler.
  abbrev pub leave_maps :
      Vmas → (State ops zero_page × List Release) × List Line → State ops zero_page × List Release
  leave_maps vmas ((s, released), lines) =
      (record s { areas = record s.areas { vmas = vmas } }, released)

  Closed-Gone :
      (hi pid : ℕ) (fits : hi + 2 * page_size < ulong_mod) (s u : State ops zero_page)
      (a : AreaCursor) (vmas : Vmas) (out : State ops zero_page × List Release)
      → ((p b : ℕ) → pid ≢ p → view ops zero_page r u p b ≡ view ops zero_page r s p b)
      → Closed ops zero_page r pid hi fits u a.before a.after out
      → Gone s a pid vmas (leave_maps vmas (out, []))
  Closed-Gone hi pid fits s u a vmas out same c = record {
    area_list = c.area_list;
    maps = refl;
    buffer = c.last;
    others = λ p b away. c.others p b away ∙ same p b away;
  }

  -- The structure that `generic_free` hands over, once the kernel unmaps it.
  emptied-Gone :
      (hi : ℕ) (fits : hi + 2 * page_size < ulong_mod) (s u : State ops zero_page) (a : AreaCursor)
      (b : AreaStruct) (vmas : Vmas)
      → u.areas.area_list ≡ rebuild a.before (b ∷ a.after)
      → b.vma ≡ a.area.vma
      → b.regions ≡ []
      → All (λ x. x.vma ≢ a.area.vma) a.before
      → OnePerPid u.buffers
      → ((p c : ℕ) → b.pid ≢ p → view ops zero_page r u p c ≡ view ops zero_page r s p c)
      → Returns
          (Gone s a b.pid vmas)
          (Option.map (leave_maps vmas) (generic_malloc_vm_close ops zero_page u a.area.vma))
  unfolding generic_malloc_vm_close
  emptied-Gone hi fits s u a b vmas whole v none_left first one same =
      let (f, l) = find_vma-first a.area.vma a.before a.after b first v in
      let left : unlink_area a.area.vma u.areas.area_list ≡ rebuild a.before a.after = rw whole l in
      let closed =
        drop_area-Closed ops zero_page r b.pid hi fits a.area.vma a.before a.after u u one left
          (record { buffers = refl; memory = refl; backed = λ p c k. refl }) in
      rw (close_vma-empty ops zero_page r u a.area.vma b (rw whole f) none_left) (
        Closed-Gone hi b.pid fits s u a vmas (drop_area ops zero_page b.pid a.area.vma u) same
          closed)

  -- In a reachable state whose regions lie more than two pages away from the end of the address
  -- space, with a reliable storage, a free of the address of the only region of an area, where no
  -- earlier area has the same structure and the mapped pages of the process can be unmapped, and
  -- where `do_munmap` is known and, called for the range of that structure while the maps are as
  -- before, has the effect of the close handler and leaves some maps: the system call returns; the
  -- area is off the list and no other; the process has no buffer if no area of it is left; and no
  -- other process sees any other content than before.
  pub Reachable-Gone :
      (hi : ℕ) (s : State ops zero_page) (k k' : UnmapAnswers) (pid ptr : ℕ) (a : AreaCursor)
      (c : RegionStruct) (v : VmAreaStruct) (vmas : Vmas)
      (do_munmap : State ops zero_page → ℕ → ℕ → ℕ → Option (State ops zero_page × List Release))
      → Reachable ops zero_page hi s
      → hi + 2 * page_size < ulong_mod
      → get_area s.areas pid ptr ≡ some (some a)
      → get_region a.area ptr ≡ some (cursor [] c [])
      → All (λ x. x.vma ≢ a.area.vma) a.before
      → s.areas.vmas.heap a.area.vma ≡ some v
      → ((b : MappedBuffer)
          → get_buffer pid s.buffers ≡ some b
          → (b.vma ≢ 0 → (is_existing_vma s.areas.vmas b.vma ≡ some true) × Willing k b.buffer)
            × (b.cache_vma ≢ 0
                → (is_existing_vma s.areas.vmas b.cache_vma ≡ some true) × Willing k' b.cache))
      → ((u : State ops zero_page)
          → u.areas.vmas ≡ s.areas.vmas
          → do_munmap u v.vm_mm v.vm_start (sub64 v.vm_end v.vm_start)
            ≡ Option.map (leave_maps vmas) (generic_malloc_vm_close ops zero_page u a.area.vma))
      → Returns (Gone s a pid vmas) (netfree_syscall ops zero_page do_munmap true k k' s pid ptr)
  Reachable-Gone hi s k k' pid ptr a c v vmas do_munmap reached fits found hit first held unmaps
        munmap =
      let formed = Reachable-WellFormed ops zero_page hi s reached in
      let o = found_area ops zero_page r s hi pid ptr a formed.areas found in
      let owner =
        Holds-some (OfProcess pid) (get_area s.areas pid ptr) (get_area-OfProcess s.areas pid ptr)
          found in
      let e =
        generic_free-Emptying ops zero_page r k k' s pid ptr o.lo hi a c
          (λ b h. record {
            once = formed.buffers.once pid b h;
            mapped = (unmaps b h).0;
            cached = (unmaps b h).1;
          })
          found hit fits o.ordered o.head in
      let u : State ops zero_page = record e.t {
        areas = record e.t.areas { area_list = rebuild a.before (emptied a.area c ∷ a.after) };
      } in
      let freed =
        Reachable-WellFormed ops zero_page hi u (after reached (free k k' pid ptr _ e.result)) in
      let maps : u.areas.vmas ≡ s.areas.vmas = ap (λ x. x.vmas) e.areas in
      let run =
        netfree_syscall-removes ops zero_page do_munmap k k' s u pid ptr a.area.vma v e.result
          (rw maps held)
        ∙ munmap u maps in
      rw run (
        subst
          (λ q.
            Returns (Gone s a q vmas)
              (Option.map (leave_maps vmas) (generic_malloc_vm_close ops zero_page u a.area.vma)))
          owner
          (emptied-Gone hi fits s u a (emptied a.area c) vmas refl refl refl first freed.buffers.one
            (λ p b away. e.others p b (ground arith))))
