-- ===== src/System/Invariant.antt =====
-- Every reachable state is well formed.
use mathlib.Core.Option
use netmalloc.Common.{
  ℕ, ◌+◌, ◌<◌, false, Option, none, some, ulong_mod, is_negative, if◌then◌else◌, Holds, Holds-bind,
  Holds-some, Holds-map, Holds-imp,
}
use netmalloc.Storage.{StorageOps}
use netmalloc.Region.{RegionStruct}
use netmalloc.Area.{Areas, CreateAnswers, create_region, remove_region}
use netmalloc.Pager.{State, UnmapAnswers, unmap_page}
use netmalloc.Entry.{remove_storage_pages, generic_free, generic_malloc}
use netmalloc.System.Areas.{AreasSound, AllSound-keeps, Grants}
use netmalloc.System.Creation.{create_region-Sound}
use netmalloc.System.Removal.{remove_region-Sound}
use netmalloc.System.Buffers.{BuffersSound-nil}
use netmalloc.System.Saved.{Saved, remove_storage_pages-Saved}
use netmalloc.System.Unmapping.{Paged, OutPaged}
use netmalloc.System.Faults.{PagedPage, unmap_page-Paged, generic_malloc_vm_fault-Paged}
use netmalloc.System.Closing.{OutLists, close_vma-Sound}
use netmalloc.System.Steps.{
  WellFormed, Step, malloc, free, fault, close, outside, Reachable, start, after,
}

module _ {Page : Type 0} (ops : StorageOps Page) (zero_page : Page) where
  abbrev OutFormed : ℕ → State ops zero_page × Option ℕ → Type 0
  OutFormed hi (t, result) = WellFormed ops zero_page hi t

  -- The lists other than the areas come from an unmapping.
  Paged-WellFormed :
      (hi : ℕ) (s t : State ops zero_page)
      → hi < ulong_mod
      → AreasSound hi s.areas
      → Paged ops zero_page s t
      → WellFormed ops zero_page hi t
  Paged-WellFormed hi s t fits o p = record {
    fits = fits;
    areas = rw p.areas o;
    buffers = p.buffers;
    distinct = p.distinct;
  }

  generic_malloc-WellFormed :
      (hi : ℕ) (s : State ops zero_page) (kc : CreateAnswers) (k k' : UnmapAnswers)
      (pid mm size : ℕ)
      → WellFormed ops zero_page hi s
      → Grants kc hi s.areas mm size
      → hi + size < ulong_mod
      → Holds (OutFormed (hi + size)) (generic_malloc ops zero_page kc k k' s pid mm size)
  unfolding generic_malloc
  generic_malloc-WellFormed hi s kc k k' pid mm size w g fits =
      Holds-bind (OutFormed (hi + size)) (create_region kc s.areas pid mm size) _ λ out e.
        unmapped out.0 out.1 (
          Holds-some _ (create_region kc s.areas pid mm size)
            (create_region-Sound kc hi s.areas pid mm size g w.areas fits) e)
    where
      unmapped :
          (areas : Areas) (region : Option RegionStruct)
          → AreasSound (hi + size) areas
          → let created : State ops zero_page = record s { areas = areas } in
            Holds (OutFormed (hi + size)) (elim region [
              | none ↦ some (created, none)
              | some r ↦
                  Option.map
                    (λ out. (out.0, if is_negative out.1 then none else some r.virtual_start))
                    (unmap_page ops zero_page k k' created pid false)
            ])
      unmapped areas none o = record {
        fits = fits;
        areas = o;
        buffers = w.buffers;
        distinct = w.distinct;
      }
      unmapped areas (some r) o =
          let created : State ops zero_page = record s { areas = areas } in
          let unmapping = unmap_page ops zero_page k k' created pid false in
          Holds-map (OutFormed (hi + size)) _ unmapping (
            Holds-imp (OutPaged ops zero_page created) _ unmapping
              (λ out p. Paged-WellFormed (hi + size) created out.0 fits o p)
              (unmap_page-Paged ops zero_page k k' created pid w.buffers w.distinct))

  generic_free-WellFormed :
      (hi : ℕ) (s : State ops zero_page) (k k' : UnmapAnswers) (pid ptr : ℕ)
      → WellFormed ops zero_page hi s
      → Holds (OutFormed hi) (generic_free ops zero_page k k' s pid ptr)
  unfolding generic_free
  generic_free-WellFormed hi s k k' pid ptr w =
      let unmapping = unmap_page ops zero_page k k' s pid false in
      Holds-bind (OutFormed hi) unmapping _ λ out e.
        let p =
          Holds-some (OutPaged ops zero_page s) unmapping
            (unmap_page-Paged ops zero_page k k' s pid w.buffers w.distinct) e in
        let removing = remove_storage_pages ops zero_page out.0 pid ptr in
        Holds-bind (OutFormed hi) removing _ λ t f.
          let saved =
            Holds-some (Saved ops zero_page out.0) removing
              (remove_storage_pages-Saved ops zero_page out.0 pid ptr p.distinct) f in
          Holds-bind (OutFormed hi) (remove_region t.areas pid ptr) _ λ end g. record {
            fits = w.fits;
            areas =
                Holds-some _ (remove_region t.areas pid ptr)
                  (remove_region-Sound hi w.fits t.areas pid ptr
                    (rw (saved.areas, p.areas) w.areas))
                  g;
            buffers = rw saved.buffers p.buffers;
            distinct = saved.distinct;
          }

  -- Every call keeps the lists well formed, whatever branch it takes, and so does what happens between calls.
  pub Step-WellFormed :
      (hi hi' : ℕ) (s t : State ops zero_page)
      → WellFormed ops zero_page hi s
      → Step ops zero_page hi s hi' t
      → WellFormed ops zero_page hi' t
  Step-WellFormed _ _ s t w (malloc kc k k' pid mm size result g fits e) =
      Holds-some (OutFormed _) _ (generic_malloc-WellFormed _ s kc k k' pid mm size w g fits) e
  Step-WellFormed _ _ s t w (free k k' pid ptr vma e) =
      Holds-some (OutFormed _) _ (generic_free-WellFormed _ s k k' pid ptr w) e
  Step-WellFormed _ _ s t w (fault ku km pid address vma page away fresh e) =
      let p =
        Holds-some (PagedPage ops zero_page s) _
          (generic_malloc_vm_fault-Paged ops zero_page ku km s pid address vma w.buffers w.distinct
            away fresh)
          e in
      Paged-WellFormed _ s t w.fits w.areas p
  Step-WellFormed _ _ s t w (close vma released e) =
      let c =
        Holds-some (OutLists ops zero_page _) _
          (close_vma-Sound ops zero_page _ s vma
            (record { areas = w.areas; buffers = w.buffers; distinct = w.distinct }))
          e in
      record { fits = w.fits; areas = c.areas; buffers = c.buffers; distinct = c.distinct }
  Step-WellFormed _ _ s _ w (outside vmas memory keeps) = record {
    fits = w.fits;
    areas = AllSound-keeps s.areas.vmas vmas _ s.areas.area_list keeps w.areas;
    buffers = w.buffers;
    distinct = w.distinct;
  }

  -- In every state that is reached from empty lists by calls that return, on any branch and with
  -- any answers of the storage, where the bound of the regions, raised by each allocation by the
  -- size that is asked for, stays below 2 ^ 64, and by what the kernel and the processes do in
  -- between: the regions of each area are in order from the start of its structure on and up to
  -- that bound, without overlap, no two free ones are neighbours and the last is in use; each
  -- process has at most one buffer, no page of memory is in two places, and no process has two
  -- pages mapped at one address; and no page is listed as stored twice. What the kernel has to
  -- grant is that a new structure starts at or below the bound and is nobody else's, that fresh
  -- memory is nobody else's and does not look like a free region, that a fault is at an address
  -- that is not mapped, and that no structure's start moves.
  pub Reachable-WellFormed :
      (hi : ℕ) (s : State ops zero_page)
      → Reachable ops zero_page hi s
      → WellFormed ops zero_page hi s
  Reachable-WellFormed _ s (start fits l b p) = record {
    fits = fits;
    areas = rw l tt;
    buffers = rw b BuffersSound-nil;
    distinct = rw p tt;
  }
  Reachable-WellFormed _ t (after {s = s} reached step) =
      Step-WellFormed _ _ s t (Reachable-WellFormed _ s reached) step
