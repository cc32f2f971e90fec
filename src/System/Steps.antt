-- ===== src/System/Steps.antt =====
-- The calls that reach the module, one after another under its lock, with what the kernel does in
-- between: the states that can be reached from an empty start.
use netmalloc.Common.{ℕ, ◌+◌, ◌<◌, ◌≡◌, Option, some, List, [], ulong_mod, All}
use netmalloc.Storage.{StorageOps}
use netmalloc.StoredPage.Set.{Distinct}
use netmalloc.MappedBuffer.{Release}
use netmalloc.Vma.{Vmas}
use netmalloc.Area.{CreateAnswers}
use netmalloc.Pager.{State, UnmapAnswers, MapAnswers, generic_malloc_vm_fault}
use netmalloc.Entry.{close_vma, generic_free, generic_malloc}
use netmalloc.System.Areas.{AreasSound, KeepsStart, Grants}
use netmalloc.System.Buffers.{BuffersSound, FreshPages, NotMapped}

module _ {Page : Type 0} (ops : StorageOps Page) (zero_page : Page) where
  -- The lists are sound, with all regions up to `hi`.
  pub record WellFormed (hi : ℕ) (s : State ops zero_page) : Type 0 where
    pub fits : hi < ulong_mod
    pub areas : AreasSound hi s.areas
    pub buffers : BuffersSound s.buffers
    pub distinct : Distinct s.stored_pages

  -- One call that returns, or one act of the kernel and the processes, which change the content of the
  -- memory and the maps but move no start of an area's structure. A bad pointer is not a step.
  -- An allocation raises the bound `hi` by its size, and the sum must be below 2 ^ 64, which the code does
  -- not check.
  pub data Step : ℕ → State ops zero_page → ℕ → State ops zero_page → Type 0 where
    malloc :
        {hi : ℕ} {s t : State ops zero_page} (kc : CreateAnswers) (k k' : UnmapAnswers)
        (pid mm size : ℕ) (result : Option ℕ)
        → Grants kc hi s.areas mm size
        → hi + size < ulong_mod
        → generic_malloc ops zero_page kc k k' s pid mm size ≡ some (t, result)
        → Step hi s (hi + size) t
    free :
        {hi : ℕ} {s t : State ops zero_page} (k k' : UnmapAnswers) (pid ptr : ℕ) (vma : Option ℕ)
        → generic_free ops zero_page k k' s pid ptr ≡ some (t, vma)
        → Step hi s hi t
    fault :
        {hi : ℕ} {s t : State ops zero_page} (ku : UnmapAnswers) (km : MapAnswers)
        (pid address vma : ℕ) (page : Option ℕ)
        → NotMapped pid address s.buffers
        → FreshPages km.buffer s.buffers
        → generic_malloc_vm_fault ops zero_page ku km s pid address vma ≡ some (t, page)
        → Step hi s hi t
    close :
        {hi : ℕ} {s t : State ops zero_page} (vma : ℕ) (released : List Release)
        → close_vma ops zero_page s vma ≡ some (t, released)
        → Step hi s hi t
    outside :
        {hi : ℕ} {s : State ops zero_page} (vmas : Vmas) (memory : ℕ → Page)
        → All (λ a. KeepsStart s.areas.vmas vmas a.vma) s.areas.area_list
        → Step hi s hi (record s { areas = record s.areas { vmas = vmas }; memory = memory })

  -- Reached from a start with empty lists.
  pub data Reachable : ℕ → State ops zero_page → Type 0 where
    start :
        {hi : ℕ} {s : State ops zero_page}
        → hi < ulong_mod
        → s.areas.area_list ≡ []
        → s.buffers ≡ []
        → s.stored_pages ≡ []
        → Reachable hi s
    after :
        {hi hi' : ℕ} {s t : State ops zero_page}
        → Reachable hi s
        → Step hi s hi' t
        → Reachable hi' t
