-- ===== src/Area/Container.antt =====
-- The area that an allocation is placed in.
use netmalloc.Common.{ℕ, ◌+◌, ◌≤◌, ◌<◌, ◌≡◌, ◌≢◌, Option, none, some, List, [], ◌∷◌, ulong_mod}
use netmalloc.Vma.{VmAreaStruct, Vmas, page_size, next_of}
use netmalloc.Region.{AreaStruct}
use netmalloc.Area.{Areas, AreaCursor, area_nodes}

-- An area whose structure can be read, together with the next one, and whose numbers do not wrap.
pub record Sensible (s : Vmas) (size : ℕ) (a : AreaStruct) : Type 0 where
  pub vma : VmAreaStruct
  pub found : s.heap a.vma ≡ some vma
  pub next :
      next_of a.vma (s.mmap vma.vm_mm) ≢ 0
      → (n : VmAreaStruct) × (s.heap (next_of a.vma (s.mmap vma.vm_mm)) ≡ some n)
  pub within : a.free_space ≤ a.size
  pub fits : a.size + size + page_size < ulong_mod
  pub fits_end : vma.vm_end + size + page_size < ulong_mod

-- The areas of the process are sensible.
abbrev pub AllSensible : Vmas → ℕ → ℕ → List AreaStruct → Type 0
AllSensible s pid size [] = Unit {0}
AllSensible s pid size (a ∷ l) = (a.pid ≡ pid → Sensible s size a) × AllSensible s pid size l

-- The container, if there is one, is an area of the process in the list, and claims enough space.
abbrev pub Contains : ℕ → ℕ → Areas × Option AreaCursor → Type 0
Contains pid size (s, none) = Unit {0}
Contains pid size (s, some c) =
    (area_nodes c ≡ s.area_list) × (c.area.pid ≡ pid) × (size ≤ c.area.free_space)
