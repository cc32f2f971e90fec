-- ===== src/Vma.antt =====
-- src/vma.c: the memory maps of processes. The heap holds the `vm_area_struct`s by address, and a
-- map lists the addresses of its structures in the order of `vm_next`. A result `none` is a read
-- through a pointer to no such structure. `insert_vm_struct`, `do_munmap` and kallsyms are the
-- kernel's and enter as arguments; `vm_flags`, `vm_page_prot` and `vm_ops`, which nothing here reads, are left out.
pub mod FreeSpace
use mathlib.Core.Option
use netmalloc.Common.{
  ℕ, Bool, true, false, Option, none, some, List, [], ◌∷◌, ◌==◌, leb, if◌then◌else◌, add64, sub64,
  ◌>>=◌,
}

abbrev pub page_size : ℕ
page_size = 4096

pub record VmAreaStruct : Type 0 where
  pub vm_mm : ℕ
  pub vm_start : ℕ
  pub vm_end : ℕ

-- `mmap mm` is the list that starts at `mm->mmap`.
pub record Vmas : Type 0 where
  pub heap : ℕ → Option VmAreaStruct
  pub mmap : ℕ → List ℕ

abbrev pub store : ℕ → Option VmAreaStruct → Vmas → Vmas
store p v s = record s { heap = λ q. if p == q then v else s.heap q }

-- The loop of `get_free_space`, with the local `end`.
unfoldable pub scan_maps : ℕ → ℕ → List VmAreaStruct → ℕ
scan_maps size end [] = end
scan_maps size end (area ∷ areas) =
    if leb size (sub64 area.vm_start end) then end else scan_maps size area.vm_end areas

unfoldable pub get_free_space : List VmAreaStruct → ℕ → ℕ
unfolding scan_maps
get_free_space areas size = scan_maps size page_size areas

-- The structures of a list of pointers.
unfoldable pub structs : Vmas → List ℕ → Option (List VmAreaStruct)
structs s [] = some []
structs s (p ∷ ps) = do v ← s.heap p; vs ← structs s ps; some (v ∷ vs)

unfoldable pub first : List ℕ → ℕ
first [] = 0
first (r ∷ rs) = r

-- The pointer behind `p`, 0 for NULL.
unfoldable pub next_of : ℕ → List ℕ → ℕ
unfolding first
next_of p [] = 0
next_of p (q ∷ ps) = if q == p then first ps else next_of p ps

unfoldable pub vm_next : Vmas → ℕ → Option ℕ
unfolding next_of
vm_next s p = do v ← s.heap p; some (next_of p (s.mmap v.vm_mm))

unfoldable pub is_last_vma : Vmas → ℕ → Option Bool
unfolding vm_next
is_last_vma s p = do next ← vm_next s p; some (next == 0)

-- Is the pointer in the list?
unfoldable pub listed : ℕ → List ℕ → Bool
listed p [] = false
listed p (q ∷ ps) = if p == q then true else listed p ps

unfoldable pub is_existing_vma : Vmas → ℕ → Option Bool
unfolding listed
is_existing_vma s p = do v ← s.heap p; some (listed p (s.mmap v.vm_mm))

-- What the kernel answers to `add_vma`: whether the symbol `insert_vm_struct` is known, the
-- structure that kzalloc returns, 0 for NULL, and the maps after a successful insertion.
pub record Answers : Type 0 where
  pub symbol : Bool
  pub kzalloc : ℕ
  pub insert_vm_struct : Vmas → ℕ → ℕ → Option Vmas

-- The new structure, in the first gap of the map; `none` in the pair is -ENOMEM.
unfoldable pub create_vm_area_struct : Answers → Vmas → ℕ → ℕ → Option (Vmas × Option ℕ)
unfolding structs get_free_space
create_vm_area_struct k s mm size = if k.kzalloc == 0 then some (s, none) else do
  areas ← structs s (s.mmap mm)
  let start = get_free_space areas size
  let vma : VmAreaStruct = record { vm_mm = mm; vm_start = start; vm_end = add64 start size }
  some (store k.kzalloc (some vma) s, some k.kzalloc)

-- The pointer in the result is 0 on an error.
unfoldable pub add_vma : Answers → Vmas → ℕ → ℕ → Option (Vmas × ℕ)
add_vma k s mm size =
    if k.symbol
    then (do
      (s', made) ← create_vm_area_struct k s mm size
      some (elim made [
        | none ↦ (s', 0)
        | some vma ↦ elim (k.insert_vm_struct s' mm vma) [
          | none ↦ (store vma none s', 0)
          | some s'' ↦ (s'', vma)
        ]
      ]))
    else some (s, 0)

-- `symbol` is whether `do_munmap` is known, and the next arguments are that call, for a map, a start
-- and a length, and the result where nothing is done.
unfoldable pub remove_vma {ℓ} :
    {A : Type ℓ} → (symbol : Bool) → (do_munmap : ℕ → ℕ → ℕ → Option A) → A → Vmas → ℕ → Option A
remove_vma symbol do_munmap unchanged s vma =
    if symbol
    then (do v ← s.heap vma; do_munmap v.vm_mm v.vm_start (sub64 v.vm_end v.vm_start))
    else some unchanged
