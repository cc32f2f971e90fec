-- ===== src/Area/Extend.antt =====
-- Growing an area together with its structure.
use netmalloc.Common.{
  ℕ, ◌+◌, ◌-◌, ◌%◌, ◌≤◌, ◌<◌, ◌≡◌, ◌≢◌, refl, inl, inr, Bool, true, false, Option, none, some,
  arith, ◌==◌, ltb, if◌then◌else◌, add64, add64-eq_add, sub64-eq_sub, ulong_mod, Bool-cases,
  Returns,
}
use netmalloc.Align.{align_ceil}
use netmalloc.Align.Bounds.{align_ceil-bounds}
use netmalloc.Vma.{store, VmAreaStruct, Vmas, page_size, next_of}
use netmalloc.Region.{AreaStruct}
use netmalloc.Area.{extra_size, extend_vma, page_shift}

-- The numbers of a sensible call: the area lacks space, and nothing wraps.
pub record Lacks (area : AreaStruct) (size : ℕ) : Type 0 where
  pub short : area.free_space < size
  pub within : area.free_space ≤ area.size
  pub fits : area.size + size + page_size < ulong_mod

-- The extension is what the space lacks, rounded so that the area ends at a page.
pub extra_size_bounds :
    (area : AreaStruct) (size : ℕ)
    → Lacks area size
    → (size ≤ area.free_space + extra_size area size)
      × ((area.size + extra_size area size) % page_size ≡ 0)
      × (extra_size area size < size + page_size)
extra_size_bounds area size l =
    let need = area.size + size - area.free_space in
    rw
      (
        add64-eq_add area.size size (omega arith),
        sub64-eq_sub (area.size + size) area.free_space (omega arith) (omega arith),
      )
      (let b = align_ceil-bounds need page_shift (omega arith) in
        rw
          (sub64-eq_sub (align_ceil need page_shift) area.size (omega (arith, b))
            (omega (arith, b)))
          (omega (arith, b), omega (arith, b), omega (arith, b)))

-- The outcome of an extension with the next structure at `next`.
abbrev pub Extended : Vmas → AreaStruct → ℕ → VmAreaStruct → ℕ → Option (Vmas × AreaStruct) → Type 0
Extended s area size v next none =
    (n : VmAreaStruct) × (s.heap next ≡ some n)
    × (next ≢ 0)
    × (n.vm_start ≤ v.vm_end + extra_size area size)
Extended s area size v next (some (s', area')) =
    let extra = extra_size area size in
    (area'.vma ≡ area.vma)
    × (area'.pid ≡ area.pid)
    × (area'.regions ≡ area.regions)
    × (s'.heap area.vma ≡ some (record v { vm_end = v.vm_end + extra }))
    × (area'.size ≡ area.size + extra)
    × (area'.free_space ≡ area.free_space + extra)
    × (size ≤ area'.free_space)
    × (area'.size % page_size ≡ 0)
    × ((n : VmAreaStruct) → next ≢ 0 → s.heap next ≡ some n → v.vm_end + extra < n.vm_start)

module _ (s : Vmas) (area : AreaStruct) (size : ℕ) (v : VmAreaStruct) (next : ℕ) where
  -- What `extend_vma` computes, once the pointers are read.
  extended : Bool → Option (Vmas × AreaStruct)
  extended room =
      if room
      then some (
        store area.vma (some (record v { vm_end = add64 v.vm_end (extra_size area size) })) s,
        record area {
          size = add64 area.size (extra_size area size);
          free_space = add64 area.free_space (extra_size area size);
        },
      )
      else none

  extended-Extended :
      (room : Bool)
      → Lacks area size
      → v.vm_end + size + page_size < ulong_mod
      → (room ≡ false
          → (n : VmAreaStruct) × (s.heap next ≡ some n)
            × (next ≢ 0)
            × (n.vm_start ≤ v.vm_end + extra_size area size))
      → (room ≡ true
          → (n : VmAreaStruct) → next ≢ 0
          → s.heap next ≡ some n
          → v.vm_end + extra_size area size < n.vm_start)
      → Extended s area size v next (extended room)
  unfolding extended
  extended-Extended false l fits blocked free = blocked refl
  extended-Extended true l fits blocked free =
      let b = extra_size_bounds area size l in
      let e = extra_size area size in
      rw
        (
          add64-eq_add v.vm_end e (omega (arith, b)),
          add64-eq_add area.size e (omega (arith, b)),
          add64-eq_add area.free_space e (omega (arith, b)),
        )
        (refl, refl, refl, ground arith, refl, refl, b.0, b.1, free refl)

  -- An extension of an area that lacks space returns, where its structure and the next one exist and no
  -- sum wraps. It is refused only if the next structure starts at or below the new end; otherwise the
  -- area has at least `size` bytes free, has grown as much as its structure, has a size of whole pages
  -- and the same regions, process and structure, and ends below the next structure.
  pub extend_vma-Extended :
      s.heap area.vma ≡ some v
      → next_of area.vma (s.mmap v.vm_mm) ≡ next
      → (next ≢ 0 → (n : VmAreaStruct) × (s.heap next ≡ some n))
      → Lacks area size
      → v.vm_end + size + page_size < ulong_mod
      → Returns (Extended s area size v next) (extend_vma s area size)
  unfolding extend_vma extended
  extend_vma-Extended hv hn behind l fits =
      let b = extra_size_bounds area size l in
      let sum = add64-eq_add v.vm_end (extra_size area size) (omega (arith, b)) in
      elim (Bool-cases (next == 0)) [
        | inl z ↦
            rw (hv, hn, z)
              (extended-Extended true l fits (λ e. cc) (λ e n h. absurd (h (ground arith))))
        | inr z ↦
            let (n, h) = behind (ground arith) in
            rw (hv, hn, z, h)
              (extended-Extended (ltb (add64 v.vm_end (extra_size area size)) n.vm_start) l fits
                (λ e. (n, h, ground arith, ground (arith, sum))) (λ e m k hm. ground (arith, sum)))
      ]
