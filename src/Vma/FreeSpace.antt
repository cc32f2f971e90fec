-- ===== src/Vma/FreeSpace.antt =====
-- Where `get_free_space` puts a new structure.
use mathlib.Core.Path.{subst}
use netmalloc.Common.Chain
use netmalloc.Common.{
  ℕ, ◌+◌, ◌≤◌, ◌<◌, ◌≡◌, sym, ◌⊎◌, inl, inr, List, [], ◌∷◌, arith, leb, Bool-cases, leb→le, true,
  false, sub64, sub64-eq_sub, ulong_mod,
}
use netmalloc.Vma.{VmAreaStruct, page_size, scan_maps, get_free_space}

-- The structures of a map are in address order and do not overlap.
abbrev pub Sorted : ℕ → List VmAreaStruct → ℕ → Type 0
Sorted lo areas hi =
    Chain.Chain {S = ℕ} (λ s v. (s ≤ v.vm_start) × (v.vm_start ≤ v.vm_end)) (λ v. v.vm_end)
      (λ s. s ≤ hi) lo areas

-- No structure overlaps the addresses from `start` up to `end`.
abbrev pub IsGap : ℕ → ℕ → List VmAreaStruct → Type 0
IsGap start end [] = Unit {0}
IsGap start end (v ∷ areas) = ((v.vm_end ≤ start) ⊎ (end ≤ v.vm_start)) × IsGap start end areas

Sorted-le : (lo hi : ℕ) (areas : List VmAreaStruct) → Sorted lo areas hi → lo ≤ hi
Sorted-le lo hi [] s = s
Sorted-le lo hi (v ∷ areas) s = omega (arith, Sorted-le v.vm_end hi areas s.1)

Sorted-above :
    (start end lo hi : ℕ) (areas : List VmAreaStruct)
    → Sorted lo areas hi
    → end ≤ lo
    → IsGap start end areas
Sorted-above start end lo hi [] s h = tt
Sorted-above start end lo hi (v ∷ areas) s h =
    (inr (omega arith), Sorted-above start end v.vm_end hi areas s.1 (omega arith))

scan_maps-fits :
    (size end : ℕ) (v : VmAreaStruct) (areas : List VmAreaStruct)
    → leb size (sub64 v.vm_start end) ≡ true
    → scan_maps size end (v ∷ areas) ≡ end
unfolding scan_maps
scan_maps-fits size end v areas e = rw e

scan_maps-skips :
    (size end : ℕ) (v : VmAreaStruct) (areas : List VmAreaStruct)
    → leb size (sub64 v.vm_start end) ≡ false
    → scan_maps size end (v ∷ areas) ≡ scan_maps size v.vm_end areas
unfolding scan_maps
scan_maps-skips size end v areas e = rw e

abbrev Placed : ℕ → ℕ → ℕ → List VmAreaStruct → ℕ → Type 0
Placed size lo hi areas e = IsGap e (e + size) areas × (lo ≤ e) × (e ≤ hi)

scan_maps-IsGap :
    (size lo hi : ℕ) (areas : List VmAreaStruct)
    → hi < ulong_mod
    → Sorted lo areas hi
    → Placed size lo hi areas (scan_maps size lo areas)
scan_maps-IsGap size lo hi [] fits s = unfold scan_maps in (tt, omega arith, s)
scan_maps-IsGap size lo hi (v ∷ areas) fits s =
    let end = Sorted-le v.vm_end hi areas s.1 in
    let d = sub64-eq_sub v.vm_start lo s.0.0 (omega arith) in
    elim (Bool-cases (leb size (sub64 v.vm_start lo))) [
      | inl e ↦
          let room : lo + size ≤ v.vm_start = omega (arith, d, leb→le size _ e, s.0.0) in
          subst (Placed size lo hi (v ∷ areas)) (sym (scan_maps-fits size lo v areas e)) (
            (inr room, Sorted-above lo (lo + size) v.vm_end hi areas s.1 (omega arith)),
            omega arith,
            omega arith,
          )
      | inr e ↦
          let ih = scan_maps-IsGap size v.vm_end hi areas fits s.1 in
          subst (Placed size lo hi (v ∷ areas)) (sym (scan_maps-skips size lo v areas e))
            ((inl ih.1, ih.0), omega arith, ih.2)
    ]

-- `get_free_space` finds a gap: `size` bytes from the address that it returns on no structure of
-- the map lies, if the map is in address order, starts behind the first page, and ends at or below
-- `hi`. The address is not in the first page.
pub get_free_space-IsGap :
    (size hi : ℕ) (areas : List VmAreaStruct)
    → hi < ulong_mod
    → Sorted page_size areas hi
    → let e = get_free_space areas size in IsGap e (e + size) areas × (page_size ≤ e) × (e ≤ hi)
unfolding get_free_space
get_free_space-IsGap size hi areas fits s = scan_maps-IsGap size page_size hi areas fits s
