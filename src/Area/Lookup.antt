-- ===== src/Area/Lookup.antt =====
-- Which addresses a fault may touch, and which area an address belongs to.
use netmalloc.Common.{
  ℕ, ◌+◌, ◌%◌, ◌≤◌, ◌<◌, ◌≡◌, refl, inl, inr, Bool, false, ◌&&◌, ◌||◌, Option, none, some, List, [],
  ◌∷◌, arith, ◌==◌, ltb, leb, rebuild, add64-eq_add, ulong_mod, Bool-cases, Returns, Returns-imp,
}
use netmalloc.Align.Bounds.{align_floor-bounds, align_ceil-bounds}
use netmalloc.Vma.{VmAreaStruct, Vmas, page_size}
use netmalloc.Region.{RegionStruct, AreaStruct}
use netmalloc.Region.Order.{end_of, Ordered, Ordered-le}
use netmalloc.Area.{
  Areas, AreaCursor, area_nodes, find_area, get_area, valid_region, is_valid_address, page_start,
  page_end, page_shift,
}

-- A region in use has a byte in the page, or lies inside it.
unfoldable pub touches : ℕ → List RegionStruct → Bool
touches page [] = false
touches page (r ∷ l) =
    (r.free == 0 && (ltb r.virtual_start (page + page_size) && ltb page (end_of r)))
    || touches page l

page_range :
    (page : ℕ) (r : RegionStruct)
    → page % page_size ≡ 0
    → end_of r + page_size < ulong_mod
    → (leb (page_start r) page && ltb page (page_end r))
      ≡ (ltb r.virtual_start (page + page_size) && ltb page (end_of r))
page_range page r p fits = rw (add64-eq_add r.virtual_start r.size (omega arith)) (
    ground (
      arith,
      align_floor-bounds r.virtual_start page_shift,
      align_ceil-bounds (end_of r) page_shift fits,
    ))

valid_region-touches :
    (page lo hi : ℕ) (l : List RegionStruct)
    → page % page_size ≡ 0
    → hi + page_size < ulong_mod
    → Ordered lo l hi
    → valid_region page l ≡ touches page l
unfolding valid_region touches
valid_region-touches page lo hi [] p fits o = refl
valid_region-touches page lo hi (r ∷ l) p fits o =
    let end = Ordered-le (end_of r) hi l o.1 in
    rw (page_range page r p (omega arith), valid_region-touches page (end_of r) hi l p fits o.1)
      (ground arith)

-- The regions of every area are in order and end at or below `hi`.
abbrev pub AllOrdered : ℕ → List AreaStruct → Type 0
AllOrdered hi [] = Unit {0}
AllOrdered hi (a ∷ l) = ((lo : ℕ) × Ordered lo a.regions hi) × AllOrdered hi l

-- Some area on the structure has a region in use that touches the page.
unfoldable pub touched : ℕ → ℕ → List AreaStruct → Bool
touched page vma [] = false
touched page vma (a ∷ l) = (a.vma == vma && touches page a.regions) || touched page vma l

-- Where the regions of all areas are in order and end more than a page before 2 ^ 64, the page at a
-- page boundary may be accessed exactly if a region in use of an area on that structure touches it:
-- the region starts before the end of the page and ends behind its start. So the rounding loses no
-- byte of a region; a region of no bytes counts for the page that it lies inside.
pub is_valid_address-touched :
    (page vma hi : ℕ) (l : List AreaStruct)
    → page % page_size ≡ 0
    → hi + page_size < ulong_mod
    → AllOrdered hi l
    → is_valid_address page vma l ≡ touched page vma l
unfolding is_valid_address touched
is_valid_address-touched page vma hi [] p fits o = refl
is_valid_address-touched page vma hi (a ∷ l) p fits o =
    rw
      (
        valid_region-touches page o.0.0 hi a.regions p fits o.0.1,
        is_valid_address-touched page vma hi l p fits o.1,
      )
      (ground arith)

-- No area of the process covers the address.
abbrev pub Misses : Vmas → ℕ → ℕ → List AreaStruct → Type 0
Misses s pid address [] = Unit {0}
Misses s pid address (a ∷ l) =
    (a.pid ≡ pid
      → (v : VmAreaStruct) → s.heap a.vma ≡ some v
      → ¬ ((v.vm_start ≤ address) × (address < v.vm_end)))
    × Misses s pid address l

-- Every area of the process has a structure.
abbrev pub Mapped : Vmas → ℕ → List AreaStruct → Type 0
Mapped s pid [] = Unit {0}
Mapped s pid (a ∷ l) = (a.pid ≡ pid → (v : VmAreaStruct) × (s.heap a.vma ≡ some v)) × Mapped s pid l

-- What the search for an address among the areas of a process finds: an area of `all` that belongs
-- to the process and whose structure covers the address, or NULL where none of `l` does.
abbrev pub Located : Vmas → ℕ → ℕ → List AreaStruct → List AreaStruct → Option AreaCursor → Type 0
Located s pid address all l none = Misses s pid address l
Located s pid address all l (some c) =
    (area_nodes c ≡ all)
    × (c.area.pid ≡ pid)
    × ((v : VmAreaStruct) × (s.heap c.area.vma ≡ some v)
        × (v.vm_start ≤ address)
        × (address < v.vm_end))

module _ (s : Vmas) (pid address : ℕ) where
  Located-cons :
      (all : List AreaStruct) (a : AreaStruct) (l : List AreaStruct)
      → (a.pid ≡ pid
          → (v : VmAreaStruct) → s.heap a.vma ≡ some v
          → ¬ ((v.vm_start ≤ address) × (address < v.vm_end)))
      → (r : Option AreaCursor) → Located s pid address all l r
      → Located s pid address all (a ∷ l) r
  Located-cons all a l h none m = (h, m)
  Located-cons all a l h (some c) m = m

  find_area-Located :
      (bs l : List AreaStruct)
      → Mapped s pid l
      → Returns (Located s pid address (rebuild bs l) l) (find_area s pid address bs l)
  unfolding find_area rebuild
  find_area-Located bs [] m = tt
  find_area-Located bs (a ∷ l) m =
      let ih = find_area-Located (a ∷ bs) l m.1 in
      let all = rebuild bs (a ∷ l) in
      elim (Bool-cases (a.pid == pid)) [
        | inl e ↦
            let (v, hv) = m.0 (ground arith) in
            elim (Bool-cases (leb v.vm_start address && ltb address v.vm_end)) [
              | inl c ↦ rw (e, hv, c) (refl, ground arith, (v, hv, ground arith, ground arith))
              | inr c ↦
                  rw (e, hv, c)
                    (Returns-imp (Located s pid address all l) (Located s pid address all (a ∷ l))
                      (find_area s pid address (a ∷ bs) l)
                      (Located-cons all a l λ _ w hw. ground arith) ih)
            ]
        | inr e ↦ rw e (
            Returns-imp (Located s pid address all l) (Located s pid address all (a ∷ l))
              (find_area s pid address (a ∷ bs) l) (Located-cons all a l λ k. absurd (ground arith))
              ih)
      ]

-- `get_area` returns, if every area of the process has its structure: an area of the process whose
-- structure covers the address, or NULL exactly where none does.
pub get_area-Located :
    (s : Areas) (pid address : ℕ)
    → Mapped s.vmas pid s.area_list
    → Returns (Located s.vmas pid address s.area_list s.area_list) (get_area s pid address)
unfolding get_area rebuild
get_area-Located s pid address m = find_area-Located s.vmas pid address [] s.area_list m
