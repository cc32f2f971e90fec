-- ===== src/Region/Space.antt =====
-- The account `free_space` of an area, against the bytes of its regions in use.
pub mod Add
use netmalloc.Common.{
  ℕ, ◌+◌, ◌-◌, ◌<◌, ◌≡◌, refl, ap, ◌∙◌, some, List, [], ◌∷◌, arith, ◌==◌, if◌then◌else◌, rebuild,
  add64, ulong_mod, add64-eq_add, Holds, Holds-intro,
}
use netmalloc.Region.Merge.{IsFree, merge_next-free, merge_next-before, merge_prev-IsFree}
use netmalloc.Region.{
  RegionStruct, AreaStruct, Cursor, nodes, merge_next, Place, node, head, merge_prev, remove_last,
  merge_neighbors_region, free_region,
}

-- The bytes of the regions in use.
unfoldable pub used_size : List RegionStruct → ℕ
used_size [] = 0
used_size (r ∷ l) = (if r.free == 0 then r.size else 0) + used_size l

pub used_size-rebuild :
    (bs l : List RegionStruct) → used_size (rebuild bs l) ≡ used_size bs + used_size l
unfolding used_size rebuild
used_size-rebuild [] l = omega arith
used_size-rebuild (b ∷ bs) l = ground (arith, used_size-rebuild bs (b ∷ l))

abbrev place_size : Place → ℕ
place_size (node c) = used_size c.before + used_size (c.focus ∷ c.after)
place_size (head size l) = used_size l

merge_next-size : (c : Cursor) → used_size (merge_next c).after ≡ used_size c.after
unfolding merge_next used_size
merge_next-size c = ground arith

merge_prev-size :
    (area : AreaStruct) (c : Cursor)
    → c.focus.free ≡ 1
    → place_size (merge_prev area c) ≡ used_size c.before + used_size c.after
unfolding merge_prev used_size
merge_prev-size area c f = ground arith

remove_last-size :
    (area : AreaStruct) (p : Place)
    → IsFree p
    → (m : AreaStruct) → remove_last area p ≡ some m
    → (used_size m.regions ≡ place_size p) × (m.free_space ≡ area.free_space)
unfolding remove_last used_size
remove_last-size area (node c) f m e =
    ground (arith, used_size-rebuild c.before [], used_size-rebuild c.before (c.focus ∷ c.after))
remove_last-size area (head size []) f m e = cc
remove_last-size area (head size (x ∷ l)) f m e = ground arith

pub merge_neighbors_region-size :
    (area : AreaStruct) (c : Cursor)
    → c.focus.free ≡ 1
    → (m : AreaStruct) → merge_neighbors_region area c ≡ some m
    → (used_size m.regions ≡ used_size c.before + used_size c.after)
      × (m.free_space ≡ area.free_space)
unfolding merge_neighbors_region
merge_neighbors_region-size area c f m e =
    let c' = merge_next c in
    let f' = merge_next-free c ∙ f in
    let r = remove_last-size area (merge_prev area c') (merge_prev-IsFree area c' f') m e in
    (r.0 ∙ merge_prev-size area c' f' ∙ rw (merge_next-before c, merge_next-size c), r.1)

-- What an area accounts for: the free space that it claims and the regions in use.
abbrev pub accounted : AreaStruct → ℕ
accounted area = area.free_space + used_size area.regions

-- Freeing a region in use keeps the account of its area. Freeing one that is free already adds its
-- size to the account.
pub free_region-accounted :
    (area : AreaStruct) (c : Cursor)
    → area.regions ≡ nodes c
    → area.free_space + c.focus.size < ulong_mod
    → Holds
        (λ m. accounted m ≡ accounted area + (if c.focus.free == 0 then 0 else c.focus.size))
        (free_region area c)
unfolding free_region
free_region-accounted area c whole fits = Holds-intro _ (free_region area c) λ m e.
    let r =
      merge_neighbors_region-size _ (record c { focus = record c.focus { free = 1 } }) refl m e in
    unfold used_size in
    ground (
      arith,
      r,
      ap used_size whole,
      used_size-rebuild c.before (c.focus ∷ c.after),
      add64-eq_add area.free_space c.focus.size fits,
    )
