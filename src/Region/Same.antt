-- ===== src/Region/Same.antt =====
-- The operations on the regions of an area leave its structure and its process alone.
use netmalloc.Common.{
  ℕ, ◌≡◌, refl, inl, inr, Bool, true, false, ◌&&◌, Option, none, some, List, [], ◌∷◌, ◌==◌, ltb,
  Bool-cases, Holds, Holds-map, Holds-imp,
}
use netmalloc.Region.{
  RegionStruct, AreaStruct, Cursor, Place, node, head, merge_next, merge_prev, remove_last,
  merge_neighbors_region, add_region_after, split_region, scan_regions, get_free_region,
  append_region, or_append, add_region, free_region,
}
use netmalloc.Region.Merge.{cut_area, split_cursor, split_region-eq}

abbrev pub SameOwner : AreaStruct → AreaStruct → Type 0
SameOwner a b = (b.vma ≡ a.vma) × (b.pid ≡ a.pid)

remove_last-SameOwner : (a : AreaStruct) (p : Place) → Holds (SameOwner a) (remove_last a p)
unfolding remove_last
remove_last-SameOwner a (node c) = go c.before c.focus c.after
  where
    go :
        (bs : List RegionStruct) (r : RegionStruct) (l : List RegionStruct)
        → Holds (SameOwner a) (remove_last a (node (record { before = bs; focus = r; after = l })))
    go bs r [] = (refl, refl)
    go bs r (x ∷ l) = (refl, refl)
remove_last-SameOwner a (head size []) = tt
remove_last-SameOwner a (head size (x ∷ l)) = (refl, refl)

merge_neighbors_region-SameOwner :
    (a : AreaStruct) (c : Cursor) → Holds (SameOwner a) (merge_neighbors_region a c)
unfolding merge_neighbors_region
merge_neighbors_region-SameOwner a c = remove_last-SameOwner a (merge_prev a (merge_next c))

pub free_region-SameOwner : (a : AreaStruct) (c : Cursor) → Holds (SameOwner a) (free_region a c)
unfolding free_region
free_region-SameOwner a c = merge_neighbors_region-SameOwner _ _

abbrev OutOwner : AreaStruct → AreaStruct × Option RegionStruct → Type 0
OutOwner a out = SameOwner a out.0

split_region-SameOwner :
    (ok : Bool) (lo : ℕ) (a : AreaStruct) (size : ℕ) (bs : List RegionStruct) (r : RegionStruct)
    (l : List RegionStruct)
    → Holds (OutOwner a) (split_region ok lo a size bs r l)
unfolding split_region
split_region-SameOwner false lo a size bs r l = (refl, refl)
split_region-SameOwner true lo a size bs r l = rw (split_region-eq lo a size bs r l) (
    Holds-map (OutOwner a) _ (merge_neighbors_region _ (split_cursor bs r size l))
      (merge_neighbors_region-SameOwner (cut_area a size bs r l) (split_cursor bs r size l)))

scan_regions-SameOwner :
    (ok : Bool) (lo : ℕ) (a : AreaStruct) (size : ℕ) (bs l : List RegionStruct)
    → Holds (OutOwner a) (scan_regions ok lo a size bs l)
unfolding scan_regions
scan_regions-SameOwner ok lo a size bs [] = (refl, refl)
scan_regions-SameOwner ok lo a size bs (r ∷ l) = elim (Bool-cases (r.size == size && r.free == 1)) [
  | inl e ↦ rw e (refl, refl)
  | inr e ↦ elim (Bool-cases (ltb size r.size && r.free == 1)) [
    | inl f ↦ rw (e, f) (split_region-SameOwner ok lo a size bs r l)
    | inr f ↦ rw (e, f) (scan_regions-SameOwner ok lo a size (r ∷ bs) l)
  ]
]

or_append-SameOwner :
    (ok : Bool) (lo size : ℕ) (a : AreaStruct) (out : AreaStruct × Option RegionStruct)
    → OutOwner a out
    → OutOwner a (or_append ok lo size out)
unfolding or_append append_region add_region_after
or_append-SameOwner ok lo size a (b, some r) h = h
or_append-SameOwner false lo size a (b, none) h = h
or_append-SameOwner true lo size a (b, none) h = h

pub add_region-SameOwner :
    (split_ok append_ok : Bool) (lo : ℕ) (a : AreaStruct) (size : ℕ)
    → Holds (OutOwner a) (add_region split_ok append_ok lo a size)
unfolding add_region get_free_region
add_region-SameOwner split_ok append_ok lo a size =
    let found = scan_regions split_ok lo a size [] a.regions in
    Holds-map (OutOwner a) (or_append append_ok lo size) found (
      Holds-imp (OutOwner a) (λ out. OutOwner a (or_append append_ok lo size out)) found
        (or_append-SameOwner append_ok lo size a)
        (scan_regions-SameOwner split_ok lo a size [] a.regions))
