-- ===== src/Region/Coalesced/Add.antt =====
-- Allocating a region keeps the regions coalesced.
use netmalloc.Common.{
  ℕ, ◌≡◌, ◌≢◌, refl, ◌∙◌, inl, inr, Bool, true, false, ◌&&◌, Option, none, some, List, [], ◌∷◌,
  arith, ◌==◌, ltb, rebuild, Bool-cases, Returns, Returns-map, Returns-imp,
}
use netmalloc.Region.Merge.{split_cursor, split_region-Returns, front_part}
use netmalloc.Region.{
  RegionStruct, AreaStruct, add_region_after, merge_neighbors_region, split_region, scan_regions,
  get_free_region, append_region, or_append, add_region,
}
use netmalloc.Region.Order.Add.{rebuild-nil}
use netmalloc.Region.Coalesced.{
  Coalesced, CoalescedFrom, CoalescedBack, flag_behind, Coalesced-nodes, Coalesced-split,
  CoalescedFrom-start, merge_neighbors_region-Coalesced,
}

-- The area that an allocation leaves behind is coalesced, and its head is as it was.
abbrev pub LeavesCoalesced : ℕ → AreaStruct × Option RegionStruct → Type 0
LeavesCoalesced head_free out = Coalesced out.0.regions × (out.0.head_free ≡ head_free)

module _ (lo size : ℕ) (area : AreaStruct) (h : area.head_free ≢ 1) where
  split_region-Coalesced :
      (ok : Bool) (bs : List RegionStruct) (r : RegionStruct) (l : List RegionStruct)
      → CoalescedBack bs × CoalescedFrom (flag_behind bs) (r ∷ l)
      → Returns (LeavesCoalesced area.head_free) (split_region ok lo area size bs r l)
  unfolding split_region
  split_region-Coalesced false bs r l c = (
    Coalesced-nodes bs (front_part r size ∷ l) c.0
        (inr (omega arith), CoalescedFrom-start r.free l c.1.1),
    refl,
  )
  split_region-Coalesced true bs r l c =
      split_region-Returns (LeavesCoalesced area.head_free) lo area size bs r l λ cut e.
        Returns-imp (λ m. Coalesced m.regions × (m.head_free ≡ cut.head_free))
          (λ m. LeavesCoalesced area.head_free (m, some (front_part r size)))
          (merge_neighbors_region cut (split_cursor bs r size l)) (λ m w. (w.0, w.1 ∙ e))
          (merge_neighbors_region-Coalesced cut (split_cursor bs r size l) (rw e h)
            (inr (omega arith), c.0) (CoalescedFrom-start r.free l c.1.1) refl)

  scan_regions-Coalesced :
      (ok : Bool) (bs l : List RegionStruct)
      → Coalesced area.regions
      → CoalescedBack bs × CoalescedFrom (flag_behind bs) l
      → Returns (LeavesCoalesced area.head_free) (scan_regions ok lo area size bs l)
  unfolding scan_regions
  scan_regions-Coalesced ok bs [] whole c = (whole, refl)
  scan_regions-Coalesced ok bs (r ∷ l) whole c = elim (Bool-cases (r.size == size && r.free == 1)) [
    | inl e ↦ rw e (
      Coalesced-nodes bs (record r { free = 0 } ∷ l) c.0
          (inr (omega arith), CoalescedFrom-start r.free l c.1.1),
      refl,
    )
    | inr e ↦ rw e (elim (Bool-cases (ltb size r.size && r.free == 1)) [
      | inl e' ↦ rw e' (split_region-Coalesced ok bs r l c)
      | inr e' ↦ rw e' (scan_regions-Coalesced ok (r ∷ bs) l whole ((c.1.0, c.0), c.1.1))
    ])
  ]

or_append-Coalesced :
    (ok : Bool) (lo size free : ℕ) (out : AreaStruct × Option RegionStruct)
    → LeavesCoalesced free out
    → LeavesCoalesced free (or_append ok lo size out)
unfolding or_append append_region add_region_after rebuild
or_append-Coalesced ok lo size free (area, some region) c = c
or_append-Coalesced false lo size free (area, none) c = c
or_append-Coalesced true lo size free (area, none) c =
    let (b, t) =
      Coalesced-split (rebuild area.regions []) [] (rw (rebuild-nil area.regions []) c.0) in
    (Coalesced-nodes (rebuild area.regions []) _ b (inr (omega arith), omega arith), c.1)

-- In an area whose regions are coalesced and whose head does not look free, an allocation returns,
-- whatever kmalloc answers, and leaves the regions coalesced and the head as it was.
pub add_region-Coalesced :
    (split_ok append_ok : Bool) (lo size : ℕ) (area : AreaStruct)
    → area.head_free ≢ 1
    → Coalesced area.regions
    → Returns (LeavesCoalesced area.head_free) (add_region split_ok append_ok lo area size)
unfolding add_region get_free_region
add_region-Coalesced split_ok append_ok lo size area h c =
    let found = scan_regions split_ok lo area size [] area.regions in
    Returns-map _ (or_append append_ok lo size) found (
      Returns-imp _ _ found (or_append-Coalesced append_ok lo size area.head_free)
        (scan_regions-Coalesced lo size area h split_ok [] area.regions c (tt, c)))
