-- ===== src/Region/Order/Add.antt =====
-- Allocating a region keeps the order.
use netmalloc.Common.{
  ℕ, ◌+◌, ◌≤◌, ◌<◌, ◌≡◌, refl, Bool, true, false, ◌&&◌, Option, none, some, List, [], ◌∷◌, arith,
  ◌==◌, ltb, rebuild, inl, inr, Bool-cases, ulong_mod, add64-eq_add, Holds, Holds-map, Holds-imp,
  sub64-eq_sub,
}
use netmalloc.Region.Merge.{split_region-Holds, split_cursor}
use netmalloc.Region.{
  RegionStruct, AreaStruct, cursor, start_behind, add_region_after, split_region, scan_regions,
  get_free_region, append_region, or_append, add_region,
}
use netmalloc.Region.Order.{
  end_of, Ordered, OrderedBack, end_behind, CursorOrdered, Ordered-nodes, Ordered-split, Ordered-le,
  Ordered-mono,
}
use netmalloc.Region.Order.Free.{merge_neighbors_region-Ordered}

module _ (lo hi : ℕ) (fits : hi < ulong_mod) where
  split_region-Ordered :
      (ok : Bool) (area : AreaStruct) (size : ℕ) (bs : List RegionStruct) (r : RegionStruct)
      (l : List RegionStruct)
      → size < r.size
      → CursorOrdered lo (cursor bs r l) hi
      → Holds (λ out. Ordered lo out.0.regions hi) (split_region ok lo area size bs r l)
  unfolding split_region
  split_region-Ordered false area size bs r l h o =
      Ordered-nodes lo hi bs _ o.0
        (o.1.0, Ordered-mono (end_of r) _ hi hi l (omega arith) (omega arith) o.1.1)
  split_region-Ordered true area size bs r l h o =
      split_region-Holds (λ out. Ordered lo out.0.regions hi) lo area size bs r l
        λ cut e. merge_neighbors_region-Ordered lo hi fits cut (split_cursor bs r size l) parts
    where
      end : end_of r ≤ hi
      end = Ordered-le (end_of r) hi l o.1.1

      parts : CursorOrdered lo (split_cursor bs r size l) hi
      parts =
          rw
            (
              add64-eq_add r.virtual_start size (omega (arith, end)),
              sub64-eq_sub r.size size (omega arith) (omega (arith, end)),
            )
            (
              (o.1.0, o.0),
              (omega arith, Ordered-mono (end_of r) _ hi hi l (omega arith) (omega arith) o.1.1),
            )

  scan_regions-Ordered :
      (ok : Bool) (area : AreaStruct) (size : ℕ) (bs l : List RegionStruct)
      → Ordered lo area.regions hi
      → OrderedBack lo bs × Ordered (end_behind lo bs) l hi
      → Holds (λ out. Ordered lo out.0.regions hi) (scan_regions ok lo area size bs l)
  unfolding scan_regions
  scan_regions-Ordered ok area size bs [] whole o = whole
  scan_regions-Ordered ok area size bs (r ∷ l) whole o =
      elim (Bool-cases (r.size == size && r.free == 1)) [
        | inl e ↦ rw e (Ordered-nodes lo hi bs (record r { free = 0 } ∷ l) o.0 o.1)
        | inr e ↦ rw e (elim (Bool-cases (ltb size r.size && r.free == 1)) [
          | inl e' ↦ rw e' (split_region-Ordered ok area size bs r l (ground arith) o)
          | inr e' ↦
              rw e' (scan_regions-Ordered ok area size (r ∷ bs) l whole ((o.1.0, o.0), o.1.1))
        ])
      ]

  -- Taking a free region keeps the regions of an area in order and within the same bounds.
  pub get_free_region-Ordered :
      (ok : Bool) (area : AreaStruct) (size : ℕ)
      → Ordered lo area.regions hi
      → Holds (λ out. Ordered lo out.0.regions hi) (get_free_region ok lo area size)
  unfolding get_free_region
  get_free_region-Ordered ok area size o =
      scan_regions-Ordered ok area size [] area.regions o (tt, o)

-- The address behind the last region.
abbrev pub tail_end : ℕ → List RegionStruct → ℕ
tail_end lo l = end_behind lo (rebuild l [])

pub start_behind-eq :
    (lo : ℕ) (bs : List RegionStruct)
    → end_behind lo bs < ulong_mod
    → start_behind lo bs ≡ end_behind lo bs
start_behind-eq lo [] h = refl
start_behind-eq lo (p ∷ bs) h = add64-eq_add p.virtual_start p.size h

pub rebuild-nil : (l bs : List RegionStruct) → rebuild (rebuild l bs) [] ≡ rebuild bs l
unfolding rebuild
rebuild-nil [] bs = refl
rebuild-nil (x ∷ l) bs = rebuild-nil l (x ∷ bs)

pub reversed :
    (lo hi : ℕ) (l : List RegionStruct)
    → Ordered lo l hi
    → OrderedBack lo (rebuild l []) × (tail_end lo l ≤ hi)
unfolding rebuild
reversed lo hi l o = Ordered-split lo hi (rebuild l []) [] (rw (rebuild-nil l []) o)

pub append_region-Ordered :
    (ok : Bool) (lo hi hi' : ℕ) (area : AreaStruct) (size : ℕ)
    → hi < ulong_mod
    → hi ≤ hi'
    → tail_end lo area.regions + size ≤ hi'
    → Ordered lo area.regions hi
    → Ordered lo (append_region ok lo area size).0.regions hi'
unfolding append_region add_region_after
append_region-Ordered false lo hi hi' area size fits h k o =
    Ordered-mono lo lo hi hi' area.regions (omega arith) h o
append_region-Ordered true lo hi hi' area size fits h k o =
    let (b, t) = reversed lo hi area.regions o in
    Ordered-nodes lo hi' (rebuild area.regions []) _ b
      (rw (start_behind-eq lo (rebuild area.regions []) (omega arith)) (omega arith))

or_append-Ordered :
    (ok : Bool) (lo hi size : ℕ) (out : AreaStruct × Option RegionStruct)
    → hi + size < ulong_mod
    → Ordered lo out.0.regions hi
    → Ordered lo (or_append ok lo size out).0.regions (hi + size)
unfolding or_append
or_append-Ordered ok lo hi size (area, some region) fits o =
    Ordered-mono lo lo hi (hi + size) area.regions (omega arith) (omega arith) o
or_append-Ordered ok lo hi size (area, none) fits o =
    let (b, t) = reversed lo hi area.regions o in
    append_region-Ordered ok lo hi (hi + size) area size (omega arith) (omega arith) (omega arith) o

-- An allocation keeps the regions of an area in order, and none reaches more than `size` bytes
-- further than they did before, whatever kmalloc answers.
pub add_region-Ordered :
    (split_ok append_ok : Bool) (lo hi : ℕ) (area : AreaStruct) (size : ℕ)
    → hi + size < ulong_mod
    → Ordered lo area.regions hi
    → Holds
        (λ out. Ordered lo out.0.regions (hi + size))
        (add_region split_ok append_ok lo area size)
unfolding add_region
add_region-Ordered split_ok append_ok lo hi area size fits o =
    Holds-map _ _ (get_free_region split_ok lo area size) (
      Holds-imp _ _ (get_free_region split_ok lo area size)
        (λ out h. or_append-Ordered append_ok lo hi size out fits h)
        (get_free_region-Ordered lo hi (omega arith) split_ok area size o))
