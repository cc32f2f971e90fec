-- ===== src/Region/Merge.antt =====
-- The three stages of `merge_neighbors_region`, which starts at a region just marked free.
use mathlib.Core.Option
use netmalloc.Common.{
  ℕ, ◌≡◌, refl, arith, some, Holds, Holds-map, Returns, Returns-map, sub64, rebuild, Option, true,
  add64, List, ◌∷◌,
}
use netmalloc.Region.{
  split_region, merge_neighbors_region, AreaStruct, Cursor, cursor, Place, node, head, merge_next,
  merge_prev, RegionStruct,
}

-- A node that a stage ends at is free.
abbrev pub IsFree : Place → Type 0
IsFree (node c) = c.focus.free ≡ 1
IsFree (head size l) = Unit {0}

pub merge_next-before : (c : Cursor) → (merge_next c).before ≡ c.before
unfolding merge_next
merge_next-before c = ground arith

pub merge_next-free : (c : Cursor) → (merge_next c).focus.free ≡ c.focus.free
unfolding merge_next
merge_next-free c = ground arith

pub merge_prev-IsFree :
    (area : AreaStruct) (c : Cursor) → c.focus.free ≡ 1 → IsFree (merge_prev area c)
unfolding merge_prev
merge_prev-IsFree area c f = ground arith

-- The two parts of a split region, and the cursor at which the merge starts.
abbrev pub front_part : RegionStruct → ℕ → RegionStruct
front_part r size = record r { free = 0; size = size }

abbrev pub back_part : RegionStruct → ℕ → RegionStruct
back_part r size = record {
  free = 1;
  size = sub64 r.size size;
  virtual_start = add64 r.virtual_start size;
}

abbrev pub split_cursor : List RegionStruct → RegionStruct → ℕ → List RegionStruct → Cursor
split_cursor bs r size l = cursor (front_part r size ∷ bs) (back_part r size) l

-- The area of a split at the merge of its back part.
abbrev pub cut_area :
    AreaStruct → ℕ → List RegionStruct → RegionStruct → List RegionStruct → AreaStruct
cut_area area size bs r l =
    let rest = sub64 r.size size in
    record area {
      free_space = add64 (sub64 (sub64 area.free_space size) rest) rest;
      regions = rebuild bs (front_part r size ∷ l);
    }

pub split_region-eq :
    (lo : ℕ) (area : AreaStruct) (size : ℕ) (bs : List RegionStruct) (r : RegionStruct)
    (l : List RegionStruct)
    → split_region true lo area size bs r l
      ≡ Option.map
          (λ m. (m, some (front_part r size)))
          (merge_neighbors_region (cut_area area size bs r l) (split_cursor bs r size l))
unfolding split_region
split_region-eq lo area size bs r l = refl

pub split_region-Holds :
    (P : AreaStruct × Option RegionStruct → Type 0) (lo : ℕ) (area : AreaStruct) (size : ℕ)
    (bs : List RegionStruct) (r : RegionStruct) (l : List RegionStruct)
    → ((cut : AreaStruct)
        → cut.head_free ≡ area.head_free
        → Holds
            (λ m. P (m, some (front_part r size)))
            (merge_neighbors_region cut (split_cursor bs r size l)))
    → Holds P (split_region true lo area size bs r l)
split_region-Holds P lo area size bs r l h =
    let cut = cut_area area size bs r l in
    rw (split_region-eq lo area size bs r l)
      (Holds-map P _ (merge_neighbors_region cut (split_cursor bs r size l)) (h cut refl))

pub split_region-Returns :
    (P : AreaStruct × Option RegionStruct → Type 0) (lo : ℕ) (area : AreaStruct) (size : ℕ)
    (bs : List RegionStruct) (r : RegionStruct) (l : List RegionStruct)
    → ((cut : AreaStruct)
        → cut.head_free ≡ area.head_free
        → Returns
            (λ m. P (m, some (front_part r size)))
            (merge_neighbors_region cut (split_cursor bs r size l)))
    → Returns P (split_region true lo area size bs r l)
split_region-Returns P lo area size bs r l h =
    let cut = cut_area area size bs r l in
    rw (split_region-eq lo area size bs r l)
      (Returns-map P _ (merge_neighbors_region cut (split_cursor bs r size l)) (h cut refl))
