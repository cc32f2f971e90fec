-- ===== src/Region/Used/Add.antt =====
-- Allocating a region gives out its bytes, which were not given out before.
use netmalloc.Common.{
  ℕ, ◌≤◌, ◌<◌, ◌≡◌, refl, ◌∙◌, Bool, true, false, ◌&&◌, ◌||◌, Option, none, some, List, [], ◌∷◌,
  arith, ◌==◌, ltb, rebuild, inl, inr, Bool-cases, Holds, Holds-map, Holds-imp, Holds-intro,
  Holds-and, ulong_mod,
}
use netmalloc.Region.Merge.{split_region-Holds, split_cursor, front_part}
use netmalloc.Region.{
  RegionStruct, AreaStruct, cursor, add_region_after, merge_neighbors_region, split_region,
  scan_regions, get_free_region, append_region, or_append, add_region,
}
use netmalloc.Region.Order.{Ordered, OrderedBack, end_behind, CursorOrdered}
use netmalloc.Region.Order.Add.{reversed, start_behind-eq, get_free_region-Ordered}
use netmalloc.Region.Used.{covers, used_at, used_at-rebuild, used_at-behind, covers_alone}
use netmalloc.Region.Used.Free.{merge_neighbors_region-used}

-- At the address `a`: the returned region has the size asked for and is in use, exactly its bytes
-- are added to those given out, and it takes none that was given out. NULL gives out nothing.
abbrev pub Gives : ℕ → ℕ → List RegionStruct → AreaStruct × Option RegionStruct → Type 0
Gives a size l (area, none) = used_at a area.regions ≡ used_at a l
Gives a size l (area, some region) =
    (region.size ≡ size)
    × (region.free ≡ 0)
    × (used_at a area.regions ≡ (used_at a l || covers a region))
    × (covers a region ≡ true → used_at a l ≡ false)

module _ (a lo hi : ℕ) (fits : hi < ulong_mod) where
  -- A part `g` of a free region is given out.
  takes :
      (bs : List RegionStruct) (r : RegionStruct) (l : List RegionStruct) (g : RegionStruct)
      → CursorOrdered lo (cursor bs r l) hi
      → r.free ≡ 1
      → (covers a g ≡ true → covers a r ≡ true)
      → ((used_at a bs || (covers a g || used_at a l))
          ≡ (used_at a (rebuild bs (r ∷ l)) || covers a g))
        × (covers a g ≡ true → used_at a (rebuild bs (r ∷ l)) ≡ false)
  unfolding used_at
  takes bs r l g o f part =
      rw (used_at-rebuild a bs (r ∷ l))
        (ground arith, λ c. ground (arith, covers_alone a lo hi bs r l o (part c)))

  -- The region `g`, in use, stands between the nodes.
  used_at-nodes :
      (bs : List RegionStruct) (g : RegionStruct) (l : List RegionStruct)
      → g.free ≡ 0
      → used_at a (rebuild bs (g ∷ l)) ≡ (used_at a bs || (covers a g || used_at a l))
  unfolding used_at
  used_at-nodes bs g l f = rw (used_at-rebuild a bs (g ∷ l)) (ground arith)

  split_region-Gives :
      (area : AreaStruct) (size : ℕ) (bs : List RegionStruct) (r : RegionStruct)
      (l : List RegionStruct)
      → size < r.size
      → r.free ≡ 1
      → CursorOrdered lo (cursor bs r l) hi
      → Holds (Gives a size (rebuild bs (r ∷ l))) (split_region true lo area size bs r l)
  split_region-Gives area size bs r l h f o =
      split_region-Holds (Gives a size (rebuild bs (r ∷ l))) lo area size bs r l gives
    where
      front : RegionStruct
      front = front_part r size

      t :
          ((used_at a bs || (covers a front || used_at a l))
            ≡ (used_at a (rebuild bs (r ∷ l)) || covers a front))
          × (covers a front ≡ true → used_at a (rebuild bs (r ∷ l)) ≡ false)
      t = takes bs r l front o f (λ c. ground arith)

      gives :
          (cut : AreaStruct)
          → cut.head_free ≡ area.head_free
          → Holds
              (λ m. Gives a size (rebuild bs (r ∷ l)) (m, some front))
              (merge_neighbors_region cut (split_cursor bs r size l))
      gives cut e =
          Holds-intro (λ m. Gives a size (rebuild bs (r ∷ l)) (m, some front))
            (merge_neighbors_region cut (split_cursor bs r size l))
            λ m e'. (
              refl,
              refl,
              merge_neighbors_region-used a cut (split_cursor bs r size l) refl m e'
                  ∙ unfold used_at in (ground (arith, t.0)),
              t.1,
            )

  scan_regions-Gives :
      (area : AreaStruct) (size : ℕ) (bs l all : List RegionStruct)
      → area.regions ≡ all
      → all ≡ rebuild bs l
      → OrderedBack lo bs × Ordered (end_behind lo bs) l hi
      → Holds (Gives a size all) (scan_regions true lo area size bs l)
  unfolding scan_regions
  scan_regions-Gives area size bs [] all same whole o = rw same
  scan_regions-Gives area size bs (r ∷ l) all same whole o =
      elim (Bool-cases (r.size == size && r.free == 1)) [
        | inl e ↦
            let g = record r { free = 0 } in
            let t = takes bs r l g o (ground arith) (λ c. c) in
            rw (e, whole) (ground arith, refl, used_at-nodes bs g l refl ∙ t.0, t.1)
        | inr e ↦ rw e (elim (Bool-cases (ltb size r.size && r.free == 1)) [
          | inl e' ↦
              rw (e', whole) (split_region-Gives area size bs r l (ground arith) (ground arith) o)
          | inr e' ↦ rw e' (
              scan_regions-Gives area size (r ∷ bs) l all same (unfold rebuild in whole)
                ((o.1.0, o.0), o.1.1))
        ])
      ]

  used_at-reversed : (l : List RegionStruct) → used_at a (rebuild l []) ≡ used_at a l
  unfolding used_at
  used_at-reversed l = rw (used_at-rebuild a l []) (ground arith)

  covers-start : (r : RegionStruct) → covers a r ≡ true → r.virtual_start ≤ a
  covers-start r c = ground arith

  append_region-Gives :
      (ok : Bool) (area : AreaStruct) (size : ℕ)
      → Ordered lo area.regions hi
      → Gives a size area.regions (append_region ok lo area size)
  unfolding append_region add_region_after
  append_region-Gives false area size o = refl
  append_region-Gives true area size o =
      let bs = rebuild area.regions [] in
      let (b, t) = reversed lo hi area.regions o in
      let e = start_behind-eq lo bs (omega arith) in
      (
        refl,
        refl,
        used_at-nodes bs _ [] refl
            ∙ rw (used_at-reversed area.regions) (unfold used_at in ground arith),
        λ c.
            rw (← used_at-reversed area.regions)
              (used_at-behind a lo bs b (omega (arith, e, covers-start _ c))),
      )

  -- Only the bytes given out before matter.
  Gives-cong :
      (size : ℕ) (l l' : List RegionStruct) (out : AreaStruct × Option RegionStruct)
      → used_at a l ≡ used_at a l'
      → Gives a size l out
      → Gives a size l' out
  Gives-cong size l l' (area, none) e g = g ∙ e
  Gives-cong size l l' (area, some region) e g = (g.0, g.1, rw (← e) g.2, rw (← e) g.3)

  or_append-Gives :
      (ok : Bool) (size : ℕ) (l : List RegionStruct) (out : AreaStruct × Option RegionStruct)
      → Ordered lo out.0.regions hi × Gives a size l out
      → Gives a size l (or_append ok lo size out)
  unfolding or_append
  or_append-Gives ok size l (area, some region) h = h.1
  or_append-Gives ok size l (area, none) h =
      Gives-cong size area.regions l (append_region ok lo area size) h.1
        (append_region-Gives ok area size h.0)

-- An allocation that returns a region has given out exactly its `size` bytes, and none of them was
-- given out before; one that returns NULL has given out nothing.
pub add_region-Gives :
    (a lo hi : ℕ) (append_ok : Bool) (area : AreaStruct) (size : ℕ)
    → hi < ulong_mod
    → Ordered lo area.regions hi
    → Holds (Gives a size area.regions) (add_region true append_ok lo area size)
unfolding add_region get_free_region rebuild
add_region-Gives a lo hi ok area size fits o =
    let found = get_free_region true lo area size in
    Holds-map (Gives a size area.regions) (or_append ok lo size) found (
      Holds-imp _ _ found (or_append-Gives a lo hi fits ok size area.regions) (
        Holds-and _ _ found (get_free_region-Ordered lo hi fits true area size o) (
          scan_regions-Gives a lo hi fits area size [] area.regions area.regions refl refl
            (tt, o))))
