-- ===== src/System/Removal.antt =====
-- What `remove_region` leaves of the area list, on every branch.
use netmalloc.Common.{
  ℕ, ◌<◌, ◌≡◌, refl, inl, inr, ◌&&◌, Option, none, some, List, [], ◌∷◌, arith, ◌==◌, ltb, leb,
  rebuild, ulong_mod, All-rebuild, All-split, Bool-cases, Option-cases, Holds, Holds-bind,
  Holds-some, Holds-and, Returns-and,
}
use netmalloc.Vma.{Vmas}
use netmalloc.Region.{AreaStruct, Cursor, get_region, free_region}
use netmalloc.Region.Find.{PointsAt, get_region-PointsAt}
use netmalloc.Region.Same.{free_region-SameOwner}
use netmalloc.Region.Order.{CursorOrdered}
use netmalloc.Region.Order.Free.{free_region-Ordered, get_region-Ordered}
use netmalloc.Region.Coalesced.{free_region-Coalesced}
use netmalloc.Area.{
  Areas, AreaCursor, area_nodes, find_area, get_area, remove_region_at, remove_region,
}
use netmalloc.System.Areas.{AreaSound, AreasSound}

-- A pointer that a search returns points into the list.
abbrev pub InList : List AreaStruct → Option AreaCursor → Type 0
InList l none = Unit {0}
InList l (some c) = area_nodes c ≡ l

pub find_area-InList :
    (s : Vmas) (pid address : ℕ) (bs l : List AreaStruct)
    → Holds (InList (rebuild bs l)) (find_area s pid address bs l)
unfolding find_area rebuild
find_area-InList s pid address bs [] = tt
find_area-InList s pid address bs (a ∷ l) =
    let rest = find_area-InList s pid address (a ∷ bs) l in
    elim (Bool-cases (a.pid == pid)) [
      | inl e ↦ elim (Option-cases (s.heap a.vma)) [
        | inl f ↦ rw (e, f) tt
        | inr (v, f) ↦ elim (Bool-cases (leb v.vm_start address && ltb address v.vm_end)) [
          | inl c ↦ rw (e, f, c) refl
          | inr c ↦ rw (e, f, c) rest
        ]
      ]
      | inr e ↦ rw e rest
    ]

pub get_area-InList :
    (s : Areas) (pid address : ℕ) → Holds (InList s.area_list) (get_area s pid address)
unfolding get_area rebuild
get_area-InList s pid address = find_area-InList s.vmas pid address [] s.area_list

abbrev OutSound : ℕ → Areas × Option ℕ → Type 0
OutSound hi (s, vma) = AreasSound hi s

module _ (hi : ℕ) (fits : hi < ulong_mod) where
  free_region-Sound :
      (vmas : Vmas) (a : AreaStruct) (r : Cursor) (address : ℕ)
      → PointsAt address a.regions r
      → (o : AreaSound vmas hi a) → CursorOrdered o.lo r hi
      → Holds (AreaSound vmas hi) (free_region a r)
  free_region-Sound vmas a r address p o ro =
      let freed = free_region a r in
      let (out, e, c, held) =
        Returns-and _ _ freed (free_region-Coalesced a r o.head (rw p.0 o.coalesced)) (
          Holds-and _ _ freed (free_region-Ordered o.lo hi fits a r ro)
            (free_region-SameOwner a r)) in
      rw e (record {
        lo = o.lo;
        start = λ u f. o.start u (rw held.1.0 at f);
        ordered = held.0;
        coalesced = c.0;
        head = ground (arith, o.head, c.1);
      })

  -- Once the area and the region are found.
  remove_region_at-Sound :
      (s : Areas) (c : AreaCursor) (r : Cursor) (address : ℕ)
      → AreasSound hi s
      → area_nodes c ≡ s.area_list
      → get_region c.area address ≡ some r
      → Holds (OutSound hi) (remove_region_at s c (some r))
  unfolding remove_region_at
  remove_region_at-Sound s c r address w whole hit =
      let (before, behind) =
        All-split (AreaSound s.vmas hi) c.before (c.area ∷ c.after) (rw whole w) in
      let p =
        Holds-some (PointsAt address c.area.regions) (get_region c.area address)
          (get_region-PointsAt c.area address) hit in
      let ro =
        Holds-some (λ x. CursorOrdered behind.0.lo x hi) (get_region c.area address)
          (get_region-Ordered behind.0.lo hi fits c.area address behind.0.ordered) hit in
      Holds-bind (OutSound hi) (free_region c.area r) _ λ a e.
        All-rebuild (AreaSound s.vmas hi) c.before (a ∷ c.after) before (
          Holds-some (AreaSound s.vmas hi) (free_region c.area r)
              (free_region-Sound s.vmas c.area r address p behind.0 ro) e,
          behind.1,
        )

  -- `remove_region` leaves all areas sound, whether it finds a region or not.
  pub remove_region-Sound :
      (s : Areas) (pid address : ℕ)
      → AreasSound hi s
      → Holds (OutSound hi) (remove_region s pid address)
  unfolding remove_region
  remove_region-Sound s pid address w =
      Holds-bind (OutSound hi) (get_area s pid address) _ λ found e.
        at_area found (
          Holds-some (InList s.area_list) (get_area s pid address) (get_area-InList s pid address)
            e)
    where
      at_area :
          (found : Option AreaCursor)
          → InList s.area_list found
          → Holds (OutSound hi) (elim found [
            | none ↦ some (s, none)
            | some c ↦ remove_region_at s c (get_region c.area address)
          ])
      at_area none i = w
      at_area (some c) i = elim (Option-cases (get_region c.area address)) [
        | inl e ↦ rw (e, remove_region_at) w
        | inr (r, e) ↦ rw e (remove_region_at-Sound s c r address w i e)
      ]
