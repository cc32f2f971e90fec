-- ===== src/Area/Remove.antt =====
-- Removing a region: the bytes that it gives back, and when its area becomes empty.
use netmalloc.Common.{
  ℕ, ◌<◌, ◌≡◌, ◌≢◌, refl, ap, List, [], Option, none, ◌∙◌, not, ◌&&◌, some, ◌∷◌, rebuild, ulong_mod,
  Returns, Returns-and, Holds-some, Holds-and,
}
use netmalloc.Region.{RegionStruct, AreaStruct, Cursor, get_region, free_region}
use netmalloc.Region.Same.{SameOwner, free_region-SameOwner}
use netmalloc.Region.Find.{PointsAt, get_region-PointsAt}
use netmalloc.Region.Order.{Ordered, CursorOrdered}
use netmalloc.Region.Order.Free.{free_region-Ordered, get_region-Ordered}
use netmalloc.Region.Used.{covers, used_at}
use netmalloc.Region.Used.Free.{free_region-used}
use netmalloc.Region.Coalesced.{Coalesced, free_region-Coalesced}
use netmalloc.Area.{Areas, AreaCursor, get_area, remove_region, vma_to_remove}

-- The area after a region `r` of `before` has been removed from it.
pub record Removed (lo hi : ℕ) (before : AreaStruct) (r : RegionStruct) (after : AreaStruct)
    : Type 0 where
  pub ordered : Ordered lo after.regions hi
  pub coalesced : Coalesced after.regions
  pub head : after.head_free ≡ before.head_free
  pub used : (a : ℕ) → used_at a after.regions ≡ (used_at a before.regions && not (covers a r))

-- The structure of the area goes to `remove_vma` if no region is left, and nothing otherwise.
abbrev pub HandedOver : AreaStruct → AreaStruct → Option ℕ → Type 0
HandedOver before after vma =
    (after.regions ≡ [] → vma ≡ some before.vma) × (after.regions ≢ [] → vma ≡ none)

pub vma_to_remove-HandedOver :
    (before after : AreaStruct)
    → SameOwner before after
    → HandedOver before after (vma_to_remove after)
vma_to_remove-HandedOver before after same = go after.regions
  where
    go :
        (l : List RegionStruct)
        → (l ≡ [] → elim l [ [] ↦ some after.vma | r ∷ l ↦ none ] ≡ some before.vma)
          × (l ≢ [] → elim l [ [] ↦ some after.vma | r ∷ l ↦ none ] ≡ none)
    go [] = (λ e. ap some same.0, λ h. absurd (h refl))
    go (r ∷ l) = (λ e. cc, λ h. refl)

free_region-Removed :
    (lo hi : ℕ) (area : AreaStruct) (r : Cursor)
    → hi < ulong_mod
    → Ordered lo area.regions hi
    → Coalesced area.regions
    → area.head_free ≢ 1
    → PointsAt r.focus.virtual_start area.regions r
    → CursorOrdered lo r hi
    → (after : AreaStruct) × (free_region area r ≡ some after)
      × Removed lo hi area r.focus after
      × SameOwner area after
free_region-Removed lo hi area r fits o c h p ro =
    let merged = free_region area r in
    let (after, e, w, held) = Returns-and _ _ merged (free_region-Coalesced area r h (rw p.0 c)) (
      Holds-and _ _ merged (free_region-Ordered lo hi fits area r ro)
        (Holds-and _ _ merged (free_region-used lo hi area r ro) (free_region-SameOwner area r))) in
    (
      after,
      e,
      record { ordered = held.0; coalesced = w.0; head = w.1; used = λ a. held.1.0 a ∙ rw p.0 },
      held.1.1,
    )

-- Removing the region at an address, where `get_area` finds an area and `get_region` a region of it
-- that starts there, the area's regions are in order, coalesced and end below 2 ^ 64, and the
-- list's head does not look free: it returns; the area gives back the bytes of that region and no
-- others, and stays in order and coalesced; the other areas are untouched; and the structure of the
-- area is handed to `remove_vma` if no region is left, and none otherwise.
pub remove_region-Removed :
    (s : Areas) (pid address lo hi : ℕ) (c : AreaCursor) (r : Cursor)
    → get_area s pid address ≡ some (some c)
    → get_region c.area address ≡ some r
    → hi < ulong_mod
    → Ordered lo c.area.regions hi
    → Coalesced c.area.regions
    → c.area.head_free ≢ 1
    → Returns
        (λ out.
          (after : AreaStruct) × (out.0.area_list ≡ rebuild c.before (after ∷ c.after))
          × Removed lo hi c.area r.focus after
          × (r.focus.virtual_start ≡ address)
          × SameOwner c.area after
          × HandedOver c.area after out.1)
        (remove_region s pid address)
unfolding remove_region
remove_region-Removed s pid address lo hi c r found hit fits o w h =
    let p =
      Holds-some (PointsAt address c.area.regions) (get_region c.area address)
        (get_region-PointsAt c.area address) hit in
    let ro =
      Holds-some (λ x. CursorOrdered lo x hi) (get_region c.area address)
        (get_region-Ordered lo hi fits c.area address o) hit in
    let (after, e, removed, same) = free_region-Removed lo hi c.area r fits o w h (p.0, refl) ro in
    rw (found, hit, e) (after, refl, removed, p.1, same, vma_to_remove-HandedOver c.area after same)
