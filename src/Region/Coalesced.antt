-- ===== src/Region/Coalesced.antt =====
-- No two neighbouring regions of an area are free, and the last one is in use. Together with a head
-- that does not look free this keeps `merge_neighbors_region` from freeing the head.
pub mod Add
use netmalloc.Common.Chain
use netmalloc.Common.{
  ℕ, ◌≡◌, ◌≢◌, refl, ◌∙◌, ◌⊎◌, inl, inr, Bool, List, [], ◌∷◌, arith, ◌==◌, rebuild, Bool-cases,
  Returns,
}
use netmalloc.Region.Merge.{merge_next-before, merge_next-free}
use netmalloc.Region.{
  RegionStruct, AreaStruct, Cursor, cursor, nodes, merge_next, Place, node, head, merge_prev,
  remove_last, merge_neighbors_region, free_region,
}

abbrev pub NotBothFree : ℕ → RegionStruct → Type 0
NotBothFree before r = (before ≢ 1) ⊎ (r.free ≢ 1)

abbrev pub flag : RegionStruct → ℕ
flag r = r.free

abbrev pub InUse : ℕ → Type 0
InUse free = free ≢ 1

-- Behind a region with the flag `before`.
abbrev pub CoalescedFrom : ℕ → List RegionStruct → Type 0
CoalescedFrom before l = Chain.Chain NotBothFree flag InUse before l

abbrev pub Coalesced : List RegionStruct → Type 0
Coalesced l = CoalescedFrom 0 l

abbrev pub CoalescedBack : List RegionStruct → Type 0
CoalescedBack bs = Chain.Back NotBothFree flag 0 bs

abbrev pub flag_behind : List RegionStruct → ℕ
flag_behind bs = Chain.state_after NotBothFree flag 0 bs

pub Coalesced-nodes :
    (bs l : List RegionStruct)
    → CoalescedBack bs
    → CoalescedFrom (flag_behind bs) l
    → Coalesced (rebuild bs l)
Coalesced-nodes bs l b c = Chain.Chain-rebuild NotBothFree flag InUse 0 bs l b c

pub Coalesced-split :
    (bs l : List RegionStruct)
    → Coalesced (rebuild bs l)
    → CoalescedBack bs × CoalescedFrom (flag_behind bs) l
Coalesced-split bs l c = Chain.Chain-split NotBothFree flag InUse 0 bs l c

-- A region in use may stand in front of any coalesced list.
pub CoalescedFrom-used :
    (p q : ℕ) (l : List RegionStruct) → q ≢ 1 → CoalescedFrom p l → CoalescedFrom q l
CoalescedFrom-used p q [] h c = h
CoalescedFrom-used p q (r ∷ l) h c = (inl h, c.1)

pub CoalescedFrom-start : (p : ℕ) (l : List RegionStruct) → CoalescedFrom p l → Coalesced l
CoalescedFrom-start p l c = CoalescedFrom-used p 0 l (omega arith) c

-- The nodes behind a free region: the next one is in use.
abbrev Behind : List RegionStruct → Type 0
Behind [] = Unit {0}
Behind (r ∷ l) = (r.free ≢ 1) × CoalescedFrom r.free l

Behind-free : (free : ℕ) (l : List RegionStruct) → free ≡ 1 → CoalescedFrom free l → Behind l
Behind-free free [] e c = tt
Behind-free free (r ∷ l) e c = (ground arith, c.1)

-- Where a merge with the region in front may end: at a free node between regions in use.
abbrev Between : Place → Type 0
Between (node c) =
    CoalescedBack c.before × (flag_behind c.before ≢ 1) × Behind c.after × (c.focus.free ≡ 1)
Between (head size l) = ⊥

merge_next-Behind :
    (bs : List RegionStruct) (r : RegionStruct) (l : List RegionStruct)
    → Coalesced l
    → Behind (merge_next (cursor bs r l)).after
unfolding merge_next
merge_next-Behind bs r [] c = tt
merge_next-Behind bs r (n ∷ l) c = elim (Bool-cases (n.free == 1)) [
  | inl e ↦ rw e (Behind-free n.free l (ground arith) c.1)
  | inr e ↦ rw e (ground arith, c.1)
]

merge_prev-Between :
    (area : AreaStruct) (bs : List RegionStruct) (r : RegionStruct) (l : List RegionStruct)
    → area.head_free ≢ 1
    → CoalescedBack bs
    → Behind l
    → r.free ≡ 1
    → Between (merge_prev area (cursor bs r l))
unfolding merge_prev
merge_prev-Between area [] r l h b c f = ground arith
merge_prev-Between area (p ∷ bs) r l h b c f = elim (Bool-cases (p.free == 1)) [
  | inl e ↦ rw e (b.1, ground arith, c, ground arith)
  | inr e ↦ rw e (b, ground arith, c, f)
]

remove_last-Coalesced :
    (area : AreaStruct) (bs : List RegionStruct) (r : RegionStruct) (l : List RegionStruct)
    → Between (node (cursor bs r l))
    → Returns
        (λ m. Coalesced m.regions × (m.head_free ≡ area.head_free))
        (remove_last area (node (cursor bs r l)))
unfolding remove_last
remove_last-Coalesced area bs r [] b = (Coalesced-nodes bs [] b.0 b.1, refl)
remove_last-Coalesced area bs r (n ∷ l) b =
    (Coalesced-nodes bs (r ∷ n ∷ l) b.0 (inl b.1, (inr b.2.0, b.2.1)), refl)

-- Merging a region just marked free returns, and leaves the list coalesced.
pub merge_neighbors_region-Coalesced :
    (area : AreaStruct) (c : Cursor)
    → area.head_free ≢ 1
    → CoalescedBack c.before
    → Coalesced c.after
    → c.focus.free ≡ 1
    → Returns
        (λ m. Coalesced m.regions × (m.head_free ≡ area.head_free))
        (merge_neighbors_region area c)
unfolding merge_neighbors_region
merge_neighbors_region-Coalesced area c h b l f =
    let n = merge_next c in
    go (merge_prev area n) (
      merge_prev-Between area n.before n.focus n.after h (rw (merge_next-before c) b)
        (merge_next-Behind c.before c.focus c.after l) (merge_next-free c ∙ f))
  where
    go :
        (p : Place)
        → Between p
        → Returns (λ m. Coalesced m.regions × (m.head_free ≡ area.head_free)) (remove_last area p)
    go (node c') w = remove_last-Coalesced area c'.before c'.focus c'.after w
    go (head size l') w = absurd w

-- In an area whose regions are coalesced and whose head does not look free, freeing any region
-- returns, and leaves the regions coalesced.
pub free_region-Coalesced :
    (area : AreaStruct) (c : Cursor)
    → area.head_free ≢ 1
    → Coalesced (nodes c)
    → Returns (λ m. Coalesced m.regions × (m.head_free ≡ area.head_free)) (free_region area c)
unfolding free_region
free_region-Coalesced area c h l =
    let (b, r) = Coalesced-split c.before (c.focus ∷ c.after) l in
    merge_neighbors_region-Coalesced _ _ h b (CoalescedFrom-start c.focus.free c.after r.1) refl
