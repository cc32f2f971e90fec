-- ===== src/Region/Used/Free.antt =====
-- Freeing a region takes back its bytes and no others.
use netmalloc.Common.{
  ℕ, ◌≡◌, refl, ◌∙◌, Bool, not, ◌&&◌, ◌||◌, some, [], ◌∷◌, arith, inl, inr, Bool-cases, Holds,
  Holds-intro,
}
use netmalloc.Region.Merge.{IsFree, merge_next-before, merge_next-free, merge_prev-IsFree}
use netmalloc.Region.{
  AreaStruct, Cursor, nodes, merge_next, Place, node, head, merge_prev, remove_last,
  merge_neighbors_region, free_region,
}
use netmalloc.Region.Order.{CursorOrdered}
use netmalloc.Region.Used.{covers, used_at, used_at-rebuild, covers_alone}

-- What a place stands for, with the head's own fields left aside.
abbrev place_used : ℕ → Place → Bool
place_used a (node c) = used_at a c.before || used_at a (c.focus ∷ c.after)
place_used a (head size l) = used_at a l

merge_next-used : (a : ℕ) (c : Cursor) → used_at a (merge_next c).after ≡ used_at a c.after
unfolding merge_next used_at
merge_next-used a c = ground arith

merge_prev-used :
    (a : ℕ) (area : AreaStruct) (c : Cursor)
    → c.focus.free ≡ 1
    → place_used a (merge_prev area c) ≡ (used_at a c.before || used_at a c.after)
unfolding merge_prev used_at
merge_prev-used a area c f = ground arith

remove_last-used :
    (a : ℕ) (area : AreaStruct) (p : Place)
    → IsFree p
    → (m : AreaStruct) → remove_last area p ≡ some m
    → used_at a m.regions ≡ place_used a p
unfolding remove_last used_at
remove_last-used a area (node c) f m e =
    ground (arith, used_at-rebuild a c.before [], used_at-rebuild a c.before (c.focus ∷ c.after))
remove_last-used a area (head size []) f m e = cc
remove_last-used a area (head size (x ∷ l)) f m e = ground arith

-- Merging gives out nothing and takes nothing back.
pub merge_neighbors_region-used :
    (a : ℕ) (area : AreaStruct) (c : Cursor)
    → c.focus.free ≡ 1
    → (m : AreaStruct) → merge_neighbors_region area c ≡ some m
    → used_at a m.regions ≡ (used_at a c.before || used_at a c.after)
unfolding merge_neighbors_region
merge_neighbors_region-used a area c f m e =
    let c' = merge_next c in
    let f' = merge_next-free c ∙ f in
    remove_last-used a area (merge_prev area c') (merge_prev-IsFree area c' f') m e
    ∙ merge_prev-used a area c' f'
    ∙ rw (merge_next-before c, merge_next-used a c)

-- Freeing a region takes back exactly the bytes that it covers: every other byte of the area stays
-- as it was, given out or not.
pub free_region-used :
    (lo hi : ℕ) (area : AreaStruct) (c : Cursor)
    → CursorOrdered lo c hi
    → Holds
        (λ m. (a : ℕ) → used_at a m.regions ≡ (used_at a (nodes c) && not (covers a c.focus)))
        (free_region area c)
unfolding free_region
free_region-used lo hi area c o = Holds-intro _ (free_region area c) λ m e a.
    merge_neighbors_region-used a _ (record c { focus = record c.focus { free = 1 } }) refl m e
    ∙ without a
  where
    without :
        (a : ℕ)
        → (used_at a c.before || used_at a c.after)
          ≡ (used_at a (nodes c) && not (covers a c.focus))
    without a =
        rw (used_at-rebuild a c.before (c.focus ∷ c.after)) (elim (Bool-cases (covers a c.focus)) [
          | inl h ↦
              let alone = covers_alone a lo hi c.before c.focus c.after o h in
              rw (h, alone.0, alone.1) (ground arith)
          | inr h ↦ unfold used_at in rw h (ground arith)
        ])
