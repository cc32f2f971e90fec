-- ===== src/Region/Order/Free.antt =====
-- Freeing a region and merging it with its neighbours keeps the order.
use netmalloc.Common.{
  ℕ, ◌<◌, List, [], ◌∷◌, arith, ◌==◌, inl, inr, Bool-cases, ulong_mod, add64, add64-eq_add, Holds,
}
use netmalloc.Region.{
  RegionStruct, AreaStruct, Cursor, cursor, merge_next, Place, node, head, merge_prev, remove_last,
  merge_neighbors_region, find_region, get_region, free_region,
}
use netmalloc.Region.Order.{
  end_of, Ordered, OrderedBack, end_behind, CursorOrdered, PlaceOrdered, Ordered-nodes, Ordered-le,
  Ordered-mono,
}

module _ (lo hi : ℕ) (fits : hi < ulong_mod) where
  -- A region swallows its neighbour.
  swallow :
      (s : ℕ) (r n : RegionStruct) (l : List RegionStruct)
      → Ordered s (r ∷ n ∷ l) hi
      → Ordered s (record r { size = add64 r.size n.size } ∷ l) hi
  swallow s r n l o =
      let end = Ordered-le (end_of n) hi l o.1.1 in
      rw (add64-eq_add r.size n.size (omega arith))
        (o.0, Ordered-mono (end_of n) _ hi hi l (omega arith) (omega arith) o.1.1)

  merge_next-Ordered :
      (bs : List RegionStruct) (r : RegionStruct) (l : List RegionStruct)
      → CursorOrdered lo (cursor bs r l) hi
      → CursorOrdered lo (merge_next (cursor bs r l)) hi
  unfolding merge_next
  merge_next-Ordered bs r [] o = o
  merge_next-Ordered bs r (n ∷ l) o = elim (Bool-cases (n.free == 1)) [
    | inl e ↦ rw e (o.0, swallow (end_behind lo bs) r n l o.1)
    | inr e ↦ rw e o
  ]

  merge_prev-Ordered :
      (area : AreaStruct) (bs : List RegionStruct) (r : RegionStruct) (l : List RegionStruct)
      → CursorOrdered lo (cursor bs r l) hi
      → PlaceOrdered lo (merge_prev area (cursor bs r l)) hi
  unfolding merge_prev
  merge_prev-Ordered area [] r l o = elim (Bool-cases (area.head_free == 1)) [
    | inl e ↦ rw e (Ordered-mono (end_of r) lo hi hi l (omega arith) (omega arith) o.1.1)
    | inr e ↦ rw e o
  ]
  merge_prev-Ordered area (p ∷ bs) r l o = elim (Bool-cases (p.free == 1)) [
    | inl e ↦ rw e (o.0.1, swallow (end_behind lo bs) p r l (o.0.0, o.1))
    | inr e ↦ rw e o
  ]

  remove_last-Ordered :
      (area : AreaStruct) (p : Place)
      → PlaceOrdered lo p hi
      → Holds (λ m. Ordered lo m.regions hi) (remove_last area p)
  unfolding remove_last
  remove_last-Ordered area (node c) o = node_case c.before c.focus c.after o
    where
      node_case :
          (bs : List RegionStruct) (r : RegionStruct) (l : List RegionStruct)
          → CursorOrdered lo (cursor bs r l) hi
          → Holds (λ m. Ordered lo m.regions hi) (remove_last area (node (cursor bs r l)))
      node_case bs r [] o' = Ordered-nodes lo hi bs [] o'.0 (omega arith)
      node_case bs r (x ∷ l) o' = Ordered-nodes lo hi bs (r ∷ x ∷ l) o'.0 o'.1
  remove_last-Ordered area (head size []) o = tt
  remove_last-Ordered area (head size (x ∷ l)) o = o

  pub merge_neighbors_region-Ordered :
      (area : AreaStruct) (c : Cursor)
      → CursorOrdered lo c hi
      → Holds (λ m. Ordered lo m.regions hi) (merge_neighbors_region area c)
  unfolding merge_neighbors_region
  merge_neighbors_region-Ordered area c o =
      let n = merge_next c in
      remove_last-Ordered area (merge_prev area n) (
        merge_prev-Ordered area n.before n.focus n.after
          (merge_next-Ordered c.before c.focus c.after o))

  -- Freeing a region, at a pointer into the list, keeps the regions in address order without overlap,
  -- between the same bounds.
  pub free_region-Ordered :
      (area : AreaStruct) (c : Cursor)
      → CursorOrdered lo c hi
      → Holds (λ m. Ordered lo m.regions hi) (free_region area c)
  unfolding free_region
  free_region-Ordered area c o =
      merge_neighbors_region-Ordered _ (record c { focus = record c.focus { free = 1 } }) o

  find_region-Ordered :
      (address : ℕ) (bs l : List RegionStruct)
      → OrderedBack lo bs × Ordered (end_behind lo bs) l hi
      → Holds (λ c. CursorOrdered lo c hi) (find_region address bs l)
  unfolding find_region
  find_region-Ordered address bs [] o = tt
  find_region-Ordered address bs (r ∷ l) o = elim (Bool-cases (r.virtual_start == address)) [
    | inl e ↦ rw e o
    | inr e ↦ rw e (find_region-Ordered address (r ∷ bs) l ((o.1.0, o.0), o.1.1))
  ]

  pub get_region-Ordered :
      (area : AreaStruct) (address : ℕ)
      → Ordered lo area.regions hi
      → Holds (λ c. CursorOrdered lo c hi) (get_region area address)
  unfolding get_region
  get_region-Ordered area address o = find_region-Ordered address [] area.regions (tt, o)
