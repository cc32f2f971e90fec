-- ===== src/Entry/Clear.antt =====
-- `can_remove_page` finds the pages that no other region has a byte in.
use netmalloc.Common.{
  ℕ, ◌+◌, ◌≤◌, ◌<◌, ◌≡◌, refl, inl, inr, true, false, not, List, [], ◌∷◌, arith, ◌==◌, ltb,
  if◌then◌else◌, add64, add64-eq_add, ulong_mod, Bool-cases,
}
use netmalloc.Align.Bounds.{align_floor-bounds, align_ceil-bounds}
use netmalloc.Align.{align_floor, align_ceil}
use netmalloc.Vma.{page_size}
use netmalloc.Region.{RegionStruct, Cursor}
use netmalloc.Region.Order.{end_of, Ordered, OrderedBack, end_behind, CursorOrdered, end_behind-le}
use netmalloc.Area.{page_shift}
use netmalloc.Area.Lookup.{touches}
use netmalloc.Entry.{first_used, blocked_before, blocked_behind, can_remove_page}

module _ (page : ℕ) where
  touches-behind :
      (lo : ℕ) (bs : List RegionStruct)
      → OrderedBack lo bs
      → end_behind lo bs ≤ page
      → touches page bs ≡ false
  unfolding touches
  touches-behind lo [] b h = refl
  touches-behind lo (r ∷ bs) b h = ground (arith, touches-behind lo bs b.1 (omega arith))

  touches-below :
      (lo hi : ℕ) (l : List RegionStruct)
      → Ordered lo l hi
      → page + page_size ≤ lo
      → touches page l ≡ false
  unfolding touches
  touches-below lo hi [] o h = refl
  touches-below lo hi (r ∷ l) o h = ground (arith, touches-below (end_of r) hi l o.1 (omega arith))

  -- The nearest region in use in front ends at or below the page.
  first_used-before :
      (lo : ℕ) (bs : List RegionStruct) (r : RegionStruct)
      → OrderedBack lo bs
      → end_of (first_used bs r) ≤ page
      → touches page bs ≡ false
  unfolding touches first_used
  first_used-before lo [] r b h = refl
  first_used-before lo (q ∷ bs) r b h = elim (Bool-cases (q.free == 0)) [
    | inl e ↦ let k : end_of q ≤ page = rw e at h in touches-behind lo (q ∷ bs) b k
    | inr e ↦
        let k : end_of (first_used bs q) ≤ page = rw e at h in
        rw e (first_used-before lo bs q b.1 k)
  ]

  first_used-behind :
      (lo hi : ℕ) (l : List RegionStruct) (r : RegionStruct)
      → Ordered lo l hi
      → page + page_size ≤ (first_used l r).virtual_start
      → touches page l ≡ false
  unfolding touches first_used
  first_used-behind lo hi [] r o h = refl
  first_used-behind lo hi (q ∷ l) r o h = elim (Bool-cases (q.free == 0)) [
    | inl e ↦
        let k : page + page_size ≤ q.virtual_start = rw e at h in
        touches-below q.virtual_start hi (q ∷ l) (omega arith, o.1) k
    | inr e ↦
        let k : page + page_size ≤ (first_used l q).virtual_start = rw e at h in
        rw e (first_used-behind (end_of q) hi l q o.1 k)
  ]

first_used-le :
    (lo hi : ℕ) (bs : List RegionStruct) (r : RegionStruct)
    → OrderedBack lo bs
    → end_behind lo bs ≤ hi
    → end_of r ≤ hi
    → end_of (first_used bs r) ≤ hi
unfolding first_used
first_used-le lo hi [] r b k h = h
first_used-le lo hi (q ∷ bs) r b k h = ground (arith, first_used-le lo hi bs q b.1 (omega arith) k)

blocked_before-clear :
    (page lo hi : ℕ) (bs : List RegionStruct)
    → hi + page_size < ulong_mod
    → OrderedBack lo bs
    → end_behind lo bs ≤ hi
    → blocked_before page bs ≡ false
    → touches page bs ≡ false
blocked_before-clear page lo hi [] fits b k h = unfold touches in refl
blocked_before-clear page lo hi (q ∷ bs) fits b k h =
    let prev = first_used (q ∷ bs) q in
    let le = first_used-le lo hi (q ∷ bs) q b k k in
    first_used-before page lo (q ∷ bs) q b (go le (unfold blocked_before in h))
  where
    go :
        let prev = first_used (q ∷ bs) q in
        end_of prev ≤ hi
        → ltb page (align_ceil (add64 prev.virtual_start prev.size) page_shift) ≡ false
        → end_of prev ≤ page
    go le h' =
        let prev = first_used (q ∷ bs) q in
        let e = add64-eq_add prev.virtual_start prev.size (omega arith) in
        let h'' = rw e at h' in
        ground (arith, align_ceil-bounds (end_of prev) page_shift (omega arith))

blocked_behind-clear :
    (page lo hi : ℕ) (l : List RegionStruct)
    → page + page_size < ulong_mod
    → Ordered lo l hi
    → blocked_behind page l ≡ false
    → touches page l ≡ false
blocked_behind-clear page lo hi [] fits o h = unfold touches in refl
blocked_behind-clear page lo hi (q ∷ l) fits o h =
    first_used-behind page lo hi (q ∷ l) q o (go (unfold blocked_behind in h))
  where
    go :
        let next = first_used (q ∷ l) q in
        ltb (align_floor next.virtual_start page_shift) (add64 page page_size) ≡ false
        → page + page_size ≤ next.virtual_start
    go h' =
        let next = first_used (q ∷ l) q in
        let h'' = rw (add64-eq_add page page_size fits) at h' in
        ground (arith, align_floor-bounds next.virtual_start page_shift)

-- A page that `can_remove_page` lets go has no byte of a region in use other than the one at hand, if
-- the regions are in order and no sum wraps.
pub can_remove_page-clear :
    (page lo hi : ℕ) (c : Cursor)
    → hi + page_size < ulong_mod
    → page + page_size < ulong_mod
    → CursorOrdered lo c hi
    → can_remove_page page c ≡ true
    → (touches page c.before ≡ false) × (touches page c.after ≡ false)
can_remove_page-clear page lo hi c fits small o h =
    let le = end_behind-le lo hi c.before (c.focus ∷ c.after) o.1 in
    let (f, g) = go (unfold can_remove_page in h) in
    (
      blocked_before-clear page lo hi c.before fits o.0 le f,
      blocked_behind-clear page (end_of c.focus) hi c.after small o.1.1 g,
    )
  where
    go :
        (if blocked_before page c.before then false else not (blocked_behind page c.after)) ≡ true
        → (blocked_before page c.before ≡ false) × (blocked_behind page c.after ≡ false)
    go h' = ground (arith, h')
