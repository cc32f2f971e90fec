-- ===== src/Region/Order.antt =====
-- The regions of an area stand in address order and do not overlap. Every operation keeps this, also
-- where kmalloc fails halfway.
pub mod Free
pub mod Add
use netmalloc.Common.Chain
use netmalloc.Common.{ℕ, ◌+◌, ◌-◌, ◌≤◌, List, [], ◌∷◌, arith, rebuild}
use netmalloc.Region.{RegionStruct, Cursor, Place, node, head}

abbrev pub StartsAfter : ℕ → RegionStruct → Type 0
StartsAfter s r = s ≤ r.virtual_start

abbrev pub end_of : RegionStruct → ℕ
end_of r = r.virtual_start + r.size

-- From `lo` on and up to `hi`.
abbrev pub Ordered : ℕ → List RegionStruct → ℕ → Type 0
Ordered lo l hi = Chain.Chain StartsAfter end_of (λ s. s ≤ hi) lo l

abbrev pub OrderedBack : ℕ → List RegionStruct → Type 0
OrderedBack lo bs = Chain.Back StartsAfter end_of lo bs

abbrev pub end_behind : ℕ → List RegionStruct → ℕ
end_behind lo bs = Chain.state_after StartsAfter end_of lo bs

abbrev pub CursorOrdered : ℕ → Cursor → ℕ → Type 0
CursorOrdered lo c hi =
    OrderedBack lo c.before × Ordered (end_behind lo c.before) (c.focus ∷ c.after) hi

abbrev pub PlaceOrdered : ℕ → Place → ℕ → Type 0
PlaceOrdered lo (node c) hi = CursorOrdered lo c hi
PlaceOrdered lo (head size l) hi = Ordered lo l hi

pub Ordered-nodes :
    (lo hi : ℕ) (bs l : List RegionStruct)
    → OrderedBack lo bs
    → Ordered (end_behind lo bs) l hi
    → Ordered lo (rebuild bs l) hi
Ordered-nodes lo hi bs l b c = Chain.Chain-rebuild StartsAfter end_of (λ s. s ≤ hi) lo bs l b c

pub Ordered-split :
    (lo hi : ℕ) (bs l : List RegionStruct)
    → Ordered lo (rebuild bs l) hi
    → OrderedBack lo bs × Ordered (end_behind lo bs) l hi
Ordered-split lo hi bs l c = Chain.Chain-split StartsAfter end_of (λ s. s ≤ hi) lo bs l c

pub Ordered-le : (lo hi : ℕ) (l : List RegionStruct) → Ordered lo l hi → lo ≤ hi
Ordered-le lo hi [] o = o
Ordered-le lo hi (r ∷ l) o = omega (arith, Ordered-le (end_of r) hi l o.1)

pub Ordered-mono :
    (lo lo' hi hi' : ℕ) (l : List RegionStruct)
    → lo' ≤ lo
    → hi ≤ hi'
    → Ordered lo l hi
    → Ordered lo' l hi'
Ordered-mono lo lo' hi hi' [] h k o = omega arith
Ordered-mono lo lo' hi hi' (r ∷ l) h k o =
    (omega arith, Ordered-mono (end_of r) (end_of r) hi hi' l (omega arith) k o.1)

-- The end of the region in front lies within any order that goes on behind it.
pub end_behind-le :
    (lo hi : ℕ) (bs l : List RegionStruct) → Ordered (end_behind lo bs) l hi → end_behind lo bs ≤ hi
end_behind-le lo hi bs l o = Ordered-le (end_behind lo bs) hi l o

pub lo-le-end_behind : (lo : ℕ) (bs : List RegionStruct) → OrderedBack lo bs → lo ≤ end_behind lo bs
lo-le-end_behind lo [] b = omega arith
lo-le-end_behind lo (x ∷ bs) b = omega (arith, lo-le-end_behind lo bs b.1)
