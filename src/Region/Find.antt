-- ===== src/Region/Find.antt =====
-- `get_region` returns a pointer into the list, to a region that starts at the address.
use netmalloc.Common.{
  ℕ, ◌≡◌, refl, inl, inr, List, [], ◌∷◌, arith, ◌==◌, rebuild, Bool-cases, Holds,
}
use netmalloc.Region.{RegionStruct, AreaStruct, Cursor, nodes, find_region, get_region}

abbrev pub PointsAt : ℕ → List RegionStruct → Cursor → Type 0
PointsAt address l c = (nodes c ≡ l) × (c.focus.virtual_start ≡ address)

find_region-PointsAt :
    (address : ℕ) (bs l : List RegionStruct)
    → Holds (PointsAt address (rebuild bs l)) (find_region address bs l)
unfolding find_region rebuild
find_region-PointsAt address bs [] = tt
find_region-PointsAt address bs (r ∷ l) = elim (Bool-cases (r.virtual_start == address)) [
  | inl e ↦ rw e (refl, ground arith)
  | inr e ↦ rw e (find_region-PointsAt address (r ∷ bs) l)
]

pub get_region-PointsAt :
    (area : AreaStruct) (address : ℕ)
    → Holds (PointsAt address area.regions) (get_region area address)
unfolding get_region rebuild
get_region-PointsAt area address = find_region-PointsAt address [] area.regions
