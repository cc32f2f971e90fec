-- ===== src/Area/Count.antt =====
-- `get_area_count` of src/area.c, as far as its callers look at it: is there an area of the process?
use netmalloc.Common.{ℕ, ◌≡◌, ◌≢◌, refl, inl, inr, List, [], ◌∷◌, arith, ◌==◌, All, Bool-cases}
use netmalloc.Region.{AreaStruct}
use netmalloc.Area.{get_area_count}

-- No area of the list is one of the process.
abbrev pub HasNone : ℕ → List AreaStruct → Type 0
HasNone pid l = All (λ a. a.pid ≢ pid) l

pub get_area_count-HasNone :
    (pid : ℕ) (l : List AreaStruct) → HasNone pid l → get_area_count pid l ≡ 0
unfolding get_area_count
get_area_count-HasNone pid [] h = refl
get_area_count-HasNone pid (a ∷ l) h = ground (arith, get_area_count-HasNone pid l h.1, h.0)

pub HasNone-get_area_count :
    (pid : ℕ) (l : List AreaStruct) → get_area_count pid l ≡ 0 → HasNone pid l
unfolding get_area_count
HasNone-get_area_count pid [] h = tt
HasNone-get_area_count pid (a ∷ l) h = elim (Bool-cases (a.pid == pid)) [
  | inl e ↦ let h' = rw e at h in absurd (ground arith)
  | inr e ↦ (ground arith, HasNone-get_area_count pid l (rw e at h))
]
