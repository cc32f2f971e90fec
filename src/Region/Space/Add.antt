-- ===== src/Region/Space/Add.antt =====
-- Allocation and the account of the free space.
use netmalloc.Common.{
  ℕ, ◌+◌, ◌-◌, ◌≤◌, ◌<◌, ◌≡◌, refl, ap, inl, inr, Bool, true, false, ◌&&◌, Option, none, some, List,
  [], ◌∷◌, arith, ◌==◌, ltb, if◌then◌else◌, rebuild, Bool-cases, add64, sub64, ulong_mod,
  sub64-eq_sub, Holds, Holds-map, Holds-imp, Holds-intro,
}
use netmalloc.Region.Merge.{split_cursor, front_part, cut_area, split_region-eq}
use netmalloc.Region.{
  RegionStruct, AreaStruct, add_region_after, start_behind, merge_neighbors_region, split_region,
  scan_regions, get_free_region, append_region, or_append, add_region,
}
use netmalloc.Region.Space.{used_size, used_size-rebuild, merge_neighbors_region-size}

-- The first free region that is large enough has the size asked for.
unfoldable pub reuses : ℕ → List RegionStruct → Bool
reuses size [] = false
reuses size (r ∷ l) =
    if r.size == size && r.free == 1
    then true
    else if ltb size r.size && r.free == 1
    then false
    else reuses size l

-- The sizes are words.
abbrev pub Below : List RegionStruct → Type 0
Below [] = Unit {0}
Below (r ∷ l) = (r.size < ulong_mod) × Below l

-- The account of a split, as the code moves it back and forth.
net_space :
    (fs size rest : ℕ)
    → size ≤ fs
    → fs < ulong_mod
    → rest < ulong_mod
    → add64 (sub64 (sub64 fs size) rest) rest ≡ fs - size
unfolding add64 sub64
net_space fs size rest h k l = omega arith

-- The account after an allocation: `size` more bytes are in use, and as many are taken off the free
-- space unless a region was reused whole (`exact`); NULL leaves the area as it was.
abbrev pub Charged : AreaStruct → ℕ → Bool → AreaStruct → Type 0
Charged area size exact area' =
    (area'.free_space ≡ (if exact then area.free_space else area.free_space - size))
    × (used_size area'.regions ≡ used_size area.regions + size)

abbrev pub AccountsFor : AreaStruct → ℕ → Bool → AreaStruct × Option RegionStruct → Type 0
AccountsFor area size exact (area', none) = (area' ≡ area) × (exact ≡ false)
AccountsFor area size exact (area', some region) = Charged area size exact area'

module _ (lo size : ℕ) (area : AreaStruct) (enough : size ≤ area.free_space)
    (fits : area.free_space < ulong_mod) where
  abbrev Accounts : Bool → AreaStruct × Option RegionStruct → Type 0
  Accounts = AccountsFor area size

  split_accounted :
      (bs : List RegionStruct) (r : RegionStruct) (l : List RegionStruct)
      → size < r.size
      → r.size < ulong_mod
      → r.free ≡ 1
      → used_size area.regions ≡ used_size (rebuild bs (r ∷ l))
      → (m : AreaStruct)
      → (used_size m.regions ≡ used_size (front_part r size ∷ bs) + used_size l)
        × (m.free_space ≡ (cut_area area size bs r l).free_space)
      → Charged area size false m
  split_accounted bs r l h k f whole m t =
      let n = net_space area.free_space size (r.size - size) enough fits (omega arith) in
      let s = sub64-eq_sub r.size size (omega arith) k in
      unfold used_size in
      (ground (arith, t, n, s), ground (arith, t, whole, used_size-rebuild bs (r ∷ l)))

  split_region-Accounts :
      (bs : List RegionStruct) (r : RegionStruct) (l : List RegionStruct)
      → size < r.size
      → r.size < ulong_mod
      → r.free ≡ 1
      → used_size area.regions ≡ used_size (rebuild bs (r ∷ l))
      → Holds (Accounts false) (split_region true lo area size bs r l)
  split_region-Accounts bs r l h k f whole =
      let cut = cut_area area size bs r l in
      let merged = merge_neighbors_region cut (split_cursor bs r size l) in
      let P : AreaStruct → Type 0 = Charged area size false in
      rw (split_region-eq lo area size bs r l) (
        Holds-map (Accounts false) _ merged (
          Holds-intro P merged λ m e.
            split_accounted bs r l h k f whole m
              (merge_neighbors_region-size cut (split_cursor bs r size l) refl m e)))

  exact_accounted :
      (bs : List RegionStruct) (r : RegionStruct) (l : List RegionStruct)
      → (r.size ≡ size) × (r.free ≡ 1)
      → area.regions ≡ rebuild bs (r ∷ l)
      → used_size (rebuild bs (record r { free = 0 } ∷ l)) ≡ used_size area.regions + size
  unfolding used_size
  exact_accounted bs r l h whole = ground (
    arith,
    ap used_size whole,
    used_size-rebuild bs (r ∷ l),
    used_size-rebuild bs (record r { free = 0 } ∷ l),
  )

  scan_regions-Accounts :
      (bs l : List RegionStruct)
      → area.regions ≡ rebuild bs l
      → Below l
      → Holds (Accounts (reuses size l)) (scan_regions true lo area size bs l)
  unfolding scan_regions reuses
  scan_regions-Accounts bs [] whole b = (refl, refl)
  scan_regions-Accounts bs (r ∷ l) whole b = elim (Bool-cases (r.size == size && r.free == 1)) [
    | inl e ↦ rw e (refl, exact_accounted bs r l (ground arith) whole)
    | inr e ↦ rw e (elim (Bool-cases (ltb size r.size && r.free == 1)) [
      | inl e' ↦
          rw e'
            (split_region-Accounts bs r l (ground arith) b.0 (ground arith) (ap used_size whole))
      | inr e' ↦ rw e' (scan_regions-Accounts (r ∷ bs) l (unfold rebuild in whole) b.1)
    ])
  ]

  append_region-Accounts : (ok : Bool) → Accounts false (append_region ok lo area size)
  unfolding append_region add_region_after used_size
  append_region-Accounts false = (refl, refl)
  append_region-Accounts true =
      let bs = rebuild area.regions [] in
      (
        sub64-eq_sub area.free_space size enough fits,
        ground (
          arith,
          used_size-rebuild bs
              (record { free = 0; size = size; virtual_start = start_behind lo bs } ∷ []),
          used_size-rebuild area.regions [],
        ),
      )

  or_append-Accounts :
      (ok : Bool) (out : AreaStruct × Option RegionStruct)
      → Accounts (reuses size area.regions) out
      → Accounts (reuses size area.regions) (or_append ok lo size out)
  unfolding or_append
  or_append-Accounts ok (area', some region) h = h
  or_append-Accounts ok (area', none) h = rw (h.0, h.1) (append_region-Accounts ok)

-- An allocation in an area that claims enough free space: whatever is not reused whole is taken off
-- the account, so that it stays in step with the regions in use; a free region of exactly the size
-- asked for is handed out without that, so that the area claims `size` bytes too many afterwards.
pub add_region-Accounts :
    (append_ok : Bool) (lo size : ℕ) (area : AreaStruct)
    → size ≤ area.free_space
    → area.free_space < ulong_mod
    → Below area.regions
    → Holds
        (AccountsFor area size (reuses size area.regions))
        (add_region true append_ok lo area size)
unfolding add_region get_free_region rebuild
add_region-Accounts ok lo size area enough fits b =
    let found = scan_regions true lo area size [] area.regions in
    Holds-map _ (or_append ok lo size) found (
      Holds-imp _ _ found (or_append-Accounts lo size area enough fits ok)
        (scan_regions-Accounts lo size area enough fits [] area.regions refl b))
