-- ===== src/System/Served.antt =====
-- An allocation and the faults in it: every byte that an allocation returns can be brought in.
use mathlib.Core.Option
use netmalloc.Common.{
  ℕ, ◌+◌, ◌<◌, ◌≡◌, inl, inr, true, false, Option, none, some, List, [], ◌∷◌, arith, rebuild,
  ulong_mod, Bool-cases, Option-cases, Holds, Holds-bind, Holds-some, Holds-map, Holds-imp, ◌≤◌,
  if◌then◌else◌, is_negative,
}
use netmalloc.Align.{align_floor}
use netmalloc.Align.Bounds.{align_floor-bounds}
use netmalloc.Vma.{VmAreaStruct}
use netmalloc.Region.{RegionStruct, AreaStruct, add_region}
use netmalloc.Region.Order.{Ordered}
use netmalloc.Region.Same.{add_region-SameOwner}
use netmalloc.Region.Used.{covers, used_at}
use netmalloc.Region.Used.Add.{Gives, add_region-Gives}
use netmalloc.Area.{
  Areas, AreaCursor, page_shift, CreateAnswers, get_area_container, add_region_at, create_region,
}
use netmalloc.Storage.{StorageOps}
use netmalloc.Pager.{State, UnmapAnswers, unmap_page}
use netmalloc.Entry.{generic_malloc}
use netmalloc.System.Unmapping.{OutPaged}
use netmalloc.System.Faults.{unmap_page-Paged}
use netmalloc.System.Steps.{WellFormed}
use netmalloc.Area.Lookup.{touches, touched}
use netmalloc.System.Areas.{AreasSound, Grants}
use netmalloc.System.Creation.{ContainerSound, get_area_container-Sound, nodes_sound}

-- A byte that is given out lies in a page that the regions touch.
used_at-touches :
    (x : ℕ) (l : List RegionStruct)
    → used_at x l ≡ true
    → touches (align_floor x page_shift) l ≡ true
unfolding used_at touches
used_at-touches x [] h = h
used_at-touches x (r ∷ l) h = ground (arith, align_floor-bounds x page_shift, used_at-touches x l)

touched-rebuild :
    (page vma : ℕ) (bs l : List AreaStruct)
    → touched page vma l ≡ true
    → touched page vma (rebuild bs l) ≡ true
unfolding touched rebuild
touched-rebuild page vma [] l h = h
touched-rebuild page vma (b ∷ bs) l h = touched-rebuild page vma bs (b ∷ l) (ground arith)

-- Every byte of the region lies in a page that may be accessed through one structure.
abbrev pub Serves : ℕ → Areas → RegionStruct → Type 0
Serves size s region =
    (region.size ≡ size)
    × (vma : ℕ) × (v : VmAreaStruct) × (s.vmas.heap vma ≡ some v)
    × ((x : ℕ) → covers x region ≡ true → touched (align_floor x page_shift) vma s.area_list ≡ true)

abbrev pub OutServes : ℕ → Areas × Option RegionStruct → Type 0
OutServes size (s, none) = Unit {0}
OutServes size (s, some region) = Serves size s region

module _ (k : CreateAnswers) (hi size : ℕ) (split : k.split_ok ≡ true)
    (fits : hi + size < ulong_mod) where
  add_region-Serves :
      (t : Areas) (c : AreaCursor) (v : VmAreaStruct) (after : AreaStruct) (region : RegionStruct)
      → t.vmas.heap c.area.vma ≡ some v
      → ((x : ℕ) → Gives x size c.area.regions (after, some region))
      → after.vma ≡ c.area.vma
      → Serves size (record t { area_list = rebuild c.before (after ∷ c.after) }) region
  unfolding touched
  add_region-Serves t c v after region held gives same = (
    (gives 0).0,
    c.area.vma,
    v,
    held,
    λ x h.
        let page = align_floor x page_shift in
        let in_use : used_at x after.regions ≡ true = ground (arith, gives x) in
        touched-rebuild page c.area.vma c.before (after ∷ c.after)
          (ground (arith, used_at-touches x after.regions in_use)),
  )

  add_region_at-Serves :
      (t : Areas) (c : AreaCursor) (v : VmAreaStruct)
      → t.vmas.heap c.area.vma ≡ some v
      → Ordered v.vm_start c.area.regions hi
      → Holds (OutServes size) (add_region_at k t c size)
  unfolding add_region_at
  add_region_at-Serves t c v held o =
      let added = add_region true k.append_ok v.vm_start c.area size in
      rw (held, split)
        (Holds-bind (OutServes size) added _ λ out e.
          go out.0 out.1
            (λ x.
              Holds-some (Gives x size c.area.regions) added
                (add_region-Gives x v.vm_start hi k.append_ok c.area size (omega arith) o) e)
            (Holds-some _ added (add_region-SameOwner true k.append_ok v.vm_start c.area size) e).0)
    where
      go :
          (after : AreaStruct) (region : Option RegionStruct)
          → ((x : ℕ) → Gives x size c.area.regions (after, region))
          → after.vma ≡ c.area.vma
          → OutServes size (record t { area_list = rebuild c.before (after ∷ c.after) }, region)
      go after none gives same = tt
      go after (some region) gives same = add_region-Serves t c v after region held gives same

  pub create_region-Serves :
      (s : Areas) (pid mm : ℕ)
      → Grants k hi s mm size
      → AreasSound hi s
      → Holds (OutServes size) (create_region k s pid mm size)
  unfolding create_region
  create_region-Serves s pid mm g w =
      let searching = get_area_container k s pid mm size in
      Holds-bind (OutServes size) searching _ λ out e. go out.0 out.1 (
        Holds-some (ContainerSound hi) searching (get_area_container-Sound k hi s pid mm size g w)
          e)
    where
      at_container :
          (t : Areas) (c : AreaCursor)
          → ContainerSound hi (t, some c)
          → Holds (OutServes size) (add_region_at k t c size)
      at_container t c sound = elim (Option-cases (t.vmas.heap c.area.vma)) [
        | inl e ↦ unfold add_region_at in rw e tt
        | inr (v, e) ↦
            let (before, here, behind) = nodes_sound k hi s pid mm size g w t c sound in
            add_region_at-Serves t c v e (rw (here.start v e) here.ordered)
      ]

      go :
          (t : Areas) (found : Option AreaCursor)
          → ContainerSound hi (t, found)
          → Holds
              (OutServes size)
              (elim found [ none ↦ some (t, none) | some c ↦ add_region_at k t c size ])
      go t none sound = tt
      go t (some c) sound = at_container t c sound

module _ {Page : Type 0} (ops : StorageOps Page) (zero_page : Page) (size : ℕ) where
  -- Every byte of the allocation at `ptr` lies in a page that may be accessed through one structure.
  abbrev pub Served : State ops zero_page → ℕ → Type 0
  Served t ptr =
      (vma : ℕ) × (v : VmAreaStruct) × (t.areas.vmas.heap vma ≡ some v)
      × ((x : ℕ)
          → ptr ≤ x
          → x < ptr + size
          → touched (align_floor x page_shift) vma t.areas.area_list ≡ true)

  abbrev pub OutServed : State ops zero_page × Option ℕ → Type 0
  OutServed (t, none) = Unit {0}
  OutServed (t, some ptr) = Served t ptr

  Serves-Served :
      (t : State ops zero_page) (s : Areas) (region : RegionStruct)
      → t.areas ≡ s
      → Serves size s region
      → Served t region.virtual_start
  Serves-Served t s region same (sized, vma, v, held, pages) =
      rw same (vma, v, held, λ x above below. pages x (ground arith))

  pub generic_malloc-Served :
      (hi : ℕ) (s : State ops zero_page) (kc : CreateAnswers) (k k' : UnmapAnswers) (pid mm : ℕ)
      → WellFormed ops zero_page hi s
      → Grants kc hi s.areas mm size
      → kc.split_ok ≡ true
      → hi + size < ulong_mod
      → Holds OutServed (generic_malloc ops zero_page kc k k' s pid mm size)
  unfolding generic_malloc
  generic_malloc-Served hi s kc k k' pid mm w g split fits =
      Holds-bind OutServed (create_region kc s.areas pid mm size) _ λ out e. unmapped out.0 out.1 (
        Holds-some (OutServes size) (create_region kc s.areas pid mm size)
          (create_region-Serves kc hi size split fits s.areas pid mm g w.areas) e)
    where
      unmapped :
          (areas : Areas) (region : Option RegionStruct)
          → OutServes size (areas, region)
          → let created : State ops zero_page = record s { areas = areas } in
            Holds OutServed (elim region [
              | none ↦ some (created, none)
              | some r ↦
                  Option.map
                    (λ out. (out.0, if is_negative out.1 then none else some r.virtual_start))
                    (unmap_page ops zero_page k k' created pid false)
            ])
      unmapped areas none o = tt
      unmapped areas (some r) o =
          let created : State ops zero_page = record s { areas = areas } in
          let unmapping = unmap_page ops zero_page k k' created pid false in
          Holds-map OutServed _ unmapping (
            Holds-imp (OutPaged ops zero_page created) _ unmapping
              (λ out p. elim (Bool-cases (is_negative out.1)) [
                | inl e ↦ rw e tt
                | inr e ↦ rw e (Serves-Served out.0 areas r p.areas o)
              ])
              (unmap_page-Paged ops zero_page k k' created pid w.buffers w.distinct))
