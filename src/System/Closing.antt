-- ===== src/System/Closing.antt =====
-- What the close handler leaves of the lists, on every branch.
use mathlib.Core.Path.{subst}
use netmalloc.Common.{
  none_ne_some, ◌+◌, ℕ, ◌≡◌, refl, sym, ap, ◌∙◌, inl, inr, some, List, [], ◌∷◌, arith, ◌==◌,
  Bool-cases, Option-cases, Holds, Holds-bind, Holds-some, Holds-imp, Holds-map,
}
use netmalloc.Storage.{StorageOps}
use netmalloc.StoredPage.Set.{Distinct}
use netmalloc.MappedBuffer.{Release}
use netmalloc.Vma.{Vmas}
use netmalloc.Region.{RegionStruct, AreaStruct}
use netmalloc.Region.Order.{Ordered-mono}
use netmalloc.Region.Coalesced.{CoalescedFrom-start}
use netmalloc.Area.{get_area_count}
use netmalloc.Pager.{State}
use netmalloc.Entry.{
  remove_storage_pages, set_regions, find_vma, unlink_area, close_regions, drop_area, close_vma,
}
use netmalloc.System.Areas.{AreaSound, AllSound}
use netmalloc.System.Buffers.{BuffersSound, remove_buffer-Sound}
use netmalloc.System.Saved.{Saved, remove_storage_pages-Saved}

-- The area of the structure, with other regions.
AllSound-set :
    (vmas : Vmas) (hi vma : ℕ) (regions : List RegionStruct) (l : List AreaStruct) (a : AreaStruct)
    → find_vma vma l ≡ some a
    → AreaSound vmas hi (record a { regions = regions })
    → AllSound vmas hi l
    → AllSound vmas hi (set_regions vma regions l)
unfolding set_regions find_vma
AllSound-set vmas hi vma regions [] a found w o = tt
AllSound-set vmas hi vma regions (b ∷ l) a found w o = elim (Bool-cases (b.vma == vma)) [
  | inl e ↦
      let found' = rw e at found in
      let q : b ≡ a = cc in
      rw e (subst (λ x. AreaSound vmas hi (record x { regions = regions })) (sym q) w, o.1)
  | inr e ↦ rw e (o.0, AllSound-set vmas hi vma regions l a (rw e at found) w o.1)
]

find_vma-set :
    (vma : ℕ) (regions : List RegionStruct) (l : List AreaStruct) (a : AreaStruct)
    → find_vma vma l ≡ some a
    → find_vma vma (set_regions vma regions l) ≡ some (record a { regions = regions })
unfolding set_regions find_vma
find_vma-set vma regions [] a found = cc
find_vma-set vma regions (b ∷ l) a found = elim (Bool-cases (b.vma == vma)) [
  | inl e ↦
      let found' = rw e at found in
      let q : b ≡ a = cc in
      rw (e, e) (ap {A = AreaStruct} (λ x. some (record x { regions = regions })) q)
  | inr e ↦ rw (e, e) (find_vma-set vma regions l a (rw e at found))
]

find_vma-Sound :
    (vmas : Vmas) (hi vma : ℕ) (l : List AreaStruct) (a : AreaStruct)
    → find_vma vma l ≡ some a
    → AllSound vmas hi l
    → AreaSound vmas hi a
unfolding find_vma
find_vma-Sound vmas hi vma [] a found o = absurd (none_ne_some found)
find_vma-Sound vmas hi vma (b ∷ l) a found o = elim (Bool-cases (b.vma == vma)) [
  | inl e ↦ let found' = rw e at found in let q : b ≡ a = cc in subst (AreaSound vmas hi) q o.0
  | inr e ↦ find_vma-Sound vmas hi vma l a (rw e at found) o.1
]

AllSound-unlink :
    (vmas : Vmas) (hi vma : ℕ) (l : List AreaStruct)
    → AllSound vmas hi l
    → AllSound vmas hi (unlink_area vma l)
unfolding unlink_area
AllSound-unlink vmas hi vma [] o = tt
AllSound-unlink vmas hi vma (a ∷ l) o = elim (Bool-cases (a.vma == vma)) [
  | inl e ↦ rw e o.1
  | inr e ↦ rw e (o.0, AllSound-unlink vmas hi vma l o.1)
]

-- Without the first region.
AreaSound-rest :
    (vmas : Vmas) (hi : ℕ) (a : AreaStruct) (r : RegionStruct) (l : List RegionStruct)
    → a.regions ≡ r ∷ l
    → AreaSound vmas hi a
    → AreaSound vmas hi (record a { regions = l })
AreaSound-rest vmas hi a r l e o =
    let ordered = rw e at o.ordered in
    let coalesced = rw e at o.coalesced in
    record {
      lo = o.lo;
      start = o.start;
      ordered =
          Ordered-mono (r.virtual_start + r.size) o.lo hi hi l (omega (arith, ordered.0))
            (omega arith) ordered.1;
      coalesced = CoalescedFrom-start r.free l coalesced.1;
      head = o.head;
    }

module _ {Page : Type 0} (ops : StorageOps Page) (zero_page : Page) (hi : ℕ) where
  pub record Closes (s t : State ops zero_page) : Type 0 where
    pub areas : AllSound t.areas.vmas hi t.areas.area_list
    pub buffers : t.buffers ≡ s.buffers
    pub distinct : Distinct t.stored_pages

  close_regions-Closes :
      (pid vma : ℕ) (l : List RegionStruct) (a : AreaStruct) (s : State ops zero_page)
      → AllSound s.areas.vmas hi s.areas.area_list
      → Distinct s.stored_pages
      → find_vma vma s.areas.area_list ≡ some a
      → a.regions ≡ l
      → Holds (Closes s) (close_regions ops zero_page pid vma l s)
  unfolding close_regions
  close_regions-Closes pid vma [] a s o d found e = record {
    areas = o;
    buffers = refl;
    distinct = d;
  }
  close_regions-Closes pid vma (r ∷ l) a s o d found e =
      Holds-bind (Closes s) (remove_storage_pages ops zero_page s pid r.virtual_start) _ λ t h.
        let saved =
          Holds-some (Saved ops zero_page s)
            (remove_storage_pages ops zero_page s pid r.virtual_start)
            (remove_storage_pages-Saved ops zero_page s pid r.virtual_start d) h in
        let o' : AllSound t.areas.vmas hi t.areas.area_list = rw saved.areas o in
        let found' : find_vma vma t.areas.area_list ≡ some a = rw saved.areas found in
        let rest =
          AreaSound-rest t.areas.vmas hi a r l e
            (find_vma-Sound t.areas.vmas hi vma t.areas.area_list a found' o') in
        let u : State ops zero_page = record t {
          areas = record t.areas { area_list = set_regions vma l t.areas.area_list };
        } in
        Holds-imp (Closes u) (Closes s) (close_regions ops zero_page pid vma l u)
          (λ v c. record {
            areas = c.areas;
            buffers = c.buffers ∙ saved.buffers;
            distinct = c.distinct;
          })
          (close_regions-Closes pid vma l (record a { regions = l }) u
            (AllSound-set t.areas.vmas hi vma l t.areas.area_list a found' rest o') saved.distinct
            (find_vma-set vma l t.areas.area_list a found') refl)

  -- The lists after the close handler.
  pub record ListsSound (t : State ops zero_page) : Type 0 where
    pub areas : AllSound t.areas.vmas hi t.areas.area_list
    pub buffers : BuffersSound t.buffers
    pub distinct : Distinct t.stored_pages

  abbrev pub OutLists : State ops zero_page × List Release → Type 0
  OutLists (t, released) = ListsSound t

  drop_area-Sound :
      (pid vma : ℕ) (s : State ops zero_page)
      → ListsSound s
      → OutLists (drop_area ops zero_page pid vma s)
  unfolding drop_area
  drop_area-Sound pid vma s c =
      let l = unlink_area vma s.areas.area_list in
      let areas = AllSound-unlink s.areas.vmas hi vma s.areas.area_list c.areas in
      elim (Bool-cases (get_area_count pid l == 0)) [
        | inl e ↦ rw e (record {
          areas = areas;
          buffers = remove_buffer-Sound pid s.buffers c.buffers;
          distinct = c.distinct;
        })
        | inr e ↦ rw e (record { areas = areas; buffers = c.buffers; distinct = c.distinct })
      ]

  -- The close handler leaves all lists sound, for any structure.
  pub close_vma-Sound :
      (s : State ops zero_page) (vma : ℕ)
      → ListsSound s
      → Holds OutLists (close_vma ops zero_page s vma)
  unfolding close_vma
  close_vma-Sound s vma c = elim (Option-cases (find_vma vma s.areas.area_list)) [
    | inl e ↦ rw (e, close_vma) c
    | inr (a, e) ↦
        let closing = close_regions ops zero_page a.pid vma a.regions s in
        rw (e, close_vma)
          (Holds-map OutLists (drop_area ops zero_page a.pid vma) closing (
            Holds-imp (Closes s) (λ t. OutLists (drop_area ops zero_page a.pid vma t)) closing
              (λ t h. drop_area-Sound a.pid vma t (record {
                areas = h.areas;
                buffers = rw h.buffers c.buffers;
                distinct = h.distinct;
              }))
              (close_regions-Closes a.pid vma a.regions a s c.areas c.distinct e refl)))
  ]
