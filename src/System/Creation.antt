-- ===== src/System/Creation.antt =====
-- What `create_region` leaves of the area list, on every branch.
use netmalloc.Common.{
  ℕ, ◌+◌, ◌<◌, ◌≡◌, ◌≢◌, refl, ◌∙◌, inl, inr, Bool, Option, none, some, List, [], ◌∷◌, arith, ◌==◌,
  leb, rebuild, rebuild-rebuild, ulong_mod, All, All-imp, All-intro, All-append, All-rebuild,
  All-split, Bool-cases, Option-cases, Holds, Holds-bind, Holds-some, Holds-and, Returns-and,
}
use netmalloc.Align.{align_ceil}
use netmalloc.Vma.{VmAreaStruct, Vmas, add_vma}
use netmalloc.Region.{RegionStruct, AreaStruct, add_region}
use netmalloc.Region.Same.{add_region-SameOwner}
use netmalloc.Region.Order.{Ordered}
use netmalloc.Region.Order.Add.{add_region-Ordered}
use netmalloc.Region.Coalesced.Add.{add_region-Coalesced}
use netmalloc.Area.{
  Areas, AreaCursor, area_nodes, vma_shift, new_area, CreateAnswers, extend_vma, new_container,
  scan_containers, get_area_container, add_region_at, create_region,
}
use netmalloc.System.Areas.{
  AreaSound, AllSound, AreasSound, KeepsStart, AllSound-keeps, AllSound-mono, Grows,
  extend_vma-Grows, AreaSound-grown, Grants, Adds, add_vma-Adds,
}

-- The areas are sound, and the container, if there is one, is one of them.
abbrev pub ContainerSound : ℕ → Areas × Option AreaCursor → Type 0
ContainerSound hi (s, none) = AreasSound hi s
ContainerSound hi (s, some c) = AreasSound hi s × (area_nodes c ≡ s.area_list)

abbrev OutSound : ℕ → Areas × Option RegionStruct → Type 0
OutSound hi (s, region) = AreasSound hi s

module _ (k : CreateAnswers) (hi : ℕ) (s : Areas) (pid mm size : ℕ) (g : Grants k hi s mm size)
    (w : AreasSound hi s) where
  new_area-Sound :
      (t : Vmas) (vma rounded : ℕ)
      → Adds k.vma hi s.vmas (t, vma)
      → AreaSound t hi (new_area rounded pid vma k.head_free k.head_size)
  new_area-Sound t vma rounded a = elim (Option-cases (t.heap vma)) [
    | inl e ↦ record {
      lo = 0;
      start = λ v h. cc;
      ordered = ground arith;
      coalesced = ground arith;
      head = g.head;
    }
    | inr (v, e) ↦ record {
      lo = v.vm_start;
      start = λ u h. ground arith;
      ordered = elim (Bool-cases (vma == 0)) [
        | inl z ↦ absurd (ground (arith, g.null, (a.0 0 (λ h. ground arith) v (ground arith)).1))
        | inr z ↦ a.1 v (ground arith) e
      ];
      coalesced = ground arith;
      head = g.head;
    }
  ]

  -- The structure that `add_vma` makes is no area's.
  old_areas-keep :
      (out : Vmas × ℕ)
      → Adds k.vma hi s.vmas out
      → All (λ a. KeepsStart s.vmas out.0 a.vma) s.area_list
  old_areas-keep out a = elim (Bool-cases (k.vma.kzalloc == 0)) [
    | inl e ↦
        All-intro (λ x. KeepsStart s.vmas out.0 x.vma)
          (λ x. a.0 x.vma λ h. absurd (h (ground arith))) s.area_list
    | inr e ↦
        All-imp (λ x. x.vma ≢ k.vma.kzalloc) (λ x. KeepsStart s.vmas out.0 x.vma)
          (λ x h. a.0 x.vma λ z. h) s.area_list (g.fresh (ground arith))
  ]

  new_container-Sound : Holds (ContainerSound hi) (new_container k s pid mm size)
  unfolding new_container
  new_container-Sound = elim (Bool-cases k.area_ok) [
    | inr e ↦ rw e tt
    | inl e ↦
        let rounded = align_ceil size vma_shift in
        rw e (
          Holds-bind (ContainerSound hi) (add_vma k.vma s.vmas mm rounded) _ λ out h.
            let a =
              Holds-some (Adds k.vma hi s.vmas) (add_vma k.vma s.vmas mm rounded)
                (add_vma-Adds k hi s mm size g) h in
            let sound =
              All-append (AreaSound out.0 hi) s.area_list _
                (AllSound-keeps s.vmas out.0 hi s.area_list (old_areas-keep out a) w)
                (new_area-Sound out.0 out.1 rounded a, tt) in
            elim (Bool-cases (out.1 == 0)) [
              | inl z ↦ rw z sound
              | inr z ↦ rw z (sound, rebuild-rebuild s.area_list [] _ ∙ (unfold rebuild in refl))
            ])
  ]

  -- The area behind `bs` is extended, or not.
  extended-Sound :
      (bs : List AreaStruct) (a : AreaStruct) (l : List AreaStruct)
      (out : Option (Vmas × AreaStruct))
      → rebuild bs (a ∷ l) ≡ s.area_list
      → Grows s.vmas a out
      → Holds (ContainerSound hi) (scan_containers k s pid mm size (a ∷ bs) l)
      → Holds (ContainerSound hi) (elim out [
        | none ↦ scan_containers k s pid mm size (a ∷ bs) l
        | some grown ↦ some (
          record { vmas = grown.0; area_list = rebuild bs (grown.1 ∷ l) },
          some (record { before = bs; area = grown.1; after = l }),
        )
      ])
  extended-Sound bs a l none whole g' rest = rest
  extended-Sound bs a l (some (t, b)) whole g' rest =
      let (before, behind) = All-split (AreaSound s.vmas hi) bs (a ∷ l) (rw whole w) in
      let keep : (m : List AreaStruct) → AllSound s.vmas hi m → AllSound t hi m = λ m.
        AllSound-keeps s.vmas t hi m
          (All-intro (λ x. KeepsStart s.vmas t x.vma) (λ x. g'.0 x.vma) m) in
      (
        All-rebuild (AreaSound t hi) bs (b ∷ l) (keep bs before)
            (AreaSound-grown s.vmas t hi a b g' behind.0, keep l behind.1),
        refl,
      )

  scan_containers-Sound :
      (bs l : List AreaStruct)
      → rebuild bs l ≡ s.area_list
      → Holds (ContainerSound hi) (scan_containers k s pid mm size bs l)
  unfolding scan_containers
  scan_containers-Sound bs [] whole = new_container-Sound
  scan_containers-Sound bs (a ∷ l) whole =
      let rest = scan_containers-Sound (a ∷ bs) l (unfold rebuild in whole) in
      elim (Bool-cases (a.pid == pid)) [
        | inl e ↦ elim (Bool-cases (leb size a.free_space)) [
          | inl f ↦ rw (e, f) (w, whole)
          | inr f ↦
              rw (e, f)
                (elim (Option-cases (extend_vma s.vmas a size)) [
                  | inl none' ↦ rw none' tt
                  | inr (out, h) ↦ rw h (
                      extended-Sound bs a l out whole
                        (Holds-some (Grows s.vmas a) (extend_vma s.vmas a size)
                          (extend_vma-Grows s.vmas a size) h)
                        rest)
                ])
        ]
        | inr e ↦ rw e rest
      ]

  pub get_area_container-Sound : Holds (ContainerSound hi) (get_area_container k s pid mm size)
  unfolding get_area_container rebuild
  get_area_container-Sound = scan_containers-Sound [] s.area_list refl

  add_region-Sound :
      (a : AreaStruct) (v : VmAreaStruct) (t : Vmas) (split_ok append_ok : Bool)
      → hi + size < ulong_mod
      → t.heap a.vma ≡ some v
      → AreaSound t hi a
      → Holds
          (λ out. AreaSound t (hi + size) out.0)
          (add_region split_ok append_ok v.vm_start a size)
  add_region-Sound a v t split_ok append_ok fits e o =
      let added = add_region split_ok append_ok v.vm_start a size in
      let ordered : Ordered v.vm_start a.regions hi = rw (o.start v e) o.ordered in
      let (out, h, c, held) =
        Returns-and _ _ added
          (add_region-Coalesced split_ok append_ok v.vm_start size a o.head o.coalesced)
          (Holds-and _ _ added
            (add_region-Ordered split_ok append_ok v.vm_start hi a size fits ordered)
            (add_region-SameOwner split_ok append_ok v.vm_start a size)) in
      rw h (record {
        lo = v.vm_start;
        start = λ u f. let f' = rw held.1.0 at f in ground arith;
        ordered = held.0;
        coalesced = c.0;
        head = ground (arith, o.head, c.1);
      })

  -- All areas but the container allow for what the container gets.
  pub nodes_sound :
      (t : Areas) (c : AreaCursor)
      → ContainerSound hi (t, some c)
      → AllSound t.vmas (hi + size) c.before
        × AreaSound t.vmas hi c.area
        × AllSound t.vmas (hi + size) c.after
  nodes_sound t c sound =
      let (before, behind) =
        All-split (AreaSound t.vmas hi) c.before (c.area ∷ c.after) (rw sound.1 sound.0) in
      (
        AllSound-mono t.vmas hi (hi + size) c.before (omega arith) before,
        behind.0,
        AllSound-mono t.vmas hi (hi + size) c.after (omega arith) behind.1,
      )

  add_region_at-Sound :
      (t : Areas) (c : AreaCursor)
      → hi + size < ulong_mod
      → ContainerSound hi (t, some c)
      → Holds (OutSound (hi + size)) (add_region_at k t c size)
  unfolding add_region_at
  add_region_at-Sound t c fits sound =
      let (before, here, after) = nodes_sound t c sound in
      Holds-bind (OutSound (hi + size)) (t.vmas.heap c.area.vma) _ λ v e.
        let added = add_region k.split_ok k.append_ok v.vm_start c.area size in
        Holds-bind (OutSound (hi + size)) added _ λ out h.
          All-rebuild (AreaSound t.vmas (hi + size)) c.before (out.0 ∷ c.after) before (
            Holds-some (λ o. AreaSound t.vmas (hi + size) o.0) added
                (add_region-Sound c.area v t.vmas k.split_ok k.append_ok fits e here) h,
            after,
          )

  -- Whatever the kernel answers, `create_region` leaves all areas sound, up to `size` bytes further.
  pub create_region-Sound :
      hi + size < ulong_mod → Holds (OutSound (hi + size)) (create_region k s pid mm size)
  unfolding create_region
  create_region-Sound fits =
      Holds-bind (OutSound (hi + size)) (get_area_container k s pid mm size) _ λ out e. placed out (
        Holds-some (ContainerSound hi) (get_area_container k s pid mm size) get_area_container-Sound
          e)
    where
      placed :
          (out : Areas × Option AreaCursor)
          → ContainerSound hi out
          → Holds
              (OutSound (hi + size))
              (elim out.1 [ none ↦ some (out.0, none) | some c ↦ add_region_at k out.0 c size ])
      placed (t, none) sound = AllSound-mono t.vmas hi (hi + size) t.area_list (omega arith) sound
      placed (t, some c) sound = add_region_at-Sound t c fits sound
