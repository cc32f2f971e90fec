-- ===== src/Area/Create.antt =====
-- What an allocation does where the space of an area is scattered, and where no structure can be made.
use mathlib.Core.Path.{subst}
use netmalloc.Common.{
  sym, ◌∙◌, rebuild-rebuild, ℕ, ◌≤◌, ◌<◌, ◌≡◌, refl, Bool, true, false, ◌&&◌, none, some, List, [],
  ◌∷◌, ◌++◌, arith, ◌==◌, leb, if◌then◌else◌, rebuild, sub64, ulong_mod, Returns,
}
use netmalloc.Vma.{VmAreaStruct, Vmas, add_vma}
use netmalloc.Region.{
  RegionStruct, AreaStruct, start_behind, scan_regions, add_region, get_free_region, append_region,
  or_append,
}
use netmalloc.Region.Order.{Ordered}
use netmalloc.Region.Order.Add.{tail_end, reversed, start_behind-eq}
use netmalloc.Area.Count.{HasNone}
use netmalloc.Area.{
  Areas, CreateAnswers, find_area, get_area, get_area_count, new_container, scan_containers,
  get_area_container, area_cursor, add_region_at, create_region,
}

-- No free region of the list holds `size` bytes.
unfoldable pub none_fits : ℕ → List RegionStruct → Bool
none_fits size [] = true
none_fits size (r ∷ l) = if r.free == 1 && leb size r.size then false else none_fits size l

scan_regions-none :
    (ok : Bool) (lo size : ℕ) (area : AreaStruct) (bs l : List RegionStruct)
    → none_fits size l ≡ true
    → scan_regions ok lo area size bs l ≡ some (area, none)
unfolding scan_regions none_fits
scan_regions-none ok lo size area bs [] h = refl
scan_regions-none ok lo size area bs (r ∷ l) h =
    ground (arith, scan_regions-none ok lo size area (r ∷ bs) l)

-- The region that `add_region` puts behind the last one.
abbrev last_region : ℕ → ℕ → AreaStruct → RegionStruct
last_region lo size area = record {
  free = 0;
  size = size;
  virtual_start = start_behind lo (rebuild area.regions []);
}

abbrev with_last : ℕ → ℕ → AreaStruct → AreaStruct
with_last lo size area = record area {
  free_space = sub64 area.free_space size;
  regions = rebuild (rebuild area.regions []) (last_region lo size area ∷ []);
}

add_region-tail :
    (ok : Bool) (lo size : ℕ) (area : AreaStruct)
    → none_fits size area.regions ≡ true
    → add_region ok true lo area size
      ≡ some (with_last lo size area, some (last_region lo size area))
unfolding add_region get_free_region or_append append_region
add_region-tail ok lo size area h = rw (scan_regions-none ok lo size area [] area.regions h) refl

-- The areas of other processes are passed over.
scan_containers-others :
    (k : CreateAnswers) (s : Areas) (pid mm size : ℕ) (bs l : List AreaStruct)
    → HasNone pid bs
    → scan_containers k s pid mm size [] (rebuild bs l) ≡ scan_containers k s pid mm size bs l
unfolding scan_containers rebuild
scan_containers-others k s pid mm size [] l h = refl
scan_containers-others k s pid mm size (b ∷ bs) l h =
    let e : (b.pid == pid) ≡ false = ground arith in
    scan_containers-others k s pid mm size bs (b ∷ l) h.1 ∙ rw e refl

scan_containers-first :
    (k : CreateAnswers) (s : Areas) (pid mm size : ℕ) (bs : List AreaStruct) (a : AreaStruct)
    (l : List AreaStruct)
    → a.pid ≡ pid
    → size ≤ a.free_space
    → scan_containers k s pid mm size bs (a ∷ l) ≡ some (s, some (area_cursor bs a l))
unfolding scan_containers
scan_containers-first k s pid mm size bs a l p enough = ground arith

-- The first area of the process claims enough space, so it is the container.
first_container :
    (k : CreateAnswers) (s : Areas) (pid mm size : ℕ) (bs : List AreaStruct) (a : AreaStruct)
    (l : List AreaStruct)
    → s.area_list ≡ rebuild bs (a ∷ l)
    → HasNone pid bs
    → a.pid ≡ pid
    → size ≤ a.free_space
    → get_area_container k s pid mm size ≡ some (s, some (area_cursor bs a l))
unfolding get_area_container
first_container k s pid mm size bs a l whole h p enough =
    subst (λ x. scan_containers k s pid mm size [] x ≡ some (s, some (area_cursor bs a l)))
      (sym whole)
      (scan_containers-others k s pid mm size bs (a ∷ l) h
        ∙ scan_containers-first k s pid mm size bs a l p enough)

-- A region in the first area of a process, which may stand behind areas of others, when that area
-- has its structure and claims enough free space, no free region there is large enough, its regions
-- are in order and end below 2 ^ 64, and kmalloc has memory for the node: the allocation returns a
-- region of the size asked for, in use, which the area has got behind all its other regions, at the
-- end of the last one, however little room is left there in the structure; the other areas are
-- untouched.
pub create_region-tail :
    (k : CreateAnswers) (s : Areas) (pid mm size hi : ℕ) (bs : List AreaStruct) (a : AreaStruct)
    (l : List AreaStruct) (v : VmAreaStruct)
    → s.area_list ≡ rebuild bs (a ∷ l)
    → HasNone pid bs
    → a.pid ≡ pid
    → s.vmas.heap a.vma ≡ some v
    → size ≤ a.free_space
    → none_fits size a.regions ≡ true
    → k.append_ok ≡ true
    → Ordered v.vm_start a.regions hi
    → hi < ulong_mod
    → Returns
        (λ out.
          (r : RegionStruct) × (after : AreaStruct) × (out.1 ≡ some r)
          × (r.free ≡ 0)
          × (r.size ≡ size)
          × (r.virtual_start ≡ tail_end v.vm_start a.regions)
          × (after.regions ≡ a.regions ++ r ∷ [])
          × (out.0.area_list ≡ rebuild bs (after ∷ l)))
        (create_region k s pid mm size)
unfolding create_region get_area_container add_region_at
create_region-tail k s pid mm size hi bs a l v whole h p hv enough nofit ok o fits =
    let (b, t) = reversed v.vm_start hi a.regions o in
    let e = start_behind-eq v.vm_start (rebuild a.regions []) (omega arith) in
    let r = last_region v.vm_start size a in
    let added = add_region-tail k.split_ok v.vm_start size a nofit in
    rw (first_container k s pid mm size bs a l whole h p enough, hv, ok, added)
      (
        r,
        with_last v.vm_start size a,
        refl,
        refl,
        refl,
        e,
        rebuild-rebuild a.regions [] (r ∷ []) ∙ (unfold rebuild in refl),
        refl,
      )

find_area-append :
    (s : Vmas) (pid address : ℕ) (bs l : List AreaStruct) (a : AreaStruct)
    → get_area_count pid l ≡ 0
    → a.pid ≡ pid
    → s.heap a.vma ≡ none
    → find_area s pid address bs (l ++ a ∷ []) ≡ none
unfolding find_area get_area_count
find_area-append s pid address bs [] a c p h = rw h (ground arith)
find_area-append s pid address bs (b ∷ l) a c p h =
    ground (arith, find_area-append s pid address (b ∷ bs) l a)

scan_containers-new :
    (k : CreateAnswers) (s : Areas) (pid mm size : ℕ) (bs l : List AreaStruct)
    → get_area_count pid l ≡ 0
    → scan_containers k s pid mm size bs l ≡ new_container k s pid mm size
unfolding scan_containers get_area_count
scan_containers-new k s pid mm size bs [] c = refl
scan_containers-new k s pid mm size bs (a ∷ l) c =
    ground (arith, scan_containers-new k s pid mm size (a ∷ bs) l)

-- A process without an area for which no structure can be made, since the kernel's symbol is not
-- found: the allocation returns NULL, but the new area stays in the list with `vma` NULL, so that
-- every later search for an address of the process reads through NULL.
pub create_region-null_area :
    (k : CreateAnswers) (s : Areas) (pid mm size : ℕ)
    → get_area_count pid s.area_list ≡ 0
    → k.area_ok ≡ true
    → k.vma.symbol ≡ false
    → s.vmas.heap 0 ≡ none
    → Returns
        (λ out. (out.1 ≡ none) × ((address : ℕ) → get_area out.0 pid address ≡ none))
        (create_region k s pid mm size)
unfolding create_region get_area_container new_container add_vma get_area
create_region-null_area k s pid mm size c ok sym h =
    rw (scan_containers-new k s pid mm size [] s.area_list c, ok, sym)
      (refl, λ address. find_area-append s.vmas pid address [] s.area_list _ c refl h)
