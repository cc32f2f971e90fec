-- ===== src/Dump/ReadBack.antt =====
-- The prints can be read back.
use netmalloc.Common.{ℕ, suc, ◌≡◌, refl, ap, List, [], ◌∷◌, map}
use netmalloc.StoredPage.{StoredPage}
use netmalloc.Region.{RegionStruct, AreaStruct}
use netmalloc.Dump.{
  Line, page_line, area_line, region_line, dump_pages, dump_stored_pages, dump_regions, dump_areas,
  dump_area_list,
}

-- What is printed of an area.
pub record Printed : Type 0 where
  pub pid : ℕ
  pub size : ℕ
  pub free_space : ℕ
  pub regions : List RegionStruct

abbrev pub printed : AreaStruct → Printed
printed a = record { pid = a.pid; size = a.size; free_space = a.free_space; regions = a.regions }

-- The regions in front of the first area line, and the areas from there on.
unfoldable pub read_areas : List Line → List RegionStruct × List Printed
read_areas [] = ([], [])
read_areas (area_line p s f ∷ l) =
    let (regions, areas) = read_areas l in
    ([], record { pid = p; size = s; free_space = f; regions = regions } ∷ areas)
read_areas (region_line start size free ∷ l) =
    let (regions, areas) = read_areas l in
    (record { free = free; size = size; virtual_start = start } ∷ regions, areas)
read_areas (line ∷ l) = read_areas l

-- The pages whose lines are numbered from `i` on.
unfoldable pub read_pages : List Line → List (ℕ × StoredPage)
read_pages [] = []
read_pages (page_line i pid start ∷ l) = (i, record { pid = pid; start = start }) ∷ read_pages l
read_pages (line ∷ l) = read_pages l

-- The pages with their numbers.
abbrev pub numbered : ℕ → List StoredPage → List (ℕ × StoredPage)
numbered i [] = []
numbered i (p ∷ ps) = (suc i, p) ∷ numbered (suc i) ps

dump_pages-read : (i : ℕ) (ps : List StoredPage) → read_pages (dump_pages i ps) ≡ numbered i ps
unfolding read_pages dump_pages
dump_pages-read i [] = refl
dump_pages-read i (p ∷ ps) = ap (λ l. (suc i, p) ∷ l) (dump_pages-read (suc i) ps)

-- The regions in front, and the areas, of what is printed behind the regions of an area.
dump_regions-read :
    (regions : List RegionStruct) (areas : List Printed) (rest : List Line)
    → read_areas rest ≡ ([], areas)
    → read_areas (dump_regions regions rest) ≡ (regions, areas)
unfolding read_areas dump_regions
dump_regions-read [] areas rest h = h
dump_regions-read (r ∷ regions) areas rest h = rw (dump_regions-read regions areas rest h) refl

dump_areas-read : (l : List AreaStruct) → read_areas (dump_areas l) ≡ ([], map printed l)
unfolding read_areas dump_areas
dump_areas-read [] = refl
dump_areas-read (a ∷ l) =
    rw (dump_regions-read a.regions (map printed l) (dump_areas l) (dump_areas-read l)) refl

-- The debug print of the stored pages lists all of them in order, numbered from 1, and that of the
-- areas lists all areas in order, each with its process, its sizes, and all its regions in order:
-- both lists can be read back from their prints.
pub dump-read :
    (ps : List StoredPage) (l : List AreaStruct)
    → (read_pages (dump_stored_pages ps) ≡ numbered 0 ps)
      × (read_areas (dump_area_list l) ≡ ([], map printed l))
unfolding read_pages read_areas dump_stored_pages dump_area_list
dump-read ps l = (dump_pages-read 0 ps, dump_areas-read l)
