-- ===== src/Entry/Close.antt =====
-- The inner loop of the close handler, one region at a time: what it leaves alone.
pub mod Handler
use mathlib.Core.Option
use mathlib.Core.Path.{subst}
use netmalloc.Common.{
  All, ◌≢◌, refl, ◌∙◌, true, false, none_ne_some, ℕ, ◌+◌, ◌*◌, ◌<◌, ◌≡◌, ◌≢◌, refl, ap, ◌∙◌, inl,
  inr, Bool, Option, none, some, List, [], ◌∷◌, arith, ◌==◌, rebuild, ulong_mod, Bool-cases,
  Option-cases, Returns, Returns-value, Returns-imp, Holds-some, ◌>>=◌,
}
use netmalloc.Storage.{StorageOps, IsReliable}
use netmalloc.Vma.{page_size}
use netmalloc.Region.{RegionStruct, AreaStruct, Cursor, get_region}
use netmalloc.Region.Order.{Ordered, CursorOrdered}
use netmalloc.Region.Order.Free.{get_region-Ordered}
use netmalloc.Area.{Areas, AreaCursor, get_area}
use netmalloc.Area.Lookup.{AllOrdered, Mapped, Located, get_area-Located}
use netmalloc.Pager.{State}
use netmalloc.Pager.View.{backing}
use netmalloc.Entry.{remove_storage_pages, set_regions, find_vma, unlink_area}
use netmalloc.Entry.Free.{Kept, remove_storage_pages-Kept}

AllOrdered-rebuild :
    (hi : ℕ) (bs l : List AreaStruct) → AllOrdered hi (rebuild bs l) → AllOrdered hi l
unfolding rebuild
AllOrdered-rebuild hi [] l o = o
AllOrdered-rebuild hi (b ∷ bs) l o = (AllOrdered-rebuild hi bs (b ∷ l) o).1

pub AllOrdered-set :
    (hi vma lo : ℕ) (regions : List RegionStruct) (l : List AreaStruct)
    → Ordered lo regions hi
    → AllOrdered hi l
    → AllOrdered hi (set_regions vma regions l)
unfolding set_regions
AllOrdered-set hi vma lo regions [] w o = tt
AllOrdered-set hi vma lo regions (a ∷ l) w o = elim (Bool-cases (a.vma == vma)) [
  | inl e ↦ rw e ((lo, w), o.1)
  | inr e ↦ rw e (o.0, AllOrdered-set hi vma lo regions l w o.1)
]

pub AllOrdered-find :
    (hi vma : ℕ) (l : List AreaStruct) (a : AreaStruct)
    → find_vma vma l ≡ some a
    → AllOrdered hi l
    → (lo : ℕ) × Ordered lo a.regions hi
unfolding find_vma
AllOrdered-find hi vma [] a h o = absurd (none_ne_some h)
AllOrdered-find hi vma (b ∷ l) a h o = elim (Bool-cases (b.vma == vma)) [
  | inl e ↦
      let h' = rw e at h in
      let q : b ≡ a = cc in subst (λ x. (lo : ℕ) × Ordered lo x.regions hi) q o.0
  | inr e ↦ AllOrdered-find hi vma l a (rw e at h) o.1
]

find_vma-rebuild :
    (vma : ℕ) (bs l : List AreaStruct)
    → All (λ a. a.vma ≢ vma) bs
    → (find_vma vma (rebuild bs l) ≡ find_vma vma l)
      × (unlink_area vma (rebuild bs l) ≡ rebuild bs (unlink_area vma l))
unfolding find_vma unlink_area rebuild
find_vma-rebuild vma [] l h = (refl, refl)
find_vma-rebuild vma (b ∷ bs) l h =
    let (f, u) = find_vma-rebuild vma bs (b ∷ l) h.1 in
    let e : (b.vma == vma) ≡ false = ground arith in (f ∙ rw e refl, u ∙ rw e refl)

pub find_vma-first :
    (vma : ℕ) (bs l : List AreaStruct) (b : AreaStruct)
    → All (λ a. a.vma ≢ vma) bs
    → b.vma ≡ vma
    → (find_vma vma (rebuild bs (b ∷ l)) ≡ some b)
      × (unlink_area vma (rebuild bs (b ∷ l)) ≡ rebuild bs l)
unfolding find_vma unlink_area
find_vma-first vma bs l b h q =
    let (f, u) = find_vma-rebuild vma bs (b ∷ l) h in
    let e : (b.vma == vma) ≡ true = ground arith in (f ∙ rw e refl, u ∙ rw e refl)

pub unlink_area-set :
    (vma : ℕ) (regions : List RegionStruct) (l : List AreaStruct)
    → unlink_area vma (set_regions vma regions l) ≡ unlink_area vma l
unfolding unlink_area set_regions
unlink_area-set vma regions [] = refl
unlink_area-set vma regions (a ∷ l) = elim (Bool-cases (a.vma == vma)) [
  | inl e ↦ rw (e, e)
  | inr e ↦ rw (e, e) (ap (λ x. a ∷ x) (unlink_area-set vma regions l))
]

-- A map in which every area of the process has a structure keeps that when regions change.
pub Mapped-set :
    (s : Areas) (pid vma : ℕ) (regions : List RegionStruct) (l : List AreaStruct)
    → Mapped s.vmas pid l
    → Mapped s.vmas pid (set_regions vma regions l)
unfolding set_regions
Mapped-set s pid vma regions [] m = tt
Mapped-set s pid vma regions (a ∷ l) m = elim (Bool-cases (a.vma == vma)) [
  | inl e ↦ rw e m
  | inr e ↦ rw e (m.0, Mapped-set s pid vma regions l m.1)
]

module _ {Page : Type 0} (ops : StorageOps Page) (zero_page : Page) (r : IsReliable ops)
    (pid hi : ℕ) (fits : hi + 2 * page_size < ulong_mod) where
  -- What the handler's inner loop relies on.
  pub record Sound (s : State ops zero_page) : Type 0 where
    pub mapped : Mapped s.areas.vmas pid s.areas.area_list
    pub ordered : AllOrdered hi s.areas.area_list

  -- Only the storage of the process, and the regions of the areas, may have changed.
  pub record Others (s t : State ops zero_page) : Type 0 where
    pub buffers : t.buffers ≡ s.buffers
    pub memory : t.memory ≡ s.memory
    pub backed :
        (p b : ℕ)
        → pid ≢ p
        → backing ops zero_page r t.contents t.stored_pages p b
          ≡ backing ops zero_page r s.contents s.stored_pages p b

  pub Others-trans : (s t u : State ops zero_page) → Others s t → Others t u → Others s u
  Others-trans s t u k l = record {
    buffers = l.buffers ∙ k.buffers;
    memory = l.memory ∙ k.memory;
    backed = λ p b h. l.backed p b h ∙ k.backed p b h;
  }

  Kept-Others :
      (c : Cursor) (s t : State ops zero_page)
      → Kept ops zero_page r pid c s t
      → (t.areas ≡ s.areas) × Others s t
  Kept-Others c s t k = (
    k.areas,
    record {
      buffers = k.buffers;
      memory = k.memory;
      backed = λ p b h. k.backed p b (ground arith);
    },
  )

  abbrev pub Removes : State ops zero_page → ℕ → Type 0
  Removes s address =
      Returns (λ t. (t.areas ≡ s.areas) × Others s t)
        (remove_storage_pages ops zero_page s pid address)

  remove_storage_pages-none :
      (s : State ops zero_page) (address : ℕ)
      → get_area s.areas pid address ≡ some none
      → Removes s address
  unfolding remove_storage_pages
  remove_storage_pages-none s address h =
      rw h (refl, record { buffers = refl; memory = refl; backed = λ p b k. refl })

  remove_storage_pages-some :
      (s : State ops zero_page) (address : ℕ) (a : AreaCursor)
      → get_area s.areas pid address ≡ some (some a)
      → (lo : ℕ) × Ordered lo a.area.regions hi
      → Removes s address
  remove_storage_pages-some s address a h (lo, o) =
      elim (Option-cases (get_region a.area address)) [
        | inl e ↦ missing e
        | inr (c, e) ↦
            let ro =
              Holds-some (λ x. CursorOrdered lo x hi) (get_region a.area address)
                (get_region-Ordered lo hi (omega arith) a.area address o) e in
            Returns-imp (Kept ops zero_page r pid c s) (λ t. (t.areas ≡ s.areas) × Others s t)
              (remove_storage_pages ops zero_page s pid address) (λ t k. Kept-Others c s t k)
              (remove_storage_pages-Kept ops zero_page r pid c lo hi fits ro s address a h e)
      ]
    where
      missing : get_region a.area address ≡ none → Removes s address
      missing e =
          unfold remove_storage_pages in
          rw (h, e) (refl, record { buffers = refl; memory = refl; backed = λ p b k. refl })

  pub remove_storage_pages-Removes :
      (s : State ops zero_page) (address : ℕ) → Sound s → Removes s address
  remove_storage_pages-Removes s address w =
      let (o, e, located) =
        Returns-value _ (get_area s.areas pid address)
          (get_area-Located s.areas pid address w.mapped) in
      go o e located
    where
      go :
          (o : Option AreaCursor)
          → get_area s.areas pid address ≡ some o
          → Located s.areas.vmas pid address s.areas.area_list s.areas.area_list o
          → Removes s address
      go none e l = remove_storage_pages-none s address e
      go (some a) e l =
          remove_storage_pages-some s address a e
            (AllOrdered-rebuild hi a.before (a.area ∷ a.after) (rw l.0 w.ordered)).0
