-- ===== src/System/Areas.antt =====
-- The area list between calls: every area keeps its regions in order from the start of its structure
-- on, and coalesced, behind a head that does not look free. What each operation of the area list
-- leaves of that, on every branch.
use netmalloc.Common.{
  ℕ, ◌≤◌, ◌≡◌, ◌≢◌, refl, sym, inl, inr, true, false, Option, none, some, List, [], ◌∷◌, arith,
  ◌==◌, All, All-imp, Bool, if◌then◌else◌, add64, Bool-cases, Option-cases, Holds, Holds-bind,
  Holds-some, ltb, ◌>>=◌, ◌∙◌,
}
use netmalloc.Align.{align_ceil}
use netmalloc.Vma.{
  VmAreaStruct, Vmas, store, Answers, structs, get_free_space, create_vm_area_struct, add_vma,
  vm_next, is_last_vma,
}
use netmalloc.Region.{AreaStruct}
use netmalloc.Region.Order.{Ordered, Ordered-mono}
use netmalloc.Region.Coalesced.{Coalesced}
use netmalloc.Area.{Areas, vma_shift, extra_size, CreateAnswers, extend_vma}

-- The regions between the start of the area's structure, while it has one, and `hi`.
pub record AreaSound (vmas : Vmas) (hi : ℕ) (a : AreaStruct) : Type 0 where
  pub lo : ℕ
  pub start : (v : VmAreaStruct) → vmas.heap a.vma ≡ some v → v.vm_start ≡ lo
  pub ordered : Ordered lo a.regions hi
  pub coalesced : Coalesced a.regions
  pub head : a.head_free ≢ 1

abbrev pub AllSound : Vmas → ℕ → List AreaStruct → Type 0
AllSound vmas hi l = All (AreaSound vmas hi) l

abbrev pub AreasSound : ℕ → Areas → Type 0
AreasSound hi s = AllSound s.vmas hi s.area_list

-- A structure that is at `p` afterwards was there before, with the same start.
abbrev pub KeepsStart : Vmas → Vmas → ℕ → Type 0
KeepsStart s t p =
    (v : VmAreaStruct)
    → t.heap p ≡ some v
    → (w : VmAreaStruct) × (s.heap p ≡ some w) × (v.vm_start ≡ w.vm_start)

-- The structure at the pointer is the structure of no area.
abbrev pub NoArea : ℕ → List AreaStruct → Type 0
NoArea p l = All (λ a. a.vma ≢ p) l

pub AreaSound-keeps :
    (s t : Vmas) (hi : ℕ) (a : AreaStruct)
    → KeepsStart s t a.vma
    → AreaSound s hi a
    → AreaSound t hi a
AreaSound-keeps s t hi a k w = record {
  lo = w.lo;
  start = λ v e. ground (arith, k v e, w.start (k v e).0 (k v e).1);
  ordered = w.ordered;
  coalesced = w.coalesced;
  head = w.head;
}

pub AllSound-keeps :
    (s t : Vmas) (hi : ℕ) (l : List AreaStruct)
    → All (λ a. KeepsStart s t a.vma) l
    → AllSound s hi l
    → AllSound t hi l
AllSound-keeps s t hi [] k w = tt
AllSound-keeps s t hi (a ∷ l) k w =
    (AreaSound-keeps s t hi a k.0 w.0, AllSound-keeps s t hi l k.1 w.1)

pub AllSound-mono :
    (s : Vmas) (hi hi' : ℕ) (l : List AreaStruct) → hi ≤ hi' → AllSound s hi l → AllSound s hi' l
AllSound-mono s hi hi' l h w =
    All-imp (AreaSound s hi) (AreaSound s hi')
      (λ a o. record {
        lo = o.lo;
        start = o.start;
        ordered = Ordered-mono o.lo o.lo hi hi' a.regions (omega arith) h o.ordered;
        coalesced = o.coalesced;
        head = o.head;
      })
      l w

-- Storing a structure keeps the starts of all others.
KeepsStart-store :
    (s : Vmas) (p q : ℕ) (v : Option VmAreaStruct) → q ≢ p → KeepsStart s (store p v s) q
KeepsStart-store s p q v h w e = (w, ground arith, refl)

-- The maps and the area after an extension.
abbrev pub Grows : Vmas → AreaStruct → Option (Vmas × AreaStruct) → Type 0
Grows s a none = Unit {0}
Grows s a (some (t, b)) =
    ((p : ℕ) → KeepsStart s t p)
    × (b.vma ≡ a.vma)
    × (b.regions ≡ a.regions)
    × (b.head_free ≡ a.head_free)

grown :
    (s : Vmas) (a : AreaStruct) (v : VmAreaStruct) (room : Bool) (extra : ℕ)
    → s.heap a.vma ≡ some v
    → Grows s a (
        if room
        then some (
          store a.vma (some (record v { vm_end = add64 v.vm_end extra })) s,
          record a { size = add64 a.size extra; free_space = add64 a.free_space extra },
        )
        else none)
grown s a v false extra e = tt
grown s a v true extra e = (
  λ p w h. elim (Bool-cases (a.vma == p)) [
    | inl q ↦ (v, ground arith, ground arith)
    | inr q ↦ (w, ground arith, refl)
  ],
  refl,
  refl,
  refl,
)

pub extend_vma-Grows :
    (s : Vmas) (a : AreaStruct) (size : ℕ) → Holds (Grows s a) (extend_vma s a size)
unfolding extend_vma
extend_vma-Grows s a size = Holds-bind (Grows s a) (s.heap a.vma) _ λ v e.
    Holds-bind (Grows s a) (is_last_vma s a.vma) _ λ last _.
      Holds-bind (Grows s a) (vm_next s a.vma) _ λ next _.
        Holds-bind (Grows s a)
          (if last
            then some true
            else do n ← s.heap next; some (ltb (add64 v.vm_end (extra_size a size)) n.vm_start))
          _ λ room _. grown s a v room (extra_size a size) e

pub AreaSound-grown :
    (s t : Vmas) (hi : ℕ) (a b : AreaStruct)
    → Grows s a (some (t, b))
    → AreaSound s hi a
    → AreaSound t hi b
AreaSound-grown s t hi a b g w = record {
  lo = w.lo;
  start = λ v e. let (u, h, same) = g.0 a.vma v (rw (sym g.1) e) in ground (arith, w.start u h);
  ordered = rw g.2 w.ordered;
  coalesced = rw g.2 w.coalesced;
  head = ground (arith, w.head);
}

-- What the kernel grants to an allocation: a new structure is at no area's address, memory from kmalloc
-- does not look like a free region, the gap that is found ends up below `hi`, and an insertion into a
-- map moves no structure's start. NULL is no structure.
pub record Grants (k : CreateAnswers) (hi : ℕ) (s : Areas) (mm size : ℕ) : Type 0 where
  pub fresh : k.vma.kzalloc ≢ 0 → NoArea k.vma.kzalloc s.area_list
  pub head : k.head_free ≢ 1
  pub gap :
      (l : List VmAreaStruct)
      → structs s.vmas (s.vmas.mmap mm) ≡ some l
      → get_free_space l (align_ceil size vma_shift) ≤ hi
  pub inserts :
      (t : Vmas) (m p : ℕ) (u : Vmas)
      → k.vma.insert_vm_struct t m p ≡ some u
      → (q : ℕ) → KeepsStart t u q
  pub null : s.vmas.heap 0 ≡ none

-- After `add_vma`.
abbrev pub Adds : Answers → ℕ → Vmas → Vmas × ℕ → Type 0
Adds k hi s (t, vma) =
    ((q : ℕ) → (k.kzalloc ≢ 0 → q ≢ k.kzalloc) → KeepsStart s t q)
    × ((v : VmAreaStruct) → vma ≢ 0 → t.heap vma ≡ some v → v.vm_start ≤ hi)

abbrev Made : Answers → ℕ → Vmas → Vmas × Option ℕ → Type 0
Made k hi s (t, none) = (q : ℕ) → (k.kzalloc ≢ 0 → q ≢ k.kzalloc) → KeepsStart s t q
Made k hi s (t, some p) =
    ((q : ℕ) → (k.kzalloc ≢ 0 → q ≢ k.kzalloc) → KeepsStart s t q)
    × (p ≡ k.kzalloc)
    × (p ≢ 0)
    × ((v : VmAreaStruct) → t.heap p ≡ some v → v.vm_start ≤ hi)

KeepsStart-trans : (s t u : Vmas) (q : ℕ) → KeepsStart s t q → KeepsStart t u q → KeepsStart s u q
KeepsStart-trans s t u q k l v e = let (w, h, a) = l v e in let (x, i, b) = k w h in (x, i, a ∙ b)

module _ (k : CreateAnswers) (hi : ℕ) (s : Areas) (mm size : ℕ) (g : Grants k hi s mm size) where
  create_vm_area_struct-Made :
      Holds
        (Made k.vma hi s.vmas)
        (create_vm_area_struct k.vma s.vmas mm (align_ceil size vma_shift))
  unfolding create_vm_area_struct
  create_vm_area_struct-Made = elim (Bool-cases (k.vma.kzalloc == 0)) [
    | inl e ↦ rw e (λ q h v p. (v, p, refl))
    | inr e ↦ rw e (
        Holds-bind (Made k.vma hi s.vmas) (structs s.vmas (s.vmas.mmap mm)) _ λ l f. (
          λ q h. KeepsStart-store s.vmas k.vma.kzalloc q _ (h (ground arith)),
          refl,
          ground arith,
          λ v p. ground (arith, g.gap l f),
        ))
  ]

  insert-Adds :
      (made : Vmas × Option ℕ)
      → Made k.vma hi s.vmas made
      → Adds k.vma hi s.vmas (elim made.1 [
        | none ↦ (made.0, 0)
        | some vma ↦ elim (k.vma.insert_vm_struct made.0 mm vma) [
          | none ↦ (store vma none made.0, 0)
          | some s'' ↦ (s'', vma)
        ]
      ])
  insert-Adds (t, none) m = (m, λ v h. absurd (h refl))
  insert-Adds (t, some p) m = elim (Option-cases (k.vma.insert_vm_struct t mm p)) [
    | inl e ↦ rw e (
      λ q h.
          KeepsStart-trans s.vmas t (store p none t) q (m.0 q h)
            (KeepsStart-store t p q none (ground (arith, h, m.1, m.2))),
      λ v h. absurd (h refl),
    )
    | inr (u, e) ↦ rw e (
      λ q h. KeepsStart-trans s.vmas t u q (m.0 q h) (g.inserts t mm p u e q),
      λ v h f. let (w, f', same) = g.inserts t mm p u e p v f in ground (arith, m.3 w f'),
    )
  ]

  pub add_vma-Adds :
      Holds (Adds k.vma hi s.vmas) (add_vma k.vma s.vmas mm (align_ceil size vma_shift))
  unfolding add_vma create_vm_area_struct
  add_vma-Adds = elim (Bool-cases k.vma.symbol) [
    | inl e ↦ rw e (
        Holds-bind (Adds k.vma hi s.vmas)
          (create_vm_area_struct k.vma s.vmas mm (align_ceil size vma_shift)) _
          λ made h. insert-Adds made (
            Holds-some (Made k.vma hi s.vmas)
              (create_vm_area_struct k.vma s.vmas mm (align_ceil size vma_shift))
              create_vm_area_struct-Made h))
    | inr e ↦ rw e (λ q h v f. (v, f, refl), λ v h. absurd (h refl))
  ]
