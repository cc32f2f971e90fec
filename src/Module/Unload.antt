-- ===== src/Module/Unload.antt =====
-- The page memory that the end of the module gives back.
use netmalloc.Common.{
  ℕ, ◌+◌, ◌≡◌, ◌≢◌, refl, inl, inr, Bool, true, false, ◌||◌, some, List, [], ◌∷◌, arith, ◌==◌,
  if◌then◌else◌, Bool-cases, Returns,
}
use netmalloc.Storage.{StorageOps}
use netmalloc.MappedBuffer.{
  MappedBuffer, Release, kfree, vfree, get_buffer, free_pages, remove_buffers,
}
use netmalloc.StoredPage.{StoredPage, remove_stored_pages}
use netmalloc.Region.{AreaStruct}
use netmalloc.Area.{remove_area_list}
use netmalloc.Syscall.{without_rw}
use netmalloc.Syscall.Restore.{restore_syscalls-some}
use netmalloc.System.Buffers.{BuffersSound}
use netmalloc.System.Steps.{Reachable}
use netmalloc.System.Invariant.{Reachable-WellFormed}
use netmalloc.Module.{StorageControl, Module, generic_malloc_clean, netmalloc_exit_module}

-- The page that a call gives back.
abbrev page_of : Release → ℕ
page_of (kfree p) = p
page_of (vfree p) = p

-- How often a page is given back.
abbrev pub frees : ℕ → List Release → ℕ
frees p [] = 0
frees p (r ∷ l) = (if page_of r == p then 1 else 0) + frees p l

abbrev pub owns : ℕ → MappedBuffer → Bool
owns p b = b.buffer == p || b.cache == p

-- Some buffer has the page.
abbrev pub held : ℕ → List MappedBuffer → Bool
held p [] = false
held p (b ∷ bs) = owns p b || held p bs

tail-Sound : (b : MappedBuffer) (bs : List MappedBuffer) → BuffersSound (b ∷ bs) → BuffersSound bs
unfolding get_buffer
tail-Sound b bs s =
    let (fresh, one) = s.one in
    record {
      one = one;
      own = λ p c h. ground (arith, s.own p c);
      once = λ p c h. ground (arith, s.once p c);
      apart = λ p q c d h k away. ground (arith, s.apart p q c d);
    }

-- A held page is a page of a buffer that a search finds.
held-found :
    (p : ℕ) (bs : List MappedBuffer)
    → BuffersSound bs
    → held p bs ≡ true
    → (q : ℕ) × (c : MappedBuffer) × (get_buffer q bs ≡ some c) × (owns p c ≡ true)
unfolding get_buffer
held-found p [] s h = absurd (ground arith)
held-found p (b ∷ bs) s h = elim (Bool-cases (owns p b)) [
  | inl e ↦ (b.pid, b, ground arith, e)
  | inr e ↦
      let (q, c, found, o) = held-found p bs (tail-Sound b bs s) (ground arith) in
      let fresh = s.one.0 in (q, c, ground arith, o)
]

-- The first buffer's pages are held by no other.
first_alone :
    (p : ℕ) (b : MappedBuffer) (bs : List MappedBuffer)
    → BuffersSound (b ∷ bs)
    → owns p b ≡ true
    → held p bs ≡ false
unfolding get_buffer
first_alone p b bs s o = elim (Bool-cases (held p bs)) [
  | inr e ↦ e
  | inl e ↦
      let (q, c, found, o') = held-found p bs (tail-Sound b bs s) e in
      let fresh = s.one.0 in
      let away : b.pid ≢ q = λ same. ground arith in
      let apart = s.apart b.pid q b c (ground arith) (ground arith) away in
      absurd (ground (arith, apart))
]

frees-free_pages :
    (p : ℕ) (b : MappedBuffer) (l : List Release)
    → p ≢ 0
    → b.buffer ≢ b.cache
    → frees p (free_pages b l) ≡ (if owns p b then 1 else 0) + frees p l
frees-free_pages p b l nz differ = ground arith

remove_buffers-nil : (bs : List MappedBuffer) → (remove_buffers bs).0 ≡ []
unfolding remove_buffers
remove_buffers-nil [] = refl
remove_buffers-nil (b ∷ bs) = remove_buffers-nil bs

remove_stored_pages-nil : (ps : List StoredPage) → remove_stored_pages ps ≡ []
unfolding remove_stored_pages
remove_stored_pages-nil [] = refl
remove_stored_pages-nil (p ∷ ps) = remove_stored_pages-nil ps

remove_area_list-nil : (l : List AreaStruct) → remove_area_list l ≡ []
unfolding remove_area_list
remove_area_list-nil [] = refl
remove_area_list-nil (a ∷ l) = remove_area_list-nil l

remove_buffers-frees :
    (p : ℕ) (bs : List MappedBuffer)
    → p ≢ 0
    → BuffersSound bs
    → frees p (remove_buffers bs).1 ≡ (if held p bs then 1 else 0)
unfolding remove_buffers get_buffer
remove_buffers-frees p [] nz s = refl
remove_buffers-frees p (b ∷ bs) nz s =
    let ih = remove_buffers-frees p bs nz (tail-Sound b bs s) in
    let here = frees-free_pages p b (remove_buffers bs).1 nz (s.own b.pid b (ground arith)) in
    elim (Bool-cases (owns p b)) [
      | inl o ↦ rw (here, ih, o, first_alone p b bs s o) refl
      | inr o ↦ rw (here, ih, o) (ground arith)
    ]

module _ {Page Param : Type 0} (ops : StorageOps Page) (zero_page : Page)
    (control : StorageControl ops zero_page Param) (close sys_close ni1 ni2 : ℕ) where
  -- The end of the module, from a reachable state and with the table of system calls on a present page,
  -- returns. It leaves no area, no buffer and no stored page in the lists, releases the storage, and gives
  -- each page of the buffers back exactly once, and no other page.
  pub netmalloc_exit_module-frees :
      (hi : ℕ) (m : Module ops zero_page control)
      → Reachable ops zero_page hi m.state
      → m.syscalls.syscall_table ≡ true
      → without_rw m.syscalls.pte ≢ 0
      → Returns
          (λ out.
            let t = out.0.state in
            (t.areas.area_list ≡ [])
            × (t.buffers ≡ [])
            × (t.stored_pages ≡ [])
            × (t.contents ≡ control.release m.state.contents)
            × ((p : ℕ) → p ≢ 0 → frees p out.1 ≡ (if held p m.state.buffers then 1 else 0)))
          (netmalloc_exit_module ops zero_page control close sys_close ni1 ni2 m)
  unfolding netmalloc_exit_module generic_malloc_clean
  netmalloc_exit_module-frees hi m reached known present =
      let sound = (Reachable-WellFormed ops zero_page hi m.state reached).buffers in
      let (t, e) = restore_syscalls-some close sys_close ni1 ni2 m.syscalls known present in
      rw e (
        remove_area_list-nil m.state.areas.area_list,
        remove_buffers-nil m.state.buffers,
        remove_stored_pages-nil m.state.stored_pages,
        refl,
        λ p nz. remove_buffers-frees p m.state.buffers nz sound,
      )
