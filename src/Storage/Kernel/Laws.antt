-- ===== src/Storage/Kernel/Laws.antt =====
-- What the kernel storage remembers: pages below 4 GiB.
use netmalloc.Common.{
  ℕ, ◌%◌, ◌≤◌, ◌<◌, ◌≡◌, refl, sym, ap, ◌∙◌, inl, inr, true, false, ◌&&◌, Option, none, some, List,
  [], ◌∷◌, ◌++◌, arith, ◌==◌, if◌then◌else◌, rebuild, rebuild-rebuild, pos, Bool-cases,
  Option-cases,
}
use netmalloc.Storage.Kernel.{
  uint_mod, KernelBufferList, KernelCursor, head, is_buffer, find_kernel_buffer, get_kernel_buffer,
  save_buffer, kernel_save, load_buffer, kernel_load,
}

module _ {Page : Type 0} (zero_page : Page) where
  -- The page of the first node for the address, which is what a load finds.
  abbrev pub first_page : ℕ → ℕ → List (KernelBufferList Page) → Option Page
  first_page pid address [] = none
  first_page pid address (kb ∷ l) =
      if is_buffer zero_page pid address kb then kb.buffer else first_page pid address l

  abbrev pub or_zero : Option Page → Page
  or_zero o = elim o [ none ↦ zero_page | some page ↦ page ]

  load_buffer-found :
      (pid address : ℕ) (bs l : List (KernelBufferList Page))
      → load_buffer zero_page (find_kernel_buffer zero_page pid address bs l)
        ≡ or_zero (first_page pid address l)
  unfolding load_buffer find_kernel_buffer
  load_buffer-found pid address bs [] = refl
  load_buffer-found pid address bs (kb ∷ l) =
      elim (Bool-cases (is_buffer zero_page pid address kb)) [
        | inl e ↦ rw e refl
        | inr e ↦ rw e (load_buffer-found pid address (kb ∷ bs) l)
      ]

  load-eq :
      (pid address : ℕ) (l : List (KernelBufferList Page))
      → load_buffer zero_page (get_kernel_buffer zero_page false pid address false l)
        ≡ or_zero (first_page pid (address % uint_mod) l)
  unfolding get_kernel_buffer load_buffer
  load-eq pid address l =
      rw (← load_buffer-found pid (address % uint_mod) [] l)
        (elim (Option-cases (find_kernel_buffer zero_page pid (address % uint_mod) [] l)) [
          | inl e ↦ rw (e, get_kernel_buffer) refl
          | inr (c, e) ↦ rw (e, get_kernel_buffer) refl
        ])

  pub kernel_load-eq :
      (pid address : ℕ) (old : Page) (l : List (KernelBufferList Page))
      → kernel_load zero_page pid address old (head l)
        ≡ some (or_zero (first_page pid (address % uint_mod) l), pos 0)
  unfolding kernel_load
  kernel_load-eq pid address old l = rw (load-eq pid address l) refl

  -- The list after a save that found memory.
  pub put_page : ℕ → ℕ → Page → List (KernelBufferList Page) → List (KernelBufferList Page)
  put_page pid address page [] = record { pid = pid; address = address; buffer = some page } ∷ []
  put_page pid address page (kb ∷ l) =
      if is_buffer zero_page pid (address % uint_mod) kb
      then record kb { address = address; buffer = some page } ∷ l
      else kb ∷ put_page pid address page l

  filled : ℕ → Page → KernelCursor Page → List (KernelBufferList Page)
  filled address page c =
      rebuild c.before (record c.kb { address = address; buffer = some page } ∷ c.after)

  -- A node is found where `put_page` writes it.
  find-put :
      (pid address : ℕ) (page : Page) (bs l : List (KernelBufferList Page)) (c : KernelCursor Page)
      → find_kernel_buffer zero_page pid (address % uint_mod) bs l ≡ some c
      → filled address page c ≡ rebuild bs (put_page pid address page l)
  unfolding find_kernel_buffer put_page rebuild filled
  find-put pid address page bs [] c h = cc
  find-put pid address page bs (kb ∷ l) c h =
      elim (Bool-cases (is_buffer zero_page pid (address % uint_mod) kb)) [
        | inl e ↦
            let h' = rw e at h in
            let q : record { before = bs; kb = kb; after = l } ≡ c = cc in
            rw e (ap (filled address page) (sym q))
        | inr e ↦ rw e (find-put pid address page (kb ∷ bs) l c (rw e at h))
      ]

  missing-put :
      (pid address : ℕ) (page : Page) (bs l : List (KernelBufferList Page))
      → find_kernel_buffer zero_page pid (address % uint_mod) bs l ≡ none
      → l ++ record { pid = pid; address = address; buffer = some page } ∷ []
        ≡ put_page pid address page l
  unfolding find_kernel_buffer put_page
  missing-put pid address page bs [] h = refl
  missing-put pid address page bs (kb ∷ l) h =
      elim (Bool-cases (is_buffer zero_page pid (address % uint_mod) kb)) [
        | inl e ↦ (let h' = rw e at h in cc)
        | inr e ↦ rw e (ap (λ x. kb ∷ x) (missing-put pid address page (kb ∷ bs) l (rw e at h)))
      ]

  save_buffer-filled :
      (address : ℕ) (page : Page) (c : KernelCursor Page)
      → save_buffer zero_page true address page (some c)
        ≡ some (head (filled address page c), pos 0)
  unfolding save_buffer filled
  save_buffer-filled address page c = elim (Option-cases c.kb.buffer) [
    | inl e ↦ rw e refl
    | inr (old, e) ↦ rw e refl
  ]

  new_node : ℕ → List (KernelBufferList Page) → KernelCursor Page
  new_node pid l = record {
    before = rebuild l [];
    kb = record { pid = pid; address = 0; buffer = none };
    after = [];
  }

  get-new :
      (pid address : ℕ) (l : List (KernelBufferList Page))
      → find_kernel_buffer zero_page pid (address % uint_mod) [] l ≡ none
      → get_kernel_buffer zero_page true pid address true l ≡ some (new_node pid l)
  unfolding get_kernel_buffer new_node
  get-new pid address l e = rw (e, get_kernel_buffer) refl

  get-found :
      (pid address : ℕ) (l : List (KernelBufferList Page)) (c : KernelCursor Page)
      → find_kernel_buffer zero_page pid (address % uint_mod) [] l ≡ some c
      → get_kernel_buffer zero_page true pid address true l ≡ some c
  unfolding get_kernel_buffer
  get-found pid address l c e = rw (e, get_kernel_buffer) refl

  new_filled :
      (pid' a : ℕ) (page' : Page) (l' : List (KernelBufferList Page))
      → filled a page' (new_node pid' l')
        ≡ l' ++ record { pid = pid'; address = a; buffer = some page' } ∷ []
  unfolding filled new_node
  new_filled pid' a page' l' = rebuild-rebuild l' [] _ ∙ (unfold rebuild in refl)

  found_filled :
      (pid' a : ℕ) (page' : Page) (l' : List (KernelBufferList Page)) (c' : KernelCursor Page)
      → find_kernel_buffer zero_page pid' (a % uint_mod) [] l' ≡ some c'
      → filled a page' c' ≡ put_page pid' a page' l'
  unfolding rebuild
  found_filled pid' a page' l' c' e = find-put pid' a page' [] l' c' e

  pub kernel_save-put :
      (pid address : ℕ) (page : Page) (l : List (KernelBufferList Page))
      → kernel_save zero_page true true pid address page (head l)
        ≡ some (head (put_page pid address page l), pos 0)
  unfolding kernel_save
  kernel_save-put pid address page l =
      elim (Option-cases (find_kernel_buffer zero_page pid (address % uint_mod) [] l)) [
        | inl e ↦
            rw
              (
                get-new pid address l e,
                save_buffer-filled address page (new_node pid l),
                ← missing-put pid address page [] l e,
              )
              (ap (λ x. some (head x, pos 0)) (new_filled pid address page l))
        | inr (c, e) ↦
            rw (get-found pid address l c e, save_buffer-filled address page c)
              (ap (λ x. some (head x, pos 0)) (found_filled pid address page l c e))
      ]

  -- Below 4 GiB the page is found again, and no other address is affected.
  pub put_page-low :
      (pid address p b : ℕ) (page : Page) (l : List (KernelBufferList Page))
      → address < uint_mod
      → first_page p b (put_page pid address page l)
        ≡ (if pid == p && address == b then some page else first_page p b l)
  unfolding put_page
  put_page-low pid address p b page [] low = ground arith
  put_page-low pid address p b page (kb ∷ l) low =
      ground (arith, put_page-low pid address p b page l low)

  -- Above it, a new node is one that no load looks for.
  pub put_page-high :
      (pid address p b : ℕ) (page : Page) (l : List (KernelBufferList Page))
      → uint_mod ≤ address
      → b < uint_mod
      → find_kernel_buffer zero_page pid (address % uint_mod) [] l ≡ none
      → first_page p b (put_page pid address page l) ≡ first_page p b l
  put_page-high pid address p b page l high small h =
      rw (← missing-put pid address page [] l h) (appended l)
    where
      appended :
          (l' : List (KernelBufferList Page))
          → first_page p b (l' ++ record { pid = pid; address = address; buffer = some page } ∷ [])
            ≡ first_page p b l'
      appended [] = ground arith
      appended (kb ∷ l') = ground (arith, appended l')
