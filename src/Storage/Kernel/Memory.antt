-- ===== src/Storage/Kernel/Memory.antt =====
-- A save and a removal in the kernel storage, as every later load sees them.
use netmalloc.Common.{
  ℕ, ◌%◌, ◌≤◌, ◌<◌, ◌≡◌, refl, ◌∙◌, inl, inr, Bool, true, false, ◌&&◌, none, some, List, [], ◌∷◌,
  arith, ◌==◌, if◌then◌else◌, pos, Bool-cases, Returns,
}
use netmalloc.Storage.Kernel.{
  uint_mod, KernelBufferList, KernelList, head, kernel_save, kernel_load, remove_buffers_of,
  kernel_remove,
}
use netmalloc.Storage.Kernel.Laws.{
  first_page, or_zero, kernel_load-eq, put_page, kernel_save-put, put_page-low,
}

module _ {Page : Type 0} (zero_page : Page) where
  -- Every load with `after` answers as `changed` tells, or else as with `before`.
  abbrev pub LoadsAs :
      (ℕ → ℕ → Bool) → Page → List (KernelBufferList Page) → KernelList Page → Type 0
  LoadsAs changed page before after =
      (p b : ℕ) (old : Page)
      → kernel_load zero_page p b old after
        ≡ (if changed p b then some (page, pos 0) else kernel_load zero_page p b old (head before))

  low_bits : (b : ℕ) → b % uint_mod < uint_mod
  low_bits b = omega arith

  loads :
      (changed : ℕ → ℕ → Bool) (page : Page) (before after : List (KernelBufferList Page))
      → ((p b : ℕ)
          → or_zero zero_page (first_page zero_page p (b % uint_mod) after) ≡ (
              if changed p b
              then page
              else or_zero zero_page (first_page zero_page p (b % uint_mod) before)))
      → LoadsAs changed page before (head after)
  loads changed page before after h p b old =
      rw (kernel_load-eq zero_page p b old after, kernel_load-eq zero_page p b old before, h p b)
        (elim (Bool-cases (changed p b)) [ inl e ↦ rw e refl | inr e ↦ rw e refl ])

  -- With memory, saving a page at an address below 4 GiB succeeds; every later load of that page finds
  -- it, at any address with the same lower half, and all other loads answer as before.
  pub kernel_save-LoadsAs :
      (pid address : ℕ) (page : Page) (l : List (KernelBufferList Page))
      → address < uint_mod
      → Returns
          (λ out.
            (out.1 ≡ pos 0) × LoadsAs (λ p b. pid == p && address == b % uint_mod) page l out.0)
          (kernel_save zero_page true true pid address page (head l))
  kernel_save-LoadsAs pid address page l low = rw (kernel_save-put zero_page pid address page l) (
    refl,
    loads _ page l (put_page zero_page pid address page l) λ p b.
        rw (put_page-low zero_page pid address p (b % uint_mod) page l low)
          (elim (Bool-cases (pid == p && address == b % uint_mod)) [
            | inl e ↦ rw e refl
            | inr e ↦ rw e refl
          ]),
  )

  remove-first :
      (pid address p b : ℕ) (l : List (KernelBufferList Page))
      → first_page zero_page p b (remove_buffers_of zero_page pid address l)
        ≡ (if pid == p && address == b then none else first_page zero_page p b l)
  unfolding remove_buffers_of
  remove-first pid address p b [] = ground arith
  remove-first pid address p b (kb ∷ l) = ground (arith, remove-first pid address p b l)

  above : (pid address p b : ℕ) → uint_mod ≤ address → (pid == p && address == b % uint_mod) ≡ false
  above pid address p b high = ground (arith, low_bits b)

  -- Removing a page returns. Below 4 GiB the page then loads as zeros, at any address with the same
  -- lower half, and all other loads answer as before. From 4 GiB on every load answers as before.
  pub kernel_remove-LoadsAs :
      (pid address : ℕ) (l : List (KernelBufferList Page))
      → Returns
          (λ after.
            LoadsAs (λ p b. pid == p && address == b % uint_mod) zero_page l after
            × (uint_mod ≤ address
                → (p b : ℕ) (old : Page)
                → kernel_load zero_page p b old after ≡ kernel_load zero_page p b old (head l)))
          (kernel_remove zero_page pid address (head l))
  unfolding kernel_remove
  kernel_remove-LoadsAs pid address l =
      let removed =
        loads (λ p b. pid == p && address == b % uint_mod) zero_page l
          (remove_buffers_of zero_page pid address l)
          λ p b.
            rw (remove-first pid address p (b % uint_mod) l)
              (elim (Bool-cases (pid == p && address == b % uint_mod)) [
                | inl e ↦ rw e refl
                | inr e ↦ rw e refl
              ]) in
      (
        removed,
        λ high p b old. let away = above pid address p b high in removed p b old ∙ rw away refl,
      )
