-- ===== src/Module/Load.antt =====
-- What the start of the module leaves, whether the storage starts or not.
use netmalloc.Common.{
  [], ℕ, ◌<◌, ◌≡◌, ◌≢◌, refl, inl, inr, true, false, ◌==◌, if◌then◌else◌, ulong_mod, arith, ℤ,
  is_nonzero, Bool-cases, Returns, Returns-value,
}
use netmalloc.Storage.{StorageOps}
use netmalloc.Syscall.{without_rw, replace_syscalls}
use netmalloc.Syscall.Restore.{restore_syscalls-table}
use netmalloc.System.Steps.{Reachable, start}
use netmalloc.Module.{StorageControl, Module, generic_malloc_init, netmalloc_init_module}

module _ {Page Param : Type 0} (ops : StorageOps Page) (zero_page : Page)
    (control : StorageControl ops zero_page Param) (close sys_close ni1 ni2 : ℕ) where
  -- The two entries lead to the module, and the lists are as the storage's start lets them be.
  pub record Loaded (hi netmalloc netfree : ℕ) (server : Param) (m : Module ops zero_page control)
      (out : Module ops zero_page control × ℤ) : Type 0 where
    pub entries :
        (n : ℕ)
        → out.0.syscalls.table n
          ≡ (if n == ni1 then netmalloc else if n == ni2 then netfree else m.syscalls.table n)
    pub result : is_nonzero out.1 ≡ is_nonzero (control.init server m.state.contents).1
    pub failed :
        is_nonzero out.1 ≡ true
        → (out.0.state.areas ≡ m.state.areas)
          × (out.0.state.buffers ≡ m.state.buffers)
          × (out.0.state.stored_pages ≡ m.state.stored_pages)
    pub started :
        is_nonzero out.1 ≡ false
        → (out.0.state.areas.area_list ≡ [])
          × (out.0.state.buffers ≡ [])
          × (out.0.state.stored_pages ≡ [])
          × Reachable ops zero_page hi out.0.state

  -- The start of the module, where the table of system calls is found on a present page and the
  -- offsets differ, returns. It fails exactly if the storage's start fails, and leaves the lists
  -- alone then; if not, the lists of areas, buffers and stored pages are empty, and the state is a
  -- reachable one. In both cases the two entries lead to the functions of the module.
  pub netmalloc_init_module-Loaded :
      (hi netmalloc netfree : ℕ) (server : Param) (m : Module ops zero_page control)
      → m.syscalls.table close ≡ sys_close
      → without_rw m.syscalls.pte ≢ 0
      → ni1 ≢ close
      → ni1 ≢ ni2
      → hi < ulong_mod
      → Returns (Loaded hi netmalloc netfree server m) (
          netmalloc_init_module ops zero_page control close sys_close ni1 ni2 true netmalloc netfree
            server m)
  unfolding netmalloc_init_module generic_malloc_init
  netmalloc_init_module-Loaded hi netmalloc netfree server m h present a c fits =
      let (t, e, post) =
        Returns-value _ (replace_syscalls close sys_close true ni1 ni2 netmalloc netfree m.syscalls)
          (restore_syscalls-table close sys_close ni1 ni2 netmalloc netfree m.syscalls h present a
            c) in
      let begun = control.init server m.state.contents in
      elim (Bool-cases (is_nonzero begun.1)) [
        | inl f ↦
            rw (e, f)
              (record {
                entries = post.0;
                result = refl;
                failed = λ _. (refl, refl, refl);
                started = λ g. absurd (ground arith);
              })
        | inr f ↦
            rw (e, f)
              (record {
                entries = post.0;
                result = ground arith;
                failed = λ g. absurd (ground arith);
                started = λ g. (refl, refl, refl, start fits refl refl refl);
              })
      ]
