-- ===== src/Module.antt =====
-- The start and the end of the module: `generic_malloc_init` and `generic_malloc_clean` of
-- src/generic_malloc.c, and src/netmalloc.c, which composes them with the system calls. The storage is
-- the one that the module is built with.
pub mod Load
pub mod Unload
use netmalloc.Common.{ℕ, Bool, Option, List, ◌>>=◌, if◌then◌else◌, ℤ, pos, is_nonzero, none, some}
use netmalloc.Storage.{StorageOps}
use netmalloc.StoredPage.{init_stored_pages, remove_stored_pages}
use netmalloc.MappedBuffer.{Release, init_buffers, remove_buffers}
use netmalloc.Area.{init_area_list, remove_area_list}
use netmalloc.Pager.{State}
use netmalloc.Syscall.{Syscalls, replace_syscalls, restore_syscalls}

module _ {Page : Type 0} (ops : StorageOps Page) (zero_page : Page) where
  -- `init` and `release` of `struct storage_ops`.
  pub record StorageControl (Param : Type 0) : Type 0 where
    pub init : Param → ops.Contents → ops.Contents × ℤ
    pub release : ops.Contents → ops.Contents

  module _ {Param : Type 0} (control : StorageControl Param) where
    unfoldable pub generic_malloc_init : Param → State ops zero_page → State ops zero_page × ℤ
    generic_malloc_init param s =
        let (contents, error) = control.init param s.contents in
        if is_nonzero error then (record s { contents = contents }, error) else (
          record s {
            contents = contents;
            areas = record s.areas { area_list = init_area_list };
            stored_pages = init_stored_pages;
            buffers = init_buffers;
          },
          pos 0,
        )

    -- With the calls that give page memory back.
    unfoldable pub generic_malloc_clean : State ops zero_page → State ops zero_page × List Release
    unfolding remove_buffers remove_stored_pages remove_area_list
    generic_malloc_clean s =
        let (buffers, released) = remove_buffers s.buffers in
        (
          record s {
            buffers = buffers;
            stored_pages = remove_stored_pages s.stored_pages;
            areas = record s.areas { area_list = remove_area_list s.areas.area_list };
            contents = control.release s.contents;
          },
          released,
        )

    -- What the module has of the kernel's, and its own lists.
    pub record Module : Type 0 where
      pub syscalls : Syscalls
      pub state : State ops zero_page

    -- `close` and `sys_close` tell the table of system calls, and `ni1` and `ni2` are the replaced entries.
    module _ (close sys_close ni1 ni2 : ℕ) where
      -- The addresses of `netmalloc_syscall` and `netfree_syscall` are arguments, and `found` is
      -- whether kallsyms knows the table.
      unfoldable pub netmalloc_init_module :
          (found : Bool) → (netmalloc netfree : ℕ) → Param → Module → Option (Module × ℤ)
      unfolding replace_syscalls generic_malloc_init
      netmalloc_init_module found netmalloc netfree server m = do
        syscalls ← replace_syscalls close sys_close found ni1 ni2 netmalloc netfree m.syscalls
        let (state, error) = generic_malloc_init server m.state
        some (record { syscalls = syscalls; state = state }, error)

      unfoldable pub netmalloc_exit_module : Module → Option (Module × List Release)
      unfolding restore_syscalls generic_malloc_clean
      netmalloc_exit_module m = do
        syscalls ← restore_syscalls close sys_close ni1 ni2 m.syscalls
        let (state, released) = generic_malloc_clean m.state
        some (record { syscalls = syscalls; state = state }, released)
