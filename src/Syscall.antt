-- ===== src/Syscall.antt =====
-- src/syscall.c: entries of the system call table that are replaced while the module is loaded. A
-- result `none` is a read through a bad pointer, or a write to a page that its table entry protects.
pub mod Restore
use netmalloc.Common.{
  ℕ, ◌+◌, ◌-◌, ◌/◌, ◌%◌, Bool, false, Option, none, some, ◌>>=◌, ◌==◌, if◌then◌else◌,
}

-- The entries of the table by their offset, the page table entry of the page that they stand in, the
-- static `original_syscall`, and whether the static `syscall_table` is not NULL.
pub record Syscalls : Type 0 where
  pub table : ℕ → ℕ
  pub pte : ℕ
  pub original_syscall : ℕ
  pub syscall_table : Bool

abbrev pub set_entry : ℕ → ℕ → (ℕ → ℕ) → ℕ → ℕ
set_entry offset call table n = if offset == n then call else table n

-- `_PAGE_RW`.
abbrev pub page_rw : ℕ
page_rw = 2

-- `pte & _PAGE_RW`.
abbrev pub is_writable : ℕ → Bool
is_writable pte = pte / page_rw % 2 == 1

-- `pte &~ _PAGE_RW`.
abbrev pub without_rw : ℕ → ℕ
without_rw pte = if is_writable pte then pte - page_rw else pte

-- `pte | _PAGE_RW`.
abbrev pub with_rw : ℕ → ℕ
with_rw pte = if is_writable pte then pte else pte + page_rw

unfoldable pub page_read_write : Syscalls → Syscalls
page_read_write s = if without_rw s.pte == 0 then s else record s { pte = with_rw s.pte }

unfoldable pub page_read_only : Syscalls → Syscalls
page_read_only s = record s { pte = without_rw s.pte }

-- `syscall_table[offset] = call`, on a processor that honours the page's protection.
unfoldable pub write_entry : ℕ → ℕ → Syscalls → Option Syscalls
write_entry offset call s =
    if is_writable s.pte then some (record s { table = set_entry offset call s.table }) else none

-- `close` is the offset of the entry that tells the table, and `sys_close` what has to stand there.
module _ (close sys_close : ℕ) where
  -- `found` is whether kallsyms knows the table.
  unfoldable pub is_syscall_table : (found : Bool) → (ℕ → ℕ) → Bool
  is_syscall_table found table = if found then table close == sys_close else false

  unfoldable pub replace_syscall : (found : Bool) → ℕ → ℕ → Syscalls → Option Syscalls
  unfolding is_syscall_table page_read_write page_read_only write_entry
  replace_syscall found offset new_syscall s =
      if is_syscall_table found s.table
      then (do
        let open_page = page_read_write (record s { syscall_table = found })
        written ←
            write_entry offset new_syscall
              (record open_page { original_syscall = open_page.table offset })
        some (page_read_only written))
      else some (record s { syscall_table = found })

  unfoldable pub restore_syscall : ℕ → Syscalls → Option Syscalls
  unfolding page_read_write page_read_only write_entry
  restore_syscall offset s =
      if s.syscall_table
      then (do
        written ← write_entry offset s.original_syscall (page_read_write s)
        some (page_read_only written))
      else none

  -- The two calls of the module's start, in the order of src/netmalloc.c. The two offsets are of system calls that
  -- Linux does not implement.
  unfoldable pub replace_syscalls :
      (found : Bool) → (ni1 ni2 : ℕ) → (netmalloc netfree : ℕ) → Syscalls → Option Syscalls
  unfolding replace_syscall
  replace_syscalls found ni1 ni2 netmalloc netfree s =
      replace_syscall found ni1 netmalloc s >>= replace_syscall found ni2 netfree

  -- The two calls of its end.
  unfoldable pub restore_syscalls : (ni1 ni2 : ℕ) → Syscalls → Option Syscalls
  unfolding restore_syscall
  restore_syscalls ni1 ni2 s = restore_syscall ni2 s >>= restore_syscall ni1
