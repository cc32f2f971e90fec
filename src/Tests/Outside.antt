-- ===== src/Tests/Outside.antt =====
-- Runs on the network storage of src/storage.c, on the system call table, and on the fault handler.
use netmalloc.Common.{[], rebuild, ℕ, ◌≡◌, refl, true, ◌||◌, arith, ◌==◌, if◌then◌else◌, Returns}
use netmalloc.Syscall.{Syscalls, replace_syscalls, restore_syscalls}
use netmalloc.Syscall.Restore.{restore_syscalls-table, restore_syscalls-foreign}
use netmalloc.MappedBuffer.{get_buffer}
use netmalloc.Pager.View.Fault.{Private, Ready}
use netmalloc.Entry.{close_vma}
use netmalloc.Entry.Close.Handler.{Closed, close_vma-Closed}
use netmalloc.Tests.Paging.{table, table-IsReliable}
use netmalloc.Tests.Entry.{state, buffer, area, area-Ordered}

-- `close` is entry 3, and the two entries that are not implemented hold different numbers.
abbrev calls : Syscalls
calls = record {
  table = λ n. if n == 3 then 300 else if n == 184 then 999 else 998;
  pte = 3;
  original_syscall = 0;
  syscall_table = true;
}

restore_syscalls-table_example :
    Returns
      (λ t.
        ((n : ℕ)
          → t.table n ≡ (if n == 184 then 1000 else if n == 185 then 2000 else calls.table n))
        × (t.pte ≡ 1)
        × Returns
            (λ u.
              ((n : ℕ) → u.table n ≡ (if n == 184 || n == 185 then 998 else calls.table n))
              × (u.pte ≡ 1))
            (restore_syscalls 3 300 184 185 t))
      (replace_syscalls 3 300 true 184 185 1000 2000 calls)
restore_syscalls-table_example =
    restore_syscalls-table 3 300 184 185 1000 2000 calls refl (omega arith) (omega arith)
      (omega arith)

restore_syscalls-foreign_example :
    Returns
      (λ t.
        ((n : ℕ) → t.table n ≡ calls.table n)
        × Returns
            (λ u. (n : ℕ) → u.table n ≡ (if n == 184 || n == 185 then 0 else calls.table n))
            (restore_syscalls 3 301 184 185 t))
      (replace_syscalls 3 301 true 184 185 1000 2000 calls)
restore_syscalls-foreign_example =
    restore_syscalls-foreign 3 301 184 185 1000 2000 calls (omega arith) (omega arith)

no_other : (page : ℕ) → Private state.buffers 1 page
unfolding get_buffer
no_other page p c h away = ground arith

state-Ready : Ready table 0 table-IsReliable state buffer
state-Ready = record {
  found = unfold get_buffer in refl;
  apart = omega arith;
  private = no_other 100;
  private_cache = no_other 200;
}

close_vma-Closed_example :
    Returns
      (Closed table 0 table-IsReliable 1 20392 (omega arith) state [] [])
      (close_vma table 0 state 7)
close_vma-Closed_example =
    close_vma-Closed table 0 table-IsReliable 1 20392 (omega arith) state [] [] area
      (unfold rebuild in refl) tt refl
      ((λ h. (record { vm_mm = 1; vm_start = 8192; vm_end = 20480 }, refl)), tt)
      ((8192, area-Ordered), tt) (unfold get_buffer in (refl, tt))
