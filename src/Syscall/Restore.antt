-- ===== src/Syscall/Restore.antt =====
-- The table while the module is loaded, and after it is unloaded.
use netmalloc.Common.{
  ℕ, ◌≡◌, ◌≢◌, refl, ap, ◌∙◌, ◌>>=◌, true, false, some, arith, Returns, ◌==◌, if◌then◌else◌, ◌||◌,
}
use netmalloc.Syscall.{
  Syscalls, set_entry, is_writable, without_rw, with_rw, page_read_write, page_read_only,
  write_entry, replace_syscall, restore_syscall, replace_syscalls, restore_syscalls,
}

-- The entry of the page's table after a write: as it was, but protected.
opened : (pte : ℕ) → without_rw pte ≢ 0 → is_writable (with_rw pte) ≡ true
opened pte h = ground arith

closed : (pte : ℕ) → without_rw (with_rw pte) ≡ without_rw pte
closed pte = ground arith

closed_twice : (pte : ℕ) → without_rw (without_rw pte) ≡ without_rw pte
closed_twice pte = ground arith

-- Writing an entry between the two changes of the page's protection.
abbrev guarded : ℕ → ℕ → Syscalls → Syscalls
guarded offset call s = record s { table = set_entry offset call s.table; pte = without_rw s.pte }

page_read_write-eq :
    (s : Syscalls) → without_rw s.pte ≢ 0 → page_read_write s ≡ record s { pte = with_rw s.pte }
unfolding page_read_write
page_read_write-eq s present = let e : (without_rw s.pte == 0) ≡ false = ground arith in rw e refl

write_entry-eq :
    (offset call : ℕ) (s : Syscalls)
    → without_rw s.pte ≢ 0
    → (write_entry offset call (record s { pte = with_rw s.pte }) >>= λ t. some (page_read_only t))
      ≡ some (guarded offset call s)
unfolding write_entry page_read_only
write_entry-eq offset call s present =
    rw (opened s.pte present)
      (ap (λ p. some (record s { table = set_entry offset call s.table; pte = p })) (closed s.pte))

module _ (close sys_close : ℕ) where
  replace_syscall-eq :
      (offset call : ℕ) (s : Syscalls)
      → s.table close ≡ sys_close
      → without_rw s.pte ≢ 0
      → replace_syscall close sys_close true offset call s
        ≡ some (record (guarded offset call s) {
          original_syscall = s.table offset;
          syscall_table = true;
        })
  unfolding replace_syscall
  replace_syscall-eq offset call s h present =
      let e : (s.table close == sys_close) ≡ true = ground arith in
      let s' : Syscalls = record s { syscall_table = true } in
      rw (e, page_read_write-eq s' present)
        (write_entry-eq offset call (record s' { original_syscall = s.table offset }) present)

  restore_syscall-eq :
      (offset : ℕ) (s : Syscalls)
      → without_rw s.pte ≢ 0
      → let s' : Syscalls = record s { syscall_table = true } in
        restore_syscall close sys_close offset s' ≡ some (guarded offset s.original_syscall s')
  unfolding restore_syscall
  restore_syscall-eq offset s present =
      let s' : Syscalls = record s { syscall_table = true } in
      rw (page_read_write-eq s' present) (write_entry-eq offset s.original_syscall s' present)

  -- The table and its page's entry, with the module loaded.
  abbrev loaded : ℕ → ℕ → ℕ → ℕ → Syscalls → Syscalls
  loaded ni1 ni2 netmalloc netfree s = record {
    table = set_entry ni2 netfree (set_entry ni1 netmalloc s.table);
    pte = without_rw s.pte;
    original_syscall = set_entry ni1 netmalloc s.table ni2;
    syscall_table = true;
  }

  replace_syscalls-eq :
      (ni1 ni2 netmalloc netfree : ℕ) (s : Syscalls)
      → s.table close ≡ sys_close
      → without_rw s.pte ≢ 0
      → ni1 ≢ close
      → replace_syscalls close sys_close true ni1 ni2 netmalloc netfree s
        ≡ some (loaded ni1 ni2 netmalloc netfree s)
  unfolding replace_syscalls
  replace_syscalls-eq ni1 ni2 netmalloc netfree s h present a =
      let first : Syscalls = record (guarded ni1 netmalloc s) {
        original_syscall = s.table ni1;
        syscall_table = true;
      } in
      let twice = closed_twice s.pte in
      rw (replace_syscall-eq ni1 netmalloc s h present) (
        replace_syscall-eq ni2 netfree first (ground (arith, h)) (rw twice present)
        ∙ ap (λ p. some (record (loaded ni1 ni2 netmalloc netfree s) { pte = p })) twice)

  restore_syscalls-eq :
      (ni1 ni2 : ℕ) (s : Syscalls)
      → without_rw s.pte ≢ 0
      → let s' : Syscalls = record s { syscall_table = true } in
        restore_syscalls close sys_close ni1 ni2 s'
        ≡ some (guarded ni1 s.original_syscall (guarded ni2 s.original_syscall s'))
  unfolding restore_syscalls
  restore_syscalls-eq ni1 ni2 s present =
      rw (restore_syscall-eq ni2 s present) (
        restore_syscall-eq ni1 (guarded ni2 s.original_syscall s) (rw (closed_twice s.pte) present))

  pub restore_syscalls-some :
      (ni1 ni2 : ℕ) (s : Syscalls)
      → s.syscall_table ≡ true
      → without_rw s.pte ≢ 0
      → (t : Syscalls) × (restore_syscalls close sys_close ni1 ni2 s ≡ some t)
  restore_syscalls-some ni1 ni2 s known present =
      let same : s ≡ record s { syscall_table = true } =
        ap (λ b. record s { syscall_table = b }) known in
      (
        _,
        ap (restore_syscalls close sys_close ni1 ni2) same ∙ restore_syscalls-eq ni1 ni2 s present,
      )

  -- Where the table is found, on a page that is present, and the offsets differ, replacing the two
  -- system calls returns, changes exactly the two entries, and leaves the page protected. Restoring
  -- them then returns, writes what stood in the second entry into both, leaves every other entry as
  -- it was before, and leaves the page protected.
  pub restore_syscalls-table :
      (ni1 ni2 netmalloc netfree : ℕ) (s : Syscalls)
      → s.table close ≡ sys_close
      → without_rw s.pte ≢ 0
      → ni1 ≢ close
      → ni1 ≢ ni2
      → Returns
          (λ t.
            ((n : ℕ)
              → t.table n
                ≡ (if n == ni1 then netmalloc else if n == ni2 then netfree else s.table n))
            × (t.pte ≡ without_rw s.pte)
            × Returns
                (λ u.
                  ((n : ℕ) → u.table n ≡ (if n == ni1 || n == ni2 then s.table ni2 else s.table n))
                  × (u.pte ≡ without_rw s.pte))
                (restore_syscalls close sys_close ni1 ni2 t))
          (replace_syscalls close sys_close true ni1 ni2 netmalloc netfree s)
  restore_syscalls-table ni1 ni2 netmalloc netfree s h present a c =
      let t = loaded ni1 ni2 netmalloc netfree s in
      let twice = closed_twice s.pte in
      rw (replace_syscalls-eq ni1 ni2 netmalloc netfree s h present a) (
        λ n. ground arith,
        refl,
        rw (restore_syscalls-eq ni1 ni2 t (rw twice present))
            (λ n. ground arith, ground (arith, twice)),
      )

  replace_syscall-foreign :
      (offset call : ℕ) (s : Syscalls)
      → s.table close ≢ sys_close
      → replace_syscall close sys_close true offset call s
        ≡ some (record s { syscall_table = true })
  unfolding replace_syscall
  replace_syscall-foreign offset call s h =
      let e : (s.table close == sys_close) ≡ false = ground arith in rw e refl

  -- Where kallsyms finds a table whose entry for `close` is not the expected one, nothing is replaced;
  -- restoring, with the page present, still returns, and overwrites both entries with what
  -- `original_syscall` held at the start.
  pub restore_syscalls-foreign :
      (ni1 ni2 netmalloc netfree : ℕ) (s : Syscalls)
      → s.table close ≢ sys_close
      → without_rw s.pte ≢ 0
      → Returns
          (λ t.
            ((n : ℕ) → t.table n ≡ s.table n)
            × Returns
                (λ u.
                  (n : ℕ)
                  → u.table n ≡ (if n == ni1 || n == ni2 then s.original_syscall else s.table n))
                (restore_syscalls close sys_close ni1 ni2 t))
          (replace_syscalls close sys_close true ni1 ni2 netmalloc netfree s)
  unfolding replace_syscalls
  restore_syscalls-foreign ni1 ni2 netmalloc netfree s h present =
      rw
        (
          replace_syscall-foreign ni1 netmalloc s h,
          replace_syscall-foreign ni2 netfree (record s { syscall_table = true }) h,
        )
        (λ n. refl, rw (restore_syscalls-eq ni1 ni2 s present) (λ n. ground arith))
