-- ===== src/Entry/Stored.antt =====
-- Which pages `remove_storage_pages` takes out of the storage.
use netmalloc.Common.{ℕ, ◌%◌, ◌≡◌, Bool, not, ◌&&◌, ◌==◌, ltb, leb}
use netmalloc.Storage.{StorageOps}
use netmalloc.StoredPage.{is_stored_page}
use netmalloc.StoredPage.Set.{Distinct}
use netmalloc.Vma.{page_size}
use netmalloc.Region.{Cursor}
use netmalloc.Area.{page_end}
use netmalloc.Pager.{State}
use netmalloc.Entry.{can_remove_page}

-- The loop takes out a page of the process from `start` on that may be removed.
abbrev pub removable : ℕ → Cursor → ℕ → ℕ → ℕ → Bool
removable pid c start p b =
    pid == p
    && ((leb start b && ltb b (page_end c.focus)) && (b % page_size == 0 && can_remove_page b c))

module _ {Page : Type 0} (ops : StorageOps Page) (zero_page : Page) (pid : ℕ) (c : Cursor) where
  -- The list of stored pages is free of duplicates, and has lost exactly the pages that `gone` tells.
  pub record Lost (gone : ℕ → ℕ → Bool) (s t : State ops zero_page) : Type 0 where
    pub distinct : Distinct t.stored_pages
    pub stored :
        (p b : ℕ)
        → is_stored_page p b t.stored_pages ≡ (is_stored_page p b s.stored_pages && not (gone p b))
