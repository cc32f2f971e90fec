-- ===== src/Tests/Paging.antt =====
-- Runs on the paging of src/generic_malloc.c, with a storage that keeps each page in a function.
use netmalloc.Common.{
  ℕ, ◌≡◌, ◌≢◌, refl, true, false, ◌&&◌, none, some, [], ◌∷◌, arith, ◌==◌, if◌then◌else◌, pos,
  Returns,
}
use netmalloc.Storage.{StorageOps, IsReliable}
use netmalloc.MappedBuffer.{MappedBuffer, get_buffer}
use netmalloc.Vma.{is_existing_vma, listed}
use netmalloc.Pager.{State, UnmapAnswers, MapAnswers, unmap_page, generic_malloc_get_page}
use netmalloc.Pager.View.Unmap.{Willing}
use netmalloc.Pager.View.Fault.{Private, Ready, Faulted}
use netmalloc.Pager.View.First.{generic_malloc_get_page-first}
use netmalloc.Pager.View.Flush.{Flushed, unmap_page-Flushed}

-- A page is a number here, and the storage a function of the process and the address.
abbrev put : (ℕ → ℕ → ℕ) → ℕ → ℕ → ℕ → ℕ → ℕ → ℕ
put c pid a page p b = if pid == p && a == b then page else c p b

abbrev pub table : StorageOps ℕ
table = record {
  Contents = ℕ → ℕ → ℕ;
  save = λ c pid a page. (put c pid a page, pos 0);
  load = λ c pid a old. (c pid a, pos 0);
  remove = λ c pid a. put c pid a 0;
}

pub table-IsReliable : IsReliable table
table-IsReliable = record {
  held = λ c. c;
  load_held = λ c pid a old. refl;
  load_ok = λ c pid a old. refl;
  save_ok = λ c pid a page. refl;
  save_held = λ c pid a page p b. refl;
  remove_held = λ c pid a p b h. rw h;
}

-- The page at 8192 is mapped, and the one at 12288 is in the cache, to be written back.
abbrev buffer : MappedBuffer
buffer = record {
  buffer = 100;
  vma = 7;
  start = 8192;
  pid = 1;
  cache = 200;
  cache_vma = 7;
  cache_start = 12288;
}

abbrev state : State table 0
state = record {
  areas = record {
    vmas = record {
      heap = λ p.
          if p == 7 then some (record { vm_mm = 1; vm_start = 8192; vm_end = 20480 }) else none;
      mmap = λ mm. if mm == 1 then 7 ∷ [] else [];
    };
    area_list = [];
  };
  buffers = buffer ∷ [];
  stored_pages = record { pid = 1; start = 16384 } ∷ [];
  contents = λ p b. if p == 1 && b == 16384 then 55 else 0;
  memory = λ p. if p == 100 then 11 else 22;
}

abbrev pub unmapping : ℕ → UnmapAnswers
unmapping page = record {
  get_user_pages = some page;
  kmap = true;
  stored_page_ok = true;
  zap_page_range = true;
}

pub unmapping-Willing : (page : ℕ) → Willing (unmapping page) page
unmapping-Willing page = record { found = refl; kmap = refl; stored = refl; zap = refl }

abbrev pub mapping : MapAnswers
mapping = record {
  buffer = record { kmalloc = true; start = 0; cache_start = 0; buffer = 300; cache = 400 };
  vm_insert_page = true;
}

no_other : (page : ℕ) → Private state.buffers 1 page
unfolding get_buffer
no_other page p c h away = ground arith

state-Ready : Ready table 0 table-IsReliable state buffer
state-Ready = record {
  found = unfold get_buffer in refl;
  apart = omega arith;
  private = no_other 100;
  private_cache = no_other 200;
}

existing : is_existing_vma state.areas.vmas 7 ≡ some true
unfolding is_existing_vma listed
existing = refl

other_apart : (page : ℕ) → page ≢ 100 → page ≢ 200 → Private state.buffers 2 page
unfolding get_buffer
other_apart page h k p c e away = ground arith

generic_malloc_get_page-first_example :
    Returns
      (Faulted table 0 table-IsReliable state 2 16384 7)
      (generic_malloc_get_page table 0 (unmapping 200) mapping state 2 16384 7)
generic_malloc_get_page-first_example =
    generic_malloc_get_page-first table 0 table-IsReliable (unmapping 200) mapping state 2 16384 7
      (unfold get_buffer in refl)
      (record {
        kmalloc = refl;
        buffer = omega arith;
        cache = omega arith;
        apart = omega arith;
        private = other_apart 300 (omega arith) (omega arith);
        private_cache = other_apart 400 (omega arith) (omega arith);
      })
      (omega arith) refl

unmap_page-Flushed_example :
    Returns
      (Flushed table 0 table-IsReliable state 1)
      (unmap_page table 0 (unmapping 100) (unmapping 200) state 1 false)
unmap_page-Flushed_example =
    unmap_page-Flushed table 0 table-IsReliable (unmapping 100) (unmapping 200) state buffer
      (unfold get_buffer in refl) (λ h k. omega arith) (λ h. (existing, unmapping-Willing 100))
      (λ h. (existing, unmapping-Willing 200))
