-- ===== src/MappedBuffer.antt =====
-- src/mapped_buffer.c and src/mapped_buffer.h: for each process the page that is mapped into it
-- and the one mapped before, its cache. A pointer is a number, and NULL is 0. What the allocators
-- answer is an argument; which page memory is given back, and by which call, is part of the result.
pub mod Laws
use netmalloc.Common.{ℕ, Bool, Option, none, some, List, [], ◌∷◌, ◌++◌, ◌==◌, if◌then◌else◌}

pub record MappedBuffer : Type 0 where
  pub buffer : ℕ
  pub vma : ℕ
  pub start : ℕ
  pub pid : ℕ
  pub cache : ℕ
  pub cache_vma : ℕ
  pub cache_start : ℕ

-- A call that gives page memory back.
pub data Release : Type 0 where
  kfree vfree : ℕ → Release

-- The answers of kmalloc (with what the fresh words `start` and `cache_start` happen to hold) and
-- of the two calls of vmalloc_user.
pub record Memory : Type 0 where
  pub kmalloc : Bool
  pub start : ℕ
  pub cache_start : ℕ
  pub buffer : ℕ
  pub cache : ℕ

unfoldable pub get_buffer : ℕ → List MappedBuffer → Option MappedBuffer
get_buffer pid [] = none
get_buffer pid (buffer ∷ buffers) =
    if buffer.pid == pid then some buffer else get_buffer pid buffers

unfoldable pub swap_buffer_cache : MappedBuffer → MappedBuffer
swap_buffer_cache buffer = record buffer {
  buffer = buffer.cache;
  vma = buffer.cache_vma;
  start = buffer.cache_start;
  cache = buffer.buffer;
  cache_vma = buffer.vma;
  cache_start = buffer.start;
}

-- `if (p) vfree(p);`
abbrev pub vfree_page : ℕ → List Release → List Release
vfree_page p released = if p == 0 then released else vfree p ∷ released

abbrev pub free_pages : MappedBuffer → List Release → List Release
free_pages buffer released = vfree_page buffer.buffer (vfree_page buffer.cache released)

-- `list_del` of the node that `get_buffer` found.
unfoldable pub unlink : ℕ → List MappedBuffer → List MappedBuffer
unlink pid [] = []
unlink pid (buffer ∷ buffers) = if buffer.pid == pid then buffers else buffer ∷ unlink pid buffers

unfoldable pub remove_buffer : ℕ → List MappedBuffer → List MappedBuffer × List Release
unfolding get_buffer unlink
remove_buffer pid buffers = elim (get_buffer pid buffers) [
  | none ↦ (buffers, [])
  | some buffer ↦ (unlink pid buffers, free_pages buffer [])
]

-- The node that `add_buffer` fills in.
abbrev pub fresh_buffer : Memory → ℕ → MappedBuffer
fresh_buffer m pid = record {
  buffer = m.buffer;
  vma = 0;
  start = m.start;
  pid = pid;
  cache = m.cache;
  cache_vma = 0;
  cache_start = m.cache_start;
}

unfoldable pub add_buffer :
    Memory → ℕ → List MappedBuffer → Option MappedBuffer × List MappedBuffer × List Release
add_buffer m pid buffers =
    let buffer = fresh_buffer m pid in
    if m.kmalloc
    then (if m.buffer == 0
        then (none, buffers, [])
        else if m.cache == 0
        then (none, buffers, kfree m.buffer ∷ [])
        else (some buffer, buffers ++ buffer ∷ [], []))
    else (none, buffers, [])

abbrev pub init_buffers : List MappedBuffer
init_buffers = []

-- All nodes are taken off; what is left is the calls that gave their pages back.
unfoldable pub remove_buffers : List MappedBuffer → List MappedBuffer × List Release
remove_buffers [] = ([], [])
remove_buffers (buffer ∷ buffers) =
    let (rest, released) = remove_buffers buffers in (rest, free_pages buffer released)
