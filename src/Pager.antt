-- ===== src/Pager.antt =====
-- The paging part of src/generic_malloc.c. The state holds the static lists, the maps, the storage,
-- and the content of the kernel pages by address. What the kernel answers during a call is a
-- record. A result `none` is a read through a bad pointer. The calls stand under one lock, so a
-- call is a function of the state; printing is left out.
pub mod Buffers
pub mod View
use mathlib.Core.Option
use netmalloc.Common.{
  ℕ, Bool, true, Option, none, some, List, [], ◌∷◌, ◌==◌, if◌then◌else◌, ◌>>=◌, ℤ, pos, is_negative,
  is_nonzero, enomem, minus_one,
}
use netmalloc.Storage.{StorageOps}
use netmalloc.StoredPage.{StoredPage, add_stored_page, is_stored_page}
use netmalloc.MappedBuffer.{MappedBuffer, Memory, get_buffer, swap_buffer_cache, add_buffer}
use netmalloc.Vma.{is_existing_vma}
use netmalloc.Area.{Areas, is_valid_address}

-- The buffer that `get_buffer` finds, with its fields as they are now.
unfoldable pub put_buffer : MappedBuffer → List MappedBuffer → List MappedBuffer
put_buffer buffer [] = []
put_buffer buffer (b ∷ bs) = if b.pid == buffer.pid then buffer ∷ bs else b ∷ put_buffer buffer bs

-- The kernel's answers while a page is unmapped: the page that get_user_pages finds, whether kmap
-- and the kmalloc of a `stored_page` succeed, and whether `zap_page_range` is known.
pub record UnmapAnswers : Type 0 where
  pub get_user_pages : Option ℕ
  pub kmap : Bool
  pub stored_page_ok : Bool
  pub zap_page_range : Bool

-- The answers while a page is mapped: to `add_buffer`, and whether vm_insert_page succeeds.
pub record MapAnswers : Type 0 where
  pub buffer : Memory
  pub vm_insert_page : Bool

module _ {Page : Type 0} (ops : StorageOps Page) (zero_page : Page) where
  pub record State : Type 0 where
    pub areas : Areas
    pub buffers : List MappedBuffer
    pub stored_pages : List StoredPage
    pub contents : ops.Contents
    pub memory : ℕ → Page

  abbrev pub write_page : ℕ → Page → (ℕ → Page) → ℕ → Page
  write_page p page memory q = if p == q then page else memory q

  -- `copy_page_from_user` once the page has been saved.
  unfoldable pub note_stored : UnmapAnswers → State → ℕ → ℕ → State × ℤ
  note_stored k s pid start =
      if is_stored_page pid start s.stored_pages
      then (s, pos 0)
      else (let (page, pages) = add_stored_page k.stored_page_ok pid start s.stored_pages in
          (record s { stored_pages = pages }, elim page [ none ↦ enomem | some p ↦ pos 0 ]))

  unfoldable pub copy_page_from_user : UnmapAnswers → State → ℕ → ℕ → State × ℤ
  unfolding note_stored
  copy_page_from_user k s pid start = elim k.get_user_pages [
    | none ↦ (s, pos 0)
    | some page ↦
        if k.kmap
        then (let (contents, res) = ops.save s.contents pid start (s.memory page) in
            let s' : State = record s { contents = contents } in
            if is_negative res then (s', res) else note_stored k s' pid start)
        else (s, enomem)
  ]

  unfoldable pub remove_user_page : UnmapAnswers → ℤ
  remove_user_page k = if k.zap_page_range then pos 0 else minus_one

  -- The buffer's fields are returned beside the state.
  unfoldable pub unmap_buffer :
      UnmapAnswers → State → MappedBuffer → Option (State × MappedBuffer × ℤ)
  unfolding copy_page_from_user remove_user_page
  unmap_buffer k s buffer = do
    existing ← is_existing_vma s.areas.vmas buffer.vma
    some (
        if existing
        then (let (s', error) = copy_page_from_user k s buffer.pid buffer.start in
            if is_nonzero error
            then (s', buffer, error)
            else if is_nonzero (remove_user_page k)
            then (s', buffer, minus_one)
            else (s', record buffer { vma = 0 }, pos 0))
        else (s, buffer, pos 0))

  abbrev pub keep_buffer : State × MappedBuffer × ℤ → State × ℤ
  keep_buffer (s, buffer, error) = (record s { buffers = put_buffer buffer s.buffers }, error)

  -- `unmap_page` with `cache` set, for the buffer of the process.
  unfoldable pub cache_page : UnmapAnswers → State → MappedBuffer → Option (State × ℤ)
  unfolding unmap_buffer put_buffer
  cache_page k s buffer =
      let swapped = swap_buffer_cache buffer in
      if buffer.cache_vma == 0
      then some (keep_buffer (s, swapped, pos 0))
      else Option.map keep_buffer (unmap_buffer k s swapped)

  -- `unmap_page` with `cache` clear: both pages. The second answers are for the cached page.
  unfoldable pub flush_cache : UnmapAnswers → State × MappedBuffer × ℤ → Option (State × ℤ)
  unfolding unmap_buffer put_buffer
  flush_cache k (s, buffer, error) =
      if is_nonzero error
      then some (keep_buffer (s, buffer, error))
      else if buffer.cache_vma == 0
      then some (keep_buffer (s, buffer, pos 0))
      else Option.map keep_buffer (unmap_buffer k s (swap_buffer_cache buffer))

  unfoldable pub flush_pages :
      UnmapAnswers → UnmapAnswers → State → MappedBuffer → Option (State × ℤ)
  flush_pages k k' s buffer =
      if buffer.vma == 0
      then flush_cache k' (s, buffer, pos 0)
      else unmap_buffer k s buffer >>= flush_cache k'

  unfoldable pub unmap_page : UnmapAnswers → UnmapAnswers → State → ℕ → Bool → Option (State × ℤ)
  unmap_page k k' s pid cache = elim (get_buffer pid s.buffers) [
    | none ↦ some (s, pos 0)
    | some buffer ↦ if cache then cache_page k s buffer else flush_pages k k' s buffer
  ]

  -- `map_page` with the buffer at hand. The result is the address of the page, and NULL on an error.
  unfoldable pub fill_buffer : MapAnswers → State → MappedBuffer → ℕ → ℕ → State × Option ℕ
  unfolding put_buffer
  fill_buffer k s buffer address vma =
      let stored = is_stored_page buffer.pid address s.stored_pages in
      let (page, res) =
        if stored
        then ops.load s.contents buffer.pid address (s.memory buffer.buffer)
        else (zero_page, pos 0) in
      let s' : State = record s { memory = write_page buffer.buffer page s.memory } in
      if is_negative res
      then (s', none)
      else if k.vm_insert_page
      then (
        record s' {
          buffers = put_buffer (record buffer { vma = vma; start = address }) s'.buffers;
        },
        some buffer.buffer,
      )
      else (s', none)

  unfoldable pub map_page : MapAnswers → State → ℕ → ℕ → ℕ → State × Option ℕ
  map_page k s pid address vma = elim (get_buffer pid s.buffers) [
    | some buffer ↦ fill_buffer k s buffer address vma
    | none ↦
        let (made, buffers, released) = add_buffer k.buffer pid s.buffers in
        let s' : State = record s { buffers = buffers } in
        elim made [ none ↦ (s', none) | some buffer ↦ fill_buffer k s' buffer address vma ]
  ]

  -- With `cache` set only the first answers to `unmap_page` are used.
  unfoldable pub generic_malloc_get_page :
      UnmapAnswers → MapAnswers → State → ℕ → ℕ → ℕ → Option (State × Option ℕ)
  generic_malloc_get_page ku km s pid address vma = do
    (s', error) ← unmap_page ku ku s pid true
    some (if is_nonzero error then (s', none) else map_page km s' pid address vma)

  -- The fault handler: NULL is VM_FAULT_SIGBUS.
  unfoldable pub generic_malloc_vm_fault :
      UnmapAnswers → MapAnswers → State → ℕ → ℕ → ℕ → Option (State × Option ℕ)
  generic_malloc_vm_fault ku km s pid address vma =
      if is_valid_address address vma s.areas.area_list
      then generic_malloc_get_page ku km s pid address vma
      else some (s, none)
