-- ===== src/Pager/View/Unmap.antt =====
-- Caching the mapped page and writing the oldest one back changes nothing that a process sees.
use netmalloc.Common.{
  ℕ, ◌≡◌, ◌≢◌, refl, inl, inr, true, not, ◌&&◌, ◌||◌, some, List, [], ◌∷◌, ◌++◌, arith, ◌==◌,
  if◌then◌else◌, pos, Bool-cases, ==_iff,
}
use netmalloc.Storage.{StorageOps, IsReliable}
use netmalloc.StoredPage.{StoredPage, add_stored_page, is_stored_page}
use netmalloc.StoredPage.Set.{is_stored_page-append}
use netmalloc.MappedBuffer.{MappedBuffer, get_buffer, swap_buffer_cache}
use netmalloc.Vma.{is_existing_vma}
use netmalloc.Pager.{State, UnmapAnswers, put_buffer, unmap_buffer, cache_page}
use netmalloc.Pager.Buffers.{get_buffer-put}
use netmalloc.Pager.View.{backing, through, view}

-- The stored pages after a page has been saved.
abbrev pub noted : ℕ → ℕ → List StoredPage → List StoredPage
noted pid a pages =
    if is_stored_page pid a pages then pages else pages ++ record { pid = pid; start = a } ∷ []

is_stored_page-noted :
    (pid a p b : ℕ) (pages : List StoredPage)
    → is_stored_page p b (noted pid a pages) ≡ (is_stored_page p b pages || (pid == p && a == b))
is_stored_page-noted pid a p b pages = elim (Bool-cases (is_stored_page pid a pages)) [
  | inl e ↦ rw e (elim (Bool-cases (pid == p && a == b)) [
    | inl h ↦ rw h (ground (arith, e))
    | inr h ↦ rw h (ground arith)
  ])
  | inr e ↦ rw e (is_stored_page-append p b pages (record { pid = pid; start = a }))
]

-- The kernel finds the page at `page` and refuses nothing.
pub record Willing (k : UnmapAnswers) (page : ℕ) : Type 0 where
  pub found : k.get_user_pages ≡ some page
  pub kmap : k.kmap ≡ true
  pub stored : k.stored_page_ok ≡ true
  pub zap : k.zap_page_range ≡ true

module _ {Page : Type 0} (ops : StorageOps Page) (zero_page : Page) (r : IsReliable ops) where
  -- The state once the page of the buffer has been written back.
  abbrev pub saved : State ops zero_page → MappedBuffer → State ops zero_page
  saved s b = record s {
    contents = (ops.save s.contents b.pid b.start (s.memory b.buffer)).0;
    stored_pages = noted b.pid b.start s.stored_pages;
  }

  pub unmap_buffer-saved :
      (k : UnmapAnswers) (s : State ops zero_page) (b : MappedBuffer)
      → is_existing_vma s.areas.vmas b.vma ≡ some true
      → Willing k b.buffer
      → unmap_buffer ops zero_page k s b ≡ some (saved s b, record b { vma = 0 }, pos 0)
  unfolding unmap_buffer add_stored_page
  unmap_buffer-saved k s b e w =
      let fine = r.save_ok s.contents b.pid b.start (s.memory b.buffer) in
      elim (Bool-cases (is_stored_page b.pid b.start s.stored_pages)) [
        | inl h ↦ rw (e, w.found, w.kmap, fine, h, w.zap)
        | inr h ↦ rw (e, w.found, w.kmap, fine, h, w.stored, w.zap)
      ]

  pub backing-saved :
      (s : State ops zero_page) (b : MappedBuffer) (p a : ℕ)
      → backing ops zero_page r (saved s b).contents (saved s b).stored_pages p a ≡ (
          if b.pid == p && b.start == a
          then s.memory b.buffer
          else backing ops zero_page r s.contents s.stored_pages p a)
  backing-saved s b p a =
      rw
        (
          is_stored_page-noted b.pid b.start p a s.stored_pages,
          r.save_held s.contents b.pid b.start (s.memory b.buffer) p a,
        )
        (elim (Bool-cases (b.pid == p && b.start == a)) [
          | inl h ↦ rw h (ground arith)
          | inr h ↦ rw h (ground arith)
        ])

  -- The buffer afterwards: its mapped page is in the cache, and the other page is free.
  abbrev pub idle : MappedBuffer → MappedBuffer
  idle b = record {
    buffer = b.cache;
    vma = 0;
    start = b.cache_start;
    pid = b.pid;
    cache = b.buffer;
    cache_vma = b.vma;
    cache_start = b.start;
  }

  abbrev pub cached : State ops zero_page → MappedBuffer → State ops zero_page
  cached s b =
      let written =
        if b.cache_vma == 0 then s else saved s (record (idle b) { vma = b.cache_vma }) in
      record written { buffers = put_buffer (idle b) s.buffers }

  pub cache_page-cached :
      (k : UnmapAnswers) (s : State ops zero_page) (b : MappedBuffer)
      → (b.cache_vma ≢ 0
          → (is_existing_vma s.areas.vmas b.cache_vma ≡ some true) × Willing k b.cache)
      → cache_page ops zero_page k s b ≡ some (cached s b, pos 0)
  unfolding cache_page swap_buffer_cache
  cache_page-cached k s b ready = elim (Bool-cases (b.cache_vma == 0)) [
    | inl z ↦ (let q : b.cache_vma ≡ 0 = ground arith in rw (z, q) refl)
    | inr z ↦
        let (e, w) = ready (ground arith) in
        rw (z, unmap_buffer-saved k s (record (idle b) { vma = b.cache_vma }) e w) refl
  ]

  -- The page that the buffer has held longest is what the storage gains.
  backing-cached :
      (s : State ops zero_page) (b : MappedBuffer) (p a : ℕ)
      → backing ops zero_page r (cached s b).contents (cached s b).stored_pages p a ≡ (
          if not (b.cache_vma == 0) && (b.pid == p && b.cache_start == a)
          then s.memory b.cache
          else backing ops zero_page r s.contents s.stored_pages p a)
  backing-cached s b p a = elim (Bool-cases (b.cache_vma == 0)) [
    | inl z ↦ rw z refl
    | inr z ↦ rw z (backing-saved s (record (idle b) { vma = b.cache_vma }) p a)
  ]

  memory-cached : (s : State ops zero_page) (b : MappedBuffer) → (cached s b).memory ≡ s.memory
  memory-cached s b = elim (Bool-cases (b.cache_vma == 0)) [ inl z ↦ rw z refl | inr z ↦ rw z refl ]

  through-idle :
      (b : MappedBuffer) (memory : ℕ → Page) (a : ℕ) (stored : Page)
      → through ops zero_page r
          (some (idle b))
          memory
          a
          (if not (b.cache_vma == 0) && b.cache_start == a then memory b.cache else stored)
        ≡ through ops zero_page r (some b) memory a stored
  through-idle b memory a stored = ground arith

  pub cached-view :
      (s : State ops zero_page) (b : MappedBuffer) (p a : ℕ)
      → get_buffer b.pid s.buffers ≡ some b
      → view ops zero_page r (cached s b) p a ≡ view ops zero_page r s p a
  cached-view s b p a found =
      rw (get_buffer-put p (idle b) b s.buffers found, backing-cached s b p a, memory-cached s b)
        (elim (Bool-cases (b.pid == p)) [
          | inl e ↦
              let q : get_buffer p s.buffers ≡ some b = rw (← (==_iff b.pid p).0 e) found in
              rw (e, q)
                (through-idle b s.memory a (backing ops zero_page r s.contents s.stored_pages p a))
          | inr e ↦ rw e (ground arith)
        ])
