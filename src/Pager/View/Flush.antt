-- ===== src/Pager/View/Flush.antt =====
-- Unmapping both pages of a process, as an allocation and a free do, changes nothing that any process
-- sees: both go to the storage.
use netmalloc.Common.{
  ℕ, ◌≡◌, ◌≢◌, refl, sym, ap, inl, inr, true, false, not, ◌&&◌, some, List, arith, ◌==◌,
  if◌then◌else◌, ℤ, pos, Bool-cases, ==_iff, Returns,
}
use netmalloc.Storage.{StorageOps, IsReliable}
use netmalloc.MappedBuffer.{MappedBuffer, get_buffer, swap_buffer_cache}
use netmalloc.Vma.{is_existing_vma}
use netmalloc.Pager.{State, UnmapAnswers, put_buffer, flush_cache, flush_pages, unmap_page}
use netmalloc.Pager.Buffers.{get_buffer-put}
use netmalloc.Pager.View.{backing, through, view}
use netmalloc.Pager.View.Unmap.{Willing, saved, unmap_buffer-saved, backing-saved}

module _ {Page : Type 0} (ops : StorageOps Page) (zero_page : Page) (r : IsReliable ops) where
  -- The buffer with its mapped page written back, and with both.
  abbrev without_page : MappedBuffer → MappedBuffer
  without_page b = record b { vma = 0 }

  abbrev swapped : MappedBuffer → MappedBuffer
  swapped b = record {
    buffer = b.cache;
    vma = b.cache_vma;
    start = b.cache_start;
    pid = b.pid;
    cache = b.buffer;
    cache_vma = 0;
    cache_start = b.start;
  }

  abbrev first_saved : State ops zero_page → MappedBuffer → State ops zero_page
  first_saved s b = if b.vma == 0 then s else saved ops zero_page r s b

  abbrev both_saved : State ops zero_page → MappedBuffer → State ops zero_page
  both_saved s b =
      if b.cache_vma == 0
      then first_saved s b
      else saved ops zero_page r (first_saved s b) (swapped b)

  abbrev empty_buffer : MappedBuffer → MappedBuffer
  empty_buffer b = if b.cache_vma == 0 then without_page b else record (swapped b) { vma = 0 }

  abbrev pub flushed : State ops zero_page → MappedBuffer → State ops zero_page
  flushed s b = record (both_saved s b) { buffers = put_buffer (empty_buffer b) s.buffers }

  flush_cache-eq :
      (k : UnmapAnswers) (s : State ops zero_page) (b : MappedBuffer)
      → (b.cache_vma ≢ 0
          → (is_existing_vma s.areas.vmas b.cache_vma ≡ some true) × Willing k b.cache)
      → flush_cache ops zero_page k (s, without_page b, pos 0)
        ≡ some (
            if b.cache_vma == 0
            then (record s { buffers = put_buffer (without_page b) s.buffers }, pos 0)
            else (
              record (saved ops zero_page r s (swapped b)) {
                buffers = put_buffer (record (swapped b) { vma = 0 }) s.buffers;
              },
              pos 0,
            ))
  unfolding flush_cache swap_buffer_cache
  flush_cache-eq k s b ready = elim (Bool-cases (b.cache_vma == 0)) [
    | inl z ↦ rw z refl
    | inr z ↦
        let (e, w) = ready (ground arith) in
        rw (z, unmap_buffer-saved ops zero_page r k s (swapped b) e w) refl
  ]

  without_page-id : (b : MappedBuffer) → b.vma ≡ 0 → without_page b ≡ b
  without_page-id b e = ap (λ v. record b { vma = v }) (sym e)

  flush_pages-flushed :
      (k k' : UnmapAnswers) (s : State ops zero_page) (b : MappedBuffer)
      → (b.vma ≢ 0 → (is_existing_vma s.areas.vmas b.vma ≡ some true) × Willing k b.buffer)
      → (b.cache_vma ≢ 0
          → (is_existing_vma s.areas.vmas b.cache_vma ≡ some true) × Willing k' b.cache)
      → flush_pages ops zero_page k k' s b ≡ some (flushed s b, pos 0)
  unfolding flush_pages
  flush_pages-flushed k k' s b ready ready' = elim (Bool-cases (b.vma == 0)) [
    | inl z ↦
        let q : b.vma ≡ 0 = ground arith in
        let eq : flush_cache ops zero_page k' (s, b, pos 0)
            ≡ flush_cache ops zero_page k' (s, without_page b, pos 0) =
          ap (λ x. flush_cache ops zero_page k' (s, x, pos 0)) (sym (without_page-id b q)) in
        rw (z, eq, flush_cache-eq k' s b ready')
          elim (Bool-cases (b.cache_vma == 0)) [ inl e ↦ rw e refl | inr e ↦ rw e refl ]
    | inr z ↦
        let (e, w) = ready (ground arith) in
        rw
          (
            z,
            unmap_buffer-saved ops zero_page r k s b e w,
            flush_cache-eq k' (saved ops zero_page r s b) b ready',
          )
          elim (Bool-cases (b.cache_vma == 0)) [ inl e ↦ rw e refl | inr e ↦ rw e refl ]
  ]

  unmap_page-flushed :
      (k k' : UnmapAnswers) (s : State ops zero_page) (b : MappedBuffer)
      → get_buffer b.pid s.buffers ≡ some b
      → (b.vma ≢ 0 → (is_existing_vma s.areas.vmas b.vma ≡ some true) × Willing k b.buffer)
      → (b.cache_vma ≢ 0
          → (is_existing_vma s.areas.vmas b.cache_vma ≡ some true) × Willing k' b.cache)
      → unmap_page ops zero_page k k' s b.pid false ≡ some (flushed s b, pos 0)
  unfolding unmap_page
  unmap_page-flushed k k' s b found ready ready' =
      rw (found, unmap_page) (flush_pages-flushed k k' s b ready ready')

  memory-flushed : (s : State ops zero_page) (b : MappedBuffer) → (both_saved s b).memory ≡ s.memory
  memory-flushed s b = elim (Bool-cases (b.cache_vma == 0)) [
    | inl z ↦ rw z (elim (Bool-cases (b.vma == 0)) [ inl e ↦ rw e refl | inr e ↦ rw e refl ])
    | inr z ↦ rw z (elim (Bool-cases (b.vma == 0)) [ inl e ↦ rw e refl | inr e ↦ rw e refl ])
  ]

  backing-first :
      (s : State ops zero_page) (b : MappedBuffer) (p a : ℕ)
      → backing ops zero_page r (first_saved s b).contents (first_saved s b).stored_pages p a ≡ (
          if not (b.vma == 0) && (b.pid == p && b.start == a)
          then s.memory b.buffer
          else backing ops zero_page r s.contents s.stored_pages p a)
  backing-first s b p a = elim (Bool-cases (b.vma == 0)) [
    | inl z ↦ rw z refl
    | inr z ↦ rw z (backing-saved ops zero_page r s b p a)
  ]

  memory-first : (s : State ops zero_page) (b : MappedBuffer) → (first_saved s b).memory ≡ s.memory
  memory-first s b = elim (Bool-cases (b.vma == 0)) [ inl z ↦ rw z refl | inr z ↦ rw z refl ]

  backing-both :
      (s : State ops zero_page) (b : MappedBuffer) (p a : ℕ)
      → backing ops zero_page r (both_saved s b).contents (both_saved s b).stored_pages p a ≡ (
          if not (b.cache_vma == 0) && (b.pid == p && b.cache_start == a)
          then s.memory b.cache
          else if not (b.vma == 0) && (b.pid == p && b.start == a)
          then s.memory b.buffer
          else backing ops zero_page r s.contents s.stored_pages p a)
  backing-both s b p a = elim (Bool-cases (b.cache_vma == 0)) [
    | inl z ↦ rw z (backing-first s b p a)
    | inr z ↦ rw (
      z,
      backing-saved ops zero_page r (first_saved s b) (swapped b) p a,
      backing-first s b p a,
      memory-first s b,
    )
  ]

  through-empty :
      (b : MappedBuffer) (memory : ℕ → Page) (a : ℕ) (stored : Page)
      → through ops zero_page r (some (empty_buffer b)) memory a stored ≡ stored
  through-empty b memory a stored = elim (Bool-cases (b.cache_vma == 0)) [
    | inl z ↦ rw z (ground (arith, z))
    | inr z ↦ rw z refl
  ]

  get_buffer-flushed :
      (p : ℕ) (b : MappedBuffer) (bs : List MappedBuffer)
      → get_buffer b.pid bs ≡ some b
      → get_buffer p (put_buffer (empty_buffer b) bs)
        ≡ (if b.pid == p then some (empty_buffer b) else get_buffer p bs)
  get_buffer-flushed p b bs found = elim (Bool-cases (b.cache_vma == 0)) [
    | inl z ↦ rw z (get_buffer-put p (without_page b) b bs found)
    | inr z ↦ rw z (get_buffer-put p (record (swapped b) { vma = 0 }) b bs found)
  ]

  flushed-view :
      (s : State ops zero_page) (b : MappedBuffer) (p a : ℕ)
      → get_buffer b.pid s.buffers ≡ some b
      → (b.vma ≢ 0 → b.cache_vma ≢ 0 → b.start ≢ b.cache_start)
      → view ops zero_page r (flushed s b) p a ≡ view ops zero_page r s p a
  flushed-view s b p a found once =
      rw (get_buffer-flushed p b s.buffers found, backing-both s b p a, memory-flushed s b)
        (elim (Bool-cases (b.pid == p)) [
          | inl e ↦
              let q : get_buffer p s.buffers ≡ some b = rw (← (==_iff b.pid p).0 e) found in
              rw (e, q, through-empty b s.memory a _) (ground (arith, once))
          | inr e ↦ rw e (ground arith)
        ])

  areas-flushed : (s : State ops zero_page) (b : MappedBuffer) → (both_saved s b).areas ≡ s.areas
  areas-flushed s b = elim (Bool-cases (b.cache_vma == 0)) [
    | inl z ↦ rw z (elim (Bool-cases (b.vma == 0)) [ inl e ↦ rw e refl | inr e ↦ rw e refl ])
    | inr z ↦ rw z (elim (Bool-cases (b.vma == 0)) [ inl e ↦ rw e refl | inr e ↦ rw e refl ])
  ]

  stored_self :
      (s : State ops zero_page) (b : MappedBuffer) (a : ℕ)
      → get_buffer b.pid s.buffers ≡ some b
      → (b.vma ≢ 0 → b.cache_vma ≢ 0 → b.start ≢ b.cache_start)
      → backing ops zero_page r (flushed s b).contents (flushed s b).stored_pages b.pid a
        ≡ view ops zero_page r s b.pid a
  stored_self s b a found once = rw (found, backing-both s b b.pid a) (ground (arith, once))

  -- What unmapping both pages of a process leaves, with a reliable storage and a willing kernel.
  pub record Flushed (s : State ops zero_page) (pid : ℕ) (out : State ops zero_page × ℤ)
      : Type 0 where
    pub result : out.1 ≡ pos 0
    pub areas : out.0.areas ≡ s.areas
    -- Everything that the process sees is in the storage.
    pub stored :
        (a : ℕ)
        → backing ops zero_page r out.0.contents out.0.stored_pages pid a
          ≡ view ops zero_page r s pid a
    pub others : (p a : ℕ) → view ops zero_page r out.0 p a ≡ view ops zero_page r s p a

  -- Unmapping all pages of a process, as an allocation does, when its two pages are at different
  -- addresses, with a reliable storage and a willing kernel: it returns 0, the storage then holds what
  -- the process sees at every address, and no process sees any other content than before.
  pub unmap_page-Flushed :
      (k k' : UnmapAnswers) (s : State ops zero_page) (b : MappedBuffer)
      → get_buffer b.pid s.buffers ≡ some b
      → (b.vma ≢ 0 → b.cache_vma ≢ 0 → b.start ≢ b.cache_start)
      → (b.vma ≢ 0 → (is_existing_vma s.areas.vmas b.vma ≡ some true) × Willing k b.buffer)
      → (b.cache_vma ≢ 0
          → (is_existing_vma s.areas.vmas b.cache_vma ≡ some true) × Willing k' b.cache)
      → Returns (Flushed s b.pid) (unmap_page ops zero_page k k' s b.pid false)
  unmap_page-Flushed k k' s b found once ready ready' =
      let same = λ (p a : ℕ). flushed-view s b p a found once in
      rw (unmap_page-flushed k k' s b found ready ready') (record {
        result = refl;
        areas = areas-flushed s b;
        stored = λ a. stored_self s b a found once;
        others = same;
      })
