-- ===== src/Pager/View/Fault.antt =====
-- A fault brings the page in with the content that the process sees there, and changes nothing else
-- that any process sees.
use netmalloc.Common.{
  ℕ, ◌≡◌, ◌≢◌, refl, sym, ◌∙◌, inl, inr, true, Option, none, some, List, arith, ◌==◌, pos,
  Bool-cases, ==_iff, Returns,
}
use netmalloc.Storage.{StorageOps, IsReliable}
use netmalloc.StoredPage.{is_stored_page}
use netmalloc.MappedBuffer.{MappedBuffer, get_buffer}
use netmalloc.Vma.{is_existing_vma}
use netmalloc.Pager.{
  State, UnmapAnswers, MapAnswers, put_buffer, write_page, fill_buffer, map_page, unmap_page,
  generic_malloc_get_page,
}
use netmalloc.Pager.Buffers.{get_buffer-put}
use netmalloc.Pager.View.{backing, through, view}
use netmalloc.Pager.View.Unmap.{Willing, idle, cached, cache_page-cached, cached-view}

-- No other process has the page at `page`.
abbrev pub Private : List MappedBuffer → ℕ → ℕ → Type 0
Private buffers pid page =
    (p : ℕ) (c : MappedBuffer)
    → get_buffer p buffers ≡ some c
    → pid ≢ p
    → (c.buffer ≢ page) × (c.cache ≢ page)

-- Writing back a buffer of the same process keeps other processes off the page.
Private-put :
    (bs : List MappedBuffer) (b old : MappedBuffer) (page : ℕ)
    → get_buffer b.pid bs ≡ some old
    → Private bs b.pid page
    → Private (put_buffer b bs) b.pid page
Private-put bs b old page found private p c h away =
    private p c (ground (arith, get_buffer-put p b old bs found)) away

module _ {Page : Type 0} (ops : StorageOps Page) (zero_page : Page) (r : IsReliable ops) where
  abbrev pub filled : State ops zero_page → MappedBuffer → ℕ → ℕ → State ops zero_page
  filled s b address vma = record s {
    memory =
        write_page ops zero_page b.buffer
          (backing ops zero_page r s.contents s.stored_pages b.pid address) s.memory;
    buffers = put_buffer (record b { vma = vma; start = address }) s.buffers;
  }

  pub fill_buffer-filled :
      (k : MapAnswers) (s : State ops zero_page) (b : MappedBuffer) (address vma : ℕ)
      → k.vm_insert_page ≡ true
      → fill_buffer ops zero_page k s b address vma ≡ (filled s b address vma, some b.buffer)
  unfolding fill_buffer
  fill_buffer-filled k s b address vma ok =
      elim (Bool-cases (is_stored_page b.pid address s.stored_pages)) [
        | inl h ↦
            let old = s.memory b.buffer in
            rw (
              h,
              r.load_ok s.contents b.pid address old,
              ok,
              r.load_held s.contents b.pid address old,
            )
        | inr h ↦ rw (h, ok)
      ]

  -- The page that is brought in, through the buffer.
  through-filled :
      (b : MappedBuffer) (memory : ℕ → Page) (a address vma : ℕ) (stored page : Page)
      → b.vma ≡ 0
      → vma ≢ 0
      → b.buffer ≢ b.cache
      → (b.cache_vma ≢ 0 → b.cache_start ≢ address)
      → (address ≡ a → page ≡ stored)
      → through ops zero_page r
          (some (record b { vma = vma; start = address }))
          (write_page ops zero_page b.buffer page memory)
          a
          stored
        ≡ through ops zero_page r (some b) memory a stored
  through-filled b memory a address vma stored page v w apart free same = ground (arith, same)

  -- Another process's page, through its own buffer.
  through-other :
      (o : Option MappedBuffer) (memory : ℕ → Page) (p a : ℕ) (stored page : Page)
      → ((c : MappedBuffer) → o ≡ some c → (c.buffer ≢ p) × (c.cache ≢ p))
      → through ops zero_page r o (write_page ops zero_page p page memory) a stored
        ≡ through ops zero_page r o memory a stored
  through-other none memory p a stored page apart = refl
  through-other (some c) memory p a stored page apart = ground (arith, apart c)

  filled-view :
      (s : State ops zero_page) (b : MappedBuffer) (address vma p a : ℕ)
      → get_buffer b.pid s.buffers ≡ some b
      → b.vma ≡ 0
      → vma ≢ 0
      → b.buffer ≢ b.cache
      → (b.cache_vma ≢ 0 → b.cache_start ≢ address)
      → Private s.buffers b.pid b.buffer
      → view ops zero_page r (filled s b address vma) p a ≡ view ops zero_page r s p a
  filled-view s b address vma p a found v w apart free private =
      rw (get_buffer-put p (record b { vma = vma; start = address }) b s.buffers found)
        (elim (Bool-cases (b.pid == p)) [
          | inl e ↦
              let i = (==_iff b.pid p).0 e in
              let q : get_buffer p s.buffers ≡ some b = rw (← i) found in
              rw (e, q)
                (through-filled b s.memory a address vma _ _ v w apart free (λ h. rw (i, h)))
          | inr e ↦ rw e (
              through-other (get_buffer p s.buffers) s.memory b.buffer a _ _
                λ c h. private p c h (ground arith))
        ])

  -- The buffer of a process is at hand, its two pages differ, and no other process has one of them.
  pub record Ready (s : State ops zero_page) (b : MappedBuffer) : Type 0 where
    pub found : get_buffer b.pid s.buffers ≡ some b
    pub apart : b.buffer ≢ b.cache
    pub private : Private s.buffers b.pid b.buffer
    pub private_cache : Private s.buffers b.pid b.cache

  -- The state after a fault that brought in the page at `address`.
  pub record Faulted (s : State ops zero_page) (pid address vma : ℕ)
      (out : State ops zero_page × Option ℕ) : Type 0 where
    pub buffer : MappedBuffer
    pub ready : Ready out.0 buffer
    pub pid_same : buffer.pid ≡ pid
    pub mapped : (buffer.vma ≡ vma) × (buffer.start ≡ address)
    pub page : out.1 ≡ some buffer.buffer
    pub content : out.0.memory buffer.buffer ≡ view ops zero_page r s pid address
    pub others : (p a : ℕ) → view ops zero_page r out.0 p a ≡ view ops zero_page r s p a

  get_buffer-put_self :
      (s : State ops zero_page) (b old : MappedBuffer)
      → get_buffer b.pid s.buffers ≡ some old
      → get_buffer b.pid (put_buffer b s.buffers) ≡ some b
  get_buffer-put_self s b old found = ground (arith, get_buffer-put b.pid b old s.buffers found)

  cached-Ready :
      (s : State ops zero_page) (b : MappedBuffer)
      → Ready s b
      → Ready (cached ops zero_page r s b) (idle ops zero_page r b)
  cached-Ready s b y = record {
    found = get_buffer-put_self s (idle ops zero_page r b) b y.found;
    apart = λ e. y.apart (sym e);
    private = Private-put s.buffers (idle ops zero_page r b) b b.cache y.found y.private_cache;
    private_cache = Private-put s.buffers (idle ops zero_page r b) b b.buffer y.found y.private;
  }

  pub filled-Faulted :
      (s : State ops zero_page) (b : MappedBuffer) (address vma : ℕ)
      → Ready s b
      → b.vma ≡ 0
      → vma ≢ 0
      → (b.cache_vma ≢ 0 → b.cache_start ≢ address)
      → Faulted s b.pid address vma (filled s b address vma, some b.buffer)
  filled-Faulted s b address vma y v w free =
      let b' = record b { vma = vma; start = address } in
      let found' = get_buffer-put_self s b' b y.found in
      let same = λ (p a : ℕ). filled-view s b address vma p a y.found v w y.apart free y.private in
      record {
        buffer = b';
        ready = record {
          found = found';
          apart = y.apart;
          private = Private-put s.buffers b' b b.buffer y.found y.private;
          private_cache = Private-put s.buffers b' b b.cache y.found y.private_cache;
        };
        pid_same = refl;
        mapped = (refl, refl);
        page = refl;
        content = rw y.found (ground (arith, v, free));
        others = same;
      }

  pub Faulted-view :
      (s t : State ops zero_page) (pid address vma : ℕ) (out : State ops zero_page × Option ℕ)
      → ((p a : ℕ) → view ops zero_page r s p a ≡ view ops zero_page r t p a)
      → Faulted s pid address vma out
      → Faulted t pid address vma out
  Faulted-view s t pid address vma out same f = record {
    buffer = f.buffer;
    ready = f.ready;
    pid_same = f.pid_same;
    mapped = f.mapped;
    page = f.page;
    content = f.content ∙ same pid address;
    others = λ p a. f.others p a ∙ same p a;
  }

  unmap_page-cached :
      (k k' : UnmapAnswers) (s : State ops zero_page) (b : MappedBuffer)
      → get_buffer b.pid s.buffers ≡ some b
      → (b.cache_vma ≢ 0
          → (is_existing_vma s.areas.vmas b.cache_vma ≡ some true) × Willing k b.cache)
      → unmap_page ops zero_page k k' s b.pid true ≡ some (cached ops zero_page r s b, pos 0)
  unfolding unmap_page
  unmap_page-cached k k' s b found cache =
      rw (found, unmap_page) (cache_page-cached ops zero_page r k s b cache)

  map_page-filled :
      (k : MapAnswers) (s : State ops zero_page) (b : MappedBuffer) (address vma : ℕ)
      → get_buffer b.pid s.buffers ≡ some b
      → k.vm_insert_page ≡ true
      → map_page ops zero_page k s b.pid address vma ≡ (filled s b address vma, some b.buffer)
  unfolding map_page
  map_page-filled k s b address vma found ok =
      rw (found, map_page) (fill_buffer-filled k s b address vma ok)

  -- A fault at a page that the process has not mapped, where its two pages differ and no other
  -- process has them, with a reliable storage and a willing kernel: it returns a page of the
  -- process, now mapped at the address and filled with what the process saw there before; no
  -- process sees any other content at any address than before, also where a page had to be written
  -- back; and the process's two pages are still its own.
  pub generic_malloc_get_page-Faulted :
      (ku : UnmapAnswers) (km : MapAnswers) (s : State ops zero_page) (b : MappedBuffer)
      (address vma : ℕ)
      → Ready s b
      → vma ≢ 0
      → (b.vma ≢ 0 → b.start ≢ address)
      → (b.cache_vma ≢ 0
          → (is_existing_vma s.areas.vmas b.cache_vma ≡ some true) × Willing ku b.cache)
      → km.vm_insert_page ≡ true
      → Returns
          (Faulted s b.pid address vma)
          (generic_malloc_get_page ops zero_page ku km s b.pid address vma)
  unfolding generic_malloc_get_page
  generic_malloc_get_page-Faulted ku km s b address vma y w free cache ok =
      let t = cached ops zero_page r s b in
      let i = idle ops zero_page r b in
      let y' = cached-Ready s b y in
      rw (unmap_page-cached ku ku s b y.found cache, map_page-filled km t i address vma y'.found ok)
        (Faulted-view t s b.pid address vma _ (λ p a. cached-view ops zero_page r s b p a y.found)
          (filled-Faulted t i address vma y' refl w free))
