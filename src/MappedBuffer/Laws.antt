-- ===== src/MappedBuffer/Laws.antt =====
-- The buffer list as a map from processes to buffers.
use netmalloc.Common.{
  Bool-cases, inl, inr, true, ◌+◌, ℕ, ◌≡◌, ◌≢◌, refl, none, some, List, [], ◌∷◌, ◌++◌, arith, ◌==◌,
  if◌then◌else◌,
}
use netmalloc.MappedBuffer.{
  MappedBuffer, Memory, fresh_buffer, get_buffer, swap_buffer_cache, unlink, remove_buffer,
  add_buffer, free_pages, Release, kfree, vfree,
}

-- No process has two buffers.
abbrev pub OnePerPid : List MappedBuffer → Type 0
OnePerPid [] = Unit {0}
OnePerPid (b ∷ bs) = (get_buffer b.pid bs ≡ none) × OnePerPid bs

pub get_buffer-append :
    (p : ℕ) (bs : List MappedBuffer) (b : MappedBuffer)
    → get_buffer b.pid bs ≡ none
    → get_buffer p (bs ++ b ∷ []) ≡ (if b.pid == p then some b else get_buffer p bs)
unfolding get_buffer
get_buffer-append p [] b h = refl
get_buffer-append p (c ∷ bs) b h = ground (arith, get_buffer-append p bs b)

pub OnePerPid-append :
    (bs : List MappedBuffer) (b : MappedBuffer)
    → get_buffer b.pid bs ≡ none
    → OnePerPid bs
    → OnePerPid (bs ++ b ∷ [])
unfolding get_buffer
OnePerPid-append [] b h o = (refl, tt)
OnePerPid-append (c ∷ bs) b h o = (
  rw (get_buffer-append c.pid bs b (ground arith)) (ground arith),
  OnePerPid-append bs b (ground arith) o.1,
)

-- The three allocations succeed.
abbrev pub Allocates : Memory → Type 0
Allocates m = (m.kmalloc ≡ true) × (m.buffer ≢ 0) × (m.cache ≢ 0)

-- What a call of `add_buffer` for a process without a buffer leaves: if kmalloc has memory and
-- both pages can be allocated, the process has a new buffer with these two pages and nothing
-- mapped; if not, there is no new buffer and the list is unchanged. Other processes keep their buffers,
-- and no process gets two.
pub add_buffer-OnePerPid :
    (m : Memory) (pid : ℕ) (bs : List MappedBuffer)
    → get_buffer pid bs ≡ none
    → OnePerPid bs
    → let r = add_buffer m pid bs in
      OnePerPid r.1
      × ((p : ℕ) → get_buffer p r.1 ≡ (if pid == p then r.0 else get_buffer p bs))
      × ((b : MappedBuffer)
          → r.0 ≡ some b
          → (b.buffer ≢ 0) × (b.cache ≢ 0) × (b.vma ≡ 0) × (b.cache_vma ≡ 0))
      × (Allocates m
          → (b : MappedBuffer) × (r.0 ≡ some b)
            × (b.pid ≡ pid)
            × (b.buffer ≡ m.buffer)
            × (b.cache ≡ m.cache))
      × (¬ Allocates m → (r.0 ≡ none) × (r.1 ≡ bs))
unfolding add_buffer
add_buffer-OnePerPid m pid bs h o = (
  ground (arith, OnePerPid-append bs (fresh_buffer m pid) h o),
  λ p. ground (arith, get_buffer-append p bs (fresh_buffer m pid) h),
  λ b e. ground arith,
  λ w. (fresh_buffer m pid, ground (arith, w), refl, refl, refl),
  λ w. elim (Bool-cases m.kmalloc) [
    | inr e ↦ rw e (refl, refl)
    | inl e ↦ elim (Bool-cases (m.buffer == 0)) [
      | inl f ↦ rw (e, f) (refl, refl)
      | inr f ↦ elim (Bool-cases (m.cache == 0)) [
        | inl g ↦ rw (e, f, g) (refl, refl)
        | inr g ↦ absurd (w (e, ground arith, ground arith))
      ]
    ]
  ],
)

unlink-OnePerPid :
    (pid : ℕ) (bs : List MappedBuffer)
    → OnePerPid bs
    → OnePerPid (unlink pid bs)
      × ((p : ℕ) → get_buffer p (unlink pid bs) ≡ (if pid == p then none else get_buffer p bs))
unfolding unlink get_buffer
unlink-OnePerPid pid [] o = (tt, λ p. ground arith)
unlink-OnePerPid pid (b ∷ bs) o =
    let ih = unlink-OnePerPid pid bs o.1 in
    (ground (arith, ih.0, ih.1 b.pid), λ p. ground (arith, ih.1 p))

-- How often a page is given back by each call.
abbrev pub vfrees : ℕ → List Release → ℕ
vfrees p [] = 0
vfrees p (kfree q ∷ l) = vfrees p l
vfrees p (vfree q ∷ l) = (if q == p then 1 else 0) + vfrees p l

abbrev pub kfrees : ℕ → List Release → ℕ
kfrees p [] = 0
kfrees p (kfree q ∷ l) = (if q == p then 1 else 0) + kfrees p l
kfrees p (vfree q ∷ l) = kfrees p l

-- Each of the buffer's two pages is given back once by `vfree`, if there is one, and nothing else is.
abbrev pub FreesPages : MappedBuffer → List Release → Type 0
FreesPages b released =
    (p : ℕ)
    → (kfrees p released ≡ 0)
      × (p ≢ 0
          → vfrees p released ≡ (if b.buffer == p then 1 else 0) + (if b.cache == p then 1 else 0))
      × (vfrees 0 released ≡ 0)

free_pages-FreesPages : (b : MappedBuffer) → FreesPages b (free_pages b [])
free_pages-FreesPages b p = elim (Bool-cases (b.buffer == 0)) [
  | inl e ↦ elim (Bool-cases (b.cache == 0)) [
    | inl f ↦ rw (e, f) (refl, λ h. ground arith, refl)
    | inr f ↦ rw (e, f) (refl, λ h. ground arith, ground arith)
  ]
  | inr e ↦ elim (Bool-cases (b.cache == 0)) [
    | inl f ↦ rw (e, f) (refl, λ h. ground arith, ground arith)
    | inr f ↦ rw (e, f) (refl, λ h. ground arith, ground arith)
  ]
]

-- `remove_buffer` takes away the buffer of its process and no other, and gives each of the two pages
-- of that buffer, as far as it has them, back once by `vfree`, and nothing else; without a buffer
-- for the process it does nothing.
pub remove_buffer-OnePerPid :
    (pid : ℕ) (bs : List MappedBuffer)
    → OnePerPid bs
    → let r = remove_buffer pid bs in
      OnePerPid r.0
      × ((p : ℕ) → get_buffer p r.0 ≡ (if pid == p then none else get_buffer p bs))
      × (get_buffer pid bs ≡ none → (r.0 ≡ bs) × (r.1 ≡ []))
      × ((b : MappedBuffer) → get_buffer pid bs ≡ some b → FreesPages b r.1)
unfolding remove_buffer
remove_buffer-OnePerPid pid bs o =
    let u = unlink-OnePerPid pid bs o in
    (
      ground (arith, u.0),
      λ p. ground (arith, u.1 p),
      λ e. ground arith,
      λ b e. rw (e, remove_buffer) (free_pages-FreesPages b),
    )

-- `swap_buffer_cache` exchanges the mapped page and the cached one: twice, it does nothing, and
-- it changes neither the process nor which two pages the buffer owns.
pub swap_buffer_cache_involutive :
    (b : MappedBuffer)
    → (swap_buffer_cache (swap_buffer_cache b) ≡ b)
      × ((swap_buffer_cache b).pid ≡ b.pid)
      × ((swap_buffer_cache b).buffer ≡ b.cache)
      × ((swap_buffer_cache b).cache ≡ b.buffer)
unfolding swap_buffer_cache
swap_buffer_cache_involutive b = (refl, refl, refl, refl)
