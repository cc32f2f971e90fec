-- ===== src/System/Buffers.antt =====
-- The buffer list between calls: one buffer for a process, no page of memory in two places, and no
-- address mapped twice. What writing a buffer back, adding one and removing one leave of that.
use netmalloc.Common.{
  none_ne_some, ℕ, ◌≡◌, ◌≢◌, ◌⊎◌, inl, inr, none, some, List, [], ◌∷◌, arith, ◌==◌, Bool-cases,
}
use netmalloc.MappedBuffer.{
  MappedBuffer, Memory, fresh_buffer, get_buffer, remove_buffer, add_buffer,
}
use netmalloc.MappedBuffer.Laws.{OnePerPid, add_buffer-OnePerPid, remove_buffer-OnePerPid}
use netmalloc.Pager.{put_buffer}
use netmalloc.Pager.Buffers.{get_buffer-put}

-- The mapped pages are at different addresses.
abbrev pub Once : MappedBuffer → Type 0
Once b = b.vma ≢ 0 → b.cache_vma ≢ 0 → b.start ≢ b.cache_start

abbrev pub Apart : MappedBuffer → MappedBuffer → Type 0
Apart b c =
    (b.buffer ≢ c.buffer) × (b.buffer ≢ c.cache) × (b.cache ≢ c.buffer) × (b.cache ≢ c.cache)

pub record BuffersSound (bs : List MappedBuffer) : Type 0 where
  pub one : OnePerPid bs
  pub own : (p : ℕ) (b : MappedBuffer) → get_buffer p bs ≡ some b → b.buffer ≢ b.cache
  pub once : (p : ℕ) (b : MappedBuffer) → get_buffer p bs ≡ some b → Once b
  pub apart :
      (p q : ℕ) (b c : MappedBuffer)
      → get_buffer p bs ≡ some b
      → get_buffer q bs ≡ some c
      → p ≢ q
      → Apart b c

-- The two pages of a buffer, in either order.
abbrev pub SamePages : MappedBuffer → MappedBuffer → Type 0
SamePages a b =
    ((b.buffer ≡ a.buffer) × (b.cache ≡ a.cache)) ⊎ ((b.buffer ≡ a.cache) × (b.cache ≡ a.buffer))

OnePerPid-put :
    (b old : MappedBuffer) (bs : List MappedBuffer)
    → get_buffer b.pid bs ≡ some old
    → OnePerPid bs
    → OnePerPid (put_buffer b bs)
unfolding get_buffer put_buffer
OnePerPid-put b old [] found o = tt
OnePerPid-put b old (c ∷ bs) found o = elim (Bool-cases (c.pid == b.pid)) [
  | inl e ↦ rw e (ground arith, o.1)
  | inr e ↦
      let found' = rw e at found in
      rw e (ground (arith, get_buffer-put c.pid b old bs found'), OnePerPid-put b old bs found' o.1)
]

pub put_buffer-Sound :
    (bs : List MappedBuffer) (b old : MappedBuffer)
    → BuffersSound bs
    → get_buffer b.pid bs ≡ some old
    → SamePages old b
    → Once b
    → BuffersSound (put_buffer b bs)
put_buffer-Sound bs b old s found same once = record {
  one = OnePerPid-put b old bs found s.one;
  own = λ p c h. ground (arith, get_buffer-put p b old bs found, s.own p c, s.own b.pid old found);
  once = λ p c h. ground (arith, get_buffer-put p b old bs found, s.once p c);
  apart = λ p q c d h k away. ground (
    arith,
    get_buffer-put p b old bs found,
    get_buffer-put q b old bs found,
    s.apart p q c d,
    s.apart b.pid q old d found,
    s.apart p b.pid c old,
  );
}

-- The pages that vmalloc_user returns are not the same, and no buffer has them.
abbrev pub FreshPages : Memory → List MappedBuffer → Type 0
FreshPages m bs =
    m.buffer ≢ 0
    → m.cache ≢ 0
    → (m.buffer ≢ m.cache)
      × ((q : ℕ) (c : MappedBuffer) → get_buffer q bs ≡ some c → Apart (fresh_buffer m q) c)

pub add_buffer-result :
    (m : Memory) (pid : ℕ) (bs : List MappedBuffer)
    → let r = add_buffer m pid bs in
      ((r.0 ≡ none) × (r.1 ≡ bs))
      ⊎ ((r.0 ≡ some (fresh_buffer m pid)) × (m.buffer ≢ 0) × (m.cache ≢ 0))
unfolding add_buffer
add_buffer-result m pid bs = ground arith

pub add_buffer-Sound :
    (m : Memory) (pid : ℕ) (bs : List MappedBuffer)
    → BuffersSound bs
    → get_buffer pid bs ≡ none
    → FreshPages m bs
    → BuffersSound (add_buffer m pid bs).1
add_buffer-Sound m pid bs s missing fresh =
    let (one, at, new, made, failed) = add_buffer-OnePerPid m pid bs missing s.one in
    elim (add_buffer-result m pid bs) [
      | inl e ↦ rw e.1 s
      | inr e ↦
          let (differ, apart) = fresh e.1 e.2 in
          record {
            one = one;
            own = λ p c h. ground (arith, at p, e.0, s.own p c);
            once = λ p c h. ground (arith, at p, e.0, s.once p c);
            apart = λ p q c d h k away.
                ground (arith, at p, at q, e.0, s.apart p q c d, apart p c, apart q d);
          }
    ]

pub remove_buffer-Sound :
    (pid : ℕ) (bs : List MappedBuffer) → BuffersSound bs → BuffersSound (remove_buffer pid bs).0
remove_buffer-Sound pid bs s =
    let (one, at, gone, freed) = remove_buffer-OnePerPid pid bs s.one in
    record {
      one = one;
      own = λ p c h. ground (arith, at p, s.own p c);
      once = λ p c h. ground (arith, at p, s.once p c);
      apart = λ p q c d h k away. ground (arith, at p, at q, s.apart p q c d);
    }

-- The page that the process has mapped last, if any, is not at the address.
abbrev pub NotMapped : ℕ → ℕ → List MappedBuffer → Type 0
NotMapped pid address bs =
    (b : MappedBuffer) → get_buffer pid bs ≡ some b → b.vma ≢ 0 → b.start ≢ address

pub BuffersSound-nil : BuffersSound []
unfolding get_buffer
BuffersSound-nil = record {
  one = tt;
  own = λ p b h. absurd (none_ne_some h);
  once = λ p b h. absurd (none_ne_some h);
  apart = λ p q b c h. absurd (none_ne_some h);
}
