-- ===== src/Storage/Kernel.antt =====
-- The second half of src/storage.c: a storage in kernel memory, as a list of page copies. The list is
-- reached through the static pointer `kernel_buffer_list`. A result `none` is a read or a write
-- through a bad pointer. `kzalloc` and `kmemdup` are whether those calls have memory; printing is left
-- out.
pub mod Laws
pub mod Memory
use netmalloc.Common.{
  ℕ, ◌%◌, ◌^◌, Bool, true, false, ◌&&◌, Option, none, some, List, [], ◌∷◌, ◌==◌, if◌then◌else◌,
  ◌>>=◌, rebuild, ℤ, pos, enomem,
}

-- An `unsigned int` has 32 bits.
abbrev pub uint_mod : ℕ
uint_mod = 2 ^ 32

pub record KernelBufferList (Page : Type 0) : Type 0 where
  pub pid : ℕ
  pub address : ℕ
  pub buffer : Option Page

-- A node with the nodes before it, nearest first, and those behind it.
pub record KernelCursor (Page : Type 0) : Type 0 where
  pub before : List (KernelBufferList Page)
  pub kb : KernelBufferList Page
  pub after : List (KernelBufferList Page)

-- What the static pointer points to: nothing, a list head, or memory that was given back.
pub data KernelList (Page : Type 0) : Type 0 where
  null : KernelList Page
  head : List (KernelBufferList Page) → KernelList Page
  freed : KernelList Page

module _ {Page : Type 0} (zero_page : Page) where
  abbrev pub is_buffer : ℕ → ℕ → KernelBufferList Page → Bool
  is_buffer pid address kb = kb.address == address && kb.pid == pid

  unfoldable pub find_kernel_buffer :
      ℕ
      → ℕ
      → List (KernelBufferList Page)
      → List (KernelBufferList Page)
      → Option (KernelCursor Page)
  find_kernel_buffer pid address bs [] = none
  find_kernel_buffer pid address bs (kb ∷ l) =
      if is_buffer pid address kb
      then some (record { before = bs; kb = kb; after = l })
      else find_kernel_buffer pid address (kb ∷ bs) l

  -- The parameter `address` is an unsigned int, so the caller's address loses its upper half.
  unfoldable pub get_kernel_buffer :
      (kzalloc : Bool)
      → ℕ
      → ℕ
      → (create : Bool) → List (KernelBufferList Page)
      → Option (KernelCursor Page)
  unfolding find_kernel_buffer
  get_kernel_buffer kzalloc pid address create l =
      elim (find_kernel_buffer pid (address % uint_mod) [] l) [
        | some c ↦ some c
        | none ↦
            if create && kzalloc
            then some (record {
              before = rebuild l [];
              kb = record { pid = pid; address = 0; buffer = none };
              after = [];
            })
            else none
      ]

  unfoldable pub kernel_init : (kmalloc : Bool) → KernelList Page × ℤ
  kernel_init kmalloc = if kmalloc then (head [], pos 0) else (null, enomem)

  -- The write of `kb->address` comes before the test of `kb`.
  unfoldable pub save_buffer :
      (kmemdup : Bool) → ℕ → Page → Option (KernelCursor Page) → Option (KernelList Page × ℤ)
  save_buffer kmemdup address page none = none
  save_buffer kmemdup address page (some c) =
      let kb = record c.kb { address = address } in
      let filled = head (rebuild c.before (record kb { buffer = some page } ∷ c.after)) in
      some (elim kb.buffer [
        | none ↦
            if kmemdup then (filled, pos 0) else (head (rebuild c.before (kb ∷ c.after)), enomem)
        | some old ↦ (filled, pos 0)
      ])

  unfoldable pub kernel_save :
      (kzalloc kmemdup : Bool) → ℕ → ℕ → Page → KernelList Page → Option (KernelList Page × ℤ)
  unfolding save_buffer get_kernel_buffer
  kernel_save kzalloc kmemdup pid address page null = none
  kernel_save kzalloc kmemdup pid address page freed = none
  kernel_save kzalloc kmemdup pid address page (head l) =
      save_buffer kmemdup address page (get_kernel_buffer kzalloc pid address true l)

  unfoldable pub load_buffer : Option (KernelCursor Page) → Page
  load_buffer none = zero_page
  load_buffer (some c) = elim c.kb.buffer [ none ↦ zero_page | some page ↦ page ]

  -- What `buffer` holds afterwards, of which `old` is what it held.
  unfoldable pub kernel_load : ℕ → ℕ → Page → KernelList Page → Option (Page × ℤ)
  unfolding load_buffer get_kernel_buffer
  kernel_load pid address old null = some (old, pos 0)
  kernel_load pid address old freed = none
  kernel_load pid address old (head l) =
      some (load_buffer (get_kernel_buffer false pid address false l), pos 0)

  -- Every node for the page is taken off.
  unfoldable pub remove_buffers_of :
      ℕ → ℕ → List (KernelBufferList Page) → List (KernelBufferList Page)
  remove_buffers_of pid address [] = []
  remove_buffers_of pid address (kb ∷ l) =
      let rest = remove_buffers_of pid address l in
      if is_buffer pid address kb then rest else kb ∷ rest

  unfoldable pub kernel_remove : ℕ → ℕ → KernelList Page → Option (KernelList Page)
  unfolding remove_buffers_of
  kernel_remove pid address null = some null
  kernel_remove pid address freed = none
  kernel_remove pid address (head l) = some (head (remove_buffers_of pid address l))

  -- The pointer is not set to NULL.
  unfoldable pub kernel_release : KernelList Page → Option (KernelList Page)
  kernel_release null = some null
  kernel_release freed = none
  kernel_release (head l) = some freed
