-- ===== src/Storage.antt =====
-- `struct storage_ops` of src/storage.h: what the pager knows of a storage. The state is what the
-- storage keeps, and a page is its 4096 bytes, taken as one value.
pub mod Kernel
pub mod Network
use netmalloc.Common.{ℕ, ◌≡◌, false, ◌&&◌, ◌==◌, if◌then◌else◌, ℤ, is_negative}

pub record StorageOps (Page : Type 0) : Type 1 where
  pub Contents : Type 0
  pub save : Contents → ℕ → ℕ → Page → Contents × ℤ
  -- What the buffer holds afterwards; the third argument is the page's old content.
  pub load : Contents → ℕ → ℕ → Page → Page × ℤ
  pub remove : Contents → ℕ → ℕ → Contents

-- A storage in which every call succeeds and every page is found as it was saved last.
pub record IsReliable {Page : Type 0} (ops : StorageOps Page) : Type 0 where
  pub held : ops.Contents → ℕ → ℕ → Page
  pub load_held :
      (c : ops.Contents) (pid a : ℕ) (old : Page) → (ops.load c pid a old).0 ≡ held c pid a
  pub load_ok :
      (c : ops.Contents) (pid a : ℕ) (old : Page) → is_negative (ops.load c pid a old).1 ≡ false
  pub save_ok :
      (c : ops.Contents) (pid a : ℕ) (page : Page) → is_negative (ops.save c pid a page).1 ≡ false
  pub save_held :
      (c : ops.Contents) (pid a : ℕ) (page : Page) (p b : ℕ)
      → held (ops.save c pid a page).0 p b ≡ (if pid == p && a == b then page else held c p b)
  pub remove_held :
      (c : ops.Contents) (pid a p b : ℕ)
      → (pid == p && a == b) ≡ false
      → held (ops.remove c pid a) p b ≡ held c p b
