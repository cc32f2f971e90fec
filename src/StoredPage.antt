-- ===== src/StoredPage.antt =====
-- src/stored_page.c and src/stored_page.h: the list of the pages that the storage holds, in the
-- order of the circular list behind its head. `ok` is whether kmalloc has memory.
pub mod Set
use netmalloc.Common.{
  ℕ, Bool, true, false, ◌&&◌, Option, none, some, List, [], ◌∷◌, ◌++◌, ◌==◌, if◌then◌else◌,
}

pub record StoredPage : Type 0 where
  pub pid : ℕ
  pub start : ℕ

-- The test of the three loops.
abbrev pub is_page : ℕ → ℕ → StoredPage → Bool
is_page pid start page = page.pid == pid && page.start == start

unfoldable pub add_stored_page :
    (ok : Bool) → ℕ → ℕ → List StoredPage → Option StoredPage × List StoredPage
add_stored_page ok pid start stored_pages =
    let page : StoredPage = record { pid = pid; start = start } in
    if ok then (some page, stored_pages ++ page ∷ []) else (none, stored_pages)

unfoldable pub is_stored_page : ℕ → ℕ → List StoredPage → Bool
is_stored_page pid start [] = false
is_stored_page pid start (page ∷ pages) =
    if is_page pid start page then true else is_stored_page pid start pages

unfoldable pub remove_stored_page : ℕ → ℕ → List StoredPage → List StoredPage
remove_stored_page pid start [] = []
remove_stored_page pid start (page ∷ pages) =
    if is_page pid start page then pages else page ∷ remove_stored_page pid start pages

abbrev pub init_stored_pages : List StoredPage
init_stored_pages = []

-- The loop takes the nodes off one after the other.
unfoldable pub remove_stored_pages : List StoredPage → List StoredPage
remove_stored_pages [] = []
remove_stored_pages (page ∷ pages) = remove_stored_pages pages
