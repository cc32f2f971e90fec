-- ===== src/StoredPage/Set.antt =====
-- The list of stored pages as a set of pairs of a process and a page.
use netmalloc.Common.{
  ℕ, ◌≡◌, refl, Bool, true, false, not, ◌&&◌, ◌||◌, List, [], ◌∷◌, ◌++◌, arith, ◌==◌,
}
use netmalloc.StoredPage.{StoredPage, is_page, add_stored_page, is_stored_page, remove_stored_page}

-- No page stands twice in the list.
abbrev pub Distinct : List StoredPage → Type 0
Distinct [] = Unit {0}
Distinct (page ∷ pages) = (is_stored_page page.pid page.start pages ≡ false) × Distinct pages

pub is_stored_page-append :
    (pid start : ℕ) (ps : List StoredPage) (page : StoredPage)
    → is_stored_page pid start (ps ++ page ∷ [])
      ≡ (is_stored_page pid start ps || is_page pid start page)
unfolding is_stored_page
is_stored_page-append pid start [] page = ground arith
is_stored_page-append pid start (p ∷ ps) page =
    ground (arith, is_stored_page-append pid start ps page)

Distinct-append :
    (ps : List StoredPage) (page : StoredPage)
    → is_stored_page page.pid page.start ps ≡ false
    → Distinct ps
    → Distinct (ps ++ page ∷ [])
unfolding is_stored_page
Distinct-append [] page h d = (refl, tt)
Distinct-append (p ∷ ps) page h d = (
  rw (is_stored_page-append p.pid p.start ps page) (ground arith),
  Distinct-append ps page (ground arith) d.1,
)

-- Adding a page that is not stored yet keeps the list free of duplicates; afterwards exactly the
-- pages from before and the new one are stored, or, if kmalloc fails, the pages from before.
pub add_stored_page-Distinct :
    (ok : Bool) (pid start : ℕ) (ps : List StoredPage)
    → is_stored_page pid start ps ≡ false
    → Distinct ps
    → Distinct (add_stored_page ok pid start ps).1
      × ((p a : ℕ)
          → is_stored_page p a (add_stored_page ok pid start ps).1
            ≡ (is_stored_page p a ps || (ok && (pid == p && start == a))))
unfolding add_stored_page
add_stored_page-Distinct true pid start ps h d =
    (Distinct-append ps _ h d, λ p a. is_stored_page-append p a ps _)
add_stored_page-Distinct false pid start ps h d = (d, λ p a. ground arith)

-- Removing a page from a list without duplicates keeps it so, and takes away that page and no other.
pub remove_stored_page-Distinct :
    (pid start : ℕ) (ps : List StoredPage)
    → Distinct ps
    → Distinct (remove_stored_page pid start ps)
      × ((p a : ℕ)
          → is_stored_page p a (remove_stored_page pid start ps)
            ≡ (is_stored_page p a ps && not (pid == p && start == a)))
unfolding remove_stored_page is_stored_page
remove_stored_page-Distinct pid start [] d = (tt, λ p a. refl)
remove_stored_page-Distinct pid start (q ∷ ps) d =
    let ih = remove_stored_page-Distinct pid start ps d.1 in
    (ground (arith, ih.0, ih.1 q.pid q.start), λ p a. ground (arith, ih.1 p a))

-- Removing a page, from any list, leaves every other page as it was.
pub is_stored_page-remove :
    (pid start p a : ℕ) (ps : List StoredPage)
    → (pid == p && start == a) ≡ false
    → is_stored_page p a (remove_stored_page pid start ps) ≡ is_stored_page p a ps
unfolding is_stored_page remove_stored_page
is_stored_page-remove pid start p a [] h = refl
is_stored_page-remove pid start p a (q ∷ ps) h =
    ground (arith, is_stored_page-remove pid start p a ps)
