-- ===== src/Common/Lists.antt =====
-- Lists as the kernel's circular lists: a pointer to a node splits its list in the nodes before
-- it, the nearest first, and the nodes from it on. `rebuild` is the whole list.
use Prim.Native.Nat.{ℕ, zero, suc, ◌+◌, ◌≤◌}
use mathlib.Core.Path.{◌≡◌, refl}
use mathlib.Core.List.{List, [], ◌∷◌, ◌++◌}
use native.Mathlib.Omega.{arith}

module _ {ℓ} {A : Type ℓ} where
  abbrev pub length : List A → ℕ
  length [] = 0
  length (x ∷ xs) = suc (length xs)

  pub length-append : (xs ys : List A) → length (xs ++ ys) ≡ length xs + length ys
  length-append [] ys = omega arith
  length-append (x ∷ xs) ys = omega (arith, length-append xs ys)

  abbrev pub take : ℕ → List A → List A
  take zero l = []
  take (suc n) [] = []
  take (suc n) (x ∷ xs) = x ∷ take n xs

  pub take-length_le : (n : ℕ) (xs : List A) → length xs ≤ n → take n xs ≡ xs
  take-length_le zero [] h = refl
  take-length_le zero (x ∷ xs) h = ground arith
  take-length_le (suc n) [] h = refl
  take-length_le (suc n) (x ∷ xs) h = rw (take-length_le n xs (omega arith)) refl

  unfoldable pub rebuild : List A → List A → List A
  rebuild [] l = l
  rebuild (b ∷ bs) l = rebuild bs (b ∷ l)

pub rebuild-rebuild {ℓ} :
    {A : Type ℓ} (l bs xs : List A) → rebuild (rebuild l bs) xs ≡ rebuild bs (l ++ xs)
unfolding rebuild
rebuild-rebuild [] bs xs = refl
rebuild-rebuild (x ∷ l) bs xs = rebuild-rebuild l (x ∷ bs) xs

-- A predicate on every element.
abbrev pub All {ℓ κ} : {A : Type ℓ} → (A → Type κ) → List A → Type κ
All P [] = Unit
All P (x ∷ xs) = P x × All P xs

module _ {ℓ κ} {A : Type ℓ} (P : A → Type κ) where
  pub All-imp {μ} : (Q : A → Type μ) → ((x : A) → P x → Q x) → (xs : List A) → All P xs → All Q xs
  All-imp Q f [] h = tt
  All-imp Q f (x ∷ xs) h = (f x h.0, All-imp Q f xs h.1)

  pub All-intro : ((x : A) → P x) → (xs : List A) → All P xs
  All-intro f [] = tt
  All-intro f (x ∷ xs) = (f x, All-intro f xs)

  pub All-append : (xs ys : List A) → All P xs → All P ys → All P (xs ++ ys)
  All-append [] ys h k = k
  All-append (x ∷ xs) ys h k = (h.0, All-append xs ys h.1 k)

  pub All-rebuild : (bs l : List A) → All P bs → All P l → All P (rebuild bs l)
  unfolding rebuild
  All-rebuild [] l h k = k
  All-rebuild (b ∷ bs) l h k = All-rebuild bs (b ∷ l) h.1 (h.0, k)

  pub All-split : (bs l : List A) → All P (rebuild bs l) → All P bs × All P l
  unfolding rebuild
  All-split [] l h = (tt, h)
  All-split (b ∷ bs) l h = let (k, m) = All-split bs (b ∷ l) h in ((m.0, k), m.1)
