-- ===== src/Common/Chain.antt =====
-- Properties of neighbours in a list: a state passes from each element to the next, and `Chain`
-- asks `ok` of each element at the state before it, and `last` of the state at the end.
use mathlib.Core.List.{List, [], ◌∷◌}
use netmalloc.Common.Lists.{rebuild}

module _ {S A : Type 0} (ok : S → A → Type 0) (next : A → S) where
  abbrev pub Chain : (S → Type 0) → S → List A → Type 0
  Chain last s [] = last s
  Chain last s (x ∷ xs) = ok s x × Chain last (next x) xs

  -- The state after the elements of a prefix that is kept nearest first.
  abbrev pub state_after : S → List A → S
  state_after s [] = s
  state_after s (b ∷ bs) = next b

  abbrev pub Back : S → List A → Type 0
  Back s [] = Unit
  Back s (b ∷ bs) = ok (state_after s bs) b × Back s bs

  pub Chain-rebuild :
      (last : S → Type 0) (s : S) (bs l : List A)
      → Back s bs
      → Chain last (state_after s bs) l
      → Chain last s (rebuild bs l)
  unfolding rebuild
  Chain-rebuild last s [] l b c = c
  Chain-rebuild last s (x ∷ bs) l b c = Chain-rebuild last s bs (x ∷ l) b.1 (b.0, c)

  pub Chain-split :
      (last : S → Type 0) (s : S) (bs l : List A)
      → Chain last s (rebuild bs l)
      → Back s bs × Chain last (state_after s bs) l
  unfolding rebuild
  Chain-split last s [] l c = (tt, c)
  Chain-split last s (x ∷ bs) l c = let (b, d) = Chain-split last s bs (x ∷ l) c in ((d.0, b), d.1)
