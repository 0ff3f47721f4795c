-- ===== src/Store/Set/Parts.antt =====
-- The parts of the trees that the rotations of src/store/set.h take apart.
use bandchain_legacy.Common.{ℕ, suc, ◌≡◌, ◌≢◌, sym, ap, List, ◌++◌, ◌∷◌, append_assoc}
use bandchain_legacy.Store.Set.Tree.{Tree, leaf, fork, elements}

-- A number is not one of the tree's nodes.
unfoldable pub Apart : {A : Type 0} → ℕ → Tree A → Type 0
Apart i leaf = Unit {0}
Apart i (fork j l v r) = (i ≢ suc j) × Apart i l × Apart i r

-- Two nodes are different, and neither is in one of the three trees below them.
pub record Separate {A : Type 0} (x y : ℕ) (a b c : Tree A) : Type 0 where
  pub apart : suc x ≢ suc y
  pub x_a : Apart (suc x) a
  pub x_b : Apart (suc x) b
  pub x_c : Apart (suc x) c
  pub y_a : Apart (suc y) a
  pub y_b : Apart (suc y) b
  pub y_c : Apart (suc y) c

pub elements_turned :
    {A : Type 0} (x y : ℕ) (a b c : Tree A) (v w : A)
    → elements (fork x a v (fork y b w c)) ≡ elements (fork y (fork x a v b) w c)
unfolding elements
elements_turned x y a b c v w = sym (append_assoc (elements a) (v ∷ elements b) (w ∷ elements c))

-- A subtree gives way to one with the same elements.
module _ {A : Type 0} where
  pub elements-left :
      (i : ℕ) (l l' r : Tree A) (v : A)
      → elements l ≡ elements l'
      → elements (fork i l v r) ≡ elements (fork i l' v r)
  unfolding elements
  elements-left i l l' r v e = ap (λ (es : List A). es ++ v ∷ elements r) e

  pub elements-right :
      (i : ℕ) (l r r' : Tree A) (v : A)
      → elements r ≡ elements r'
      → elements (fork i l v r) ≡ elements (fork i l v r')
  unfolding elements
  elements-right i l r r' v e = ap (λ (es : List A). elements l ++ v ∷ es) e
