-- ===== src/Store/Set/Stored.antt =====
-- The trees of src/store/set.h whose nodes have the heights that the code keeps in them.
use bandchain_legacy.Common.{
  ℕ, suc, ◌^◌, ◌<◌, ◌≤◌, ◌≡◌, ◌≢◌, refl, sym, ◌∙◌, ◌⊎◌, inl, inr, arith, Bool-cases, ◌==◌, ==_iff,
}
use bandchain_legacy.Uint256.{CheckedUint}
use bandchain_legacy.Buffer.{Bytes}
use bandchain_legacy.Store.Backend.{StorageMap}
use bandchain_legacy.Store.Set.{Set, Element}
use bandchain_legacy.Store.Set.Tree.{Tree, leaf, fork, height, Represents}
use bandchain_legacy.Store.Set.Links.{
  Linked, Keeps, KeepsOther, KeepsOthers, distinct, Present, absent, present,
}
use bandchain_legacy.Store.Set.Rotate.Finish.{above, Beside}
use bandchain_legacy.Store.Set.Parts.{Apart}

module _ {A : Type 0} where
  pub above_height :
      (l r : Tree A) (i : ℕ) (v : A)
      → height (fork i l v r) < 2 ^ 64
      → above (height l) (height r) ≡ height (fork i l v r)
  unfolding height
  above_height l r i v small = omega arith

  -- The heights of two children differ by one at most, at every node.
  unfoldable pub IsBalanced : Tree A → Type 0
  unfolding height
  IsBalanced leaf = Unit {0}
  IsBalanced (fork i l v r) =
      (height l ≤ suc (height r)) × (height r ≤ suc (height l)) × IsBalanced l × IsBalanced r

  -- No number stands at two nodes.
  unfoldable pub IsProper : Tree A → Type 0
  unfolding Apart
  IsProper leaf = Unit {0}
  IsProper (fork i l v r) =
      Apart (suc i) l
      × Apart (suc i) r
      × ((j : ℕ) → Apart j l ⊎ Apart j r)
      × IsProper l
      × IsProper r

module _ ⦃u : CheckedUint⦄ {A : Type 0} (el : Element A) (str : ℕ → Bytes) (m : StorageMap) where
  -- The nodes from a number on are the tree, and each has its height.
  unfoldable pub Stored : Set A → ℕ → Tree A → Type 0
  unfolding height
  Stored s id leaf = id ≡ 0
  Stored s id (fork i l v r) =
      (id ≡ suc i)
      × ((a : ℕ) × (b : ℕ) × Linked el str m s (suc i) a b (height (fork i l v r)) v
          × Stored s a l
          × Stored s b r)

  pub Stored-Represents :
      (s : Set A) (id : ℕ) (t : Tree A) → Stored s id t → Represents el str m s id t
  unfolding Stored Represents
  Stored-Represents s id leaf h = h
  Stored-Represents s id (fork i l v r) (e, (a, b, k, hl, hr)) = (
    e,
    (
      k.node,
      k.here,
      k.val,
      Stored-Represents s k.node.left l (rw k.left hl),
      Stored-Represents s k.node.right r (rw k.right hr),
    ),
  )

  pub Stored-Present :
      (s : Set A) (id : ℕ) (t : Tree A) → Stored s id t → Present el str m s id (height t)
  unfolding Stored height
  Stored-Present s id leaf h = absent h refl
  Stored-Present s id (fork i l v r) (e, (a, b, k, hl, hr)) = present i a b v e k

  pub Stored-apart :
      (s : Set A) (x id : ℕ) (t : Tree A) → Stored s id t → Apart (suc x) t → suc x ≢ id
  unfolding Stored Apart
  Stored-apart s x id leaf h n e = absurd (omega arith)
  Stored-apart s x id (fork i l v r) (e, rest) (n, _, _) p = n (p ∙ e)

  pub Stored-Beside :
      (s : Set A) (x y id : ℕ) (t : Tree A)
      → Stored s id t
      → Apart (suc x) t
      → Apart (suc y) t
      → Beside el str m s (suc x) (suc y) id (height t)
  Stored-Beside s x y id t h nx ny = record {
    x_apart = Stored-apart s x id t h nx;
    y_apart = Stored-apart s y id t h ny;
    there = Stored-Present s id t h;
  }

  -- A tree stays, where the nodes that a condition does not forbid keep their links.
  pub Stored-kept :
      (s s' : Set A) (Free : ℕ → Type 0) (id : ℕ) (t : Tree A)
      → ((j l r h : ℕ) (v : A)
          → Free j
          → Linked el str m s j l r h v
          → Linked el str m s' j l r h v)
      → ((j : ℕ) → Apart j t ⊎ Free j)
      → Stored s id t
      → Stored s' id t
  unfolding Stored Apart
  Stored-kept s s' Free id leaf keeps free h = h
  Stored-kept s s' Free id (fork i l v r) keeps free (e, (a, b, k, hl, hr)) = (
    e,
    (
      a,
      b,
      keeps (suc i) a b _ v (root (free (suc i))) k,
      Stored-kept s s' Free a l keeps (λ j. left (free j)) hl,
      Stored-kept s s' Free b r keeps (λ j. right (free j)) hr,
    ),
  )
    where
      root : Apart (suc i) (fork i l v r) ⊎ Free (suc i) → Free (suc i)
      root (inl (n, _, _)) = absurd (n refl)
      root (inr f) = f

      left : {j : ℕ} → Apart j (fork i l v r) ⊎ Free j → Apart j l ⊎ Free j
      left (inl (_, n, _)) = inl n
      left (inr f) = inr f

      right : {j : ℕ} → Apart j (fork i l v r) ⊎ Free j → Apart j r ⊎ Free j
      right (inl (_, _, n)) = inl n
      right (inr f) = inr f

  -- After what writes to two nodes that are not in the tree.
  pub Stored-others :
      (s s' : Set A) (x y id : ℕ) (t : Tree A)
      → KeepsOthers el str m y x s s'
      → Apart x t
      → Apart y t
      → Stored s id t
      → Stored s' id t
  Stored-others s s' x y id t keeps nx ny h =
      Stored-kept s s' (λ j. (y ≢ j) × (x ≢ j)) id t (λ j l r g v f k. keeps j l r g v f.0 f.1 k)
        free h
    where
      free : (j : ℕ) → Apart j t ⊎ ((y ≢ j) × (x ≢ j))
      free j = elim (Bool-cases (x == j)) [
        | inl p ↦ inl (rw (sym ((==_iff x j).0 p)) nx)
        | inr p ↦ elim (Bool-cases (y == j)) [
          | inl q ↦ inl (rw (sym ((==_iff y j).0 q)) ny)
          | inr q ↦ inr (λ e. distinct q e, λ e. distinct p e)
        ]
      ]

  pub Stored-other :
      (s s' : Set A) (x id : ℕ) (t : Tree A)
      → KeepsOther el str m x s s'
      → Apart x t
      → Stored s id t
      → Stored s' id t
  Stored-other s s' x id t keeps nx h =
      Stored-others s s' x x id t (λ j l r g v n _ k. keeps j l r g v n k) nx nx h

  pub Stored-Keeps :
      (s s' : Set A) (id : ℕ) (t : Tree A) → Keeps el str m s s' → Stored s id t → Stored s' id t
  Stored-Keeps s s' id t keeps h =
      Stored-kept s s' (λ j. Unit {0}) id t (λ j l r g v _ k. keeps j l r g v k) (λ j. inr tt) h
