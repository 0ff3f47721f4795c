-- ===== src/Store/Set/Tree.antt =====
-- The tree that the nodes of a set of src/store/set.h stand for, and its elements in order.
use bandchain_legacy.Common.{
  ℕ, suc, ◌+◌, ◌≤◌, max, ◌≡◌, refl, ◌∙◌, true, false, none, List, [], ◌∷◌, ◌++◌, All, ◌⊎◌, inl, inr,
  find, find-emplace, length, length-append, arith,
}
use bandchain_legacy.Thrown.{Result, ok}
use bandchain_legacy.Uint256.{CheckedUint}
use bandchain_legacy.Buffer.{Bytes}
use bandchain_legacy.Store.Backend.{StorageMap}
use bandchain_legacy.Store.Set.{Node, Set, Element, add_node, fetch_node, get_node}

-- A tree with the numbers of its nodes.
pub data Tree (A : Type 0) : Type 0 where
  leaf : Tree A
  fork : ℕ → Tree A → A → Tree A → Tree A

module _ {A : Type 0} where
  unfoldable pub elements : Tree A → List A
  elements leaf = []
  elements (fork i l v r) = elements l ++ v ∷ elements r

  unfoldable pub depth : Tree A → ℕ
  depth leaf = 0
  depth (fork i l v r) = suc (depth l + depth r)

  unfoldable pub height : Tree A → ℕ
  height leaf = 0
  height (fork i l v r) = suc (max (height l) (height r))

  pub height-depth : (t : Tree A) → height t ≤ depth t
  unfolding height depth
  height-depth leaf = omega arith
  height-depth (fork i l v r) = omega (arith, height-depth l, height-depth r)

  -- The number of elements bounds the way down.
  pub depth_lem : (t : Tree A) → depth t ≡ length (elements t)
  unfolding depth elements
  depth_lem leaf = refl
  depth_lem (fork i l v r) =
      omega (arith, depth_lem l, depth_lem r, length-append (elements l) (v ∷ elements r))

  -- Every element is in order with those below it.
  unfoldable pub IsSearch : Element A → Tree A → Type 0
  unfolding elements
  IsSearch el leaf = Unit {0}
  IsSearch el (fork i l v r) =
      All (λ x. el.less x v ≡ true) (elements l)
      × All (λ x. el.less v x ≡ true) (elements r)
      × IsSearch el l
      × IsSearch el r

-- What the operators of the elements' type are to be.
pub record IsOrder {A : Type 0} (el : Element A) : Type 0 where
  pub less_apart : (a b : A) → el.less a b ≡ true → (el.equal a b ≡ false) × (el.equal b a ≡ false)
  pub less_trans : (a b c : A) → el.less a b ≡ true → el.less b c ≡ true → el.less a c ≡ true
  pub less_total : (a b : A) → el.equal a b ≡ false → el.less a b ≡ false → el.less b a ≡ true

module _ ⦃u : CheckedUint⦄ {A : Type 0} (el : Element A) (str : ℕ → Bytes) (m : StorageMap) where
  -- What a number reads as.
  unfoldable pub node_at : Set A → ℕ → Result (Node A)
  node_at s i = (get_node el str m i s).0

  -- The nodes from a number on are the tree.
  unfoldable pub Represents : Set A → ℕ → Tree A → Type 0
  Represents s id leaf = id ≡ 0
  Represents s id (fork i l v r) =
      (id ≡ suc i)
      × ((node : Node A) × (node_at s (suc i) ≡ ok node)
          × (node.val ≡ v)
          × Represents s node.left l
          × Represents s node.right r)

  pub Represents-same :
      (s s' : Set A) (id : ℕ) (t : Tree A)
      → ((j : ℕ) → node_at s' j ≡ node_at s j)
      → Represents s id t
      → Represents s' id t
  unfolding Represents
  Represents-same s s' id leaf same h = h
  Represents-same s s' id (fork i l v r) same (e, (node, here, val_eq, hl, hr)) = (
    e,
    (
      node,
      same (suc i) ∙ here,
      val_eq,
      Represents-same s s' node.left l same hl,
      Represents-same s s' node.right r same hr,
    ),
  )

  pub node_at-add_node :
      (s : Set A) (i j : ℕ) (node : Node A)
      → find i s.cache ≡ none
      → node_at s i ≡ ok node
      → node_at (add_node i node s) j ≡ node_at s j
  unfolding node_at get_node fetch_node add_node
  node_at-add_node s i j node absent here = ground (arith, find-emplace i j node s.cache absent)

  -- A set with other nodes in its cache that reads alike.
  pub record Alike (s s' : Set A) : Type 0 where
    pub set_size : s'.set_size ≡ s.set_size
    pub nonce_node : s'.nonce_node ≡ s.nonce_node
    pub nonce_root : s'.nonce_root ≡ s.nonce_root
    pub nodes : (j : ℕ) → node_at s' j ≡ node_at s j

  get_node-cases :
      (s : Set A) (i : ℕ) (node : Node A)
      → node_at s i ≡ ok node
      → (get_node el str m i s ≡ (ok node, s))
        ⊎ ((find i s.cache ≡ none) × (get_node el str m i s ≡ (ok node, add_node i node s)))
  unfolding node_at get_node fetch_node
  get_node-cases s i node here = ground arith

  -- Reading a node that is there leaves a set that reads alike.
  pub get_node_lem :
      (s : Set A) (i : ℕ) (node : Node A)
      → node_at s i ≡ ok node
      → (s' : Set A) × (get_node el str m i s ≡ (ok node, s')) × Alike s s'
  get_node_lem s i node here = elim (get_node-cases s i node here) [
    | inl e ↦
        (s, e, record { set_size = refl; nonce_node = refl; nonce_root = refl; nodes = λ j. refl })
    | inr (absent, e) ↦ (
      add_node i node s,
      e,
      unfold add_node in
          record {
            set_size = refl;
            nonce_node = refl;
            nonce_root = refl;
            nodes = λ j. node_at-add_node s i j node absent here;
          },
    )
  ]
