-- ===== src/Store/Set/Links.antt =====
-- How reads and writes of nodes in src/store/set.h change what the links of the nodes read as.
use bandchain_legacy.Common.{
  ℕ, suc, ◌≡◌, ◌≢◌, refl, sym, ap, ◌∙◌, false, Bool-cases, inl, inr, ◌==◌, ==_iff, ==_self,
  find-write_at, if◌then◌else◌, arith,
}
use bandchain_legacy.Thrown.{Result, ok}
use bandchain_legacy.Uint256.{CheckedUint}
use bandchain_legacy.Buffer.{Bytes}
use bandchain_legacy.Store.Backend.{StorageMap}
use bandchain_legacy.Ledger.Action.{>>=-step, pure}
use bandchain_legacy.Store.Set.{
  Node, Set, Element, set_node, fetch_node, get_node, update, get_height,
}
use bandchain_legacy.Store.Set.Tree.{node_at, Alike, get_node_lem}

pub distinct : {i j : ℕ} → (i == j) ≡ false → i ≢ j
distinct e p = absurd (ground arith)

module _ ⦃u : CheckedUint⦄ {A : Type 0} (el : Element A) (str : ℕ → Bytes) (m : StorageMap) where
  -- A node reads with these links, this height and this value.
  pub record Linked (s : Set A) (i l r h : ℕ) (v : A) : Type 0 where
    pub node : Node A
    pub here : node_at el str m s i ≡ ok node
    pub left : node.left ≡ l
    pub right : node.right ≡ r
    pub height : node.height ≡ h
    pub val : node.val ≡ v

  -- Every node keeps its links, its height and its value.
  abbrev pub Keeps : Set A → Set A → Type 0
  Keeps s s' = (j l r h : ℕ) (v : A) → Linked s j l r h v → Linked s' j l r h v

  -- Every node but one does.
  abbrev pub KeepsOther : ℕ → Set A → Set A → Type 0
  KeepsOther i s s' = (j l r h : ℕ) (v : A) → i ≢ j → Linked s j l r h v → Linked s' j l r h v

  -- Every node but two does.
  abbrev pub KeepsOthers : ℕ → ℕ → Set A → Set A → Type 0
  KeepsOthers x y s s' =
      (j l r h : ℕ) (v : A) → x ≢ j → y ≢ j → Linked s j l r h v → Linked s' j l r h v

  pub Keeps-trans : (s s1 s2 : Set A) → Keeps s s1 → Keeps s1 s2 → Keeps s s2
  Keeps-trans s s1 s2 a b j l r h v k = b j l r h v (a j l r h v k)

  pub Alike-Keeps : (s s' : Set A) → Alike el str m s s' → Keeps s s'
  Alike-Keeps s s' same j l r h v k = record {
    node = k.node;
    here = same.nodes j ∙ k.here;
    left = k.left;
    right = k.right;
    height = k.height;
    val = k.val;
  }

  pub get_node-Keeps :
      (s : Set A) (i l r h : ℕ) (v : A)
      → Linked s i l r h v
      → (node : Node A) × (s' : Set A) × (get_node el str m i s ≡ (ok node, s'))
        × (node.left ≡ l)
        × (node.right ≡ r)
        × (node.val ≡ v)
        × Keeps s s'
  get_node-Keeps s i l r h v k =
      let (s', got, same) = get_node_lem el str m s i k.node k.here in
      (k.node, s', got, k.left, k.right, k.val, Alike-Keeps s s' same)

  pub node_at-set_node :
      (s : Set A) (i j : ℕ) (node : Node A)
      → node_at el str m (set_node i node s) j ≡ (if i == j then ok node else node_at el str m s j)
  unfolding node_at get_node fetch_node set_node
  node_at-set_node s i j node = ground (arith, find-write_at i j node s.cache)

  -- A write that is known by what it does to the node.
  module _ (s : Set A) (i l r h : ℕ) (v : A) (f : Node A → Node A) (k : Linked s i l r h v) where
    update_run :
        (s' : Set A) × (update el str m i f s ≡ (ok tt, set_node i (f k.node) s'))
        × Alike el str m s s'
    unfolding update
    update_run =
        let (s', got, same) = get_node_lem el str m s i k.node k.here in
        (s', >>=-step (get_node el str m i) _ got, same)

    Linked-here :
        (s' : Set A) (l' r' h' : ℕ)
        → (f k.node).left ≡ l'
        → (f k.node).right ≡ r'
        → (f k.node).height ≡ h'
        → (f k.node).val ≡ v
        → Linked (set_node i (f k.node) s') i l' r' h' v
    Linked-here s' l' r' h' el' er' eh ev = record {
      node = f k.node;
      here = node_at-set_node s' i i (f k.node) ∙ rw (==_self i) refl;
      left = el';
      right = er';
      height = eh;
      val = ev;
    }

    Linked-other : (s' : Set A) → KeepsOther i s' (set_node i (f k.node) s')
    Linked-other s' j l' r' h' v' apart k' = record {
      node = k'.node;
      here = node_at-set_node s' i j (f k.node) ∙ ground (arith, k'.here);
      left = k'.left;
      right = k'.right;
      height = k'.height;
      val = k'.val;
    }

    pub update_links :
        (l' r' h' : ℕ)
        → (f k.node).left ≡ l'
        → (f k.node).right ≡ r'
        → (f k.node).height ≡ h'
        → (f k.node).val ≡ v
        → (s' : Set A) × (update el str m i f s ≡ (ok tt, s'))
          × Linked s' i l' r' h' v
          × KeepsOther i s s'
    update_links l' r' h' el' er' eh ev =
        let (t, run, same) = update_run in
        (
          set_node i (f k.node) t,
          run,
          Linked-here t l' r' h' el' er' eh ev,
          λ j x y z w apart known.
              Linked-other t j x y z w apart (Alike-Keeps s t same j x y z w known),
        )

  Linked-unique :
      (s : Set A) (i l r h l' r' h' : ℕ) (v v' : A)
      → Linked s i l r h v
      → Linked s i l' r' h' v'
      → (l ≡ l') × (r ≡ r') × (h ≡ h') × (v ≡ v')
  Linked-unique s i l r h l' r' h' v v' k k' =
      let e : k.node ≡ k'.node = node_eq k.node k'.node (sym k.here ∙ k'.here) in
      (
        sym k.left ∙ ap (λ (n : Node A). n.left) e ∙ k'.left,
        sym k.right ∙ ap (λ (n : Node A). n.right) e ∙ k'.right,
        sym k.height ∙ ap (λ (n : Node A). n.height) e ∙ k'.height,
        sym k.val ∙ ap (λ (n : Node A). n.val) e ∙ k'.val,
      )
    where
      node_eq : (a b : Node A) → ◌≡◌ {A = Result (Node A)} (ok a) (ok b) → a ≡ b
      node_eq a b e = cc

  -- A write to the parent or the status.
  pub update-Keeps :
      (s : Set A) (i l r h : ℕ) (v : A) (f : Node A → Node A)
      → ((n : Node A)
          → ((f n).left ≡ n.left)
            × ((f n).right ≡ n.right)
            × ((f n).height ≡ n.height)
            × ((f n).val ≡ n.val))
      → Linked s i l r h v
      → (s' : Set A) × (update el str m i f s ≡ (ok tt, s')) × Keeps s s'
  update-Keeps s i l r h v f aside k =
      let (s', run, here, other) =
        update_links s i l r h v f k l r h ((aside k.node).0 ∙ k.left) ((aside k.node).1 ∙ k.right)
          ((aside k.node).2 ∙ k.height) ((aside k.node).3 ∙ k.val) in
      (
        s',
        run,
        λ j l' r' h' v' k'. elim (Bool-cases (i == j)) [
          | inl e ↦ same_node s' here ((==_iff i j).0 e) k'
          | inr e ↦ other j l' r' h' v' (λ p. distinct e p) k'
        ],
      )
    where
      same_node :
          (s' : Set A) {j l' r' h' : ℕ} {v' : A}
          → Linked s' i l r h v
          → i ≡ j
          → Linked s j l' r' h' v'
          → Linked s' j l' r' h' v'
      same_node s' {j = j} {l' = l'} {r' = r'} {h' = h'} {v' = v'} here e k' =
          let known : Linked s i l' r' h' v' = rw e k' in
          let (el', er', eh, ev) = Linked-unique s i l r h l' r' h' v v' k known in
          rw (sym e, sym el', sym er', sym eh, sym ev) here

  -- A number that is 0, and has the height 0, or reads as a node of a height.
  pub data Present (s : Set A) (i h : ℕ) : Type 0 where
    absent : i ≡ 0 → h ≡ 0 → Present s i h
    present : (n l r : ℕ) (v : A) → i ≡ suc n → Linked s (suc n) l r h v → Present s i h

  pub Present-Keeps : (s s' : Set A) (i h : ℕ) → Keeps s s' → Present s i h → Present s' i h
  Present-Keeps s s' i h keeps (absent e q) = absent e q
  Present-Keeps s s' i h keeps (present n l r v e k) = present n l r v e (keeps (suc n) l r h v k)

  pub Present-other :
      (s s' : Set A) (i j h : ℕ) → KeepsOther i s s' → i ≢ j → Present s j h → Present s' j h
  Present-other s s' i j h keeps apart (absent e q) = absent e q
  Present-other s s' i j h keeps apart (present n l r v e k) =
      present n l r v e (keeps (suc n) l r h v (λ p. apart (p ∙ sym e)) k)

  pub get_height-Keeps :
      (s : Set A) (i h : ℕ)
      → Present s i h
      → (s' : Set A) × (get_height el str m i s ≡ (ok h, s')) × Keeps s s'
  unfolding get_height
  get_height-Keeps s i h (absent e q) = (s, rw (e, q) refl, λ j l r h' v k. k)
  get_height-Keeps s i h (present n l r v e k) =
      let (s', got, same) = get_node_lem el str m s (suc n) k.node k.here in
      (
        s',
        rw e (
            >>=-step (get_node el str m (suc n)) (λ node. pure node.height) got
            ∙ ap (λ (x : ℕ). (ok x, s')) k.height),
        Alike-Keeps s s' same,
      )
