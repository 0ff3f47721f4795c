-- ===== src/Store/Set/Members.antt =====
-- `contains` and `find` of src/store/set.h against the elements of the tree.
use bandchain_legacy.Common.{
  ℕ, zero, suc, ◌<◌, ◌≡◌, refl, sym, ap, ◌∙◌, Bool, true, false, not, ◌==◌, ◌||◌, List, [], ◌∷◌,
  ◌++◌, All, Bool-cases, ◌⊎◌, inl, inr, length, arith,
}
use bandchain_legacy.Thrown.{Thrown, Result, ok, err}
use bandchain_legacy.Uint256.{CheckedUint}
use bandchain_legacy.Buffer.{Bytes}
use bandchain_legacy.Store.Backend.{StorageMap}
use bandchain_legacy.Store.Set.{Node, Set, Element, get_node}
use bandchain_legacy.Store.Set.Tree.{
  Tree, leaf, fork, elements, height, height-depth, depth_lem, IsSearch, IsOrder, Represents,
  Represents-same, Alike, get_node_lem,
}
use bandchain_legacy.Store.Set.Lookup.{contains_loop, contains, find_loop, find_node}

module _ {A : Type 0} (el : Element A) where
  -- Whether a list has an element that is equal to the value.
  unfoldable pub member : A → List A → Bool
  member val [] = false
  member val (x ∷ xs) = el.equal val x || member val xs

  member-append :
      (val : A) (xs ys : List A) → member val (xs ++ ys) ≡ (member val xs || member val ys)
  unfolding member
  member-append val [] ys = refl
  member-append val (x ∷ xs) ys = ground (arith, member-append val xs ys)

  module _ (order : IsOrder el) where
    below-All :
        (val v : A) (xs : List A)
        → el.less val v ≡ true
        → All (λ x. el.less v x ≡ true) xs
        → member val xs ≡ false
    unfolding member
    below-All val v [] h all = refl
    below-All val v (x ∷ xs) h (hx, all) =
        rw ((order.less_apart val x (order.less_trans val v x h hx)).0, below-All val v xs h all)
          refl

    above-All :
        (val v : A) (xs : List A)
        → el.less v val ≡ true
        → All (λ x. el.less x v ≡ true) xs
        → member val xs ≡ false
    unfolding member
    above-All val v [] h all = refl
    above-All val v (x ∷ xs) h (hx, all) =
        rw ((order.less_apart x val (order.less_trans x v val hx h)).1, above-All val v xs h all)
          refl

    -- Which way a value is found.
    pub member_left :
        (val v : A) (l r : List A)
        → el.less val v ≡ true
        → All (λ x. el.less v x ≡ true) r
        → member val (l ++ v ∷ r) ≡ member val l
    unfolding member
    member_left val v l r h all =
        let here = (order.less_apart val v h).0 in
        let there = below-All val v r h all in ground (arith, member-append val l (v ∷ r))

    pub member_right :
        (val v : A) (l r : List A)
        → el.less v val ≡ true
        → All (λ x. el.less x v ≡ true) l
        → member val (l ++ v ∷ r) ≡ member val r
    unfolding member
    member_right val v l r h all =
        let here = (order.less_apart v val h).1 in
        let there = above-All val v l h all in ground (arith, member-append val l (v ∷ r))

    pub member_here :
        (val v : A) (l r : List A) → el.equal val v ≡ true → member val (l ++ v ∷ r) ≡ true
    unfolding member
    member_here val v l r h = ground (arith, member-append val l (v ∷ r))

-- An iterator that is not the end.
unfoldable pub is_found : {A : Type 0} → Result ℕ × Set A → Result Bool × Set A
is_found (ok id, s) = (ok (not (id == 0)), s)
is_found (err e, s) = (err e, s)

module _ ⦃u : CheckedUint⦄ {A : Type 0} (el : Element A) (str : ℕ → Bytes) (m : StorageMap) where
  Alike-trans : (s s1 s2 : Set A) → Alike el str m s s1 → Alike el str m s1 s2 → Alike el str m s s2
  Alike-trans s s1 s2 a b = record {
    set_size = b.set_size ∙ a.set_size;
    nonce_node = b.nonce_node ∙ a.nonce_node;
    nonce_root = b.nonce_root ∙ a.nonce_root;
    nodes = λ j. b.nodes j ∙ a.nodes j;
  }

  get_node-outcome :
      (i : ℕ) (s : Set A)
      → ((node : Node A) × (s1 : Set A) × (get_node el str m i s ≡ (ok node, s1)))
        ⊎ ((e : Thrown) × (s1 : Set A) × (get_node el str m i s ≡ (err e, s1)))
  get_node-outcome i s = outcome (get_node el str m i s)
    where
      outcome :
          (p : Result (Node A) × Set A)
          → ((node : Node A) × (s1 : Set A) × (p ≡ (ok node, s1)))
            ⊎ ((e : Thrown) × (s1 : Set A) × (p ≡ (err e, s1)))
      outcome (ok node, s1) = inl (node, s1, refl)
      outcome (err e, s1) = inr (e, s1, refl)

  module _ (val v : A) (fuel id i : ℕ) (s s1 : Set A) (node : Node A) (at_i : id ≡ suc i)
      (got : get_node el str m (suc i) s ≡ (ok node, s1)) (val_eq : node.val ≡ v) where
    -- One round of the loop of `contains`, on each outcome of the tests.
    contains_here :
        el.equal val v ≡ true → contains_loop el str m (suc fuel) id val s ≡ (ok true, s1)
    unfolding contains_loop
    contains_here h =
        let h' : el.equal val node.val ≡ true = ap (λ x. el.equal val x) val_eq ∙ h in
        rw (contains_loop, at_i, got, h') refl

    contains_left :
        el.equal val v ≡ false
        → el.less val v ≡ true
        → contains_loop el str m (suc fuel) id val s ≡ contains_loop el str m fuel node.left val s1
    unfolding contains_loop
    contains_left h k =
        let h' : el.equal val node.val ≡ false = ap (λ x. el.equal val x) val_eq ∙ h in
        let k' : el.less val node.val ≡ true = ap (λ x. el.less val x) val_eq ∙ k in
        rw (contains_loop, at_i, got, h', k') refl

    contains_right :
        el.equal val v ≡ false
        → el.less val v ≡ false
        → contains_loop el str m (suc fuel) id val s ≡ contains_loop el str m fuel node.right val s1
    unfolding contains_loop
    contains_right h k =
        let h' : el.equal val node.val ≡ false = ap (λ x. el.equal val x) val_eq ∙ h in
        let k' : el.less val node.val ≡ false = ap (λ x. el.less val x) val_eq ∙ k in
        rw (contains_loop, at_i, got, h', k') refl

  -- What the loop returns from a number on.
  abbrev pub Contains : ℕ → ℕ → A → Set A → Bool → Type 0
  Contains fuel id val s b =
      (s' : Set A) × (contains_loop el str m fuel id val s ≡ (ok b, s')) × Alike el str m s s'

  Contains-below :
      (fuel fuel' id id' : ℕ) (val : A) (s s1 : Set A) (b b' : Bool)
      → contains_loop el str m fuel id val s ≡ contains_loop el str m fuel' id' val s1
      → Alike el str m s s1
      → b' ≡ b
      → Contains fuel' id' val s1 b
      → Contains fuel id val s b'
  Contains-below fuel fuel' id id' val s s1 b b' e same be (s2, run, same') =
      (s2, e ∙ run ∙ ap (λ (x : Bool). (ok x, s2)) (sym be), Alike-trans s s1 s2 same same')

  module _ (order : IsOrder el) (val : A) where
    -- The loop, from the root of a tree on.
    pub contains_loop_lem :
        (fuel id : ℕ) (t : Tree A) (s : Set A)
        → height t < fuel
        → IsSearch el t
        → Represents el str m s id t
        → Contains fuel id val s (member el val (elements t))
    unfolding contains_loop height elements member IsSearch Represents
    contains_loop_lem zero id t s enough sorted rep = absurd (omega arith)
    contains_loop_lem (suc fuel) id leaf s enough sorted rep = (
      s,
      rw rep refl,
      record { set_size = refl; nonce_node = refl; nonce_root = refl; nodes = λ j. refl },
    )
    contains_loop_lem (suc fuel) id (fork i l v r) s enough (below, above, sl, sr)
          (e, (node, here, val_eq, hl, hr)) =
        let (s1, got, same) = get_node_lem el str m s (suc i) node here in
        elim (Bool-cases (el.equal val v)) [
          | inl q ↦ (
            s1,
            contains_here val v fuel id i s s1 node e got val_eq q
                ∙ ap (λ (x : Bool). (ok x, s1))
                    (sym (member_here el order val v (elements l) (elements r) q)),
            same,
          )
          | inr q ↦ elim (Bool-cases (el.less val v)) [
            | inl below_v ↦
                Contains-below (suc fuel) fuel id node.left val s s1 (member el val (elements l)) _
                  (contains_left val v fuel id i s s1 node e got val_eq q below_v) same
                  (member_left el order val v (elements l) (elements r) below_v above)
                  (contains_loop_lem fuel node.left l s1 (omega arith) sl
                    (Represents-same el str m s s1 node.left l same.nodes hl))
            | inr above_v ↦
                Contains-below (suc fuel) fuel id node.right val s s1 (member el val (elements r)) _
                  (contains_right val v fuel id i s s1 node e got val_eq q above_v) same
                  (member_right el order val v (elements l) (elements r)
                    (order.less_total val v q above_v) below)
                  (contains_loop_lem fuel node.right r s1 (omega arith) sr
                    (Represents-same el str m s s1 node.right r same.nodes hr))
          ]
        ]

    -- On a set whose nodes are a search tree of as many elements as the set counts, where the
    -- operators of the elements are a total order, contains returns whether an element is equal
    -- to the value, and the set then reads as before.
    pub contains_lem :
        (t : Tree A) (s : Set A)
        → IsSearch el t
        → Represents el str m s s.nonce_root t
        → s.set_size ≡ length (elements t)
        → (s' : Set A) × (contains el str m val s ≡ (ok (member el val (elements t)), s'))
          × Alike el str m s s'
    unfolding contains
    contains_lem t s sorted rep size =
        contains_loop_lem (suc s.set_size) s.nonce_root t s
          (omega (arith, depth_lem t, height-depth t)) sorted rep

  nonzero : (n : ℕ) → true ≡ not (suc n == 0)
  nonzero n = ground arith

  module _ (val : A) where
    contains_loop-find_loop :
        (fuel id : ℕ) (s : Set A)
        → contains_loop el str m fuel id val s ≡ is_found (find_loop el str m fuel id val s)
    unfolding contains_loop find_loop is_found
    contains_loop-find_loop zero id s = refl
    contains_loop-find_loop (suc fuel) zero s = refl
    contains_loop-find_loop (suc fuel) (suc n) s = elim (get_node-outcome (suc n) s) [
      | inr (e, s1, q) ↦ rw (contains_loop, find_loop, q) refl
      | inl (node, s1, q) ↦ elim (Bool-cases (el.equal val node.val)) [
        | inl here ↦
            rw (contains_loop, find_loop, q, here) (ap (λ (b : Bool). (ok b, s1)) (nonzero n))
        | inr other ↦ elim (Bool-cases (el.less val node.val)) [
          | inl below ↦
              rw (contains_loop, find_loop, q, other, below)
                (contains_loop-find_loop fuel node.left s1)
          | inr above ↦
              rw (contains_loop, find_loop, q, other, above)
                (contains_loop-find_loop fuel node.right s1)
        ]
      ]
    ]

    -- On any set, contains returns whether find returns an iterator that is not the end, throws
    -- what find throws, and leaves the same set.
    pub contains-find_node :
        (s : Set A) → contains el str m val s ≡ is_found (find_node el str m val s)
    unfolding contains find_node
    contains-find_node s = contains_loop-find_loop (suc s.set_size) s.nonce_root s
