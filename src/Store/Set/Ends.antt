-- ===== src/Store/Set/Ends.antt =====
-- `begin` and `maxValue` of src/store/set.h against the elements of the tree.
use bandchain_legacy.Common.{
  ℕ, zero, suc, ◌<◌, ◌≡◌, refl, sym, ap, ◌∙◌, List, [], ◌∷◌, ◌++◌, append_assoc, length, ◌==◌,
  false, arith,
}
use bandchain_legacy.Thrown.{ok}
use bandchain_legacy.Uint256.{CheckedUint}
use bandchain_legacy.Buffer.{Bytes}
use bandchain_legacy.Store.Backend.{StorageMap}
use bandchain_legacy.Store.Set.{Node, Set, Element, get_node}
use bandchain_legacy.Store.Set.Tree.{
  Tree, leaf, fork, elements, depth, depth_lem, Represents, node_at, get_node_lem,
}
use bandchain_legacy.Store.Set.Lookup.{begin_loop, begin, max_loop, max_value}

module _ ⦃u : CheckedUint⦄ {A : Type 0} (el : Element A) (str : ℕ → Bytes) (m : StorageMap) where
  module _ (fuel id : ℕ) (s s1 : Set A) (node : Node A)
      (got : get_node el str m id s ≡ (ok node, s1)) where
    -- One round of the loops, at the end of the way down and before it.
    begin_last : node.left ≡ 0 → begin_loop el str m (suc fuel) id s ≡ (ok id, s1)
    unfolding begin_loop
    begin_last e = rw (begin_loop, got, e) refl

    begin_more :
        (n : ℕ)
        → node.left ≡ suc n
        → begin_loop el str m (suc fuel) id s ≡ begin_loop el str m fuel (suc n) s1
    unfolding begin_loop
    begin_more n e = rw (begin_loop, got, e) refl

    max_last : node.right ≡ 0 → max_loop el str m (suc fuel) id s ≡ (ok node.val, s1)
    unfolding max_loop
    max_last e = rw (max_loop, got, e) refl

    max_more :
        (n : ℕ)
        → node.right ≡ suc n
        → max_loop el str m (suc fuel) id s ≡ max_loop el str m fuel (suc n) s1
    unfolding max_loop
    max_more n e = rw (max_loop, got, e) refl

  -- The loop of `begin`, from the root of a tree on.
  begin_loop_lem :
      (fuel i : ℕ) (l r : Tree A) (v : A) (s s0 : Set A)
      → depth (fork i l v r) < suc fuel
      → ((j : ℕ) → node_at el str m s j ≡ node_at el str m s0 j)
      → Represents el str m s0 (suc i) (fork i l v r)
      → (id : ℕ) × (s' : Set A) × (node : Node A) × (rest : List A) × (begin_loop el str m
            (suc fuel)
            (suc i)
            s
          ≡ (ok id, s'))
        × (node_at el str m s0 id ≡ ok node)
        × (elements (fork i l v r) ≡ node.val ∷ rest)
        × ((j : ℕ) → node_at el str m s' j ≡ node_at el str m s0 j)
  unfolding depth elements Represents
  begin_loop_lem fuel i leaf r v s s0 enough same (_, (node, here, val_eq, hl, hr)) =
      let (s1, got, alike) = get_node_lem el str m s (suc i) node (same (suc i) ∙ here) in
      (
        suc i,
        s1,
        node,
        elements r,
        begin_last fuel (suc i) s s1 node got hl,
        here,
        ap (λ x. x ∷ elements r) (sym val_eq),
        λ j. alike.nodes j ∙ same j,
      )
  begin_loop_lem zero i (fork i' l' v' r') r v s s0 enough same h = absurd (omega arith)
  begin_loop_lem (suc fuel) i (fork i' l' v' r') r v s s0 enough same
        (_, (node, here, val_eq, (e, hl), hr)) =
      let (s1, got, alike) = get_node_lem el str m s (suc i) node (same (suc i) ∙ here) in
      let (id, s2, first, rest, run, there, split, same') =
        begin_loop_lem fuel i' l' r' v' s1 s0 (omega arith) (λ j. alike.nodes j ∙ same j)
          (refl, hl) in
      (
        id,
        s2,
        first,
        rest ++ v ∷ elements r,
        begin_more (suc fuel) (suc i) s s1 node got i' e ∙ run,
        there,
        ap (λ xs. xs ++ v ∷ elements r) split,
        same',
      )

  -- On a set whose nodes are a tree with an element at least, and with as many elements as the
  -- set counts, begin returns an iterator to the first element in order, and every node then
  -- reads as before.
  pub begin_lem :
      (i : ℕ) (l r : Tree A) (v : A) (s : Set A)
      → Represents el str m s s.nonce_root (fork i l v r)
      → s.set_size ≡ length (elements (fork i l v r))
      → (id : ℕ) × (s' : Set A) × (node : Node A) × (rest : List A) × (begin el str m s
          ≡ (ok id, s'))
        × (node_at el str m s id ≡ ok node)
        × (elements (fork i l v r) ≡ node.val ∷ rest)
        × ((j : ℕ) → node_at el str m s' j ≡ node_at el str m s j)
  unfolding begin Represents
  begin_lem i l r v s (e, h) size =
      let (id, s', node, rest, run, there, split, same) =
        begin_loop_lem s.set_size i l r v s s (omega (arith, depth_lem (fork i l v r))) (λ j. refl)
          (refl, h) in
      (
        id,
        s',
        node,
        rest,
        ap (λ (x : ℕ). begin_loop el str m (suc s.set_size) x s) e ∙ run,
        there,
        split,
        same,
      )

  -- The loop of `maxValue`, from the root of a tree on.
  max_loop_lem :
      (fuel i : ℕ) (l r : Tree A) (v : A) (s s0 : Set A)
      → depth (fork i l v r) < suc fuel
      → ((j : ℕ) → node_at el str m s j ≡ node_at el str m s0 j)
      → Represents el str m s0 (suc i) (fork i l v r)
      → (last : A) × (s' : Set A) × (front : List A) × (max_loop el str m (suc fuel) (suc i) s
          ≡ (ok last, s'))
        × (elements (fork i l v r) ≡ front ++ last ∷ [])
        × ((j : ℕ) → node_at el str m s' j ≡ node_at el str m s0 j)
  unfolding depth elements Represents
  max_loop_lem fuel i l leaf v s s0 enough same (_, (node, here, val_eq, hl, hr)) =
      let (s1, got, alike) = get_node_lem el str m s (suc i) node (same (suc i) ∙ here) in
      (
        node.val,
        s1,
        elements l,
        max_last fuel (suc i) s s1 node got hr,
        ap (λ x. elements l ++ x ∷ []) (sym val_eq),
        λ j. alike.nodes j ∙ same j,
      )
  max_loop_lem zero i l (fork i' l' v' r') v s s0 enough same h = absurd (omega arith)
  max_loop_lem (suc fuel) i l (fork i' l' v' r') v s s0 enough same
        (_, (node, here, val_eq, hl, (e, hr))) =
      let (s1, got, alike) = get_node_lem el str m s (suc i) node (same (suc i) ∙ here) in
      let (last, s2, front, run, split, same') =
        max_loop_lem fuel i' l' r' v' s1 s0 (omega arith) (λ j. alike.nodes j ∙ same j)
          (refl, hr) in
      (
        last,
        s2,
        elements l ++ v ∷ front,
        max_more (suc fuel) (suc i) s s1 node got i' e ∙ run,
        ap (λ xs. elements l ++ v ∷ xs) split
            ∙ sym (append_assoc (elements l) (v ∷ front) (last ∷ [])),
        same',
      )

  max_value_run :
      (s : Set A)
      → 0 < s.set_size
      → max_value el str m s ≡ max_loop el str m (suc s.set_size) s.nonce_root s
  unfolding max_value
  max_value_run s some_element =
      let test : (s.set_size == 0) ≡ false = ground arith in rw (max_value, test) refl

  depth_pos : (i : ℕ) (l r : Tree A) (v : A) → 0 < depth (fork i l v r)
  unfolding depth
  depth_pos i l r v = omega arith

  -- On a set whose nodes are a tree with an element at least, and with as many elements as the
  -- set counts, maxValue returns the last element in order, and every node then reads as before.
  pub max_value_lem :
      (i : ℕ) (l r : Tree A) (v : A) (s : Set A)
      → Represents el str m s s.nonce_root (fork i l v r)
      → s.set_size ≡ length (elements (fork i l v r))
      → (last : A) × (s' : Set A) × (front : List A) × (max_value el str m s ≡ (ok last, s'))
        × (elements (fork i l v r) ≡ front ++ last ∷ [])
        × ((j : ℕ) → node_at el str m s' j ≡ node_at el str m s j)
  unfolding Represents
  max_value_lem i l r v s (e, h) size =
      let (last, s', front, run, split, same) =
        max_loop_lem s.set_size i l r v s s (omega (arith, depth_lem (fork i l v r))) (λ j. refl)
          (refl, h) in
      (
        last,
        s',
        front,
        max_value_run s (omega (arith, depth_lem (fork i l v r), depth_pos i l r v))
            ∙ ap (λ (x : ℕ). max_loop el str m (suc s.set_size) x s) e
            ∙ run,
        split,
        same,
      )
