-- ===== src/Store/Set/Inserted/Whole.antt =====
-- `insert` of src/store/set.h on a whole set.
use bandchain_legacy.Common.{
  ℕ, suc, ◌+◌, ◌^◌, ◌<◌, ◌≤◌, ◌≡◌, sym, ap, ◌∙◌, Bool, true, false, not, ◌==◌, ==_iff, ◌⊎◌, inl,
  inr, Bool-cases, length, arith,
}
use bandchain_legacy.Thrown.{Thrown, Result, ok, err}
use bandchain_legacy.Uint256.{CheckedUint}
use bandchain_legacy.Buffer.{Bytes}
use bandchain_legacy.Store.Backend.{StorageMap}
use bandchain_legacy.Ledger.Action.{>>=-step}
use bandchain_legacy.Store.Set.{Set, Element, get_node, fetch_node}
use bandchain_legacy.Store.Set.Tree.{Tree, elements, depth_lem, IsSearch, IsOrder, node_at}
use bandchain_legacy.Store.Set.Members.{member}
use bandchain_legacy.Store.Set.Links.{Keeps, distinct}
use bandchain_legacy.Store.Set.Parts.{Apart}
use bandchain_legacy.Store.Set.Insert.{insert_node, insert}
use bandchain_legacy.Store.Set.Stored.{IsBalanced, IsProper, Stored, Stored-Keeps}
use bandchain_legacy.Store.Set.Balance.{IsStrict}
use bandchain_legacy.Store.Set.Sorted.{
  insert_sorted, Ascending-insert_sorted, IsSearch-Ascending, Ascending-IsSearch,
}
use bandchain_legacy.Store.Set.Inserted.{Added, Inserted}
use bandchain_legacy.Store.Set.Inserted.Descent.{insert_node_lem}

module _ ⦃u : CheckedUint⦄ {A : Type 0} (el : Element A) (str : ℕ → Bytes) (m : StorageMap) where
  -- What a set is between two calls: the nodes from the root are a balanced search tree with its
  -- heights, of as many elements as the set counts, and the numbers that were not given out yet
  -- have no node.
  pub record IsValid (s : Set A) (t : Tree A) : Type 0 where
    pub stored : Stored el str m s s.nonce_root t
    pub proper : IsProper t
    pub search : IsSearch el t
    pub balanced : IsBalanced t
    pub counts : s.set_size ≡ length (elements t)
    pub missing : (j : ℕ) → s.nonce_node < j → (e : Thrown) × (node_at el str m s j ≡ err e)
    pub apart : (j : ℕ) → s.nonce_node < j → Apart j t

  -- The new root is written to the set, not to a node.
  module _ (s : Set A) (root : ℕ) where
    node_at-root :
        (j : ℕ) → node_at el str m (record s { nonce_root = root }) j ≡ node_at el str m s j
    unfolding node_at get_node fetch_node
    node_at-root j = ground arith

    root-Keeps : Keeps el str m s (record s { nonce_root = root })
    root-Keeps j l r h v k = record {
      node = k.node;
      here = node_at-root j ∙ k.here;
      left = k.left;
      right = k.right;
      height = k.height;
      val = k.val;
    }

  -- The answer of `insert`, from the sizes.
  answer :
      (before after added : ℕ) (b : Bool)
      → after ≡ before + added
      → ((b ≡ true) × (added ≡ 0)) ⊎ ((b ≡ false) × (added ≡ 1))
      → not (before == after) ≡ not b
  answer before after added b e (inl (p, q)) = ground arith
  answer before after added b e (inr (p, q)) = ground arith

  module _ (order : IsOrder el) (strict : IsStrict el) (val : A) where
    Inserted-IsValid :
        (s : Set A) (t : Tree A) (run : Result ℕ × Set A)
        → IsValid s t
        → (h : Inserted el str m val s t run)
        → IsValid (record h.after { nonce_root = h.id }) h.tree
    Inserted-IsValid s t run valid h = record {
      stored = Stored-Keeps el str m h.after _ h.id h.tree (root-Keeps h.after h.id) h.stored;
      proper = h.proper;
      search = Ascending-IsSearch el h.tree (
          rw h.put (
            Ascending-insert_sorted el order strict val (elements t)
              (IsSearch-Ascending el order strict t valid.search)));
      balanced = h.balanced;
      counts = h.counted.set_size ∙ omega (arith, h.size, valid.counts);
      missing = λ j p.
          let (e, q) = valid.missing j (omega (arith, p, h.counted.nonce_node)) in
          (
            e,
            node_at-root h.after h.id j
                ∙ h.counted.missing j e (λ x. absurd (omega (arith, x, p, h.counted.nonce_node))) q,
          );
      apart = λ j p. off j p h.is_added (Bool-cases (suc s.nonce_node == j));
    }
      where
        off :
            (j : ℕ)
            → h.after.nonce_node < j
            → Added el str m val t h.added
            → (suc s.nonce_node == j ≡ true) ⊎ (suc s.nonce_node == j ≡ false)
            → Apart j h.tree
        off j p _ (inr e) =
            h.apart j (λ q. distinct e q) (valid.apart j (omega (arith, p, h.counted.nonce_node)))
        off j p (inl (_, none)) (inl e) = rw (sym ((==_iff (suc s.nonce_node) j).0 e)) (h.idle none)
        off j p (inr (_, one)) (inl e) =
            absurd (omega (arith, p, one, h.counted.nonce_node, (==_iff (suc s.nonce_node) j).0 e))

    -- With what the counters are then, at most.
    pub insert_run :
        (t : Tree A) (s : Set A)
        → IsValid s t
        → suc s.nonce_node < 2 ^ 64
        → suc s.set_size < 2 ^ 64
        → (s' : Set A) × (t' : Tree A) × (insert el str m val s
            ≡ (ok (not (member el val (elements t))), s'))
          × IsValid s' t'
          × (elements t' ≡ insert_sorted el val (elements t))
          × (s'.nonce_node ≤ suc s.nonce_node)
          × (s'.set_size ≤ suc s.set_size)
    unfolding insert
    insert_run t s valid small room =
        let (e, free) = valid.missing (suc s.nonce_node) (omega arith) in
        let h =
          insert_node_lem el str m order strict val (suc (suc s.set_size)) s.nonce_root t s e
            (omega (arith, depth_lem t, valid.counts)) valid.stored valid.proper valid.search
            valid.balanced free (valid.apart (suc s.nonce_node) (omega arith)) small room
            (omega (arith, depth_lem t, valid.counts)) in
        (
          record h.after { nonce_root = h.id },
          h.tree,
          >>=-step (insert_node el str m (suc (suc s.set_size)) s.nonce_root val) _ h.runs
              ∙ ap (λ (b : Bool). (ok b, record h.after { nonce_root = h.id }))
                  (answer s.set_size h.after.set_size h.added (member el val (elements t))
                    h.counted.set_size h.is_added),
          Inserted-IsValid s t _ valid h,
          h.put,
          omega (arith, h.counted.nonce_node, at_most h.is_added),
          omega (arith, h.counted.set_size, at_most h.is_added),
        )
      where
        at_most : {b : Bool} {n : ℕ} → ((b ≡ true) × (n ≡ 0)) ⊎ ((b ≡ false) × (n ≡ 1)) → n ≤ 1
        at_most (inl (_, e)) = omega arith
        at_most (inr (_, e)) = omega arith

    -- On a valid set, which is an AVL search tree with its heights, sizes and unused numbers
    -- right, where the operators of the elements are a strict total order and both counters have
    -- room for one more, insert returns whether no element was equal to the value, and leaves a
    -- valid set whose elements in order are those before with the value put in its place.
    pub insert_lem :
        (t : Tree A) (s : Set A)
        → IsValid s t
        → suc s.nonce_node < 2 ^ 64
        → suc s.set_size < 2 ^ 64
        → (s' : Set A) × (t' : Tree A) × (insert el str m val s
            ≡ (ok (not (member el val (elements t))), s'))
          × IsValid s' t'
          × (elements t' ≡ insert_sorted el val (elements t))
    insert_lem t s valid small room =
        let (s', t', run, valid', put, _, _) = insert_run t s valid small room in
        (s', t', run, valid', put)
