-- ===== src/Store/Set/Balance/Runs.antt =====
-- Which case of `insertNode` of src/store/set.h the code is in.
use bandchain_legacy.Common.{ℕ, ◌≡◌, ◌∙◌, refl, Bool, true, false, not, ◌&&◌, ltb}
use bandchain_legacy.Uint256.{CheckedUint}
use bandchain_legacy.Thrown.{ok}
use bandchain_legacy.Buffer.{Bytes}
use bandchain_legacy.Store.Backend.{StorageMap}
use bandchain_legacy.Ledger.Action.{>>=-step}
use bandchain_legacy.Store.Set.{Node, Set, Element, get_node, update}
use bandchain_legacy.Store.Set.Links.{Linked, Keeps, Keeps-trans, get_node-Keeps}
use bandchain_legacy.Store.Set.Rotate.{left_rotate, right_rotate, left_right_case, right_left_case}
use bandchain_legacy.Store.Set.Insert.{insert_right, insert_left}

module _ ⦃u : CheckedUint⦄ {A : Type 0} (el : Element A) (str : ℕ → Bytes) (m : StorageMap) where
  module _ (s : Set A) (current : ℕ) (val : A) (balance : Bool × ℕ) where
    pub run_even :
        (balance.0 && ltb 1 balance.1) ≡ false
        → (not balance.0 && ltb 1 balance.1) ≡ false
        → insert_left el str m current val balance s ≡ (ok current, s)
    unfolding insert_left insert_right
    run_even e e' = rw (insert_left, e, insert_right, e') refl

    -- The nodes that the tests read.
    module _ (l r h l' r' h' child : ℕ) (v v' : A) (k : Linked el str m s current l r h v)
        (k' : Linked el str m s child l' r' h' v') where
      look_left :
          l ≡ child
          → (node : Node A) × (left_node : Node A) × (s1 : Set A) × (s2 : Set A) × (get_node el str
                m current s
              ≡ (ok node, s1))
            × (get_node el str m node.left s1 ≡ (ok left_node, s2))
            × (node.left ≡ child)
            × (left_node.val ≡ v')
            × Keeps el str m s s2
      look_left e =
          let (node, s1, got, node_l, _, _, keep1) = get_node-Keeps el str m s current l r h v k in
          let at = node_l ∙ e in
          let (child_node, s2, got', _, _, val_eq, keep2) =
            get_node-Keeps el str m s1 node.left l' r' h' v' (rw at (keep1 child l' r' h' v' k')) in
          (
            node,
            child_node,
            s1,
            s2,
            got,
            got',
            at,
            val_eq,
            Keeps-trans el str m s s1 s2 keep1 keep2,
          )

      look_right :
          r ≡ child
          → (node : Node A) × (right_node : Node A) × (s1 : Set A) × (s2 : Set A) × (get_node el str
                m current s
              ≡ (ok node, s1))
            × (get_node el str m node.right s1 ≡ (ok right_node, s2))
            × (node.right ≡ child)
            × (right_node.val ≡ v')
            × Keeps el str m s s2
      look_right e =
          let (node, s1, got, _, node_r, _, keep1) = get_node-Keeps el str m s current l r h v k in
          let at = node_r ∙ e in
          let (child_node, s2, got', _, _, val_eq, keep2) =
            get_node-Keeps el str m s1 node.right l' r' h' v'
              (rw at (keep1 child l' r' h' v' k')) in
          (
            node,
            child_node,
            s1,
            s2,
            got,
            got',
            at,
            val_eq,
            Keeps-trans el str m s s1 s2 keep1 keep2,
          )

      pub run_left_left :
          l ≡ child
          → (balance.0 && ltb 1 balance.1) ≡ true
          → el.less val v' ≡ true
          → (s2 : Set A) × (insert_left el str m current val balance s
              ≡ right_rotate el str m current s2)
            × Keeps el str m s s2
      unfolding insert_left insert_right
      run_left_left e t below =
          let (node, left_node, s1, s2, got, got', at, val_eq, keeps) = look_left e in
          let below' : el.less val left_node.val ≡ true = rw val_eq below in
          (s2, rw (insert_left, t, got, got', below') refl, keeps)

      pub run_left_right :
          l ≡ child
          → (balance.0 && ltb 1 balance.1) ≡ true
          → el.less val v' ≡ false
          → el.greater val v' ≡ true
          → (s2 : Set A) × (insert_left el str m current val balance s
              ≡ left_right_case el str m current child s2)
            × Keeps el str m s s2
      unfolding insert_left insert_right
      run_left_right e t not_below above_v =
          let (node, left_node, s1, s2, got, got', at, val_eq, keeps) = look_left e in
          let not_below' : el.less val left_node.val ≡ false = rw val_eq not_below in
          let above' : el.greater val left_node.val ≡ true = rw val_eq above_v in
          (s2, rw (insert_left, t, got, got', not_below', above', at) refl, keeps)

      pub run_right_right :
          r ≡ child
          → (balance.0 && ltb 1 balance.1) ≡ false
          → (not balance.0 && ltb 1 balance.1) ≡ true
          → el.greater val v' ≡ true
          → (s2 : Set A) × (insert_left el str m current val balance s
              ≡ left_rotate el str m current s2)
            × Keeps el str m s s2
      unfolding insert_left insert_right
      run_right_right e f t above_v =
          let (node, right_node, s1, s2, got, got', at, val_eq, keeps) = look_right e in
          let above' : el.greater val right_node.val ≡ true = rw val_eq above_v in
          (s2, rw (insert_left, f, insert_right, t, got, got', above') refl, keeps)

      pub run_right_left :
          r ≡ child
          → (balance.0 && ltb 1 balance.1) ≡ false
          → (not balance.0 && ltb 1 balance.1) ≡ true
          → el.greater val v' ≡ false
          → el.less val v' ≡ true
          → (s2 : Set A) × (insert_left el str m current val balance s
              ≡ right_left_case el str m current child s2)
            × Keeps el str m s s2
      unfolding insert_left insert_right
      run_right_left e f t not_above below =
          let (node, right_node, s1, s2, got, got', at, val_eq, keeps) = look_right e in
          let not_above' : el.greater val right_node.val ≡ false = rw val_eq not_above in
          let below' : el.less val right_node.val ≡ true = rw val_eq below in
          (s2, rw (insert_left, f, insert_right, t, got, got', not_above', below', at) refl, keeps)

  -- The steps of the two cases that rotate twice.
  module _ (y x z top : ℕ) (s s1 s2 s3 : Set A) where
    pub left_right_run :
        left_rotate el str m x s ≡ (ok z, s1)
        → update el str m y (λ n. record n { left = z }) s1 ≡ (ok tt, s2)
        → right_rotate el str m y s2 ≡ (ok top, s3)
        → left_right_case el str m y x s ≡ (ok top, s3)
    unfolding left_right_case
    left_right_run run1 run2 run3 =
        >>=-step (left_rotate el str m x) _ run1 ∙ >>=-step (update el str m y _) _ run2 ∙ run3

    pub right_left_run :
        right_rotate el str m x s ≡ (ok z, s1)
        → update el str m y (λ n. record n { right = z }) s1 ≡ (ok tt, s2)
        → left_rotate el str m y s2 ≡ (ok top, s3)
        → right_left_case el str m y x s ≡ (ok top, s3)
    unfolding right_left_case
    right_left_run run1 run2 run3 =
        >>=-step (right_rotate el str m x) _ run1 ∙ >>=-step (update el str m y _) _ run2 ∙ run3
