-- ===== src/Store/Set/Steady/Steps.antt =====
-- The operations of src/store/set.h that an insertion consists of leave the counters alone.
use bandchain_legacy.Common.{ℕ, zero, suc, Bool, true, false, ◌&&◌, not, ltb}
use bandchain_legacy.Uint256.{CheckedUint}
use bandchain_legacy.Buffer.{Bytes}
use bandchain_legacy.Store.Backend.{StorageMap}
use bandchain_legacy.Ledger.Action.{Action, pure}
use bandchain_legacy.Store.Set.{Set, Element, get_node, update, get_height, update_parent}
use bandchain_legacy.Store.Set.Rotate.{
  update_height, move_subtree, finish_rotation, right_rotate, left_rotate, get_balance,
  left_right_case, right_left_case, compare_heights,
}
use bandchain_legacy.Store.Set.Insert.{insert_right, insert_left, balance_inserted}
use bandchain_legacy.Store.Set.Steady.{
  Same-refl, Steady, Steady-pure, Steady->>=, Steady->>, Steady-get_node, Steady-update,
}

module _ ⦃u : CheckedUint⦄ {A : Type 0} (el : Element A) (str : ℕ → Bytes) (m : StorageMap) where
  Steady-get_height : (i : ℕ) → Steady el str m (get_height el str m i)
  unfolding get_height
  Steady-get_height zero s = Same-refl el str m s
  Steady-get_height (suc n) s =
      Steady->>= el str m (get_node el str m (suc n)) _ (Steady-get_node el str m (suc n))
        (λ node. Steady-pure el str m node.height) s

  pub Steady-update_parent :
      (parent child : ℕ) → Steady el str m (update_parent el str m parent child)
  unfolding update_parent
  Steady-update_parent parent zero s = Same-refl el str m s
  Steady-update_parent parent (suc n) s = Steady-update el str m (suc n) _ s

  Steady-update_height : (i : ℕ) → Steady el str m (update_height el str m i)
  unfolding update_height
  Steady-update_height i =
      Steady->>= el str m (get_node el str m i) _ (Steady-get_node el str m i) λ node.
        Steady->>= el str m (get_height el str m node.left) _ (Steady-get_height node.left) λ l.
          Steady->>= el str m (get_height el str m node.right) _ (Steady-get_height node.right)
            λ r. Steady-update el str m i _

  Steady-move_subtree : (t2 parent : ℕ) → Steady el str m (move_subtree el str m t2 parent)
  unfolding move_subtree
  Steady-move_subtree zero parent s = Same-refl el str m s
  Steady-move_subtree (suc n) parent s = Steady-update el str m (suc n) _ s

  Steady-finish_rotation :
      (top child t2 : ℕ) → Steady el str m (finish_rotation el str m top child t2)
  unfolding finish_rotation
  Steady-finish_rotation top child t2 =
      Steady->> el str m (move_subtree el str m t2 top) _ (Steady-move_subtree t2 top) (
        Steady->> el str m (update_height el str m top) _ (Steady-update_height top) (
          Steady->> el str m (update_height el str m child) _ (Steady-update_height child) (
            Steady->> el str m (update el str m top _) _ (Steady-update el str m top _) (
              Steady->> el str m (update el str m child _) _ (Steady-update el str m child _)
                (Steady-pure el str m child)))))

  pub Steady-right_rotate : (y : ℕ) → Steady el str m (right_rotate el str m y)
  unfolding right_rotate
  Steady-right_rotate y =
      Steady->>= el str m (get_node el str m y) _ (Steady-get_node el str m y) λ top.
        Steady->>= el str m (get_node el str m top.left) _ (Steady-get_node el str m top.left)
          λ left_node. Steady->> el str m (update el str m y _) _ (Steady-update el str m y _) (
            Steady->> el str m (update el str m top.left _) _ (Steady-update el str m top.left _) (
              Steady->>= el str m (get_node el str m y) _ (Steady-get_node el str m y) λ lowered.
                Steady->> el str m (update el str m top.left _) _
                  (Steady-update el str m top.left _)
                  (Steady->> el str m (update el str m y _) _ (Steady-update el str m y _)
                    (Steady-finish_rotation y top.left left_node.right))))

  pub Steady-left_rotate : (x : ℕ) → Steady el str m (left_rotate el str m x)
  unfolding left_rotate
  Steady-left_rotate x =
      Steady->>= el str m (get_node el str m x) _ (Steady-get_node el str m x) λ top.
        Steady->>= el str m (get_node el str m top.right) _ (Steady-get_node el str m top.right)
          λ right_node. Steady->> el str m (update el str m x _) _ (Steady-update el str m x _) (
            Steady->> el str m (update el str m top.right _) _ (Steady-update el str m top.right _)
              (Steady->>= el str m (get_node el str m x) _ (Steady-get_node el str m x) λ lowered.
                Steady->> el str m (update el str m top.right _) _
                  (Steady-update el str m top.right _)
                  (Steady->> el str m (update el str m x _) _ (Steady-update el str m x _)
                    (Steady-finish_rotation x top.right right_node.left))))

  Steady-left_right_case : (y x : ℕ) → Steady el str m (left_right_case el str m y x)
  unfolding left_right_case
  Steady-left_right_case y x =
      Steady->>= el str m (left_rotate el str m x) _ (Steady-left_rotate x) λ top.
        Steady->> el str m (update el str m y _) _ (Steady-update el str m y _)
          (Steady-right_rotate y)

  Steady-right_left_case : (y x : ℕ) → Steady el str m (right_left_case el str m y x)
  unfolding right_left_case
  Steady-right_left_case y x =
      Steady->>= el str m (right_rotate el str m x) _ (Steady-right_rotate x) λ top.
        Steady->> el str m (update el str m y _) _ (Steady-update el str m y _)
          (Steady-left_rotate y)

  Steady-get_balance : (i : ℕ) → Steady el str m (get_balance el str m i)
  unfolding get_balance
  Steady-get_balance zero s = Same-refl el str m s
  Steady-get_balance (suc n) s =
      Steady->>= el str m (get_node el str m (suc n)) _ (Steady-get_node el str m (suc n))
        (λ node.
          Steady->>= el str m (get_height el str m node.left) _ (Steady-get_height node.left) λ l.
            Steady->>= el str m (get_height el str m node.right) _ (Steady-get_height node.right)
              λ r. Steady-pure el str m (compare_heights l r))
        s

  Steady-if :
      {B : Type 0} (b : Bool) (f g : Action (Set A) B)
      → Steady el str m f
      → Steady el str m g
      → Steady el str m (elim b [ true ↦ f | false ↦ g ])
  Steady-if true f g hf hg = hf
  Steady-if false f g hf hg = hg

  module _ (current : ℕ) (val : A) where
    Steady-insert_right :
        (balance : Bool × ℕ) → Steady el str m (insert_right el str m current val balance)
    unfolding insert_right
    Steady-insert_right balance =
        Steady-if (not balance.0 && ltb 1 balance.1) _ (pure current)
          (Steady->>= el str m (get_node el str m current) _ (Steady-get_node el str m current)
            λ node.
              Steady->>= el str m (get_node el str m node.right) _
                (Steady-get_node el str m node.right)
                λ right_node.
                  Steady-if (el.greater val right_node.val) (left_rotate el str m current) _
                    (Steady-left_rotate current)
                    (Steady-if (el.less val right_node.val)
                      (right_left_case el str m current node.right) (pure current)
                      (Steady-right_left_case current node.right) (Steady-pure el str m current)))
          (Steady-pure el str m current)

    Steady-insert_left :
        (balance : Bool × ℕ) → Steady el str m (insert_left el str m current val balance)
    unfolding insert_left
    Steady-insert_left balance =
        Steady-if (balance.0 && ltb 1 balance.1) _ (insert_right el str m current val balance)
          (Steady->>= el str m (get_node el str m current) _ (Steady-get_node el str m current)
            λ node.
              Steady->>= el str m (get_node el str m node.left) _
                (Steady-get_node el str m node.left)
                λ left_node.
                  Steady-if (el.less val left_node.val) (right_rotate el str m current) _
                    (Steady-right_rotate current)
                    (Steady-if (el.greater val left_node.val)
                      (left_right_case el str m current node.left)
                      (insert_right el str m current val balance)
                      (Steady-left_right_case current node.left) (Steady-insert_right balance)))
          (Steady-insert_right balance)

    pub Steady-balance_inserted : Steady el str m (balance_inserted el str m current val)
    unfolding balance_inserted
    Steady-balance_inserted =
        Steady->> el str m (update_height el str m current) _ (Steady-update_height current) (
          Steady->> el str m (update el str m current _) _ (Steady-update el str m current _) (
            Steady->>= el str m (get_balance el str m current) _ (Steady-get_balance current)
              Steady-insert_left))
