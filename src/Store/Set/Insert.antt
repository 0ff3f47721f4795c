-- ===== src/Store/Set/Insert.antt =====
-- `insert` of src/store/set.h. The recursion goes down the tree, with fuel for one level more than
-- the set has elements.
use bandchain_legacy.Common.{ℕ, zero, suc, Bool, true, false, not, ◌&&◌, ltb, ◌==◌}
use bandchain_legacy.Thrown.{err, out_of_fuel}
use bandchain_legacy.Uint256.{CheckedUint}
use bandchain_legacy.Buffer.{Bytes}
use bandchain_legacy.Store.Backend.{StorageMap}
use bandchain_legacy.Ledger.Action.{Action, ◌>>=◌, ◌>>◌, pure, modify}
use bandchain_legacy.Store.Set.{
  Set, Element, changed, get_node, update, update_parent, new_node, read_set,
}
use bandchain_legacy.Store.Set.Rotate.{
  update_height, left_rotate, right_rotate, get_balance, left_right_case, right_left_case,
}

module _ ⦃u : CheckedUint⦄ {A : Type 0} (el : Element A) (str : ℕ → Bytes) (m : StorageMap) where
  -- The part of `insertNode` under `// Right`.
  unfoldable pub insert_right : ℕ → A → Bool × ℕ → Action (Set A) ℕ
  insert_right current val balance = elim (not balance.0 && ltb 1 balance.1) [
    | false ↦ pure current
    | true ↦ get_node el str m current >>= λ node. get_node el str m node.right >>= λ right_node.
        elim (el.greater val right_node.val) [
          | true ↦ left_rotate el str m current
          | false ↦ elim (el.less val right_node.val) [
            | true ↦ right_left_case el str m current node.right
            | false ↦ pure current
          ]
        ]
  ]

  -- The part of `insertNode` under `// Left`, and what follows it.
  unfoldable pub insert_left : ℕ → A → Bool × ℕ → Action (Set A) ℕ
  unfolding insert_right
  insert_left current val balance = elim (balance.0 && ltb 1 balance.1) [
    | false ↦ insert_right current val balance
    | true ↦ get_node el str m current >>= λ node. get_node el str m node.left >>= λ left_node.
        elim (el.less val left_node.val) [
          | true ↦ right_rotate el str m current
          | false ↦ elim (el.greater val left_node.val) [
            | true ↦ left_right_case el str m current node.left
            | false ↦ insert_right current val balance
          ]
        ]
  ]

  -- `insertNode` from the update of the height on.
  unfoldable pub balance_inserted : ℕ → A → Action (Set A) ℕ
  unfolding insert_left
  balance_inserted current val = do
    update_height el str m current
    update el str m current (λ n. record n { status = changed })
    balance ← get_balance el str m current
    insert_left current val balance

  -- `insertNode`
  unfoldable pub insert_node : ℕ → ℕ → A → Action (Set A) ℕ
  unfolding balance_inserted
  insert_node zero current val s = (err out_of_fuel, s)
  insert_node (suc fuel) zero val s = new_node val s
  insert_node (suc fuel) (suc n) val s =
      let current = suc n in
      (get_node el str m current >>= λ node. elim (el.less val node.val) [
        | true ↦ insert_node fuel node.left val >>= λ top.
            update el str m current (λ x. record x { left = top })
            >> (update_parent el str m current top >> balance_inserted current val)
        | false ↦ elim (el.greater val node.val) [
          | true ↦ insert_node fuel node.right val >>= λ top.
              update el str m current (λ x. record x { right = top })
              >> (update_parent el str m current top >> balance_inserted current val)
          | false ↦ pure current
        ]
      ])
        s

  -- `insert`
  unfoldable pub insert : A → Action (Set A) Bool
  unfolding insert_node
  insert val s =
      (insert_node (suc (suc s.set_size)) s.nonce_root val >>= λ top.
      modify (λ t. record t { nonce_root = top }) >> read_set (λ t. not (s.set_size == t.set_size)))
        s
