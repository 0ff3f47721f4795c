-- ===== src/Store/Set/Delete.antt =====
-- `erase` of src/store/set.h. The recursion goes down the tree, with fuel for one level more than
-- the set has elements.
use bandchain_legacy.Common.{
  ℕ, zero, suc, ◌+◌, ◌-◌, ◌%◌, ◌^◌, Bool, true, false, not, ◌||◌, ltb, ◌==◌, if◌then◌else◌,
}
use bandchain_legacy.Thrown.{ok, err, out_of_fuel}
use bandchain_legacy.Uint256.{CheckedUint}
use bandchain_legacy.Buffer.{Bytes}
use bandchain_legacy.Store.Backend.{StorageMap}
use bandchain_legacy.Ledger.Action.{Action, ◌>>=◌, ◌>>◌, pure, modify}
use bandchain_legacy.Store.Set.{
  Node, Set, Element, SetCacheStatus, changed, erased, get_node, update, update_parent, read_set,
}
use bandchain_legacy.Store.Set.Rotate.{
  update_height, left_rotate, right_rotate, get_balance, left_right_case, right_left_case,
}

abbrev is_erased : SetCacheStatus → Bool
is_erased erased = true
is_erased _ = false

module _ ⦃u : CheckedUint⦄ {A : Type 0} (el : Element A) (str : ℕ → Bytes) (m : StorageMap) where
  -- `minValueNode`
  unfoldable pub min_value_node : ℕ → ℕ → Action (Set A) ℕ
  min_value_node zero root s = (err out_of_fuel, s)
  min_value_node (suc fuel) root s =
      (get_node el str m root >>= λ node. elim node.left [
        | zero ↦ pure root
        | suc n ↦ min_value_node fuel (suc n)
      ])
        s

  -- The case of at most one child: a child is copied to where its parent was, and then erased.
  unfoldable pub delete_here : ℕ → Node A → Action (Set A) (Unit {0})
  delete_here current node =
      let child = if node.left == 0 then node.right else node.left in
      let smaller : Action (Set A) (Unit {0}) =
        modify (λ s. record s { set_size = (s.set_size + (2 ^ 64 - 1)) % 2 ^ 64 }) in
      let erase_node : ℕ → Action (Set A) (Unit {0}) =
        λ id. update el str m id (λ n. record n { status = erased }) in
      elim child [
        | zero ↦ smaller >> erase_node current
        | suc c ↦ get_node el str m (suc c) >>= λ child_node.
            update el str m current
              (λ n. record child_node { parent = node.parent; status = changed })
            >> (smaller >> erase_node (suc c))
      ]

  -- The four cases at the end of `deleteNode`; the balance of the child, which the source asks for
  -- twice, is the same both times.
  unfoldable pub rotate_erased : ℕ → Bool × ℕ → Action (Set A) ℕ
  rotate_erased current (heavy_left, height_diff) = elim (ltb 1 height_diff) [
    | false ↦ pure current
    | true ↦ get_node el str m current >>= λ node. elim heavy_left [
      | true ↦ get_balance el str m node.left >>= λ left_balance. elim left_balance.0 [
        | true ↦ right_rotate el str m current
        | false ↦ left_right_case el str m current node.left
      ]
      | false ↦ get_balance el str m node.right >>= λ right_balance. elim right_balance.0 [
        | true ↦ right_left_case el str m current node.right
        | false ↦ left_rotate el str m current
      ]
    ]
  ]

  -- `deleteNode` behind the test of the status.
  unfoldable pub balance_kept : ℕ → Action (Set A) ℕ
  unfolding rotate_erased
  balance_kept current = do
    update_height el str m current
    update el str m current (λ n. record n { status = changed })
    balance ← get_balance el str m current
    rotate_erased current balance

  -- `deleteNode` from the test of the status on.
  unfoldable pub balance_erased : ℕ → Action (Set A) ℕ
  unfolding balance_kept
  balance_erased current = get_node el str m current >>= λ node. elim (is_erased node.status) [
    | true ↦ pure 0
    | false ↦ balance_kept current
  ]

  -- `deleteNode`
  unfoldable pub delete_node : ℕ → ℕ → A → Action (Set A) ℕ
  unfolding min_value_node delete_here balance_erased
  delete_node zero current val s = (err out_of_fuel, s)
  delete_node (suc fuel) zero val s = (ok 0, s)
  delete_node (suc fuel) (suc n) val s =
      let current = suc n in
      (get_node el str m current >>= λ node. elim (el.less val node.val) [
        | true ↦ delete_node fuel node.left val >>= λ top.
            update el str m current (λ x. record x { left = top })
            >> (update_parent el str m current top >> balance_erased current)
        | false ↦ elim (el.greater val node.val) [
          | true ↦ delete_node fuel node.right val >>= λ top.
              update el str m current (λ x. record x { right = top })
              >> (update_parent el str m current top >> balance_erased current)
          | false ↦ elim (node.left == 0 || node.right == 0) [
            | true ↦ delete_here current node >> balance_erased current
            | false ↦ min_value_node fuel node.right >>= λ min.
                get_node el str m min >>= λ min_node.
                update el str m current (λ x. record x { val = min_node.val })
                >> (delete_node fuel node.right min_node.val >>= λ top.
                    update el str m current (λ x. record x { right = top })
                    >> balance_erased current)
          ]
        ]
      ])
        s

  -- `erase`
  unfoldable pub erase : A → Action (Set A) Bool
  unfolding delete_node
  erase val s =
      (delete_node (suc (suc s.set_size)) s.nonce_root val >>= λ top.
      modify (λ t. record t { nonce_root = top }) >> read_set (λ t. not (s.set_size == t.set_size)))
        s
