-- ===== src/Store/Set/Rotate.antt =====
-- The rotations of src/store/set.h, and the comparison of heights.
pub mod Finish
pub mod Right
pub mod Left
pub mod Shapes
use bandchain_legacy.Common.{
  ℕ, zero, suc, ◌+◌, ◌-◌, ◌%◌, ◌^◌, max, Bool, true, false, ltb, if◌then◌else◌,
}
use bandchain_legacy.Thrown.{Result, ok}
use bandchain_legacy.Uint256.{CheckedUint}
use bandchain_legacy.Buffer.{Bytes}
use bandchain_legacy.Store.Backend.{StorageMap}
use bandchain_legacy.Ledger.Action.{Action, ◌>>=◌, ◌>>◌, pure}
use bandchain_legacy.Store.Set.{Node, Set, Element, changed, get_node, update, get_height}

-- The pair that `getBalance` returns for two heights.
abbrev pub compare_heights : ℕ → ℕ → Bool × ℕ
compare_heights left_height right_height =
    if ltb left_height right_height
    then (false, right_height - left_height)
    else (true, left_height - right_height)

module _ ⦃u : CheckedUint⦄ {A : Type 0} (el : Element A) (str : ℕ → Bytes) (m : StorageMap) where
  -- `node.height = std::max(getHeight(node.left), getHeight(node.right)) + 1`
  unfoldable pub update_height : ℕ → Action (Set A) (Unit {0})
  update_height id = do
    node ← get_node el str m id
    left_height ← get_height el str m node.left
    right_height ← get_height el str m node.right
    update el str m id (λ n. record n { height = (max left_height right_height + 1) % 2 ^ 64 })

  -- `T2`, if there is one, gets another parent.
  unfoldable pub move_subtree : ℕ → ℕ → Action (Set A) (Unit {0})
  move_subtree t2 parent s = elim t2 [
    | zero ↦ (ok tt, s)
    | suc n ↦ update el str m (suc n) (λ node. record node { parent = parent; status = changed }) s
  ]

  -- The lines from `if (T2 != 0)` on: the top node is one level down.
  unfoldable pub finish_rotation : ℕ → ℕ → ℕ → Action (Set A) ℕ
  unfolding move_subtree update_height
  finish_rotation top child t2 = do
    move_subtree t2 top
    update_height top
    update_height child
    update el str m top (λ node. record node { status = changed })
    update el str m child (λ node. record node { status = changed })
    pure child

  -- `rightRotate`
  unfoldable pub right_rotate : ℕ → Action (Set A) ℕ
  unfolding finish_rotation
  right_rotate y = do
    top_node ← get_node el str m y
    left_node ← get_node el str m top_node.left
    update el str m y (λ node. record node { left = left_node.right })
    update el str m top_node.left (λ node. record node { right = y })
    lowered ← get_node el str m y
    update el str m top_node.left (λ node. record node { parent = lowered.parent })
    update el str m y (λ node. record node { parent = top_node.left })
    finish_rotation y top_node.left left_node.right

  -- `leftRotate`
  unfoldable pub left_rotate : ℕ → Action (Set A) ℕ
  unfolding finish_rotation
  left_rotate x = do
    top_node ← get_node el str m x
    right_node ← get_node el str m top_node.right
    update el str m x (λ node. record node { right = right_node.left })
    update el str m top_node.right (λ node. record node { left = x })
    lowered ← get_node el str m x
    update el str m top_node.right (λ node. record node { parent = lowered.parent })
    update el str m x (λ node. record node { parent = top_node.right })
    finish_rotation x top_node.right right_node.left

  -- `getBalance`
  unfoldable pub get_balance : ℕ → Action (Set A) (Bool × ℕ)
  get_balance id s = elim id [
    | zero ↦ (ok (true, 0), s)
    | suc n ↦
        (get_node el str m (suc n) >>= λ node. get_height el str m node.left >>= λ left_height.
        get_height el str m node.right >>= λ right_height.
        pure (compare_heights left_height right_height))
          s
  ]

  -- The two lines of a left right case, and of a right left case.
  unfoldable pub left_right_case : ℕ → ℕ → Action (Set A) ℕ
  unfolding left_rotate right_rotate
  left_right_case current left = do
    top ← left_rotate left
    update el str m current (λ n. record n { left = top })
    right_rotate current

  unfoldable pub right_left_case : ℕ → ℕ → Action (Set A) ℕ
  unfolding left_rotate right_rotate
  right_left_case current right = do
    top ← right_rotate right
    update el str m current (λ n. record n { right = top })
    left_rotate current
