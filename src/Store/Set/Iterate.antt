-- ===== src/Store/Set/Iterate.antt =====
-- `Iterator` of src/store/set.h: an iterator is the number of its node, or 0. The loops go up or
-- down the tree, with fuel for one level more than the set has elements.
use bandchain_legacy.Common.{ℕ, zero, suc, true, false, ◌==◌}
use bandchain_legacy.Thrown.{ok, err, out_of_fuel}
use bandchain_legacy.Uint256.{CheckedUint}
use bandchain_legacy.Buffer.{Bytes}
use bandchain_legacy.Store.Backend.{StorageMap}
use bandchain_legacy.Ledger.Action.{Action, ◌>>=◌, pure}
use bandchain_legacy.Store.Set.{Set, Element, get_node}
use bandchain_legacy.Store.Set.Lookup.{begin_loop, last_loop}

module _ ⦃u : CheckedUint⦄ {A : Type 0} (el : Element A) (str : ℕ → Bytes) (m : StorageMap) where
  -- `operator*`
  unfoldable pub value_of : ℕ → Action (Set A) A
  value_of zero s = (ok el.initial, s)
  value_of (suc n) s = (get_node el str m (suc n) >>= λ node. pure node.val) s

  -- The loop of `operator++` towards the root, until it comes from the left.
  unfoldable pub up_right : ℕ → ℕ → Action (Set A) ℕ
  up_right zero now s = (err out_of_fuel, s)
  up_right (suc fuel) now s =
      (get_node el str m now >>= λ node. elim node.parent [
        | zero ↦ pure 0
        | suc p ↦ get_node el str m (suc p) >>= λ parent_node. elim (parent_node.right == now) [
          | true ↦ up_right fuel (suc p)
          | false ↦ pure (suc p)
        ]
      ])
        s

  -- The loop of `operator--` towards the root, until it comes from the right.
  unfoldable pub up_left : ℕ → ℕ → Action (Set A) ℕ
  up_left zero now s = (err out_of_fuel, s)
  up_left (suc fuel) now s =
      (get_node el str m now >>= λ node. elim node.parent [
        | zero ↦ pure 0
        | suc p ↦ get_node el str m (suc p) >>= λ parent_node. elim (parent_node.left == now) [
          | true ↦ up_left fuel (suc p)
          | false ↦ pure (suc p)
        ]
      ])
        s

  -- `operator++`: where there is a right child, the loop down to the left is that of `begin`.
  unfoldable pub next : ℕ → Action (Set A) ℕ
  unfolding up_right
  next zero s = (ok 0, s)
  next (suc n) s =
      (get_node el str m (suc n) >>= λ node. elim node.right [
        | zero ↦ up_right (suc s.set_size) (suc n)
        | suc r ↦ begin_loop el str m (suc s.set_size) (suc r)
      ])
        s

  -- `operator--`
  unfoldable pub previous : ℕ → Action (Set A) ℕ
  unfolding up_left
  previous zero s = (ok 0, s)
  previous (suc n) s =
      (get_node el str m (suc n) >>= λ node. elim node.left [
        | zero ↦ up_left (suc s.set_size) (suc n)
        | suc l ↦ last_loop el str m (suc s.set_size) (suc l)
      ])
        s
