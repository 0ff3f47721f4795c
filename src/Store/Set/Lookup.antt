-- ===== src/Store/Set/Lookup.antt =====
-- `contains`, `find`, `maxValue`, `begin` and `last` of src/store/set.h. An iterator is the number
-- of its node, or 0. The loops go down the tree, with fuel for one level more than the set has
-- elements.
use bandchain_legacy.Common.{ℕ, zero, suc, Bool, true, false, ◌==◌, if◌then◌else◌}
use bandchain_legacy.Thrown.{ok, err, out_of_fuel}
use bandchain_legacy.Uint256.{CheckedUint}
use bandchain_legacy.Buffer.{Bytes}
use bandchain_legacy.Store.Backend.{StorageMap}
use bandchain_legacy.Ledger.Action.{Action, ◌>>=◌, pure}
use bandchain_legacy.Store.Set.{Set, Element, get_node}

module _ ⦃u : CheckedUint⦄ {A : Type 0} (el : Element A) (str : ℕ → Bytes) (m : StorageMap) where
  unfoldable pub contains_loop : ℕ → ℕ → A → Action (Set A) Bool
  contains_loop zero current val s = (err out_of_fuel, s)
  contains_loop (suc fuel) zero val s = (ok false, s)
  contains_loop (suc fuel) (suc n) val s =
      (get_node el str m (suc n) >>= λ node. elim (el.equal val node.val) [
        | true ↦ pure true
        | false ↦ elim (el.less val node.val) [
          | true ↦ contains_loop fuel node.left val
          | false ↦ contains_loop fuel node.right val
        ]
      ])
        s

  unfoldable pub contains : A → Action (Set A) Bool
  unfolding contains_loop
  contains val s = contains_loop (suc s.set_size) s.nonce_root val s

  unfoldable pub find_loop : ℕ → ℕ → A → Action (Set A) ℕ
  find_loop zero current val s = (err out_of_fuel, s)
  find_loop (suc fuel) zero val s = (ok 0, s)
  find_loop (suc fuel) (suc n) val s =
      (get_node el str m (suc n) >>= λ node. elim (el.equal val node.val) [
        | true ↦ pure (suc n)
        | false ↦ elim (el.less val node.val) [
          | true ↦ find_loop fuel node.left val
          | false ↦ find_loop fuel node.right val
        ]
      ])
        s

  -- `find`
  unfoldable pub find_node : A → Action (Set A) ℕ
  unfolding find_loop
  find_node val s = find_loop (suc s.set_size) s.nonce_root val s

  unfoldable pub max_loop : ℕ → ℕ → Action (Set A) A
  max_loop zero current s = (err out_of_fuel, s)
  max_loop (suc fuel) current s =
      (get_node el str m current >>= λ node. elim node.right [
        | zero ↦ pure node.val
        | suc n ↦ max_loop fuel (suc n)
      ])
        s

  -- `maxValue`
  unfoldable pub max_value : Action (Set A) A
  unfolding max_loop
  max_value s =
      if s.set_size == 0 then (ok el.initial, s) else max_loop (suc s.set_size) s.nonce_root s

  unfoldable pub begin_loop : ℕ → ℕ → Action (Set A) ℕ
  begin_loop zero current s = (err out_of_fuel, s)
  begin_loop (suc fuel) current s =
      (get_node el str m current >>= λ node. elim node.left [
        | zero ↦ pure current
        | suc n ↦ begin_loop fuel (suc n)
      ])
        s

  unfoldable pub begin : Action (Set A) ℕ
  unfolding begin_loop
  begin s = begin_loop (suc s.set_size) s.nonce_root s

  unfoldable pub last_loop : ℕ → ℕ → Action (Set A) ℕ
  last_loop zero current s = (err out_of_fuel, s)
  last_loop (suc fuel) current s =
      (get_node el str m current >>= λ node. elim node.right [
        | zero ↦ pure current
        | suc n ↦ last_loop fuel (suc n)
      ])
        s

  unfoldable pub last : Action (Set A) ℕ
  unfolding last_loop
  last s = last_loop (suc s.set_size) s.nonce_root s
