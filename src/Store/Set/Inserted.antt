-- ===== src/Store/Set/Inserted.antt =====
-- What `insertNode` of src/store/set.h does to a subtree.
mod Attach
mod Fresh
mod Below
mod Sides
mod Descent
pub mod Whole
use bandchain_legacy.Common.{
  ℕ, zero, suc, ◌+◌, ◌%◌, ◌^◌, max, ◌<◌, ◌≤◌, ◌≡◌, ◌≢◌, refl, sym, ap, ◌∙◌, Bool, true, false, ◌⊎◌,
  inl, inr, none, some, find, find-emplace, Option-cases, ◌==◌, ==_self, ==_iff, if◌then◌else◌,
  length, arith,
}
use bandchain_legacy.Thrown.{Thrown, Result, ok, err}
use bandchain_legacy.Uint256.{CheckedUint}
use bandchain_legacy.Buffer.{Bytes}
use bandchain_legacy.Store.Backend.{StorageMap}
use bandchain_legacy.Ledger.Action.{Action, ◌>>◌, >>=-step}
use bandchain_legacy.Store.Set.{
  Node, Set, Element, changed, add_node, fetch_node, get_node, update, update_parent, new_node,
}
use bandchain_legacy.Store.Set.Tree.{Tree, leaf, fork, elements, node_at, height}
use bandchain_legacy.Store.Set.Members.{member}
use bandchain_legacy.Store.Set.Links.{
  Linked, Keeps, KeepsOther, update_links, update-Keeps, Present, absent, present,
}
use bandchain_legacy.Store.Set.Parts.{Apart}
use bandchain_legacy.Store.Set.Insert.{balance_inserted}
use bandchain_legacy.Store.Set.Stored.{
  IsBalanced, IsProper, Stored, Stored-Present, Stored-other, Stored-Keeps,
}
use bandchain_legacy.Store.Set.Balance.{Leaning, Grown, Settled, IsStrict}
use bandchain_legacy.Store.Set.Balance.Cases.{balance_left, balance_right, Settled-after}
use bandchain_legacy.Store.Set.Sorted.{insert_sorted}
use bandchain_legacy.Store.Set.Steady.{Same, Same-trans, Steady->>, Steady-update, Steady-run}
use bandchain_legacy.Store.Set.Steady.Steps.{Steady-update_parent, Steady-balance_inserted}

module _ ⦃u : CheckedUint⦄ {A : Type 0} (el : Element A) (str : ℕ → Bytes) (m : StorageMap) where
  -- The counters after so many nodes were added, and the numbers that still have no node.
  pub record Counted (s s' : Set A) (added : ℕ) : Type 0 where
    pub nonce_node : s'.nonce_node ≡ s.nonce_node + added
    pub nonce_root : s'.nonce_root ≡ s.nonce_root
    pub set_size : s'.set_size ≡ s.set_size + added
    pub missing :
        (j : ℕ) (e : Thrown)
        → s.nonce_node + added ≢ j
        → node_at el str m s j ≡ err e
        → node_at el str m s' j ≡ err e

  -- Whether the value was new.
  abbrev pub Added : A → Tree A → ℕ → Type 0
  Added val t added =
      ((member el val (elements t) ≡ true) × (added ≡ 0))
      ⊎ ((member el val (elements t) ≡ false) × (added ≡ 1))

  -- What `insertNode` returns and leaves.
  pub record Inserted (val : A) (s : Set A) (t : Tree A) (run : Result ℕ × Set A) : Type 0 where
    pub id : ℕ
    pub after : Set A
    pub tree : Tree A
    pub added : ℕ
    pub runs : run ≡ (ok id, after)
    pub stored : Stored el str m after id tree
    pub put : elements tree ≡ insert_sorted el val (elements t)
    pub proper : IsProper tree
    pub balanced : IsBalanced tree
    pub grown : Grown el val (height t) tree
    pub apart : (j : ℕ) → suc s.nonce_node ≢ j → Apart j t → Apart j tree
    pub idle : added ≡ 0 → Apart (suc s.nonce_node) tree
    pub kept :
        (j l r h : ℕ) (v : A)
        → suc s.nonce_node ≢ j
        → Apart j t
        → Linked el str m s j l r h v
        → Linked el str m after j l r h v
    pub counted : Counted s after added
    pub is_added : Added val t added
    pub size : length (elements tree) ≡ length (elements t) + added
