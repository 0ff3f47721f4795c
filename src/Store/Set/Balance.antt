-- ===== src/Store/Set/Balance.antt =====
-- What `insertNode` of src/store/set.h makes of the heights of a tree.
mod Runs
pub mod Left
pub mod Right
mod TooHigh
pub mod Cases
use bandchain_legacy.Common.{
  ℕ, suc, ◌+◌, ◌^◌, max, ◌<◌, ◌≤◌, ◌≡◌, ◌≢◌, refl, sym, ap, ◌∙◌, Bool, true, false, not, ◌&&◌, ltb,
  ◌⊎◌, inl, inr, append_assoc, ◌∷◌, arith,
}
use bandchain_legacy.Thrown.{Result, ok}
use bandchain_legacy.Uint256.{CheckedUint}
use bandchain_legacy.Buffer.{Bytes}
use bandchain_legacy.Store.Backend.{StorageMap}
use bandchain_legacy.Ledger.Action.{>>=-step}
use bandchain_legacy.Store.Set.{Node, Set, Element, get_node, update}
use bandchain_legacy.Store.Set.Tree.{Tree, leaf, fork, elements, height}
use bandchain_legacy.Store.Set.Links.{
  Linked, Keeps, KeepsOther, KeepsOthers, get_node-Keeps, update_links,
}
use bandchain_legacy.Store.Set.Rotate.{
  compare_heights, left_rotate, right_rotate, left_right_case, right_left_case,
}
use bandchain_legacy.Store.Set.Parts.{Apart, Separate}
use bandchain_legacy.Store.Set.Insert.{insert_right, insert_left}
use bandchain_legacy.Store.Set.Stored.{
  IsBalanced, IsProper, Stored, Stored-other, Stored-Keeps, Stored-others,
}
use bandchain_legacy.Store.Set.Turned.{right_turn, left_turn}
use bandchain_legacy.Store.Set.Proper.{
  IsProper-Separate, Apart-turn, Apart-turn_back, IsProper-turn, IsProper-turn_back,
}
use bandchain_legacy.Store.Set.Measured.{left_even, right_even, left_heavy, right_heavy}

-- Which child of a node is higher: the one that a value less or greater than the node's is in.
pub data Leans (less greater : Bool) (hl hr : ℕ) : Type 0 where
  level : hl ≡ 0 → hr ≡ 0 → Leans less greater hl hr
  left_high : less ≡ true → hl ≡ suc hr → Leans less greater hl hr
  right_high : greater ≡ true → hr ≡ suc hl → Leans less greater hl hr

module _ {A : Type 0} (el : Element A) (val : A) where
  -- The higher child of the root is the one that the value is in.
  unfoldable pub Leaning : Tree A → Type 0
  Leaning leaf = Unit {0}
  Leaning (fork i l v r) = Leans (el.less val v) (el.less v val) (height l) (height r)

  -- The height after the value was put in, from what it was before.
  abbrev pub Grown : ℕ → Tree A → Type 0
  Grown before t = (height t ≡ before) ⊎ ((height t ≡ suc before) × Leaning t)

-- What the operators of the elements are to be, besides an order.
pub record IsStrict {A : Type 0} (el : Element A) : Type 0 where
  pub less_asym : (a b : A) → el.less a b ≡ true → el.less b a ≡ false
  pub greater_less : (a b : A) → el.greater a b ≡ el.less b a
  pub equal_same : (a b : A) → el.equal a b ≡ true → a ≡ b

module _ ⦃u : CheckedUint⦄ {A : Type 0} (el : Element A) (str : ℕ → Bytes) (m : StorageMap) where
  -- What a run has made of a tree: one with the same elements in the same order, whose numbers are
  -- the same, while no other node has changed.
  pub record Settled (s : Set A) (t : Tree A) (run : Result ℕ × Set A) : Type 0 where
    pub id : ℕ
    pub after : Set A
    pub tree : Tree A
    pub runs : run ≡ (ok id, after)
    pub stored : Stored el str m after id tree
    pub same : elements tree ≡ elements t
    pub proper : IsProper tree
    pub balanced : IsBalanced tree
    pub apart : (j : ℕ) → Apart j t → Apart j tree
    pub kept :
        (j l r h : ℕ) (v : A)
        → Apart j t
        → Linked el str m s j l r h v
        → Linked el str m after j l r h v
