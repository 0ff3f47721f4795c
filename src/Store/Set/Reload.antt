-- ===== src/Store/Set/Reload.antt =====
-- What the destructor of a set of src/store/set.h writes, and what a new set reads of it.
use bandchain_legacy.Common.{
  ℕ, ◌≡◌, refl, sym, ap, ◌∙◌, false, Bool-cases, inl, inr, Option, none, some, [], ◌∷◌, ◌++◌,
  Indexed, find, ◌==◌, ==_iff, eq_bytes, eq_bytes_self, arith,
}
use bandchain_legacy.Thrown.{Result, ok, >>=-eq-ok}
use bandchain_legacy.Buffer.{Bytes}
use bandchain_legacy.Store.Backend.{StorageMap, get}
use bandchain_legacy.Store.Sides.{get-put, get-del}
use bandchain_legacy.Store.Naming.{IsUnique, IsNaming, index_apart, apart_key}
use bandchain_legacy.Store.Set.{
  SetCacheStatus, unchanged, changed, erased, Node, Element, write_node, flush_node, flush_nodes,
}

ok_eq : {m m' : StorageMap} → ◌≡◌ {A = Result StorageMap} (ok m) (ok m') → m ≡ m'
ok_eq e = cc

module _ {A : Type 0} (el : Element A) (str : ℕ → Bytes) (naming : IsNaming str) (key : Bytes) where
  -- What one node of the cache changes: nothing under another key.
  flush_node-other :
      (i : ℕ) (node : Node A) (status : SetCacheStatus) (j : Bytes) (m m1 : StorageMap)
      → flush_node el str key i node status m ≡ ok m1
      → eq_bytes (key ++ str i) j ≡ false
      → get j m1 ≡ get j m
  unfolding flush_node
  flush_node-other i node unchanged j m m1 h e = ap (get j) (sym (ok_eq h))
  flush_node-other i node changed j m m1 h e =
      get-put (key ++ str i) j (write_node el [] node) m m1 h ∙ rw e refl
  flush_node-other i node erased j m m1 h e = get-del (key ++ str i) j m m1 h ∙ rw e refl

  pub flush_nodes-key :
      (cache : Indexed (Node A)) (m m' : StorageMap)
      → flush_nodes el str key cache m ≡ ok m'
      → get key m' ≡ get key m
  unfolding flush_nodes
  flush_nodes-key [] m m' h = ap (get key) (sym (ok_eq h))
  flush_nodes-key ((i, node) ∷ rest) m m' h =
      let (m1, written, h1) = >>=-eq-ok (flush_node el str key i node node.status m) _ h in
      flush_nodes-key rest m1 m' h1
      ∙ flush_node-other i node node.status key m m1 written (apart_key str naming key i)

  pub flush_nodes-absent :
      (cache : Indexed (Node A)) (m m' : StorageMap) (j : ℕ)
      → flush_nodes el str key cache m ≡ ok m'
      → find j cache ≡ none
      → get (key ++ str j) m' ≡ get (key ++ str j) m
  unfolding flush_nodes find
  flush_nodes-absent [] m m' j h none_j = ap (get (key ++ str j)) (sym (ok_eq h))
  flush_nodes-absent ((i, node) ∷ rest) m m' j h none_j =
      let (m1, written, h1) = >>=-eq-ok (flush_node el str key i node node.status m) _ h in
      let apart : (i == j) ≡ false = ground arith in
      flush_nodes-absent rest m1 m' j h1 (ground arith)
      ∙ flush_node-other i node node.status (key ++ str j) m m1 written
          (index_apart str naming key i j apart)

  -- What a node of the cache leaves under its own key.
  abbrev pub Left : StorageMap → StorageMap → ℕ → Node A → SetCacheStatus → Type 0
  Left m m' j node unchanged = get (key ++ str j) m' ≡ get (key ++ str j) m
  Left m m' j node changed = get (key ++ str j) m' ≡ ok (some (write_node el [] node))
  Left m m' j node erased = get (key ++ str j) m' ≡ ok none

  flush_node-here :
      (j : ℕ) (node : Node A) (status : SetCacheStatus) (m m1 : StorageMap)
      → flush_node el str key j node status m ≡ ok m1
      → Left m m1 j node status
  unfolding flush_node
  flush_node-here j node unchanged m m1 h = ap (get (key ++ str j)) (sym (ok_eq h))
  flush_node-here j node changed m m1 h =
      get-put (key ++ str j) (key ++ str j) (write_node el [] node) m m1 h
      ∙ rw (eq_bytes_self (key ++ str j)) refl
  flush_node-here j node erased m m1 h =
      get-del (key ++ str j) (key ++ str j) m m1 h ∙ rw (eq_bytes_self (key ++ str j)) refl

  Left-on :
      (m m1 m' : StorageMap) (j : ℕ) (node : Node A) (status : SetCacheStatus)
      → get (key ++ str j) m' ≡ get (key ++ str j) m1
      → Left m m1 j node status
      → Left m m' j node status
  Left-on m m1 m' j node unchanged e h = e ∙ h
  Left-on m m1 m' j node changed e h = e ∙ h
  Left-on m m1 m' j node erased e h = e ∙ h

  Left-from :
      (m m1 m' : StorageMap) (j : ℕ) (node : Node A) (status : SetCacheStatus)
      → get (key ++ str j) m1 ≡ get (key ++ str j) m
      → Left m1 m' j node status
      → Left m m' j node status
  Left-from m m1 m' j node unchanged e h = h ∙ e
  Left-from m m1 m' j node changed e h = h
  Left-from m m1 m' j node erased e h = h

  pub flush_nodes-cached :
      (cache : Indexed (Node A)) (m m' : StorageMap) (j : ℕ) (node : Node A)
      → IsUnique cache
      → flush_nodes el str key cache m ≡ ok m'
      → find j cache ≡ some node
      → Left m m' j node node.status
  unfolding flush_nodes find IsUnique
  flush_nodes-cached [] m m' j node unique h found = absurd (cc)
  flush_nodes-cached ((i, node') ∷ rest) m m' j node (alone, unique) h found =
      let (m1, written, h1) = >>=-eq-ok (flush_node el str key i node' node'.status m) _ h in
      elim (Bool-cases (i == j)) [
        | inr e ↦
            Left-from m m1 m' j node node.status
              (flush_node-other i node' node'.status (key ++ str j) m m1 written
                (index_apart str naming key i j e))
              (flush_nodes-cached rest m1 m' j node unique h1 (ground arith))
        | inl e ↦ here m1 written h1 ((==_iff i j).0 e) (node_eq (ground arith))
      ]
    where
      node_eq : {x y : Node A} → ◌≡◌ {A = Option (Node A)} (some x) (some y) → x ≡ y
      node_eq e = cc

      here :
          (m1 : StorageMap)
          → flush_node el str key i node' node'.status m ≡ ok m1
          → flush_nodes el str key rest m1 ≡ ok m'
          → i ≡ j
          → node' ≡ node
          → Left m m' j node node.status
      here m1 written h1 p q =
          Left-on m m1 m' j node node.status (flush_nodes-absent rest m1 m' j h1 (rw (sym p) alone))
            (flush_node-here j node node.status m m1 (rw (sym p, sym q) written))
