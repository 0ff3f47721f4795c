-- ===== src/Store/Set/Flushes.antt =====
-- The destructor of a set of src/store/set.h ends without an exception, while a side of the storage is
-- selected.
use bandchain_legacy.Common.{ℕ, ◌≡◌, refl, some, [], ◌∷◌, ◌++◌, Indexed, insert, erase}
use bandchain_legacy.Thrown.{Result, ok}
use bandchain_legacy.Buffer.{Bytes}
use bandchain_legacy.Store.Backend.{
  StorageMap, Side, check_side, apply_side, side_cache, set_side, put, del,
}
use bandchain_legacy.Buffer.Values.{write_int}
use bandchain_legacy.Store.Set.{
  SetCacheStatus, unchanged, changed, erased, Node, Set, Element, flush_node, flush_nodes, flush,
}

-- A write returns a storage with the same side.
abbrev Returns : Side → Result StorageMap → Type 0
Returns side r = (m' : StorageMap) × (r ≡ ok m') × (m'.current ≡ some side)

put-Returns :
    (k raw : Bytes) (m : StorageMap) (side : Side)
    → m.current ≡ some side
    → Returns side (put k raw m)
unfolding put
put-Returns k raw m check_side h =
    (set_side check_side (insert k raw (side_cache check_side m)) m, rw h refl, h)
put-Returns k raw m apply_side h =
    (set_side apply_side (insert k raw (side_cache apply_side m)) m, rw h refl, h)

del-Returns :
    (k : Bytes) (m : StorageMap) (side : Side) → m.current ≡ some side → Returns side (del k m)
unfolding del
del-Returns k m check_side h =
    (set_side check_side (erase k (side_cache check_side m)) m, rw h refl, h)
del-Returns k m apply_side h =
    (set_side apply_side (erase k (side_cache apply_side m)) m, rw h refl, h)

module _ {A : Type 0} (el : Element A) (str : ℕ → Bytes) (key : Bytes) where
  flush_node-Returns :
      (i : ℕ) (node : Node A) (status : SetCacheStatus) (m : StorageMap) (side : Side)
      → m.current ≡ some side
      → Returns side (flush_node el str key i node status m)
  unfolding flush_node
  flush_node-Returns i node unchanged m side h = (m, refl, h)
  flush_node-Returns i node changed m side h = put-Returns (key ++ str i) _ m side h
  flush_node-Returns i node erased m side h = del-Returns (key ++ str i) m side h

  flush_nodes-Returns :
      (cache : Indexed (Node A)) (m : StorageMap) (side : Side)
      → m.current ≡ some side
      → Returns side (flush_nodes el str key cache m)
  unfolding flush_nodes
  flush_nodes-Returns [] m side h = (m, refl, h)
  flush_nodes-Returns ((i, node) ∷ rest) m side h =
      let (m1, written, h1) = flush_node-Returns i node node.status m side h in
      let (m', more, h') = flush_nodes-Returns rest m1 side h1 in (m', rw written more, h')

pub flush-returns :
    {A : Type 0} (el : Element A) (str : ℕ → Bytes) (s : Set A) (m : StorageMap) (side : Side)
    → m.current ≡ some side
    → (m' : StorageMap) × (flush el str s m ≡ ok m')
unfolding flush
flush-returns el str s m side h =
    let (m1, written, h1) =
      put-Returns s.base_key
        (write_int (write_int (write_int [] s.nonce_node) s.nonce_root) s.set_size) m side h in
    let (m', more, _) = flush_nodes-Returns el str s.base_key s.cache m1 side h1 in
    (m', rw written more)
