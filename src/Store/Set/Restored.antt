-- ===== src/Store/Set/Restored.antt =====
-- What a set of src/store/set.h reads of its storage.
use bandchain_legacy.Common.{
  ℕ, suc, ◌^◌, ◌<◌, ◌≡◌, refl, sym, ◌⊎◌, none, some, [], ◌++◌, append-nil, find, arith,
}
use bandchain_legacy.Thrown.{ok}
use bandchain_legacy.Uint256.{CheckedUint}
use bandchain_legacy.Buffer.{Bytes, uint64, bits_of}
use bandchain_legacy.Buffer.ValuesRoundTrip.{read_int-write_int}
use bandchain_legacy.Store.Backend.{StorageMap, get}
use bandchain_legacy.Store.Naming.{IsUnique}
use bandchain_legacy.Store.Set.{
  unchanged, changed, Node, Set, Element, write_node, new, stored_node, get_node, fetch_node,
}
use bandchain_legacy.Store.Set.Tree.{Tree, leaf, fork, node_at}
use bandchain_legacy.Store.Set.Links.{Linked}
use bandchain_legacy.Store.Set.Stored.{Stored}
use bandchain_legacy.Store.Set.Written.{
  IsCoded, IsFit, w, numbers_written, numbers_written-append, read_node-write_node,
}

module _ ⦃u : CheckedUint⦄ {A : Type 0} (el : Element A) (str : ℕ → Bytes) where
  -- What is stored of a set, and what of it only the cache has.
  pub record IsFlushable (coded : IsCoded el) (m : StorageMap) (s : Set A) : Type 0 where
    pub unique : IsUnique s.cache
    pub nonce_node : s.nonce_node < 2 ^ 64
    pub nonce_root : s.nonce_root < 2 ^ 64
    pub set_size : s.set_size < 2 ^ 64
    pub cached :
        (j : ℕ) (node : Node A)
        → find j s.cache ≡ some node
        → ((node.status ≡ unchanged) × (stored_node el str m s.base_key j ≡ ok node))
          ⊎ ((node.status ≡ changed) × IsFit el coded node)

  pub stored_node-get :
      (m m' : StorageMap) (key : Bytes) (j : ℕ)
      → get (key ++ str j) m' ≡ get (key ++ str j) m
      → stored_node el str m' key j ≡ stored_node el str m key j
  unfolding stored_node
  stored_node-get m m' key j e = rw e refl

  pub stored_node-raw :
      (coded : IsCoded el) (m : StorageMap) (key : Bytes) (j : ℕ) (node : Node A)
      → get (key ++ str j) m ≡ ok (some (write_node el [] node))
      → IsFit el coded node
      → stored_node el str m key j ≡ ok (record node { status = unchanged })
  unfolding stored_node
  stored_node-raw coded m key j node e fit = rw (e, read_node-write_node el coded node fit) refl

  pub node_at-uncached :
      (m : StorageMap) (s : Set A) (j : ℕ)
      → find j s.cache ≡ none
      → node_at el str m s j ≡ stored_node el str m s.base_key j
  unfolding node_at get_node fetch_node
  node_at-uncached m s j e = ground (arith, e)

  pub node_at-cached :
      (m : StorageMap) (s : Set A) (j : ℕ) (node : Node A)
      → find j s.cache ≡ some node
      → node_at el str m s j ≡ ok node
  unfolding node_at get_node
  node_at-cached m s j node e = rw (node_at, get_node, e) refl

  pub new_lem :
      (key : Bytes) (n r z : ℕ) (m : StorageMap)
      → n < 2 ^ 64
      → r < 2 ^ 64
      → z < 2 ^ 64
      → get key m ≡ ok (some (numbers_written n r z))
      → new {A = A} key m
        ≡ ok (record { base_key = key; nonce_node = n; nonce_root = r; set_size = z; cache = [] })
  unfolding new bits_of
  new_lem key n r z m fn fr fz h =
      rw
        (
          h,
          numbers_written-append n r z,
          read_int-write_int uint64 n _ fn,
          read_int-write_int uint64 r _ fr,
          sym (append-nil (w z)),
          read_int-write_int uint64 z [] fz,
        )
        refl

  -- The tree of another set and another storage, where no node reads differently.
  pub Stored-moved :
      (m m' : StorageMap) (s s' : Set A) (id : ℕ) (t : Tree A)
      → ((j l r h : ℕ) (v : A) → Linked el str m s j l r h v → Linked el str m' s' j l r h v)
      → Stored el str m s id t
      → Stored el str m' s' id t
  unfolding Stored
  Stored-moved m m' s s' id leaf moved h = h
  Stored-moved m m' s s' id (fork i l v r) moved (e, (a, b, k, hl, hr)) = (
    e,
    (
      a,
      b,
      moved (suc i) a b _ v k,
      Stored-moved m m' s s' a l moved hl,
      Stored-moved m m' s s' b r moved hr,
    ),
  )
