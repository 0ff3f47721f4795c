-- ===== src/Store/Set.antt =====
-- src/store/set.h: a set whose elements are the nodes of an AVL tree, each kept under the number
-- of its node in the key-value storage. A reference to a node is its number: what is written
-- through it changes the node that the cache has. `str` is `std::to_string`.
pub mod Rotate
pub mod Insert
pub mod Delete
pub mod Lookup
pub mod Iterate
pub mod Tree
pub mod Parts
pub mod Members
pub mod Links
pub mod Stored
pub mod Turned
pub mod Proper
pub mod Measured
pub mod Balance
pub mod Sorted
pub mod Steady
pub mod Inserted
pub mod Reached
pub mod Depth
pub mod Reload
pub mod Written
pub mod Restored
pub mod Flushes
pub mod Reopened
pub mod Ends
use bandchain_legacy.Common.{
  ℕ, zero, suc, ◌+◌, ◌%◌, ◌^◌, Bool, true, false, Option, none, some, [], ◌∷◌, ◌++◌, Indexed, find,
  write_at, emplace,
}
use bandchain_legacy.Thrown
use bandchain_legacy.Thrown.{Result, ok, err, error}
use bandchain_legacy.Uint256.{CheckedUint}
use bandchain_legacy.Buffer.{Bytes, Reader, uint64}
use bandchain_legacy.Buffer.Values.{write_int, read_int}
use bandchain_legacy.Store.Backend.{StorageMap, get, put, del}
use bandchain_legacy.Ledger.Action.{Action, ◌>>=◌, ◌>>◌, pure, lift, modify}

pub data SetCacheStatus : Type 0 where
  unchanged changed erased : SetCacheStatus

pub record Node (A : Type 0) : Type 0 where
  pub left : ℕ
  pub right : ℕ
  pub height : ℕ
  pub parent : ℕ
  pub val : A
  pub status : SetCacheStatus

pub record Set (A : Type 0) : Type 0 where
  pub base_key : Bytes
  pub nonce_node : ℕ
  pub nonce_root : ℕ
  pub set_size : ℕ
  pub cache : Indexed (Node A)

-- What the set asks of the type of its elements.
pub record Element (A : Type 0) : Type 0 where
  pub write : Bytes → A → Bytes
  pub read : Reader A
  pub initial : A
  pub less : A → A → Bool
  pub greater : A → A → Bool
  pub equal : A → A → Bool

module _ {A : Type 0} (el : Element A) where
  -- `operator<<` of a node
  unfoldable pub write_node : Bytes → Node A → Bytes
  write_node buf node =
      el.write
        (write_int (write_int (write_int (write_int buf node.left) node.right) node.height)
          node.parent)
        node.val

  -- `operator>>` of a node, whose status is then the initial one.
  unfoldable pub read_node : ⦃u : CheckedUint⦄ → Reader (Node A)
  read_node buf = Thrown.◌>>=◌ (read_int uint64 buf) λ l. Thrown.◌>>=◌ (read_int uint64 l.1) λ r.
      Thrown.◌>>=◌ (read_int uint64 r.1) λ h. Thrown.◌>>=◌ (read_int uint64 h.1) λ p.
        Thrown.◌>>=◌ (el.read p.1) λ v. ok (
          record {
            left = l.0;
            right = r.0;
            height = h.0;
            parent = p.0;
            val = v.0;
            status = unchanged;
          },
          v.1,
        )

-- `Set(storage, key)`
unfoldable pub new : {A : Type 0} → ⦃u : CheckedUint⦄ → Bytes → StorageMap → Result (Set A)
new key m = Thrown.◌>>=◌ (get key m) λ result. elim result [
  | none ↦ ok (record { base_key = key; nonce_node = 0; nonce_root = 0; set_size = 0; cache = [] })
  | some raw ↦ Thrown.◌>>=◌ (read_int uint64 raw) λ n. Thrown.◌>>=◌ (read_int uint64 n.1) λ r.
      Thrown.◌>>=◌ (read_int uint64 r.1) λ s.
        ok (record {
          base_key = key;
          nonce_node = n.0;
          nonce_root = r.0;
          set_size = s.0;
          cache = [];
        })
]

module _ {A : Type 0} (el : Element A) (str : ℕ → Bytes) where
  -- What the destructor does with a cached node while the storage is flushing.
  unfoldable pub flush_node : Bytes → ℕ → Node A → SetCacheStatus → StorageMap → Result StorageMap
  unfolding write_node
  flush_node key id node unchanged m = ok m
  flush_node key id node changed m = put (key ++ str id) (write_node el [] node) m
  flush_node key id node erased m = del (key ++ str id) m

  unfoldable pub flush_nodes : Bytes → Indexed (Node A) → StorageMap → Result StorageMap
  unfolding flush_node
  flush_nodes key [] m = ok m
  flush_nodes key ((id, node) ∷ rest) m =
      Thrown.◌>>=◌ (flush_node key id node node.status m) (flush_nodes key rest)

  -- `~Set`
  unfoldable pub flush : Set A → StorageMap → Result StorageMap
  unfolding flush_nodes
  flush s m =
      Thrown.◌>>=◌
        (put s.base_key (write_int (write_int (write_int [] s.nonce_node) s.nonce_root) s.set_size)
          m)
        (flush_nodes s.base_key s.cache)

module _ {A : Type 0} where
  -- A write through the reference to a node that `get_node` returned.
  unfoldable pub set_node : ℕ → Node A → Set A → Set A
  set_node id node s = record s { cache = write_at id node s.cache }

  unfoldable pub add_node : ℕ → Node A → Set A → Set A
  add_node id node s = record s { cache = emplace id node s.cache }

  abbrev pub read_set : {B : Type 0} → (Set A → B) → Action (Set A) B
  read_set f s = (ok (f s), s)

  -- `newNode`
  unfoldable pub new_node : A → Action (Set A) ℕ
  unfolding add_node
  new_node val s =
      let id = (s.nonce_node + 1) % 2 ^ 64 in
      (
        ok id,
        add_node id
            (record { left = 0; right = 0; height = 1; parent = 0; val = val; status = changed })
            (record s { nonce_node = id; set_size = (s.set_size + 1) % 2 ^ 64 }),
      )

module _ ⦃u : CheckedUint⦄ {A : Type 0} (el : Element A) (str : ℕ → Bytes) (m : StorageMap) where
  -- The node that the storage has under a number.
  unfoldable pub stored_node : Bytes → ℕ → Result (Node A)
  unfolding read_node
  stored_node key id = Thrown.◌>>=◌ (get (key ++ str id) m) λ result. elim result [
    | none ↦ err error
    | some raw ↦ Thrown.◌>>=◌ (read_node el raw) λ p. ok p.0
  ]

  -- `getNode` of a node that is not in the cache.
  unfoldable pub fetch_node : ℕ → Result (Node A) → Action (Set A) (Node A)
  unfolding add_node
  fetch_node id (ok node) s = (ok node, add_node id node s)
  fetch_node id (err e) s = (err e, s)

  -- `getNode`
  unfoldable pub get_node : ℕ → Action (Set A) (Node A)
  unfolding fetch_node stored_node
  get_node id s = elim (find id s.cache) [
    | some node ↦ (ok node, s)
    | none ↦ fetch_node id (stored_node s.base_key id) s
  ]

  -- `getNode(id)`, and writes to the node.
  unfoldable pub update : ℕ → (Node A → Node A) → Action (Set A) (Unit {0})
  unfolding get_node set_node
  update id f = do node ← get_node id; modify (set_node id (f node))

  -- `getHeight`
  unfoldable pub get_height : ℕ → Action (Set A) ℕ
  unfolding get_node
  get_height id s = elim id [
    | zero ↦ (ok 0, s)
    | suc n ↦ (get_node (suc n) >>= λ node. pure node.height) s
  ]

  -- `updateParent`
  unfoldable pub update_parent : ℕ → ℕ → Action (Set A) (Unit {0})
  unfolding update
  update_parent parent child s = elim child [
    | zero ↦ (ok tt, s)
    | suc n ↦ update (suc n) (λ node. record node { parent = parent }) s
  ]
