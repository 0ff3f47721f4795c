-- ===== src/Store/Set/Reopened.antt =====
-- A set of src/store/set.h that is opened again after its destructor has flushed it.
use bandchain_legacy.Common.{
  ℕ, ◌≡◌, ◌≢◌, refl, sym, ap, ◌∙◌, inl, inr, Option-cases, none, some, [], ◌++◌, find,
  eq_bytes_self,
}
use bandchain_legacy.Thrown.{Thrown, Result, ok, err, >>=-eq-ok}
use bandchain_legacy.Uint256.{CheckedUint}
use bandchain_legacy.Buffer.{Bytes}
use bandchain_legacy.Store.Backend.{StorageMap, Side, get, put}
use bandchain_legacy.Store.Sides.{get-put}
use bandchain_legacy.Store.Naming.{IsNaming, key_apart}
use bandchain_legacy.Store.Set.{
  SetCacheStatus, unchanged, Node, Set, Element, write_node, new, flush_nodes, flush,
}
use bandchain_legacy.Store.Set.Tree.{Tree, node_at}
use bandchain_legacy.Store.Set.Links.{Linked}
use bandchain_legacy.Store.Set.Inserted.Whole.{IsValid}
use bandchain_legacy.Store.Set.Reload.{flush_nodes-key, flush_nodes-absent, flush_nodes-cached}
use bandchain_legacy.Store.Set.Written.{IsCoded, numbers_written}
use bandchain_legacy.Store.Set.Restored.{
  IsFlushable, stored_node-get, stored_node-raw, node_at-uncached, node_at-cached, new_lem,
  Stored-moved,
}
use bandchain_legacy.Store.Set.Flushes.{flush-returns}

module _ ⦃u : CheckedUint⦄ {A : Type 0} (el : Element A) (str : ℕ → Bytes) where
  module _ (naming : IsNaming str) (coded : IsCoded el) (s : Set A) (m m' : StorageMap)
      (ready : IsFlushable el str coded m s) (h : flush el str s m ≡ ok m') where
    abbrev reopened : Set A
    reopened = record s { cache = [] }

    -- The writes behind the one of the counters.
    flushed :
        (m1 : StorageMap) × (put s.base_key (numbers_written s.nonce_node s.nonce_root s.set_size) m
          ≡ ok m1)
        × (flush_nodes el str s.base_key s.cache m1 ≡ ok m')
    unfolding flush
    flushed = >>=-eq-ok _ _ h

    counters_there :
        get s.base_key m' ≡ ok (some (numbers_written s.nonce_node s.nonce_root s.set_size))
    counters_there =
        let (m1, sized, h1) = flushed in
        flush_nodes-key el str naming s.base_key s.cache m1 m' h1
        ∙ get-put s.base_key s.base_key _ m m1 sized
        ∙ rw (eq_bytes_self s.base_key) refl

    counters_aside :
        (j : ℕ) (m1 : StorageMap)
        → put s.base_key (numbers_written s.nonce_node s.nonce_root s.set_size) m ≡ ok m1
        → get (s.base_key ++ str j) m1 ≡ get (s.base_key ++ str j) m
    counters_aside j m1 sized =
        get-put s.base_key (s.base_key ++ str j) _ m m1 sized
        ∙ rw (key_apart str naming s.base_key j) refl

    node_at-absent :
        (j : ℕ) → find j s.cache ≡ none → node_at el str m' reopened j ≡ node_at el str m s j
    unfolding find
    node_at-absent j absent =
        let (m1, sized, h1) = flushed in
        node_at-uncached el str m' reopened j refl
        ∙ stored_node-get el str m m' s.base_key j (
            flush_nodes-absent el str naming s.base_key s.cache m1 m' j h1 absent
            ∙ counters_aside j m1 sized)
        ∙ sym (node_at-uncached el str m s j absent)

    node_at-flushed :
        (j : ℕ) (node : Node A)
        → find j s.cache ≡ some node
        → (status : SetCacheStatus) × (node_at el str m' reopened j
            ≡ ok (record node { status = status }))
    unfolding find write_node
    node_at-flushed j node found =
        let (m1, sized, h1) = flushed in
        let left =
          flush_nodes-cached el str naming s.base_key s.cache m1 m' j node ready.unique h1 found in
        elim (ready.cached j node found) [
          | inl (e, stored) ↦
              let same : get (s.base_key ++ str j) m' ≡ get (s.base_key ++ str j) m1 =
                rw e at left in
              (
                node.status,
                node_at-uncached el str m' reopened j refl
                    ∙ stored_node-get el str m m' s.base_key j (same ∙ counters_aside j m1 sized)
                    ∙ stored,
              )
          | inr (e, fit) ↦
              let there : get (s.base_key ++ str j) m' ≡ ok (some (write_node el [] node)) =
                rw e at left in
              (
                unchanged,
                node_at-uncached el str m' reopened j refl
                    ∙ stored_node-raw el str coded m' s.base_key j node there fit,
              )
        ]

    Linked-reopened :
        (j l r g : ℕ) (v : A) → Linked el str m s j l r g v → Linked el str m' reopened j l r g v
    Linked-reopened j l r g v k = elim (Option-cases (find j s.cache)) [
      | inl absent ↦ record {
        node = k.node;
        here = node_at-absent j absent ∙ k.here;
        left = k.left;
        right = k.right;
        height = k.height;
        val = k.val;
      }
      | inr (node, found) ↦
          let e : k.node ≡ node = node_eq (sym k.here ∙ node_at-cached el str m s j node found) in
          let (status, here) = node_at-flushed j node found in
          record {
            node = record node { status = status };
            here = here;
            left = ap (λ (n : Node A). n.left) (sym e) ∙ k.left;
            right = ap (λ (n : Node A). n.right) (sym e) ∙ k.right;
            height = ap (λ (n : Node A). n.height) (sym e) ∙ k.height;
            val = ap (λ (n : Node A). n.val) (sym e) ∙ k.val;
          }
    ]
      where
        node_eq : {x y : Node A} → ◌≡◌ {A = Result (Node A)} (ok x) (ok y) → x ≡ y
        node_eq p = cc

    missing-absent :
        (j : ℕ) (e : Thrown) → node_at el str m s j ≡ err e → node_at el str m' reopened j ≡ err e
    missing-absent j e q = elim (Option-cases (find j s.cache)) [
      | inl absent ↦ node_at-absent j absent ∙ q
      | inr (node, found) ↦ absurd (clash (sym (node_at-cached el str m s j node found) ∙ q))
    ]
      where
        clash : {n : Node A} → ◌≢◌ {A = Result (Node A)} (ok n) (err e)
        clash p = cc

    new-reopened :
        (t : Tree A)
        → IsValid el str m s t
        → (s' : Set A) × (new s.base_key m' ≡ ok s') × IsValid el str m' s' t
    new-reopened t valid = (
      reopened,
      new_lem el str s.base_key s.nonce_node s.nonce_root s.set_size m' ready.nonce_node
          ready.nonce_root ready.set_size counters_there,
      record {
        stored = Stored-moved el str m m' s reopened s.nonce_root t Linked-reopened valid.stored;
        proper = valid.proper;
        search = valid.search;
        balanced = valid.balanced;
        counts = valid.counts;
        missing = λ j p. let (e, q) = valid.missing j p in (e, missing-absent j e q);
        apart = valid.apart;
      },
    )

  -- Where a side of the storage is selected, a valid set with counters below 2 ^ 64 and no number
  -- cached twice, whose cached nodes are unchanged and as stored, or changed with fields that
  -- fit, is flushed without an exception, and a new set at its key is valid for the same tree,
  -- where elements of the type are read back from what they are written as, and different numbers
  -- have different digits, at least one each.
  pub new-flush :
      (naming : IsNaming str) (coded : IsCoded el) (side : Side) (t : Tree A) (s : Set A)
      (m : StorageMap)
      → m.current ≡ some side
      → IsFlushable el str coded m s
      → IsValid el str m s t
      → (m' : StorageMap) × (s' : Set A) × (flush el str s m ≡ ok m')
        × (new s.base_key m' ≡ ok s')
        × IsValid el str m' s' t
  new-flush naming coded side t s m selected ready valid =
      let (m', h) = flush-returns el str s m side selected in
      let (s', opened, valid') = new-reopened naming coded s m m' ready h t valid in
      (m', s', h, opened, valid')
