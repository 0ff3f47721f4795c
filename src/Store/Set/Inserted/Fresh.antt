-- ===== src/Store/Set/Inserted/Fresh.antt =====
-- The new node of an insertion into a set of src/store/set.h.
use bandchain_legacy.Common.{
  ℕ, suc, ◌+◌, ◌%◌, ◌^◌, ◌<◌, ◌≡◌, ◌≢◌, refl, sym, ap, ◌∙◌, inl, inr, some, find, find-emplace,
  Option-cases, ◌==◌, ==_self, if◌then◌else◌, arith,
}
use bandchain_legacy.Thrown.{Thrown, Result, ok, err}
use bandchain_legacy.Uint256.{CheckedUint}
use bandchain_legacy.Buffer.{Bytes}
use bandchain_legacy.Store.Backend.{StorageMap}
use bandchain_legacy.Store.Set.{
  Node, Set, Element, changed, add_node, fetch_node, get_node, new_node,
}
use bandchain_legacy.Store.Set.Tree.{node_at}
use bandchain_legacy.Store.Set.Links.{Linked, KeepsOther}
use bandchain_legacy.Store.Set.Inserted.{Counted}

module _ ⦃u : CheckedUint⦄ {A : Type 0} (el : Element A) (str : ℕ → Bytes) (m : StorageMap) where
  node_at-emplaced :
      (s : Set A) (i j : ℕ) (e : Thrown) (node : Node A)
      → node_at el str m s i ≡ err e
      → node_at el str m (add_node i node s) j ≡ (if i == j then ok node else node_at el str m s j)
  unfolding node_at get_node fetch_node add_node
  node_at-emplaced s i j e node free = elim (Option-cases (find i s.cache)) [
    | inr (n, q) ↦ absurd (clash (sym (cached q) ∙ free))
    | inl q ↦ ground (arith, find-emplace i j node s.cache q)
  ]
    where
      cached : {n : Node A} → find i s.cache ≡ some n → node_at el str m s i ≡ ok n
      cached q = rw (node_at, get_node, q) refl

      clash : {n : Node A} → ◌≢◌ {A = Result (Node A)} (ok n) (err e)
      clash p = cc

  node_at-counters :
      (s : Set A) (n k j : ℕ)
      → node_at el str m (record s { nonce_node = n; set_size = k }) j ≡ node_at el str m s j
  unfolding node_at get_node fetch_node
  node_at-counters s n k j = ground arith

  -- A new node: it stands under the next number, and nothing else has changed.
  module _ (s : Set A) (val : A) (e : Thrown)
      (free : node_at el str m s (suc s.nonce_node) ≡ err e) where
    abbrev fresh : Node A
    fresh = record { left = 0; right = 0; height = 1; parent = 0; val = val; status = changed }

    abbrev counted_on : Set A
    counted_on = record s { nonce_node = suc s.nonce_node; set_size = suc s.set_size }

    abbrev with_fresh : Set A
    with_fresh = add_node (suc s.nonce_node) fresh counted_on

    node_at-with_fresh :
        (j : ℕ)
        → node_at el str m with_fresh j
          ≡ (if suc s.nonce_node == j then ok fresh else node_at el str m s j)
    node_at-with_fresh j =
        node_at-emplaced counted_on (suc s.nonce_node) j e fresh
          (node_at-counters s (suc s.nonce_node) (suc s.set_size) (suc s.nonce_node) ∙ free)
        ∙ ap (λ (r : Result (Node A)). if suc s.nonce_node == j then ok fresh else r)
            (node_at-counters s (suc s.nonce_node) (suc s.set_size) j)

    node_at-elsewhere :
        (j : ℕ) → suc s.nonce_node ≢ j → node_at el str m with_fresh j ≡ node_at el str m s j
    node_at-elsewhere j apart = node_at-with_fresh j ∙ ground (arith, apart)

    pub new_node_lem :
        suc s.nonce_node < 2 ^ 64
        → suc s.set_size < 2 ^ 64
        → (s' : Set A) × (new_node val s ≡ (ok (suc s.nonce_node), s'))
          × Linked el str m s' (suc s.nonce_node) 0 0 1 val
          × KeepsOther el str m (suc s.nonce_node) s s'
          × Counted el str m s s' 1
    unfolding new_node add_node
    new_node_lem small room =
        let next : (s.nonce_node + 1) % 2 ^ 64 ≡ suc s.nonce_node = omega arith in
        let more : (s.set_size + 1) % 2 ^ 64 ≡ suc s.set_size = omega arith in
        (
          with_fresh,
          rw (next, more) refl,
          record {
            node = fresh;
            here = node_at-with_fresh (suc s.nonce_node) ∙ rw (==_self (suc s.nonce_node)) refl;
            left = refl;
            right = refl;
            height = refl;
            val = refl;
          },
          λ j l r h v apart k. record {
            node = k.node;
            here = node_at-elsewhere j apart ∙ k.here;
            left = k.left;
            right = k.right;
            height = k.height;
            val = k.val;
          },
          record {
            nonce_node = omega arith;
            nonce_root = refl;
            set_size = omega arith;
            missing = λ j x apart h. node_at-elsewhere j (λ p. apart (omega (arith, p))) ∙ h;
          },
        )
