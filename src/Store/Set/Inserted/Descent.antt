-- ===== src/Store/Set/Inserted/Descent.antt =====
-- `insertNode` of src/store/set.h on a tree.
use bandchain_legacy.Common.{
  ℕ, zero, suc, ◌^◌, ◌<◌, ◌≡◌, refl, ap, ◌∙◌, true, false, inl, inr, Bool-cases, arith,
}
use bandchain_legacy.Thrown.{Thrown, ok, err}
use bandchain_legacy.Uint256.{CheckedUint}
use bandchain_legacy.Buffer.{Bytes}
use bandchain_legacy.Store.Backend.{StorageMap}
use bandchain_legacy.Ledger.Action.{◌>>=◌}
use bandchain_legacy.Store.Set.{Node, Set, Element, get_node, new_node}
use bandchain_legacy.Store.Set.Tree.{
  Tree, leaf, fork, depth, IsSearch, IsOrder, node_at, get_node_lem, height,
}
use bandchain_legacy.Store.Set.Links.{Alike-Keeps}
use bandchain_legacy.Store.Set.Parts.{Apart}
use bandchain_legacy.Store.Set.Insert.{insert_node}
use bandchain_legacy.Store.Set.Stored.{IsBalanced, IsProper, Stored, Stored-Keeps}
use bandchain_legacy.Store.Set.Balance.{IsStrict}
use bandchain_legacy.Store.Set.Inserted.{Inserted}
use bandchain_legacy.Store.Set.Inserted.Attach.{attach}
use bandchain_legacy.Store.Set.Inserted.Below.{Inserted-Alike, Inserted-leaf, Inserted-here}
use bandchain_legacy.Store.Set.Inserted.Sides.{put_left, put_right}

module _ ⦃u : CheckedUint⦄ {A : Type 0} (el : Element A) (str : ℕ → Bytes) (m : StorageMap) where
  Apart-number : {n n' : ℕ} (t : Tree A) → n ≡ n' → Apart (suc n') t → Apart (suc n) t
  Apart-number t e h = rw e h

  call_leaf :
      (fuel id : ℕ) (val : A) (s : Set A)
      → id ≡ 0
      → insert_node el str m (suc fuel) id val s ≡ new_node val s
  unfolding insert_node
  call_leaf fuel id val s e = rw e refl

  -- One call of `insertNode`, on each outcome of the tests.
  module _ (val v : A) (fuel i child : ℕ) (s s1 : Set A) (node : Node A)
      (got : get_node el str m (suc i) s ≡ (ok node, s1)) (val_eq : node.val ≡ v) where
    call_left :
        node.left ≡ child
        → el.less val v ≡ true
        → insert_node el str m (suc fuel) (suc i) val s
          ≡ (insert_node el str m fuel child val >>= λ top.
                attach el str m (suc i) top val (λ x. record x { left = top }))
              s1
    unfolding insert_node
    call_left at h =
        let h' : el.less val node.val ≡ true = rw val_eq h in rw (insert_node, got, h', at) refl

    call_right :
        node.right ≡ child
        → el.less val v ≡ false
        → el.greater val v ≡ true
        → insert_node el str m (suc fuel) (suc i) val s
          ≡ (insert_node el str m fuel child val >>= λ top.
                attach el str m (suc i) top val (λ x. record x { right = top }))
              s1
    unfolding insert_node
    call_right at h g =
        let h' : el.less val node.val ≡ false = rw val_eq h in
        let g' : el.greater val node.val ≡ true = rw val_eq g in
        rw (insert_node, got, h', g', at) refl

    call_here :
        el.less val v ≡ false
        → el.greater val v ≡ false
        → insert_node el str m (suc fuel) (suc i) val s ≡ (ok (suc i), s1)
    unfolding insert_node
    call_here h g =
        let h' : el.less val node.val ≡ false = rw val_eq h in
        let g' : el.greater val node.val ≡ false = rw val_eq g in rw (insert_node, got, h', g') refl

  module _ (order : IsOrder el) (strict : IsStrict el) (val : A) where
    pub insert_node_lem :
        (fuel id : ℕ) (t : Tree A) (s : Set A) (e : Thrown)
        → depth t < fuel
        → Stored el str m s id t
        → IsProper t
        → IsSearch el t
        → IsBalanced t
        → node_at el str m s (suc s.nonce_node) ≡ err e
        → Apart (suc s.nonce_node) t
        → suc s.nonce_node < 2 ^ 64
        → suc s.set_size < 2 ^ 64
        → suc (depth t) < 2 ^ 64
        → Inserted el str m val s t (insert_node el str m fuel id val s)
    unfolding Stored IsProper IsSearch IsBalanced Apart depth
    insert_node_lem zero id t s e enough _ _ _ _ _ _ _ _ _ = absurd (omega arith)
    insert_node_lem (suc fuel) id leaf s e enough at _ _ _ free _ small room _ =
        Inserted-Alike el str m val s s leaf (new_node val s) _
          (record { set_size = refl; nonce_node = refl; nonce_root = refl; nodes = λ j. refl })
          (call_leaf fuel id val s at) (Inserted-leaf el str m val s e free small room)
    insert_node_lem (suc fuel) id (fork i l v r) s e enough (at, (a, b, k, hl, hr)) proper
          (below, above, sl, sr) balanced free unused small room deep =
        let (s1, got, same) = get_node_lem el str m s (suc i) k.node k.here in
        let keep = Alike-Keeps el str m s s1 same in
        let k1 = keep (suc i) a b (height (fork i l v r)) v k in
        let hl1 = Stored-Keeps el str m s s1 a l keep hl in
        let hr1 = Stored-Keeps el str m s s1 b r keep hr in
        let unused1 : Apart (suc s1.nonce_node) (fork i l v r) =
          Apart-number (fork i l v r) same.nonce_node unused in
        let free1 : node_at el str m s1 (suc s1.nonce_node) ≡ err e =
          same.nodes (suc s1.nonce_node)
          ∙ ap (λ (n : ℕ). node_at el str m s (suc n)) same.nonce_node
          ∙ free in
        let small1 : suc s1.nonce_node < 2 ^ 64 = omega (arith, same.nonce_node) in
        let room1 : suc s1.set_size < 2 ^ 64 = omega (arith, same.set_size) in
        let on = Inserted-Alike el str m val s s1 (fork i l v r) in
        elim (Bool-cases (el.less val v)) [
          | inl p ↦ on _ _ same (rw at (call_left val v fuel i a s s1 k.node got k.val k.left p)) (
              put_left el str m order strict val v s1 i a b fuel l r k1 proper balanced unused1 deep
                hr1 p above
                (insert_node_lem fuel a l s1 e (omega arith) hl1 proper.3 sl balanced.2 free1
                  unused1.1 small1 room1 (omega arith)))
          | inr p ↦ elim (Bool-cases (el.less v val)) [
            | inl q ↦
                on _ _ same
                  (rw at (
                    call_right val v fuel i b s s1 k.node got k.val k.right p
                      (strict.greater_less val v ∙ q)))
                  (put_right el str m order strict val v s1 i a b fuel l r k1 proper balanced
                    unused1 deep hl1 q below
                    (insert_node_lem fuel b r s1 e (omega arith) hr1 proper.4 sr balanced.3 free1
                      unused1.2 small1 room1 (omega arith)))
            | inr q ↦
                on _ _ same
                  (rw at (
                    call_here val v fuel i a s s1 k.node got k.val p
                      (strict.greater_less val v ∙ q)))
                  (Inserted-here el str m order strict val v s1 i l r (refl, (a, b, k1, hl1, hr1))
                    proper balanced unused1 below p q)
          ]
        ]
