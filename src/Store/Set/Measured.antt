-- ===== src/Store/Set/Measured.antt =====
-- The lines of `insertNode` of src/store/set.h from the update of the height to `getBalance`.
use bandchain_legacy.Common.{
  ℕ, suc, ◌^◌, ◌<◌, ◌≤◌, ◌≡◌, refl, sym, ◌∙◌, false, true, not, ◌&&◌, ltb, arith,
}
use bandchain_legacy.Uint256.{CheckedUint}
use bandchain_legacy.Thrown.{ok}
use bandchain_legacy.Buffer.{Bytes}
use bandchain_legacy.Store.Backend.{StorageMap}
use bandchain_legacy.Ledger.Action.{>>=-step}
use bandchain_legacy.Store.Set.{Set, Element, changed, get_node, update, get_height}
use bandchain_legacy.Store.Set.Tree.{Tree, fork, height}
use bandchain_legacy.Store.Set.Links.{
  Linked, Keeps, KeepsOther, Keeps-trans, get_node-Keeps, update-Keeps, get_height-Keeps,
  Present-Keeps,
}
use bandchain_legacy.Store.Set.Rotate.{update_height, get_balance, compare_heights}
use bandchain_legacy.Store.Set.Rotate.Finish.{above, update_height_links}
use bandchain_legacy.Store.Set.Parts.{Apart}
use bandchain_legacy.Store.Set.Insert.{insert_left, balance_inserted}
use bandchain_legacy.Store.Set.Stored.{
  above_height, Stored, Stored-Present, Stored-other, Stored-Keeps,
}

-- The tests on the pair of `getBalance`.
module _ (a b : ℕ) where
  pub left_even : a ≤ suc b → ((compare_heights a b).0 && ltb 1 (compare_heights a b).1) ≡ false
  left_even h = ground arith

  pub right_even :
      b ≤ suc a → (not (compare_heights a b).0 && ltb 1 (compare_heights a b).1) ≡ false
  right_even h = ground arith

  pub left_heavy :
      a ≡ suc (suc b) → ((compare_heights a b).0 && ltb 1 (compare_heights a b).1) ≡ true
  left_heavy h = ground arith

  pub right_heavy :
      b ≡ suc (suc a) → (not (compare_heights a b).0 && ltb 1 (compare_heights a b).1) ≡ true
  right_heavy h = ground arith

module _ ⦃u : CheckedUint⦄ {A : Type 0} (el : Element A) (str : ℕ → Bytes) (m : StorageMap) where
  get_balance_run :
      (s : Set A) (i : ℕ) (l r : Tree A) (v : A)
      → Stored el str m s (suc i) (fork i l v r)
      → (s' : Set A) × (get_balance el str m (suc i) s
          ≡ (ok (compare_heights (height l) (height r)), s'))
        × Keeps el str m s s'
  unfolding get_balance Stored
  get_balance_run s i l r v (e, (a, b, k, hl, hr)) =
      let (node, s1, got, node_l, node_r, _, keep1) = get_node-Keeps el str m s (suc i) a b _ v k in
      let (s2, got_l, keep2) = get_height-Keeps el str m s1 node.left (height l) (
        Present-Keeps el str m s s1 node.left (height l) keep1
          (rw node_l (Stored-Present el str m s a l hl))) in
      let keep02 : Keeps el str m s s2 = Keeps-trans el str m s s1 s2 keep1 keep2 in
      let (s3, got_r, keep3) = get_height-Keeps el str m s2 node.right (height r) (
        Present-Keeps el str m s s2 node.right (height r) keep02
          (rw node_r (Stored-Present el str m s b r hr))) in
      (
        s3,
        >>=-step (get_node el str m (suc i)) _ got
            ∙ >>=-step (get_height el str m node.left) _ got_l
            ∙ >>=-step (get_height el str m node.right) _ got_r,
        Keeps-trans el str m s s2 s3 keep02 keep3,
      )

  -- A node whose children have their heights gets its own, and the heights are compared.
  pub measure :
      (s : Set A) (i a b h : ℕ) (l r : Tree A) (v val : A)
      → Linked el str m s (suc i) a b h v
      → Stored el str m s a l
      → Stored el str m s b r
      → Apart (suc i) l
      → Apart (suc i) r
      → height (fork i l v r) < 2 ^ 64
      → (s' : Set A) × (balance_inserted el str m (suc i) val s
          ≡ insert_left el str m (suc i) val (compare_heights (height l) (height r)) s')
        × Stored el str m s' (suc i) (fork i l v r)
        × KeepsOther el str m (suc i) s s'
  unfolding balance_inserted Stored
  measure s i a b h l r v val k hl hr nl nr small =
      let (s1, run1, k1, other) =
        update_height_links el str m s (suc i) a b h (height l) (height r) v k
          (Stored-Present el str m s a l hl) (Stored-Present el str m s b r hr) in
      let stored1 : Stored el str m s1 (suc i) (fork i l v r) = (
        refl,
        (
          a,
          b,
          rw (sym (above_height l r i v small)) k1,
          Stored-other el str m s s1 (suc i) a l other nl hl,
          Stored-other el str m s s1 (suc i) b r other nr hr,
        ),
      ) in
      let (s2, run2, keep2) =
        update-Keeps el str m s1 (suc i) a b (above (height l) (height r)) v
          (λ n. record n { status = changed }) (λ n. (refl, refl, refl, refl)) k1 in
      let stored2 = Stored-Keeps el str m s1 s2 (suc i) (fork i l v r) keep2 stored1 in
      let (s3, run3, keep3) = get_balance_run s2 i l r v stored2 in
      (
        s3,
        >>=-step (update_height el str m (suc i)) _ run1
            ∙ >>=-step (update el str m (suc i) _) _ run2
            ∙ >>=-step (get_balance el str m (suc i)) _ run3,
        Stored-Keeps el str m s2 s3 (suc i) (fork i l v r) keep3 stored2,
        λ j x y z w n p. keep3 j x y z w (keep2 j x y z w (other j x y z w n p)),
      )
