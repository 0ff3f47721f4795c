-- ===== src/Store/Set/Inserted/Attach.antt =====
-- The lines of `insertNode` of src/store/set.h behind its recursive call: the subtree that the call
-- returns is put in place.
use bandchain_legacy.Common.{ℕ, suc, ◌^◌, max, ◌<◌, ◌≤◌, ◌≡◌, refl, ◌∙◌, true}
use bandchain_legacy.Thrown.{ok}
use bandchain_legacy.Uint256.{CheckedUint}
use bandchain_legacy.Buffer.{Bytes}
use bandchain_legacy.Store.Backend.{StorageMap}
use bandchain_legacy.Ledger.Action.{Action, ◌>>◌, >>=-step}
use bandchain_legacy.Store.Set.{Node, Set, Element, update, update_parent}
use bandchain_legacy.Store.Set.Tree.{Tree, fork, height}
use bandchain_legacy.Store.Set.Links.{
  Linked, Keeps, update_links, update-Keeps, Present, absent, present,
}
use bandchain_legacy.Store.Set.Insert.{balance_inserted}
use bandchain_legacy.Store.Set.Stored.{
  IsBalanced, IsProper, Stored, Stored-Present, Stored-other, Stored-Keeps,
}
use bandchain_legacy.Store.Set.Balance.{Grown, Settled, IsStrict}
use bandchain_legacy.Store.Set.Balance.Cases.{balance_left, balance_right, Settled-after}
use bandchain_legacy.Store.Set.Steady.{Same, Steady->>, Steady-update, Steady-run}
use bandchain_legacy.Store.Set.Steady.Steps.{Steady-update_parent, Steady-balance_inserted}

module _ ⦃u : CheckedUint⦄ {A : Type 0} (el : Element A) (str : ℕ → Bytes) (m : StorageMap) where
  update_parent-Keeps :
      (s : Set A) (parent child h : ℕ)
      → Present el str m s child h
      → (s' : Set A) × (update_parent el str m parent child s ≡ (ok tt, s')) × Keeps el str m s s'
  unfolding update_parent
  update_parent-Keeps s parent child h (absent e q) = (s, rw e refl, λ j l r g v k. k)
  update_parent-Keeps s parent child h (present n l r v e k) =
      let (s', run, keep) =
        update-Keeps el str m s (suc n) l r h v (λ node. record node { parent = parent })
          (λ n. (refl, refl, refl, refl)) k in
      (s', rw e run, keep)

  -- The lines behind the recursive call.
  abbrev pub attach : ℕ → ℕ → A → (Node A → Node A) → Action (Set A) ℕ
  attach current top val f =
      update el str m current f
      >> (update_parent el str m current top >> balance_inserted el str m current val)

  attach-Same :
      (s s' : Set A) (current top id : ℕ) (val : A) (f : Node A → Node A)
      → attach current top val f s ≡ (ok id, s')
      → Same el str m s s'
  attach-Same s s' current top id val f e =
      Steady-run el str m (attach current top val f) s s' (ok id)
        (Steady->> el str m (update el str m current f) _ (Steady-update el str m current f) (
          Steady->> el str m (update_parent el str m current top)
            (balance_inserted el str m current val) (Steady-update_parent el str m current top)
            (Steady-balance_inserted el str m current val)))
        e

  module _ (strict : IsStrict el) (s : Set A) (i a b h top : ℕ) (l r : Tree A) (v val : A)
      (before : ℕ) (k : Linked el str m s (suc i) a b h v) (proper : IsProper (fork i l v r))
      (bl : IsBalanced l) (br : IsBalanced r) (small : height (fork i l v r) < 2 ^ 64) where
    pub attach_left :
        Stored el str m s top l
        → Stored el str m s b r
        → before ≤ suc (height r)
        → height r ≤ suc before
        → Grown el val before l
        → el.less val v ≡ true
        → (out : Settled el str m s
            (fork i l v r)
            (attach (suc i) top val (λ x. record x { left = top }) s))
          × Grown el val (suc (max before (height r))) out.tree
          × Same el str m s out.after
    unfolding IsProper
    attach_left hl hr le ge grown side =
        let (s1, run1, k1, other) =
          update_links el str m s (suc i) a b h v (λ x. record x { left = top }) k top b h refl
            k.right k.height k.val in
        let hl1 = Stored-other el str m s s1 (suc i) top l other proper.0 hl in
        let hr1 = Stored-other el str m s s1 (suc i) b r other proper.1 hr in
        let (s2, run2, keep) =
          update_parent-Keeps s1 (suc i) top (height l) (Stored-Present el str m s1 top l hl1) in
        let (out, grown') =
          balance_left el str m strict s2 i top b h l r v val before (keep (suc i) top b h v k1)
            (Stored-Keeps el str m s1 s2 top l keep hl1) (Stored-Keeps el str m s1 s2 b r keep hr1)
            proper bl br small le ge grown side in
        let (out', e) =
          Settled-after el str m s s2 i l r v _ _
            (λ j x y z w n p. keep j x y z w (other j x y z w n p))
            (>>=-step (update el str m (suc i) _) _ run1
              ∙ >>=-step (update_parent el str m (suc i) top) _ run2)
            out in
        (
          out',
          rw e grown',
          attach-Same s out'.after (suc i) top out'.id val (λ x. record x { left = top }) out'.runs,
        )

    pub attach_right :
        Stored el str m s a l
        → Stored el str m s top r
        → before ≤ suc (height l)
        → height l ≤ suc before
        → Grown el val before r
        → el.less v val ≡ true
        → (out : Settled el str m s
            (fork i l v r)
            (attach (suc i) top val (λ x. record x { right = top }) s))
          × Grown el val (suc (max (height l) before)) out.tree
          × Same el str m s out.after
    unfolding IsProper
    attach_right hl hr le ge grown side =
        let (s1, run1, k1, other) =
          update_links el str m s (suc i) a b h v (λ x. record x { right = top }) k a top h k.left
            refl k.height k.val in
        let hl1 = Stored-other el str m s s1 (suc i) a l other proper.0 hl in
        let hr1 = Stored-other el str m s s1 (suc i) top r other proper.1 hr in
        let (s2, run2, keep) =
          update_parent-Keeps s1 (suc i) top (height r) (Stored-Present el str m s1 top r hr1) in
        let (out, grown') =
          balance_right el str m strict s2 i a top h l r v val before (keep (suc i) a top h v k1)
            (Stored-Keeps el str m s1 s2 a l keep hl1) (Stored-Keeps el str m s1 s2 top r keep hr1)
            proper bl br small le ge grown side in
        let (out', e) =
          Settled-after el str m s s2 i l r v _ _
            (λ j x y z w n p. keep j x y z w (other j x y z w n p))
            (>>=-step (update el str m (suc i) _) _ run1
              ∙ >>=-step (update_parent el str m (suc i) top) _ run2)
            out in
        (
          out',
          rw e grown',
          attach-Same s out'.after (suc i) top out'.id val (λ x. record x { right = top })
              out'.runs,
        )
