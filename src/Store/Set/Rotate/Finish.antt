-- ===== src/Store/Set/Rotate/Finish.antt =====
-- The lines that both rotations of src/store/set.h end with: they change the heights of two nodes,
-- and no links.
use bandchain_legacy.Common.{ℕ, suc, ◌+◌, ◌%◌, ◌^◌, max, ◌≡◌, ◌≢◌, refl, sym, ◌∙◌}
use bandchain_legacy.Thrown.{ok}
use bandchain_legacy.Uint256.{CheckedUint}
use bandchain_legacy.Buffer.{Bytes}
use bandchain_legacy.Store.Backend.{StorageMap}
use bandchain_legacy.Ledger.Action.{>>=-step}
use bandchain_legacy.Store.Set.{Set, Element, changed, get_node, update, get_height}
use bandchain_legacy.Store.Set.Rotate.{update_height, move_subtree, finish_rotation}
use bandchain_legacy.Store.Set.Links.{
  Linked, Keeps, KeepsOther, KeepsOthers, Keeps-trans, get_node-Keeps, update_links, update-Keeps,
  Present, absent, present, Present-Keeps, get_height-Keeps,
}

-- The height of a node that has children of two heights.
abbrev pub above : ℕ → ℕ → ℕ
above l r = (max l r + 1) % 2 ^ 64

module _ ⦃u : CheckedUint⦄ {A : Type 0} (el : Element A) (str : ℕ → Bytes) (m : StorageMap) where
  abbrev K : Set A → Set A → Type 0
  K s s' = Keeps el str m s s'

  abbrev P : Set A → ℕ → ℕ → Type 0
  P s i h = Present el str m s i h

  pub update_height_links :
      (s : Set A) (i l r h hl hr : ℕ) (v : A)
      → Linked el str m s i l r h v
      → P s l hl
      → P s r hr
      → (s' : Set A) × (update_height el str m i s ≡ (ok tt, s'))
        × Linked el str m s' i l r (above hl hr) v
        × KeepsOther el str m i s s'
  unfolding update_height
  update_height_links s i l r h hl hr v k pl pr =
      let (node, s1, got, node_l, node_r, _, keep1) = get_node-Keeps el str m s i l r h v k in
      let (s2, got_l, keep2) =
        get_height-Keeps el str m s1 node.left hl
          (Present-Keeps el str m s s1 node.left hl keep1 (rw node_l pl)) in
      let keep02 : K s s2 = Keeps-trans el str m s s1 s2 keep1 keep2 in
      let (s3, got_r, keep3) =
        get_height-Keeps el str m s2 node.right hr
          (Present-Keeps el str m s s2 node.right hr keep02 (rw node_r pr)) in
      let keep03 : K s s3 = Keeps-trans el str m s s2 s3 keep02 keep3 in
      let k3 = keep03 i l r h v k in
      let (s4, run, here, other) =
        update_links el str m s3 i l r h v (λ n. record n { height = above hl hr }) k3 l r
          (above hl hr) k3.left k3.right refl k3.val in
      (
        s4,
        >>=-step (get_node el str m i) _ got
            ∙ >>=-step (get_height el str m node.left) _ got_l
            ∙ >>=-step (get_height el str m node.right) _ got_r
            ∙ run,
        here,
        λ j x y z w apart known. other j x y z w apart (keep03 j x y z w known),
      )

  move_subtree-Keeps :
      (s : Set A) (t2 h parent : ℕ)
      → P s t2 h
      → (s' : Set A) × (move_subtree el str m t2 parent s ≡ (ok tt, s')) × K s s'
  unfolding move_subtree
  move_subtree-Keeps s t2 h parent (absent e q) = (s, rw e refl, λ j l r g v k. k)
  move_subtree-Keeps s t2 h parent (present n l r v e k) =
      let (s', run, keep) =
        update-Keeps el str m s (suc n) l r h v
          (λ node. record node { parent = parent; status = changed })
          (λ n. (refl, refl, refl, refl)) k in
      (s', rw e run, keep)

  -- The end of a rotation changes parents and states, and the heights of two nodes: the one that
  -- has gone down, `top`, whose children have the heights hl and hr, and then `child`, whose
  -- children have the heights hl' and hr' once the first height is set.
  pub finish_rotation_links :
      (s : Set A) (top child t2 h2 l r h hl hr l' r' h' hl' hr' : ℕ) (v v' : A)
      → Linked el str m s top l r h v
      → Linked el str m s child l' r' h' v'
      → child ≢ top
      → P s t2 h2
      → P s l hl
      → P s r hr
      → ((s2 : Set A)
          → KeepsOther el str m top s s2
          → Linked el str m s2 top l r (above hl hr) v
          → P s2 l' hl' × P s2 r' hr')
      → (s' : Set A) × (finish_rotation el str m top child t2 s ≡ (ok child, s'))
        × Linked el str m s' top l r (above hl hr) v
        × Linked el str m s' child l' r' (above hl' hr') v'
        × KeepsOthers el str m top child s s'
  unfolding finish_rotation
  finish_rotation_links s top child t2 h2 l r h hl hr l' r' h' hl' hr' v v' k k' apart pt pl pr
        later =
      let (s1, run1, keep1) = move_subtree-Keeps s t2 h2 top pt in
      let (s2, run2, k2, other2) =
        update_height_links s1 top l r h hl hr v (keep1 top l r h v k)
          (Present-Keeps el str m s s1 l hl keep1 pl) (Present-Keeps el str m s s1 r hr keep1 pr) in
      let keep02 : KeepsOther el str m top s s2 =
        λ j x y z w n p. other2 j x y z w n (keep1 j x y z w p) in
      let (pl', pr') = later s2 keep02 k2 in
      let (s3, run3, k3, other3) =
        update_height_links s2 child l' r' h' hl' hr' v'
          (keep02 child l' r' h' v' (λ e. apart (sym e)) k') pl' pr' in
      let t3 = other3 top l r (above hl hr) v apart k2 in
      let (s4, run4, keep4) =
        update-Keeps el str m s3 top l r (above hl hr) v (λ n. record n { status = changed })
          (λ n. (refl, refl, refl, refl)) t3 in
      let (s5, run5, keep5) =
        update-Keeps el str m s4 child l' r' (above hl' hr') v' (λ n. record n { status = changed })
          (λ n. (refl, refl, refl, refl)) (keep4 child l' r' (above hl' hr') v' k3) in
      let keep35 : K s3 s5 = Keeps-trans el str m s3 s4 s5 keep4 keep5 in
      (
        s5,
        >>=-step (move_subtree el str m t2 top) _ run1
            ∙ >>=-step (update_height el str m top) _ run2
            ∙ >>=-step (update_height el str m child) _ run3
            ∙ >>=-step (update el str m top _) _ run4
            ∙ >>=-step (update el str m child _) _ run5,
        keep35 top l r (above hl hr) v t3,
        keep35 child l' r' (above hl' hr') v' k3,
        λ j x y z w nt nc p. keep35 j x y z w (other3 j x y z w nc (keep02 j x y z w nt p)),
      )

  -- A child that is neither of the two nodes that a rotation writes links to.
  pub record Beside (s : Set A) (x y i h : ℕ) : Type 0 where
    pub x_apart : x ≢ i
    pub y_apart : y ≢ i
    pub there : P s i h

  pub Beside-Present :
      (s s' : Set A) (x y i h : ℕ) → KeepsOthers el str m y x s s' → Beside s x y i h → P s' i h
  Beside-Present s s' x y i h keeps d = go d.there
    where
      go : P s i h → P s' i h
      go (absent e q) = absent e q
      go (present n l r v e k) =
          present n l r v e
            (keeps (suc n) l r h v (λ p. d.y_apart (p ∙ sym e)) (λ p. d.x_apart (p ∙ sym e)) k)
