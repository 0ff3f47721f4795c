-- ===== src/Store/Set/Rotate/Left.antt =====
-- What `leftRotate` of src/store/set.h does to the links.
use bandchain_legacy.Common.{ℕ, suc, ◌≡◌, ◌≢◌, refl, sym, ◌∙◌}
use bandchain_legacy.Thrown.{ok}
use bandchain_legacy.Uint256.{CheckedUint}
use bandchain_legacy.Buffer.{Bytes}
use bandchain_legacy.Store.Backend.{StorageMap}
use bandchain_legacy.Ledger.Action.{>>=-step}
use bandchain_legacy.Store.Set.{Node, Set, Element, get_node, update}
use bandchain_legacy.Store.Set.Rotate.{finish_rotation, left_rotate}
use bandchain_legacy.Store.Set.Links.{
  Linked, Keeps, KeepsOthers, Keeps-trans, get_node-Keeps, update_links, update-Keeps, Present,
  present, Present-other,
}
use bandchain_legacy.Store.Set.Rotate.Finish.{above, finish_rotation_links, Beside, Beside-Present}

module _ ⦃u : CheckedUint⦄ {A : Type 0} (el : Element A) (str : ℕ → Bytes) (m : StorageMap) where
  abbrev K : Set A → Set A → Type 0
  K s s' = Keeps el str m s s'

  abbrev P : Set A → ℕ → ℕ → Type 0
  P s i h = Present el str m s i h

  module _ (s s1 s2 s3 s4 s5 s6 s7 s8 : Set A) (y x b : ℕ) (top right lowered : Node A)
      (got1 : get_node el str m y s ≡ (ok top, s1)) where
    -- The steps of a rotation to the left, one behind the other.
    left_rotate_run :
        top.right ≡ x
        → right.left ≡ b
        → get_node el str m top.right s1 ≡ (ok right, s2)
        → update el str m y (λ n. record n { right = right.left }) s2 ≡ (ok tt, s3)
        → update el str m x (λ n. record n { left = y }) s3 ≡ (ok tt, s4)
        → get_node el str m y s4 ≡ (ok lowered, s5)
        → update el str m x (λ n. record n { parent = lowered.parent }) s5 ≡ (ok tt, s6)
        → update el str m y (λ n. record n { parent = x }) s6 ≡ (ok tt, s7)
        → finish_rotation el str m y x b s7 ≡ (ok x, s8)
        → left_rotate el str m y s ≡ (ok x, s8)
    unfolding left_rotate
    left_rotate_run e e' got2 run3 run4 got5 run6 run7 run8 =
        >>=-step (get_node el str m y) _ got1
        ∙ >>=-step (get_node el str m top.right) _ got2
        ∙ >>=-step (update el str m y _) _ run3
        ∙ rw (e, e')
            (>>=-step (update el str m x _) _ run4
              ∙ >>=-step (get_node el str m y) _ got5
              ∙ >>=-step (update el str m x _) _ run6
              ∙ >>=-step (update el str m y _) _ run7
              ∙ run8)

  -- The links and heights after a rotation to the left: `x` has taken the place of `y`, and the
  -- subtree `b` has gone over from the one to the other.
  pub left_rotate_links :
      (s : Set A) (y x a b c h h' ha hb hc : ℕ) (vy vx : A)
      → Linked el str m s (suc y) a (suc x) h vy
      → Linked el str m s (suc x) b c h' vx
      → suc x ≢ suc y
      → Beside el str m s (suc x) (suc y) a ha
      → Beside el str m s (suc x) (suc y) b hb
      → Beside el str m s (suc x) (suc y) c hc
      → (s' : Set A) × (left_rotate el str m (suc y) s ≡ (ok (suc x), s'))
        × Linked el str m s' (suc x) (suc y) c (above (above ha hb) hc) vx
        × Linked el str m s' (suc y) a b (above ha hb) vy
        × KeepsOthers el str m (suc y) (suc x) s s'
  unfolding left_rotate
  left_rotate_links s y x a b c h h' ha hb hc vy vx ky kx apart da db dc =
      let (top, s1, got1, top_l, top_r, _, keep1) =
        get_node-Keeps el str m s (suc y) a (suc x) h vy ky in
      let (right, s2, got2, inner_l, inner_r, _, keep2) =
        get_node-Keeps el str m s1 top.right b c h' vx (rw top_r (keep1 (suc x) b c h' vx kx)) in
      let keep02 : K s s2 = Keeps-trans el str m s s1 s2 keep1 keep2 in
      let ky2 = keep02 (suc y) a (suc x) h vy ky in
      let kx2 = keep02 (suc x) b c h' vx kx in
      let (s3, run3, ky3, other3) =
        update_links el str m s2 (suc y) a (suc x) h vy (λ n. record n { right = right.left }) ky2 a
          b h ky2.left inner_l ky2.height ky2.val in
      let kx3 = other3 (suc x) b c h' vx (λ e. apart (sym e)) kx2 in
      let (s4, run4, kx4, other4) =
        update_links el str m s3 (suc x) b c h' vx (λ n. record n { left = suc y }) kx3 (suc y) c h'
          refl kx3.right kx3.height kx3.val in
      let ky4 = other4 (suc y) a b h vy apart ky3 in
      let (lowered, s5, got5, _, _, _, keep5) = get_node-Keeps el str m s4 (suc y) a b h vy ky4 in
      let (s6, run6, keep6) =
        update-Keeps el str m s5 (suc x) (suc y) c h' vx (λ n. record n { parent = lowered.parent })
          (λ n. (refl, refl, refl, refl)) (keep5 (suc x) (suc y) c h' vx kx4) in
      let keep46 : K s4 s6 = Keeps-trans el str m s4 s5 s6 keep5 keep6 in
      let (s7, run7, keep7) =
        update-Keeps el str m s6 (suc y) a b h vy (λ n. record n { parent = suc x })
          (λ n. (refl, refl, refl, refl)) (keep46 (suc y) a b h vy ky4) in
      let keep47 : K s4 s7 = Keeps-trans el str m s4 s6 s7 keep46 keep7 in
      let keep07 : KeepsOthers el str m (suc y) (suc x) s s7 = λ j l r g v ny nx p.
        keep47 j l r g v (other4 j l r g v nx (other3 j l r g v ny (keep02 j l r g v p))) in
      let p7 : (i g : ℕ) → Beside el str m s (suc x) (suc y) i g → P s7 i g =
        λ i g p. Beside-Present el str m s s7 (suc x) (suc y) i g keep07 p in
      let (s8, run8, ky8, kx8, keep78) =
        finish_rotation_links el str m s7 (suc y) (suc x) b hb a b h ha hb (suc y) c h'
          (above ha hb) hc vy vx (keep47 (suc y) a b h vy ky4) (keep47 (suc x) (suc y) c h' vx kx4)
          apart (p7 b hb db) (p7 a ha da) (p7 b hb db)
          (λ s2 keeps k2. (
            present y a b vy refl k2,
            Present-other el str m s7 s2 (suc y) c hc keeps dc.y_apart (p7 c hc dc),
          )) in
      (
        s8,
        left_rotate_run s s1 s2 s3 s4 s5 s6 s7 s8 (suc y) (suc x) b top right lowered got1 top_r
            inner_l got2 run3 run4 got5 run6 run7 run8,
        kx8,
        ky8,
        λ j l r g v ny nx p. keep78 j l r g v ny nx (keep07 j l r g v ny nx p),
      )
