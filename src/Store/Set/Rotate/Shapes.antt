-- ===== src/Store/Set/Rotate/Shapes.antt =====
-- The rotations of src/store/set.h on the tree that the nodes stand for.
use bandchain_legacy.Common.{ℕ, suc, ◌≡◌, refl, sym, ◌∙◌, arith}
use bandchain_legacy.Thrown.{ok}
use bandchain_legacy.Uint256.{CheckedUint}
use bandchain_legacy.Buffer.{Bytes}
use bandchain_legacy.Store.Backend.{StorageMap}
use bandchain_legacy.Store.Set.{Set, Element}
use bandchain_legacy.Store.Set.Tree.{Tree, leaf, fork, elements, Represents}
use bandchain_legacy.Store.Set.Links.{Linked, KeepsOthers, absent, present}
use bandchain_legacy.Store.Set.Rotate.Finish.{Beside}
use bandchain_legacy.Store.Set.Rotate.{left_rotate, right_rotate}
use bandchain_legacy.Store.Set.Rotate.Right.{right_rotate_links}
use bandchain_legacy.Store.Set.Rotate.Left.{left_rotate_links}
use bandchain_legacy.Store.Set.Parts.{Apart, Separate, elements_turned}

module _ ⦃u : CheckedUint⦄ {A : Type 0} (el : Element A) (str : ℕ → Bytes) (m : StorageMap) where
  abbrev R : Set A → ℕ → Tree A → Type 0
  R s id t = Represents el str m s id t

  Represents-Beside :
      (s : Set A) (x y id : ℕ) (t : Tree A)
      → R s id t
      → Apart (suc x) t
      → Apart (suc y) t
      → (h : ℕ) × Beside el str m s (suc x) (suc y) id h
  unfolding Represents Apart
  Represents-Beside s x y id leaf h _ _ = (
    0,
    record {
      x_apart = λ e. absurd (omega arith);
      y_apart = λ e. absurd (omega arith);
      there = absent h refl;
    },
  )
  Represents-Beside s x y id (fork i l v r) (e, (node, here, val_eq, hl, hr)) (nx, _, _)
        (ny, _, _) =
      let k : Linked el str m s (suc i) node.left node.right node.height v = record {
        node = node;
        here = here;
        left = refl;
        right = refl;
        height = refl;
        val = val_eq;
      } in
      (
        node.height,
        record {
          x_apart = λ p. nx (p ∙ e);
          y_apart = λ p. ny (p ∙ e);
          there = present i node.left node.right v e k;
        },
      )

  -- A tree that has neither of two nodes stays, where every node but these keeps its links.
  Represents-kept :
      (s s' : Set A) (x y id : ℕ) (t : Tree A)
      → KeepsOthers el str m y x s s'
      → Apart x t
      → Apart y t
      → R s id t
      → R s' id t
  unfolding Represents Apart
  Represents-kept s s' x y id leaf keeps nx ny h = h
  Represents-kept s s' x y id (fork i l v r) keeps (nx, nxl, nxr) (ny, nyl, nyr)
        (e, (node, here, val_eq, hl, hr)) =
      let k = keeps (suc i) node.left node.right node.height v ny nx (record {
        node = node;
        here = here;
        left = refl;
        right = refl;
        height = refl;
        val = val_eq;
      }) in
      (
        e,
        (
          k.node,
          k.here,
          k.val,
          rw k.left (Represents-kept s s' x y node.left l keeps nxl nyl hl),
          rw k.right (Represents-kept s s' x y node.right r keeps nxr nyr hr),
        ),
      )

  -- Where the nodes from y on are a tree with the left child x, and x and y are different and
  -- stand nowhere else in it, rightRotate returns x, and the nodes from x on are the tree rotated
  -- to the right, which has the same elements in the same order.
  pub right_rotate_lem :
      (x y : ℕ) (a b c : Tree A) (v w : A) (s : Set A)
      → Separate x y a b c
      → R s (suc y) (fork y (fork x a v b) w c)
      → (s' : Set A) × (right_rotate el str m (suc y) s ≡ (ok (suc x), s'))
        × R s' (suc x) (fork x a v (fork y b w c))
        × (elements (fork x a v (fork y b w c)) ≡ elements (fork y (fork x a v b) w c))
  unfolding Represents
  right_rotate_lem x y a b c v w s d (_, (ny, hy, vy, (e2, (nx, hx, vx, ha, hb)), hc)) =
      let ky : Linked el str m s (suc y) (suc x) ny.right ny.height w = record {
        node = ny;
        height = refl;
        here = hy;
        left = e2;
        right = refl;
        val = vy;
      } in
      let kx : Linked el str m s (suc x) nx.left nx.right nx.height v = record {
        node = nx;
        height = refl;
        here = hx;
        left = refl;
        right = refl;
        val = vx;
      } in
      let (ga, da) = Represents-Beside s x y nx.left a ha d.x_a d.y_a in
      let (gb, db) = Represents-Beside s x y nx.right b hb d.x_b d.y_b in
      let (gc, dc) = Represents-Beside s x y ny.right c hc d.x_c d.y_c in
      let (s', run, kx', ky', keeps) =
        right_rotate_links el str m s y x nx.left nx.right ny.right ny.height nx.height ga gb gc w v
          ky kx d.apart da db dc in
      (
        s',
        run,
        (
          refl,
          (
            kx'.node,
            kx'.here,
            kx'.val,
            rw kx'.left (Represents-kept s s' (suc x) (suc y) nx.left a keeps d.x_a d.y_a ha),
            (
              kx'.right,
              (
                ky'.node,
                ky'.here,
                ky'.val,
                rw ky'.left (Represents-kept s s' (suc x) (suc y) nx.right b keeps d.x_b d.y_b hb),
                rw ky'.right (Represents-kept s s' (suc x) (suc y) ny.right c keeps d.x_c d.y_c hc),
              ),
            ),
          ),
        ),
        elements_turned x y a b c v w,
      )

  -- Where the nodes from x on are a tree with the right child y, and x and y are different and
  -- stand nowhere else in it, leftRotate returns y, and the nodes from y on are the tree rotated
  -- to the left, which has the same elements in the same order.
  pub left_rotate_lem :
      (x y : ℕ) (a b c : Tree A) (v w : A) (s : Set A)
      → Separate x y a b c
      → R s (suc x) (fork x a v (fork y b w c))
      → (s' : Set A) × (left_rotate el str m (suc x) s ≡ (ok (suc y), s'))
        × R s' (suc y) (fork y (fork x a v b) w c)
        × (elements (fork y (fork x a v b) w c) ≡ elements (fork x a v (fork y b w c)))
  unfolding Represents
  left_rotate_lem x y a b c v w s d (_, (nx, hx, vx, ha, (e2, (ny, hy, vy, hb, hc)))) =
      let kx : Linked el str m s (suc x) nx.left (suc y) nx.height v = record {
        node = nx;
        height = refl;
        here = hx;
        left = refl;
        right = e2;
        val = vx;
      } in
      let ky : Linked el str m s (suc y) ny.left ny.right ny.height w = record {
        node = ny;
        height = refl;
        here = hy;
        left = refl;
        right = refl;
        val = vy;
      } in
      let (ga, da) = Represents-Beside s y x nx.left a ha d.y_a d.x_a in
      let (gb, db) = Represents-Beside s y x ny.left b hb d.y_b d.x_b in
      let (gc, dc) = Represents-Beside s y x ny.right c hc d.y_c d.x_c in
      let (s', run, ky', kx', keeps) =
        left_rotate_links el str m s x y nx.left ny.left ny.right nx.height ny.height ga gb gc v w
          kx ky (λ e. d.apart (sym e)) da db dc in
      (
        s',
        run,
        (
          refl,
          (
            ky'.node,
            ky'.here,
            ky'.val,
            (
              ky'.left,
              (
                kx'.node,
                kx'.here,
                kx'.val,
                rw kx'.left (Represents-kept s s' (suc y) (suc x) nx.left a keeps d.y_a d.x_a ha),
                rw kx'.right (Represents-kept s s' (suc y) (suc x) ny.left b keeps d.y_b d.x_b hb),
              ),
            ),
            rw ky'.right (Represents-kept s s' (suc y) (suc x) ny.right c keeps d.y_c d.x_c hc),
          ),
        ),
        sym (elements_turned x y a b c v w),
      )
