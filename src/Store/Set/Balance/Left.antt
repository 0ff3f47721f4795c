-- ===== src/Store/Set/Balance/Left.antt =====
-- The cases of `insertNode` of src/store/set.h where the left subtree is too high.
use bandchain_legacy.Common.{ℕ, suc, ◌^◌, ◌<◌, ◌≡◌, refl, sym, ◌∙◌, true, false, inl, inr, arith}
use bandchain_legacy.Uint256.{CheckedUint}
use bandchain_legacy.Buffer.{Bytes}
use bandchain_legacy.Store.Backend.{StorageMap}
use bandchain_legacy.Store.Set.{Set, Element}
use bandchain_legacy.Store.Set.Tree.{Tree, fork, height}
use bandchain_legacy.Store.Set.Links.{Linked, update_links}
use bandchain_legacy.Store.Set.Rotate.{compare_heights}
use bandchain_legacy.Store.Set.Parts.{Apart, elements_turned, elements-left}
use bandchain_legacy.Store.Set.Insert.{insert_left}
use bandchain_legacy.Store.Set.Stored.{
  IsBalanced, IsProper, Stored, Stored-other, Stored-Keeps, Stored-others,
}
use bandchain_legacy.Store.Set.Turned.{right_turn, left_turn}
use bandchain_legacy.Store.Set.Proper.{
  IsProper-Separate, Apart-turn, Apart-turn_back, IsProper-turn, IsProper-turn_back, IsProper-left,
}
use bandchain_legacy.Store.Set.Measured.{left_heavy}
use bandchain_legacy.Store.Set.Balance.{Settled}
use bandchain_legacy.Store.Set.Balance.Runs.{run_left_left, run_left_right, left_right_run}

module _ ⦃u : CheckedUint⦄ {A : Type 0} (el : Element A) (str : ℕ → Bytes) (m : StorageMap) where
  -- `// Left Left Case`
  pub left_left :
      (s : Set A) (x y : ℕ) (a b c : Tree A) (v w val : A)
      → Stored el str m s (suc y) (fork y (fork x a v b) w c)
      → IsProper (fork y (fork x a v b) w c)
      → IsBalanced (fork x a v b)
      → IsBalanced c
      → height a ≡ suc (height b)
      → height a ≡ suc (height c)
      → height (fork y (fork x a v b) w c) < 2 ^ 64
      → el.less val v ≡ true
      → (out : Settled el str m s
          (fork y (fork x a v b) w c)
          (insert_left el str m (suc y) val (compare_heights (height (fork x a v b)) (height c)) s))
        × (height out.tree ≡ suc (height a))
  unfolding Stored IsBalanced height Apart
  left_left s x y a b c v w val (e, (x', lc, ky, (at_x, (la, lb, kx, ha, hb)), hc)) proper
        (_, _, ba, bb) bc hab hac small below =
      let heavy = left_heavy (height (fork x a v b)) (height c) (omega arith) in
      let ky' : Linked el str m s (suc y) (suc x) lc (height (fork y (fork x a v b) w c)) w =
        rw (sym at_x) ky in
      let (s2, run1, keep) =
        run_left_left el str m s (suc y) val (compare_heights (height (fork x a v b)) (height c))
          (suc x) lc (height (fork y (fork x a v b) w c)) la lb (height (fork x a v b)) (suc x) w v
          ky' kx refl heavy below in
      let on : (id : ℕ) (t : Tree A) → Stored el str m s id t → Stored el str m s2 id t =
        λ id t h. Stored-Keeps el str m s s2 id t keep h in
      let (s', run2, stored, keeps) =
        right_turn el str m x y a b c v w s2 la lb lc (height (fork y (fork x a v b) w c))
          (height (fork x a v b))
          (keep (suc y) (suc x) lc (height (fork y (fork x a v b) w c)) w ky')
          (keep (suc x) la lb (height (fork x a v b)) v kx) (on la a ha) (on lb b hb) (on lc c hc)
          (IsProper-Separate x y a b c v w proper) (omega arith) in
      (
        record {
          id = suc x;
          after = s';
          tree = fork x a v (fork y b w c);
          runs = run1 ∙ run2;
          stored = stored;
          same = elements_turned x y a b c v w;
          proper = IsProper-turn x y a b c v w proper;
          balanced = (omega arith, omega arith, ba, (omega arith, omega arith, bb, bc));
          apart = λ j n. Apart-turn x y j a b c v w n;
          kept = λ j l r h z n k.
              keeps j l r h z (λ p. n.0 (sym p)) (λ p. n.1.0 (sym p)) (keep j l r h z k);
        },
        omega arith,
      )

  -- `// Left Right Case`
  pub left_right :
      (s : Set A) (x y z : ℕ) (a b c d : Tree A) (v w q val : A)
      → Stored el str m s (suc y) (fork y (fork x a v (fork z b q c)) w d)
      → IsProper (fork y (fork x a v (fork z b q c)) w d)
      → IsBalanced (fork x a v (fork z b q c))
      → IsBalanced d
      → height (fork z b q c) ≡ suc (height a)
      → height a ≡ height d
      → height (fork y (fork x a v (fork z b q c)) w d) < 2 ^ 64
      → el.less val v ≡ false
      → el.greater val v ≡ true
      → (out : Settled el str m s (fork y (fork x a v (fork z b q c)) w d) (
          insert_left el str m
            (suc y)
            val
            (compare_heights (height (fork x a v (fork z b q c))) (height d))
            s))
        × (height out.tree ≡ suc (suc (height a)))
  unfolding Stored IsBalanced height Apart IsProper
  left_right s x y z a b c d v w q val
        (e, (x', ld, ky, (at_x, (la, z', kx, ha, (at_z, (lb, lc, kz, hb, hc)))), hd)) proper
        (_, _, ba, (bbc, bcb, bb, bc)) bd hza had small not_below above_v =
      let heavy = left_heavy (height (fork x a v (fork z b q c))) (height d) (omega arith) in
      let ky' : Linked el str m s (suc y) (suc x) ld
          (height (fork y (fork x a v (fork z b q c)) w d)) w =
        rw (sym at_x) ky in
      let kx' : Linked el str m s (suc x) la (suc z) (height (fork x a v (fork z b q c))) v =
        rw (sym at_z) kx in
      let (s2, run1, keep) =
        run_left_right el str m s (suc y) val
          (compare_heights (height (fork x a v (fork z b q c))) (height d)) (suc x) ld
          (height (fork y (fork x a v (fork z b q c)) w d)) la (suc z)
          (height (fork x a v (fork z b q c))) (suc x) w v ky' kx' refl heavy not_below above_v in
      let on : (id : ℕ) (t : Tree A) → Stored el str m s id t → Stored el str m s2 id t =
        λ id t h. Stored-Keeps el str m s s2 id t keep h in
      let (y_off_x, y_off_d, _, proper_x, _) = proper in
      let proper_m = IsProper-turn_back x z a b c v q proper_x in
      let turned : (j : ℕ)
          → Apart j (fork x a v (fork z b q c))
          → Apart j (fork z (fork x a v b) q c) =
        λ j n. Apart-turn_back x z j a b c v q n in
      let proper_t =
        IsProper-left y (fork x a v (fork z b q c)) (fork z (fork x a v b) q c) d w turned proper_m
          proper in
      let (s3, run2, stored3, keeps3) =
        left_turn el str m x z a b c v q s2 la lb lc (height (fork x a v (fork z b q c)))
          (height (fork z b q c))
          (keep (suc x) la (suc z) (height (fork x a v (fork z b q c))) v kx')
          (keep (suc z) lb lc (height (fork z b q c)) q kz) (on la a ha) (on lb b hb) (on lc c hc)
          (IsProper-Separate x z a b c v q proper_m) (omega arith) in
      let ky3 =
        keeps3 (suc y) (suc x) ld (height (fork y (fork x a v (fork z b q c)) w d)) w
          (λ p. y_off_x.0 (sym p)) (λ p. y_off_x.2.0 (sym p))
          (keep (suc y) (suc x) ld (height (fork y (fork x a v (fork z b q c)) w d)) w ky') in
      let far = IsProper-Separate z y (fork x a v b) c d q w proper_t in
      let hd3 =
        Stored-others el str m s2 s3 (suc z) (suc x) ld d keeps3 far.x_c (x_off proper)
          (on ld d hd) in
      let (s4, run3, ky4, keeps4) =
        update_links el str m s3 (suc y) (suc x) ld
          (height (fork y (fork x a v (fork z b q c)) w d)) w (λ n. record n { left = suc z }) ky3
          (suc z) ld (height (fork y (fork x a v (fork z b q c)) w d)) refl ky3.right ky3.height
          ky3.val in
      let (_, (lx, lc', kz4, hx4, hc4)) =
        Stored-other el str m s3 s4 (suc y) (suc z) (fork z (fork x a v b) q c) keeps4
          (turned (suc y) y_off_x) stored3 in
      let hd4 = Stored-other el str m s3 s4 (suc y) ld d keeps4 y_off_d hd3 in
      let (s5, run4, stored5, keeps5) =
        right_turn el str m z y (fork x a v b) c d q w s4 lx lc' ld
          (height (fork y (fork x a v (fork z b q c)) w d)) (height (fork z (fork x a v b) q c)) ky4
          kz4 hx4 hc4 hd4 far (omega arith) in
      (
        record {
          id = suc z;
          after = s5;
          tree = fork z (fork x a v b) q (fork y c w d);
          runs =
              run1
              ∙ left_right_run el str m (suc y) (suc x) (suc z) (suc z) s2 s3 s4 s5 run2 run3 run4;
          stored = stored5;
          same =
              elements_turned z y (fork x a v b) c d q w
              ∙ elements-left y (fork z (fork x a v b) q c) (fork x a v (fork z b q c)) d w
                  (sym (elements_turned x z a b c v q));
          proper = IsProper-turn z y (fork x a v b) c d q w proper_t;
          balanced = (
            omega arith,
            omega arith,
            (omega arith, omega arith, ba, bb),
            (omega arith, omega arith, bc, bd),
          );
          apart = λ j n. Apart-turn z y j (fork x a v b) c d q w (n.0, turned j n.1, n.2);
          kept = λ j l r h o n k.
              keeps5 j l r h o (λ p. n.0 (sym p)) (λ p. n.1.2.0 (sym p))
                (keeps4 j l r h o (λ p. n.0 (sym p))
                  (keeps3 j l r h o (λ p. n.1.0 (sym p)) (λ p. n.1.2.0 (sym p))
                    (keep j l r h o k)));
        },
        omega arith,
      )
    where
      x_off : IsProper (fork y (fork x a v (fork z b q c)) w d) → Apart (suc x) d
      x_off (_, _, far, _, _) = elim (far (suc x)) [ inl n ↦ absurd (n.0 refl) | inr n ↦ n ]
