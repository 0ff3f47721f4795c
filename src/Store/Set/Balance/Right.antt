-- ===== src/Store/Set/Balance/Right.antt =====
-- The cases of `insertNode` of src/store/set.h where the right subtree is too high.
use bandchain_legacy.Common.{ℕ, suc, ◌^◌, ◌<◌, ◌≡◌, refl, sym, ◌∙◌, true, false, inl, inr, arith}
use bandchain_legacy.Uint256.{CheckedUint}
use bandchain_legacy.Buffer.{Bytes}
use bandchain_legacy.Store.Backend.{StorageMap}
use bandchain_legacy.Store.Set.{Set, Element}
use bandchain_legacy.Store.Set.Tree.{Tree, fork, height}
use bandchain_legacy.Store.Set.Links.{Linked, update_links}
use bandchain_legacy.Store.Set.Rotate.{compare_heights}
use bandchain_legacy.Store.Set.Parts.{Apart, elements_turned, elements-right}
use bandchain_legacy.Store.Set.Insert.{insert_left}
use bandchain_legacy.Store.Set.Stored.{
  IsBalanced, IsProper, Stored, Stored-other, Stored-Keeps, Stored-others,
}
use bandchain_legacy.Store.Set.Turned.{right_turn, left_turn}
use bandchain_legacy.Store.Set.Proper.{
  IsProper-Separate, Apart-turn, Apart-turn_back, IsProper-turn, IsProper-turn_back, IsProper-right,
}
use bandchain_legacy.Store.Set.Measured.{left_even, right_heavy}
use bandchain_legacy.Store.Set.Balance.{Settled}
use bandchain_legacy.Store.Set.Balance.Runs.{run_right_right, run_right_left, right_left_run}

module _ ⦃u : CheckedUint⦄ {A : Type 0} (el : Element A) (str : ℕ → Bytes) (m : StorageMap) where
  -- `// Right Right Case`
  pub right_right :
      (s : Set A) (x y : ℕ) (a b c : Tree A) (v w val : A)
      → Stored el str m s (suc x) (fork x a v (fork y b w c))
      → IsProper (fork x a v (fork y b w c))
      → IsBalanced a
      → IsBalanced (fork y b w c)
      → height c ≡ suc (height b)
      → height c ≡ suc (height a)
      → height (fork x a v (fork y b w c)) < 2 ^ 64
      → el.greater val w ≡ true
      → (out : Settled el str m s
          (fork x a v (fork y b w c))
          (insert_left el str m (suc x) val (compare_heights (height a) (height (fork y b w c))) s))
        × (height out.tree ≡ suc (height c))
  unfolding Stored IsBalanced height Apart
  right_right s x y a b c v w val (e, (la, y', kx, ha, (at_y, (lb, lc, ky, hb, hc)))) proper ba
        (_, _, bb, bc) hcb hca small above_w =
      let light = left_even (height a) (height (fork y b w c)) (omega arith) in
      let heavy = right_heavy (height a) (height (fork y b w c)) (omega arith) in
      let kx' : Linked el str m s (suc x) la (suc y) (height (fork x a v (fork y b w c))) v =
        rw (sym at_y) kx in
      let (s2, run1, keep) =
        run_right_right el str m s (suc x) val (compare_heights (height a) (height (fork y b w c)))
          la (suc y) (height (fork x a v (fork y b w c))) lb lc (height (fork y b w c)) (suc y) v w
          kx' ky refl light heavy above_w in
      let on : (id : ℕ) (t : Tree A) → Stored el str m s id t → Stored el str m s2 id t =
        λ id t h. Stored-Keeps el str m s s2 id t keep h in
      let proper_t = IsProper-turn_back x y a b c v w proper in
      let (s', run2, stored, keeps) =
        left_turn el str m x y a b c v w s2 la lb lc (height (fork x a v (fork y b w c)))
          (height (fork y b w c))
          (keep (suc x) la (suc y) (height (fork x a v (fork y b w c))) v kx')
          (keep (suc y) lb lc (height (fork y b w c)) w ky) (on la a ha) (on lb b hb) (on lc c hc)
          (IsProper-Separate x y a b c v w proper_t) (omega arith) in
      (
        record {
          id = suc y;
          after = s';
          tree = fork y (fork x a v b) w c;
          runs = run1 ∙ run2;
          stored = stored;
          same = sym (elements_turned x y a b c v w);
          proper = proper_t;
          balanced = (omega arith, omega arith, (omega arith, omega arith, ba, bb), bc);
          apart = λ j n. Apart-turn_back x y j a b c v w n;
          kept = λ j l r h z n k.
              keeps j l r h z (λ p. n.0 (sym p)) (λ p. n.2.0 (sym p)) (keep j l r h z k);
        },
        omega arith,
      )

  -- `// Right Left Case`
  pub right_left :
      (s : Set A) (x y z : ℕ) (a b c d : Tree A) (v w q val : A)
      → Stored el str m s (suc y) (fork y d w (fork x (fork z b q c) v a))
      → IsProper (fork y d w (fork x (fork z b q c) v a))
      → IsBalanced d
      → IsBalanced (fork x (fork z b q c) v a)
      → height (fork z b q c) ≡ suc (height a)
      → height a ≡ height d
      → height (fork y d w (fork x (fork z b q c) v a)) < 2 ^ 64
      → el.greater val v ≡ false
      → el.less val v ≡ true
      → (out : Settled el str m s (fork y d w (fork x (fork z b q c) v a)) (
          insert_left el str m
            (suc y)
            val
            (compare_heights (height d) (height (fork x (fork z b q c) v a)))
            s))
        × (height out.tree ≡ suc (suc (height a)))
  unfolding Stored IsBalanced height Apart IsProper
  right_left s x y z a b c d v w q val
        (e, (ld, x', ky, hd, (at_x, (z', la, kx, (at_z, (lb, lc, kz, hb, hc)), ha)))) proper bd
        (_, _, (bbc, bcb, bb, bc), ba) hza had small not_above below =
      let light = left_even (height d) (height (fork x (fork z b q c) v a)) (omega arith) in
      let heavy = right_heavy (height d) (height (fork x (fork z b q c) v a)) (omega arith) in
      let ky' : Linked el str m s (suc y) ld (suc x)
          (height (fork y d w (fork x (fork z b q c) v a))) w =
        rw (sym at_x) ky in
      let kx' : Linked el str m s (suc x) (suc z) la (height (fork x (fork z b q c) v a)) v =
        rw (sym at_z) kx in
      let (s2, run1, keep) =
        run_right_left el str m s (suc y) val
          (compare_heights (height d) (height (fork x (fork z b q c) v a))) ld (suc x)
          (height (fork y d w (fork x (fork z b q c) v a))) (suc z) la
          (height (fork x (fork z b q c) v a)) (suc x) w v ky' kx' refl light heavy not_above
          below in
      let on : (id : ℕ) (t : Tree A) → Stored el str m s id t → Stored el str m s2 id t =
        λ id t h. Stored-Keeps el str m s s2 id t keep h in
      let (y_off_d, y_off_x, _, _, proper_x) = proper in
      let proper_m = IsProper-turn z x b c a q v proper_x in
      let turned : (j : ℕ)
          → Apart j (fork x (fork z b q c) v a)
          → Apart j (fork z b q (fork x c v a)) =
        λ j n. Apart-turn z x j b c a q v n in
      let proper_t =
        IsProper-right y d (fork x (fork z b q c) v a) (fork z b q (fork x c v a)) w turned proper_m
          proper in
      let proper_f = IsProper-turn_back y z d b (fork x c v a) w q proper_t in
      let (s3, run2, stored3, keeps3) =
        right_turn el str m z x b c a q v s2 lb lc la (height (fork x (fork z b q c) v a))
          (height (fork z b q c))
          (keep (suc x) (suc z) la (height (fork x (fork z b q c) v a)) v kx')
          (keep (suc z) lb lc (height (fork z b q c)) q kz) (on lb b hb) (on lc c hc) (on la a ha)
          (IsProper-Separate z x b c a q v proper_x) (omega arith) in
      let ky3 =
        keeps3 (suc y) ld (suc x) (height (fork y d w (fork x (fork z b q c) v a))) w
          (λ p. y_off_x.0 (sym p)) (λ p. y_off_x.1.0 (sym p))
          (keep (suc y) ld (suc x) (height (fork y d w (fork x (fork z b q c) v a))) w ky') in
      let far = IsProper-Separate y z d b (fork x c v a) w q proper_f in
      let hd3 =
        Stored-others el str m s2 s3 (suc z) (suc x) ld d keeps3 far.y_a (x_off proper)
          (on ld d hd) in
      let (s4, run3, ky4, keeps4) =
        update_links el str m s3 (suc y) ld (suc x)
          (height (fork y d w (fork x (fork z b q c) v a))) w (λ n. record n { right = suc z }) ky3
          ld (suc z) (height (fork y d w (fork x (fork z b q c) v a))) ky3.left refl ky3.height
          ky3.val in
      let (_, (lb', lx, kz4, hb4, hx4)) =
        Stored-other el str m s3 s4 (suc y) (suc z) (fork z b q (fork x c v a)) keeps4
          (turned (suc y) y_off_x) stored3 in
      let hd4 = Stored-other el str m s3 s4 (suc y) ld d keeps4 y_off_d hd3 in
      let (s5, run4, stored5, keeps5) =
        left_turn el str m y z d b (fork x c v a) w q s4 ld lb' lx
          (height (fork y d w (fork x (fork z b q c) v a))) (height (fork z b q (fork x c v a))) ky4
          kz4 hd4 hb4 hx4 far (omega arith) in
      (
        record {
          id = suc z;
          after = s5;
          tree = (fork z (fork y d w b) q (fork x c v a));
          runs =
              run1
              ∙ right_left_run el str m (suc y) (suc x) (suc z) (suc z) s2 s3 s4 s5 run2 run3 run4;
          stored = stored5;
          same =
              sym (elements_turned y z d b (fork x c v a) w q)
              ∙ elements-right y d (fork z b q (fork x c v a)) (fork x (fork z b q c) v a) w
                  (elements_turned z x b c a q v);
          proper = proper_f;
          balanced = (
            omega arith,
            omega arith,
            (omega arith, omega arith, bd, bb),
            (omega arith, omega arith, bc, ba),
          );
          apart = λ j n. Apart-turn_back y z j d b (fork x c v a) w q (n.0, n.1, turned j n.2);
          kept = λ j l r h o n k.
              keeps5 j l r h o (λ p. n.0 (sym p)) (λ p. n.2.1.0 (sym p))
                (keeps4 j l r h o (λ p. n.0 (sym p))
                  (keeps3 j l r h o (λ p. n.2.0 (sym p)) (λ p. n.2.1.0 (sym p))
                    (keep j l r h o k)));
        },
        omega arith,
      )
    where
      x_off : IsProper (fork y d w (fork x (fork z b q c) v a)) → Apart (suc x) d
      x_off (_, _, far, _, _) = elim (far (suc x)) [ inl n ↦ n | inr n ↦ absurd (n.0 refl) ]
