-- ===== src/Store/Set/Balance/TooHigh.antt =====
-- The end of `insertNode` of src/store/set.h, where the heights differ by one at most, or by two.
use bandchain_legacy.Common.{ℕ, suc, ◌^◌, ◌<◌, ◌≡◌, refl, ◌∙◌, inl, arith}
use bandchain_legacy.Uint256.{CheckedUint}
use bandchain_legacy.Buffer.{Bytes}
use bandchain_legacy.Store.Backend.{StorageMap}
use bandchain_legacy.Store.Set.{Set, Element}
use bandchain_legacy.Store.Set.Tree.{Tree, leaf, fork, height}
use bandchain_legacy.Store.Set.Rotate.{compare_heights}
use bandchain_legacy.Store.Set.Insert.{insert_left}
use bandchain_legacy.Store.Set.Stored.{IsBalanced, IsProper, Stored}
use bandchain_legacy.Store.Set.Measured.{left_even, right_even}
use bandchain_legacy.Store.Set.Balance.{
  level, left_high, right_high, Leaning, Grown, Settled, IsStrict,
}
use bandchain_legacy.Store.Set.Balance.Runs.{run_even}
use bandchain_legacy.Store.Set.Balance.Left.{left_left, left_right}
use bandchain_legacy.Store.Set.Balance.Right.{right_right, right_left}

module _ ⦃u : CheckedUint⦄ {A : Type 0} (el : Element A) (str : ℕ → Bytes) (m : StorageMap) where
  -- Nothing is to do where the heights differ by one at most.
  pub stays :
      (s : Set A) (i : ℕ) (l r : Tree A) (v val : A)
      → Stored el str m s (suc i) (fork i l v r)
      → IsProper (fork i l v r)
      → IsBalanced (fork i l v r)
      → (out : Settled el str m s
          (fork i l v r)
          (insert_left el str m (suc i) val (compare_heights (height l) (height r)) s))
        × (height out.tree ≡ height (fork i l v r))
        × (Leaning el val (fork i l v r) → Leaning el val out.tree)
  unfolding IsBalanced
  stays s i l r v val stored proper balanced = (
    record {
      id = suc i;
      after = s;
      tree = fork i l v r;
      runs =
          run_even el str m s (suc i) val (compare_heights (height l) (height r))
            (left_even (height l) (height r) balanced.0)
            (right_even (height l) (height r) balanced.1);
      stored = stored;
      same = refl;
      proper = proper;
      balanced = balanced;
      apart = λ j n. n;
      kept = λ j x y h w n k. k;
    },
    refl,
    λ h. h,
  )

  -- What a case does, once the node has its height.
  abbrev pub Outcome : Set A → ℕ → Tree A → A → Tree A → A → ℕ → Type 0
  Outcome s i l v r val before =
      (out : Settled el str m s (fork i l v r)
        (insert_left el str m (suc i) val (compare_heights (height l) (height r)) s))
      × Grown el val before out.tree

  module _ (strict : IsStrict el) (s : Set A) (i : ℕ) (v val : A) where
    pub too_high_left :
        (l r : Tree A)
        → Stored el str m s (suc i) (fork i l v r)
        → IsProper (fork i l v r)
        → IsBalanced l
        → IsBalanced r
        → height l ≡ suc (suc (height r))
        → Leaning el val l
        → height (fork i l v r) < 2 ^ 64
        → Outcome s i l v r val (suc (suc (height r)))
    unfolding Leaning height
    too_high_left leaf r stored proper bl br high leans small = absurd (omega arith)
    too_high_left (fork x a w b) r stored proper bl br high (level e e') small =
        absurd (omega arith)
    too_high_left (fork x a w b) r stored proper bl br high (left_high below e) small =
        let (out, grown) =
          left_left el str m s x i a b r w v val stored proper bl br e (omega arith) small below in
        (out, inl (omega arith))
    too_high_left (fork x a w leaf) r stored proper bl br high (right_high above_w e) small =
        absurd (omega arith)
    too_high_left (fork x a w (fork z b q c)) r stored proper bl br high (right_high above_w e)
          small =
        let (out, grown) =
          left_right el str m s x i z a b c r w v q val stored proper bl br e (omega arith) small
            (strict.less_asym w val above_w) (strict.greater_less val w ∙ above_w) in
        (out, inl (omega arith))

    pub too_high_right :
        (l r : Tree A)
        → Stored el str m s (suc i) (fork i l v r)
        → IsProper (fork i l v r)
        → IsBalanced l
        → IsBalanced r
        → height r ≡ suc (suc (height l))
        → Leaning el val r
        → height (fork i l v r) < 2 ^ 64
        → Outcome s i l v r val (suc (suc (height l)))
    unfolding Leaning height
    too_high_right l leaf stored proper bl br high leans small = absurd (omega arith)
    too_high_right l (fork x a w b) stored proper bl br high (level e e') small =
        absurd (omega arith)
    too_high_right l (fork x a w b) stored proper bl br high (right_high above_w e) small =
        let (out, grown) =
          right_right el str m s i x l a b v w val stored proper bl br e (omega arith) small
            (strict.greater_less val w ∙ above_w) in
        (out, inl (omega arith))
    too_high_right l (fork x leaf w b) stored proper bl br high (left_high below e) small =
        absurd (omega arith)
    too_high_right l (fork x (fork z b q c) w a) stored proper bl br high (left_high below e)
          small =
        let (out, grown) =
          right_left el str m s x i z a b c l w v q val stored proper bl br e (omega arith) small
            (strict.greater_less val w ∙ strict.less_asym val w below) below in
        (out, inl (omega arith))
