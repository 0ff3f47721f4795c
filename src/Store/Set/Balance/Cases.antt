-- ===== src/Store/Set/Balance/Cases.antt =====
-- `insertNode` of src/store/set.h after its recursive call, on every outcome of the heights.
use bandchain_legacy.Common.{
  ℕ, suc, ◌^◌, max, ◌<◌, ◌≤◌, ◌≡◌, refl, sym, ◌∙◌, true, ◌⊎◌, inl, inr, arith,
}
use bandchain_legacy.Thrown.{Result}
use bandchain_legacy.Uint256.{CheckedUint}
use bandchain_legacy.Buffer.{Bytes}
use bandchain_legacy.Store.Backend.{StorageMap}
use bandchain_legacy.Store.Set.{Set, Element}
use bandchain_legacy.Store.Set.Tree.{Tree, fork, height}
use bandchain_legacy.Store.Set.Links.{Linked, KeepsOther}
use bandchain_legacy.Store.Set.Parts.{Apart}
use bandchain_legacy.Store.Set.Insert.{balance_inserted}
use bandchain_legacy.Store.Set.Stored.{IsBalanced, IsProper, Stored}
use bandchain_legacy.Store.Set.Measured.{measure}
use bandchain_legacy.Store.Set.Balance.{left_high, right_high, Leaning, Grown, Settled, IsStrict}
use bandchain_legacy.Store.Set.Balance.TooHigh.{stays, Outcome, too_high_left, too_high_right}

order_cases : (a b : ℕ) → a ≤ suc b → b ≤ suc a → (b ≡ suc a) ⊎ ((a ≡ b) ⊎ (a ≡ suc b))
order_cases a b h h' = ground arith

module _ ⦃u : CheckedUint⦄ {A : Type 0} (el : Element A) (str : ℕ → Bytes) (m : StorageMap) where
  module _ (strict : IsStrict el) (s : Set A) (i : ℕ) (v val : A) where
    -- One child may have grown, by the value.
    settle_left :
        (l r : Tree A) (before : ℕ)
        → Stored el str m s (suc i) (fork i l v r)
        → IsProper (fork i l v r)
        → IsBalanced l
        → IsBalanced r
        → before ≤ suc (height r)
        → height r ≤ suc before
        → Grown el val before l
        → el.less val v ≡ true
        → height (fork i l v r) < 2 ^ 64
        → Outcome el str m s i l v r val (suc (max before (height r)))
    unfolding IsBalanced height Leaning
    settle_left l r before stored proper bl br le ge (inl e) below small =
        let (out, same, _) =
          stays el str m s i l r v val stored proper (omega arith, omega arith, bl, br) in
        (out, inl (omega arith))
    settle_left l r before stored proper bl br le ge (inr (e, leans)) below small =
        elim (order_cases before (height r) le ge) [
          | inl p ↦
              let (out, same, _) =
                stays el str m s i l r v val stored proper (omega arith, omega arith, bl, br) in
              (out, inl (omega arith))
          | inr (inl p) ↦
              let (out, same, lean) =
                stays el str m s i l r v val stored proper (omega arith, omega arith, bl, br) in
              (out, inr (omega arith, lean (left_high below (omega arith))))
          | inr (inr p) ↦
              let high : height l ≡ suc (suc (height r)) = omega arith in
              let at : suc (suc (height r)) ≡ suc (max before (height r)) = omega arith in
              let (out, grown) =
                too_high_left el str m strict s i v val l r stored proper bl br high leans small in
              (out, rw (sym at) grown)
        ]

    settle_right :
        (l r : Tree A) (before : ℕ)
        → Stored el str m s (suc i) (fork i l v r)
        → IsProper (fork i l v r)
        → IsBalanced l
        → IsBalanced r
        → before ≤ suc (height l)
        → height l ≤ suc before
        → Grown el val before r
        → el.less v val ≡ true
        → height (fork i l v r) < 2 ^ 64
        → Outcome el str m s i l v r val (suc (max (height l) before))
    unfolding IsBalanced height Leaning
    settle_right l r before stored proper bl br le ge (inl e) above_v small =
        let (out, same, _) =
          stays el str m s i l r v val stored proper (omega arith, omega arith, bl, br) in
        (out, inl (omega arith))
    settle_right l r before stored proper bl br le ge (inr (e, leans)) above_v small =
        elim (order_cases before (height l) le ge) [
          | inl p ↦
              let (out, same, _) =
                stays el str m s i l r v val stored proper (omega arith, omega arith, bl, br) in
              (out, inl (omega arith))
          | inr (inl p) ↦
              let (out, same, lean) =
                stays el str m s i l r v val stored proper (omega arith, omega arith, bl, br) in
              (out, inr (omega arith, lean (right_high above_v (omega arith))))
          | inr (inr p) ↦
              let high : height r ≡ suc (suc (height l)) = omega arith in
              let at : suc (suc (height l)) ≡ suc (max (height l) before) = omega arith in
              let (out, grown) =
                too_high_right el str m strict s i v val l r stored proper bl br high leans small in
              (out, rw (sym at) grown)
        ]

  -- What the code makes of a tree from a state before it.
  pub Settled-after :
      (s s1 : Set A) (i : ℕ) (l r : Tree A) (v : A) (run run' : Result ℕ × Set A)
      → KeepsOther el str m (suc i) s s1
      → run' ≡ run
      → (out : Settled el str m s1 (fork i l v r) run)
      → (out' : Settled el str m s (fork i l v r) run') × (out'.tree ≡ out.tree)
  unfolding Apart
  Settled-after s s1 i l r v run run' keeps e h = (
    record {
      id = h.id;
      after = h.after;
      tree = h.tree;
      runs = e ∙ h.runs;
      stored = h.stored;
      same = h.same;
      proper = h.proper;
      balanced = h.balanced;
      apart = h.apart;
      kept = λ j x y g w n k. h.kept j x y g w n (keeps j x y g w (λ p. n.0 (sym p)) k);
    },
    refl,
  )

  -- The lines from the update of the height on, where the value went to the left, or to the right.
  module _ (strict : IsStrict el) (s : Set A) (i a b h : ℕ) (l r : Tree A) (v val : A) (before : ℕ)
      (k : Linked el str m s (suc i) a b h v) (hl : Stored el str m s a l)
      (hr : Stored el str m s b r) (proper : IsProper (fork i l v r)) (bl : IsBalanced l)
      (br : IsBalanced r) (small : height (fork i l v r) < 2 ^ 64) where
    pub balance_left :
        before ≤ suc (height r)
        → height r ≤ suc before
        → Grown el val before l
        → el.less val v ≡ true
        → (out : Settled el str m s (fork i l v r) (balance_inserted el str m (suc i) val s))
          × Grown el val (suc (max before (height r))) out.tree
    unfolding IsProper
    balance_left le ge grown below =
        let (s1, run, stored, keeps) =
          measure el str m s i a b h l r v val k hl hr proper.0 proper.1 small in
        let (out, grown') =
          settle_left strict s1 i v val l r before stored proper bl br le ge grown below small in
        let (out', e) = Settled-after s s1 i l r v _ _ keeps run out in (out', rw e grown')

    pub balance_right :
        before ≤ suc (height l)
        → height l ≤ suc before
        → Grown el val before r
        → el.less v val ≡ true
        → (out : Settled el str m s (fork i l v r) (balance_inserted el str m (suc i) val s))
          × Grown el val (suc (max (height l) before)) out.tree
    unfolding IsProper
    balance_right le ge grown above_v =
        let (s1, run, stored, keeps) =
          measure el str m s i a b h l r v val k hl hr proper.0 proper.1 small in
        let (out, grown') =
          settle_right strict s1 i v val l r before stored proper bl br le ge grown above_v small in
        let (out', e) = Settled-after s s1 i l r v _ _ keeps run out in (out', rw e grown')
