-- ===== src/Store/Set/Inserted/Sides.antt =====
-- `insertNode` of src/store/set.h where the value goes into a subtree.
use bandchain_legacy.Common.{
  ℕ, suc, ◌^◌, ◌<◌, ◌≤◌, ◌≡◌, ◌≢◌, sym, ap, ◌∙◌, true, ◌⊎◌, inl, inr, Bool-cases, ◌==◌, ==_iff,
  List, ◌++◌, ◌∷◌, All, length, length-append, arith,
}
use bandchain_legacy.Thrown.{Result}
use bandchain_legacy.Uint256.{CheckedUint}
use bandchain_legacy.Buffer.{Bytes}
use bandchain_legacy.Store.Backend.{StorageMap}
use bandchain_legacy.Ledger.Action.{◌>>=◌, >>=-step}
use bandchain_legacy.Store.Set.{Set, Element}
use bandchain_legacy.Store.Set.Tree.{Tree, fork, elements, depth, IsOrder, height, height-depth}
use bandchain_legacy.Store.Set.Members.{member_left, member_right}
use bandchain_legacy.Store.Set.Links.{Linked, distinct}
use bandchain_legacy.Store.Set.Parts.{Apart}
use bandchain_legacy.Store.Set.Insert.{insert_node}
use bandchain_legacy.Store.Set.Stored.{IsBalanced, IsProper, Stored, Stored-kept}
use bandchain_legacy.Store.Set.Balance.{Leaning, IsStrict}
use bandchain_legacy.Store.Set.Sorted.{insert_sorted-left, insert_sorted-right}
use bandchain_legacy.Store.Set.Steady.{Same}
use bandchain_legacy.Store.Set.Inserted.{Counted, Inserted}
use bandchain_legacy.Store.Set.Inserted.Attach.{attach, attach_left, attach_right}

module _ ⦃u : CheckedUint⦄ {A : Type 0} (el : Element A) (str : ℕ → Bytes) (m : StorageMap) where
  -- A tree stays that shares no number with the one that the value goes into.
  module _ (val : A) (s : Set A) (l r : Tree A) (run : Result ℕ × Set A)
      (h : Inserted el str m val s l run) (far : (j : ℕ) → Apart j l ⊎ Apart j r)
      (unused : Apart (suc s.nonce_node) r) where
    beside-Stored : (b : ℕ) → Stored el str m s b r → Stored el str m h.after b r
    beside-Stored b stored =
        Stored-kept el str m s h.after (λ j. (suc s.nonce_node ≢ j) × Apart j l) b r
          (λ j x y g w f k. h.kept j x y g w f.0 f.1 k) (λ j. free j (far j)) stored
      where
        free : (j : ℕ) → Apart j l ⊎ Apart j r → Apart j r ⊎ ((suc s.nonce_node ≢ j) × Apart j l)
        free j (inr n) = inl n
        free j (inl n) = elim (Bool-cases (suc s.nonce_node == j)) [
          | inl e ↦ inl (rw (sym ((==_iff (suc s.nonce_node) j).0 e)) unused)
          | inr e ↦ inr (λ p. distinct e p, n)
        ]

    beside-Apart : (j : ℕ) → Apart j h.tree ⊎ Apart j r
    beside-Apart j = elim (Bool-cases (suc s.nonce_node == j)) [
      | inl e ↦ inr (rw (sym ((==_iff (suc s.nonce_node) j).0 e)) unused)
      | inr e ↦ elim (far j) [ inl n ↦ inl (h.apart j (λ p. distinct e p) n) | inr n ↦ inr n ]
    ]

  Counted-Same :
      (s s1 s2 : Set A) (added : ℕ)
      → Counted el str m s s1 added
      → Same el str m s1 s2
      → Counted el str m s s2 added
  Counted-Same s s1 s2 added a b = record {
    nonce_node = b.nonce_node ∙ a.nonce_node;
    nonce_root = b.nonce_root ∙ a.nonce_root;
    set_size = b.set_size ∙ a.set_size;
    missing = λ j e n q. b.missing j e (a.missing j e n q);
  }

  module _ (order : IsOrder el) (strict : IsStrict el) (val v : A) (s : Set A) (i a b fuel : ℕ)
      (l r : Tree A) (k : Linked el str m s (suc i) a b (height (fork i l v r)) v)
      (proper : IsProper (fork i l v r)) (balanced : IsBalanced (fork i l v r))
      (unused : Apart (suc s.nonce_node) (fork i l v r))
      (small : suc (depth (fork i l v r)) < 2 ^ 64) where
    pub put_left :
        Stored el str m s b r
        → el.less val v ≡ true
        → All (λ x. el.less v x ≡ true) (elements r)
        → Inserted el str m val s l (insert_node el str m fuel a val s)
        → Inserted el str m val s (fork i l v r) (
            (insert_node el str m fuel a val >>= λ top.
            attach el str m (suc i) top val (λ x. record x { left = top }))
              s)
    unfolding IsProper IsBalanced Apart height elements depth
    put_left hr side all ih =
        let off : suc s.nonce_node ≢ suc i = unused.0 in
        let k2 = ih.kept (suc i) a b (height (fork i l v r)) v off proper.0 k in
        let far = proper.2 in
        let hr2 = beside-Stored val s l r _ ih far unused.2 b hr in
        let proper2 : IsProper (fork i ih.tree v r) = (
          ih.apart (suc i) off proper.0,
          proper.1,
          beside-Apart val s l r _ ih far unused.2,
          ih.proper,
          proper.4,
        ) in
        let high : height (fork i ih.tree v r) < 2 ^ 64 =
          room (height-depth l) (height-depth r) ih.tree ih.grown in
        let (out, grown, same) =
          attach_left el str m strict ih.after i a b (height (fork i l v r)) ih.id ih.tree r v val
            (height l) k2 proper2 ih.balanced balanced.3 high ih.stored hr2 balanced.0 balanced.1
            ih.grown side in
        record {
          id = out.id;
          after = out.after;
          tree = out.tree;
          added = ih.added;
          runs = >>=-step (insert_node el str m fuel a val) _ ih.runs ∙ out.runs;
          stored = out.stored;
          put =
              out.same
              ∙ ap (λ (es : List A). es ++ v ∷ elements r) ih.put
              ∙ sym (insert_sorted-left el val v (elements l) (elements r) side);
          proper = out.proper;
          balanced = out.balanced;
          grown = grown;
          apart = λ j n f. out.apart j (f.0, ih.apart j n f.1, f.2);
          idle = λ z. out.apart (suc s.nonce_node) (unused.0, ih.idle z, unused.2);
          kept = λ j x y g w n f q.
              out.kept j x y g w (f.0, ih.apart j n f.1, f.2) (ih.kept j x y g w n f.1 q);
          counted = Counted-Same s ih.after out.after ih.added ih.counted same;
          is_added = rw (member_left el order val v (elements l) (elements r) side all) ih.is_added;
          size =
              ap length out.same
              ∙ omega (
                arith,
                length-append (elements ih.tree) (v ∷ elements r),
                length-append (elements l) (v ∷ elements r),
                ih.size,
              );
        }
      where
        room :
            height l ≤ depth l
            → height r ≤ depth r
            → (t : Tree A)
            → (height t ≡ height l) ⊎ ((height t ≡ suc (height l)) × Leaning el val t)
            → height (fork i t v r) < 2 ^ 64
        room p q t (inl e) = omega arith
        room p q t (inr (e, _)) = omega arith

    pub put_right :
        Stored el str m s a l
        → el.less v val ≡ true
        → All (λ x. el.less x v ≡ true) (elements l)
        → Inserted el str m val s r (insert_node el str m fuel b val s)
        → Inserted el str m val s (fork i l v r) (
            (insert_node el str m fuel b val >>= λ top.
            attach el str m (suc i) top val (λ x. record x { right = top }))
              s)
    unfolding IsProper IsBalanced Apart height elements depth
    put_right hl side all ih =
        let off : suc s.nonce_node ≢ suc i = unused.0 in
        let k2 = ih.kept (suc i) a b (height (fork i l v r)) v off proper.1 k in
        let far : (j : ℕ) → Apart j r ⊎ Apart j l =
          λ j. elim (proper.2 j) [ inl n ↦ inr n | inr n ↦ inl n ] in
        let hl2 = beside-Stored val s r l _ ih far unused.1 a hl in
        let proper2 : IsProper (fork i l v ih.tree) = (
          proper.0,
          ih.apart (suc i) off proper.1,
          λ j. elim (beside-Apart val s r l _ ih far unused.1 j) [ inl n ↦ inr n | inr n ↦ inl n ],
          proper.3,
          ih.proper,
        ) in
        let high : height (fork i l v ih.tree) < 2 ^ 64 =
          room (height-depth l) (height-depth r) ih.tree ih.grown in
        let (out, grown, same) =
          attach_right el str m strict ih.after i a b (height (fork i l v r)) ih.id l ih.tree v val
            (height r) k2 proper2 balanced.2 ih.balanced high hl2 ih.stored balanced.1 balanced.0
            ih.grown side in
        record {
          id = out.id;
          after = out.after;
          tree = out.tree;
          added = ih.added;
          runs = >>=-step (insert_node el str m fuel b val) _ ih.runs ∙ out.runs;
          stored = out.stored;
          put =
              out.same
              ∙ ap (λ (es : List A). elements l ++ v ∷ es) ih.put
              ∙ sym (insert_sorted-right el order strict val v (elements l) (elements r) side all);
          proper = out.proper;
          balanced = out.balanced;
          grown = grown;
          apart = λ j n f. out.apart j (f.0, f.1, ih.apart j n f.2);
          idle = λ z. out.apart (suc s.nonce_node) (unused.0, unused.1, ih.idle z);
          kept = λ j x y g w n f q.
              out.kept j x y g w (f.0, f.1, ih.apart j n f.2) (ih.kept j x y g w n f.2 q);
          counted = Counted-Same s ih.after out.after ih.added ih.counted same;
          is_added =
              rw (member_right el order val v (elements l) (elements r) side all) ih.is_added;
          size =
              ap length out.same
              ∙ omega (
                arith,
                length-append (elements l) (v ∷ elements ih.tree),
                length-append (elements l) (v ∷ elements r),
                ih.size,
              );
        }
      where
        room :
            height l ≤ depth l
            → height r ≤ depth r
            → (t : Tree A)
            → (height t ≡ height r) ⊎ ((height t ≡ suc (height r)) × Leaning el val t)
            → height (fork i l v t) < 2 ^ 64
        room p q t (inl e) = omega arith
        room p q t (inr (e, _)) = omega arith
