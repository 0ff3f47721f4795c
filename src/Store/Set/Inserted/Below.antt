-- ===== src/Store/Set/Inserted/Below.antt =====
-- `insertNode` of src/store/set.h, down the tree.
use bandchain_legacy.Common.{
  ℕ, suc, ◌^◌, ◌<◌, ◌≡◌, refl, sym, ap, ◌∙◌, true, false, ◌⊎◌, inl, inr, Bool-cases, All, arith,
}
use bandchain_legacy.Thrown.{Thrown, Result, ok, err}
use bandchain_legacy.Uint256.{CheckedUint}
use bandchain_legacy.Buffer.{Bytes}
use bandchain_legacy.Store.Backend.{StorageMap}
use bandchain_legacy.Store.Set.{Set, Element, new_node}
use bandchain_legacy.Store.Set.Tree.{Tree, leaf, fork, elements, IsOrder, node_at, Alike, height}
use bandchain_legacy.Store.Set.Members.{member, member_here}
use bandchain_legacy.Store.Set.Links.{Alike-Keeps}
use bandchain_legacy.Store.Set.Parts.{Apart}
use bandchain_legacy.Store.Set.Stored.{IsBalanced, IsProper, Stored}
use bandchain_legacy.Store.Set.Balance.{level, Leaning, IsStrict}
use bandchain_legacy.Store.Set.Sorted.{insert_sorted, insert_sorted-here}
use bandchain_legacy.Store.Set.Inserted.{Inserted}
use bandchain_legacy.Store.Set.Inserted.Fresh.{new_node_lem}

module _ ⦃u : CheckedUint⦄ {A : Type 0} (el : Element A) (str : ℕ → Bytes) (m : StorageMap) where
  pub Inserted-Alike :
      (val : A) (s s1 : Set A) (t : Tree A) (run run' : Result ℕ × Set A)
      → Alike el str m s s1
      → run' ≡ run
      → Inserted el str m val s1 t run
      → Inserted el str m val s t run'
  Inserted-Alike val s s1 t run run' same e h = record {
    id = h.id;
    after = h.after;
    tree = h.tree;
    added = h.added;
    runs = e ∙ h.runs;
    stored = h.stored;
    put = h.put;
    proper = h.proper;
    balanced = h.balanced;
    grown = h.grown;
    apart = λ j n a. h.apart j (λ p. n (omega (arith, p, same.nonce_node))) a;
    idle = λ z. rw (sym same.nonce_node) (h.idle z);
    kept = λ j l r g v n a k.
        h.kept j l r g v (λ p. n (omega (arith, p, same.nonce_node))) a
          (Alike-Keeps el str m s s1 same j l r g v k);
    counted = record {
      nonce_node = omega (arith, h.counted.nonce_node, same.nonce_node);
      nonce_root = h.counted.nonce_root ∙ same.nonce_root;
      set_size = omega (arith, h.counted.set_size, same.set_size);
      missing = λ j x n q.
          h.counted.missing j x (λ p. n (omega (arith, p, same.nonce_node))) (same.nodes j ∙ q);
    };
    is_added = h.is_added;
    size = h.size;
  }

  -- A value that is not there yet gets a node of its own.
  pub Inserted-leaf :
      (val : A) (s : Set A) (e : Thrown)
      → node_at el str m s (suc s.nonce_node) ≡ err e
      → suc s.nonce_node < 2 ^ 64
      → suc s.set_size < 2 ^ 64
      → Inserted el str m val s leaf (new_node val s)
  unfolding Stored IsBalanced IsProper Apart elements member insert_sorted height Leaning
  Inserted-leaf val s e free small room =
      let (s', run, k, other, counted) = new_node_lem el str m s val e free small room in
      record {
        id = suc s.nonce_node;
        after = s';
        tree = fork s.nonce_node leaf val leaf;
        added = 1;
        runs = run;
        stored = (refl, (0, 0, k, refl, refl));
        put = refl;
        proper = (tt, tt, λ j. inl tt, tt, tt);
        balanced = (omega arith, omega arith, tt, tt);
        grown = inr (refl, level refl refl);
        apart = λ j n a. (λ p. n (sym p), tt, tt);
        idle = λ z. absurd (omega (arith, z));
        kept = λ j l r h v n a q. other j l r h v n q;
        counted = counted;
        is_added = inr (refl, refl);
        size = refl;
      }

  -- Where the value is, nothing changes.
  pub Inserted-here :
      (order : IsOrder el) (strict : IsStrict el) (val v : A) (s : Set A) (i : ℕ) (l r : Tree A)
      → Stored el str m s (suc i) (fork i l v r)
      → IsProper (fork i l v r)
      → IsBalanced (fork i l v r)
      → Apart (suc s.nonce_node) (fork i l v r)
      → All (λ x. el.less x v ≡ true) (elements l)
      → el.less val v ≡ false
      → el.less v val ≡ false
      → Inserted el str m val s (fork i l v r) (ok (suc i), s)
  unfolding elements
  Inserted-here order strict val v s i l r stored proper balanced unused below e e' =
      let same : el.equal val v ≡ true = equal_at (Bool-cases (el.equal val v)) in
      let at : val ≡ v = strict.equal_same val v same in
      record {
        id = suc i;
        after = s;
        tree = fork i l v r;
        added = 0;
        runs = refl;
        stored = stored;
        put =
            sym (insert_sorted-here el order strict v (elements l) (elements r) (rw at at e) below)
            ∙ ap (λ (x : A). insert_sorted el x (elements (fork i l v r))) (sym at);
        proper = proper;
        balanced = balanced;
        grown = inl refl;
        apart = λ j n a. a;
        idle = λ z. unused;
        kept = λ j x y h w n a k. k;
        counted = record {
          nonce_node = omega arith;
          nonce_root = refl;
          set_size = omega arith;
          missing = λ j x n q. q;
        };
        is_added = inl (member_here el order val v (elements l) (elements r) same, refl);
        size = omega arith;
      }
    where
      equal_at : (el.equal val v ≡ true) ⊎ (el.equal val v ≡ false) → el.equal val v ≡ true
      equal_at (inl p) = p
      equal_at (inr p) = absurd (ground (arith, order.less_total val v p e))
