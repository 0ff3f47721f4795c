-- ===== src/Store/Set/Proper.antt =====
-- Which nodes a rotation of src/store/set.h keeps apart.
use bandchain_legacy.Common.{Bool-cases, ◌==◌, ==_iff, ℕ, suc, ◌≢◌, refl, sym, ◌⊎◌, inl, inr}
use bandchain_legacy.Store.Set.Tree.{Tree, fork}
use bandchain_legacy.Store.Set.Links.{distinct}
use bandchain_legacy.Store.Set.Parts.{Apart, Separate}
use bandchain_legacy.Store.Set.Stored.{IsProper}

module _ {A : Type 0} where
  -- What a rotation takes apart is separate.
  pub IsProper-Separate :
      (x y : ℕ) (a b c : Tree A) (v w : A)
      → IsProper (fork y (fork x a v b) w c)
      → Separate x y a b c
  unfolding IsProper Apart
  IsProper-Separate x y a b c v w ((yx, ya, yb), yc, far, (xa, xb, _, _, _), _) = record {
    apart = λ e. yx (sym e);
    x_a = xa;
    x_b = xb;
    x_c = elim (far (suc x)) [ inl n ↦ absurd (n.0 refl) | inr n ↦ n ];
    y_a = ya;
    y_b = yb;
    y_c = yc;
  }

  pub Apart-turn :
      (x y j : ℕ) (a b c : Tree A) (v w : A)
      → Apart j (fork y (fork x a v b) w c)
      → Apart j (fork x a v (fork y b w c))
  unfolding Apart
  Apart-turn x y j a b c v w (ny, (nx, na, nb), nc) = (nx, na, (ny, nb, nc))

  pub Apart-turn_back :
      (x y j : ℕ) (a b c : Tree A) (v w : A)
      → Apart j (fork x a v (fork y b w c))
      → Apart j (fork y (fork x a v b) w c)
  unfolding Apart
  Apart-turn_back x y j a b c v w (nx, na, (ny, nb, nc)) = (ny, (nx, na, nb), nc)

  -- A rotation leaves each number at one node.
  pub IsProper-turn :
      (x y : ℕ) (a b c : Tree A) (v w : A)
      → IsProper (fork y (fork x a v b) w c)
      → IsProper (fork x a v (fork y b w c))
  unfolding IsProper Apart
  IsProper-turn x y a b c v w ((yx, ya, yb), yc, far, (xa, xb, ab, pa, pb), pc) =
      let d = IsProper-Separate x y a b c v w ((yx, ya, yb), yc, far, (xa, xb, ab, pa, pb), pc) in
      (xa, (d.apart, xb, d.x_c), far_a, pa, (yb, yc, λ j. far_b j (far j), pb, pc))
    where
      far_b : (j : ℕ) → Apart j (fork x a v b) ⊎ Apart j c → Apart j b ⊎ Apart j c
      far_b j (inl (_, _, n)) = inl n
      far_b j (inr n) = inr n

      beside :
          (j : ℕ)
          → j ≢ suc y
          → Apart j b
          → Apart j (fork x a v b) ⊎ Apart j c
          → Apart j a ⊎ Apart j (fork y b w c)
      beside j ny nb (inl (_, n, _)) = inl n
      beside j ny nb (inr n) = inr (ny, nb, n)

      far_a : (j : ℕ) → Apart j a ⊎ Apart j (fork y b w c)
      far_a j = elim (Bool-cases (j == suc y)) [
        | inl e ↦ inl (rw ((==_iff j (suc y)).0 e) ya)
        | inr e ↦ elim (ab j) [ inl n ↦ inl n | inr n ↦ beside j (λ p. distinct e p) n (far j) ]
      ]

  pub IsProper-turn_back :
      (x y : ℕ) (a b c : Tree A) (v w : A)
      → IsProper (fork x a v (fork y b w c))
      → IsProper (fork y (fork x a v b) w c)
  unfolding IsProper Apart
  IsProper-turn_back x y a b c v w (xa, (xy, xb, xc), far, pa, (yb, yc, bc, pb, pc)) = (
    (λ e. xy (sym e), y_apart (far (suc y)), yb),
    yc,
    far_c,
    (xa, xb, λ j. far_b j (far j), pa, pb),
    pc,
  )
    where
      y_apart : Apart (suc y) a ⊎ Apart (suc y) (fork y b w c) → Apart (suc y) a
      y_apart (inl n) = n
      y_apart (inr (n, _, _)) = absurd (n refl)

      far_b : (j : ℕ) → Apart j a ⊎ Apart j (fork y b w c) → Apart j a ⊎ Apart j b
      far_b j (inl n) = inl n
      far_b j (inr (_, n, _)) = inr n

      beside :
          (j : ℕ)
          → j ≢ suc x
          → Apart j b
          → Apart j a ⊎ Apart j (fork y b w c)
          → Apart j (fork x a v b) ⊎ Apart j c
      beside j nx nb (inl n) = inl (nx, n, nb)
      beside j nx nb (inr (_, _, n)) = inr n

      far_c : (j : ℕ) → Apart j (fork x a v b) ⊎ Apart j c
      far_c j = elim (Bool-cases (j == suc x)) [
        | inl e ↦ inr (rw ((==_iff j (suc x)).0 e) xc)
        | inr e ↦ elim (bc j) [ inl n ↦ beside j (λ p. distinct e p) n (far j) | inr n ↦ inr n ]
      ]

  -- A subtree gives way to one with numbers that it had.
  pub IsProper-left :
      (i : ℕ) (l l' r : Tree A) (v : A)
      → ((j : ℕ) → Apart j l → Apart j l')
      → IsProper l'
      → IsProper (fork i l v r)
      → IsProper (fork i l' v r)
  unfolding IsProper
  IsProper-left i l l' r v keeps p' (nl, nr, far, p, q) =
      (keeps (suc i) nl, nr, λ j. elim (far j) [ inl n ↦ inl (keeps j n) | inr n ↦ inr n ], p', q)

  pub IsProper-right :
      (i : ℕ) (l r r' : Tree A) (v : A)
      → ((j : ℕ) → Apart j r → Apart j r')
      → IsProper r'
      → IsProper (fork i l v r)
      → IsProper (fork i l v r')
  unfolding IsProper
  IsProper-right i l r r' v keeps q' (nl, nr, far, p, q) =
      (nl, keeps (suc i) nr, λ j. elim (far j) [ inl n ↦ inl n | inr n ↦ inr (keeps j n) ], p, q')
