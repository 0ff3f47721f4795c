-- ===== src/Store/Set/Turned.antt =====
-- The rotations of src/store/set.h on trees whose nodes have their heights.
use bandchain_legacy.Common.{ℕ, suc, ◌^◌, ◌<◌, ◌≡◌, refl, sym, ap, ◌∙◌, arith}
use bandchain_legacy.Thrown.{ok}
use bandchain_legacy.Uint256.{CheckedUint}
use bandchain_legacy.Buffer.{Bytes}
use bandchain_legacy.Store.Backend.{StorageMap}
use bandchain_legacy.Store.Set.{Set, Element}
use bandchain_legacy.Store.Set.Tree.{Tree, fork, height}
use bandchain_legacy.Store.Set.Links.{Linked, KeepsOthers}
use bandchain_legacy.Store.Set.Rotate.{left_rotate, right_rotate}
use bandchain_legacy.Store.Set.Rotate.Finish.{above}
use bandchain_legacy.Store.Set.Rotate.Right.{right_rotate_links}
use bandchain_legacy.Store.Set.Rotate.Left.{left_rotate_links}
use bandchain_legacy.Store.Set.Parts.{Apart, Separate}
use bandchain_legacy.Store.Set.Stored.{above_height, Stored, Stored-Beside, Stored-others}

module _ ⦃u : CheckedUint⦄ {A : Type 0} (el : Element A) (str : ℕ → Bytes) (m : StorageMap) where
  abbrev S : Set A → ℕ → Tree A → Type 0
  S s id t = Stored el str m s id t

  -- A rotation to the right of two nodes whatever heights they have.
  pub right_turn :
      (x y : ℕ) (a b c : Tree A) (v w : A) (s : Set A) (la lb lc h h' : ℕ)
      → Linked el str m s (suc y) (suc x) lc h w
      → Linked el str m s (suc x) la lb h' v
      → S s la a
      → S s lb b
      → S s lc c
      → Separate x y a b c
      → height (fork x a v (fork y b w c)) < 2 ^ 64
      → (s' : Set A) × (right_rotate el str m (suc y) s ≡ (ok (suc x), s'))
        × S s' (suc x) (fork x a v (fork y b w c))
        × KeepsOthers el str m (suc y) (suc x) s s'
  unfolding Stored height
  right_turn x y a b c v w s la lb lc h h' k k' ha hb hc d small =
      let (s', run, ku, kl, keeps) =
        right_rotate_links el str m s y x la lb lc h h' (height a) (height b) (height c) w v k k'
          d.apart (Stored-Beside el str m s x y la a ha d.x_a d.y_a)
          (Stored-Beside el str m s x y lb b hb d.x_b d.y_b)
          (Stored-Beside el str m s x y lc c hc d.x_c d.y_c) in
      let kept : (id : ℕ) (t : Tree A) → Apart (suc x) t → Apart (suc y) t → S s id t → S s' id t =
        λ id t n n'. Stored-others el str m s s' (suc x) (suc y) id t keeps n n' in
      let inner : above (height b) (height c) ≡ height (fork y b w c) =
        above_height b c y w (omega arith) in
      let outer : above (height a) (above (height b) (height c))
          ≡ height (fork x a v (fork y b w c)) =
        ap (above (height a)) inner ∙ above_height a (fork y b w c) x v small in
      (
        s',
        run,
        (
          refl,
          (
            la,
            suc y,
            rw (sym outer) ku,
            kept la a d.x_a d.y_a ha,
            (refl, (lb, lc, rw (sym inner) kl, kept lb b d.x_b d.y_b hb, kept lc c d.x_c d.y_c hc)),
          ),
        ),
        keeps,
      )

  -- A rotation to the left of two nodes whatever heights they have.
  pub left_turn :
      (x y : ℕ) (a b c : Tree A) (v w : A) (s : Set A) (la lb lc h h' : ℕ)
      → Linked el str m s (suc x) la (suc y) h v
      → Linked el str m s (suc y) lb lc h' w
      → S s la a
      → S s lb b
      → S s lc c
      → Separate x y a b c
      → height (fork y (fork x a v b) w c) < 2 ^ 64
      → (s' : Set A) × (left_rotate el str m (suc x) s ≡ (ok (suc y), s'))
        × S s' (suc y) (fork y (fork x a v b) w c)
        × KeepsOthers el str m (suc x) (suc y) s s'
  unfolding Stored height
  left_turn x y a b c v w s la lb lc h h' k k' ha hb hc d small =
      let (s', run, ku, kl, keeps) =
        left_rotate_links el str m s x y la lb lc h h' (height a) (height b) (height c) v w k k'
          (λ e. d.apart (sym e)) (Stored-Beside el str m s y x la a ha d.y_a d.x_a)
          (Stored-Beside el str m s y x lb b hb d.y_b d.x_b)
          (Stored-Beside el str m s y x lc c hc d.y_c d.x_c) in
      let kept : (id : ℕ) (t : Tree A) → Apart (suc y) t → Apart (suc x) t → S s id t → S s' id t =
        λ id t n n'. Stored-others el str m s s' (suc y) (suc x) id t keeps n n' in
      let inner : above (height a) (height b) ≡ height (fork x a v b) =
        above_height a b x v (omega arith) in
      let outer : above (above (height a) (height b)) (height c)
          ≡ height (fork y (fork x a v b) w c) =
        ap (λ (n : ℕ). above n (height c)) inner ∙ above_height (fork x a v b) c y w small in
      (
        s',
        run,
        (
          refl,
          (
            suc x,
            lc,
            rw (sym outer) ku,
            (refl, (la, lb, rw (sym inner) kl, kept la a d.y_a d.x_a ha, kept lb b d.y_b d.x_b hb)),
            kept lc c d.y_c d.x_c hc,
          ),
        ),
        keeps,
      )
