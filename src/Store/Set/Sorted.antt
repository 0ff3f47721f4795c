-- ===== src/Store/Set/Sorted.antt =====
-- What src/store/set.h promises of an insertion: the elements are a list in ascending order, and a
-- value goes to its place in it.
use bandchain_legacy.Common.{
  ◌≡◌, refl, sym, ap, ◌∙◌, true, false, inl, inr, Bool-cases, List, [], ◌∷◌, ◌++◌, All,
}
use bandchain_legacy.Store.Set.{Element}
use bandchain_legacy.Store.Set.Tree.{Tree, leaf, fork, elements, IsSearch, IsOrder}
use bandchain_legacy.Store.Set.Balance.{IsStrict}

module _ {A : Type 0} (el : Element A) where
  unfoldable pub insert_sorted : A → List A → List A
  insert_sorted val [] = val ∷ []
  insert_sorted val (x ∷ xs) = elim (el.less val x) [
    | true ↦ val ∷ x ∷ xs
    | false ↦ elim (el.less x val) [ true ↦ x ∷ insert_sorted val xs | false ↦ x ∷ xs ]
  ]

  unfoldable pub Ascending : List A → Type 0
  Ascending [] = Unit {0}
  Ascending (x ∷ xs) = All (λ y. el.less x y ≡ true) xs × Ascending xs

  -- The three outcomes of the comparison with the first element.
  module _ (val x : A) (xs : List A) where
    pub insert_before : el.less val x ≡ true → insert_sorted val (x ∷ xs) ≡ val ∷ x ∷ xs
    unfolding insert_sorted
    insert_before e = rw (insert_sorted, e) refl

    pub insert_after :
        el.less val x ≡ false
        → el.less x val ≡ true
        → insert_sorted val (x ∷ xs) ≡ x ∷ insert_sorted val xs
    unfolding insert_sorted
    insert_after e e' = rw (insert_sorted, e, e') refl

    pub insert_at :
        el.less val x ≡ false → el.less x val ≡ false → insert_sorted val (x ∷ xs) ≡ x ∷ xs
    unfolding insert_sorted
    insert_at e e' = rw (insert_sorted, e, e') refl

  All-insert_sorted :
      (P : A → Type 0) (val : A) (xs : List A) → P val → All P xs → All P (insert_sorted val xs)
  unfolding insert_sorted
  All-insert_sorted P val [] p h = (p, tt)
  All-insert_sorted P val (x ∷ xs) p (hx, h) = elim (Bool-cases (el.less val x)) [
    | inl e ↦ rw (insert_before val x xs e) (p, (hx, h))
    | inr e ↦ elim (Bool-cases (el.less x val)) [
      | inl e' ↦ rw (insert_after val x xs e e') (hx, All-insert_sorted P val xs p h)
      | inr e' ↦ rw (insert_at val x xs e e') (hx, h)
    ]
  ]

  pub insert_sorted-left :
      (val v : A) (xs ys : List A)
      → el.less val v ≡ true
      → insert_sorted val (xs ++ v ∷ ys) ≡ insert_sorted val xs ++ v ∷ ys
  unfolding insert_sorted
  insert_sorted-left val v [] ys below = insert_before val v ys below
  insert_sorted-left val v (x ∷ xs) ys below = elim (Bool-cases (el.less val x)) [
    | inl e ↦
        insert_before val x (xs ++ v ∷ ys) e
        ∙ ap (λ (zs : List A). zs ++ v ∷ ys) (sym (insert_before val x xs e))
    | inr e ↦ elim (Bool-cases (el.less x val)) [
      | inl e' ↦
          insert_after val x (xs ++ v ∷ ys) e e'
          ∙ ap (λ (zs : List A). x ∷ zs) (insert_sorted-left val v xs ys below)
          ∙ ap (λ (zs : List A). zs ++ v ∷ ys) (sym (insert_after val x xs e e'))
      | inr e' ↦
          insert_at val x (xs ++ v ∷ ys) e e'
          ∙ ap (λ (zs : List A). zs ++ v ∷ ys) (sym (insert_at val x xs e e'))
    ]
  ]

  module _ (order : IsOrder el) (strict : IsStrict el) where
    pub insert_sorted-right :
        (val v : A) (xs ys : List A)
        → el.less v val ≡ true
        → All (λ x. el.less x v ≡ true) xs
        → insert_sorted val (xs ++ v ∷ ys) ≡ xs ++ v ∷ insert_sorted val ys
    unfolding insert_sorted
    insert_sorted-right val v [] ys above_v h = rw (strict.less_asym v val above_v, above_v) refl
    insert_sorted-right val v (x ∷ xs) ys above_v (hx, h) =
        let e' = order.less_trans x v val hx above_v in
        rw (strict.less_asym x val e', e')
          (ap (λ (zs : List A). x ∷ zs) (insert_sorted-right val v xs ys above_v h))

    pub insert_sorted-here :
        (v : A) (xs ys : List A)
        → el.less v v ≡ false
        → All (λ x. el.less x v ≡ true) xs
        → insert_sorted v (xs ++ v ∷ ys) ≡ xs ++ v ∷ ys
    unfolding insert_sorted
    insert_sorted-here v [] ys e h = rw (e, e) refl
    insert_sorted-here v (x ∷ xs) ys e (hx, h) =
        rw (strict.less_asym x v hx, hx)
          (ap (λ (zs : List A). x ∷ zs) (insert_sorted-here v xs ys e h))

    All-less :
        (v x : A) (xs : List A)
        → el.less v x ≡ true
        → All (λ y. el.less x y ≡ true) xs
        → All (λ y. el.less v y ≡ true) xs
    All-less v x [] h all = tt
    All-less v x (y ∷ ys) h (hy, all) = (order.less_trans v x y h hy, All-less v x ys h all)

    All-append :
        (P : A → Type 0) (v : A) (xs ys : List A) → All P xs → P v → All P ys → All P (xs ++ v ∷ ys)
    All-append P v [] ys h p h' = (p, h')
    All-append P v (x ∷ xs) ys (hx, h) p h' = (hx, All-append P v xs ys h p h')

    append-Ascending :
        (v : A) (xs ys : List A)
        → All (λ x. el.less x v ≡ true) xs
        → All (λ y. el.less v y ≡ true) ys
        → Ascending xs
        → Ascending ys
        → Ascending (xs ++ v ∷ ys)
    unfolding Ascending
    append-Ascending v [] ys below above a b = (above, b)
    append-Ascending v (x ∷ xs) ys (hx, below) above (ax, a) b = (
      All-append (λ y. el.less x y ≡ true) v xs ys ax hx (All-less x v ys hx above),
      append-Ascending v xs ys below above a b,
    )

    pub Ascending-insert_sorted :
        (val : A) (xs : List A) → Ascending xs → Ascending (insert_sorted val xs)
    unfolding Ascending insert_sorted
    Ascending-insert_sorted val [] h = (tt, tt)
    Ascending-insert_sorted val (x ∷ xs) (hx, h) = elim (Bool-cases (el.less val x)) [
      | inl e ↦ rw (insert_before val x xs e) ((e, All-less val x xs e hx), (hx, h))
      | inr e ↦ elim (Bool-cases (el.less x val)) [
        | inl e' ↦ rw (insert_after val x xs e e') (
          All-insert_sorted (λ y. el.less x y ≡ true) val xs e' hx,
          Ascending-insert_sorted val xs h,
        )
        | inr e' ↦ rw (insert_at val x xs e e') (hx, h)
      ]
    ]

    pub IsSearch-Ascending : (t : Tree A) → IsSearch el t → Ascending (elements t)
    unfolding IsSearch elements Ascending
    IsSearch-Ascending leaf h = tt
    IsSearch-Ascending (fork i l v r) (below, above, hl, hr) =
        append-Ascending v (elements l) (elements r) below above (IsSearch-Ascending l hl)
          (IsSearch-Ascending r hr)

  All-before : (P : A → Type 0) (v : A) (xs ys : List A) → All P (xs ++ v ∷ ys) → All P xs × P v
  All-before P v [] ys h = (tt, h.0)
  All-before P v (x ∷ xs) ys (hx, h) =
      let (before, at) = All-before P v xs ys h in ((hx, before), at)

  Ascending-append :
      (v : A) (xs ys : List A)
      → Ascending (xs ++ v ∷ ys)
      → All (λ x. el.less x v ≡ true) xs
        × All (λ y. el.less v y ≡ true) ys
        × Ascending xs
        × Ascending ys
  unfolding Ascending
  Ascending-append v [] ys (above, b) = (tt, above, tt, b)
  Ascending-append v (x ∷ xs) ys (hx, h) =
      let (below, above, a, b) = Ascending-append v xs ys h in
      let (ax, at) = All-before (λ y. el.less x y ≡ true) v xs ys hx in
      ((at, below), above, (ax, a), b)

  pub Ascending-IsSearch : (t : Tree A) → Ascending (elements t) → IsSearch el t
  unfolding IsSearch elements Ascending
  Ascending-IsSearch leaf h = tt
  Ascending-IsSearch (fork i l v r) h =
      let (below, above, a, b) = Ascending-append v (elements l) (elements r) h in
      (below, above, Ascending-IsSearch l a, Ascending-IsSearch r b)
