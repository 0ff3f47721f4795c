-- ===== src/Store/Vector/LowerBound.antt =====
-- `lowerBoundIndex` of src/store/vector.h.
use bandchain_legacy.Common.{
  ℕ, zero, suc, ◌+◌, ◌-◌, ◌/◌, ◌≤◌, ◌<◌, ◌≡◌, refl, ◌∙◌, Bool, true, false, Bool-cases, inl, inr,
  ltb, ltb→lt, lt→ltb, arith,
}
use bandchain_legacy.Thrown.{ok}
use bandchain_legacy.Uint256.{CheckedUint, u256_mod, add_ok}
use bandchain_legacy.Buffer.{Bytes}
use bandchain_legacy.Store.Backend.{StorageMap}
use bandchain_legacy.Store.Data.{Stored}
use bandchain_legacy.Store.Vector.{Vector, at, lower_bound_loop, lower_bound_index}
use bandchain_legacy.Store.Vector.Reads.{value_at, Alike, at_lem}

module _ ⦃u : CheckedUint⦄ {A : Type 0} (st : Stored A) (str : ℕ → Bytes) (m : StorageMap)
    (at_least : A → A → Bool) (value : A) (elements : ℕ → A) (n : ℕ) where
  -- Every index reads as the element, so far as the vector goes.
  abbrev pub Holds : Vector A → Type 0
  Holds v = (v.size ≡ n) × ((i : ℕ) → i < n → value_at st str m v i ≡ ok (elements i))

  -- The index splits the elements at the value.
  abbrev pub Splits : ℕ → Type 0
  Splits r =
      (r ≤ n)
      × ((i : ℕ) → i < r → at_least (elements i) value ≡ false)
      × ((i : ℕ) → r ≤ i → i < n → at_least (elements i) value ≡ true)

  -- The elements that are at least the value come last.
  abbrev pub IsSplit : Type 0
  IsSplit =
      (i j : ℕ)
      → i ≤ j
      → j < n
      → at_least (elements i) value ≡ true
      → at_least (elements j) value ≡ true

  abbrev Inv : ℕ → ℕ → Type 0
  Inv low high =
      (low ≤ high)
      × (high ≤ n)
      × ((i : ℕ) → i < low → at_least (elements i) value ≡ false)
      × ((i : ℕ) → high ≤ i → i < n → at_least (elements i) value ≡ true)

  Holds-Alike : (v v' : Vector A) → Holds v → Alike st str m v v' → Holds v'
  Holds-Alike v v' h a = (a.size ∙ h.0, λ i p. a.values i ∙ h.1 i p)

  half_lem :
      (low high : ℕ)
      → low < high
      → high + high < u256_mod
      → u.div (low + high) 2 ≡ ok ((low + high) / 2)
  half_lem low high h fits = ground (arith, u.div_lem (low + high) 2)

  -- One round of the loop, on either side.
  loop_left :
      (fuel low high : ℕ) (v v1 : Vector A) (x : A)
      → low < high
      → high + high < u256_mod
      → at st str m ((low + high) / 2) v ≡ (ok x, v1)
      → at_least x value ≡ true
      → lower_bound_loop st str at_least m value (suc fuel) low high v
        ≡ lower_bound_loop st str at_least m value fuel low ((low + high) / 2) v1
  unfolding lower_bound_loop
  loop_left fuel low high v v1 x less fits e big =
      rw
        (
          lower_bound_loop,
          lt→ltb low high less,
          add_ok low high (omega arith),
          half_lem low high less fits,
          e,
          big,
        )
        refl

  loop_right :
      (fuel low high : ℕ) (v v1 : Vector A) (x : A)
      → low < high
      → high + high < u256_mod
      → at st str m ((low + high) / 2) v ≡ (ok x, v1)
      → at_least x value ≡ false
      → lower_bound_loop st str at_least m value (suc fuel) low high v
        ≡ lower_bound_loop st str at_least m value fuel ((low + high) / 2 + 1) high v1
  unfolding lower_bound_loop
  loop_right fuel low high v v1 x less fits e small =
      rw
        (
          lower_bound_loop,
          lt→ltb low high less,
          add_ok low high (omega arith),
          half_lem low high less fits,
          e,
          small,
          add_ok ((low + high) / 2) 1 (omega arith),
        )
        refl

  module _ (split : IsSplit) (small : n + n < u256_mod) where
    loop_lem :
        (fuel low high : ℕ) (v : Vector A)
        → high - low < fuel
        → Inv low high
        → Holds v
        → (r : ℕ) × (v' : Vector A) × (lower_bound_loop st str at_least m value fuel low high v
            ≡ (ok r, v'))
          × Splits r
          × Holds v'
    unfolding lower_bound_loop
    loop_lem zero low high v f inv h = absurd (omega arith)
    loop_lem (suc fuel) low high v f (le, inside, below, above) h =
        elim (Bool-cases (ltb low high)) [
          | inr q ↦ (
            low,
            v,
            rw (lower_bound_loop, q) refl,
            (omega arith, below, λ i p. above i (past_end q p)),
            h,
          )
          | inl q ↦
              let less = ltb→lt low high q in
              let mid = (low + high) / 2 in
              let (v1, e1, same) = at_lem st str m v mid (elements mid) (h.1 mid (omega arith)) in
              let h1 = Holds-Alike v v1 h same in
              elim (Bool-cases (at_least (elements mid) value)) [
                | inl big ↦
                    let (r, v2, e2, s, h2) =
                      loop_lem fuel low mid v1 (omega arith)
                        (omega arith, omega arith, below, λ i p p'. split mid i p p' big) h1 in
                    (
                      r,
                      v2,
                      loop_left fuel low high v v1 (elements mid) less (omega arith) e1 big ∙ e2,
                      s,
                      h2,
                    )
                | inr below_value ↦
                    let (r, v2, e2, s, h2) =
                      loop_lem fuel (mid + 1) high v1 (omega arith)
                        (
                          omega arith,
                          inside,
                          λ i p. not_above mid i (omega arith) (omega arith) below_value,
                          above,
                        )
                        h1 in
                    (
                      r,
                      v2,
                      loop_right fuel low high v v1 (elements mid) less (omega arith) e1 below_value
                          ∙ e2,
                      s,
                      h2,
                    )
              ]
        ]
      where
        past_end : {i : ℕ} → ltb low high ≡ false → low ≤ i → high ≤ i
        past_end q p = ground arith

        not_above :
            (mid i : ℕ)
            → i ≤ mid
            → mid < n
            → at_least (elements mid) value ≡ false
            → at_least (elements i) value ≡ false
        not_above mid i p p' e = ground (arith, split i mid p p')

    -- On a vector whose indices read as n elements, those at least the value behind the others,
    -- with n + n below 2 ^ 256: lowerBoundIndex returns an index up to n before which no element
    -- is at least the value, and from which on every one is; the vector then reads as before.
    pub lower_bound_index_lem :
        (v : Vector A)
        → Holds v
        → (r : ℕ) × (v' : Vector A) × (lower_bound_index st str at_least m value v ≡ (ok r, v'))
          × Splits r
          × Holds v'
    unfolding lower_bound_index
    lower_bound_index_lem v h =
        loop_lem (suc v.size) 0 v.size v (omega arith)
          (
            omega arith,
            omega (arith, h.0),
            λ i p. absurd (omega arith),
            λ i p p'. absurd (omega (arith, h.0)),
          )
          h
