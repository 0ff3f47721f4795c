-- ===== src/Equation/Apply.antt =====
-- `Eq::apply` of src/util/equation.cc against exact arithmetic on the natural numbers.
use native.Mathlib.Nat.{pow-zero, pow-succ', one-le-pow, mul-one, mul_assoc, div-le_self, mod-le}
use bandchain_legacy.Common.{
  ℕ, zero, suc, ◌+◌, ◌-◌, ◌*◌, ◌/◌, ◌%◌, ◌^◌, ◌≤◌, ◌<◌, ◌≡◌, ◌⊎◌, inl, inr, refl, ap, sym, ◌∙◌,
  Option, none, some, ltb, le→ltb, ◌==◌, if◌then◌else◌, Bool-cases, ltb→lt, arith,
}
use bandchain_legacy.Thrown.{Thrown, ok, err, overflow_error, range_error, >>=-eq-ok, >>=-eq-err}
use bandchain_legacy.Uint256.{CheckedUint, u256_mod}
use bandchain_legacy.Equation.{
  BinaryOp, add, sub, mul, div, mod_, exp, Eq, binary, constant, var, pow_loop, pow, apply_op,
  apply,
}
use bandchain_legacy.Equation.RoundTrip.{Fits}

-- The meaning of an equation: exact, and none where a difference is negative or a divisor is 0.
pub exact_op : BinaryOp → ℕ → ℕ → Option ℕ
exact_op add a b = some (a + b)
exact_op sub a b = if ltb a b then none else some (a - b)
exact_op mul a b = some (a * b)
exact_op div a b = if b == 0 then none else some (a / b)
exact_op mod_ a b = if b == 0 then none else some (a % b)
exact_op exp a b = some (a ^ b)

unfoldable pub exact_both : BinaryOp → Option ℕ → Option ℕ → Option ℕ
unfolding exact_op
exact_both op (some a) (some b) = exact_op op a b
exact_both op (some a) none = none
exact_both op none b = none

unfoldable pub exact : Eq → ℕ → Option ℕ
unfolding exact_both
exact (binary op l r) x = exact_both op (exact l x) (exact r x)
exact (constant n) x = some n
exact var x = some x

product_grows : (v l p : ℕ) → u256_mod ≤ v * l → 1 ≤ p → u256_mod ≤ v * (l * p)
product_grows v l p h hp = let m : v * l * 1 ≤ v * l * p = grind arith in omega arith

pos_power : (v l r : ℕ) → 0 < v * l → 1 ≤ l ^ r
pos_power v l r h = one-le-pow r l (factor_pos v l h)
  where
    factor_pos : (v l : ℕ) → 0 < v * l → 0 < l
    factor_pos v zero h = absurd (omega arith)
    factor_pos v (suc l) h = omega arith

quotient_bound : (a b : ℕ) → a < u256_mod → a / b < u256_mod
quotient_bound a b h = let m : a / b ≤ a = div-le_self a b in omega arith

remainder_bound : (a b : ℕ) → a < u256_mod → a % b < u256_mod
remainder_bound a b h = let m : a % b ≤ a = mod-le a b in omega arith

module _ ⦃u : CheckedUint⦄ where
  pow_loop_lem :
      (l v r : ℕ)
      → v < u256_mod
      → pow_loop l v r ≡ (if ltb (v * l ^ r) u256_mod then ok (v * l ^ r) else err overflow_error)
  unfolding pow_loop
  pow_loop_lem l v zero hv =
      let e : v * l ^ 0 ≡ v = ap (λ (p : ℕ). v * p) (pow-zero l) ∙ mul-one v in rw e (ground arith)
  pow_loop_lem l v (suc r) hv = elim (Bool-cases (ltb (v * l) u256_mod)) [
    | inl fits ↦
        let e : v * l ^ suc r ≡ v * l * l ^ r =
          ap (λ (p : ℕ). v * p) (pow-succ' l r) ∙ sym (mul_assoc v l (l ^ r)) in
        rw (u.mul_lem v l, fits, e) (pow_loop_lem l (v * l) r (ltb→lt _ _ fits))
    | inr big ↦
        let e : v * l ^ suc r ≡ v * (l * l ^ r) = ap (λ (p : ℕ). v * p) (pow-succ' l r) in
        let far : u256_mod ≤ v * (l * l ^ r) =
          product_grows v l (l ^ r) (ground arith) (pos_power v l r (ground arith)) in
        rw (u.mul_lem v l, big, e, le→ltb _ _ far) refl
  ]

  -- Exponentiation by repeated checked multiplication returns the exact power where that is below
  -- 2 ^ 256, and throws an overflow error where it is not.
  pub pow_lem :
      (l r : ℕ) → pow l r ≡ (if ltb (l ^ r) u256_mod then ok (l ^ r) else err overflow_error)
  unfolding pow
  pow_lem l r =
      let e : 1 * l ^ r ≡ l ^ r = omega arith in pow_loop_lem l 1 r (omega arith) ∙ rw e refl

  apply_op-exact :
      (op : BinaryOp) (a b y : ℕ)
      → a < u256_mod
      → b < u256_mod
      → apply_op op a b ≡ ok y
      → (exact_op op a b ≡ some y) × (y < u256_mod)
  unfolding apply_op exact_op
  apply_op-exact add a b y ha hb h = ground (arith, u.add_lem a b)
  apply_op-exact sub a b y ha hb h = ground (arith, u.sub_lem a b)
  apply_op-exact mul a b y ha hb h = ground (arith, u.mul_lem a b)
  apply_op-exact div a b y ha hb h = ground (arith, u.div_lem a b, quotient_bound a b)
  apply_op-exact mod_ a b y ha hb h = ground (arith, u.rem_lem a b, remainder_bound a b)
  apply_op-exact exp a b y ha hb h = ground (arith, pow_lem a b)

  -- Where the constants of the equation and x are below 2 ^ 256, a value that apply returns is
  -- the exact value of the equation in the natural numbers, where no difference is negative and
  -- no divisor is 0, and it is below 2 ^ 256.
  pub apply-exact :
      (e : Eq) (x y : ℕ)
      → Fits e
      → x < u256_mod
      → apply e x ≡ ok y
      → (exact e x ≡ some y) × (y < u256_mod)
  unfolding apply exact
  apply-exact (constant n) x y h hx p = ground arith
  apply-exact var x y h hx p = ground arith
  apply-exact (binary op l r) x y (hl, hr) hx p =
      let (a, pa, p') = >>=-eq-ok (apply l x) _ p in
      let (b, pb, p'') = >>=-eq-ok (apply r x) _ p' in
      let (ea, ba) = apply-exact l x a hl hx pa in
      let (eb, bb) = apply-exact r x b hr hx pb in rw (ea, eb) (apply_op-exact op a b y ba bb p'')

  apply_op_fails :
      (op : BinaryOp) (a b : ℕ) (t : Thrown)
      → apply_op op a b ≡ err t
      → (t ≡ overflow_error) ⊎ (t ≡ range_error)
  unfolding apply_op
  apply_op_fails add a b t h = ground (arith, u.add_lem a b)
  apply_op_fails sub a b t h = ground (arith, u.sub_lem a b)
  apply_op_fails mul a b t h = ground (arith, u.mul_lem a b)
  apply_op_fails div a b t h = ground (arith, u.div_lem a b)
  apply_op_fails mod_ a b t h = ground (arith, u.rem_lem a b)
  apply_op_fails exp a b t h = ground (arith, pow_lem a b)

  -- All that apply throws is an overflow error or a range error of the arithmetic.
  pub apply_fails :
      (e : Eq) (x : ℕ) (t : Thrown) → apply e x ≡ err t → (t ≡ overflow_error) ⊎ (t ≡ range_error)
  unfolding apply
  apply_fails (constant n) x t p = cc
  apply_fails var x t p = cc
  apply_fails (binary op l r) x t p = elim (>>=-eq-err (apply l x) _ p) [
    | inl q ↦ apply_fails l x t q
    | inr (a, pa, p') ↦ elim (>>=-eq-err (apply r x) _ p') [
      | inl q ↦ apply_fails r x t q
      | inr (b, pb, p'') ↦ apply_op_fails op a b t p''
    ]
  ]
