-- ===== src/Common/Bits.antt =====
-- `|` of disjoint fields and `& 0x7F`, as arithmetic.
use Prim.Native.Nat.{
  ℕ, zero, suc, ◌+◌, ◌*◌, ◌/◌, ◌%◌, ◌^◌, ◌≤◌, ◌<◌, min, max, digits, bit_and, bit_or,
  bit_and-bitwise, bit_or-bitwise,
}
use mathlib.Core.Path.{◌≡◌, refl, ap, ◌∙◌}
use mathlib.Core.Logic.{◌⊎◌, inl, inr}
use native.Mathlib.Nat.{pow-suc}
use native.Mathlib.Omega.{arith}

-- The recursion of `digits` is on fuel: what is above the first number is not used.
module _ (last : ℕ → ℕ) (both : ℕ → ℕ → ℕ) where
  spare_fuel : (n a b : ℕ) → a ≤ n → digits last both (suc n) a b ≡ digits last both n a b
  spare_fuel zero zero b h = refl
  spare_fuel (suc n) zero b h = refl
  spare_fuel zero (suc a) b h = absurd (omega arith)
  spare_fuel (suc n) (suc a) b h = rw (spare_fuel n (suc a / 2) (b / 2) (omega arith)) refl

  all_fuel : (n a b : ℕ) → a ≤ n → digits last both n a b ≡ digits last both a a b
  all_fuel zero a b h = rw zero_a refl
    where
      zero_a : a ≡ 0
      zero_a = omega arith
  all_fuel (suc n) a b h = elim top [
    | inl le ↦ spare_fuel n a b le ∙ all_fuel n a b le
    | inr e ↦ rw e refl
  ]
    where
      top : (a ≤ n) ⊎ (a ≡ suc n)
      top = ground arith

zero-bit_or : (y : ℕ) → bit_or 0 y ≡ y
zero-bit_or y = bit_or-bitwise 0 y

zero-bit_and : (y : ℕ) → bit_and 0 y ≡ 0
zero-bit_and y = bit_and-bitwise 0 y

-- The lowest bit of both numbers, and the others.
bit_or_step : (x y : ℕ) → bit_or x y ≡ max (x % 2) (y % 2) + 2 * bit_or (x / 2) (y / 2)
bit_or_step zero y = omega (arith, zero-bit_or (y / 2), zero-bit_or y)
bit_or_step (suc x) y =
    let half = suc x / 2 in
    omega (
      arith,
      all_fuel (λ z. z) max x half (y / 2) (omega arith),
      bit_or-bitwise half (y / 2),
      bit_or-bitwise (suc x) y,
    )

bit_and_step : (x y : ℕ) → bit_and x y ≡ min (x % 2) (y % 2) + 2 * bit_and (x / 2) (y / 2)
bit_and_step zero y = omega (arith, zero-bit_and (y / 2), zero-bit_and y)
bit_and_step (suc x) y =
    let half = suc x / 2 in
    omega (
      arith,
      all_fuel (λ _. 0) min x half (y / 2) (omega arith),
      bit_and-bitwise half (y / 2),
      bit_and-bitwise (suc x) y,
    )

-- A field above the bits of `a` is added by `|`.
pub bit_or_disjoint : (k a c : ℕ) → a < 2 ^ k → bit_or a (c * 2 ^ k) ≡ a + c * 2 ^ k
bit_or_disjoint zero zero c h = omega (arith, zero-bit_or (c * 2 ^ 0))
bit_or_disjoint zero (suc a) c h = absurd (omega arith)
bit_or_disjoint (suc k) a c h = ground (
  arith,
  pow-suc 2 k,
  ap (λ (t : ℕ). c * t) (pow-suc 2 k),
  bit_or_step a (c * 2 ^ suc k),
  bit_or_disjoint k (a / 2) c,
)

swap_bits : (bound x y : ℕ) → x + y ≤ bound → bit_or x y ≡ bit_or y x
swap_bits zero zero zero h = refl
swap_bits zero (suc x) y h = absurd (omega arith)
swap_bits zero zero (suc y) h = absurd (omega arith)
swap_bits (suc bound) zero zero h = refl
swap_bits (suc bound) (suc x) y h =
    ground
      (arith, bit_or_step (suc x) y, bit_or_step y (suc x), swap_bits bound (suc x / 2) (y / 2))
swap_bits (suc bound) zero (suc y) h =
    ground
      (arith, bit_or_step zero (suc y), bit_or_step (suc y) zero, swap_bits bound zero (suc y / 2))

pub bit_or_comm : (x y : ℕ) → bit_or x y ≡ bit_or y x
bit_or_comm x y = swap_bits (x + y) x y (omega arith)

no_bits : (bound x : ℕ) → x ≤ bound → bit_and x 0 ≡ 0
no_bits bound zero small = refl
no_bits zero (suc x) small = absurd (omega arith)
no_bits (suc bound) (suc x) small =
    let rest = no_bits bound (suc x / 2) (omega arith) in
    omega (arith, rest, bit_and_step (suc x) 0)

pub bit_and_one : (a : ℕ) → bit_and a 1 ≡ a % 2
bit_and_one a = omega (arith, no_bits (a / 2) (a / 2) (omega arith), bit_and_step a 1)

bit_and_seven : (a : ℕ) → bit_and a 7 ≡ a % 8
bit_and_seven a = omega (arith, bit_and_step a 7, bit_and_step (a / 2) 3, bit_and_one (a / 2 / 2))

bit_and_63 : (a : ℕ) → bit_and a 63 ≡ a % 64
bit_and_63 a = omega (
  arith,
  bit_and_step a 63,
  bit_and_step (a / 2) 31,
  bit_and_step (a / 2 / 2) 15,
  bit_and_seven (a / 2 / 2 / 2),
)

-- `a & 0x7F`
pub bit_and_0x7f : (a : ℕ) → bit_and a 0x7f ≡ a % 128
bit_and_0x7f a = omega (arith, bit_and_step a 0x7f, bit_and_63 (a / 2))

bit_and_0x40 : (a : ℕ) → bit_and a 0x40 ≡ a / 64 % 2 * 64
bit_and_0x40 a = omega (
  arith,
  bit_and_step a 64,
  bit_and_step (a / 2) 32,
  bit_and_step (a / 2 / 2) 16,
  bit_and_step (a / 2 / 2 / 2) 8,
  bit_and_step (a / 2 / 2 / 2 / 2) 4,
  bit_and_step (a / 2 / 2 / 2 / 2 / 2) 2,
  bit_and_one (a / 2 / 2 / 2 / 2 / 2 / 2),
)

-- `a & 0x80`
pub bit_and_0x80 : (a : ℕ) → bit_and a 0x80 ≡ a / 128 % 2 * 128
bit_and_0x80 a = omega (arith, bit_and_step a 0x80, bit_and_0x40 (a / 2))

-- `a | 0x80`
pub bit_or_0x80 : (a : ℕ) → a < 128 → bit_or a 0x80 ≡ a + 128
bit_or_0x80 a h = bit_or_disjoint 7 a 1 h
