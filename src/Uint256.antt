-- ===== src/Uint256.antt =====
-- `uint256_t` of src/inc/essential.h: Boost's checked unsigned integer of 256 bits, which is not
-- part of the repository. It is an interface: the operations on the numbers below 2 ^ 256, and
-- the documented behaviour, that a result out of range is thrown and not wrapped.
mod Limits
pub use Limits.{u256_mod}
use bandchain_legacy.Common.{
  ℕ, ◌+◌, ◌-◌, ◌*◌, ◌/◌, ◌%◌, ◌^◌, ◌≤◌, ◌<◌, ◌≡◌, ◌⊎◌, arith, ltb, if◌then◌else◌, ◌==◌,
}
use bandchain_legacy.Thrown.{Thrown, Result, ok, err, overflow_error, range_error}

-- Of a left shift that loses bits only the exceptions are known.
pub record CheckedUint : Type 0 where
  pub add : ℕ → ℕ → Result ℕ
  pub sub : ℕ → ℕ → Result ℕ
  pub mul : ℕ → ℕ → Result ℕ
  pub div : ℕ → ℕ → Result ℕ
  pub rem : ℕ → ℕ → Result ℕ
  pub shl : ℕ → ℕ → Result ℕ
  pub add_lem :
      (a b : ℕ) → add a b ≡ (if ltb (a + b) u256_mod then ok (a + b) else err overflow_error)
  pub sub_lem : (a b : ℕ) → sub a b ≡ (if ltb a b then err range_error else ok (a - b))
  pub mul_lem :
      (a b : ℕ) → mul a b ≡ (if ltb (a * b) u256_mod then ok (a * b) else err overflow_error)
  pub div_lem : (a b : ℕ) → div a b ≡ (if b == 0 then err overflow_error else ok (a / b))
  pub rem_lem : (a b : ℕ) → rem a b ≡ (if b == 0 then err overflow_error else ok (a % b))
  pub shl_lem : (a k : ℕ) → a * 2 ^ k < u256_mod → shl a k ≡ ok (a * 2 ^ k)
  pub shl_fails :
      (a k : ℕ) (e : Thrown) → shl a k ≡ err e → (e ≡ overflow_error) ⊎ (e ≡ range_error)

module _ ⦃u : CheckedUint⦄ where
  pub add-eq-ok : (a b c : ℕ) → u.add a b ≡ ok c → (c ≡ a + b) × (a + b < u256_mod)
  add-eq-ok a b c h = ground (arith, u.add_lem a b)

  pub sub-eq-ok : (a b c : ℕ) → u.sub a b ≡ ok c → (c + b ≡ a) × (b ≤ a)
  sub-eq-ok a b c h = ground (arith, u.sub_lem a b)

  pub add_ok : (a b : ℕ) → a + b < u256_mod → u.add a b ≡ ok (a + b)
  add_ok a b h = ground (arith, u.add_lem a b)

  pub sub_ok : (a b : ℕ) → b ≤ a → u.sub a b ≡ ok (a - b)
  sub_ok a b h = ground (arith, u.sub_lem a b)
