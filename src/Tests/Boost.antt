-- ===== src/Tests/Boost.antt =====
-- An instance of the checked integers, as the documentation of Boost describes them.
use bandchain_legacy.Common.{
  ℕ, ◌+◌, ◌-◌, ◌*◌, ◌/◌, ◌%◌, ◌^◌, ◌<◌, ◌≡◌, ◌⊎◌, refl, arith, ltb, if◌then◌else◌, ◌==◌,
}
use bandchain_legacy.Thrown.{Thrown, Result, ok, err, overflow_error, range_error}
use bandchain_legacy.Uint256.{CheckedUint, u256_mod}

abbrev checked_shl : ℕ → ℕ → Result ℕ
checked_shl a k = if ltb (a * 2 ^ k) u256_mod then ok (a * 2 ^ k) else err overflow_error

pub checked_shl_lem : (a k : ℕ) → a * 2 ^ k < u256_mod → checked_shl a k ≡ ok (a * 2 ^ k)
checked_shl_lem a k h = ground arith

pub checked_shl_fails :
    (a k : ℕ) (e : Thrown) → checked_shl a k ≡ err e → (e ≡ overflow_error) ⊎ (e ≡ range_error)
checked_shl_fails a k e h = ground arith

abbrev pub boost : CheckedUint
boost = record {
  add = λ a b. if ltb (a + b) u256_mod then ok (a + b) else err overflow_error;
  sub = λ a b. if ltb a b then err range_error else ok (a - b);
  mul = λ a b. if ltb (a * b) u256_mod then ok (a * b) else err overflow_error;
  div = λ a b. if b == 0 then err overflow_error else ok (a / b);
  rem = λ a b. if b == 0 then err overflow_error else ok (a % b);
  shl = checked_shl;
  add_lem = λ a b. refl;
  sub_lem = λ a b. refl;
  mul_lem = λ a b. refl;
  div_lem = λ a b. refl;
  rem_lem = λ a b. refl;
  shl_lem = checked_shl_lem;
  shl_fails = checked_shl_fails;
}
