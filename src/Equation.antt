-- ===== src/Equation.antt =====
-- src/util/equation.h and src/util/equation.cc: bonding curves as expression trees.
pub mod Apply
pub mod RoundTrip
pub mod Parse
use bandchain_legacy.Common.{
  ℕ, zero, suc, ◌+◌, ◌≡◌, Option, none, some, [], ◌++◌, length, ◌==◌, if◌then◌else◌,
}
use bandchain_legacy.Thrown.{Result, ok, err, error, failure, runtime_error, out_of_fuel, ◌>>=◌}
use bandchain_legacy.Uint256.{CheckedUint}
use bandchain_legacy.Buffer.{Bytes, Reader, uint16, uint256}
use bandchain_legacy.Buffer.Values.{write_int, read_int}

-- The operators of `EqBinary`, and the operation codes.
pub data BinaryOp : Type 0 where
  add sub mul div mod_ exp : BinaryOp

pub data OpCode : Type 0 where
  binary_code : BinaryOp → OpCode
  constant_code variable_code : OpCode

-- `EqAdd` to `EqExp` are `binary` at their operator.
pub data Eq : Type 0 where
  binary : BinaryOp → Eq → Eq → Eq
  constant : ℕ → Eq
  var : Eq

-- A Curve may hold no equation.
abbrev pub Curve : Type 0
Curve = Option Eq

unfoldable pub binary_integral : BinaryOp → ℕ
binary_integral add = 1
binary_integral sub = 2
binary_integral mul = 3
binary_integral div = 4
binary_integral mod_ = 5
binary_integral exp = 6

unfoldable pub to_integral : OpCode → ℕ
unfolding binary_integral
to_integral (binary_code op) = binary_integral op
to_integral constant_code = 7
to_integral variable_code = 8

-- `OpCode::_from_integral` throws `std::runtime_error` at a number that is not declared.
unfoldable pub from_integral : ℕ → Result OpCode
from_integral v =
    if v == 1
    then ok (binary_code add)
    else if v == 2
    then ok (binary_code sub)
    else if v == 3
    then ok (binary_code mul)
    else if v == 4
    then ok (binary_code div)
    else if v == 5
    then ok (binary_code mod_)
    else if v == 6
    then ok (binary_code exp)
    else if v == 7
    then ok constant_code
    else if v == 8
    then ok variable_code
    else err runtime_error

-- `Eq::dump`
unfoldable pub dump : Bytes → Eq → Bytes
unfolding to_integral
dump buf (binary op l r) = dump (dump (write_int buf (to_integral (binary_code op))) l) r
dump buf (constant n) = write_int (write_int buf (to_integral constant_code)) n
dump buf var = write_int buf (to_integral variable_code)

-- `Eq::clone`
unfoldable pub clone : Eq → Eq
clone (binary op l r) = binary op (clone l) (clone r)
clone (constant n) = constant n
clone var = var

module _ ⦃u : CheckedUint⦄ where
  -- `pow` of the unnamed namespace: `r` rounds of `v *= l`.
  unfoldable pub pow_loop : ℕ → ℕ → ℕ → Result ℕ
  pow_loop l v zero = ok v
  pow_loop l v (suc r) = do v' ← u.mul v l; pow_loop l v' r

  unfoldable pub pow : ℕ → ℕ → Result ℕ
  unfolding pow_loop
  pow l r = pow_loop l 1 r

  unfoldable pub apply_op : BinaryOp → ℕ → ℕ → Result ℕ
  apply_op add l r = u.add l r
  apply_op sub l r = u.sub l r
  apply_op mul l r = u.mul l r
  apply_op div l r = u.div l r
  apply_op mod_ l r = u.rem l r
  apply_op exp l r = pow l r

  -- `Eq::apply`; the left operand is taken to be evaluated first.
  unfoldable pub apply : Eq → ℕ → Result ℕ
  apply (binary op l r) x = do a ← apply l x; b ← apply r x; apply_op op a b
  apply (constant n) x = ok n
  apply var x = ok x

  unfoldable pub read_opcode : Reader OpCode
  unfolding from_integral
  read_opcode buf = do (v, rest) ← read_int uint16 buf; code ← from_integral v; ok (code, rest)

  -- The `switch` of `Eq::parse`; the constructor of `EqBinary` from a buffer parses two operands.
  unfoldable pub parse_case : Reader Eq → OpCode → Reader Eq
  parse_case parse_eq (binary_code op) buf = do
    (l, rest) ← parse_eq buf
    (r, rest') ← parse_eq rest
    ok (binary op l r, rest')
  parse_case parse_eq constant_code buf = do (n, rest) ← read_int uint256 buf; ok (constant n, rest)
  parse_case parse_eq variable_code buf = ok (var, buf)

  -- `Eq::parse` is recursive; the fuel bounds the depth of the calls.
  unfoldable pub parse_fuel : ℕ → Reader Eq
  unfolding parse_case
  parse_fuel zero buf = err out_of_fuel
  parse_fuel (suc fuel) buf = do
    (code, rest) ← read_opcode buf
    parse_case (parse_fuel fuel) code rest

  -- Every call takes a byte at least.
  unfoldable pub parse : Reader Eq
  unfolding parse_fuel
  parse buf = parse_fuel (suc (length buf)) buf

  -- `Curve::apply`
  unfoldable pub curve_apply : Curve → ℕ → Result ℕ
  curve_apply none x = err error
  curve_apply (some e) x = apply e x

  -- `operator>>` of a Curve
  unfoldable pub read_curve : Reader Curve
  read_curve buf = do (e, rest) ← parse buf; ok (some e, rest)

-- `operator<<` of a Curve
unfoldable pub write_curve : Bytes → Curve → Result Bytes
write_curve buf none = err failure
write_curve buf (some e) = ok (dump buf e)

-- `Curve::linear`
unfoldable pub linear : Curve
linear = some var
