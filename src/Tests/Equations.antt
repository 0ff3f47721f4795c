-- ===== src/Tests/Equations.antt =====
-- Curves of src/util/equation.cc, at concrete values.
use bandchain_legacy.Common.{
  ℕ, ◌^◌, ◌<◌, ◌≡◌, refl, [], ◌∷◌, ◌++◌, length, some, arith, ltb, if◌then◌else◌,
}
use bandchain_legacy.Thrown.{ok, err, overflow_error, range_error, runtime_error}
use bandchain_legacy.Uint256.{u256_mod}
use bandchain_legacy.Buffer.{uint16, varint_decode, decode_loop, shift_left, bits_of}
use bandchain_legacy.Buffer.Values.{read_int}
use bandchain_legacy.Equation.{
  Eq, binary, constant, var, add, sub, mul, dump, pow, apply, apply_op, parse, read_opcode,
}
use bandchain_legacy.Equation.RoundTrip.{parse-dump, Fits}
use bandchain_legacy.Equation.Parse.{parse_takes, parse_fails, IsParseFailure}
use bandchain_legacy.Equation.Apply.{exact, pow_lem, apply-exact}
use bandchain_legacy.Tests.Boost.{boost}

-- 2 * x + 5
abbrev line : Eq
line = binary add (binary mul (constant 2) var) (constant 5)

parse-dump_example : parse ⦃u = boost⦄ (dump [] line ++ 1 ∷ []) ≡ ok (line, 1 ∷ [])
parse-dump_example = parse-dump ⦃u = boost⦄ line (1 ∷ []) ((omega arith, tt), omega arith)

at_ten : apply ⦃u = boost⦄ line 10 ≡ ok 25
unfolding apply apply_op
at_ten = refl

apply-exact_example : (exact line 10 ≡ some 25) × (25 < u256_mod)
apply-exact_example =
    apply-exact ⦃u = boost⦄ line 10 25 ((omega arith, tt), omega arith) (omega arith) at_ten

below_zero : apply ⦃u = boost⦄ (binary sub (constant 1) var) 2 ≡ err range_error
unfolding apply apply_op
below_zero = refl

pow_lem_example :
    pow ⦃u = boost⦄ 3 4 ≡ (if ltb (3 ^ 4) u256_mod then ok (3 ^ 4) else err overflow_error)
pow_lem_example = pow_lem ⦃u = boost⦄ 3 4

-- The bytes of x.
parsed : parse ⦃u = boost⦄ (8 ∷ 3 ∷ []) ≡ ok (var, 3 ∷ [])
unfolding parse read_opcode read_int varint_decode decode_loop shift_left bits_of
parsed = refl

parse_takes_example : (length {A = ℕ} (3 ∷ []) < length {A = ℕ} (8 ∷ 3 ∷ [])) × Fits var
parse_takes_example = parse_takes ⦃u = boost⦄ (8 ∷ 3 ∷ []) var (3 ∷ []) parsed

read_nine : read_int ⦃u = boost⦄ uint16 (9 ∷ []) ≡ ok (9, [])
unfolding read_int varint_decode decode_loop shift_left bits_of
read_nine = refl

parsed_nine : parse ⦃u = boost⦄ (9 ∷ []) ≡ err runtime_error
unfolding parse read_opcode read_int varint_decode decode_loop shift_left bits_of
parsed_nine = refl

parse_fails_example : IsParseFailure runtime_error
parse_fails_example = parse_fails ⦃u = boost⦄ (9 ∷ []) runtime_error parsed_nine
