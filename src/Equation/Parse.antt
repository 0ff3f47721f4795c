-- ===== src/Equation/Parse.antt =====
-- `Eq::parse` of src/util/equation.cc on any bytes, well formed or not.
use bandchain_legacy.Common.{ℕ, zero, suc, ◌≤◌, ◌<◌, ◌≡◌, ◌⊎◌, inl, inr, length, arith}
use bandchain_legacy.Thrown.{
  Thrown, Result, ok, err, error, undefined, overflow_error, range_error, runtime_error, >>=-eq-ok,
  >>=-eq-err,
}
use bandchain_legacy.Uint256.{CheckedUint, u256_mod}
use bandchain_legacy.Buffer.{Bytes, uint16, uint256, bits_of}
use bandchain_legacy.Buffer.Decode.{varint_decode_bounds, varint_decode_fails, IsReadFailure}
use bandchain_legacy.Buffer.Values.{read_int}
use bandchain_legacy.Equation.{
  OpCode, binary_code, constant_code, variable_code, Eq, from_integral, read_opcode, parse_case,
  parse_fuel, parse,
}
use bandchain_legacy.Equation.RoundTrip.{Fits}

-- What parsing may throw: what reading a number may, or that an enum does not know a number.
abbrev pub IsParseFailure : Thrown → Type 0
IsParseFailure runtime_error = Unit
IsParseFailure e = IsReadFailure e

from_integral_fails : (v : ℕ) (e : Thrown) → from_integral v ≡ err e → e ≡ runtime_error
unfolding from_integral
from_integral_fails v e h = ground arith

pub from_integral_unknown : (v : ℕ) → (v ≡ 0) ⊎ (8 < v) → from_integral v ≡ err runtime_error
unfolding from_integral
from_integral_unknown v h = ground arith

read-IsParseFailure : (e : Thrown) → IsReadFailure e → IsParseFailure e
read-IsParseFailure error h = h
read-IsParseFailure undefined h = h
read-IsParseFailure overflow_error h = h
read-IsParseFailure range_error h = h
read-IsParseFailure runtime_error h = tt
read-IsParseFailure _ h = h

module _ ⦃u : CheckedUint⦄ where
  read_opcode_takes :
      (buf : Bytes) (c : OpCode) (rest : Bytes)
      → read_opcode buf ≡ ok (c, rest)
      → length rest < length buf
  unfolding read_opcode read_int
  read_opcode_takes buf c rest h =
      let ((v, rest'), q, h') = >>=-eq-ok (read_int uint16 buf) _ h in
      ground (arith, varint_decode_bounds uint16 buf v rest' q)

  read_opcode_fails : (buf : Bytes) (e : Thrown) → read_opcode buf ≡ err e → IsParseFailure e
  unfolding read_opcode read_int
  read_opcode_fails buf e h = elim (>>=-eq-err (read_int uint16 buf) _ h) [
    | inl q ↦ read-IsParseFailure e (varint_decode_fails uint16 buf e q)
    | inr ((v, rest), q, h') ↦ elim (>>=-eq-err (from_integral v) _ h') [
      | inl q' ↦ rw (from_integral_fails v e q') tt
      | inr (c, q', h'') ↦ cc
    ]
  ]

  read_constant_takes :
      (buf : Bytes) (n : ℕ) (rest : Bytes)
      → read_int uint256 buf ≡ ok (n, rest)
      → (length rest < length buf) × (n < u256_mod)
  unfolding read_int bits_of
  read_constant_takes buf n rest h =
      let (small, shorter) = varint_decode_bounds uint256 buf n rest h in (shorter, small)

  -- A call of `Eq::parse` that shortens the buffer and returns an equation that fits.
  abbrev Takes : (Bytes → Result (Eq × Bytes)) → Type 0
  Takes parse_eq =
      (buf : Bytes) (e : Eq) (rest : Bytes)
      → parse_eq buf ≡ ok (e, rest)
      → (length rest < length buf) × Fits e

  parse_case_shorter :
      (parse_eq : Bytes → Result (Eq × Bytes)) (code : OpCode) (buf : Bytes) (e : Eq) (rest : Bytes)
      → Takes parse_eq
      → parse_case parse_eq code buf ≡ ok (e, rest)
      → (length rest ≤ length buf) × Fits e
  unfolding parse_case
  parse_case_shorter parse_eq (binary_code op) buf e rest takes h =
      let ((l, rest'), p, h') = >>=-eq-ok (parse_eq buf) _ h in
      let ((r, rest''), q, h'') = >>=-eq-ok (parse_eq rest') _ h' in
      ground (arith, takes buf l rest' p, takes rest' r rest'' q)
  parse_case_shorter parse_eq constant_code buf e rest takes h =
      let ((n, rest'), p, h') = >>=-eq-ok (read_int uint256 buf) _ h in
      ground (arith, read_constant_takes buf n rest' p)
  parse_case_shorter parse_eq variable_code buf e rest takes h = ground arith

  parse_fuel_shorter : (fuel : ℕ) → Takes (parse_fuel fuel)
  unfolding parse_fuel
  parse_fuel_shorter zero buf e rest h = cc
  parse_fuel_shorter (suc fuel) buf e rest h =
      let ((code, rest'), p, h') = >>=-eq-ok (read_opcode buf) _ h in
      let (shorter, fits) =
        parse_case_shorter (parse_fuel fuel) code rest' e rest (parse_fuel_shorter fuel) h' in
      (omega (arith, read_opcode_takes buf code rest' p), fits)

  -- An equation that was parsed has constants below 2 ^ 256 only, and parsing took at least one
  -- byte.
  pub parse_takes :
      (buf : Bytes) (e : Eq) (rest : Bytes)
      → parse buf ≡ ok (e, rest)
      → (length rest < length buf) × Fits e
  unfolding parse
  parse_takes buf e rest h = parse_fuel_shorter (suc (length buf)) buf e rest h

  parse_case_fails :
      (parse_eq : Bytes → Result (Eq × Bytes)) (code : OpCode) (buf : Bytes) (e : Thrown)
      → Takes parse_eq
      → ((b : Bytes) → length b ≤ length buf → parse_eq b ≡ err e → IsParseFailure e)
      → parse_case parse_eq code buf ≡ err e
      → IsParseFailure e
  unfolding parse_case read_int
  parse_case_fails parse_eq (binary_code op) buf e takes fails h =
      elim (>>=-eq-err (parse_eq buf) _ h) [
        | inl p ↦ fails buf (omega arith) p
        | inr ((l, rest), p, h') ↦ elim (>>=-eq-err (parse_eq rest) _ h') [
          | inl q ↦ fails rest (omega (arith, (takes buf l rest p).0)) q
          | inr (x, q, h'') ↦ cc
        ]
      ]
  parse_case_fails parse_eq constant_code buf e takes fails h =
      elim (>>=-eq-err (read_int uint256 buf) _ h) [
        | inl p ↦ read-IsParseFailure e (varint_decode_fails uint256 buf e p)
        | inr (x, p, h') ↦ cc
      ]
  parse_case_fails parse_eq variable_code buf e takes fails h = cc

  parse_fuel_fails :
      (fuel : ℕ) (buf : Bytes) (e : Thrown)
      → length buf < fuel
      → parse_fuel fuel buf ≡ err e
      → IsParseFailure e
  unfolding parse_fuel
  parse_fuel_fails zero buf e hf h = absurd (omega arith)
  parse_fuel_fails (suc fuel) buf e hf h = elim (>>=-eq-err (read_opcode buf) _ h) [
    | inl p ↦ read_opcode_fails buf e p
    | inr ((code, rest), p, h') ↦
        let shorter = read_opcode_takes buf code rest p in
        parse_case_fails (parse_fuel fuel) code rest e (parse_fuel_shorter fuel)
          (λ b hb q. parse_fuel_fails fuel b e (omega arith) q) h'
  ]

  -- An exception of parsing is one of those of reading a number, or std::runtime_error for an
  -- unknown operation code: parsing never runs out of fuel, on any input, and never throws the
  -- Failure that stands behind the switch.
  pub parse_fails : (buf : Bytes) (e : Thrown) → parse buf ≡ err e → IsParseFailure e
  unfolding parse
  parse_fails buf e h = parse_fuel_fails (suc (length buf)) buf e (omega arith) h

  -- Where the first number of the buffer is read and is 0 or above 8, parsing throws
  -- std::runtime_error.
  pub parse_unknown :
      (buf rest : Bytes) (v : ℕ)
      → read_int uint16 buf ≡ ok (v, rest)
      → (v ≡ 0) ⊎ (8 < v)
      → parse buf ≡ err runtime_error
  unfolding parse parse_fuel read_opcode
  parse_unknown buf rest v p h = rw (p, from_integral_unknown v h)
