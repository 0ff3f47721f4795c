-- ===== src/Equation/RoundTrip.antt =====
-- `Eq::parse` of src/util/equation.cc reads back what `Eq::dump` wrote.
use bandchain_legacy.Common.{
  ℕ, zero, suc, ◌+◌, ◌^◌, ◌≤◌, ◌<◌, ◌≡◌, refl, ap, ◌∙◌, sym, [], ◌++◌, append_assoc, length,
  length-append, arith,
}
use bandchain_legacy.Thrown.{ok}
use bandchain_legacy.Uint256.{CheckedUint, u256_mod}
use bandchain_legacy.Buffer.{Bytes, uint16, uint256, bits_of}
use bandchain_legacy.Buffer.Codec.{Codec}
use bandchain_legacy.Buffer.Values.{write_int}
use bandchain_legacy.Buffer.ValuesRoundTrip.{
  write_int-append, read_int-write_int, length-write_int_pos,
}
use bandchain_legacy.Equation.{
  BinaryOp, add, sub, mul, div, mod_, exp, OpCode, binary_code, constant_code, variable_code, Eq,
  binary, constant, var, to_integral, from_integral, dump, clone, read_opcode, parse_fuel, parse,
}

-- Every constant is a `uint256_t`.
abbrev pub Fits : Eq → Type 0
Fits (binary op l r) = Fits l × Fits r
Fits (constant n) = n < u256_mod
Fits var = Unit {0}

pub size : Eq → ℕ
size (binary op l r) = 1 + size l + size r
size (constant n) = 1
size var = 1

pub dump-append : (buf : Bytes) (e : Eq) → dump buf e ≡ buf ++ dump [] e
unfolding dump
dump-append buf (constant n) =
    write_int-append (write_int buf 7) n
    ∙ ap (λ r. r ++ write_int [] n) (write_int-append buf 7)
    ∙ append_assoc buf _ _
    ∙ ap (λ r. buf ++ r) (sym (write_int-append (write_int [] 7) n))
dump-append buf var = write_int-append buf 8
dump-append buf (binary op l r) =
    dump-append (dump (write_int buf c) l) r
    ∙ ap (λ b. b ++ dump [] r) (dump-append (write_int buf c) l)
    ∙ ap (λ b. (b ++ dump [] l) ++ dump [] r) (write_int-append buf c)
    ∙ append_assoc (buf ++ write_int [] c) (dump [] l) (dump [] r)
    ∙ append_assoc buf (write_int [] c) (dump [] l ++ dump [] r)
    ∙ ap (λ b. buf ++ b)
        (sym (
          dump-append (dump (write_int [] c) l) r
          ∙ ap (λ b. b ++ dump [] r) (dump-append (write_int [] c) l)
          ∙ append_assoc (write_int [] c) (dump [] l) (dump [] r)))
  where
    c : ℕ
    c = to_integral (binary_code op)

-- `EqBinary::dump` puts its code before the operands.
dump_binary :
    (op : BinaryOp) (l r : Eq)
    → dump [] (binary op l r)
      ≡ write_int [] (to_integral (binary_code op)) ++ (dump [] l ++ dump [] r)
unfolding dump
dump_binary op l r =
    dump-append (dump (write_int [] c) l) r
    ∙ ap (λ b. b ++ dump [] r) (dump-append (write_int [] c) l)
    ∙ append_assoc _ (dump [] l) (dump [] r)
  where
    c : ℕ
    c = to_integral (binary_code op)

-- The deep copy of an equation is the equation.
pub clone_lem : (e : Eq) → clone e ≡ e
unfolding clone
clone_lem (binary op l r) = rw (clone_lem l, clone_lem r)
clone_lem (constant n) = refl
clone_lem var = refl

-- Every code is told apart by its number.
from_integral-to_integral : (c : OpCode) → from_integral (to_integral c) ≡ ok c
unfolding from_integral to_integral
from_integral-to_integral (binary_code add) = refl
from_integral-to_integral (binary_code sub) = refl
from_integral-to_integral (binary_code mul) = refl
from_integral-to_integral (binary_code div) = refl
from_integral-to_integral (binary_code mod_) = refl
from_integral-to_integral (binary_code exp) = refl
from_integral-to_integral constant_code = refl
from_integral-to_integral variable_code = refl

to_integral_bound : (c : OpCode) → to_integral c < 2 ^ bits_of uint16
unfolding to_integral bits_of
to_integral_bound (binary_code add) = omega arith
to_integral_bound (binary_code sub) = omega arith
to_integral_bound (binary_code mul) = omega arith
to_integral_bound (binary_code div) = omega arith
to_integral_bound (binary_code mod_) = omega arith
to_integral_bound (binary_code exp) = omega arith
to_integral_bound constant_code = omega arith
to_integral_bound variable_code = omega arith

size-le-length-dump : (e : Eq) → size e ≤ length (dump [] e)
unfolding size
size-le-length-dump (binary op l r) = rw (dump_binary op l r) (
    omega (
      arith,
      length-append (write_int [] (to_integral (binary_code op))) (dump [] l ++ dump [] r),
      length-append (dump [] l) (dump [] r),
      length-write_int_pos (to_integral (binary_code op)),
      size-le-length-dump l,
      size-le-length-dump r,
    ))
size-le-length-dump (constant n) =
    unfold dump in
    omega (
      arith,
      ap length (write_int-append (write_int [] 7) n),
      length-append (write_int [] 7) (write_int [] n),
      length-write_int_pos 7,
    )
size-le-length-dump var = unfold dump in omega (arith, length-write_int_pos 8)

module _ ⦃u : CheckedUint⦄ where
  read_opcode_written :
      (c : OpCode) (rest : Bytes)
      → read_opcode (write_int [] (to_integral c) ++ rest) ≡ ok (c, rest)
  unfolding read_opcode
  read_opcode_written c rest = rw (
    read_int-write_int uint16 (to_integral c) rest (to_integral_bound c),
    from_integral-to_integral c,
  )

  parse_fuel-dump :
      (fuel : ℕ) (e : Eq) (rest : Bytes)
      → Fits e
      → size e ≤ fuel
      → parse_fuel fuel (dump [] e ++ rest) ≡ ok (e, rest)
  unfolding parse_fuel size bits_of
  parse_fuel-dump zero (binary op l r) rest h hs = absurd (omega arith)
  parse_fuel-dump zero (constant n) rest h hs = absurd (omega arith)
  parse_fuel-dump zero var rest h hs = absurd (omega arith)
  parse_fuel-dump (suc fuel) (binary op l r) rest (hl, hr) hs = rw (
    dump_binary op l r,
    append_assoc (write_int [] (to_integral (binary_code op))) (dump [] l ++ dump [] r) rest,
    read_opcode_written (binary_code op) ((dump [] l ++ dump [] r) ++ rest),
    append_assoc (dump [] l) (dump [] r) rest,
    parse_fuel-dump fuel l (dump [] r ++ rest) hl (omega arith),
    parse_fuel-dump fuel r rest hr (omega arith),
  )
  parse_fuel-dump (suc fuel) (constant n) rest h hs =
      unfold dump in
      rw (
        write_int-append (write_int [] (to_integral constant_code)) n,
        append_assoc (write_int [] (to_integral constant_code)) (write_int [] n) rest,
        read_opcode_written constant_code (write_int [] n ++ rest),
        read_int-write_int uint256 n rest h,
      )
  parse_fuel-dump (suc fuel) var rest h hs =
      unfold dump in rw (read_opcode_written variable_code rest)

  -- Parsing the dumped bytes of an equation whose constants are below 2 ^ 256 gives the equation,
  -- and leaves whatever follows; the fuel that parsing starts with is enough.
  pub parse-dump : (e : Eq) (rest : Bytes) → Fits e → parse (dump [] e ++ rest) ≡ ok (e, rest)
  unfolding parse
  parse-dump e rest h =
      parse_fuel-dump (suc (length (dump [] e ++ rest))) e rest h
        (omega (arith, size-le-length-dump e, length-append (dump [] e) rest))

  abbrev pub eq_codec : Codec Eq
  eq_codec = record {
    write = dump;
    read = parse;
    Fits = Fits;
    write-append = dump-append;
    read-write = parse-dump;
  }
