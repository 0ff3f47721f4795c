-- ===== src/Buffer/Decode.antt =====
-- `varint_decode` of src/util/buffer.h on any bytes, well formed or not.
use native.Mathlib.Nat.{mod-lt}
use bandchain_legacy.Common.{
  ℕ, ◌+◌, ◌*◌, ◌%◌, ◌^◌, ◌≤◌, ◌<◌, ◌≡◌, ◌≢◌, ap, refl, ◌⊎◌, inl, inr, Bool, true, false,
  if◌then◌else◌, bit_and, bit_or, [], ◌∷◌, ◌++◌, length, length-drop, drop, All, arith,
}
use bandchain_legacy.Common.Bits.{bit_and_0x80}
use bandchain_legacy.Thrown.{
  Thrown, Result, ok, err, error, undefined, overflow_error, range_error, >>=-eq-ok, Result-cases,
}
use bandchain_legacy.Uint256.{CheckedUint}
use bandchain_legacy.Buffer.Types.{Bytes, IntType, uint8, uint16, uint32, uint64, uint256, bits_of}
use bandchain_legacy.Buffer.Varint.{int_shift, word_shift, shift_left, decode_loop, varint_decode}

two_pow_pos : (t : IntType) → 0 < 2 ^ bits_of t
unfolding bits_of
two_pow_pos t = ground arith

-- What a reader of numbers may throw.
abbrev pub IsReadFailure : Thrown → Type 0
IsReadFailure error = Unit
IsReadFailure undefined = Unit
IsReadFailure overflow_error = Unit
IsReadFailure range_error = Unit
IsReadFailure _ = ⊥

if-cases :
    (b : Bool) (v : ℕ)
    → ((if b then ok v else err undefined) ≡ err undefined)
      ⊎ ((s : ℕ) × ((if b then ok v else err undefined) ≡ ok s))
if-cases true v = inr (v, refl)
if-cases false v = inl refl

module _ ⦃u : CheckedUint⦄ where
  decode_loop_bounds :
      (t : IntType) (buf : Bytes) (idx val v n : ℕ)
      → decode_loop t buf idx val ≡ ok (v, n)
      → (v < 2 ^ bits_of t) × (idx < n) × (n ≤ idx + length buf)
  unfolding decode_loop
  decode_loop_bounds t (b ∷ bs) idx val v n h =
      let (s, e, h') = >>=-eq-ok (shift_left t (bit_and b 0x7f) (7 * idx)) _ h in
      let val' = bit_or val s % 2 ^ bits_of t in
      let small : val' < 2 ^ bits_of t = mod-lt (bit_or val s) (two_pow_pos t) in
      ground (arith, decode_loop_bounds t bs (idx + 1) val' v n)
  decode_loop_bounds t [] idx val v n h = ground arith

  -- A decoded value is below 2 ^ w, for the w bits of its type, and at least one byte was taken.
  pub varint_decode_bounds :
      (t : IntType) (buf : Bytes) (v : ℕ) (rest : Bytes)
      → varint_decode t buf ≡ ok (v, rest)
      → (v < 2 ^ bits_of t) × (length rest < length buf)
  unfolding varint_decode
  varint_decode_bounds t buf v rest h =
      let (p, e, h') = >>=-eq-ok (decode_loop t buf 0 0) _ h in
      ground
        (arith, decode_loop_bounds t buf 0 0 p.0 p.1 e, length-drop p.1 buf, ap length (left p h'))
    where
      left :
          (p : ℕ × ℕ)
          → ◌≡◌ {A = Result (ℕ × Bytes)} (ok (p.0, drop p.1 buf)) (ok (v, rest))
          → drop p.1 buf ≡ rest
      left p e = cc

  -- The types that the hardware has: a varint of these with too many bytes is undefined.
  abbrev pub IsContinued : ℕ → Type 0
  IsContinued b = (128 ≤ b) × (b < 256)

  shift_wide : (t : IntType) (x k : ℕ) → t ≢ uint256 → 64 ≤ k → shift_left t x k ≡ err undefined
  unfolding shift_left
  shift_wide uint256 x k ht hk = absurd (ht refl)
  shift_wide uint8 x k ht hk = ground arith
  shift_wide t x k ht hk = ground arith

  shift_cases :
      (t : IntType) (x k : ℕ)
      → t ≢ uint256
      → (shift_left t x k ≡ err undefined) ⊎ ((s : ℕ) × (shift_left t x k ≡ ok s))
  unfolding shift_left int_shift word_shift
  shift_cases uint256 x k ht = absurd (ht refl)
  shift_cases uint8 x k ht = if-cases _ _
  shift_cases uint16 x k ht = if-cases _ _
  shift_cases uint32 x k ht = if-cases _ _
  shift_cases uint64 x k ht = if-cases _ _

  decode_loop_continued :
      (t : IntType) (bs more : Bytes) (idx val : ℕ)
      → t ≢ uint256
      → All IsContinued bs
      → 64 ≤ 7 * idx + 7 * length bs
      → 0 < length more
      → decode_loop t (bs ++ more) idx val ≡ err undefined
  unfolding decode_loop
  decode_loop_continued t [] [] idx val ht hb hl hm = absurd (omega arith)
  decode_loop_continued t [] (b ∷ more) idx val ht hb hl hm =
      rw (shift_wide t (bit_and b 0x7f) (7 * idx) ht (omega arith)) refl
  decode_loop_continued t (b ∷ bs) more idx val ht (hb, hbs) hl hm =
      elim (shift_cases t (bit_and b 0x7f) (7 * idx) ht) [
        | inl e ↦ rw e refl
        | inr (s, e) ↦ rw e (
            ground (
              arith,
              bit_and_0x80 b,
              decode_loop_continued t bs more (idx + 1) (bit_or val s % 2 ^ bits_of t) ht hbs
                  (omega arith) hm,
            ))
      ]

  -- At the types of 8 to 64 bits, a buffer that begins with ten continued bytes or more, and has
  -- a byte behind them, is undefined behaviour of the decoder.
  pub varint_decode_continued :
      (t : IntType) (bs more : Bytes)
      → t ≢ uint256
      → All IsContinued bs
      → 10 ≤ length bs
      → 0 < length more
      → varint_decode t (bs ++ more) ≡ err undefined
  unfolding varint_decode
  varint_decode_continued t bs more ht hb hl hm =
      rw (decode_loop_continued t bs more 0 0 ht hb (omega arith) hm) refl

  -- Bytes that never end a number are refused, and not read past.
  decode_loop_unfinished :
      (bs : Bytes) (idx val : ℕ)
      → All IsContinued bs
      → 7 * idx + 7 * length bs ≤ 63
      → decode_loop uint64 bs idx val ≡ err error
  unfolding decode_loop shift_left
  decode_loop_unfinished [] idx val hb hl = refl
  decode_loop_unfinished (b ∷ bs) idx val (hb, hbs) hl = ground (
    arith,
    bit_and_0x80 b,
    decode_loop_unfinished bs (idx + 1)
        (bit_or val (bit_and b 0x7f * 2 ^ (7 * idx) % 2 ^ 64) % 2 ^ bits_of uint64) hbs
        (omega arith),
  )

  shift_fails : (t : IntType) (x k : ℕ) (e : Thrown) → shift_left t x k ≡ err e → IsReadFailure e
  unfolding shift_left
  shift_fails uint8 x k e h = ground arith
  shift_fails uint16 x k e h = ground arith
  shift_fails uint32 x k e h = ground arith
  shift_fails uint64 x k e h = ground arith
  shift_fails uint256 x k e h = ground (arith, u.shl_fails x k e h)

  decode_loop_fails :
      (t : IntType) (buf : Bytes) (idx val : ℕ) (e : Thrown)
      → decode_loop t buf idx val ≡ err e
      → IsReadFailure e
  unfolding decode_loop
  decode_loop_fails t [] idx val e h = ground arith
  decode_loop_fails t (b ∷ bs) idx val e h =
      elim (Result-cases (shift_left t (bit_and b 0x7f) (7 * idx))) [
        | inl (s, q) ↦
            ground (arith, decode_loop_fails t bs (idx + 1) (bit_or val s % 2 ^ bits_of t) e)
        | inr (x, q) ↦ ground (arith, shift_fails t (bit_and b 0x7f) (7 * idx) x q)
      ]

  -- An exception of decoding a varint is an Error, undefined behaviour of a shift, or an overflow
  -- or range error of the 256-bit integers.
  pub varint_decode_fails :
      (t : IntType) (buf : Bytes) (e : Thrown) → varint_decode t buf ≡ err e → IsReadFailure e
  unfolding varint_decode
  varint_decode_fails t buf e h = ground (arith, decode_loop_fails t buf 0 0 e)
