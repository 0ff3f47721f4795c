-- ===== src/Buffer/Varint.antt =====
-- `varint_encode` and `varint_decode` of src/util/buffer.h.
use mathlib.Core.Logic.{dite}
use mathlib.Core.WellFounded.{Acc, WellFounded}
use native.Mathlib.Decide.{dec_lt}
use bandchain_legacy.Common.{
  ℕ, zero, suc, ◌+◌, ◌*◌, ◌/◌, ◌%◌, ◌^◌, ◌<◌, ◌&&◌, bit_and, bit_or, [], ◌∷◌, drop, ltb, ◌==◌,
  if◌then◌else◌, arith,
}
use bandchain_legacy.Thrown.{Result, ok, err, error, undefined, ◌>>=◌}
use bandchain_legacy.Uint256.{CheckedUint}
use bandchain_legacy.Buffer.Types.{Bytes, Reader, IntType, uint8, uint16, uint32, uint64, uint256}
use bandchain_legacy.Buffer.Types.{bits_of, write_byte}

acc_below : (k n : ℕ) → n < k → Acc ◌<◌ n
acc_below zero n h = absurd (omega arith)
acc_below (suc k) n h = Acc.intro n (λ m hm. acc_below k m (omega arith))

unfoldable pub lt_wf : WellFounded ◌<◌
unfolding acc_below
lt_wf = record { apply = λ n. acc_below (suc n) n (omega arith) }

-- `val >>= 7` is smaller while it is not 0.
pub shift_shrinks : (v : ℕ) → 0 < v / 128 → v / 128 < v
shift_shrinks v h = omega arith

-- `uint8_t(val & 0x7F)`
abbrev pub low_group : ℕ → ℕ
low_group v = bit_and v 0x7f % 256

unfoldable pub encode_loop : Bytes → (v : ℕ) → Acc ◌<◌ v → Bytes
unfolding write_byte
encode_loop buf v (Acc.intro _ smaller) =
    let towrite = low_group v in
    dite (dec_lt 0 (v / 128))
      (λ more.
        encode_loop (write_byte buf (bit_or towrite 0x80)) (v / 128)
          (smaller (v / 128) (shift_shrinks v more)))
      (λ _. write_byte buf towrite)

unfoldable pub varint_encode : Bytes → ℕ → Bytes
varint_encode buf v = encode_loop buf v (lt_wf.apply v)

-- `T(x) << k` where `T` is promoted to the 32-bit `int`: defined if the product fits 32 bits.
unfoldable pub int_shift : ℕ → ℕ → Result ℕ
int_shift x k = if ltb k 32 && ltb (x * 2 ^ k) (2 ^ 32) then ok (x * 2 ^ k) else err undefined

-- `T(x) << k` in an unsigned type of `w` bits: the result wraps, a shift by the width is undefined.
unfoldable pub word_shift : ℕ → ℕ → ℕ → Result ℕ
word_shift w x k = if ltb k w then ok (x * 2 ^ k % 2 ^ w) else err undefined

module _ ⦃u : CheckedUint⦄ where
  unfoldable pub shift_left : IntType → ℕ → ℕ → Result ℕ
  unfolding int_shift word_shift
  shift_left uint8 x k = int_shift x k
  shift_left uint16 x k = int_shift x k
  shift_left uint32 x k = word_shift 32 x k
  shift_left uint64 x k = word_shift 64 x k
  shift_left uint256 x k = u.shl x k

  -- The loop over the bytes of the buffer: `val` so far, and the number of bytes read at the end.
  unfoldable pub decode_loop : IntType → Bytes → ℕ → ℕ → Result (ℕ × ℕ)
  decode_loop t [] idx val = err error
  decode_loop t (b ∷ bs) idx val = do
    shifted ← shift_left t (bit_and b 0x7f) (7 * idx)
    let val' = bit_or val shifted % 2 ^ bits_of t
    let more = decode_loop t bs (idx + 1) val'
    if bit_and b 0x80 == 0 then ok (val', idx + 1) else more

  -- `buf.consume(1 + idx)` stays within the buffer, since the loop has read these bytes.
  unfoldable pub varint_decode : IntType → Reader ℕ
  varint_decode t buf = do (val, n) ← decode_loop t buf 0 0; ok (val, drop n buf)
