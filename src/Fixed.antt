-- ===== src/Fixed.antt =====
-- src/util/bytes.h and src/util/bytes.cc: arrays of a fixed number of bytes, and `bytes_to_hex` of
-- src/util/buffer.cc. An array is the list of its bytes. `hex02` is what fmt makes of a byte at the
-- format `{:02x}`.
pub mod Hex
use bandchain_legacy.Common.{
  ℕ, zero, suc, ◌+◌, ◌-◌, ◌*◌, ◌/◌, ◌%◌, ◌<◌, ◌≡◌, bit_or, Bool, [], ◌∷◌, ◌++◌, length, ltb, leb,
  ◌==◌, ◌&&◌, eq_bytes, if◌then◌else◌,
}
use bandchain_legacy.Thrown.{Result, ok, err, error, undefined, ◌>>=◌}
use bandchain_legacy.Buffer.{Bytes}

unfoldable pub hex_to_byte : ℕ → Result ℕ
hex_to_byte digit =
    if leb 48 digit && leb digit 57
    then ok (digit - 48)
    else if leb 97 digit && leb digit 102
    then ok (digit - 97 + 10)
    else if leb 65 digit && leb digit 70
    then ok (digit - 65 + 10)
    else err error

-- `Bytes(span)` and `Bytes::raw`: the bytes are copied if there are as many as the type has.
unfoldable pub raw : ℕ → Bytes → Result Bytes
raw size bytes = if length bytes == size then ok bytes else err error

-- The byte that two digits stand for: `<<` on bytes drops what is above the byte.
unfoldable pub pair_to_byte : ℕ → ℕ → Result ℕ
unfolding hex_to_byte
pair_to_byte high low = do
  h ← hex_to_byte high
  l ← hex_to_byte low
  ok (bit_or (h * 16 % 256) (l * 1 % 256))

-- The loop of `Bytes::hex`: the first so many bytes of the string's digits.
unfoldable pub hex_loop : ℕ → Bytes → Result Bytes
unfolding pair_to_byte
hex_loop zero digits = ok []
hex_loop (suc n) (high ∷ low ∷ digits) = do
  b ← pair_to_byte high low
  bytes ← hex_loop n digits
  ok (b ∷ bytes)
hex_loop (suc n) (high ∷ []) = err undefined
hex_loop (suc n) [] = err undefined

-- `Bytes::hex`
unfoldable pub hex : ℕ → Bytes → Result Bytes
unfolding hex_loop
hex size digits = if length digits == 2 * size then hex_loop size digits else err error

-- `Bytes()`, and `empty`
unfoldable pub zeros : ℕ → Bytes
zeros zero = []
zeros (suc n) = 0 ∷ zeros n

unfoldable pub is_empty : ℕ → Bytes → Bool
unfolding zeros
is_empty size bytes = eq_bytes bytes (zeros size)

module _ (hex02 : ℕ → Bytes) where
  -- `bytes_to_hex`, and `to_string`
  unfoldable pub bytes_to_hex : Bytes → Bytes
  bytes_to_hex [] = []
  bytes_to_hex (b ∷ bytes) = hex02 b ++ bytes_to_hex bytes
