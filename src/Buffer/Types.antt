-- ===== src/Buffer/Types.antt =====
-- The integer types of src/util/buffer.h, and the raw operations on a Buffer.
use bandchain_legacy.Common.{ℕ, List, [], ◌∷◌, ◌++◌, length, take, drop, ltb, if◌then◌else◌}
use bandchain_legacy.Thrown.{Result, ok, err, error, undefined}

abbrev pub Bytes : Type 0
Bytes = List ℕ

-- What a reader returns: the value and the rest of the buffer.
abbrev pub Reader : Type 0 → Type 0
Reader A = Bytes → Result (A × Bytes)

pub data IntType : Type 0 where
  uint8 uint16 uint32 uint64 uint256 : IntType

unfoldable pub bits_of : IntType → ℕ
bits_of uint8 = 8
bits_of uint16 = 16
bits_of uint32 = 32
bits_of uint64 = 64
bits_of uint256 = 256

-- `buf << span`, and `buf << data` for a Buffer: bytes are put at the end.
unfoldable pub write_span : Bytes → Bytes → Bytes
write_span buf bytes = buf ++ bytes

-- `buf << val` for a byte.
unfoldable pub write_byte : Bytes → ℕ → Bytes
write_byte buf b = buf ++ b ∷ []

-- `buf >> val` for a byte: `front()` of an empty vector is undefined.
unfoldable pub read_byte : Reader ℕ
read_byte [] = err undefined
read_byte (b ∷ rest) = ok (b, rest)

-- `buf >> span` of `n` bytes: `front()` of an empty vector is undefined, for no bytes too.
unfoldable pub read_span : ℕ → Reader Bytes
read_span n [] = if ltb 0 n then err error else err undefined
read_span n (b ∷ bs) =
    if ltb (length (b ∷ bs)) n then err error else ok (take n (b ∷ bs), drop n (b ∷ bs))

-- `consume(length)`: erasing past the end is undefined.
unfoldable pub consume : ℕ → Bytes → Result Bytes
consume n buf = if ltb (length buf) n then err undefined else ok (drop n buf)
