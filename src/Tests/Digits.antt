-- ===== src/Tests/Digits.antt =====
-- Hexadecimal digits of src/util/bytes.cc, at concrete bytes.
use bandchain_legacy.Common.{ℕ, ◌/◌, ◌%◌, ◌≡◌, refl, [], ◌∷◌, arith}
use bandchain_legacy.Thrown.{ok}
use bandchain_legacy.Buffer.{Bytes}
use bandchain_legacy.Fixed.{hex, bytes_to_hex}
use bandchain_legacy.Fixed.Hex.{digit_of, IsHex02, hex-bytes_to_hex}

abbrev two_digits : ℕ → Bytes
two_digits b = digit_of (b / 16) ∷ digit_of (b % 16) ∷ []

as_documented : IsHex02 two_digits
as_documented b h = refl

hex-bytes_to_hex_example : hex 2 (bytes_to_hex two_digits (171 ∷ 5 ∷ [])) ≡ ok (171 ∷ 5 ∷ [])
hex-bytes_to_hex_example =
    hex-bytes_to_hex two_digits as_documented (171 ∷ 5 ∷ []) (omega arith, (omega arith, tt))
