-- ===== src/Tests/Codecs.antt =====
-- The codecs of src/util, at concrete values.
use bandchain_legacy.Common.{◌≡◌, refl, [], ◌∷◌, ◌++◌, All, arith}
use bandchain_legacy.Thrown.{ok, err, error, undefined}
use bandchain_legacy.Buffer.{
  Bytes, uint16, uint64, bits_of, varint_encode, varint_decode, decode_loop, shift_left,
}
use bandchain_legacy.Buffer.Values.{write_int, read_int, write_vector, read_vector}
use bandchain_legacy.Buffer.VarintRoundTrip.{varint_decode-varint_encode}
use bandchain_legacy.Buffer.ValuesRoundTrip.{read_vector-write_vector, int_codec}
use bandchain_legacy.Buffer.Decode.{varint_decode_continued}
use bandchain_legacy.Text.{
  in_sensitive, validate, any_unprintable, is_print, lower_if, lower_all, to_lower,
}
use bandchain_legacy.Text.Validate.{IsText, validate-IsText}
use bandchain_legacy.Messages.{Msg, transfer_token, write_msg, read_msg, type_of}
use bandchain_legacy.Messages.RoundTrip.{read_msg-write_msg}
use bandchain_legacy.Tests.Boost.{boost}

varint_decode-varint_encode_example :
    varint_decode ⦃u = boost⦄ uint64 (varint_encode [] 300 ++ 7 ∷ []) ≡ ok (300, 7 ∷ [])
unfolding bits_of
varint_decode-varint_encode_example =
    varint_decode-varint_encode ⦃u = boost⦄ uint64 300 (7 ∷ []) (omega arith)

decoded_300 : varint_decode ⦃u = boost⦄ uint16 (172 ∷ 2 ∷ 9 ∷ []) ≡ ok (300, 9 ∷ [])
unfolding varint_decode decode_loop shift_left bits_of
decoded_300 = refl

abbrev ten : Bytes
ten = 128 ∷ 128 ∷ 128 ∷ 128 ∷ 128 ∷ 128 ∷ 128 ∷ 128 ∷ 128 ∷ 128 ∷ []

varint_decode_continued_example : varint_decode ⦃u = boost⦄ uint64 (ten ++ 1 ∷ []) ≡ err undefined
varint_decode_continued_example =
    varint_decode_continued ⦃u = boost⦄ uint64 ten (1 ∷ []) (λ e. cc) (ground arith) (omega arith)
      (omega arith)

cut_off : varint_decode ⦃u = boost⦄ uint16 (172 ∷ []) ≡ err error
unfolding varint_decode decode_loop shift_left bits_of
cut_off = refl

pair_in_range : All (int_codec ⦃u = boost⦄ uint16).Fits (5 ∷ 300 ∷ [])
unfolding bits_of
pair_in_range = ground arith

read_vector-write_vector_example :
    read_vector ⦃u = boost⦄
      (read_int ⦃u = boost⦄ uint16)
      (write_vector write_int [] (5 ∷ 300 ∷ []) ++ 1 ∷ [])
    ≡ ok (5 ∷ 300 ∷ [], 1 ∷ [])
read_vector-write_vector_example =
    read_vector-write_vector ⦃u = boost⦄ (int_codec ⦃u = boost⦄ uint16) (5 ∷ 300 ∷ []) (1 ∷ [])
      (omega arith, pair_in_range)

-- "Hi" as an Ident.
validated : validate 20 in_sensitive (72 ∷ 105 ∷ []) ≡ ok (104 ∷ 105 ∷ [])
unfolding validate any_unprintable is_print lower_if lower_all to_lower
validated = refl

validate-IsText_example : IsText 20 in_sensitive (104 ∷ 105 ∷ [])
validate-IsText_example = validate-IsText 20 in_sensitive (72 ∷ 105 ∷ []) (104 ∷ 105 ∷ []) validated

is_hi : IsText 20 in_sensitive (104 ∷ 105 ∷ [])
is_hi = (omega arith, ground arith)

abbrev payment : Msg
payment = transfer_token (104 ∷ 105 ∷ []) (104 ∷ 105 ∷ []) 12

read_msg-write_msg_example :
    read_msg ⦃u = boost⦄ (type_of payment) (write_msg [] payment ++ 1 ∷ []) ≡ ok (payment, 1 ∷ [])
read_msg-write_msg_example =
    read_msg-write_msg ⦃u = boost⦄ payment (1 ∷ []) (is_hi, is_hi, omega arith) tt
