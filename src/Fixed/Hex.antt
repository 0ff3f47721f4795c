-- ===== src/Fixed/Hex.antt =====
-- Reading and printing the arrays of src/util/bytes.cc as hexadecimal digits.
use bandchain_legacy.Common.{
  ℕ, zero, suc, ◌+◌, ◌*◌, ◌/◌, ◌%◌, ◌<◌, ◌≡◌, refl, sym, ap, ◌∙◌, bit_or, [], ◌∷◌, length, ltb,
  ==_self, ◌⊎◌, inl, inr, if◌then◌else◌, All, arith,
}
use bandchain_legacy.Thrown.{Thrown, >>=-eq-ok, >>=-eq-err, Result-cases, Result, ok, err, error}
use bandchain_legacy.Common.Bits.{bit_or_comm, bit_or_disjoint}
use bandchain_legacy.Buffer.{Bytes}
use bandchain_legacy.Text.{to_lower, lower_all}
use bandchain_legacy.Fixed.{hex_to_byte, pair_to_byte, hex_loop, hex, bytes_to_hex}

-- The digit of a number below 16, in lower case.
unfoldable pub digit_of : ℕ → ℕ
digit_of n = if ltb n 10 then 48 + n else 87 + n

-- fmt's documentation of `{:02x}`, for a byte: two digits, in lower case.
abbrev pub IsHex02 : (ℕ → Bytes) → Type 0
IsHex02 hex02 = (b : ℕ) → b < 256 → hex02 b ≡ digit_of (b / 16) ∷ digit_of (b % 16) ∷ []

abbrev pub IsByte : ℕ → Type 0
IsByte b = b < 256

hex_to_byte-digit_of : (n : ℕ) → n < 16 → hex_to_byte (digit_of n) ≡ ok n
unfolding hex_to_byte digit_of
hex_to_byte-digit_of n h = ground arith

hex_to_byte-eq-ok :
    (digit n : ℕ) → hex_to_byte digit ≡ ok n → (n < 16) × (digit_of n ≡ to_lower digit)
unfolding hex_to_byte digit_of to_lower
hex_to_byte-eq-ok digit n h = ground arith

two_digits : (h l : ℕ) → h < 16 → l < 16 → bit_or (h * 16 % 256) (l * 1 % 256) ≡ h * 16 + l
two_digits h l hh hl =
    rw (the_high, the_low, bit_or_comm (h * 16) l) (omega (arith, bit_or_disjoint 4 l h hl))
  where
    the_high : h * 16 % 256 ≡ h * 16
    the_high = omega arith

    the_low : l * 1 % 256 ≡ l
    the_low = omega arith

pair_to_byte-digits :
    (b : ℕ) → b < 256 → pair_to_byte (digit_of (b / 16)) (digit_of (b % 16)) ≡ ok b
unfolding pair_to_byte
pair_to_byte-digits b h =
    rw
      (
        hex_to_byte-digit_of (b / 16) (omega arith),
        hex_to_byte-digit_of (b % 16) (omega arith),
        two_digits (b / 16) (b % 16) (omega arith) (omega arith),
      )
      (ap ok (omega arith))

-- A pair of digits that is read, and a pair that is refused.
pair_to_byte-eq-ok :
    (high low b : ℕ)
    → pair_to_byte high low ≡ ok b
    → (b < 256) × (digit_of (b / 16) ≡ to_lower high) × (digit_of (b % 16) ≡ to_lower low)
unfolding pair_to_byte
pair_to_byte-eq-ok high low b h =
    let r = >>=-eq-ok (hex_to_byte high) _ h in
    let r' = >>=-eq-ok (hex_to_byte low) _ r.2 in
    let d = hex_to_byte-eq-ok high r.0 r.1 in
    let d' = hex_to_byte-eq-ok low r'.0 r'.1 in
    whole r.0 r'.0 b d.0 d'.0 (two_digits r.0 r'.0 d.0 d'.0) r'.2 d.1 d'.1
  where
    whole :
        (x y b : ℕ) {dx dy bits : ℕ}
        → x < 16
        → y < 16
        → bits ≡ x * 16 + y
        → ◌≡◌ {A = Result ℕ} (ok bits) (ok b)
        → digit_of x ≡ dx
        → digit_of y ≡ dy
        → (b < 256) × (digit_of (b / 16) ≡ dx) × (digit_of (b % 16) ≡ dy)
    whole x y b hx hy e e' p q =
        let b_eq : b ≡ x * 16 + y = cc in
        (omega arith, ap digit_of (omega arith) ∙ p, ap digit_of (omega arith) ∙ q)

pair_to_byte_fails : (high low : ℕ) (e : Thrown) → pair_to_byte high low ≡ err e → e ≡ error
unfolding pair_to_byte hex_to_byte
pair_to_byte_fails high low e h = ground arith

module _ (hex02 : ℕ → Bytes) (documented : IsHex02 hex02) where
  length-bytes_to_hex :
      (bytes : Bytes) → All IsByte bytes → length (bytes_to_hex hex02 bytes) ≡ 2 * length bytes
  unfolding bytes_to_hex
  length-bytes_to_hex [] h = refl
  length-bytes_to_hex (b ∷ bytes) (hb, h) =
      rw (documented b hb) (omega (arith, length-bytes_to_hex bytes h))

  hex_loop-bytes_to_hex :
      (bytes : Bytes)
      → All IsByte bytes
      → hex_loop (length bytes) (bytes_to_hex hex02 bytes) ≡ ok bytes
  unfolding bytes_to_hex hex_loop
  hex_loop-bytes_to_hex [] h = refl
  hex_loop-bytes_to_hex (b ∷ bytes) (hb, h) =
      rw (documented b hb, pair_to_byte-digits b hb, hex_loop-bytes_to_hex bytes h) refl

  -- Where fmt prints a byte as two digits in lower case, reading the hexadecimal digits that
  -- bytes are printed as gives the bytes.
  pub hex-bytes_to_hex :
      (bytes : Bytes) → All IsByte bytes → hex (length bytes) (bytes_to_hex hex02 bytes) ≡ ok bytes
  unfolding hex
  hex-bytes_to_hex bytes h =
      rw (length-bytes_to_hex bytes h, ==_self (2 * length bytes)) (hex_loop-bytes_to_hex bytes h)

  hex_loop-eq-ok :
      (size : ℕ) (digits bytes : Bytes)
      → length digits ≡ 2 * size
      → hex_loop size digits ≡ ok bytes
      → (length bytes ≡ size) × (bytes_to_hex hex02 bytes ≡ lower_all digits)
  unfolding hex_loop bytes_to_hex lower_all
  hex_loop-eq-ok zero [] [] e h = (refl, refl)
  hex_loop-eq-ok zero [] (b ∷ bytes) e h = cc
  hex_loop-eq-ok zero (c ∷ digits) bytes e h = absurd (omega arith)
  hex_loop-eq-ok (suc size) [] bytes e h = absurd (omega arith)
  hex_loop-eq-ok (suc size) (high ∷ []) bytes e h = absurd (omega arith)
  hex_loop-eq-ok (suc size) (high ∷ low ∷ digits) bytes e h =
      let r = >>=-eq-ok (pair_to_byte high low) _ h in
      let r' = >>=-eq-ok (hex_loop size digits) _ r.2 in
      let d = pair_to_byte-eq-ok high low r.0 r.1 in
      let ih = hex_loop-eq-ok size digits r'.0 (omega arith) r'.1 in
      put_byte r.0 r'.0 r'.2 ih.0 (documented r.0 d.0) d.1 d.2 ih.1
    where
      put_byte :
          (b : ℕ) (rest : Bytes) {all lower : Bytes} {n x x' y y' : ℕ}
          → ◌≡◌ {A = Result Bytes} (ok (b ∷ rest)) (ok all)
          → length rest ≡ n
          → hex02 b ≡ x ∷ y ∷ []
          → x ≡ x'
          → y ≡ y'
          → bytes_to_hex hex02 rest ≡ lower
          → (length all ≡ suc n) × (bytes_to_hex hex02 all ≡ x' ∷ y' ∷ lower)
      put_byte b rest {all = all} whole n_eq printed p q ih =
          let e : b ∷ rest ≡ all = cc in rw (sym e, printed, p, q, ih) (ap suc n_eq, refl)

hex_loop_fails :
    (size : ℕ) (digits : Bytes) (e : Thrown)
    → length digits ≡ 2 * size
    → hex_loop size digits ≡ err e
    → e ≡ error
unfolding hex_loop
hex_loop_fails zero digits e n h = cc
hex_loop_fails (suc size) [] e n h = absurd (omega arith)
hex_loop_fails (suc size) (high ∷ []) e n h = absurd (omega arith)
hex_loop_fails (suc size) (high ∷ low ∷ digits) e n h =
    elim (>>=-eq-err (pair_to_byte high low) _ h) [
      | inl first ↦ pair_to_byte_fails high low e first
      | inr (b, _, later) ↦ elim (>>=-eq-err (hex_loop size digits) _ later) [
        | inl rest ↦ hex_loop_fails size digits e (omega arith) rest
        | inr (bytes, _, end) ↦ cc
      ]
    ]

hex_fails : (size : ℕ) (digits : Bytes) (e : Thrown) → hex size digits ≡ err e → e ≡ error
unfolding hex
hex_fails size digits e h = ground (arith, hex_loop_fails size digits e)

module _ (hex02 : ℕ → Bytes) (documented : IsHex02 hex02) where
  hex-eq-ok :
      (size : ℕ) (digits bytes : Bytes)
      → hex size digits ≡ ok bytes
      → (length bytes ≡ size) × (bytes_to_hex hex02 bytes ≡ lower_all digits)
  unfolding hex
  hex-eq-ok size digits bytes h = ground (arith, hex_loop-eq-ok hex02 documented size digits bytes)

  -- Where fmt prints a byte as two digits in lower case: reading any string as a number of bytes
  -- is an Error, or gives so many bytes, which are printed as the string in lower case.
  pub hex_outcome :
      (size : ℕ) (digits : Bytes)
      → (hex size digits ≡ err error)
        ⊎ ((bytes : Bytes) × (hex size digits ≡ ok bytes)
            × (length bytes ≡ size)
            × (bytes_to_hex hex02 bytes ≡ lower_all digits))
  hex_outcome size digits = elim (Result-cases (hex size digits)) [
    | inl (bytes, e) ↦ let known = hex-eq-ok size digits bytes e in inr (bytes, e, known.0, known.1)
    | inr (thrown, e) ↦ inl (e ∙ ap err (hex_fails size digits thrown e))
  ]
