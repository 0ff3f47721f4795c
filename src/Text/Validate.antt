-- ===== src/Text/Validate.antt =====
-- `String::validate` of src/util/string.cc: what it accepts, and the round trip of what it accepts.
use bandchain_legacy.Common.{
  ℕ, ◌^◌, ◌≤◌, ◌<◌, ◌≡◌, refl, ◌⊎◌, false, [], ◌∷◌, ◌++◌, length, length-append, All, le→ltb, arith,
}
use bandchain_legacy.Thrown.{Result, ok, >>=-eq-ok}
use bandchain_legacy.Uint256.{CheckedUint}
use bandchain_legacy.Buffer.{Bytes}
use bandchain_legacy.Buffer.Codec.{Codec}
use bandchain_legacy.Buffer.Values.{read_string}
use bandchain_legacy.Buffer.ValuesRoundTrip.{write_string-append, read_string-write_string}
use bandchain_legacy.Text.{
  StringCase, sensitive, in_sensitive, is_print, to_lower, lower_all, any_unprintable, lower_if,
  validate, write_text, read_text,
}

-- The characters of a valid string: printable, and no capital where case does not matter.
abbrev pub IsLetter : StringCase → ℕ → Type 0
IsLetter sensitive c = (32 ≤ c) × (c ≤ 126)
IsLetter in_sensitive c = (32 ≤ c) × (c ≤ 126) × ((c < 65) ⊎ (90 < c))

abbrev pub IsText : ℕ → StringCase → Bytes → Type 0
IsText max_length case_ s = (length s ≤ max_length) × All (IsLetter case_) s

printable-letters : (s : Bytes) → any_unprintable s ≡ false → All (IsLetter sensitive) s
unfolding any_unprintable is_print
printable-letters [] h = tt
printable-letters (c ∷ cs) h = ground (arith, printable-letters cs)

lower_all-letters :
    (s : Bytes) → All (IsLetter sensitive) s → All (IsLetter in_sensitive) (lower_all s)
unfolding lower_all to_lower
lower_all-letters [] h = tt
lower_all-letters (c ∷ cs) (hc, hs) = (lower_letter c hc, lower_all-letters cs hs)
  where
    lower_letter : (c : ℕ) → IsLetter sensitive c → IsLetter in_sensitive (to_lower c)
    lower_letter c h = ground arith

length-lower_all : (s : Bytes) → length (lower_all s) ≡ length s
unfolding lower_all
length-lower_all [] = refl
length-lower_all (c ∷ cs) = omega (arith, length-lower_all cs)

lower_if-IsText :
    (n : ℕ) (case_ : StringCase) (s : Bytes)
    → length s ≤ n
    → All (IsLetter sensitive) s
    → IsText n case_ (lower_if case_ s)
unfolding lower_if
lower_if-IsText n sensitive s hn h = (hn, h)
lower_if-IsText n in_sensitive s hn h = (omega (arith, length-lower_all s), lower_all-letters s h)

validate_parts :
    (n : ℕ) (case_ : StringCase) (raw s : Bytes)
    → validate n case_ raw ≡ ok s
    → (length raw ≤ n) × (any_unprintable raw ≡ false) × (lower_if case_ raw ≡ s)
unfolding validate
validate_parts n case_ raw s h = ground arith

-- A string that validation returns is at most as long as allowed, printable, and has no capital
-- letter where case does not matter.
pub validate-IsText :
    (n : ℕ) (case_ : StringCase) (raw s : Bytes) → validate n case_ raw ≡ ok s → IsText n case_ s
validate-IsText n case_ raw s h =
    let (hn, good, e) = validate_parts n case_ raw s h in
    rw e at (lower_if-IsText n case_ raw hn (printable-letters raw good))

letters-printable :
    (case_ : StringCase) (s : Bytes) → All (IsLetter case_) s → any_unprintable s ≡ false
unfolding any_unprintable is_print
letters-printable sensitive [] h = refl
letters-printable sensitive (c ∷ cs) h = ground (arith, letters-printable sensitive cs)
letters-printable in_sensitive [] h = refl
letters-printable in_sensitive (c ∷ cs) h = ground (arith, letters-printable in_sensitive cs)

lower_if_lower : (case_ : StringCase) (s : Bytes) → All (IsLetter case_) s → lower_if case_ s ≡ s
unfolding lower_if lower_all to_lower
lower_if_lower sensitive s h = refl
lower_if_lower in_sensitive [] h = refl
lower_if_lower in_sensitive (c ∷ cs) h = ground (arith, lower_if_lower in_sensitive cs)

-- A string that is at most as long as allowed, printable, and has no capital letter where case
-- does not matter passes validation unchanged.
pub validate_id :
    (n : ℕ) (case_ : StringCase) (s : Bytes) → IsText n case_ s → validate n case_ s ≡ ok s
unfolding validate
validate_id n case_ s (hn, h) =
    rw (le→ltb n (length s) hn, letters-printable case_ s h, lower_if_lower case_ s h)

module _ ⦃u : CheckedUint⦄ (n : ℕ) (case_ : StringCase) where
  pub write_text-append : (buf s : Bytes) → write_text buf s ≡ buf ++ write_text [] s
  unfolding write_text
  write_text-append = write_string-append

  -- A valid string whose length is below 2 ^ 64 is read back, and whatever follows it is left.
  pub read_text-write_text :
      (s rest : Bytes)
      → IsText n case_ s × (length s < 2 ^ 64)
      → 0 < length (s ++ rest)
      → read_text n case_ (write_text [] s ++ rest) ≡ ok (s, rest)
  unfolding read_text write_text
  read_text-write_text s rest (h, hl) some_left =
      rw (read_string-write_string s rest hl some_left, validate_id n case_ s h)

  -- A string that was read is valid.
  pub read_text-IsText :
      (buf s rest : Bytes) → read_text n case_ buf ≡ ok (s, rest) → IsText n case_ s
  unfolding read_text
  read_text-IsText buf s rest h =
      let ((raw, rest'), p, h') = >>=-eq-ok (read_string buf) _ h in
      let (s', q, h'') = >>=-eq-ok (validate n case_ raw) _ h' in
      rw (same s' h'') at (validate-IsText n case_ raw s' q)
    where
      same :
          {r : Bytes} (s' : Bytes)
          → ◌≡◌ {A = Result (Bytes × Bytes)} (ok (s', r)) (ok (s, rest))
          → s' ≡ s
      same s' e = cc

  abbrev pub text_codec : Codec Bytes
  text_codec = record {
    write = write_text;
    read = read_text n case_;
    Fits = λ s. IsText n case_ s × (length s < 2 ^ 64) × (0 < length s);
    write-append = write_text-append;
    read-write = λ s rest h.
        read_text-write_text s rest (h.0, h.1) (omega (arith, h.2, length-append s rest));
  }
