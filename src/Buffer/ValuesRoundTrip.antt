-- ===== src/Buffer/ValuesRoundTrip.antt =====
-- The overloads of src/util/buffer.h fill the interface `Codec`: what each writes, it reads back.
use native.Mathlib.Nat.{mod-eq_of_lt}
use bandchain_legacy.Common.{
  ℕ, ◌%◌, ◌^◌, ◌<◌, ◌≡◌, refl, ap, ◌∙◌, sym, Bool, true, false, List, [], ◌∷◌, ◌++◌, length,
  length-append, All, take-append_length, drop-append_length, append-nil, append_assoc, arith,
  le→ltb, if◌then◌else◌,
}
use bandchain_legacy.Thrown.{ok, ok_pair}
use bandchain_legacy.Uint256.{CheckedUint}
use bandchain_legacy.Buffer.Types.{Bytes, IntType, uint8, uint64, bits_of, write_span, read_span}
use bandchain_legacy.Buffer.Codec.{Codec}
use bandchain_legacy.Buffer.Values.{
  write_int, write_bool, write_string, read_int, read_bool, read_string, write_pair, read_pair,
  write_each, write_vector, read_each, read_vector,
}
use bandchain_legacy.Buffer.VarintRoundTrip.{
  varint_encode-append, length-varint_encode_pos, varint_decode-varint_encode,
}

pub write_int-append : (buf : Bytes) (v : ℕ) → write_int buf v ≡ buf ++ write_int [] v
unfolding write_int
write_int-append = varint_encode-append

pub length-write_int_pos : (v : ℕ) → 0 < length (write_int [] v)
unfolding write_int
length-write_int_pos = length-varint_encode_pos

pub write_bool-append : (buf : Bytes) (b : Bool) → write_bool buf b ≡ buf ++ write_bool [] b
unfolding write_bool
write_bool-append buf b = write_int-append buf (if b then 1 else 0)

pub write_string-append : (buf s : Bytes) → write_string buf s ≡ buf ++ write_string [] s
unfolding write_string write_span
write_string-append buf s = rw (write_int-append buf) (append_assoc buf _ s)

-- The bytes of a span are read back where the buffer has a byte at all.
pub read_span-append :
    (s rest : Bytes) → 0 < length (s ++ rest) → read_span (length s) (s ++ rest) ≡ ok (s, rest)
unfolding read_span
read_span-append [] [] h = absurd (omega arith)
read_span-append [] (b ∷ rest) h = rw (le→ltb (length (b ∷ rest)) 0 (omega arith)) refl
read_span-append (b ∷ s) rest h =
    rw (le→ltb (length (b ∷ s ++ rest)) (length (b ∷ s)) (omega (arith, length-append s rest)))
      (ok_pair (take-append_length (b ∷ s) rest) (drop-append_length (b ∷ s) rest))

module _ ⦃u : CheckedUint⦄ where
  pub read_int-write_int :
      (t : IntType) (v : ℕ) (rest : Bytes)
      → v < 2 ^ bits_of t
      → read_int t (write_int [] v ++ rest) ≡ ok (v, rest)
  unfolding read_int write_int
  read_int-write_int = varint_decode-varint_encode

  pub read_bool-write_bool :
      (b : Bool) (rest : Bytes) → read_bool (write_bool [] b ++ rest) ≡ ok (b, rest)
  unfolding read_bool write_bool bits_of
  read_bool-write_bool true rest = rw (read_int-write_int uint8 1 rest (omega arith)) refl
  read_bool-write_bool false rest = rw (read_int-write_int uint8 0 rest (omega arith)) refl

  -- A string whose length is below 2 ^ 64 is read back, and whatever follows it is left.
  pub read_string-write_string :
      (s rest : Bytes)
      → length s < 2 ^ 64
      → 0 < length (s ++ rest)
      → read_string (write_string [] s ++ rest) ≡ ok (s, rest)
  unfolding read_string write_string write_span bits_of
  read_string-write_string s rest h some_left =
      rw
        (
          mod-eq_of_lt h,
          append_assoc (write_int [] (length s)) s rest,
          read_int-write_int uint64 (length s) (s ++ rest) h,
        )
        (read_span-append s rest some_left)

  abbrev pub bool_codec : Codec Bool
  bool_codec = record {
    write = write_bool;
    read = read_bool;
    Fits = λ b. Unit {0};
    write-append = write_bool-append;
    read-write = λ b rest h. read_bool-write_bool b rest;
  }

  abbrev pub int_codec : IntType → Codec ℕ
  int_codec t = record {
    write = write_int;
    read = read_int t;
    Fits = λ v. v < 2 ^ bits_of t;
    write-append = write_int-append;
    read-write = read_int-write_int t;
  }

  abbrev pub string_codec : Codec Bytes
  string_codec = record {
    write = write_string;
    read = read_string;
    Fits = λ s. (length s < 2 ^ 64) × (0 < length s);
    write-append = write_string-append;
    read-write =
        λ s rest h. read_string-write_string s rest h.0 (omega (arith, h.1, length-append s rest));
  }

module _ {A B : Type 0} (ca : Codec A) (cb : Codec B) where
  pub write_pair-append :
      (buf : Bytes) (p : A × B)
      → write_pair ca.write cb.write buf p ≡ buf ++ write_pair ca.write cb.write [] p
  unfolding write_pair
  write_pair-append buf (a, b) =
      cb.write-append (ca.write buf a) b
      ∙ ap (λ r. r ++ cb.write [] b) (ca.write-append buf a)
      ∙ append_assoc buf _ _
      ∙ ap (λ r. buf ++ r) (sym (cb.write-append (ca.write [] a) b))

  pub read_pair-write_pair :
      (p : A × B) (rest : Bytes)
      → ca.Fits p.0 × cb.Fits p.1
      → read_pair ca.read cb.read (write_pair ca.write cb.write [] p ++ rest) ≡ ok (p, rest)
  unfolding read_pair write_pair
  read_pair-write_pair (a, b) rest (ha, hb) = rw (
    cb.write-append (ca.write [] a) b,
    append_assoc (ca.write [] a) (cb.write [] b) rest,
    ca.read-write a (cb.write [] b ++ rest) ha,
    cb.read-write b rest hb,
  )

  abbrev pub pair_codec : Codec (A × B)
  pair_codec = record {
    write = write_pair ca.write cb.write;
    read = read_pair ca.read cb.read;
    Fits = λ p. ca.Fits p.0 × cb.Fits p.1;
    write-append = write_pair-append;
    read-write = read_pair-write_pair;
  }

module _ {A : Type 0} (ca : Codec A) where
  write_each-append :
      (buf : Bytes) (vs : List A) → write_each ca.write buf vs ≡ buf ++ write_each ca.write [] vs
  unfolding write_each
  write_each-append buf [] = sym (append-nil buf)
  write_each-append buf (v ∷ vs) =
      write_each-append (ca.write buf v) vs
      ∙ ap (λ r. r ++ write_each ca.write [] vs) (ca.write-append buf v)
      ∙ append_assoc buf _ _
      ∙ ap (λ r. buf ++ r) (sym (write_each-append (ca.write [] v) vs))

  read_each-write_each :
      (vs : List A) (rest : Bytes)
      → All ca.Fits vs
      → read_each ca.read (length vs) (write_each ca.write [] vs ++ rest) ≡ ok (vs, rest)
  unfolding read_each write_each
  read_each-write_each [] rest h = refl
  read_each-write_each (v ∷ vs) rest (hv, hvs) = rw (
    write_each-append (ca.write [] v) vs,
    append_assoc (ca.write [] v) (write_each ca.write [] vs) rest,
    ca.read-write v (write_each ca.write [] vs ++ rest) hv,
    read_each-write_each vs rest hvs,
  )

module _ ⦃u : CheckedUint⦄ {A : Type 0} (ca : Codec A) where
  pub write_vector-append :
      (buf : Bytes) (vs : List A)
      → write_vector ca.write buf vs ≡ buf ++ write_vector ca.write [] vs
  unfolding write_vector
  write_vector-append buf vs =
      write_each-append ca (write_int buf n) vs
      ∙ ap (λ r. r ++ write_each ca.write [] vs) (write_int-append buf n)
      ∙ append_assoc buf _ _
      ∙ ap (λ r. buf ++ r) (sym (write_each-append ca (write_int [] n) vs))
    where
      n : ℕ
      n = length vs % 2 ^ 64

  -- For any type with a codec, a vector whose elements fit and whose length is below 2 ^ 64 is
  -- read back with its elements in order, and whatever follows it is left.
  pub read_vector-write_vector :
      (vs : List A) (rest : Bytes)
      → (length vs < 2 ^ 64) × All ca.Fits vs
      → read_vector ca.read (write_vector ca.write [] vs ++ rest) ≡ ok (vs, rest)
  unfolding read_vector write_vector bits_of
  read_vector-write_vector vs rest (h, hvs) = rw (
    mod-eq_of_lt h,
    write_each-append ca (write_int [] (length vs)) vs,
    append_assoc (write_int [] (length vs)) (write_each ca.write [] vs) rest,
    read_int-write_int uint64 (length vs) (write_each ca.write [] vs ++ rest) h,
    read_each-write_each ca vs rest hvs,
  )

  abbrev pub vector_codec : Codec (List A)
  vector_codec = record {
    write = write_vector ca.write;
    read = read_vector ca.read;
    Fits = λ vs. (length vs < 2 ^ 64) × All ca.Fits vs;
    write-append = write_vector-append;
    read-write = read_vector-write_vector;
  }
