-- ===== src/Buffer/VarintRoundTrip.antt =====
-- `varint_decode` of src/util/buffer.h reads back what `varint_encode` wrote, at every type.
use mathlib.Core.WellFounded.{Acc}
use mathlib.Core.Logic.{dif_pos}
use native.Mathlib.Decide.{dec_lt}
use native.Mathlib.Bridge.{le_prop}
use native.Mathlib.Nat.{zero-add, div-add-mod, mod-eq_of_lt, pow-le-pow_right}
use native.Mathlib.Numerals.{towards_suc}
use bandchain_legacy.Common.{
  ℕ, ◌+◌, ◌*◌, ◌/◌, ◌%◌, ◌^◌, ◌≤◌, ◌<◌, ◌≡◌, ap, ◌∙◌, sym, bit_or, [], ◌∷◌, ◌++◌, append_assoc,
  length, length-append, drop-append_length, arith,
}
use bandchain_legacy.Common.Bits.{bit_and_0x7f, bit_and_0x80, bit_or_0x80, bit_or_disjoint}
use bandchain_legacy.Thrown.{ok, ok_pair}
use bandchain_legacy.Uint256.{CheckedUint}
use bandchain_legacy.Buffer.Types.{Bytes, IntType, uint8, uint16, uint32, uint64, uint256}
use bandchain_legacy.Buffer.Types.{bits_of}
use bandchain_legacy.Buffer.Varint.{low_group, encode_loop, varint_encode, lt_wf, shift_shrinks}
use bandchain_legacy.Buffer.Varint.{shift_left, decode_loop, varint_decode}

low_group_lem : (v : ℕ) → low_group v ≡ v % 128
low_group_lem v = omega (arith, bit_and_0x7f v)

-- One round of the encoder, on its last byte and on a byte that has one behind it.
pub encode_loop_last :
    (buf : Bytes) (v : ℕ) (w : Acc ◌<◌ v) → v < 128 → encode_loop buf v w ≡ buf ++ v ∷ []
unfolding encode_loop
encode_loop_last buf v (Acc.intro _ smaller) h = ground (arith, low_group_lem v)

inner_group : (v : ℕ) → bit_or (low_group v) 0x80 ≡ v % 128 + 128
inner_group v =
    omega (arith, low_group_lem v, bit_or_0x80 (low_group v) (omega (arith, low_group_lem v)))

pub encode_loop_more :
    (buf : Bytes) (v : ℕ) (smaller : (m : ℕ) → m < v → Acc ◌<◌ m) (more : 0 < v / 128)
    → encode_loop buf v (Acc.intro v smaller)
      ≡ encode_loop
          (buf ++ (v % 128 + 128) ∷ [])
          (v / 128)
          (smaller (v / 128) (shift_shrinks v more))
unfolding encode_loop
encode_loop_more buf v smaller more = rw (dif_pos _ le_prop more, inner_group v)

-- The bytes are put behind those that the buffer holds.
pub encode_loop-append :
    (buf : Bytes) (v : ℕ) (w : Acc ◌<◌ v) → encode_loop buf v w ≡ buf ++ encode_loop [] v w
encode_loop-append buf v (Acc.intro _ smaller) = elim (dec_lt 0 (v / 128)) [
  | yes more ↦
      let here : Bytes = (v % 128 + 128) ∷ [] in
      encode_loop_more buf v smaller more
      ∙ encode_loop-append (buf ++ here) (v / 128) (smaller (v / 128) (shift_shrinks v more))
      ∙ append_assoc buf here _
      ∙ ap (λ r. buf ++ r)
          (sym (
            encode_loop_more [] v smaller more
            ∙ encode_loop-append here (v / 128) (smaller (v / 128) (shift_shrinks v more))))
  | no last ↦
      encode_loop_last buf v (Acc.intro v smaller) (omega arith)
      ∙ ap (λ r. buf ++ r) (sym (encode_loop_last [] v (Acc.intro v smaller) (omega arith)))
]

pub varint_encode-append : (buf : Bytes) (v : ℕ) → varint_encode buf v ≡ buf ++ varint_encode [] v
unfolding varint_encode
varint_encode-append buf v = encode_loop-append buf v (lt_wf.apply v)

encode_loop_longer :
    (buf : Bytes) (v : ℕ) (w : Acc ◌<◌ v) → length buf < length (encode_loop buf v w)
encode_loop_longer buf v (Acc.intro _ smaller) = elim (dec_lt 0 (v / 128)) [
  | yes more ↦
      let one = length-append buf ((v % 128 + 128) ∷ []) in
      let ih =
        encode_loop_longer (buf ++ (v % 128 + 128) ∷ []) (v / 128)
          (smaller (v / 128) (shift_shrinks v more)) in
      rw (encode_loop_more buf v smaller more) (omega arith)
  | no last ↦
      rw (encode_loop_last buf v (Acc.intro v smaller) (omega arith))
        (omega (arith, length-append buf (v ∷ [])))
]

pub length-varint_encode_pos : (v : ℕ) → 0 < length (varint_encode [] v)
unfolding varint_encode
length-varint_encode_pos v = encode_loop_longer [] v (lt_wf.apply v)

pub two_pow_lt : (a b : ℕ) → 2 ^ a < 2 ^ b → a < b
two_pow_lt a b h = elim (dec_lt a b) [
  | yes p ↦ p
  | no p ↦
      absurd (omega (arith, pow-le-pow_right {n = 2} (omega arith) {i = b} {j = a} (omega arith)))
]

next_group : (s : ℕ) → 2 ^ (s + 7) ≡ 128 * 2 ^ s
next_group s = simp towards_suc (omega arith)

-- The lowest group of `w` and the others, all `s` places up.
pub lowest_and_rest : (s w : ℕ) → w % 128 * 2 ^ s + w / 128 * 2 ^ (s + 7) ≡ w * 2 ^ s
lowest_and_rest s w = omega (
  arith,
  ap (λ (p : ℕ). w / 128 * p) (next_group s),
  ap (λ (q : ℕ). q * 2 ^ s) (div-add-mod w 128),
)

pub next_shift : (idx : ℕ) → 2 ^ (7 * (idx + 1)) ≡ 128 * 2 ^ (7 * idx)
next_shift idx = ap (λ (k : ℕ). 2 ^ k) (omega arith) ∙ next_group (7 * idx)

pub product_mono : (v p : ℕ) → 128 ≤ v → 128 * p ≤ v * p
product_mono v p h = grind arith

pub group_bound : (val g p : ℕ) → g < 128 → val < p → val + g * p < 128 * p
group_bound val g p hg hv = let m : g * p ≤ 127 * p = grind arith in omega arith

bits_pos : (t : IntType) → 7 * 0 < bits_of t
unfolding bits_of
bits_pos t = ground arith

module _ ⦃u : CheckedUint⦄ where
  -- A shift that loses no bits is the product, in every type.
  shift_left-fits :
      (t : IntType) (x k : ℕ)
      → k < bits_of t
      → x * 2 ^ k < 2 ^ bits_of t
      → shift_left t x k ≡ ok (x * 2 ^ k)
  unfolding shift_left bits_of
  shift_left-fits uint8 x k hk hx = ground arith
  shift_left-fits uint16 x k hk hx = ground arith
  shift_left-fits uint32 x k hk hx = ground arith
  shift_left-fits uint64 x k hk hx = ground arith
  shift_left-fits uint256 x k hk hx = u.shl_lem x k hx

  -- What one byte adds to `val`.
  group_added :
      (t : IntType) (x k val : ℕ)
      → val < 2 ^ k
      → val + x * 2 ^ k < 2 ^ bits_of t
      → bit_or val (x * 2 ^ k) % 2 ^ bits_of t ≡ val + x * 2 ^ k
  group_added t x k val hv hx = rw (bit_or_disjoint k val x hv) (mod-eq_of_lt hx)

  decode_last :
      (t : IntType) (b idx val : ℕ) (bs : Bytes)
      → b < 128
      → 7 * idx < bits_of t
      → val < 2 ^ (7 * idx)
      → val + b * 2 ^ (7 * idx) < 2 ^ bits_of t
      → decode_loop t (b ∷ bs) idx val ≡ ok (val + b * 2 ^ (7 * idx), idx + 1)
  unfolding decode_loop
  decode_last t b idx val bs hb hi hv hx = ground (
    arith,
    bit_and_0x7f b,
    bit_and_0x80 b,
    shift_left-fits t b (7 * idx) hi (omega arith),
    group_added t b (7 * idx) val hv hx,
  )

  decode_more :
      (t : IntType) (g idx val : ℕ) (bs : Bytes)
      → g < 128
      → 7 * idx < bits_of t
      → val < 2 ^ (7 * idx)
      → val + g * 2 ^ (7 * idx) < 2 ^ bits_of t
      → decode_loop t ((g + 128) ∷ bs) idx val
        ≡ decode_loop t bs (idx + 1) (val + g * 2 ^ (7 * idx))
  unfolding decode_loop
  decode_more t g idx val bs hg hi hv hx = ground (
    arith,
    bit_and_0x7f (g + 128),
    bit_and_0x80 (g + 128),
    shift_left-fits t g (7 * idx) hi (omega arith),
    group_added t g (7 * idx) val hv hx,
  )

  -- `v` is what is still to be read, and `val` what has been read.
  decode_loop-encode_loop :
      (t : IntType) (v : ℕ) (w : Acc ◌<◌ v) (idx val : ℕ) (rest : Bytes)
      → 7 * idx < bits_of t
      → val < 2 ^ (7 * idx)
      → val + v * 2 ^ (7 * idx) < 2 ^ bits_of t
      → decode_loop t (encode_loop [] v w ++ rest) idx val
        ≡ ok (val + v * 2 ^ (7 * idx), idx + length (encode_loop [] v w))
  decode_loop-encode_loop t v (Acc.intro _ smaller) idx val rest hi hv hx =
      elim (dec_lt 0 (v / 128)) [
        | yes more ↦
            let w' = smaller (v / 128) (shift_shrinks v more) in
            let bytes : encode_loop [] v (Acc.intro v smaller)
                ≡ (v % 128 + 128) ∷ encode_loop [] (v / 128) w' =
              encode_loop_more [] v smaller more ∙ encode_loop-append _ (v / 128) w' in
            let split = lowest_and_rest (7 * idx) v in
            let up = next_shift idx in
            let e : v / 128 * 2 ^ (7 * (idx + 1)) ≡ v / 128 * 2 ^ (7 * idx + 7) =
              ap (λ (k : ℕ). v / 128 * 2 ^ k) (omega arith) in
            rw bytes (
              decode_more t (v % 128) idx val _ (omega arith) hi hv (omega arith)
              ∙ decode_loop-encode_loop t (v / 128) (smaller (v / 128) (shift_shrinks v more))
                  (idx + 1) (val + v % 128 * 2 ^ (7 * idx)) rest
                  (two_pow_lt _ _ (omega (arith, product_mono v (2 ^ (7 * idx)) (omega arith))))
                  (omega (arith, group_bound val (v % 128) (2 ^ (7 * idx)) (omega arith) hv))
                  (omega arith)
              ∙ ok_pair (omega arith) (omega arith))
        | no last ↦
            rw (encode_loop_last [] v (Acc.intro v smaller) (omega arith))
              (decode_last t v idx val rest (omega arith) hi hv hx)
      ]

  -- A value below 2 ^ w is decoded, at the integer type of w bits, from the varint that it was
  -- encoded as, and whatever follows it is left.
  pub varint_decode-varint_encode :
      (t : IntType) (v : ℕ) (rest : Bytes)
      → v < 2 ^ bits_of t
      → varint_decode t (varint_encode [] v ++ rest) ≡ ok (v, rest)
  unfolding varint_decode varint_encode
  varint_decode-varint_encode t v rest h =
      rw
        (decode_loop-encode_loop t v (lt_wf.apply v) 0 0 rest (bits_pos t) (omega arith)
          (omega arith))
        (ok_pair (omega arith)
          (rw zero-add (drop-append_length (encode_loop [] v (lt_wf.apply v)) rest)))
