-- ===== src/Application/Frame/RoundTrip.antt =====
-- `read_ahead` of src/net/tmapp.cc on the frames that `process` writes.
use mathlib.Core.WellFounded.{Acc}
use native.Mathlib.Decide.{dec_lt}
use native.Mathlib.Nat.{mod-eq_of_lt}
use bandchain_legacy.Common.{
  ℕ, ◌+◌, ◌-◌, ◌*◌, ◌/◌, ◌%◌, ◌^◌, ◌≤◌, ◌<◌, ◌≡◌, refl, ap, ◌∙◌, [], ◌∷◌, ◌++◌, append_assoc,
  length, length-append, drop, drop-append_length, arith,
}
use bandchain_legacy.Common.Bits.{bit_and_0x7f, bit_and_0x80, bit_or_disjoint}
use bandchain_legacy.Thrown.{Result, ok}
use bandchain_legacy.Buffer.{
  Bytes, shift_shrinks, int_shift, encode_loop, varint_encode, lt_wf, write_span,
}
use bandchain_legacy.Buffer.Values.{write_int}
use bandchain_legacy.Buffer.VarintRoundTrip.{
  encode_loop_last, encode_loop_more, encode_loop-append, length-varint_encode_pos, two_pow_lt,
  lowest_and_rest, next_shift, product_mono, group_bound,
}
use bandchain_legacy.Application.Frame.{
  Ahead, incomplete, complete, finish, read_loop, read_ahead, write_frame,
}

two_pow_lt_int : (a : ℕ) → 2 ^ a < 2 ^ 31 → a < 32
two_pow_lt_int a h = omega (arith, two_pow_lt a 31 h)

finish_at :
    (b : Bytes) {i j x y : ℕ}
    → i ≡ j
    → x ≡ y
    → ◌≡◌ {A = Result Ahead} (ok (finish b i x)) (ok (finish b j y))
finish_at b p q = cc

read_last :
    (buf bs : Bytes) (b idx val : ℕ)
    → b < 128
    → 7 * idx < 32
    → val < 2 ^ (7 * idx)
    → val + b * 2 ^ (7 * idx) < 2 ^ 31
    → read_loop buf (b ∷ bs) idx val ≡ ok (finish buf idx (val + b * 2 ^ (7 * idx)))
unfolding read_loop int_shift
read_last buf bs b idx val hb hi hv hx =
    ground (arith, bit_and_0x7f b, bit_and_0x80 b, bit_or_disjoint (7 * idx) val b hv)

read_more :
    (buf bs : Bytes) (g idx val : ℕ)
    → g < 128
    → 7 * idx < 32
    → val < 2 ^ (7 * idx)
    → val + g * 2 ^ (7 * idx) < 2 ^ 31
    → read_loop buf ((g + 128) ∷ bs) idx val ≡ read_loop buf bs (idx + 1) (val + g * 2 ^ (7 * idx))
unfolding read_loop int_shift
read_more buf bs g idx val hg hi hv hx =
    ground
      (arith, bit_and_0x7f (g + 128), bit_and_0x80 (g + 128), bit_or_disjoint (7 * idx) val g hv)

-- `v` is what is still to be read, and `val` what has been read.
read_loop-encode_loop :
    (buf : Bytes) (v : ℕ) (w : Acc ◌<◌ v) (idx val : ℕ) (rest : Bytes)
    → 7 * idx < 32
    → val < 2 ^ (7 * idx)
    → val + v * 2 ^ (7 * idx) < 2 ^ 31
    → read_loop buf (encode_loop [] v w ++ rest) idx val
      ≡ ok (finish buf (idx + length (encode_loop [] v w) - 1) (val + v * 2 ^ (7 * idx)))
read_loop-encode_loop buf v (Acc.intro _ smaller) idx val rest hi hv hx =
    elim (dec_lt 0 (v / 128)) [
      | yes more ↦
          let w' = smaller (v / 128) (shift_shrinks v more) in
          let bytes : encode_loop [] v (Acc.intro v smaller)
              ≡ (v % 128 + 128) ∷ encode_loop [] (v / 128) w' =
            encode_loop_more [] v smaller more ∙ encode_loop-append _ (v / 128) w' in
          let split = lowest_and_rest (7 * idx) v in
          let up = next_shift idx in
          let e : v / 128 * 2 ^ (7 * (idx + 1)) ≡ v / 128 * 2 ^ (7 * idx + 7) =
            ap (λ (k : ℕ). v / 128 * 2 ^ k) (omega arith) in
          rw bytes (
            read_more buf _ (v % 128) idx val (omega arith) hi hv (omega arith)
            ∙ read_loop-encode_loop buf (v / 128) (smaller (v / 128) (shift_shrinks v more))
                (idx + 1) (val + v % 128 * 2 ^ (7 * idx)) rest
                (two_pow_lt_int _ (omega (arith, product_mono v (2 ^ (7 * idx)) (omega arith))))
                (omega (arith, group_bound val (v % 128) (2 ^ (7 * idx)) (omega arith) hv))
                (omega arith)
            ∙ finish_at buf (omega arith) (omega arith))
      | no last ↦
          rw (encode_loop_last [] v (Acc.intro v smaller) (omega arith))
            (read_last buf rest v idx val (omega arith) hi hv hx ∙ finish_at buf (omega arith) refl)
    ]

length-write_int_pos : (v : ℕ) → 0 < length (write_int [] v)
unfolding write_int
length-write_int_pos v = length-varint_encode_pos v

read_ahead-write_int :
    (v : ℕ) (rest : Bytes)
    → v < 2 ^ 31
    → read_ahead (write_int [] v ++ rest)
      ≡ ok (finish (write_int [] v ++ rest) (length (write_int [] v) - 1) v)
unfolding read_ahead write_int varint_encode
read_ahead-write_int v rest h =
    let bytes : Bytes = encode_loop [] v (lt_wf.apply v) in
    read_loop-encode_loop (bytes ++ rest) v (lt_wf.apply v) 0 0 rest (omega arith) (omega arith)
      (omega arith)
    ∙ finish_at (bytes ++ rest) {i = 0 + length bytes - 1} {j = length bytes - 1}
        {x = 0 + v * 2 ^ (7 * 0)} {y = v} (omega arith) (omega arith)

drop_first :
    (bytes rest : Bytes) → 0 < length bytes → drop (1 + (length bytes - 1)) (bytes ++ rest) ≡ rest
drop_first bytes rest h =
    ap (λ (k : ℕ). drop k (bytes ++ rest)) (omega arith) ∙ drop-append_length bytes rest

finish_complete :
    (bytes rest : Bytes) (n : ℕ)
    → 0 < length bytes
    → n < 2 ^ 30
    → n ≤ length rest
    → finish (bytes ++ rest) (length bytes - 1) (n * 2) ≡ complete n rest
unfolding finish
finish_complete bytes rest n some_byte small enough =
    let half : n * 2 / 2 ≡ n = omega arith in
    ground (arith, half, length-append bytes rest, drop_first bytes rest some_byte)

finish_waits :
    (bytes rest : Bytes) (n : ℕ)
    → 0 < length bytes
    → n < 2 ^ 30
    → length rest < n
    → finish (bytes ++ rest) (length bytes - 1) (n * 2) ≡ incomplete
unfolding finish
finish_waits bytes rest n some_byte small less =
    let half : n * 2 / 2 ≡ n = omega arith in ground (arith, half, length-append bytes rest)

double_fits : {n : ℕ} → n < 2 ^ 30 → n * 2 < 2 ^ 64
double_fits h = omega arith

pub length-write_frame_pos : (data_ : Bytes) → 0 < length (write_frame [] data_)
unfolding write_frame write_span write_int
length-write_frame_pos data_ =
    let v = length data_ * 2 % 2 ^ 64 in
    omega (arith, length-append (varint_encode [] v) data_, length-varint_encode_pos v)

frame_bytes :
    (data_ : Bytes)
    → length data_ < 2 ^ 30
    → write_frame [] data_ ≡ write_int [] (length data_ * 2) ++ data_
unfolding write_frame write_span
frame_bytes data_ small = rw (mod-eq_of_lt (double_fits small)) refl

-- Of the frame of a message below 2 ^ 30 bytes, whatever follows it, read_ahead finds the length
-- of the message, and leaves the message and what follows.
pub read_ahead-write_frame :
    (data_ rest : Bytes)
    → length data_ < 2 ^ 30
    → read_ahead (write_frame [] data_ ++ rest) ≡ ok (complete (length data_) (data_ ++ rest))
read_ahead-write_frame data_ rest small =
    rw (frame_bytes data_ small, append_assoc (write_int [] (length data_ * 2)) data_ rest)
      (read_ahead-write_int (length data_ * 2) (data_ ++ rest) (omega arith)
        ∙ ap ok (
            finish_complete (write_int [] (length data_ * 2)) (data_ ++ rest) (length data_)
              (length-write_int_pos (length data_ * 2)) small
              (omega (arith, length-append data_ rest))))

-- A frame whose message has not arrived in full is left to wait.
pub read_ahead-partial :
    (n : ℕ) (part : Bytes)
    → n < 2 ^ 30
    → length part < n
    → read_ahead (write_int [] (n * 2) ++ part) ≡ ok incomplete
read_ahead-partial n part small less =
    read_ahead-write_int (n * 2) part (omega arith)
    ∙ ap ok (finish_waits (write_int [] (n * 2)) part n (length-write_int_pos (n * 2)) small less)
