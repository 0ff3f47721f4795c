-- ===== src/Application/Frame.antt =====
-- `read_ahead` of src/net/tmapp.cc, and the frames that `process` writes: a message is sent behind
-- the varint of twice its length.
pub mod RoundTrip
use bandchain_legacy.Common.{
  ℕ, ◌+◌, ◌*◌, ◌/◌, ◌%◌, ◌^◌, bit_and, bit_or, [], ◌∷◌, ◌++◌, length, drop, ltb, ◌==◌,
  if◌then◌else◌,
}
use bandchain_legacy.Thrown.{Result, ok, ◌>>=◌}
use bandchain_legacy.Buffer.{Bytes, int_shift, write_span}
use bandchain_legacy.Buffer.Values.{write_int}

-- What `read_ahead` returns: `false`, or `true` with the size and the buffer behind the length. A
-- length whose highest bit is set is a negative size.
pub data Ahead : Type 0 where
  incomplete : Ahead
  complete : ℕ → Bytes → Ahead
  negative : Bytes → Ahead

-- The end of the loop at a byte that has no other behind it. `value` has the 32 bits of the `int`,
-- which `>>= 1` halves; where it is negative, `idx + value` is below the size of the buffer.
unfoldable pub finish : Bytes → ℕ → ℕ → Ahead
finish buf idx value =
    if ltb value (2 ^ 31)
    then if ltb (idx + value / 2) (length buf)
      then complete (value / 2) (drop (1 + idx) buf)
      else incomplete
    else negative (drop (1 + idx) buf)

unfoldable pub read_loop : Bytes → Bytes → ℕ → ℕ → Result Ahead
unfolding finish
read_loop buf [] idx value = ok incomplete
read_loop buf (b ∷ bs) idx value = do
  shifted ← int_shift (bit_and b 0x7f) (7 * idx)
  let value' = bit_or value shifted
  let more = read_loop buf bs (idx + 1) value'
  if bit_and b 0x80 == 0 then ok (finish buf idx value') else more

unfoldable pub read_ahead : Bytes → Result Ahead
unfolding read_loop
read_ahead buf = read_loop buf buf 0 0

-- What `process` writes for a message: `write_size << 1` is a `uint64_t`.
unfoldable pub write_frame : Bytes → Bytes → Bytes
write_frame buf data_ = write_span (write_int buf (length data_ * 2 % 2 ^ 64)) data_
