-- ===== src/Buffer.antt =====
-- src/util/buffer.h and src/util/buffer.cc: the byte queue that every value is written to and
-- read from. The vector of bytes is a list of numbers below 256; a reader returns the value with
-- the bytes that it leaves. Allocations are taken to succeed.
mod Types
mod Varint
pub mod Values
pub mod Codec
pub mod Decode
pub mod VarintRoundTrip
pub mod ValuesRoundTrip
pub use Types.*
unfoldable pub use Types.{write_span, read_span, consume, bits_of}
pub use Varint.*
unfoldable pub use Varint.{
  varint_encode, encode_loop, lt_wf, varint_decode, decode_loop, shift_left, int_shift,
}
