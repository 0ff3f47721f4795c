-- ===== src/Buffer/Codec.antt =====
-- `operator<<` and `operator>>` of a type, as src/util/buffer.h overloads them, behind two laws:
-- a writer puts bytes behind the buffer, and a reader of the type reads them back.
use bandchain_legacy.Common.{◌≡◌, ◌++◌, [], ◌∷◌, append-nil, arith}
use bandchain_legacy.Thrown.{Result, ok, err, undefined, ◌>>=◌}
use bandchain_legacy.Buffer.Types.{Bytes, Reader}

pub record Codec (A : Type 0) : Type 1 where
  pub write : Bytes → A → Bytes
  pub read : Reader A
  pub Fits : A → Type 0
  pub write-append : (buf : Bytes) (a : A) → write buf a ≡ buf ++ write [] a
  pub read-write : (a : A) (rest : Bytes) → Fits a → read (write [] a ++ rest) ≡ ok (a, rest)

-- `std::string((const char*)&buf.front(), buf.size())`: `front()` of an empty vector is undefined.
abbrev pub raw_string : Bytes → Result Bytes
raw_string [] = err undefined
raw_string (b ∷ bs) = ok (b ∷ bs)

module _ {A : Type 0} (c : Codec A) where
  -- `Buffer::serialize` and `Buffer::deserialize`: what is left of the buffer is dropped.
  unfoldable pub serialize : A → Result Bytes
  serialize a = raw_string (c.write [] a)

  unfoldable pub deserialize : Bytes → Result A
  deserialize raw = do (a, rest) ← c.read raw; ok a

  raw_string-eq : (buf raw : Bytes) → raw_string buf ≡ ok raw → buf ≡ raw
  raw_string-eq buf raw h = ground arith

  -- What serializing returns is deserialized to the value.
  pub deserialize-serialize :
      (a : A) (raw : Bytes) → c.Fits a → serialize a ≡ ok raw → deserialize raw ≡ ok a
  unfolding deserialize serialize
  deserialize-serialize a raw h e =
      let same : c.write [] a ≡ raw = raw_string-eq (c.write [] a) raw e in
      rw (← same, ← append-nil (c.write [] a), c.read-write a [] h)
