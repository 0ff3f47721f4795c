-- ===== src/Buffer/Values.antt =====
-- The overloads of `operator<<` and `operator>>` in src/util/buffer.h and src/util/buffer.cc.
use bandchain_legacy.Common.{
  ℕ, zero, suc, ◌%◌, ◌^◌, Bool, List, [], ◌∷◌, length, ltb, ◌==◌, if◌then◌else◌,
}
use bandchain_legacy.Thrown.{ok, err, error, ◌>>=◌}
use bandchain_legacy.Uint256.{CheckedUint}
use bandchain_legacy.Buffer.Types.{Bytes, Reader, IntType, uint8, uint64, write_span, read_span}
use bandchain_legacy.Buffer.Varint.{varint_encode, varint_decode}

unfoldable pub write_int : Bytes → ℕ → Bytes
write_int buf val = varint_encode buf val

unfoldable pub write_bool : Bytes → Bool → Bytes
write_bool buf val = write_int buf (if val then 1 else 0)

-- The length is cast to `uint64_t`.
unfoldable pub write_string : Bytes → Bytes → Bytes
write_string buf val = write_span (write_int buf (length val % 2 ^ 64)) val

module _ ⦃u : CheckedUint⦄ where
  unfoldable pub read_int : IntType → Reader ℕ
  read_int t buf = varint_decode t buf

  unfoldable pub read_bool : Reader Bool
  read_bool buf = do
    (tmp_val, rest) ← read_int uint8 buf
    if ltb 1 tmp_val then err error else ok (tmp_val == 1, rest)

  unfoldable pub read_string : Reader Bytes
  read_string buf = do (n, rest) ← read_int uint64 buf; read_span n rest

module _ {A B : Type 0} (write_a : Bytes → A → Bytes) (write_b : Bytes → B → Bytes) where
  unfoldable pub write_pair : Bytes → A × B → Bytes
  write_pair buf (a, b) = write_b (write_a buf a) b

module _ {A B : Type 0} (read_a : Reader A) (read_b : Reader B) where
  unfoldable pub read_pair : Reader (A × B)
  read_pair buf = do (a, rest) ← read_a buf; (b, rest') ← read_b rest; ok ((a, b), rest')

module _ {A : Type 0} (write_a : Bytes → A → Bytes) where
  unfoldable pub write_each : Bytes → List A → Bytes
  write_each buf [] = buf
  write_each buf (v ∷ vs) = write_each (write_a buf v) vs

  unfoldable pub write_vector : Bytes → List A → Bytes
  write_vector buf val = write_each (write_int buf (length val % 2 ^ 64)) val

module _ {A : Type 0} (read_a : Reader A) where
  unfoldable pub read_each : ℕ → Reader (List A)
  read_each zero buf = ok ([], buf)
  read_each (suc n) buf = do
    (v, rest) ← read_a buf
    (vs, rest') ← read_each n rest
    ok (v ∷ vs, rest')

module _ ⦃u : CheckedUint⦄ {A : Type 0} (read_a : Reader A) where
  unfoldable pub read_vector : Reader (List A)
  read_vector buf = do (n, rest) ← read_int uint64 buf; read_each read_a n rest
