-- ===== src/Text.antt =====
-- src/util/string.h and src/util/string.cc: strings with a bound on their length, of printable
-- characters, in lower case where case does not matter. The locale is "C".
pub mod Validate
use bandchain_legacy.Common.{
  ℕ, ◌+◌, ◌≤◌, Bool, true, false, not, ◌&&◌, ◌||◌, List, [], ◌∷◌, length, ltb, leb, if◌then◌else◌,
}
use bandchain_legacy.Thrown.{Result, ok, err, error, ◌>>=◌}
use bandchain_legacy.Uint256.{CheckedUint}
use bandchain_legacy.Buffer.{Bytes, Reader}
use bandchain_legacy.Buffer.Values.{write_string, read_string}

pub data StringCase : Type 0 where
  sensitive in_sensitive : StringCase

-- `std::isprint` and `std::tolower` of the "C" locale.
unfoldable pub is_print : ℕ → Bool
is_print c = leb 32 c && leb c 126

unfoldable pub to_lower : ℕ → ℕ
to_lower c = if leb 65 c && leb c 90 then c + 32 else c

unfoldable pub lower_all : Bytes → Bytes
lower_all [] = []
lower_all (c ∷ cs) = to_lower c ∷ lower_all cs

unfoldable pub any_unprintable : Bytes → Bool
any_unprintable [] = false
any_unprintable (c ∷ cs) = not (is_print c) || any_unprintable cs

unfoldable pub lower_if : StringCase → Bytes → Bytes
lower_if sensitive raw = raw
lower_if in_sensitive raw = lower_all raw

-- `String::validate`
unfoldable pub validate : ℕ → StringCase → Bytes → Result Bytes
validate max_length case_ raw =
    if ltb max_length (length raw)
    then err error
    else if any_unprintable raw
    then err error
    else ok (lower_if case_ raw)

unfoldable pub write_text : Bytes → Bytes → Bytes
write_text buf s = write_string buf s

module _ ⦃u : CheckedUint⦄ where
  unfoldable pub read_text : ℕ → StringCase → Reader Bytes
  read_text max_length case_ buf = do
    (raw, rest) ← read_string buf
    s ← validate max_length case_ raw
    ok (s, rest)

  -- `Ident`
  unfoldable pub read_ident : Reader Bytes
  unfolding read_text
  read_ident buf = read_text 20 in_sensitive buf

  -- `NodeID`
  unfoldable pub read_node_id : Reader Bytes
  unfolding read_text
  read_node_id buf = read_text 128 sensitive buf
