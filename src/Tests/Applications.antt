-- ===== src/Tests/Applications.antt =====
-- Answers to transactions of src/net/tmapp.cc, at concrete bytes.
use bandchain_legacy.Common.{ℕ, zero, suc, ◌≡◌, refl, [], ◌∷◌, ◌++◌, none, arith}
use bandchain_legacy.Thrown.{ok, err, runtime_error}
use bandchain_legacy.Buffer.{
  Bytes, uint16, varint_decode, decode_loop, shift_left, bits_of, read_span,
}
use bandchain_legacy.Buffer.Values.{read_int, read_string}
use bandchain_legacy.Text.{
  read_ident, read_text, validate, any_unprintable, is_print, lower_if, lower_all, to_lower,
}
use bandchain_legacy.Messages.{HeaderMsg, parse_header}
use bandchain_legacy.Listener.Manager.{BaseListener, next_block}
use bandchain_legacy.Ledger.Action.{pure}
use bandchain_legacy.Application.{Application, do_deliver_tx}
use bandchain_legacy.Application.Answers.{do_deliver_tx_unknown}
use bandchain_legacy.Tests.Boost.{boost}

-- A listener that does nothing, and an application without listeners.
abbrev pub silent : BaseListener (Unit {0})
silent = record {
  init = λ genesis. pure tt;
  begin = λ block. pure tt;
  commit = λ block. pure tt;
  handle = λ block hdr msg res. pure tt;
}

abbrev pub idle : Application (Unit {0})
idle = record {
  manager = record { primary = none; listeners = []; block = next_block 0 };
  last_block_height = 0;
}

abbrev zeros : ℕ → Bytes
zeros zero = []
zeros (suc n) = 0 ∷ zeros n

-- The user "u", an empty signature, the nonce 1, and the type 9.
abbrev strange : Bytes
strange = 1 ∷ 117 ∷ (zeros 64 ++ 1 ∷ 9 ∷ [])

abbrev pub no_hash : Bytes → Bytes
no_hash raw = []

abbrev strange_header : HeaderMsg
strange_header = record { user = 117 ∷ []; sig = zeros 64; nonce = 1; hash = [] }

strange_parsed : parse_header ⦃u = boost⦄ no_hash strange ≡ ok (strange_header, 1 ∷ 9 ∷ [], 9 ∷ [])
unfolding parse_header read_ident read_text read_string read_int varint_decode decode_loop
    shift_left bits_of read_span validate any_unprintable is_print lower_if lower_all to_lower
strange_parsed = refl

type_nine : read_int ⦃u = boost⦄ uint16 (9 ∷ []) ≡ ok (9, [])
unfolding read_int varint_decode decode_loop shift_left bits_of
type_nine = refl

do_deliver_tx_unknown_example :
    do_deliver_tx ⦃u = boost⦄ silent no_hash strange idle ≡ (err runtime_error, idle)
do_deliver_tx_unknown_example =
    do_deliver_tx_unknown ⦃u = boost⦄ silent no_hash strange (1 ∷ 9 ∷ []) (9 ∷ []) [] strange_header
      9 idle strange_parsed type_nine (omega arith)
