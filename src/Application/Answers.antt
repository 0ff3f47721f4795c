-- ===== src/Application/Answers.antt =====
-- Which exceptions the answers to transactions of src/net/tmapp.cc let through.
use bandchain_legacy.Common.{ℕ, ◌<◌, ◌≡◌, refl, arith}
use bandchain_legacy.Thrown.{ok, err, runtime_error}
use bandchain_legacy.Uint256.{CheckedUint}
use bandchain_legacy.Buffer.{Bytes, uint16}
use bandchain_legacy.Buffer.Values.{read_int}
use bandchain_legacy.Messages.{HeaderMsg, parse_header, read_type, type_from_integral}
use bandchain_legacy.Listener.Manager.{BaseListener, apply_transaction}
use bandchain_legacy.Application.{Application, do_deliver_tx, on_manager, catch_tx}

unknown_type : (v : ℕ) → 7 < v → type_from_integral v ≡ err runtime_error
unfolding type_from_integral
unknown_type v h = ground arith

module _ ⦃u : CheckedUint⦄ {L : Type 0} (base : BaseListener L) (sha256 : Bytes → Bytes) where
  -- A transaction whose header is read, and whose type is a number above 7, is not answered:
  -- delivering it throws std::runtime_error, whatever the state of the application, and the
  -- application stays as it was.
  pub do_deliver_tx_unknown :
      (tx data_ buf rest : Bytes) (hdr : HeaderMsg) (v : ℕ) (app : Application L)
      → parse_header sha256 tx ≡ ok (hdr, data_, buf)
      → read_int uint16 buf ≡ ok (v, rest)
      → 7 < v
      → do_deliver_tx base sha256 tx app ≡ (err runtime_error, app)
  unfolding do_deliver_tx on_manager catch_tx apply_transaction read_type
  do_deliver_tx_unknown tx data_ buf rest hdr v app h r less = rw (h, r, unknown_type v less) refl
