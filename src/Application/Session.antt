-- ===== src/Application/Session.antt =====
-- `process` of src/net/tmapp.cc, and the buffers of a connection in src/net/session.cc. Requests are
-- parsed and responses serialized by protobuf, which `parse` and `serialize` stand for.
pub mod Runs
pub mod Fuel
pub mod Answered
use bandchain_legacy.Common.{
  ℕ, zero, suc, Bool, true, false, List, [], ◌∷◌, ◌++◌, length, take, drop,
}
use bandchain_legacy.Thrown.{Result, ok, err, undefined, out_of_fuel}
use bandchain_legacy.Uint256.{CheckedUint}
use bandchain_legacy.Buffer.{Bytes, write_span, consume}
use bandchain_legacy.Ledger.Action.{Action, ◌>>=◌, ◌>>◌, pure, lift, modify}
use bandchain_legacy.Listener.Manager.{BaseListener}
use bandchain_legacy.Application.{Application}
use bandchain_legacy.Application.Frame.{
  Ahead, incomplete, complete, negative, read_ahead, write_frame,
}
use bandchain_legacy.Application.Requests.{Request, Answer, respond}

-- A `Session` with its application.
pub record Session (L : Type 0) : Type 0 where
  pub app : Application L
  pub read_buffer : Bytes
  pub write_buffer : Bytes

module _ {L : Type 0} where
  unfoldable pub on_app : {A : Type 0} → Action (Application L) A → Action (Session L) A
  on_app f s = let p = f s.app in (p.0, record s { app = p.1 })

  abbrev pub set_read : Bytes → Action (Session L) (Unit {0})
  set_read buf = modify (λ s. record s { read_buffer = buf })

  abbrev pub put_write : Bytes → Action (Session L) (Unit {0})
  put_write bytes = modify (λ s. record s { write_buffer = write_frame s.write_buffer bytes })

module _ ⦃u : CheckedUint⦄ {L : Type 0} (base : BaseListener L) (sha256 : Bytes → Bytes)
    (abi : Result Bytes) (parse : Bytes → Request) (serialize : Answer → Bytes) where
  -- What `process` does with the bytes of a request, which it has taken out of the buffer.
  unfoldable pub answer_request : Bytes → Action (Session L) (Unit {0})
  unfolding on_app
  answer_request bytes = do
    res ← on_app (respond base sha256 abi (parse bytes))
    put_write (serialize res)

  -- `process` behind `read_ahead`.
  unfoldable pub process_ahead : Ahead → Action (Session L) Bool
  unfolding answer_request
  process_ahead incomplete = pure false
  process_ahead (negative rest) = set_read rest >> lift (err undefined)
  process_ahead (complete size rest) =
      set_read rest
      >> (lift (consume size rest) >>= λ left.
          set_read left >> (answer_request (take size rest) >> pure true))

  -- `process`
  unfoldable pub process : Action (Session L) Bool
  unfolding process_ahead
  process s = (lift (read_ahead s.read_buffer) >>= process_ahead) s

  -- The loop of `process_read`; every round takes a byte at least.
  unfoldable pub process_all : ℕ → Action (Session L) (Unit {0})
  unfolding process
  process_all zero s = (err out_of_fuel, s)
  process_all (suc fuel) s =
      (process >>= λ more. elim more [ true ↦ process_all fuel | false ↦ pure tt ]) s

  -- `process_read` of the bytes that were received.
  unfoldable pub process_read : Bytes → Action (Session L) (Unit {0})
  unfolding process_all
  process_read received s =
      let buf = write_span s.read_buffer received in
      process_all (suc (length buf)) (record s { read_buffer = buf })

module _ {L : Type 0} where
  -- `process_write`: so many bytes were sent.
  unfoldable pub process_write : ℕ → Action (Session L) (Unit {0})
  process_write n = λ s.
      (lift (consume n s.write_buffer) >>= λ left. modify (λ t. record t { write_buffer = left })) s
