-- ===== src/Application.antt =====
-- src/net/tmapp.cc: the requests that concern blocks and transactions, for an application that
-- passes them to the manager of its listeners, as that of src/main/bandlog.cc does. Requests and
-- responses are protobuf messages: of a response to a transaction the code and the data are kept.
pub mod Answers
pub mod Frame
pub mod Requests
pub mod Session
use bandchain_legacy.Common.{ℕ, ◌+◌, ◌%◌, ◌^◌, List, [], ◌∷◌}
use bandchain_legacy.Thrown.{
  Thrown, Result, ok, err, error, failure, overflow_error, range_error, runtime_error, undefined,
  terminated, out_of_fuel,
}
use bandchain_legacy.Uint256.{CheckedUint}
use bandchain_legacy.Buffer.{Bytes}
use bandchain_legacy.Ledger.Action.{Action, ◌>>=◌, ◌>>◌, modify, pure, continue_with}
use bandchain_legacy.Listener.Manager
use bandchain_legacy.Listener.Manager.{ListenerManager, BaseListener}

-- Code 0 with the data that the application returned, or code 1.
pub data TxAnswer : Type 0 where
  accepted : Bytes → TxAnswer
  rejected : TxAnswer

-- The `catch` clauses of `do_check_tx` and `do_deliver_tx`; what they do not name goes on.
unfoldable pub catch_tx : Result Bytes → Result TxAnswer
catch_tx (ok data_) = ok (accepted data_)
catch_tx (err error) = ok rejected
catch_tx (err range_error) = ok rejected
catch_tx (err overflow_error) = ok rejected
catch_tx (err failure) = err failure
catch_tx (err runtime_error) = err runtime_error
catch_tx (err undefined) = err undefined
catch_tx (err terminated) = err terminated
catch_tx (err out_of_fuel) = err out_of_fuel

-- The application: its manager, and `last_block_height`.
pub record Application (L : Type 0) : Type 0 where
  pub manager : ListenerManager L
  pub last_block_height : ℕ

module _ {L : Type 0} where
  unfoldable pub on_manager : {A : Type 0} → Action (ListenerManager L) A → Action (Application L) A
  on_manager f app = let p = f app.manager in (p.0, record app { manager = p.1 })

module _ ⦃u : CheckedUint⦄ {L : Type 0} (base : BaseListener L) where
  -- `do_begin_block`: the height counts in `uint64_t`.
  unfoldable pub do_begin_block : ℕ → Action (Application L) (Unit {0})
  unfolding on_manager
  do_begin_block timestamp = do
    on_manager (Manager.begin_block base timestamp)
    modify (λ app. record app { last_block_height = (app.last_block_height + 1) % 2 ^ 64 })

  unfoldable pub do_end_block : Action (Application L) (Unit {0})
  unfolding on_manager
  do_end_block = on_manager Manager.end_block

  unfoldable pub do_commit : Action (Application L) (Unit {0})
  unfolding on_manager
  do_commit = on_manager (Manager.commit_block base)

  module _ (sha256 : Bytes → Bytes) where
    -- `do_check_tx`
    unfoldable pub do_check_tx : Bytes → Action (Application L) TxAnswer
    unfolding on_manager catch_tx
    do_check_tx tx app =
        let p = on_manager (Manager.check_transaction base sha256 tx >> pure []) app in
        (catch_tx p.0, p.1)

    -- `do_deliver_tx`
    unfoldable pub do_deliver_tx : Bytes → Action (Application L) TxAnswer
    unfolding on_manager catch_tx
    do_deliver_tx tx app =
        let p = on_manager (Manager.apply_transaction base sha256 tx []) app in (catch_tx p.0, p.1)
