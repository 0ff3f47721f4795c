-- ===== src/Application/Requests.antt =====
-- The requests and responses of src/net/tmapp.cc, and the functions that answer those which are
-- not about transactions, for the application of src/main/bandlog.cc.
use bandchain_legacy.Common.{
  ℕ, Option, none, some, List, [], ◌∷◌, length, ◌==◌, eq_bytes, codes, if◌then◌else◌,
}
use bandchain_legacy.Thrown
use bandchain_legacy.Thrown.{
  Result, ok, err, error, failure, overflow_error, range_error, runtime_error, undefined,
  terminated, out_of_fuel,
}
use bandchain_legacy.Uint256.{CheckedUint}
use bandchain_legacy.Buffer.{Bytes}
use bandchain_legacy.Ledger.Action.{Action, ◌>>=◌, ◌>>◌, pure, lift, throw}
use bandchain_legacy.Listener.Manager
use bandchain_legacy.Listener.Manager.{BaseListener}
use bandchain_legacy.Application.{
  Application, TxAnswer, on_manager, do_begin_block, do_end_block, do_commit, do_check_tx,
  do_deliver_tx,
}

-- A `Request` by its `value_case`, with the fields that are read; `other_request` is every further case.
-- The validators are their keys' bytes and their powers.
pub data Request : Type 0 where
  echo_request : (message : Bytes) → Request
  flush_request set_option_request end_block_request commit_request other_request : Request
  info_request : (version : Bytes) → Request
  init_chain_request : (validators : List (Bytes × ℕ)) (app_state : Bytes) → Request
  query_request : (path data_ : Bytes) → Request
  begin_block_request : (seconds : ℕ) (proposer : Bytes) → Request
  check_tx_request deliver_tx_request : (tx : Bytes) → Request

-- A `Response` with the fields that are set, error messages left out.
pub data Answer : Type 0 where
  echo_answer : (message : Bytes) → Answer
  flush_answer init_chain_answer begin_block_answer end_block_answer : Answer
  info_answer : (data_ version : Bytes) (last : Option (ℕ × Bytes)) → Answer
  query_answer : (height : ℕ) (value : Option Bytes) → Answer
  check_tx_answer deliver_tx_answer : TxAnswer → Answer
  commit_answer : (app_hash : Bytes) → Answer

-- `get_name`, `get_version`, `get_current_app_hash` and `get_tm_version`
abbrev app_name : Bytes
app_name = codes "band-logging"

abbrev app_version : Bytes
app_version = codes "n/a"

abbrev current_app_hash : Bytes
current_app_hash = []

abbrev pub tm_version : Bytes
tm_version = codes "0.25.0-d297f022"

-- The `catch` clause of `do_query`: every exception of the standard library and of the program.
unfoldable pub catch_query : ℕ → Result Bytes → Result Answer
catch_query height (ok value) = ok (query_answer height (some value))
catch_query height (err error) = ok (query_answer height none)
catch_query height (err failure) = ok (query_answer height none)
catch_query height (err overflow_error) = ok (query_answer height none)
catch_query height (err range_error) = ok (query_answer height none)
catch_query height (err runtime_error) = ok (query_answer height none)
catch_query height (err undefined) = err undefined
catch_query height (err terminated) = err terminated
catch_query height (err out_of_fuel) = err out_of_fuel

module _ {L : Type 0} where
  -- `do_info`
  unfoldable pub do_info : Bytes → Action (Application L) Answer
  do_info version app =
      if eq_bytes version tm_version
      then (
        ok (
            info_answer app_name app_version (
              if app.last_block_height == 0
              then none
              else some (app.last_block_height, current_app_hash))),
        app,
      )
      else (err failure, app)

  -- `do_query`: the query itself is `ListenerManager::abi`, which is `abi` here.
  unfoldable pub do_query : Result Bytes → Action (Application L) Answer
  unfolding catch_query
  do_query abi app = (catch_query app.last_block_height abi, app)

-- `VerifyKey::raw` of every validator's key.
unfoldable pub read_keys : List (Bytes × ℕ) → Result (List (Bytes × ℕ))
read_keys [] = ok []
read_keys ((key, power) ∷ rest) =
    let more = read_keys rest in
    if length key == 32 then (Thrown.◌>>=◌ more λ keys. ok ((key, power) ∷ keys)) else err error

module _ ⦃u : CheckedUint⦄ {L : Type 0} (base : BaseListener L) where
  -- `do_init_chain`: the manager does not use the validators or the state.
  unfoldable pub do_init_chain : List (Bytes × ℕ) → Action (Application L) (Unit {0})
  unfolding read_keys on_manager
  do_init_chain validators =
      lift (read_keys validators) >>= λ keys. on_manager (Manager.init_chain base)

  -- `Address::raw` of the proposer, and then `do_begin_block`.
  unfoldable pub begin_with : ℕ → Bytes → Action (Application L) (Unit {0})
  unfolding do_begin_block
  begin_with seconds proposer app =
      if length proposer == 20 then do_begin_block base seconds app else (err error, app)

  -- The `switch` of `process`.
  unfoldable pub respond : (Bytes → Bytes) → Result Bytes → Request → Action (Application L) Answer
  unfolding do_info do_query do_init_chain begin_with do_end_block do_commit do_check_tx
      do_deliver_tx
  respond sha256 abi (echo_request message) = pure (echo_answer message)
  respond sha256 abi flush_request = pure flush_answer
  respond sha256 abi (info_request version) = do_info version
  respond sha256 abi set_option_request = throw failure
  respond sha256 abi (init_chain_request validators app_state) =
      do_init_chain validators >> pure init_chain_answer
  respond sha256 abi (query_request path data_) = do_query abi
  respond sha256 abi (begin_block_request seconds proposer) =
      begin_with seconds proposer >> pure begin_block_answer
  respond sha256 abi (check_tx_request tx) =
      do_check_tx base sha256 tx >>= λ answer. pure (check_tx_answer answer)
  respond sha256 abi (deliver_tx_request tx) =
      do_deliver_tx base sha256 tx >>= λ answer. pure (deliver_tx_answer answer)
  respond sha256 abi end_block_request = do_end_block base >> pure end_block_answer
  respond sha256 abi commit_request = do_commit base >> pure (commit_answer current_app_hash)
  respond sha256 abi other_request = throw failure
