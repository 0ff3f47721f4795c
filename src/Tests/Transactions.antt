-- ===== src/Tests/Transactions.antt =====
-- Transactions on the listener of src/listener/primary.cc, at a concrete ledger.
use bandchain_legacy.Common.{
  ◌≡◌, ◌<◌, ◌≤◌, ◌≢◌, ◌⊎◌, refl, [], ◌∷◌, none, some, lookup, eq_bytes, arith,
}
use bandchain_legacy.Thrown.{ok, err, error}
use bandchain_legacy.Buffer.{Bytes}
use bandchain_legacy.Store.Backend.{apply_side, get, switch_to_apply}
use bandchain_legacy.Store.Data
use bandchain_legacy.Ledger.Contracts.{Account, account_contract}
use bandchain_legacy.Ledger.Fields.{with_account, read_nonce}
use bandchain_legacy.Ledger.Storage.{Storage, load}
use bandchain_legacy.Ledger.Account.{set_nonce}
use bandchain_legacy.Ledger.Nonce.{nonce_of, set_nonce_lem}
use bandchain_legacy.Messages.{HeaderMsg, mint_token}
use bandchain_legacy.Listener.Primary.{
  check, apply, switch_mode, validate_transaction, process, process_body, handle,
}
use bandchain_legacy.Listener.Atomic.{process-atomic}
use bandchain_legacy.Listener.Replay.{account_key, validate_transaction_once}
use bandchain_legacy.Tests.Tokens.{cached, alice, bob, key_a}
use bandchain_legacy.Tests.Boost.{boost}

-- Alice's account, with the nonce 4.
abbrev account : Account
account = record { key = account_key alice; verify_key = cached []; nonce = cached 4 }

abbrev accounts : Storage
accounts = record {
  backend = record { check_cache = []; apply_cache = []; current = some apply_side };
  contracts = (account_key alice, account_contract account) ∷ [];
}

nonce_four : nonce_of ⦃u = boost⦄ accounts (account_key alice) ≡ ok 4
unfolding nonce_of with_account lookup eq_bytes read_nonce Data.read
nonce_four = refl

nonce_to_apply : nonce_of ⦃u = boost⦄ (switch_mode apply accounts) (account_key alice) ≡ ok 4
unfolding nonce_of with_account switch_mode lookup eq_bytes read_nonce Data.read
nonce_to_apply = refl

alice≢bob : account_key alice ≢ account_key bob
alice≢bob e = ground arith

set_nonce_lem_example :
    (((5 ≤ 4)
        × ((set_nonce ⦃u = boost⦄ (account_key alice) 5 accounts).0 ≡ err error)
        × (nonce_of ⦃u = boost⦄
              (set_nonce ⦃u = boost⦄ (account_key alice) 5 accounts).1
              (account_key alice)
            ≡ ok 4))
      ⊎ ((4 < 5)
          × ((set_nonce ⦃u = boost⦄ (account_key alice) 5 accounts).0 ≡ ok tt)
          × (nonce_of ⦃u = boost⦄
                (set_nonce ⦃u = boost⦄ (account_key alice) 5 accounts).1
                (account_key alice)
              ≡ ok 5)))
    × (lookup (account_key bob) (set_nonce ⦃u = boost⦄ (account_key alice) 5 accounts).1.contracts
        ≡ lookup (account_key bob) accounts.contracts)
    × ((set_nonce ⦃u = boost⦄ (account_key alice) 5 accounts).1.backend ≡ accounts.backend)
set_nonce_lem_example =
    set_nonce_lem ⦃u = boost⦄ accounts (account_key alice) (account_key bob) 4 5 nonce_four
      alice≢bob

abbrev header : HeaderMsg
header = record { user = alice; sig = []; nonce = 9; hash = [] }

validate_transaction_once_example :
    ((validate_transaction ⦃u = boost⦄ apply header accounts).0 ≡ ok tt)
    × ((validate_transaction ⦃u = boost⦄ check header
          (validate_transaction ⦃u = boost⦄ apply header accounts).1).0
        ≡ err error)
validate_transaction_once_example =
    validate_transaction_once ⦃u = boost⦄ apply check header header accounts 4 nonce_to_apply
      (omega arith) refl (omega arith)

-- Minting a token that does not exist.
abbrev minting : Bytes
minting = 120 ∷ []

minted : (process ⦃u = boost⦄ header (mint_token minting 5) accounts).0 ≡ err error
unfolding process process_body handle switch_mode load lookup eq_bytes get switch_to_apply
minted = refl

process-atomic_example :
    (process ⦃u = boost⦄ header (mint_token minting 5) accounts).1
    ≡ record { backend = switch_to_apply accounts.backend; contracts = [] }
process-atomic_example =
    process-atomic ⦃u = boost⦄ header (mint_token minting 5) accounts error refl minted

-- A token of the name "a" that nobody holds yet, in the key-value storage.
abbrev name_a : Bytes
name_a = 97 ∷ []

abbrev stored : Storage
stored = record {
  backend = record { check_cache = []; apply_cache = (key_a, key_a) ∷ []; current = none };
  contracts = [];
}
