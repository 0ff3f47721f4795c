-- ===== src/Ledger/Account.antt =====
-- src/contract/account.cc: an account's key, and its nonce, which only grows.
use bandchain_legacy.Common.{ℕ, leb, if◌then◌else◌}
use bandchain_legacy.Thrown.{error}
use bandchain_legacy.Uint256.{CheckedUint}
use bandchain_legacy.Buffer.{Bytes}
use bandchain_legacy.Ledger.Action.{Action, ◌>>=◌, ◌>>◌, throw}
use bandchain_legacy.Ledger.Storage.{Storage}
use bandchain_legacy.Ledger.Fields.{with_account, assign_verify_key, assign_nonce, read_nonce}

module _ ⦃u : CheckedUint⦄ where
  -- `Account::init`
  unfoldable pub init : Bytes → Bytes → Action Storage (Unit {0})
  init verify_key key = do
    with_account key (assign_verify_key verify_key)
    with_account key (assign_nonce 0)

  -- `Account::setNonce`
  unfoldable pub set_nonce : Bytes → ℕ → Action Storage (Unit {0})
  set_nonce key new_nonce = do
    old ← with_account key read_nonce
    if leb new_nonce old then throw error else with_account key (assign_nonce new_nonce)
