-- ===== src/Listener/Primary.antt =====
-- src/listener/primary.h and src/listener/primary.cc: the listener that keeps the state of the
-- chain. Its state is the storage that it refers to.
use bandchain_legacy.Uint256.{CheckedUint}
use bandchain_legacy.Equation.{var}
use bandchain_legacy.Messages.{
  GenesisMsg, HeaderMsg, Msg, create_account, create_token, mint_token, transfer_token, buy_token,
  sell_token, add_wiki_edge, remove_wiki_edge, Response, no_response, traded,
}
use bandchain_legacy.Store.Backend.{switch_to_check, switch_to_apply}
use bandchain_legacy.Ledger.Action.{Action, ◌>>=◌, ◌>>◌, pure, modify}
use bandchain_legacy.Ledger.Contracts.{account_kind, token_kind}
use bandchain_legacy.Ledger.Storage
use bandchain_legacy.Ledger.Storage.{Storage, load, create}
use bandchain_legacy.Ledger.Account
use bandchain_legacy.Ledger.Token

pub data PrimaryMode : Type 0 where
  check apply : PrimaryMode

unfoldable pub switch_mode : PrimaryMode → Storage → Storage
switch_mode check s = record s { backend = switch_to_check s.backend }
switch_mode apply s = record s { backend = switch_to_apply s.backend }

module _ ⦃u : CheckedUint⦄ where
  -- `init`; the genesis token is its own base, and its curve is `Curve::linear`.
  unfoldable pub init : GenesisMsg → Action Storage (Unit {0})
  init genesis = do
    modify (switch_mode apply)
    account ← create account_kind genesis.account (Account.init genesis.verify_key)
    token ← create token_kind genesis.token (Token.init genesis.token var)
    Storage.flush

  unfoldable pub begin : Action Storage (Unit {0})
  begin = modify Storage.reset

  unfoldable pub commit : Action Storage (Unit {0})
  commit = Storage.flush

  -- `validateTransaction`; the signature is not verified.
  unfoldable pub validate_transaction : PrimaryMode → HeaderMsg → Action Storage (Unit {0})
  unfolding switch_mode
  validate_transaction mode hdr = do
    modify (switch_mode mode)
    account ← load account_kind hdr.user
    Account.set_nonce account hdr.nonce

  -- The overloads of `handle`.
  unfoldable pub handle : HeaderMsg → Msg → Action Storage Response
  handle hdr (create_account vk user) = do
    account ← create account_kind user (Account.init vk)
    pure no_response
  handle hdr (create_token base_token created_token curve) = do
    token ← create token_kind created_token (Token.init base_token curve)
    pure no_response
  handle hdr (mint_token id value) = do
    token ← load token_kind id
    Token.mint token hdr.user value
    pure no_response
  handle hdr (transfer_token id dest value) = do
    token ← load token_kind id
    Token.transfer token hdr.user dest value
    pure no_response
  handle hdr (buy_token id value) = do
    token ← load token_kind id
    spent ← Token.buy token hdr.user value
    base_token ← Token.base token
    pure (traded base_token spent)
  handle hdr (sell_token id value) = do
    token ← load token_kind id
    received ← Token.sell token hdr.user value
    base_token ← Token.base token
    pure (traded base_token received)
  handle hdr (add_wiki_edge s p o l) = pure no_response
  handle hdr (remove_wiki_edge s p o l) = pure no_response

  -- The body of `process`.
  unfoldable pub process_body : HeaderMsg → Msg → Action Storage Response
  unfolding switch_mode handle
  process_body hdr msg = do
    modify (switch_mode apply)
    result ← handle hdr msg
    Storage.flush
    pure result

  -- `process`: on its way out, by return or exception, the scope exit resets the storage.
  unfoldable pub process : HeaderMsg → Msg → Action Storage Response
  unfolding process_body
  process hdr msg s = let p = process_body hdr msg s in (p.0, Storage.reset p.1)
