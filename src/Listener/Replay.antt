-- ===== src/Listener/Replay.antt =====
-- `PrimaryListener::validateTransaction` against a transaction that is sent again.
use bandchain_legacy.Common.{ℕ, ◌≡◌, ◌≤◌, ◌<◌, refl, ◌++◌, some, lookup}
use bandchain_legacy.Thrown.{ok, err, error}
use bandchain_legacy.Uint256.{CheckedUint}
use bandchain_legacy.Buffer.{Bytes}
use bandchain_legacy.Ledger.Contracts.{Account, account_contract, account_kind, key_prefix}
use bandchain_legacy.Ledger.Storage.{Storage, load, get_contract, from_cache, as_kind}
use bandchain_legacy.Ledger.Account.{set_nonce}
use bandchain_legacy.Ledger.Nonce.{
  nonce_of, set_nonce_accepted, set_nonce_refused, set_nonce_cached, nonce_of-loaded,
}
use bandchain_legacy.Messages.{HeaderMsg}
use bandchain_legacy.Listener.Primary.{PrimaryMode, check, apply, switch_mode, validate_transaction}

abbrev pub account_key : Bytes → Bytes
account_key id = key_prefix account_kind ++ id

load_loaded :
    (s : Storage) (id : Bytes) (a : Account)
    → lookup (account_key id) s.contracts ≡ some (account_contract a)
    → load account_kind id s ≡ (ok (account_key id), s)
unfolding load get_contract from_cache as_kind
load_loaded s id a h = rw h refl

module _ ⦃u : CheckedUint⦄ where
  validate_is_set_nonce :
      (mode : PrimaryMode) (hdr : HeaderMsg) (s : Storage) (v : ℕ)
      → nonce_of (switch_mode mode s) (account_key hdr.user) ≡ ok v
      → validate_transaction mode hdr s
        ≡ set_nonce (account_key hdr.user) hdr.nonce (switch_mode mode s)
  unfolding validate_transaction
  validate_is_set_nonce mode hdr s v h =
      let (a, e) = nonce_of-loaded (switch_mode mode s) (account_key hdr.user) v h in
      rw (load_loaded (switch_mode mode s) hdr.user a e) refl

  switched :
      (mode : PrimaryMode) (s : Storage) → (b : _) × (switch_mode mode s ≡ record s { backend = b })
  unfolding switch_mode
  switched check s = (_, refl)
  switched apply s = (_, refl)

  -- For an account that is loaded, with a nonce smaller than the transaction's, the transaction
  -- is valid; validating right after it a transaction of the same account with the same or a
  -- smaller nonce is an Error, whichever of the two modes each has.
  pub validate_transaction_once :
      (mode mode' : PrimaryMode) (hdr hdr' : HeaderMsg) (s : Storage) (old : ℕ)
      → nonce_of (switch_mode mode s) (account_key hdr.user) ≡ ok old
      → old < hdr.nonce
      → hdr'.user ≡ hdr.user
      → hdr'.nonce ≤ hdr.nonce
      → ((validate_transaction mode hdr s).0 ≡ ok tt)
        × ((validate_transaction mode' hdr' (validate_transaction mode hdr s).1).0 ≡ err error)
  validate_transaction_once mode mode' hdr hdr' s old h less same le =
      let key = account_key hdr.user in
      let first = validate_is_set_nonce mode hdr s old h in
      let s1 = (set_nonce key hdr.nonce (switch_mode mode s)).1 in
      let (b, e) = switched mode' s1 in
      let h1 : nonce_of (switch_mode mode' s1) (account_key hdr'.user) ≡ ok hdr.nonce =
        rw (e, same) (set_nonce_cached (switch_mode mode s) key old hdr.nonce b h less) in
      let second = validate_is_set_nonce mode' hdr' s1 hdr.nonce h1 in
      (
        rw first (set_nonce_accepted (switch_mode mode s) key old hdr.nonce h less).0,
        rw (first, second)
            (set_nonce_refused (switch_mode mode' s1) (account_key hdr'.user) hdr.nonce hdr'.nonce
              h1 le).0,
      )
