-- ===== src/Ledger/Storage.antt =====
-- src/store/storage.h and src/store/storage.cc: the contracts that are loaded, over the key-value
-- storage. A reference to a contract is the key under which it is loaded.
use bandchain_legacy.Common.{
  ℕ, Bool, true, false, Option, none, some, [], ◌∷◌, ◌++◌, Assoc, lookup, insert, eq_bytes,
  if◌then◌else◌,
}
use bandchain_legacy.Thrown
use bandchain_legacy.Thrown.{Thrown, Result, ok, err, error, undefined, terminated}
use bandchain_legacy.Uint256.{CheckedUint}
use bandchain_legacy.Buffer.{Bytes}
use bandchain_legacy.Store.Backend
use bandchain_legacy.Store.Backend.{StorageMap}
use bandchain_legacy.Store.Data
use bandchain_legacy.Store.Data.{Data}
use bandchain_legacy.Ledger.Action.{Action, ◌>>=◌, ◌>>◌, pure, throw, modify}
use bandchain_legacy.Ledger.Contracts.{
  Contract, account_contract, token_contract, Kind, account_kind, token_kind, key_prefix,
  new_contract, uint256_stored, ident_stored, verify_key_stored, curve_stored,
}

pub record Storage : Type 0 where
  pub backend : StorageMap
  pub contracts : Assoc Contract

-- `Contract::as` of the kind that is wanted.
unfoldable pub as_kind : Kind → Contract → Result Bool
as_kind account_kind (account_contract a) = ok true
as_kind account_kind (token_contract t) = err error
as_kind token_kind (account_contract a) = err error
as_kind token_kind (token_contract t) = ok true

unfoldable pub add_contract : Bytes → Contract → Storage → Storage
add_contract key c s = record s { contracts = insert key c s.contracts }

-- What `get(prefixedKey)` found, where the contract is not loaded.
unfoldable pub from_store : Kind → Bytes → Result (Option Bytes) → Action Storage Bool
unfolding add_contract
from_store kind key (err e) s = (err e, s)
from_store kind key (ok none) s = (ok false, s)
from_store kind key (ok (some value)) s =
    if eq_bytes value key
    then (ok true, add_contract key (new_contract kind key) s)
    else (err error, s)

unfoldable pub from_cache : Kind → Bytes → Option Contract → Action Storage Bool
unfolding from_store
from_cache kind key (some c) s = (as_kind kind c, s)
from_cache kind key none s = from_store kind key (Backend.get key s.backend) s

-- `getContract`: whether the pointer is not null.
unfoldable pub get_contract : Kind → Bytes → Action Storage Bool
unfolding from_cache
get_contract kind key s = from_cache kind key (lookup key s.contracts) s

-- `load`, which returns the key that the contract is loaded under.
unfoldable pub load : Kind → Bytes → Action Storage Bytes
unfolding get_contract
load kind id = do
  let key = key_prefix kind ++ id
  present ← get_contract kind key
  if present then pure key else throw error

unfoldable pub store_put : Bytes → Bytes → Action Storage (Unit {0})
store_put key val s = elim (Backend.put key val s.backend) [
  | err e ↦ (err e, s)
  | ok m ↦ (ok tt, record s { backend = m })
]

-- The part of `create` behind its test.
unfoldable pub create_new :
    Kind → Bytes → (Bytes → Action Storage (Unit {0})) → Action Storage Bytes
unfolding store_put add_contract
create_new kind key init = do
  modify (add_contract key (new_contract kind key))
  store_put key key
  init key
  pure key

-- `create`; `init` is the contract's own, on its key.
unfoldable pub create : Kind → Bytes → (Bytes → Action Storage (Unit {0})) → Action Storage Bytes
unfolding get_contract create_new
create kind id init = do
  let key = key_prefix kind ++ id
  present ← get_contract kind key
  if present then throw error else create_new kind key init

-- `reset`: the destructors of the contracts write nothing.
unfoldable pub reset : Storage → Storage
reset s = record s { contracts = [] }

module _ ⦃u : CheckedUint⦄ where
  unfoldable pub flush_balances : Assoc (Data ℕ) → StorageMap → Result StorageMap
  flush_balances [] m = ok m
  flush_balances ((user, d) ∷ rest) m =
      Thrown.◌>>=◌ (Data.flush uint256_stored d m) (flush_balances rest)

  -- The destructors of a contract's fields, from the last that is declared to the first.
  unfoldable pub flush_contract : Contract → StorageMap → Result StorageMap
  unfolding flush_balances
  flush_contract (account_contract a) m =
      Thrown.◌>>=◌ (Data.flush uint256_stored a.nonce m) (Data.flush verify_key_stored a.verify_key)
  flush_contract (token_contract t) m = Thrown.◌>>=◌ (flush_balances t.balances m) λ m'.
      Thrown.◌>>=◌ (Data.flush uint256_stored t.current_supply m') λ m''.
        Thrown.◌>>=◌ (Data.flush ident_stored t.base_ident m'')
          (Data.flush curve_stored t.curve_data)

  unfoldable pub flush_contracts : Assoc Contract → StorageMap → Result StorageMap
  flush_contracts [] m = ok m
  flush_contracts ((key, c) ∷ rest) m = Thrown.◌>>=◌ (flush_contract c m) (flush_contracts rest)

  -- `flush`: `cache.clear()` while the flag is set, then `commit`. A destructor that throws ends
  -- the program.
  unfoldable pub flush : Action Storage (Unit {0})
  unfolding flush_contracts
  flush s = elim (flush_contracts s.contracts s.backend) [
    | err e ↦ (err terminated, s)
    | ok m ↦ (ok tt, record { backend = Backend.commit m; contracts = [] })
  ]
