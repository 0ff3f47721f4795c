-- ===== src/Ledger/Fields.antt =====
-- The fields of a contract as its methods read and assign them: `+field` and `field = value`.
use bandchain_legacy.Common.{ℕ, Option, none, some, lookup, insert}
use bandchain_legacy.Thrown
use bandchain_legacy.Thrown.{Result, ok, err, undefined}
use bandchain_legacy.Uint256.{CheckedUint}
use bandchain_legacy.Buffer.{Bytes}
use bandchain_legacy.Equation.{Eq, Curve, clone}
use bandchain_legacy.Store.Backend.{StorageMap}
use bandchain_legacy.Store.Data
use bandchain_legacy.Store.Data.{Data, Stored}
use bandchain_legacy.Ledger.Action.{Action}
use bandchain_legacy.Ledger.Contracts.{
  Account, Token, Contract, account_contract, token_contract, balance_key, uint256_stored,
  ident_stored, curve_stored,
}
use bandchain_legacy.Ledger.Storage.{Storage}

-- A method's access to its own object, which may read the key-value storage.
abbrev pub TokenAccess : Type 0 → Type 0
TokenAccess A = Token → StorageMap → Result (A × Token)

abbrev pub AccountAccess : Type 0 → Type 0
AccountAccess A = Account → StorageMap → Result (A × Account)

abbrev pub put_contract : Bytes → Contract → Storage → Storage
put_contract key c s = record s { contracts = insert key c s.contracts }

abbrev pub store_token : {A : Type 0} → Bytes → Storage → Result (A × Token) → Result A × Storage
store_token key s (ok (a, t)) = (ok a, put_contract key (token_contract t) s)
store_token key s (err e) = (err e, s)

abbrev pub store_account :
    {A : Type 0} → Bytes → Storage → Result (A × Account) → Result A × Storage
store_account key s (ok (a, c)) = (ok a, put_contract key (account_contract c) s)
store_account key s (err e) = (err e, s)

-- A reference to a contract that is no longer loaded dangles.
abbrev pub token_access :
    {A : Type 0} → Bytes → TokenAccess A → Storage → Option Contract → Result A × Storage
token_access key f s (some (token_contract t)) = store_token key s (f t s.backend)
token_access key f s (some (account_contract a)) = (err undefined, s)
token_access key f s none = (err undefined, s)

abbrev pub account_access :
    {A : Type 0} → Bytes → AccountAccess A → Storage → Option Contract → Result A × Storage
account_access key f s (some (account_contract a)) = store_account key s (f a s.backend)
account_access key f s (some (token_contract t)) = (err undefined, s)
account_access key f s none = (err undefined, s)

unfoldable pub with_token : {A : Type 0} → Bytes → TokenAccess A → Action Storage A
with_token key f s = token_access key f s (lookup key s.contracts)

unfoldable pub with_account : {A : Type 0} → Bytes → AccountAccess A → Action Storage A
with_account key f s = account_access key f s (lookup key s.contracts)

-- `balances[user]`: the entry of the cache, or a new one at the user's key.
unfoldable pub balance_cell : Bytes → Token → Data ℕ
balance_cell user t = elim (lookup user t.balances) [
  | some d ↦ d
  | none ↦ Data.new (balance_key t.key user)
]

unfoldable pub put_balance : Bytes → Token → Data ℕ → Token
put_balance user t d = record t { balances = insert user d t.balances }

-- A Curve is copied when it is read, by `clone`; the copy of an empty one dereferences null.
unfoldable pub copy_curve : Curve → Result Eq
copy_curve none = err undefined
copy_curve (some e) = ok (clone e)

module _ ⦃u : CheckedUint⦄ where
  unfoldable pub read_balance : Bytes → TokenAccess ℕ
  unfolding balance_cell put_balance
  read_balance user t m =
      Thrown.◌>>=◌ (Data.read uint256_stored (balance_cell user t) m)
        λ p. ok (p.0, put_balance user t p.1)

  unfoldable pub assign_balance : Bytes → ℕ → TokenAccess (Unit {0})
  unfolding balance_cell put_balance
  assign_balance user v t m = ok (tt, put_balance user t (Data.assign v (balance_cell user t)))

  unfoldable pub read_supply : TokenAccess ℕ
  read_supply t m =
      Thrown.◌>>=◌ (Data.read uint256_stored t.current_supply m)
        λ p. ok (p.0, record t { current_supply = p.1 })

  unfoldable pub assign_supply : ℕ → TokenAccess (Unit {0})
  assign_supply v t m = ok (tt, record t { current_supply = Data.assign v t.current_supply })

  unfoldable pub read_base : TokenAccess Bytes
  read_base t m =
      Thrown.◌>>=◌ (Data.read ident_stored t.base_ident m)
        λ p. ok (p.0, record t { base_ident = p.1 })

  unfoldable pub assign_base : Bytes → TokenAccess (Unit {0})
  assign_base v t m = ok (tt, record t { base_ident = Data.assign v t.base_ident })

  unfoldable pub read_curve_data : TokenAccess Eq
  unfolding copy_curve
  read_curve_data t m =
      Thrown.◌>>=◌ (Data.read curve_stored t.curve_data m)
        λ p. Thrown.◌>>=◌ (copy_curve p.0) λ e. ok (e, record t { curve_data = p.1 })

  unfoldable pub assign_curve : Eq → TokenAccess (Unit {0})
  assign_curve e t m = ok (tt, record t { curve_data = Data.assign (some (clone e)) t.curve_data })

  unfoldable pub read_nonce : AccountAccess ℕ
  read_nonce a m =
      Thrown.◌>>=◌ (Data.read uint256_stored a.nonce m) λ p. ok (p.0, record a { nonce = p.1 })

  unfoldable pub assign_nonce : ℕ → AccountAccess (Unit {0})
  assign_nonce v a m = ok (tt, record a { nonce = Data.assign v a.nonce })

  unfoldable pub assign_verify_key : Bytes → AccountAccess (Unit {0})
  assign_verify_key v a m = ok (tt, record a { verify_key = Data.assign v a.verify_key })
