-- ===== src/Ledger/Contracts.antt =====
-- The contracts as objects: the fields that src/contract/account.h and src/contract/token.h
-- declare, and how the type of each field is stored.
use bandchain_legacy.Common.{ℕ, zero, suc, none, [], ◌∷◌, ◌++◌, Assoc, codes}
use bandchain_legacy.Thrown.{ok, ◌>>=◌}
use bandchain_legacy.Uint256.{CheckedUint}
use bandchain_legacy.Buffer.{Bytes, uint256, write_span, read_span}
use bandchain_legacy.Buffer.Values.{write_int, read_int}
use bandchain_legacy.Equation.{Curve, write_curve, read_curve}
use bandchain_legacy.Text.{write_text, read_ident}
use bandchain_legacy.Store.Data
use bandchain_legacy.Store.Data.{Data, Stored}

pub record Account : Type 0 where
  pub key : Bytes
  pub verify_key : Data Bytes
  pub nonce : Data ℕ

-- `balances` holds the entries that `DataMap` has in its cache.
pub record Token : Type 0 where
  pub key : Bytes
  pub curve_data : Data Curve
  pub base_ident : Data Bytes
  pub current_supply : Data ℕ
  pub balances : Assoc (Data ℕ)

pub data Contract : Type 0 where
  account_contract : Account → Contract
  token_contract : Token → Contract

pub data Kind : Type 0 where
  account_kind token_kind : Kind

-- `KeyPrefix` of each contract.
abbrev pub key_prefix : Kind → Bytes
key_prefix account_kind = codes "u/"
key_prefix token_kind = codes "t/"

unfoldable pub new_account : Bytes → Account
new_account key = record {
  key = key;
  verify_key = Data.new (key ++ codes "/verifyKey");
  nonce = Data.new (key ++ codes "/nonce");
}

unfoldable pub new_token : Bytes → Token
new_token key = record {
  key = key;
  curve_data = Data.new (key ++ codes "/curveData");
  base_ident = Data.new (key ++ codes "/baseIdent");
  current_supply = Data.new (key ++ codes "/currentSupply");
  balances = [];
}

unfoldable pub new_contract : Kind → Bytes → Contract
unfolding new_account new_token
new_contract account_kind key = account_contract (new_account key)
new_contract token_kind key = token_contract (new_token key)

-- The key of a balance: `baseKey + keyString` of the `DataMap`.
unfoldable pub balance_key : Bytes → Bytes → Bytes
balance_key key user = (key ++ codes "/balances/") ++ user

abbrev zeros : ℕ → Bytes
zeros zero = []
zeros (suc n) = 0 ∷ zeros n

module _ ⦃u : CheckedUint⦄ where
  unfoldable pub uint256_stored : Stored ℕ
  uint256_stored = record {
    to_raw = λ v. ok (write_int [] v);
    from_raw = λ raw. do
      (v, rest) ← read_int uint256 raw
      ok v;
    initial = 0;
  }

  unfoldable pub ident_stored : Stored Bytes
  ident_stored = record {
    to_raw = λ v. ok (write_text [] v);
    from_raw = λ raw. do
      (v, rest) ← read_ident raw
      ok v;
    initial = [];
  }

  -- `VerifyKey` is an array of 32 bytes.
  unfoldable pub verify_key_stored : Stored Bytes
  verify_key_stored = record {
    to_raw = λ v. ok (write_span [] v);
    from_raw = λ raw. do
      (v, rest) ← read_span 32 raw
      ok v;
    initial = zeros 32;
  }

  unfoldable pub curve_stored : Stored Curve
  curve_stored = record {
    to_raw = λ v. write_curve [] v;
    from_raw = λ raw. do
      (v, rest) ← read_curve raw
      ok v;
    initial = none;
  }
