-- ===== src/Ledger/Token.antt =====
-- src/contract/token.cc: balances, the supply, and buying and selling along a bonding curve.
use bandchain_legacy.Common.{ℕ, ltb, if◌then◌else◌}
use bandchain_legacy.Thrown.{error}
use bandchain_legacy.Uint256.{CheckedUint}
use bandchain_legacy.Buffer.{Bytes}
use bandchain_legacy.Equation.{Eq, apply}
use bandchain_legacy.Ledger.Action.{Action, ◌>>=◌, ◌>>◌, pure, lift, throw}
use bandchain_legacy.Ledger.Contracts.{token_kind}
use bandchain_legacy.Ledger.Storage.{Storage, load}
use bandchain_legacy.Ledger.Fields.{
  with_token, read_balance, assign_balance, read_supply, assign_supply, read_base, assign_base,
  read_curve_data, assign_curve,
}

module _ ⦃u : CheckedUint⦄ where
  -- `Token::init`; the curve is copied by assignment.
  unfoldable pub init : Bytes → Eq → Bytes → Action Storage (Unit {0})
  init base_ident curve key = do
    base ← load token_kind base_ident
    with_token key (assign_curve curve)
    with_token key (assign_base base_ident)
    with_token key (assign_supply 0)

  -- `Token::base`
  unfoldable pub base : Bytes → Action Storage Bytes
  base key = with_token key read_base

  -- `balances[user] = +balances[user] + value`
  unfoldable pub credit : Bytes → Bytes → ℕ → Action Storage (Unit {0})
  credit key user value = do
    old ← with_token key (read_balance user)
    new ← lift (u.add old value)
    with_token key (assign_balance user new)

  -- `balances[user] = +balances[user] - value`
  unfoldable pub debit : Bytes → Bytes → ℕ → Action Storage (Unit {0})
  debit key user value = do
    old ← with_token key (read_balance user)
    new ← lift (u.sub old value)
    with_token key (assign_balance user new)

  -- The test that `transfer`, `buy` and `sell` make first.
  unfoldable pub require_balance : Bytes → Bytes → ℕ → Action Storage (Unit {0})
  require_balance key user value = do
    held ← with_token key (read_balance user)
    if ltb held value then throw error else pure tt

  -- `currentSupply = +currentSupply + value`
  unfoldable pub raise_supply : Bytes → ℕ → Action Storage (Unit {0})
  raise_supply key value = do
    old ← with_token key read_supply
    new ← lift (u.add old value)
    with_token key (assign_supply new)

  unfoldable pub lower_supply : Bytes → ℕ → Action Storage (Unit {0})
  lower_supply key value = do
    old ← with_token key read_supply
    new ← lift (u.sub old value)
    with_token key (assign_supply new)

  -- `Token::mint`
  unfoldable pub mint : Bytes → Bytes → ℕ → Action Storage (Unit {0})
  unfolding credit raise_supply
  mint key receiver value = do credit key receiver value; raise_supply key value

  -- `Token::transfer`
  unfoldable pub transfer : Bytes → Bytes → Bytes → ℕ → Action Storage (Unit {0})
  unfolding require_balance debit credit
  transfer key src dst value = do
    require_balance key src value
    debit key src value
    credit key dst value

  -- The lines that `buy` and `sell` begin with: the curve, and the base token, which is loaded.
  unfoldable pub curve_and_base : Bytes → Action Storage (Eq × Bytes)
  curve_and_base key = do
    curve ← with_token key read_curve_data
    base_ident ← with_token key read_base
    base_token ← load token_kind base_ident
    pure (curve, base_token)

  -- `curve.apply(+currentSupply + value) - curve.apply(+currentSupply)`
  unfoldable pub buy_price : Bytes → Eq → ℕ → Action Storage ℕ
  buy_price key curve value = do
    supply ← with_token key read_supply
    supply' ← lift (u.add supply value)
    high ← lift (apply curve supply')
    supply'' ← with_token key read_supply
    low ← lift (apply curve supply'')
    lift (u.sub high low)

  -- `curve.apply(+currentSupply) - curve.apply(+currentSupply - value)`
  unfoldable pub sell_price : Bytes → Eq → ℕ → Action Storage ℕ
  sell_price key curve value = do
    supply ← with_token key read_supply
    high ← lift (apply curve supply)
    supply'' ← with_token key read_supply
    supply' ← lift (u.sub supply'' value)
    low ← lift (apply curve supply')
    lift (u.sub high low)

  -- `Token::buy`
  unfoldable pub buy : Bytes → Bytes → ℕ → Action Storage ℕ
  unfolding curve_and_base buy_price require_balance debit credit raise_supply
  buy key buyer value = do
    opened ← curve_and_base key
    buy_tokens ← buy_price key opened.0 value
    require_balance opened.1 buyer buy_tokens
    debit opened.1 buyer buy_tokens
    credit key buyer value
    raise_supply key value
    pure buy_tokens

  -- `Token::sell`
  unfoldable pub sell : Bytes → Bytes → ℕ → Action Storage ℕ
  unfolding curve_and_base sell_price require_balance debit credit lower_supply
  sell key seller value = do
    opened ← curve_and_base key
    require_balance key seller value
    sell_tokens ← sell_price key opened.0 value
    debit key seller value
    credit opened.1 seller sell_tokens
    lower_supply key value
    pure sell_tokens
