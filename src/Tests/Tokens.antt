-- ===== src/Tests/Tokens.antt =====
-- Tokens of src/contract/token.cc, at a ledger of two tokens: "b", and "a" whose base is "b" and
-- whose curve is x.
use bandchain_legacy.Common.{
  ℕ, ◌≡◌, ◌≢◌, refl, ◌⊎◌, List, [], ◌∷◌, some, inl, inr, lookup, eq_bytes, arith,
}
use bandchain_legacy.Thrown.{Result, ok, err, error}
use bandchain_legacy.Buffer.{Bytes}
use bandchain_legacy.Equation.{var, apply}
use bandchain_legacy.Store.Backend.{apply_side}
use bandchain_legacy.Store.Data.{Data, changed, read}
use bandchain_legacy.Ledger.Contracts.{Token, token_contract}
use bandchain_legacy.Ledger.Storage.{Storage}
use bandchain_legacy.Ledger.Fields.{balance_cell}
use bandchain_legacy.Ledger.Token.{transfer, mint, buy, sell}
use bandchain_legacy.Ledger.Views.{
  balance, supply, base_of, curve_of, IsLoaded, Changes, set_balance_at, set_supply_at, object_at,
  balance_in, supply_in, base_in, curve_in,
}
use bandchain_legacy.Ledger.Transfer.{transfer_moves, transfer_insufficient}
use bandchain_legacy.Ledger.Trade.{IsTradable, buy_lem, sell_lem}
use bandchain_legacy.Ledger.BuySell.{sell-buy}
use bandchain_legacy.Ledger.Backing.{
  Sums, Member, Distinct, IsBacked, transfer-IsBacked, mint-IsBacked,
}
use bandchain_legacy.Tests.Boost.{boost}

abbrev pub cached : {A : Type 0} → A → Data A
cached v = record { key = []; status = changed; cache = some v }

-- The keys of the tokens, and the users.
abbrev pub key_a : Bytes
key_a = 116 ∷ 47 ∷ 97 ∷ []

abbrev pub key_b : Bytes
key_b = 116 ∷ 47 ∷ 98 ∷ []

abbrev pub alice : Bytes
alice = 117 ∷ []

abbrev pub bob : Bytes
bob = 118 ∷ []

abbrev pub token_a : Token
token_a = record {
  key = key_a;
  curve_data = cached (some var);
  base_ident = cached (98 ∷ []);
  current_supply = cached 10;
  balances = (alice, cached 5) ∷ (bob, cached 5) ∷ [];
}

abbrev pub token_b : Token
token_b = record {
  key = key_b;
  curve_data = cached (some var);
  base_ident = cached (98 ∷ []);
  current_supply = cached 100;
  balances = (alice, cached 60) ∷ (bob, cached 40) ∷ [];
}

abbrev pub ledger : Storage
ledger = record {
  backend = record { check_cache = []; apply_cache = []; current = some apply_side };
  contracts = (key_a, token_contract token_a) ∷ (key_b, token_contract token_b) ∷ [];
}

ready_a : IsLoaded key_a ledger
unfolding lookup eq_bytes
ready_a = (token_a, refl)

ready_b : IsLoaded key_b ledger
unfolding lookup eq_bytes
ready_b = (token_b, refl)

alice_a : balance ⦃u = boost⦄ ledger key_a alice ≡ ok 5
unfolding balance balance_in object_at read balance_cell lookup eq_bytes
alice_a = refl

bob_a : balance ⦃u = boost⦄ ledger key_a bob ≡ ok 5
unfolding balance balance_in object_at read balance_cell lookup eq_bytes
bob_a = refl

alice_b : balance ⦃u = boost⦄ ledger key_b alice ≡ ok 60
unfolding balance balance_in object_at read balance_cell lookup eq_bytes
alice_b = refl

supply_a : supply ⦃u = boost⦄ ledger key_a ≡ ok 10
unfolding supply supply_in object_at read lookup eq_bytes
supply_a = refl

alice≢bob : alice ≢ bob
alice≢bob e = ground arith

transfer_moves_example :
    (s' : Storage) × (transfer ⦃u = boost⦄ key_a alice bob 2 ledger ≡ (ok tt, s'))
    × Changes ⦃u = boost⦄ ledger s'
        (set_balance_at (set_balance_at (balance ⦃u = boost⦄ ledger) key_a alice 3) key_a bob 7)
        (supply ⦃u = boost⦄ ledger)
transfer_moves_example =
    transfer_moves ⦃u = boost⦄ ledger key_a alice bob 2 5 5 ready_a alice≢bob alice_a bob_a
      (omega arith) (omega arith)

transfer_insufficient_example :
    (s' : Storage) × (transfer ⦃u = boost⦄ key_a alice bob 6 ledger ≡ (err error, s'))
    × Changes ⦃u = boost⦄ ledger s' (balance ⦃u = boost⦄ ledger) (supply ⦃u = boost⦄ ledger)
transfer_insufficient_example =
    transfer_insufficient ⦃u = boost⦄ ledger key_a alice bob 6 5 ready_a alice_a (omega arith)

curve_a : curve_of ⦃u = boost⦄ ledger key_a ≡ ok (some var)
unfolding curve_of curve_in object_at read lookup eq_bytes
curve_a = refl

base_a : base_of ⦃u = boost⦄ ledger key_a ≡ ok (98 ∷ [])
unfolding base_of base_in object_at read lookup eq_bytes
base_a = refl

tradable : IsTradable ⦃u = boost⦄ ledger key_a var (98 ∷ []) 10
tradable = record {
  ready = ready_a;
  curve = curve_a;
  base = base_a;
  base_present = inl ready_b;
  total_supply = supply_a;
}

curve_is_x : (x : ℕ) → apply ⦃u = boost⦄ var x ≡ ok x
unfolding apply
curve_is_x x = refl

buy_lem_example :
    (s' : Storage) × (buy ⦃u = boost⦄ key_a alice 3 ledger ≡ (ok 3, s'))
    × Changes ⦃u = boost⦄ ledger s'
        (set_balance_at (set_balance_at (balance ⦃u = boost⦄ ledger) key_b alice 57) key_a alice 8)
        (set_supply_at (supply ⦃u = boost⦄ ledger) key_a 13)
unfolding eq_bytes balance
buy_lem_example =
    buy_lem ⦃u = boost⦄ ledger key_a alice (98 ∷ []) var 10 3 10 13 60 5 tradable (omega arith)
      (curve_is_x 13) (curve_is_x 10) (omega arith) alice_b (omega arith) alice_a (omega arith)

sell_lem_example :
    (s' : Storage) × (sell ⦃u = boost⦄ key_a alice 2 ledger ≡ (ok 2, s'))
    × Changes ⦃u = boost⦄ ledger s'
        (set_balance_at (set_balance_at (balance ⦃u = boost⦄ ledger) key_a alice 3) key_b alice 62)
        (set_supply_at (supply ⦃u = boost⦄ ledger) key_a 8)
unfolding eq_bytes balance
sell_lem_example =
    sell_lem ⦃u = boost⦄ ledger key_a alice (98 ∷ []) var 10 2 8 10 5 60 tradable (omega arith)
      (curve_is_x 10) (curve_is_x 8) (omega arith) alice_a (omega arith) alice_b (omega arith)

b≢a : key_b ≢ key_a
b≢a e = ground arith

sell-buy_example :
    (s' s'' : Storage) × (buy ⦃u = boost⦄ key_a alice 3 ledger ≡ (ok 3, s'))
    × (sell ⦃u = boost⦄ key_a alice 3 s' ≡ (ok 3, s''))
    × Changes ⦃u = boost⦄ ledger s'' (balance ⦃u = boost⦄ ledger) (supply ⦃u = boost⦄ ledger)
sell-buy_example =
    sell-buy ⦃u = boost⦄ ledger key_a alice (98 ∷ []) var 10 3 10 13 60 5 tradable b≢a (omega arith)
      (curve_is_x 13) (curve_is_x 10) (omega arith) alice_b (omega arith) (omega arith) alice_a
      (omega arith)

abbrev holders : List Bytes
holders = alice ∷ bob ∷ []

two_holders : Distinct holders
unfolding Distinct
two_holders = ((alice≢bob, tt), (tt, tt))

ledger-IsBacked : IsBacked ⦃u = boost⦄ ledger key_a holders 10
unfolding Sums
ledger-IsBacked = record {
  total_supply = supply_a;
  sum = (5, 5, alice_a, (5, 0, bob_a, refl, refl), refl);
  small = omega arith;
}

is_alice : Member alice holders
unfolding Member
is_alice = inl refl

is_bob : Member bob holders
unfolding Member
is_bob = inr (inl refl)

transfer-IsBacked_example :
    (r : Result (Unit {0})) × (s' : Storage) × (transfer ⦃u = boost⦄ key_a alice bob 2 ledger
      ≡ (r, s'))
    × ((r ≡ ok tt) ⊎ (r ≡ err error))
    × IsBacked ⦃u = boost⦄ s' key_a holders 10
transfer-IsBacked_example =
    transfer-IsBacked ⦃u = boost⦄ ledger key_a holders two_holders ready_a 10 ledger-IsBacked alice
      bob 2 is_alice is_bob

mint-IsBacked_example :
    (s' : Storage) × (mint ⦃u = boost⦄ key_a bob 3 ledger ≡ (ok tt, s'))
    × IsBacked ⦃u = boost⦄ s' key_a holders 13
mint-IsBacked_example =
    mint-IsBacked ⦃u = boost⦄ ledger key_a holders two_holders ready_a 10 ledger-IsBacked bob 3
      is_bob (omega arith)
