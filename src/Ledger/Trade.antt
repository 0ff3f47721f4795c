-- ===== src/Ledger/Trade.antt =====
-- `Token::buy` and `Token::sell` of src/contract/token.cc.
use bandchain_legacy.Common.{ℕ, ◌+◌, ◌-◌, ◌≤◌, ◌<◌, ◌≡◌, refl, ap, ◌∙◌, ◌++◌, some}
use bandchain_legacy.Thrown.{Result, ok, err, error}
use bandchain_legacy.Uint256.{CheckedUint, u256_mod, add_ok, sub_ok}
use bandchain_legacy.Buffer.{Bytes}
use bandchain_legacy.Equation.{Eq, apply}
use bandchain_legacy.Ledger.Contracts.{token_kind, key_prefix}
use bandchain_legacy.Ledger.Storage.{Storage}
use bandchain_legacy.Ledger.Token.{curve_and_base, buy_price, sell_price, buy, sell}
use bandchain_legacy.Ledger.Views.{
  balance, supply, base_of, curve_of, IsLoaded, IsPresent, Changes, set_balance_at, set_supply_at,
  access_supply, access_base, access_curve, load_present,
}
use bandchain_legacy.Ledger.Steps.{
  Changes-then, balance_after, supply_after, credit_lem, debit_lem, require_balance_lem,
  require_balance_fails, raise_supply_lem, lower_supply_lem,
}

abbrev pub token_key : Bytes → Bytes
token_key id = key_prefix token_kind ++ id

module _ ⦃u : CheckedUint⦄ where
  -- A token that is ready for trade: loaded, with a curve, and a base that can be loaded.
  pub record IsTradable (s : Storage) (key : Bytes) (e : Eq) (base_id : Bytes) (total : ℕ)
      : Type 0 where
    pub ready : IsLoaded key s
    pub curve : curve_of s key ≡ ok (some e)
    pub base : base_of s key ≡ ok base_id
    pub base_present : IsPresent (token_key base_id) s
    pub total_supply : supply s key ≡ ok total

  open_lem :
      (s : Storage) (key base_id : Bytes) (e : Eq) (total : ℕ)
      → IsTradable s key e base_id total
      → (s' : Storage) × (curve_and_base key s ≡ (ok (e, token_key base_id), s'))
        × Changes s s' (balance s) (supply s)
        × IsLoaded (token_key base_id) s'
  unfolding curve_and_base
  open_lem s key base_id e total t =
      let (s1, e1, c1) = access_curve s key e t.ready t.curve in
      let (s2, e2, c2) =
        access_base s1 key base_id (c1.loaded key t.ready)
          (ap (λ (b : Bytes → Result Bytes). b key) c1.bases ∙ t.base) in
      let c12 = Changes-then (λ f. f) (λ g. g) c1 c2 in
      let (s3, e3, c3, ready) =
        load_present s2 base_id (c12.present (token_key base_id) t.base_present) in
      (s3, rw (e1, e2, e3) refl, Changes-then (λ f. f) (λ g. g) c12 c3, ready)

  module _ (s : Storage) (key : Bytes) (e : Eq) (total value : ℕ) (ready : IsLoaded key s) where
    buy_price_lem :
        (high low : ℕ)
        → supply s key ≡ ok total
        → total + value < u256_mod
        → apply e (total + value) ≡ ok high
        → apply e total ≡ ok low
        → low ≤ high
        → (s' : Storage) × (buy_price key e value s ≡ (ok (high - low), s'))
          × Changes s s' (balance s) (supply s)
    unfolding buy_price
    buy_price_lem high low h fits hhigh hlow le =
        let (s1, e1, c1) = access_supply s key total ready h in
        let (s2, e2, c2) =
          access_supply s1 key total (c1.loaded key ready) (supply_after key c1 h) in
        (
          s2,
          rw (e1, add_ok total value fits, hhigh, e2, hlow, sub_ok high low le) refl,
          Changes-then (λ f. f) (λ g. g) c1 c2,
        )

    sell_price_lem :
        (high low : ℕ)
        → supply s key ≡ ok total
        → value ≤ total
        → apply e total ≡ ok high
        → apply e (total - value) ≡ ok low
        → low ≤ high
        → (s' : Storage) × (sell_price key e value s ≡ (ok (high - low), s'))
          × Changes s s' (balance s) (supply s)
    unfolding sell_price
    sell_price_lem high low h fits hhigh hlow le =
        let (s1, e1, c1) = access_supply s key total ready h in
        let (s2, e2, c2) =
          access_supply s1 key total (c1.loaded key ready) (supply_after key c1 h) in
        (
          s2,
          rw (e1, hhigh, e2, sub_ok total value fits, hlow, sub_ok high low le) refl,
          Changes-then (λ f. f) (λ g. g) c1 c2,
        )

  -- On a tradable token, where the curve gives high at total + value and low at total with low at
  -- most high, the buyer holds at least high - low base tokens, and the new balance and the new
  -- supply are below 2 ^ 256: buying succeeds and returns high - low, the buyer has high - low
  -- base tokens less and the value more, the supply has risen by the value, and nothing else that
  -- is read has changed. The base may be the token itself.
  pub buy_lem :
      (s : Storage) (key buyer base_id : Bytes) (e : Eq) (total value low high held own : ℕ)
      → IsTradable s key e base_id total
      → total + value < u256_mod
      → apply e (total + value) ≡ ok high
      → apply e total ≡ ok low
      → low ≤ high
      → balance s (token_key base_id) buyer ≡ ok held
      → high - low ≤ held
      → set_balance_at (balance s) (token_key base_id) buyer (held - (high - low)) key buyer
        ≡ ok own
      → own + value < u256_mod
      → (s' : Storage) × (buy key buyer value s ≡ (ok (high - low), s'))
        × Changes s s'
            (set_balance_at
              (set_balance_at (balance s) (token_key base_id) buyer (held - (high - low)))
              key
              buyer
              (own + value))
            (set_supply_at (supply s) key (total + value))
  unfolding buy
  buy_lem s key buyer base_id e total value low high held own t fits hhigh hlow le hheld enough hown
        fits' =
      let bkey = token_key base_id in
      let price = high - low in
      let (s1, e1, c1, bready) = open_lem s key base_id e total t in
      let (s2, e2, c2) =
        buy_price_lem s1 key e total value (c1.loaded key t.ready) high low
          (supply_after key c1 t.total_supply) fits hhigh hlow le in
      let c12 = Changes-then (λ f. f) (λ g. g) c1 c2 in
      let (s3, e3, c3) =
        require_balance_lem s2 bkey buyer held price (c2.loaded bkey bready)
          (balance_after bkey buyer c12 hheld) enough in
      let c13 = Changes-then (λ f. f) (λ g. g) c12 c3 in
      let (s4, e4, c4) =
        debit_lem s3 bkey buyer held price (c3.loaded bkey (c2.loaded bkey bready))
          (balance_after bkey buyer c13 hheld) enough in
      let c14 = Changes-then (λ f. set_balance_at f bkey buyer (held - price)) (λ g. g) c13 c4 in
      let (s5, e5, c5) =
        credit_lem s4 key buyer own value (c14.loaded key t.ready)
          (balance_after key buyer c14 hown) fits' in
      let c15 = Changes-then (λ f. set_balance_at f key buyer (own + value)) (λ g. g) c14 c5 in
      let (s6, e6, c6) =
        raise_supply_lem s5 key total value (c15.loaded key t.ready)
          (supply_after key c15 t.total_supply) fits in
      (
        s6,
        rw (e1, e2, e3, e4, e5, e6) refl,
        Changes-then (λ f. f) (λ g. set_supply_at g key (total + value)) c15 c6,
      )

  -- On a tradable token, where the curve gives high at total + value and low at total with low at
  -- most high, and total + value is below 2 ^ 256, a buyer who holds less than high - low base
  -- tokens gets an Error, and nothing that is read has changed.
  pub buy_insufficient :
      (s : Storage) (key buyer base_id : Bytes) (e : Eq) (total value low high held : ℕ)
      → IsTradable s key e base_id total
      → total + value < u256_mod
      → apply e (total + value) ≡ ok high
      → apply e total ≡ ok low
      → low ≤ high
      → balance s (token_key base_id) buyer ≡ ok held
      → held < high - low
      → (s' : Storage) × (buy key buyer value s ≡ (err error, s'))
        × Changes s s' (balance s) (supply s)
  unfolding buy
  buy_insufficient s key buyer base_id e total value low high held t fits hhigh hlow le hheld less =
      let bkey = token_key base_id in
      let (s1, e1, c1, bready) = open_lem s key base_id e total t in
      let (s2, e2, c2) =
        buy_price_lem s1 key e total value (c1.loaded key t.ready) high low
          (supply_after key c1 t.total_supply) fits hhigh hlow le in
      let c12 = Changes-then (λ f. f) (λ g. g) c1 c2 in
      let (s3, e3, c3) =
        require_balance_fails s2 bkey buyer held (high - low) (c2.loaded bkey bready)
          (balance_after bkey buyer c12 hheld) less in
      (s3, rw (e1, e2, e3) refl, Changes-then (λ f. f) (λ g. g) c12 c3)

  -- On a tradable token, where the curve gives high at total and low at total - value with low at
  -- most high, the seller holds the value, the supply is at least the value, and the new base
  -- balance is below 2 ^ 256: selling succeeds and returns high - low, the seller has the value
  -- less and high - low base tokens more, the supply has fallen by the value, and nothing else
  -- that is read has changed.
  pub sell_lem :
      (s : Storage) (key seller base_id : Bytes) (e : Eq) (total value low high held own : ℕ)
      → IsTradable s key e base_id total
      → value ≤ total
      → apply e total ≡ ok high
      → apply e (total - value) ≡ ok low
      → low ≤ high
      → balance s key seller ≡ ok held
      → value ≤ held
      → set_balance_at (balance s) key seller (held - value) (token_key base_id) seller ≡ ok own
      → own + (high - low) < u256_mod
      → (s' : Storage) × (sell key seller value s ≡ (ok (high - low), s'))
        × Changes s s'
            (set_balance_at
              (set_balance_at (balance s) key seller (held - value))
              (token_key base_id)
              seller
              (own + (high - low)))
            (set_supply_at (supply s) key (total - value))
  unfolding sell
  sell_lem s key seller base_id e total value low high held own t fits hhigh hlow le hheld enough
        hown fits' =
      let bkey = token_key base_id in
      let price = high - low in
      let (s1, e1, c1, bready) = open_lem s key base_id e total t in
      let (s2, e2, c2) =
        require_balance_lem s1 key seller held value (c1.loaded key t.ready)
          (balance_after key seller c1 hheld) enough in
      let c12 = Changes-then (λ f. f) (λ g. g) c1 c2 in
      let (s3, e3, c3) =
        sell_price_lem s2 key e total value (c12.loaded key t.ready) high low
          (supply_after key c12 t.total_supply) fits hhigh hlow le in
      let c13 = Changes-then (λ f. f) (λ g. g) c12 c3 in
      let (s4, e4, c4) =
        debit_lem s3 key seller held value (c13.loaded key t.ready)
          (balance_after key seller c13 hheld) enough in
      let c14 = Changes-then (λ f. set_balance_at f key seller (held - value)) (λ g. g) c13 c4 in
      let (s5, e5, c5) =
        credit_lem s4 bkey seller own price
          (c4.loaded bkey (c3.loaded bkey (c2.loaded bkey bready)))
          (balance_after bkey seller c14 hown) fits' in
      let c15 = Changes-then (λ f. set_balance_at f bkey seller (own + price)) (λ g. g) c14 c5 in
      let (s6, e6, c6) =
        lower_supply_lem s5 key total value (c15.loaded key t.ready)
          (supply_after key c15 t.total_supply) fits in
      (
        s6,
        rw (e1, e2, e3, e4, e5, e6) refl,
        Changes-then (λ f. f) (λ g. set_supply_at g key (total - value)) c15 c6,
      )
