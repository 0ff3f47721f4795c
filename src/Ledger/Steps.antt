-- ===== src/Ledger/Steps.antt =====
-- The steps that the methods of src/contract/token.cc are made of, on the ledger.
use bandchain_legacy.Common.{ℕ, ◌+◌, ◌-◌, ◌≤◌, ◌<◌, ◌≡◌, refl, ap, ◌∙◌, le→ltb, lt→ltb}
use bandchain_legacy.Thrown.{Result, ok, err, error}
use bandchain_legacy.Uint256.{CheckedUint, u256_mod, add_ok, sub_ok}
use bandchain_legacy.Buffer.{Bytes}
use bandchain_legacy.Ledger.Storage.{Storage}
use bandchain_legacy.Ledger.Token.{credit, debit, require_balance, raise_supply, lower_supply}
use bandchain_legacy.Ledger.Views.{
  balance, supply, IsLoaded, Changes, set_balance_at, set_supply_at, access_balance, access_supply,
  access_assign_balance, access_assign_supply,
}

abbrev pub Balances : Type 0
Balances = Bytes → Bytes → Result ℕ

abbrev pub Supplies : Type 0
Supplies = Bytes → Result ℕ

module _ ⦃u : CheckedUint⦄ where
  -- One change after another.
  pub Changes-then :
      {s s' s'' : Storage} {f : Balances} {g : Supplies} (F : Balances → Balances)
      (G : Supplies → Supplies)
      → Changes s s' f g
      → Changes s' s'' (F (balance s')) (G (supply s'))
      → Changes s s'' (F f) (G g)
  Changes-then F G c d = record {
    balances = d.balances ∙ ap F c.balances;
    supplies = d.supplies ∙ ap G c.supplies;
    bases = d.bases ∙ c.bases;
    curves = d.curves ∙ c.curves;
    backend = d.backend ∙ c.backend;
    loaded = λ key l. d.loaded key (c.loaded key l);
    present = λ key p. d.present key (c.present key p);
  }

  pub balance_after :
      {s s' : Storage} {f : Balances} {g : Supplies} (key user : Bytes) {r : Result ℕ}
      → Changes s s' f g
      → f key user ≡ r
      → balance s' key user ≡ r
  balance_after key user c h = ap (λ (b : Balances). b key user) c.balances ∙ h

  pub supply_after :
      {s s' : Storage} {f : Balances} {g : Supplies} (key : Bytes) {r : Result ℕ}
      → Changes s s' f g
      → g key ≡ r
      → supply s' key ≡ r
  supply_after key c h = ap (λ (b : Supplies). b key) c.supplies ∙ h

  module _ (s : Storage) (key user : Bytes) (held value : ℕ) (ready : IsLoaded key s) where
    pub credit_lem :
        balance s key user ≡ ok held
        → held + value < u256_mod
        → (s' : Storage) × (credit key user value s ≡ (ok tt, s'))
          × Changes s s' (set_balance_at (balance s) key user (held + value)) (supply s)
    unfolding credit
    credit_lem h fits =
        let (s1, e1, c1) = access_balance s key user held ready h in
        let (s2, e2, c2) = access_assign_balance s1 key user (held + value) (c1.loaded key ready) in
        (
          s2,
          rw (e1, add_ok held value fits) e2,
          Changes-then (λ b. set_balance_at b key user (held + value)) (λ g. g) c1 c2,
        )

    pub debit_lem :
        balance s key user ≡ ok held
        → value ≤ held
        → (s' : Storage) × (debit key user value s ≡ (ok tt, s'))
          × Changes s s' (set_balance_at (balance s) key user (held - value)) (supply s)
    unfolding debit
    debit_lem h fits =
        let (s1, e1, c1) = access_balance s key user held ready h in
        let (s2, e2, c2) = access_assign_balance s1 key user (held - value) (c1.loaded key ready) in
        (
          s2,
          rw (e1, sub_ok held value fits) e2,
          Changes-then (λ b. set_balance_at b key user (held - value)) (λ g. g) c1 c2,
        )

    pub require_balance_lem :
        balance s key user ≡ ok held
        → value ≤ held
        → (s' : Storage) × (require_balance key user value s ≡ (ok tt, s'))
          × Changes s s' (balance s) (supply s)
    unfolding require_balance
    require_balance_lem h fits =
        let (s1, e1, c1) = access_balance s key user held ready h in
        (s1, rw (e1, le→ltb held value fits) refl, c1)

    -- The test fails with an Error, and has changed nothing that is read.
    pub require_balance_fails :
        balance s key user ≡ ok held
        → held < value
        → (s' : Storage) × (require_balance key user value s ≡ (err error, s'))
          × Changes s s' (balance s) (supply s)
    unfolding require_balance
    require_balance_fails h less =
        let (s1, e1, c1) = access_balance s key user held ready h in
        (s1, rw (e1, lt→ltb held value less) refl, c1)

  module _ (s : Storage) (key : Bytes) (held value : ℕ) (ready : IsLoaded key s) where
    pub raise_supply_lem :
        supply s key ≡ ok held
        → held + value < u256_mod
        → (s' : Storage) × (raise_supply key value s ≡ (ok tt, s'))
          × Changes s s' (balance s) (set_supply_at (supply s) key (held + value))
    unfolding raise_supply
    raise_supply_lem h fits =
        let (s1, e1, c1) = access_supply s key held ready h in
        let (s2, e2, c2) = access_assign_supply s1 key (held + value) (c1.loaded key ready) in
        (
          s2,
          rw (e1, add_ok held value fits) e2,
          Changes-then (λ b. b) (λ g. set_supply_at g key (held + value)) c1 c2,
        )

    pub lower_supply_lem :
        supply s key ≡ ok held
        → value ≤ held
        → (s' : Storage) × (lower_supply key value s ≡ (ok tt, s'))
          × Changes s s' (balance s) (set_supply_at (supply s) key (held - value))
    unfolding lower_supply
    lower_supply_lem h fits =
        let (s1, e1, c1) = access_supply s key held ready h in
        let (s2, e2, c2) = access_assign_supply s1 key (held - value) (c1.loaded key ready) in
        (
          s2,
          rw (e1, sub_ok held value fits) e2,
          Changes-then (λ b. b) (λ g. set_supply_at g key (held - value)) c1 c2,
        )
