-- ===== src/Ledger/BuySell.antt =====
-- `Token::sell` right after `Token::buy`, of src/contract/token.cc.
use mathlib.Core.Path.{fun_ext}
use bandchain_legacy.Common.{
  ℕ, ◌+◌, ◌-◌, ◌≤◌, ◌<◌, ◌≡◌, ◌≢◌, refl, ap, sym, ◌∙◌, false, Bool-cases, inl, inr, eq_bytes,
  eq_bytes_self, eq_bytes_iff, arith,
}
use bandchain_legacy.Thrown.{Result, ok}
use bandchain_legacy.Uint256.{CheckedUint, u256_mod}
use bandchain_legacy.Buffer.{Bytes}
use bandchain_legacy.Equation.{Eq, Curve, apply}
use bandchain_legacy.Ledger.Storage.{Storage}
use bandchain_legacy.Ledger.Token.{buy, sell}
use bandchain_legacy.Ledger.Views.{balance, supply, Changes, set_balance_at, set_supply_at}
use bandchain_legacy.Ledger.Steps.{Balances, Supplies, Changes-then, balance_after, supply_after}
use bandchain_legacy.Ledger.Transfer.{set_balance_at_self}
use bandchain_legacy.Ledger.Trade.{token_key, IsTradable, buy_lem, sell_lem}

set_balance_at_other :
    (f : Balances) (key other user : Bytes) (v : ℕ)
    → key ≢ other
    → set_balance_at f key user v other user ≡ f other user
set_balance_at_other f key other user v n = elim (Bool-cases (eq_bytes key other)) [
  | inl q ↦ absurd (n ((eq_bytes_iff key other).0 q))
  | inr q ↦ rw q refl
]

-- The four balances that a purchase and a sale write.
abbrev after_both : Balances → Bytes → Bytes → Bytes → ℕ → ℕ → ℕ → ℕ → Balances
after_both f base key user a b a' b' =
    set_balance_at
      (set_balance_at (set_balance_at (set_balance_at f base user a) key user b) key user b') base
      user a'

restored :
    (f : Balances) (base key user : Bytes) (a b a' b' : ℕ)
    → f base user ≡ ok a'
    → f key user ≡ ok b'
    → after_both f base key user a b a' b' ≡ f
restored f base key user a b a' b' ha hb = fun_ext (λ other. fun_ext (λ who. same other who))
  where
    not_user :
        (g : Balances) (at_key other who : Bytes) (v : ℕ)
        → eq_bytes user who ≡ false
        → set_balance_at g at_key user v other who ≡ g other who
    not_user g at_key other who v q = elim (Bool-cases (eq_bytes at_key other)) [
      | inl q' ↦ rw (q', q) refl
      | inr q' ↦ rw q' refl
    ]

    same : (other who : Bytes) → after_both f base key user a b a' b' other who ≡ f other who
    same other who = elim (Bool-cases (eq_bytes user who)) [
      | inr q ↦
          not_user
            (set_balance_at (set_balance_at (set_balance_at f base user a) key user b) key user b')
            base other who a' q
          ∙ not_user (set_balance_at (set_balance_at f base user a) key user b) key other who b' q
          ∙ not_user (set_balance_at f base user a) key other who b q
          ∙ not_user f base other who a q
      | inl q ↦ elim (Bool-cases (eq_bytes base other)) [
        | inl q1 ↦
            rw (q, q1, ← (eq_bytes_iff base other).0 q1, ← (eq_bytes_iff user who).0 q) (sym ha)
        | inr q1 ↦ elim (Bool-cases (eq_bytes key other)) [
          | inl q2 ↦
              rw (q, q1, q2, ← (eq_bytes_iff key other).0 q2, ← (eq_bytes_iff user who).0 q)
                (sym hb)
          | inr q2 ↦ rw (q, q1, q2) refl
        ]
      ]
    ]

set_supply_back :
    (g : Supplies) (key : Bytes) (v t : ℕ)
    → g key ≡ ok t
    → set_supply_at (set_supply_at g key v) key t ≡ g
set_supply_back g key v t h = fun_ext (λ other. elim (Bool-cases (eq_bytes key other)) [
  | inl q ↦ rw (q, ← (eq_bytes_iff key other).0 q) (sym h)
  | inr q ↦ rw q refl
])

module _ ⦃u : CheckedUint⦄ where
  Changes-as :
      {s s' : Storage} {f f' : Balances} {g g' : Supplies}
      → Changes s s' f g
      → f ≡ f'
      → g ≡ g'
      → Changes s s' f' g'
  Changes-as c p q = record {
    balances = c.balances ∙ p;
    supplies = c.supplies ∙ q;
    bases = c.bases;
    curves = c.curves;
    backend = c.backend;
    loaded = c.loaded;
    present = c.present;
  }

  still-IsTradable :
      (s s' : Storage) (key base_id : Bytes) (e : Eq) (total value : ℕ) {f : Balances}
      → IsTradable s key e base_id total
      → Changes s s' f (set_supply_at (supply s) key (total + value))
      → IsTradable s' key e base_id (total + value)
  still-IsTradable s s' key base_id e total value t c = record {
    ready = c.loaded key t.ready;
    curve = ap (λ (b : Bytes → Result Curve). b key) c.curves ∙ t.curve;
    base = ap (λ (b : Bytes → Result Bytes). b key) c.bases ∙ t.base;
    base_present = c.present (token_key base_id) t.base_present;
    total_supply = supply_after key c (rw (eq_bytes_self key) refl);
  }

  -- On a tradable token whose base is another token, where the curve gives high at total + value
  -- and low at total with low at most high, the buyer holds at least high - low base tokens, and
  -- the balances and the supply stay below 2 ^ 256: buying the value costs high - low, selling it
  -- right after pays back high - low, and then all balances, supplies, bases and curves read as
  -- they did before.
  pub sell-buy :
      (s : Storage) (key buyer base_id : Bytes) (e : Eq) (total value low high held own : ℕ)
      → IsTradable s key e base_id total
      → token_key base_id ≢ key
      → total + value < u256_mod
      → apply e (total + value) ≡ ok high
      → apply e total ≡ ok low
      → low ≤ high
      → balance s (token_key base_id) buyer ≡ ok held
      → held < u256_mod
      → high - low ≤ held
      → balance s key buyer ≡ ok own
      → own + value < u256_mod
      → (s' s'' : Storage) × (buy key buyer value s ≡ (ok (high - low), s'))
        × (sell key buyer value s' ≡ (ok (high - low), s''))
        × Changes s s'' (balance s) (supply s)
  sell-buy s key buyer base_id e total value low high held own t n fits hhigh hlow le hheld small
        enough hown fits' =
      let bkey = token_key base_id in
      let price = high - low in
      let (s1, e1, c1) =
        buy_lem s key buyer base_id e total value low high held own t fits hhigh hlow le hheld
          enough (set_balance_at_other (balance s) bkey key buyer (held - price) n ∙ hown) fits' in
      let (s2, e2, c2) =
        sell_lem s1 key buyer base_id e (total + value) value low high (own + value) (held - price)
          (still-IsTradable s s1 key base_id e total value t c1) (omega arith) hhigh
          (rw total_back hlow) le
          (balance_after key buyer c1 (
            set_balance_at_self (set_balance_at (balance s) bkey buyer (held - price)) key buyer
              (own + value)))
          (omega arith)
          (set_balance_at_other (balance s1) key bkey buyer (own + value - value) (λ p. n (sym p))
            ∙ balance_after bkey buyer c1 (
                set_balance_at_other (set_balance_at (balance s) bkey buyer (held - price)) key bkey
                  buyer (own + value) (λ p. n (sym p))
                ∙ set_balance_at_self (balance s) bkey buyer (held - price)))
          (omega arith) in
      (
        s1,
        s2,
        e1,
        e2,
        Changes-as
            (Changes-then
              (λ f.
                set_balance_at (set_balance_at f key buyer (own + value - value)) bkey buyer
                  (held - price + price))
              (λ g. set_supply_at g key (total + value - value)) c1 c2)
            balances_back supplies_back,
      )
    where
      total_back : total + value - value ≡ total
      total_back = omega arith

      own_back : own + value - value ≡ own
      own_back = omega arith

      held_back : held - (high - low) + (high - low) ≡ held
      held_back = omega arith

      balances_back :
          after_both
            (balance s)
            (token_key base_id)
            key
            buyer
            (held - (high - low))
            (own + value)
            (held - (high - low) + (high - low))
            (own + value - value)
          ≡ balance s
      balances_back =
          restored (balance s) (token_key base_id) key buyer (held - (high - low)) (own + value)
            (held - (high - low) + (high - low)) (own + value - value) (rw held_back hheld)
            (rw own_back hown)

      supplies_back :
          set_supply_at (set_supply_at (supply s) key (total + value)) key (total + value - value)
          ≡ supply s
      supplies_back =
          set_supply_back (supply s) key (total + value) (total + value - value)
            (rw total_back t.total_supply)
