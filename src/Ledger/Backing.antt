-- ===== src/Ledger/Backing.antt =====
-- The supply of a token of src/contract/token.cc against the sum of its users' balances.
use native.Mathlib.Decide.{dec_lt}
use bandchain_legacy.Common.{
  ℕ, ◌+◌, ◌-◌, ◌≤◌, ◌<◌, ◌≡◌, ◌≢◌, refl, sym, ap, ◌∙◌, ◌⊎◌, inl, inr, List, [], ◌∷◌, All,
  eq_bytes_self, arith,
}
use bandchain_legacy.Thrown.{Result, ok, err, error}
use bandchain_legacy.Uint256.{CheckedUint, u256_mod}
use bandchain_legacy.Buffer.{Bytes}
use bandchain_legacy.Ledger.Storage.{Storage}
use bandchain_legacy.Ledger.Token.{mint, transfer}
use bandchain_legacy.Ledger.Views.{
  balance, supply, IsLoaded, Changes, set_balance_at, set_supply_at,
}
use bandchain_legacy.Ledger.Steps.{Balances}
use bandchain_legacy.Ledger.Transfer.{
  set_balance_at_self, set_balance_at_ne, transfer_steps, transfer_insufficient, mint_lem,
}

-- The balances of the users add up to the number.
unfoldable pub Sums : Balances → Bytes → List Bytes → ℕ → Type 0
Sums f key [] n = n ≡ 0
Sums f key (user ∷ users) n =
    (a : ℕ) × (k : ℕ) × (f key user ≡ ok a) × Sums f key users k × (n ≡ a + k)

unfoldable pub Member : Bytes → List Bytes → Type 0
Member user [] = ⊥
Member user (u ∷ users) = (user ≡ u) ⊎ Member user users

-- No user is named twice.
unfoldable pub Distinct : List Bytes → Type 0
Distinct [] = Unit {0}
Distinct (u ∷ users) = All (λ w. u ≢ w) users × Distinct users

apart_from :
    (u user : Bytes) (users : List Bytes) → All (λ w. u ≢ w) users → Member user users → u ≢ user
unfolding Member
apart_from u user [] all inside e = inside
apart_from u user (w ∷ users) (ne, all) (inl p) e = ne (e ∙ p)
apart_from u user (w ∷ users) (ne, all) (inr p) e = apart_from u user users all p e

Sums-other :
    (f : Balances) (key user : Bytes) (v : ℕ) (users : List Bytes) (n : ℕ)
    → All (λ w. user ≢ w) users
    → Sums f key users n
    → Sums (set_balance_at f key user v) key users n
unfolding Sums
Sums-other f key user v [] n all h = h
Sums-other f key user v (w ∷ users) n (ne, all) (a, k, held, rest, e) =
    (a, k, set_balance_at_ne f key user w v ne ∙ held, Sums-other f key user v users k all rest, e)

-- A new balance of one of the users takes the place of the old one in the sum.
Sums-set :
    (f : Balances) (key user : Bytes) (users : List Bytes) (n : ℕ)
    → Distinct users
    → Member user users
    → Sums f key users n
    → (a : ℕ) × (k : ℕ) × (f key user ≡ ok a)
      × (n ≡ a + k)
      × ((v : ℕ) → Sums (set_balance_at f key user v) key users (v + k))
unfolding Sums Member Distinct
Sums-set f key user [] n d inside h = absurd inside
Sums-set f key user (u ∷ users) n (all, d) (inl p) (a, k, held, rest, e) = (
  a,
  k,
  ap (f key) p ∙ held,
  e,
  λ v. (
    v,
    k,
    rw p (set_balance_at_self f key u v),
    Sums-other f key user v users k (rw p all) rest,
    refl,
  ),
)
Sums-set f key user (u ∷ users) n (all, d) (inr p) (b, m, held, rest, e) =
    let (a, k, held', e', rest') = Sums-set f key user users m d p rest in
    (
      a,
      b + k,
      held',
      omega arith,
      λ v. (
        b,
        v + k,
        set_balance_at_ne f key user u v (λ q. apart_from u user users all p (sym q)) ∙ held,
        rest' v,
        omega arith,
      ),
    )

Sums-eq :
    (f : Balances) (key : Bytes) (users : List Bytes) {n n' : ℕ}
    → n ≡ n'
    → Sums f key users n
    → Sums f key users n'
Sums-eq f key users e h = rw (sym e) h

module _ ⦃u : CheckedUint⦄ where
  -- The supply of a token is what the users hold together, and is a number of 256 bits.
  pub record IsBacked (s : Storage) (key : Bytes) (users : List Bytes) (total : ℕ) : Type 0 where
    pub total_supply : supply s key ≡ ok total
    pub sum : Sums (balance s) key users total
    pub small : total < u256_mod

  IsBacked-Changes :
      (s s' : Storage) (key : Bytes) (users : List Bytes) (f : Balances) (g : Bytes → Result ℕ)
      (n : ℕ)
      → Changes s s' f g
      → g key ≡ ok n
      → Sums f key users n
      → n < u256_mod
      → IsBacked s' key users n
  IsBacked-Changes s s' key users f g n c h sum small = record {
    total_supply = ap (λ (x : Bytes → Result ℕ). x key) c.supplies ∙ h;
    sum = rw c.balances sum;
    small = small;
  }

  module _ (s : Storage) (key : Bytes) (users : List Bytes) (distinct : Distinct users)
      (ready : IsLoaded key s) (total : ℕ) (b : IsBacked s key users total) where
    -- A transfer that the sender can pay.
    transfer_paid :
        (src dst : Bytes) (value held k : ℕ)
        → Member dst users
        → balance s key src ≡ ok held
        → total ≡ held + k
        → ((v : ℕ) → Sums (set_balance_at (balance s) key src v) key users (v + k))
        → value ≤ held
        → (s' : Storage) × (transfer key src dst value s ≡ (ok tt, s'))
          × IsBacked s' key users total
    transfer_paid src dst value held k has_dst held_eq split left enough =
        let f = set_balance_at (balance s) key src (held - value) in
        let (c, k', c_eq, split', final) =
          Sums-set f key dst users (held - value + k) distinct has_dst (left (held - value)) in
        let small = b.small in
        let (s', run, changes) =
          transfer_steps s key src dst value held c ready held_eq enough c_eq (omega arith) in
        (
          s',
          run,
          IsBacked-Changes s s' key users (set_balance_at f key dst (c + value)) (supply s) total
              changes b.total_supply
              (Sums-eq (set_balance_at f key dst (c + value)) key users {n = c + value + k'}
                {n' = total} (omega arith) (final (c + value)))
              b.small,
        )

    -- On a loaded token whose supply is below 2 ^ 256 and is the sum of the balances of different
    -- users, a transfer of any value between two of them, who may be the same, succeeds or is an
    -- Error, and the supply is the same number and still the sum of their balances.
    pub transfer-IsBacked :
        (src dst : Bytes) (value : ℕ)
        → Member src users
        → Member dst users
        → (r : Result (Unit {0})) × (s' : Storage) × (transfer key src dst value s ≡ (r, s'))
          × ((r ≡ ok tt) ⊎ (r ≡ err error))
          × IsBacked s' key users total
    transfer-IsBacked src dst value has_src has_dst =
        let (held, k, held_eq, split, left) =
          Sums-set (balance s) key src users total distinct has_src b.sum in
        elim (dec_lt held value) [
          | yes less ↦
              let (s', run, c) =
                transfer_insufficient s key src dst value held ready held_eq less in
              (
                err error,
                s',
                run,
                inr refl,
                IsBacked-Changes s s' key users (balance s) (supply s) total c b.total_supply b.sum
                    b.small,
              )
          | no enough ↦
              let (s', run, backed) =
                transfer_paid src dst value held k has_dst held_eq split left (omega arith) in
              (ok tt, s', run, inl refl, backed)
        ]

    -- On a loaded token whose supply is below 2 ^ 256 and is the sum of the balances of different
    -- users, minting for one of them succeeds where the supply with the value is below 2 ^ 256,
    -- which is then the supply and the sum of their balances.
    pub mint-IsBacked :
        (receiver : Bytes) (value : ℕ)
        → Member receiver users
        → total + value < u256_mod
        → (s' : Storage) × (mint key receiver value s ≡ (ok tt, s'))
          × IsBacked s' key users (total + value)
    mint-IsBacked receiver value inside fits =
        let (a, k, held, split, sum) =
          Sums-set (balance s) key receiver users total distinct inside b.sum in
        let (s', run, changes) =
          mint_lem s key receiver value a total ready held b.total_supply (omega arith) fits in
        (
          s',
          run,
          IsBacked-Changes s s' key users (set_balance_at (balance s) key receiver (a + value))
              (set_supply_at (supply s) key (total + value)) (total + value) changes
              (rw (eq_bytes_self key) refl)
              (Sums-eq (set_balance_at (balance s) key receiver (a + value)) key users
                {n = a + value + k} {n' = total + value} (omega arith) (sum (a + value)))
              fits,
        )
