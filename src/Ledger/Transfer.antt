-- ===== src/Ledger/Transfer.antt =====
-- `Token::transfer` and `Token::mint` of src/contract/token.cc.
use mathlib.Core.Path.{fun_ext}
use bandchain_legacy.Common.{
  ℕ, ◌+◌, ◌-◌, ◌≤◌, ◌<◌, ◌≡◌, ◌≢◌, refl, sym, ◌∙◌, Bool-cases, inl, inr, eq_bytes, eq_bytes_self,
  eq_bytes_iff, arith,
}
use bandchain_legacy.Thrown.{ok, err, error}
use bandchain_legacy.Uint256.{CheckedUint, u256_mod}
use bandchain_legacy.Buffer.{Bytes}
use bandchain_legacy.Ledger.Storage.{Storage}
use bandchain_legacy.Ledger.Token.{mint, transfer}
use bandchain_legacy.Ledger.Views.{
  balance, supply, IsLoaded, Changes, set_balance_at, set_supply_at,
}
use bandchain_legacy.Ledger.Steps.{
  Balances, Changes-then, balance_after, supply_after, credit_lem, debit_lem, require_balance_lem,
  require_balance_fails, raise_supply_lem,
}

pub set_balance_at_self :
    (f : Balances) (key user : Bytes) (v : ℕ) → set_balance_at f key user v key user ≡ ok v
set_balance_at_self f key user v = rw (eq_bytes_self key, eq_bytes_self user) refl

pub set_balance_at_ne :
    (f : Balances) (key user who : Bytes) (v : ℕ)
    → user ≢ who
    → set_balance_at f key user v key who ≡ f key who
set_balance_at_ne f key user who v n = elim (Bool-cases (eq_bytes user who)) [
  | inl q ↦ absurd (n ((eq_bytes_iff user who).0 q))
  | inr q ↦ rw (eq_bytes_self key, q) refl
]

-- Taking a value from a balance and giving it back leaves every balance as it was.
set_back :
    (f : Balances) (key user : Bytes) (value a : ℕ)
    → f key user ≡ ok a
    → value ≤ a
    → set_balance_at (set_balance_at f key user (a - value)) key user (a - value + value) ≡ f
set_back f key user value a h enough = fun_ext (λ other. fun_ext (λ who. same other who))
  where
    back : a - value + value ≡ a
    back = omega arith

    same :
        (other who : Bytes)
        → set_balance_at
            (set_balance_at f key user (a - value))
            key
            user
            (a - value + value)
            other
            who
          ≡ f other who
    same other who = elim (Bool-cases (eq_bytes key other)) [
      | inr q ↦ rw q refl
      | inl q ↦ elim (Bool-cases (eq_bytes user who)) [
        | inl q' ↦
            rw (q, q', back, ← (eq_bytes_iff key other).0 q, ← (eq_bytes_iff user who).0 q') (sym h)
        | inr q' ↦ rw (q, q') refl
      ]
    ]

module _ ⦃u : CheckedUint⦄ where
  pub transfer_steps :
      (s : Storage) (key src dst : Bytes) (value a b : ℕ)
      → IsLoaded key s
      → balance s key src ≡ ok a
      → value ≤ a
      → set_balance_at (balance s) key src (a - value) key dst ≡ ok b
      → b + value < u256_mod
      → (s' : Storage) × (transfer key src dst value s ≡ (ok tt, s'))
        × Changes s s'
            (set_balance_at (set_balance_at (balance s) key src (a - value)) key dst (b + value))
            (supply s)
  unfolding transfer
  transfer_steps s key src dst value a b ready ha enough hb fits =
      let (s1, e1, c1) = require_balance_lem s key src a value ready ha enough in
      let ha' = balance_after key src c1 ha in
      let (s2, e2, c2) = debit_lem s1 key src a value (c1.loaded key ready) ha' enough in
      let c12 = Changes-then (λ f. set_balance_at f key src (a - value)) (λ g. g) c1 c2 in
      let hb' = balance_after key dst c12 hb in
      let (s3, e3, c3) = credit_lem s2 key dst b value (c12.loaded key ready) hb' fits in
      (s3, rw (e1, e2) e3, Changes-then (λ f. set_balance_at f key dst (b + value)) (λ g. g) c12 c3)

  -- On a loaded token, between two different users, where the sender holds the value and the
  -- receiver's new balance is below 2 ^ 256: the transfer succeeds, it moves the value, and it
  -- changes no other balance, no supply, no base and no curve.
  pub transfer_moves :
      (s : Storage) (key src dst : Bytes) (value a b : ℕ)
      → IsLoaded key s
      → src ≢ dst
      → balance s key src ≡ ok a
      → balance s key dst ≡ ok b
      → value ≤ a
      → b + value < u256_mod
      → (s' : Storage) × (transfer key src dst value s ≡ (ok tt, s'))
        × Changes s s'
            (set_balance_at (set_balance_at (balance s) key src (a - value)) key dst (b + value))
            (supply s)
  transfer_moves s key src dst value a b ready n ha hb enough fits =
      transfer_steps s key src dst value a b ready ha enough
        (set_balance_at_ne (balance s) key src dst (a - value) n ∙ hb) fits

  -- On a loaded token, a transfer to oneself of a value that one holds succeeds, where the
  -- balance is below 2 ^ 256, and changes nothing that is read.
  pub transfer_self :
      (s : Storage) (key src : Bytes) (value a : ℕ)
      → IsLoaded key s
      → balance s key src ≡ ok a
      → a < u256_mod
      → value ≤ a
      → (s' : Storage) × (transfer key src src value s ≡ (ok tt, s'))
        × Changes s s' (balance s) (supply s)
  transfer_self s key src value a ready ha small enough =
      let (s', e, c) =
        transfer_steps s key src src value a (a - value) ready ha enough
          (set_balance_at_self (balance s) key src (a - value)) (omega arith) in
      (s', e, rw (set_back (balance s) key src value a ha enough) at c)

  -- On a loaded token, a sender who holds less than the value gets an Error, and nothing that is
  -- read has changed.
  pub transfer_insufficient :
      (s : Storage) (key src dst : Bytes) (value a : ℕ)
      → IsLoaded key s
      → balance s key src ≡ ok a
      → a < value
      → (s' : Storage) × (transfer key src dst value s ≡ (err error, s'))
        × Changes s s' (balance s) (supply s)
  unfolding transfer
  transfer_insufficient s key src dst value a ready ha less =
      let (s1, e1, c1) = require_balance_fails s key src a value ready ha less in
      (s1, rw e1 refl, c1)

  -- On a loaded token, where the receiver's new balance and the new supply are below 2 ^ 256,
  -- minting adds the value to the receiver's balance and to the supply, and changes nothing else
  -- that is read.
  pub mint_lem :
      (s : Storage) (key receiver : Bytes) (value a total : ℕ)
      → IsLoaded key s
      → balance s key receiver ≡ ok a
      → supply s key ≡ ok total
      → a + value < u256_mod
      → total + value < u256_mod
      → (s' : Storage) × (mint key receiver value s ≡ (ok tt, s'))
        × Changes s s'
            (set_balance_at (balance s) key receiver (a + value))
            (set_supply_at (supply s) key (total + value))
  unfolding mint
  mint_lem s key receiver value a total ready ha ht fits fits' =
      let (s1, e1, c1) = credit_lem s key receiver a value ready ha fits in
      let ht' = supply_after key c1 ht in
      let (s2, e2, c2) = raise_supply_lem s1 key total value (c1.loaded key ready) ht' fits' in
      (s2, rw e1 e2, Changes-then (λ f. f) (λ g. set_supply_at g key (total + value)) c1 c2)
