-- ===== src/Ledger/Keeps.antt =====
-- Which actions of src/contract and src/store/storage.h leave the key-value storage as it is.
use bandchain_legacy.Common.{
  ℕ, ◌≡◌, refl, ◌∙◌, Bool, true, false, Option, none, some, ◌++◌, lookup, eq_bytes, if◌then◌else◌,
  Bool-cases, inl, inr, ltb,
}
use bandchain_legacy.Thrown.{Result, ok, err, error}
use bandchain_legacy.Uint256.{CheckedUint}
use bandchain_legacy.Buffer.{Bytes}
use bandchain_legacy.Store.Backend
use bandchain_legacy.Store.Backend.{StorageMap}
use bandchain_legacy.Equation.{Eq, apply}
use bandchain_legacy.Ledger.Action.{Action, ◌>>=◌, ◌>>◌, pure, lift, throw, continue_with}
use bandchain_legacy.Ledger.Contracts.{
  Contract, Kind, token_kind, account_contract, token_contract, key_prefix,
}
use bandchain_legacy.Ledger.Storage.{
  Storage, from_store, from_cache, get_contract, load, add_contract,
}
use bandchain_legacy.Ledger.Fields.{
  read_balance, assign_balance, read_supply, assign_supply, read_base, read_curve_data, TokenAccess,
  with_token, store_token, token_access,
}
use bandchain_legacy.Ledger.Token

-- The action only changes what is loaded, not the key-value storage.
abbrev pub KeepsBackend : {A : Type 0} → Action Storage A → Type 0
KeepsBackend m = (s : Storage) → (m s).1.backend ≡ s.backend

pub keeps_continue :
    {A B : Type 0} (f : A → Action Storage B)
    → ((a : A) → KeepsBackend (f a))
    → (r : Result A) (s : Storage) → (continue_with f r s).1.backend ≡ s.backend
keeps_continue f h (ok a) s = h a s
keeps_continue f h (err e) s = refl

pub keeps->>= :
    {A B : Type 0} (m : Action Storage A) (f : A → Action Storage B)
    → KeepsBackend m
    → ((a : A) → KeepsBackend (f a))
    → KeepsBackend (m >>= f)
keeps->>= m f hm hf s = keeps_continue f hf (m s).0 (m s).1 ∙ hm s

pub keeps->> :
    {B : Type 0} (m : Action Storage (Unit {0})) (k : Action Storage B)
    → KeepsBackend m
    → KeepsBackend k
    → KeepsBackend (m >> k)
keeps->> m k hm hk s = keeps_continue (λ _. k) (λ _. hk) (m s).0 (m s).1 ∙ hm s

pub keeps-with_token :
    {A : Type 0} (key : Bytes) (f : TokenAccess A) → KeepsBackend (with_token key f)
unfolding with_token
keeps-with_token {A} key f s = go (lookup key s.contracts)
  where
    stored : (r : Result (A × _)) → (store_token key s r).1.backend ≡ s.backend
    stored (ok p) = refl
    stored (err e) = refl

    go : (o : Option Contract) → (token_access key f s o).1.backend ≡ s.backend
    go none = refl
    go (some (account_contract a)) = refl
    go (some (token_contract t)) = stored (f t s.backend)

pub keeps-from_store :
    (kind : Kind) (key : Bytes) (r : Result (Option Bytes)) → KeepsBackend (from_store kind key r)
unfolding from_store add_contract
keeps-from_store kind key (err e) s = refl
keeps-from_store kind key (ok none) s = refl
keeps-from_store kind key (ok (some value)) s = elim (Bool-cases (eq_bytes value key)) [
  | inl q ↦ rw q refl
  | inr q ↦ rw q refl
]

pub keeps-get_contract : (kind : Kind) (key : Bytes) → KeepsBackend (get_contract kind key)
unfolding get_contract from_cache
keeps-get_contract kind key s = go (lookup key s.contracts)
  where
    go : (o : Option Contract) → (from_cache kind key o s).1.backend ≡ s.backend
    go none = keeps-from_store kind key (Backend.get key s.backend) s
    go (some c) = refl

pub keeps-if :
    {A : Type 0} (b : Bool) (f g : Action Storage A)
    → KeepsBackend f
    → KeepsBackend g
    → KeepsBackend (if b then f else g)
keeps-if true f g hf hg = hf
keeps-if false f g hf hg = hg

pub keeps-load : (kind : Kind) (id : Bytes) → KeepsBackend (load kind id)
unfolding load
keeps-load kind id =
    keeps->>= (get_contract kind (key_prefix kind ++ id)) _
      (keeps-get_contract kind (key_prefix kind ++ id))
      (λ b. keeps-if b _ _ (λ s. refl) (λ s. refl))

module _ ⦃u : CheckedUint⦄ where
  pub keeps-credit : (key user : Bytes) (v : ℕ) → KeepsBackend (Token.credit key user v)
  unfolding Token.credit
  keeps-credit key user v =
      keeps->>= (with_token key (read_balance user)) _ (keeps-with_token key (read_balance user))
        λ old.
          keeps->>= (lift (u.add old v)) _ (λ s. refl)
            λ new. keeps-with_token key (assign_balance user new)

  pub keeps-debit : (key user : Bytes) (v : ℕ) → KeepsBackend (Token.debit key user v)
  unfolding Token.debit
  keeps-debit key user v =
      keeps->>= (with_token key (read_balance user)) _ (keeps-with_token key (read_balance user))
        λ old.
          keeps->>= (lift (u.sub old v)) _ (λ s. refl)
            λ new. keeps-with_token key (assign_balance user new)

  pub keeps-require_balance :
      (key user : Bytes) (v : ℕ) → KeepsBackend (Token.require_balance key user v)
  unfolding Token.require_balance
  keeps-require_balance key user v =
      keeps->>= (with_token key (read_balance user)) _ (keeps-with_token key (read_balance user))
        λ held. keeps-if (ltb held v) (throw error) (pure tt) (λ s. refl) (λ s. refl)

  pub keeps-raise_supply : (key : Bytes) (v : ℕ) → KeepsBackend (Token.raise_supply key v)
  unfolding Token.raise_supply
  keeps-raise_supply key v =
      keeps->>= (with_token key read_supply) _ (keeps-with_token key read_supply) λ old.
        keeps->>= (lift (u.add old v)) _ (λ s. refl) λ new. keeps-with_token key (assign_supply new)

  pub keeps-lower_supply : (key : Bytes) (v : ℕ) → KeepsBackend (Token.lower_supply key v)
  unfolding Token.lower_supply
  keeps-lower_supply key v =
      keeps->>= (with_token key read_supply) _ (keeps-with_token key read_supply) λ old.
        keeps->>= (lift (u.sub old v)) _ (λ s. refl) λ new. keeps-with_token key (assign_supply new)

  pub keeps-mint : (key user : Bytes) (v : ℕ) → KeepsBackend (Token.mint key user v)
  unfolding Token.mint
  keeps-mint key user v =
      keeps->> (Token.credit key user v) (Token.raise_supply key v) (keeps-credit key user v)
        (keeps-raise_supply key v)

  pub keeps-transfer : (key src dst : Bytes) (v : ℕ) → KeepsBackend (Token.transfer key src dst v)
  unfolding Token.transfer
  keeps-transfer key src dst v =
      keeps->> (Token.require_balance key src v) _ (keeps-require_balance key src v) (
        keeps->> (Token.debit key src v) (Token.credit key dst v) (keeps-debit key src v)
          (keeps-credit key dst v))

  pub keeps-curve_and_base : (key : Bytes) → KeepsBackend (Token.curve_and_base key)
  unfolding Token.curve_and_base
  keeps-curve_and_base key =
      keeps->>= (with_token key read_curve_data) _ (keeps-with_token key read_curve_data) λ curve.
        keeps->>= (with_token key read_base) _ (keeps-with_token key read_base) λ base.
          keeps->>= (load token_kind base) (λ t. pure (curve, t)) (keeps-load token_kind base)
            λ t s. refl

  pub keeps-buy_price : (key : Bytes) (e : Eq) (v : ℕ) → KeepsBackend (Token.buy_price key e v)
  unfolding Token.buy_price
  keeps-buy_price key e v =
      keeps->>= (with_token key read_supply) _ (keeps-with_token key read_supply) λ a.
        keeps->>= (lift (u.add a v)) _ (λ s. refl)
          λ b.
            keeps->>= (lift (apply e b)) _ (λ s. refl)
              λ high.
                keeps->>= (with_token key read_supply) _ (keeps-with_token key read_supply) λ c.
                  keeps->>= (lift (apply e c)) (λ low. lift (u.sub high low)) (λ s. refl)
                    λ low s. refl

  pub keeps-sell_price : (key : Bytes) (e : Eq) (v : ℕ) → KeepsBackend (Token.sell_price key e v)
  unfolding Token.sell_price
  keeps-sell_price key e v =
      keeps->>= (with_token key read_supply) _ (keeps-with_token key read_supply) λ a.
        keeps->>= (lift (apply e a)) _ (λ s. refl)
          λ high. keeps->>= (with_token key read_supply) _ (keeps-with_token key read_supply) λ b.
            keeps->>= (lift (u.sub b v)) _ (λ s. refl)
              λ c.
                keeps->>= (lift (apply e c)) (λ low. lift (u.sub high low)) (λ s. refl)
                  λ low s. refl

  pub keeps-buy : (key user : Bytes) (v : ℕ) → KeepsBackend (Token.buy key user v)
  unfolding Token.buy
  keeps-buy key user v = keeps->>= (Token.curve_and_base key) _ (keeps-curve_and_base key) λ opened.
      keeps->>= (Token.buy_price key opened.0 v) _ (keeps-buy_price key opened.0 v) λ price.
        keeps->> (Token.require_balance opened.1 user price) _
          (keeps-require_balance opened.1 user price)
          (keeps->> (Token.debit opened.1 user price) _ (keeps-debit opened.1 user price) (
            keeps->> (Token.credit key user v) _ (keeps-credit key user v) (
              keeps->> (Token.raise_supply key v) (pure price) (keeps-raise_supply key v)
                (λ s. refl))))

  pub keeps-sell : (key user : Bytes) (v : ℕ) → KeepsBackend (Token.sell key user v)
  unfolding Token.sell
  keeps-sell key user v =
      keeps->>= (Token.curve_and_base key) _ (keeps-curve_and_base key) λ opened.
        keeps->> (Token.require_balance key user v) _ (keeps-require_balance key user v) (
          keeps->>= (Token.sell_price key opened.0 v) _ (keeps-sell_price key opened.0 v) λ price.
            keeps->> (Token.debit key user v) _ (keeps-debit key user v) (
              keeps->> (Token.credit opened.1 user price) _ (keeps-credit opened.1 user price) (
                keeps->> (Token.lower_supply key v) (pure price) (keeps-lower_supply key v)
                  (λ s. refl))))

  pub keeps-base : (key : Bytes) → KeepsBackend (Token.base key)
  unfolding Token.base
  keeps-base key = keeps-with_token key read_base
