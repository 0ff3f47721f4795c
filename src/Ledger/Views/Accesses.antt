-- ===== src/Ledger/Views/Accesses.antt =====
-- What the tokens of a storage read as, and how each access changes it.
use mathlib.Core.Path.{fun_ext}
use bandchain_legacy.Common.{
  ℕ, ◌≡◌, refl, ◌∙◌, ◌⊎◌, Option, none, some, ◌&&◌, lookup, lookup-insert, eq_bytes, eq_bytes_iff,
  if◌then◌else◌, Bool-cases, inl, inr,
}
use bandchain_legacy.Thrown.{Result, ok}
use bandchain_legacy.Uint256.{CheckedUint}
use bandchain_legacy.Buffer.{Bytes}
use bandchain_legacy.Equation.{Eq, Curve}
use bandchain_legacy.Store.Backend
use bandchain_legacy.Ledger.Contracts.{Token, Contract, account_contract, token_contract, new_token}
use bandchain_legacy.Ledger.Storage.{Storage}
use bandchain_legacy.Ledger.Fields.{
  TokenAccess, put_contract, with_token, read_balance, read_supply, read_base, read_curve_data,
}
use bandchain_legacy.Ledger.Views.Cells.{
  Alike, balance_in, supply_in, base_in, curve_in, read_balance_lem, read_supply_lem, read_base_lem,
  read_curve_lem,
}

-- The token of a key: the object that is loaded, or the one that loading would make.
abbrev pub token_or_new : Bytes → Option Contract → Token
token_or_new key (some (token_contract t)) = t
token_or_new key (some (account_contract a)) = new_token key
token_or_new key none = new_token key

unfoldable pub object_at : Storage → Bytes → Token
object_at s key = token_or_new key (lookup key s.contracts)

abbrev pub IsLoaded : Bytes → Storage → Type 0
IsLoaded key s = (t : Token) × (lookup key s.contracts ≡ some (token_contract t))

-- Replacing one loaded token by another, read at each key.
object_at-put :
    (s : Storage) (key other : Bytes) (t : Token)
    → object_at (put_contract key (token_contract t) s) other
      ≡ (if eq_bytes key other then t else object_at s other)
unfolding object_at
object_at-put s key other t =
    rw (lookup-insert key other (token_contract t) s.contracts)
      (elim (Bool-cases (eq_bytes key other)) [ inl q ↦ rw q refl | inr q ↦ rw q refl ])

-- A balance function changed at one user of one token, and a supply function at one token.
abbrev pub set_balance_at :
    (Bytes → Bytes → Result ℕ) → Bytes → Bytes → ℕ → Bytes → Bytes → Result ℕ
set_balance_at f key user v other who =
    if eq_bytes key other && eq_bytes user who then ok v else f other who

abbrev pub set_supply_at : (Bytes → Result ℕ) → Bytes → ℕ → Bytes → Result ℕ
set_supply_at g key v other = if eq_bytes key other then ok v else g other

-- The token can be loaded: it is, or the key-value storage has it.
abbrev pub IsPresent : Bytes → Storage → Type 0
IsPresent key s =
    IsLoaded key s ⊎ ((lookup key s.contracts ≡ none) × (Backend.get key s.backend ≡ ok (some key)))

module _ ⦃u : CheckedUint⦄ where
  unfoldable pub balance : Storage → Bytes → Bytes → Result ℕ
  balance s key user = balance_in (object_at s key) s.backend user

  unfoldable pub supply : Storage → Bytes → Result ℕ
  supply s key = supply_in (object_at s key) s.backend

  unfoldable pub base_of : Storage → Bytes → Result Bytes
  base_of s key = base_in (object_at s key) s.backend

  unfoldable pub curve_of : Storage → Bytes → Result Curve
  curve_of s key = curve_in (object_at s key) s.backend

  -- From `s` to `s'` the balances became `f` and the supplies `g`; nothing else that is read
  -- changed, and what was loaded still is.
  pub record Changes (s s' : Storage) (f : Bytes → Bytes → Result ℕ) (g : Bytes → Result ℕ)
      : Type 0 where
    pub balances : balance s' ≡ f
    pub supplies : supply s' ≡ g
    pub bases : base_of s' ≡ base_of s
    pub curves : curve_of s' ≡ curve_of s
    pub backend : s'.backend ≡ s.backend
    pub loaded : (key : Bytes) → IsLoaded key s → IsLoaded key s'
    pub present : (key : Bytes) → IsPresent key s → IsPresent key s'

  pub put-IsLoaded :
      (s : Storage) (key : Bytes) (t : Token) (other : Bytes)
      → IsLoaded other s
      → IsLoaded other (put_contract key (token_contract t) s)
  put-IsLoaded s key t other (o, h) = elim (Bool-cases (eq_bytes key other)) [
    | inl q ↦ (t, lookup-insert key other (token_contract t) s.contracts ∙ rw q refl)
    | inr q ↦ (o, lookup-insert key other (token_contract t) s.contracts ∙ rw q h)
  ]

  pub put-IsPresent :
      (s : Storage) (key : Bytes) (t : Token) (other : Bytes)
      → IsPresent other s
      → IsPresent other (put_contract key (token_contract t) s)
  put-IsPresent s key t other (inl l) = inl (put-IsLoaded s key t other l)
  put-IsPresent s key t other (inr (absent, stored)) = elim (Bool-cases (eq_bytes key other)) [
    | inl q ↦ inl (t, lookup-insert key other (token_contract t) s.contracts ∙ rw q refl)
    | inr q ↦ inr (lookup-insert key other (token_contract t) s.contracts ∙ rw q absent, stored)
  ]

  -- A view of the tokens, after one of them was replaced by one that looks the same.
  pub view-same :
      {X : Type 0} (view : Token → X) (s : Storage) (key : Bytes) (t : Token)
      → view t ≡ view (object_at s key)
      → (other : Bytes)
      → view (object_at (put_contract key (token_contract t) s) other) ≡ view (object_at s other)
  view-same view s key t h other =
      rw (object_at-put s key other t) (elim (Bool-cases (eq_bytes key other)) [
        | inl q ↦ rw (q, ← (eq_bytes_iff key other).0 q) h
        | inr q ↦ rw q refl
      ])

  pub view-put :
      {X : Type 0} (view : Token → X) (s : Storage) (key : Bytes) (t : Token) (other : Bytes)
      → view (object_at (put_contract key (token_contract t) s) other)
        ≡ (if eq_bytes key other then view t else view (object_at s other))
  view-put view s key t other =
      rw (object_at-put s key other t)
        (elim (Bool-cases (eq_bytes key other)) [ inl q ↦ rw q refl | inr q ↦ rw q refl ])

  -- An access to a loaded token.
  pub with_token_lem :
      {A : Type 0} (key : Bytes) (f : TokenAccess A) (s : Storage) (a : A) (t : Token)
      → IsLoaded key s
      → f (object_at s key) s.backend ≡ ok (a, t)
      → with_token key f s ≡ (ok a, put_contract key (token_contract t) s)
  unfolding with_token object_at
  with_token_lem key f s a t (o, h) e = rw (h, rw h at e) refl

  access-same :
      {A : Type 0} (key : Bytes) (f : TokenAccess A) (s : Storage) (a : A)
      → IsLoaded key s
      → (t : Token) × (f (object_at s key) s.backend ≡ ok (a, t))
        × Alike s.backend (object_at s key) t
      → (s' : Storage) × (with_token key f s ≡ (ok a, s')) × Changes s s' (balance s) (supply s)
  access-same key f s a ready (t, e, alike) = (
    put_contract key (token_contract t) s,
    with_token_lem key f s a t ready e,
    record {
      balances =
          unfold balance in
          fun_ext (λ other. fun_ext (λ user.
            view-same (λ o. balance_in o s.backend user) s key t (alike.balances user) other));
      supplies =
          unfold supply in fun_ext (view-same (λ o. supply_in o s.backend) s key t alike.supply);
      bases = unfold base_of in fun_ext (view-same (λ o. base_in o s.backend) s key t alike.base);
      curves =
          unfold curve_of in fun_ext (view-same (λ o. curve_in o s.backend) s key t alike.curve);
      backend = refl;
      loaded = put-IsLoaded s key t;
      present = put-IsPresent s key t;
    },
  )

  pub access_balance :
      (s : Storage) (key user : Bytes) (v : ℕ)
      → IsLoaded key s
      → balance s key user ≡ ok v
      → (s' : Storage) × (with_token key (read_balance user) s ≡ (ok v, s'))
        × Changes s s' (balance s) (supply s)
  unfolding balance
  access_balance s key user v ready h =
      access-same key (read_balance user) s v ready
        (read_balance_lem user (object_at s key) s.backend v h)

  pub access_supply :
      (s : Storage) (key : Bytes) (v : ℕ)
      → IsLoaded key s
      → supply s key ≡ ok v
      → (s' : Storage) × (with_token key read_supply s ≡ (ok v, s'))
        × Changes s s' (balance s) (supply s)
  unfolding supply
  access_supply s key v ready h =
      access-same key read_supply s v ready (read_supply_lem (object_at s key) s.backend v h)

  pub access_base :
      (s : Storage) (key v : Bytes)
      → IsLoaded key s
      → base_of s key ≡ ok v
      → (s' : Storage) × (with_token key read_base s ≡ (ok v, s'))
        × Changes s s' (balance s) (supply s)
  unfolding base_of
  access_base s key v ready h =
      access-same key read_base s v ready (read_base_lem (object_at s key) s.backend v h)

  pub access_curve :
      (s : Storage) (key : Bytes) (e : Eq)
      → IsLoaded key s
      → curve_of s key ≡ ok (some e)
      → (s' : Storage) × (with_token key read_curve_data s ≡ (ok e, s'))
        × Changes s s' (balance s) (supply s)
  unfolding curve_of
  access_curve s key e ready h =
      access-same key read_curve_data s e ready (read_curve_lem (object_at s key) s.backend e h)
