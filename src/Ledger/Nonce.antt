-- ===== src/Ledger/Nonce.antt =====
-- `Account::setNonce` of src/contract/account.cc, against transactions that are sent again.
use bandchain_legacy.Common.{
  ℕ, ◌≤◌, ◌<◌, ◌≡◌, ◌⊎◌, refl, ap, ◌∙◌, Option, none, some, true, false, ◌≢◌, inl, inr, lookup,
  insert, lookup-insert, eq_bytes, eq_bytes_iff, eq_bytes_self, leb, arith,
}
use bandchain_legacy.Thrown.{Thrown, Result, ok, err, error, Result-cases}
use bandchain_legacy.Uint256.{CheckedUint}
use bandchain_legacy.Buffer.{Bytes}
use bandchain_legacy.Store.Backend.{StorageMap}
use bandchain_legacy.Store.Data
use bandchain_legacy.Store.Data.{Data}
use bandchain_legacy.Store.Cells.{read-assign, read-read}
use bandchain_legacy.Ledger.Contracts.{
  Account, Contract, account_contract, token_contract, uint256_stored,
}
use bandchain_legacy.Ledger.Storage.{Storage}
use bandchain_legacy.Ledger.Fields.{
  with_account, read_nonce, assign_nonce, put_contract, account_access,
}
use bandchain_legacy.Ledger.Account.{set_nonce}

le→leb : (a b : ℕ) → a ≤ b → leb a b ≡ true
le→leb a b h = ground arith

lt→leb : (a b : ℕ) → a < b → leb b a ≡ false
lt→leb a b h = ground arith

different_keys : (xs ys : Bytes) → xs ≢ ys → eq_bytes xs ys ≡ false
different_keys xs ys h = ground (arith, eq_bytes_iff xs ys)

leb_cases : (a b : ℕ) → (a ≤ b) ⊎ (b < a)
leb_cases a b = omega arith

module _ ⦃u : CheckedUint⦄ where
  -- What the nonce of a loaded account reads as.
  unfoldable pub nonce_of : Storage → Bytes → Result ℕ
  nonce_of s key = (with_account key read_nonce s).0

  -- An access that reads the nonce leaves an account whose nonce is in its cache.
  loaded_nonce :
      (s : Storage) (key : Bytes) (old : ℕ) (o : Option Contract)
      → (account_access key read_nonce s o).0 ≡ ok old
      → (a : Account) × (account_access key read_nonce s o
          ≡ (ok old, put_contract key (account_contract a) s))
        × ((m : StorageMap) → read_nonce a m ≡ ok (old, a))
  unfolding read_nonce
  loaded_nonce s key old none h = ground arith
  loaded_nonce s key old (some (token_contract t)) h = ground arith
  loaded_nonce s key old (some (account_contract a)) h =
      elim (Result-cases (Data.read uint256_stored a.nonce s.backend)) [
        | inr (e, q) ↦ absurd (err≢ok (rw q at h))
        | inl (p, q) ↦
            let v_eq = ok-inj (rw q at h) in
            (
              record a { nonce = p.1 },
              rw (q, v_eq) refl,
              λ m. rw (read-read uint256_stored a.nonce p.1 s.backend m p.0 q, v_eq) refl,
            )
      ]
    where
      ok-inj : {x y : ℕ} → ◌≡◌ {A = Result ℕ} (ok x) (ok y) → x ≡ y
      ok-inj q = cc

      err≢ok : {x : Thrown} {y : ℕ} → ◌≢◌ {A = Result ℕ} (err x) (ok y)
      err≢ok q = cc

  put_nonce_of :
      (s : Storage) (key : Bytes) (a : Account) (v : ℕ)
      → ((m : StorageMap) → read_nonce a m ≡ ok (v, a))
      → nonce_of (put_contract key (account_contract a) s) key ≡ ok v
  unfolding nonce_of with_account
  put_nonce_of s key a v again =
      ap
        (λ (o : Option Contract).
          (account_access key read_nonce (put_contract key (account_contract a) s) o).0)
        found
      ∙ rw (again s.backend) refl
    where
      found : lookup key (insert key (account_contract a) s.contracts) ≡ some (account_contract a)
      found = lookup-insert key key (account_contract a) s.contracts ∙ rw (eq_bytes_self key) refl

  read_new :
      (a : Account) (v : ℕ) (m : StorageMap)
      → read_nonce (record a { nonce = Data.assign v a.nonce }) m
        ≡ ok (v, record a { nonce = Data.assign v a.nonce })
  unfolding read_nonce
  read_new a v m = rw (read-assign uint256_stored v a.nonce m) refl

  -- A nonce that is not larger than the one that the account reads is an Error, and the account
  -- still reads the old one.
  pub set_nonce_refused :
      (s : Storage) (key : Bytes) (old new : ℕ)
      → nonce_of s key ≡ ok old
      → new ≤ old
      → ((set_nonce key new s).0 ≡ err error) × (nonce_of (set_nonce key new s).1 key ≡ ok old)
  unfolding set_nonce nonce_of with_account
  set_nonce_refused s key old new h le =
      let (a, e, again) = loaded_nonce s key old (lookup key s.contracts) h in
      let test = le→leb new old le in
      (rw (e, test) refl, rw (e, test) (put_nonce_of s key a old again))

  -- A nonce larger than the one that the account reads is accepted, and is what the account then
  -- reads.
  pub set_nonce_accepted :
      (s : Storage) (key : Bytes) (old new : ℕ)
      → nonce_of s key ≡ ok old
      → old < new
      → ((set_nonce key new s).0 ≡ ok tt) × (nonce_of (set_nonce key new s).1 key ≡ ok new)
  unfolding set_nonce nonce_of with_account assign_nonce
  set_nonce_accepted s key old new h less =
      let (a, e, again) = loaded_nonce s key old (lookup key s.contracts) h in
      let s1 = put_contract key (account_contract a) s in
      let a' = record a { nonce = Data.assign new a.nonce } in
      let found = lookup-insert key key (account_contract a) s.contracts in
      let test = lt→leb old new less in
      (
        rw (e, test, found, eq_bytes_self key) refl,
        rw (e, test, found, eq_bytes_self key) (put_nonce_of s1 key a' new (read_new a new)),
      )

  set_nonce_others :
      (s : Storage) (key other : Bytes) (old new : ℕ)
      → nonce_of s key ≡ ok old
      → key ≢ other
      → (lookup other (set_nonce key new s).1.contracts ≡ lookup other s.contracts)
        × ((set_nonce key new s).1.backend ≡ s.backend)
  unfolding set_nonce nonce_of with_account assign_nonce
  set_nonce_others s key other old new h differ =
      let (a, e, again) = loaded_nonce s key old (lookup key s.contracts) h in
      let s1 = put_contract key (account_contract a) s in
      let a' = record a { nonce = Data.assign new a.nonce } in
      let found = lookup-insert key key (account_contract a) s.contracts in
      let other_key = different_keys key other differ in
      let once = lookup-insert key other (account_contract a) s.contracts in
      elim (leb_cases new old) [
        | inl le ↦
            (rw (e, le→leb new old le) (once ∙ rw other_key refl), rw (e, le→leb new old le) refl)
        | inr less ↦
            let test = lt→leb old new less in
            let twice = lookup-insert key other (account_contract a') s1.contracts in
            (
              rw (e, test, found, eq_bytes_self key)
                  (twice ∙ rw other_key (once ∙ rw other_key refl)),
              rw (e, test, found, eq_bytes_self key) refl,
            )
      ]

  -- On a loaded account whose nonce can be read, a new nonce that is not larger is an Error, and
  -- the account still reads the old one; any larger one is accepted, also one that is not 1 + the
  -- old one, which the comment in src/contract/account.h asks for, and is what the account then
  -- reads. Either way a contract under another key is as it was, and so is the key-value storage.
  pub set_nonce_lem :
      (s : Storage) (key other : Bytes) (old new : ℕ)
      → nonce_of s key ≡ ok old
      → key ≢ other
      → (((new ≤ old)
            × ((set_nonce key new s).0 ≡ err error)
            × (nonce_of (set_nonce key new s).1 key ≡ ok old))
          ⊎ ((old < new)
              × ((set_nonce key new s).0 ≡ ok tt)
              × (nonce_of (set_nonce key new s).1 key ≡ ok new)))
        × (lookup other (set_nonce key new s).1.contracts ≡ lookup other s.contracts)
        × ((set_nonce key new s).1.backend ≡ s.backend)
  set_nonce_lem s key other old new h differ =
      let (same_others, same_backend) = set_nonce_others s key other old new h differ in
      let refused = λ (le : new ≤ old). set_nonce_refused s key old new h le in
      let accepted = λ (less : old < new). set_nonce_accepted s key old new h less in
      (
        elim (leb_cases new old) [
          | inl le ↦ inl (le, (refused le).0, (refused le).1)
          | inr less ↦ inr (less, (accepted less).0, (accepted less).1)
        ],
        same_others,
        same_backend,
      )

  -- A nonce that was accepted is never accepted again, nor is a smaller one.
  pub set_nonce_once :
      (s : Storage) (key : Bytes) (old new again : ℕ)
      → nonce_of s key ≡ ok old
      → old < new
      → again ≤ new
      → (set_nonce key again (set_nonce key new s).1).0 ≡ err error
  set_nonce_once s key old new again h less le =
      (set_nonce_refused (set_nonce key new s).1 key new again
        (set_nonce_accepted s key old new h less).1 le).0

  -- An accepted nonce is in the account's cache: it is read whatever the key-value storage holds.
  pub set_nonce_cached :
      (s : Storage) (key : Bytes) (old new : ℕ) (b : StorageMap)
      → nonce_of s key ≡ ok old
      → old < new
      → nonce_of (record (set_nonce key new s).1 { backend = b }) key ≡ ok new
  unfolding set_nonce nonce_of with_account assign_nonce
  set_nonce_cached s key old new b h less =
      let (a, e, again) = loaded_nonce s key old (lookup key s.contracts) h in
      let s1 = record (put_contract key (account_contract a) s) { backend = b } in
      let a' = record a { nonce = Data.assign new a.nonce } in
      let found = lookup-insert key key (account_contract a) s.contracts in
      rw (e, lt→leb old new less, found, eq_bytes_self key)
        (put_nonce_of s1 key a' new (read_new a new))

  -- An account whose nonce can be read is loaded.
  pub nonce_of-loaded :
      (s : Storage) (key : Bytes) (v : ℕ)
      → nonce_of s key ≡ ok v
      → (a : Account) × (lookup key s.contracts ≡ some (account_contract a))
  unfolding nonce_of with_account
  nonce_of-loaded s key v h = go (lookup key s.contracts) h
    where
      go :
          (o : Option Contract)
          → (account_access key read_nonce s o).0 ≡ ok v
          → (a : Account) × (o ≡ some (account_contract a))
      go none q = ground arith
      go (some (token_contract t)) q = ground arith
      go (some (account_contract a)) q = (a, refl)
