-- ===== src/Ledger/Views/Assigns.antt =====
-- What assigning a field, and loading a contract, make of what the tokens read as.
use mathlib.Core.Path.{fun_ext}
use bandchain_legacy.Common.{
  ℕ, ◌≡◌, refl, ap, ◌∙◌, ◌++◌, lookup-insert, eq_bytes, eq_bytes_iff, eq_bytes_self, if◌then◌else◌,
  Bool-cases, inl, inr,
}
use bandchain_legacy.Thrown.{ok}
use bandchain_legacy.Uint256.{CheckedUint}
use bandchain_legacy.Buffer.{Bytes}
use bandchain_legacy.Ledger.Contracts.{
  Token, token_contract, token_kind, key_prefix, new_contract, new_token,
}
use bandchain_legacy.Ledger.Storage.{Storage, as_kind, load}
use bandchain_legacy.Ledger.Fields.{put_contract, with_token, assign_balance, assign_supply}
use bandchain_legacy.Ledger.Views.Cells.{
  balance_in, supply_in, base_in, curve_in, assign_balance_lem, assign_supply_lem,
}
use bandchain_legacy.Ledger.Views.Accesses.{
  object_at, IsLoaded, IsPresent, balance, supply, base_of, curve_of, Changes, set_balance_at,
  set_supply_at, put-IsLoaded, put-IsPresent, view-same, view-put, with_token_lem,
}

module _ ⦃u : CheckedUint⦄ where
  balance-put :
      (s : Storage) (key user : Bytes) (v : ℕ) (t : Token)
      → ((who : Bytes)
          → balance_in t s.backend who
            ≡ (if eq_bytes user who then ok v else balance_in (object_at s key) s.backend who))
      → (other who : Bytes)
      → balance (put_contract key (token_contract t) s) other who
        ≡ set_balance_at (balance s) key user v other who
  unfolding balance
  balance-put s key user v t bals other who =
      view-put (λ o. balance_in o s.backend who) s key t other
      ∙ elim (Bool-cases (eq_bytes key other)) [
        | inl q ↦ rw (q, ← (eq_bytes_iff key other).0 q) (bals who)
        | inr q ↦ rw q refl
      ]

  pub access_assign_balance :
      (s : Storage) (key user : Bytes) (v : ℕ)
      → IsLoaded key s
      → (s' : Storage) × (with_token key (assign_balance user v) s ≡ (ok tt, s'))
        × Changes s s' (set_balance_at (balance s) key user v) (supply s)
  access_assign_balance s key user v ready =
      let (t, e, bals, sup, bas, cur) = assign_balance_lem user (object_at s key) s.backend v in
      (
        put_contract key (token_contract t) s,
        with_token_lem key (assign_balance user v) s tt t ready e,
        record {
          balances = fun_ext (λ other. fun_ext (λ who. balance-put s key user v t bals other who));
          supplies = unfold supply in fun_ext (view-same (λ o. supply_in o s.backend) s key t sup);
          bases = unfold base_of in fun_ext (view-same (λ o. base_in o s.backend) s key t bas);
          curves = unfold curve_of in fun_ext (view-same (λ o. curve_in o s.backend) s key t cur);
          backend = refl;
          loaded = put-IsLoaded s key t;
          present = put-IsPresent s key t;
        },
      )

  pub access_assign_supply :
      (s : Storage) (key : Bytes) (v : ℕ)
      → IsLoaded key s
      → (s' : Storage) × (with_token key (assign_supply v) s ≡ (ok tt, s'))
        × Changes s s' (balance s) (set_supply_at (supply s) key v)
  access_assign_supply s key v ready =
      let (t, e, bals, sup, bas, cur) = assign_supply_lem (object_at s key) s.backend v in
      (
        put_contract key (token_contract t) s,
        with_token_lem key (assign_supply v) s tt t ready e,
        record {
          balances =
              unfold balance in
              fun_ext (λ other.
                fun_ext
                  (λ user. view-same (λ o. balance_in o s.backend user) s key t (bals user) other));
          supplies = fun_ext (λ other.
              unfold supply in
              view-put (λ o. supply_in o s.backend) s key t other
              ∙ ap (λ r. if eq_bytes key other then r else supply_in (object_at s other) s.backend)
                  sup);
          bases = unfold base_of in fun_ext (view-same (λ o. base_in o s.backend) s key t bas);
          curves = unfold curve_of in fun_ext (view-same (λ o. curve_in o s.backend) s key t cur);
          backend = refl;
          loaded = put-IsLoaded s key t;
          present = put-IsPresent s key t;
        },
      )

  -- Loading a token that is present changes nothing that is read.
  pub load_present :
      (s : Storage) (id : Bytes)
      → IsPresent (key_prefix token_kind ++ id) s
      → (s' : Storage) × (load token_kind id s ≡ (ok (key_prefix token_kind ++ id), s'))
        × Changes s s' (balance s) (supply s)
        × IsLoaded (key_prefix token_kind ++ id) s'
  unfolding load as_kind new_contract
  load_present s id (inl (t, h)) = (
    s,
    rw h refl,
    record {
      balances = refl;
      supplies = refl;
      bases = refl;
      curves = refl;
      backend = refl;
      loaded = λ k l. l;
      present = λ k p. p;
    },
    (t, h),
  )
  load_present s id (inr (h, stored)) =
      let key = key_prefix token_kind ++ id in
      let t = new_token key in
      let fresh : t ≡ object_at s key = unfold object_at in rw h refl in
      (
        put_contract key (token_contract t) s,
        rw (h, stored, eq_bytes_self key) refl,
        record {
          balances =
              unfold balance in
              fun_ext (λ other. fun_ext (λ user.
                view-same (λ o. balance_in o s.backend user) s key t
                  (ap (λ o. balance_in o s.backend user) fresh) other));
          supplies =
              unfold supply in
              fun_ext (
                view-same (λ o. supply_in o s.backend) s key t
                  (ap (λ o. supply_in o s.backend) fresh));
          bases =
              unfold base_of in
              fun_ext (
                view-same (λ o. base_in o s.backend) s key t (ap (λ o. base_in o s.backend) fresh));
          curves =
              unfold curve_of in
              fun_ext (
                view-same (λ o. curve_in o s.backend) s key t
                  (ap (λ o. curve_in o s.backend) fresh));
          backend = refl;
          loaded = put-IsLoaded s key t;
          present = put-IsPresent s key t;
        },
        (t, lookup-insert key key (token_contract t) s.contracts ∙ rw (eq_bytes_self key) refl),
      )
