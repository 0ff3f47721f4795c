-- ===== src/Listener/Atomic.antt =====
-- What `PrimaryListener::process` leaves in the storage, when it returns and when it throws.
use bandchain_legacy.Common.{◌≡◌, ◌≢◌, ◌⊎◌, arith, refl, ◌∙◌, ap, Bool, true, false, [], inl, inr}
use bandchain_legacy.Thrown.{Thrown, Result, ok, err, terminated, Result-cases}
use bandchain_legacy.Uint256.{CheckedUint}
use bandchain_legacy.Store.Backend
use bandchain_legacy.Store.Backend.{StorageMap}
use bandchain_legacy.Ledger.Action.{Action, ◌>>◌, pure, continue_with}
use bandchain_legacy.Ledger.Contracts.{token_kind}
use bandchain_legacy.Ledger.Storage
use bandchain_legacy.Ledger.Storage.{
  Storage, from_store, from_cache, get_contract, load, as_kind, add_contract, flush_contracts,
}
use bandchain_legacy.Ledger.Token
use bandchain_legacy.Messages.{
  HeaderMsg, Msg, create_account, create_token, mint_token, transfer_token, buy_token, sell_token,
  add_wiki_edge, remove_wiki_edge, Response, no_response, traded,
}
use bandchain_legacy.Listener.Primary.{switch_mode, handle, process_body, process}
use bandchain_legacy.Ledger.Keeps.{
  KeepsBackend, keeps->>, keeps->>=, keeps-base, keeps-buy, keeps-load, keeps-mint, keeps-sell,
  keeps-transfer,
}

module _ ⦃u : CheckedUint⦄ where
  -- The messages that create a contract.
  abbrev pub creates : Msg → Bool
  creates (create_account vk user) = true
  creates (create_token base created curve) = true
  creates (mint_token token value) = false
  creates (transfer_token token dest value) = false
  creates (buy_token token value) = false
  creates (sell_token token value) = false
  creates (add_wiki_edge s p o l) = false
  creates (remove_wiki_edge s p o l) = false

  keeps-handle : (hdr : HeaderMsg) (msg : Msg) → creates msg ≡ false → KeepsBackend (handle hdr msg)
  unfolding handle
  keeps-handle hdr (create_account vk user) h = ground arith
  keeps-handle hdr (create_token base created curve) h = ground arith
  keeps-handle hdr (mint_token id v) h =
      keeps->>= (load token_kind id) _ (keeps-load token_kind id) λ key.
        keeps->> (Token.mint key hdr.user v) (pure no_response) (keeps-mint key hdr.user v)
          (λ s. refl)
  keeps-handle hdr (transfer_token id dest v) h =
      keeps->>= (load token_kind id) _ (keeps-load token_kind id) λ key.
        keeps->> (Token.transfer key hdr.user dest v) (pure no_response)
          (keeps-transfer key hdr.user dest v) (λ s. refl)
  keeps-handle hdr (buy_token id v) h =
      keeps->>= (load token_kind id) _ (keeps-load token_kind id) λ key.
        keeps->>= (Token.buy key hdr.user v) _ (keeps-buy key hdr.user v) λ spent.
          keeps->>= (Token.base key) (λ b. pure (traded b spent)) (keeps-base key) λ b s. refl
  keeps-handle hdr (sell_token id v) h =
      keeps->>= (load token_kind id) _ (keeps-load token_kind id) λ key.
        keeps->>= (Token.sell key hdr.user v) _ (keeps-sell key hdr.user v) λ received.
          keeps->>= (Token.base key) (λ b. pure (traded b received)) (keeps-base key) λ b s. refl
  keeps-handle hdr (add_wiki_edge s p o l) h = λ t. refl
  keeps-handle hdr (remove_wiki_edge s p o l) h = λ t. refl

  flush_cases :
      (s : Storage)
      → (Storage.flush s ≡ (err terminated, s))
        ⊎ ((m : StorageMap) × (flush_contracts s.contracts s.backend ≡ ok m)
            × (Storage.flush s ≡ (ok tt, record { backend = Backend.commit m; contracts = [] })))
  unfolding Storage.flush
  flush_cases s = elim (Result-cases (flush_contracts s.contracts s.backend)) [
    | inr (x, q) ↦ inl (rw (q, Storage.flush) refl)
    | inl (m, q) ↦ inr (m, q, rw (q, Storage.flush) refl)
  ]

  -- The end of `process`, from what `handle` returned.
  unfoldable after_handle : Result Response → Action Storage Response
  after_handle r = continue_with (λ v. Storage.flush >> pure v) r

  after_handle_err :
      (r : Result Response) (s : Storage) (e : Thrown)
      → (after_handle r s).0 ≡ err e
      → (after_handle r s).1.backend ≡ s.backend
  unfolding after_handle
  after_handle_err (err x) s e h = refl
  after_handle_err (ok v) s e h = elim (flush_cases s) [
    | inl q ↦ rw q refl
    | inr (m, written, q) ↦ absurd (ok≢err (rw q at h))
  ]
    where
      ok≢err : {x : Response} {y : Thrown} → ◌≢◌ {A = Result Response} (ok x) (err y)
      ok≢err q = cc

  -- A transaction whose message creates no contract and whose processing throws leaves the key-
  -- value storage as it was, switched to the applied side, and leaves no contract loaded.
  pub process-atomic :
      (hdr : HeaderMsg) (msg : Msg) (s : Storage) (e : Thrown)
      → creates msg ≡ false
      → (process hdr msg s).0 ≡ err e
      → (process hdr msg s).1
        ≡ record { backend = Backend.switch_to_apply s.backend; contracts = [] }
  unfolding process process_body switch_mode Storage.reset after_handle
  process-atomic hdr msg s e ordinary h =
      let s0 = record s { backend = Backend.switch_to_apply s.backend } in
      ap (λ (b : StorageMap). record { backend = b; contracts = [] })
        (after_handle_err (handle hdr msg s0).0 (handle hdr msg s0).1 e h
          ∙ keeps-handle hdr msg ordinary s0)
