-- ===== src/Ledger/Views/Cells.antt =====
-- What the fields of one token read as, and how an access to one of them leaves the others.
use bandchain_legacy.Common.{
  ℕ, ◌≡◌, refl, none, some, lookup-insert, eq_bytes, eq_bytes_iff, arith, if◌then◌else◌, Bool-cases,
  inl, inr, ◌∙◌,
}
use bandchain_legacy.Thrown.{Result, ok, err, undefined}
use bandchain_legacy.Uint256.{CheckedUint}
use bandchain_legacy.Buffer.{Bytes}
use bandchain_legacy.Equation.{Eq, Curve}
use bandchain_legacy.Equation.RoundTrip.{clone_lem}
use bandchain_legacy.Store.Backend.{StorageMap}
use bandchain_legacy.Store.Data
use bandchain_legacy.Store.Data.{Data, Stored}
use bandchain_legacy.Store.Cells.{read-assign, read-read}
use bandchain_legacy.Ledger.Contracts.{Token, uint256_stored, ident_stored, curve_stored}
use bandchain_legacy.Ledger.Fields.{
  balance_cell, put_balance, copy_curve, read_balance, assign_balance, read_supply, assign_supply,
  read_base, read_curve_data,
}

abbrev pub value_of : {A B : Type 0} → Result (A × B) → Result A
value_of (ok p) = ok p.0
value_of (err e) = err e

value_of-eq-ok :
    {A B : Type 0} (r : Result (A × B)) (v : A) → value_of r ≡ ok v → (b : B) × (r ≡ ok (v, b))
value_of-eq-ok (ok (a, b)) v h = (b, cc)
value_of-eq-ok (err e) v h = cc

-- Reading a cell a second time gives its value again.
value-read :
    {A : Type 0} (st : Stored A) (d d' : Data A) (m : StorageMap) (v : A)
    → Data.read st d m ≡ ok (v, d')
    → value_of (Data.read st d' m) ≡ value_of (Data.read st d m)
value-read st d d' m v h = rw (h, read-read st d d' m m v h)

module _ ⦃u : CheckedUint⦄ where
  unfoldable pub balance_in : Token → StorageMap → Bytes → Result ℕ
  balance_in t m user = value_of (Data.read uint256_stored (balance_cell user t) m)

  unfoldable pub supply_in : Token → StorageMap → Result ℕ
  supply_in t m = value_of (Data.read uint256_stored t.current_supply m)

  unfoldable pub base_in : Token → StorageMap → Result Bytes
  base_in t m = value_of (Data.read ident_stored t.base_ident m)

  unfoldable pub curve_in : Token → StorageMap → Result Curve
  curve_in t m = value_of (Data.read curve_stored t.curve_data m)

  balance_cell-put :
      (user other : Bytes) (t : Token) (d : Data ℕ)
      → balance_cell other (put_balance user t d)
        ≡ (if eq_bytes user other then d else balance_cell other t)
  unfolding balance_cell put_balance
  balance_cell-put user other t d = ground (arith, lookup-insert user other d t.balances)

  -- Two tokens whose fields read alike.
  pub record Alike (m : StorageMap) (t t' : Token) : Type 0 where
    pub balances : (user : Bytes) → balance_in t' m user ≡ balance_in t m user
    pub supply : supply_in t' m ≡ supply_in t m
    pub base : base_in t' m ≡ base_in t m
    pub curve : curve_in t' m ≡ curve_in t m

  balance_in-put :
      (user other : Bytes) (t : Token) (m : StorageMap) (d : Data ℕ)
      → balance_in (put_balance user t d) m other ≡ (
          if eq_bytes user other
          then value_of (Data.read uint256_stored d m)
          else balance_in t m other)
  unfolding balance_in
  balance_in-put user other t m d =
      rw (balance_cell-put user other t d)
        (elim (Bool-cases (eq_bytes user other)) [ inl e ↦ rw e refl | inr e ↦ rw e refl ])

  -- Reading a balance returns what it reads as.
  pub read_balance_lem :
      (user : Bytes) (t : Token) (m : StorageMap) (v : ℕ)
      → balance_in t m user ≡ ok v
      → (t' : Token) × (read_balance user t m ≡ ok (v, t')) × Alike m t t'
  unfolding read_balance
  read_balance_lem user t m v h =
      let (d, e) =
        value_of-eq-ok (Data.read uint256_stored (balance_cell user t) m) v
          (unfold balance_in in h) in
      (
        put_balance user t d,
        rw e refl,
        record {
          balances = λ other. balance_in-put user other t m d ∙ same d e other;
          supply = unfold supply_in put_balance in refl;
          base = unfold base_in put_balance in refl;
          curve = unfold curve_in put_balance in refl;
        },
      )
    where
      same :
          (d : Data ℕ)
          → Data.read uint256_stored (balance_cell user t) m ≡ ok (v, d)
          → (other : Bytes)
          → (if eq_bytes user other
              then value_of (Data.read uint256_stored d m)
              else balance_in t m other)
            ≡ balance_in t m other
      same d e other = elim (Bool-cases (eq_bytes user other)) [
        | inl q ↦
            rw (q, ← (eq_bytes_iff user other).0 q)
              (value-read uint256_stored _ d m v e ∙ unfold balance_in in refl)
        | inr q ↦ rw q refl
      ]

  -- Assigning a balance changes what it reads as, and nothing else.
  pub assign_balance_lem :
      (user : Bytes) (t : Token) (m : StorageMap) (v : ℕ)
      → (t' : Token) × (assign_balance user v t m ≡ ok (tt, t'))
        × ((other : Bytes)
            → balance_in t' m other ≡ (if eq_bytes user other then ok v else balance_in t m other))
        × (supply_in t' m ≡ supply_in t m)
        × (base_in t' m ≡ base_in t m)
        × (curve_in t' m ≡ curve_in t m)
  unfolding assign_balance
  assign_balance_lem user t m v =
      let d = Data.assign v (balance_cell user t) in
      (
        put_balance user t d,
        refl,
        λ other.
            balance_in-put user other t m d
            ∙ rw (read-assign uint256_stored v (balance_cell user t) m) refl,
        unfold supply_in put_balance in refl,
        unfold base_in put_balance in refl,
        unfold curve_in put_balance in refl,
      )

  pub read_supply_lem :
      (t : Token) (m : StorageMap) (v : ℕ)
      → supply_in t m ≡ ok v
      → (t' : Token) × (read_supply t m ≡ ok (v, t')) × Alike m t t'
  unfolding read_supply
  read_supply_lem t m v h =
      let (d, e) =
        value_of-eq-ok (Data.read uint256_stored t.current_supply m) v (unfold supply_in in h) in
      (
        record t { current_supply = d },
        rw e refl,
        record {
          balances = λ other. unfold balance_in balance_cell in refl;
          supply = unfold supply_in in value-read uint256_stored _ d m v e;
          base = unfold base_in in refl;
          curve = unfold curve_in in refl;
        },
      )

  pub assign_supply_lem :
      (t : Token) (m : StorageMap) (v : ℕ)
      → (t' : Token) × (assign_supply v t m ≡ ok (tt, t'))
        × ((other : Bytes) → balance_in t' m other ≡ balance_in t m other)
        × (supply_in t' m ≡ ok v)
        × (base_in t' m ≡ base_in t m)
        × (curve_in t' m ≡ curve_in t m)
  unfolding assign_supply
  assign_supply_lem t m v = (
    record t { current_supply = Data.assign v t.current_supply },
    refl,
    λ other. unfold balance_in balance_cell in refl,
    unfold supply_in in rw (read-assign uint256_stored v t.current_supply m) refl,
    unfold base_in in refl,
    unfold curve_in in refl,
  )

  pub read_base_lem :
      (t : Token) (m : StorageMap) (v : Bytes)
      → base_in t m ≡ ok v
      → (t' : Token) × (read_base t m ≡ ok (v, t')) × Alike m t t'
  unfolding read_base
  read_base_lem t m v h =
      let (d, e) = value_of-eq-ok (Data.read ident_stored t.base_ident m) v (unfold base_in in h) in
      (
        record t { base_ident = d },
        rw e refl,
        record {
          balances = λ other. unfold balance_in balance_cell in refl;
          supply = unfold supply_in in refl;
          base = unfold base_in in value-read ident_stored _ d m v e;
          curve = unfold curve_in in refl;
        },
      )

  pub read_curve_lem :
      (t : Token) (m : StorageMap) (e : Eq)
      → curve_in t m ≡ ok (some e)
      → (t' : Token) × (read_curve_data t m ≡ ok (e, t')) × Alike m t t'
  unfolding read_curve_data copy_curve
  read_curve_lem t m v h =
      let (d, e) =
        value_of-eq-ok (Data.read curve_stored t.curve_data m) (some v) (unfold curve_in in h) in
      (
        record t { curve_data = d },
        rw (e, clone_lem v) refl,
        record {
          balances = λ other. unfold balance_in balance_cell in refl;
          supply = unfold supply_in in refl;
          base = unfold base_in in refl;
          curve = unfold curve_in in value-read curve_stored _ d m (some v) e;
        },
      )

  -- A token that was never given a curve: the copy of the empty one is undefined.
  pub read_curve_missing :
      (t : Token) (m : StorageMap) → curve_in t m ≡ ok none → read_curve_data t m ≡ err undefined
  unfolding read_curve_data copy_curve
  read_curve_missing t m h =
      let (d, e) =
        value_of-eq-ok (Data.read curve_stored t.curve_data m) none (unfold curve_in in h) in
      rw e refl
