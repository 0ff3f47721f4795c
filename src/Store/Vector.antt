-- ===== src/Store/Vector.antt =====
-- src/store/vector.h: a vector whose elements are kept one by one in the key-value storage.
-- `str`, the decimal digits of Boost's integers, is an argument.
pub mod Reads
pub mod LowerBound
pub mod Reload
use bandchain_legacy.Common.{
  ℕ, zero, suc, ◌+◌, ◌-◌, Bool, true, false, Option, none, some, [], ◌∷◌, ◌++◌, ltb, leb, ◌==◌,
  Indexed, find, emplace, if◌then◌else◌,
}
use bandchain_legacy.Thrown
use bandchain_legacy.Thrown.{Result, ok, err, error, failure, out_of_fuel}
use bandchain_legacy.Uint256.{CheckedUint}
use bandchain_legacy.Buffer.{Bytes}
use bandchain_legacy.Store.Backend.{StorageMap, get, put, del}
use bandchain_legacy.Store.Data.{Stored}
use bandchain_legacy.Ledger.Action.{Action, ◌>>=◌, ◌>>◌, pure, lift, throw, modify, continue_with}
use bandchain_legacy.Ledger.Contracts.{uint256_stored}

pub record Vector (A : Type 0) : Type 0 where
  pub base_key : Bytes
  pub size : ℕ
  pub cache : Indexed A
  pub is_destroyed : Bool

module _ {A : Type 0} where
  unfoldable pub destroy : Action (Vector A) (Unit {0})
  destroy = modify (λ v. record v { is_destroyed = true })

  unfoldable pub put_cache : ℕ → A → Vector A → Vector A
  put_cache idx value v = record v { cache = emplace idx value v.cache }

module _ ⦃u : CheckedUint⦄ {A : Type 0} where
  -- `Vector(storage, key)`
  unfoldable pub new : Bytes → StorageMap → Result (Vector A)
  new key m = Thrown.◌>>=◌ (get key m) λ result.
      Thrown.◌>>=◌ (elim result [ none ↦ ok 0 | some raw ↦ uint256_stored.from_raw raw ])
        λ n. ok (record { base_key = key; size = n; cache = []; is_destroyed = false })

  -- `pushBack`
  unfoldable pub push_back : A → Action (Vector A) (Unit {0})
  unfolding put_cache
  push_back value v =
      if v.is_destroyed
      then (err error, v)
      else continue_with (λ n. modify (λ w. record w { size = n })) (u.add v.size 1)
          (put_cache v.size value v)

module _ ⦃u : CheckedUint⦄ {A : Type 0} (st : Stored A) (str : ℕ → Bytes) where
  -- The value that the storage has for an index.
  unfoldable pub read_stored : StorageMap → Bytes → ℕ → Result A
  read_stored m key idx =
      Thrown.◌>>=◌ (get (key ++ str idx) m)
        λ result. elim result [ none ↦ err failure | some raw ↦ st.from_raw raw ]

  -- What `operator[]` does at an index whose value is not in the cache.
  unfoldable pub at_storage : StorageMap → ℕ → Action (Vector A) A
  unfolding put_cache read_stored
  at_storage m idx v = elim (read_stored m v.base_key idx) [
    | err e ↦ (err e, v)
    | ok value ↦ (ok value, put_cache idx value v)
  ]

  -- `operator[]`
  unfoldable pub at : StorageMap → ℕ → Action (Vector A) A
  unfolding at_storage
  at m idx v =
      if v.is_destroyed
      then (err error, v)
      else if leb v.size idx
      then (err error, v)
      else elim (find idx v.cache) [ some value ↦ (ok value, v) | none ↦ at_storage m idx v ]

  unfoldable pub back : StorageMap → Action (Vector A) A
  unfolding at
  back m v = if v.size == 0 then (err error, v) else continue_with (λ i. at m i) (u.sub v.size 1) v

  module _ (at_least : A → A → Bool) (m : StorageMap) (value : A) where
    -- The loop of `lowerBoundIndex` between `st` and `ed`; `at_least` is `>=`.
    unfoldable pub lower_bound_loop : ℕ → ℕ → ℕ → Action (Vector A) ℕ
    unfolding at
    lower_bound_loop zero low high v = (err out_of_fuel, v)
    lower_bound_loop (suc fuel) low high v = elim (ltb low high) [
      | false ↦ (ok low, v)
      | true ↦
          (lift (u.add low high) >>= λ sum. lift (u.div sum 2) >>= λ mid. at m mid >>= λ x w.
          elim (at_least x value) [
            | true ↦ lower_bound_loop fuel low mid w
            | false ↦ (lift (u.add mid 1) >>= λ low'. lower_bound_loop fuel low' high) w
          ])
            v
    ]

    -- `lowerBoundIndex`: the range shrinks in every round.
    unfoldable pub lower_bound_index : Action (Vector A) ℕ
    unfolding lower_bound_loop
    lower_bound_index v = lower_bound_loop (suc v.size) 0 v.size v

  -- The writes of the destructor while the storage is flushing.
  unfoldable pub del_each : Bytes → ℕ → ℕ → StorageMap → Result StorageMap
  del_each key zero i m = ok m
  del_each key (suc n) i m = Thrown.◌>>=◌ (del (key ++ str i) m) (del_each key n (i + 1))

  unfoldable pub put_each : Bytes → Indexed A → StorageMap → Result StorageMap
  put_each key [] m = ok m
  put_each key ((i, value) ∷ rest) m =
      Thrown.◌>>=◌ (st.to_raw value)
        λ raw. Thrown.◌>>=◌ (put (key ++ str i) raw m) (put_each key rest)

  -- `~Vector`
  unfoldable pub flush : Vector A → StorageMap → Result StorageMap
  unfolding del_each put_each
  flush v m =
      if v.is_destroyed
      then Thrown.◌>>=◌ (del v.base_key m) (del_each v.base_key v.size 0)
      else Thrown.◌>>=◌ (uint256_stored.to_raw v.size)
          λ raw. Thrown.◌>>=◌ (put v.base_key raw m) (put_each v.base_key v.cache)
