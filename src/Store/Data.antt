-- ===== src/Store/Data.antt =====
-- src/store/data.h: a value of one type under one key, read on demand and written when flushed.
use bandchain_legacy.Common.{Bool, true, false, Option, none, some}
use bandchain_legacy.Thrown.{Result, ok, err, error, undefined, ◌>>=◌}
use bandchain_legacy.Buffer.{Bytes}
use bandchain_legacy.Store.Backend.{StorageMap, get, put, del}

pub data DataCacheStatus : Type 0 where
  unchanged changed erased : DataCacheStatus

pub record Data (A : Type 0) : Type 0 where
  pub key : Bytes
  pub status : DataCacheStatus
  pub cache : Option A

-- How a type is stored: `Buffer::serialize`, which may throw, `Buffer::deserialize`, and `T{}`.
pub record Stored (A : Type 0) : Type 0 where
  pub to_raw : A → Result Bytes
  pub from_raw : Bytes → Result A
  pub initial : A

module _ {A : Type 0} where
  -- `Data(storage, key)`
  unfoldable pub new : Bytes → Data A
  new key = record { key = key; status = unchanged; cache = none }

  -- What `storage.get(key)` found, as a value.
  unfoldable pub found : Stored A → Option Bytes → Result A
  found st none = ok st.initial
  found st (some raw) = st.from_raw raw

  unfoldable pub fetch : Stored A → Data A → Option A → StorageMap → Result (A × Data A)
  unfolding found
  fetch st d (some v) m = ok (v, d)
  fetch st d none m = do
    result ← get d.key m
    v ← found st result
    ok (v, record d { cache = some v })

  unfoldable pub read_status :
      Stored A → DataCacheStatus → Data A → StorageMap → Result (A × Data A)
  unfolding fetch
  read_status st erased d m = err error
  read_status st unchanged d m = fetch st d d.cache m
  read_status st changed d m = fetch st d d.cache m

  -- `operator+`, at a type that is no enum.
  unfoldable pub read : Stored A → Data A → StorageMap → Result (A × Data A)
  unfolding read_status
  read st d m = read_status st d.status d m

  unfoldable pub exist_status : DataCacheStatus → Option A → Result (Option Bytes) → Result Bool
  exist_status erased cache stored = ok false
  exist_status _ (some v) stored = ok true
  exist_status _ none (err e) = err e
  exist_status _ none (ok none) = ok false
  exist_status _ none (ok (some raw)) = ok true

  unfoldable pub exist : Data A → StorageMap → Result Bool
  unfolding exist_status
  exist d m = exist_status d.status d.cache (get d.key m)

  -- `operator=`
  unfoldable pub assign : A → Data A → Data A
  assign v d = record d { cache = some v; status = changed }

  -- `erase`
  unfoldable pub forget : Data A → Data A
  forget d = record d { cache = none; status = erased }

  unfoldable pub flush_status : Stored A → DataCacheStatus → Data A → StorageMap → Result StorageMap
  flush_status st unchanged d m = ok m
  flush_status st erased d m = del d.key m
  flush_status st changed d m = elim d.cache [
    | none ↦ err undefined
    | some v ↦ do raw ← st.to_raw v; put d.key raw m
  ]

  -- The destructor, while the storage is flushing.
  unfoldable pub flush : Stored A → Data A → StorageMap → Result StorageMap
  unfolding flush_status
  flush st d m = flush_status st d.status d m
