-- ===== src/Store/Backend.antt =====
-- src/store/storage_map.h and src/store/storage_map.cc: the storage in memory.
use bandchain_legacy.Common.{Option, none, some, Assoc, lookup, insert, erase}
use bandchain_legacy.Thrown.{Result, ok, err, failure}
use bandchain_legacy.Buffer.{Bytes}

pub data Side : Type 0 where
  check_side apply_side : Side

-- `current` says which of the two maps `currentCache` points to; none is the null pointer.
pub record StorageMap : Type 0 where
  pub check_cache : Assoc Bytes
  pub apply_cache : Assoc Bytes
  pub current : Option Side

abbrev pub side_cache : Side → StorageMap → Assoc Bytes
side_cache check_side m = m.check_cache
side_cache apply_side m = m.apply_cache

abbrev pub set_side : Side → Assoc Bytes → StorageMap → StorageMap
set_side check_side c m = record m { check_cache = c }
set_side apply_side c m = record m { apply_cache = c }

abbrev pub on_current : {A : Type 0} → Option Side → (Side → A) → Result A
on_current none f = err failure
on_current (some s) f = ok (f s)

unfoldable pub get : Bytes → StorageMap → Result (Option Bytes)
get key m = on_current m.current (λ s. lookup key (side_cache s m))

unfoldable pub put : Bytes → Bytes → StorageMap → Result StorageMap
put key val m = on_current m.current (λ s. set_side s (insert key val (side_cache s m)) m)

unfoldable pub del : Bytes → StorageMap → Result StorageMap
del key m = on_current m.current (λ s. set_side s (erase key (side_cache s m)) m)

unfoldable pub commit : StorageMap → StorageMap
commit m = record m { check_cache = m.apply_cache; current = none }

unfoldable pub switch_to_check : StorageMap → StorageMap
switch_to_check m = record m { current = some check_side }

unfoldable pub switch_to_apply : StorageMap → StorageMap
switch_to_apply m = record m { current = some apply_side }
