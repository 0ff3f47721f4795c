-- ===== src/Tests/Cells.antt =====
-- `Data` and the storage in memory, at concrete values.
use bandchain_legacy.Common.{
  ℕ, ◌≡◌, ◌≢◌, refl, [], ◌∷◌, none, some, lookup, insert, erase, eq_bytes,
}
use bandchain_legacy.Thrown.{ok}
use native.Mathlib.Decide.{dec_lt}
use bandchain_legacy.Buffer.{
  Bytes, varint_encode, encode_loop, lt_wf, varint_decode, decode_loop, shift_left, bits_of,
}
use bandchain_legacy.Buffer.Values.{write_int, read_int}
use bandchain_legacy.Store.Backend.{StorageMap, apply_side, get, put, del, switch_to_apply}
use bandchain_legacy.Store.Data.{Data, new, read, assign, forget, flush, unchanged}
use bandchain_legacy.Store.Cells.{flush-assign}
use bandchain_legacy.Ledger.Contracts.{uint256_stored}
use bandchain_legacy.Tests.Boost.{boost}

abbrev key : Bytes
key = 107 ∷ []

-- The key holds 5, and another holds 6.
abbrev stored : StorageMap
stored = record {
  check_cache = [];
  apply_cache = (key, 5 ∷ []) ∷ (1 ∷ [], 6 ∷ []) ∷ [];
  current = some apply_side;
}

abbrev overwritten : StorageMap
overwritten = record stored { apply_cache = (key, 9 ∷ []) ∷ (1 ∷ [], 6 ∷ []) ∷ [] }

abbrev removed : StorageMap
removed = record stored { apply_cache = (1 ∷ [], 6 ∷ []) ∷ [] }

abbrev cell : Data ℕ
cell = record { key = key; status = unchanged; cache = none }

read_five : read (uint256_stored ⦃u = boost⦄) cell stored ≡ ok (5, record cell { cache = some 5 })
unfolding read get lookup eq_bytes uint256_stored read_int varint_decode decode_loop shift_left
    bits_of
read_five = refl

written : (uint256_stored ⦃u = boost⦄).to_raw 9 ≡ ok (9 ∷ [])
unfolding uint256_stored write_int varint_encode encode_loop lt_wf dec_lt
written = refl

back : (uint256_stored ⦃u = boost⦄).from_raw (9 ∷ []) ≡ ok 9
unfolding uint256_stored read_int varint_decode decode_loop shift_left bits_of
back = refl

flushed : flush (uint256_stored ⦃u = boost⦄) (assign 9 cell) stored ≡ ok overwritten
unfolding flush assign put insert eq_bytes
flushed = rw written refl

flush-assign_example :
    (read (uint256_stored ⦃u = boost⦄) (new key) overwritten
      ≡ ok (9, record (new key) { cache = some 9 }))
    × ((k : Bytes) → key ≢ k → get k overwritten ≡ get k stored)
flush-assign_example =
    flush-assign (uint256_stored ⦃u = boost⦄) 9 cell stored overwritten (9 ∷ []) written back
      flushed

forgotten : flush (uint256_stored ⦃u = boost⦄) (forget cell) stored ≡ ok removed
unfolding flush forget del erase eq_bytes
forgotten = refl

put_nine : put key (9 ∷ []) (switch_to_apply stored) ≡ ok overwritten
unfolding put switch_to_apply insert eq_bytes
put_nine = refl
