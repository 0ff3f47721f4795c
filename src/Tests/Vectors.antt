-- ===== src/Tests/Vectors.antt =====
-- Vectors in the storage of src/store/vector.h, at concrete values.
use bandchain_legacy.Common.{
  ℕ, zero, suc, ◌≤◌, ◌<◌, ◌≡◌, refl, [], ◌∷◌, some, Bool, true, false, leb, lookup, eq_bytes, find,
  arith,
}
use bandchain_legacy.Thrown.{ok}
use bandchain_legacy.Buffer.{Bytes, varint_decode, decode_loop, shift_left, bits_of}
use bandchain_legacy.Buffer.Values.{read_int}
use bandchain_legacy.Store.Backend.{StorageMap, apply_side, get}
use bandchain_legacy.Ledger.Contracts.{uint256_stored}
use bandchain_legacy.Store.Vector.{
  Vector, push_back, lower_bound_index, at, at_storage, read_stored, put_cache,
}
use bandchain_legacy.Store.Vector.Reads.{value_at, IsTight, push_back_lem}
use bandchain_legacy.Store.Vector.LowerBound.{Holds, Splits, lower_bound_index_lem}
use bandchain_legacy.Store.Naming.{IsUnique, IsNaming}
use bandchain_legacy.Store.Vector.Reload.{flush-new}
use native.Mathlib.Decide.{dec_lt}
use bandchain_legacy.Common.{◌∙◌, ap, sym, insert}
use bandchain_legacy.Buffer.{varint_encode, encode_loop, lt_wf}
use bandchain_legacy.Buffer.Values.{write_int}
use bandchain_legacy.Store.Backend.{put}
use bandchain_legacy.Store.Vector.{new, flush, put_each}
use bandchain_legacy.Tests.Boost.{boost}

-- The index as one byte.
abbrev index_byte : ℕ → Bytes
index_byte i = i ∷ []

-- The vector of 3 and 5, the first in the storage and the second in the cache.
abbrev vector_storage : StorageMap
vector_storage = record {
  check_cache = [];
  apply_cache = (118 ∷ 0 ∷ [], 3 ∷ []) ∷ [];
  current = some apply_side;
}

abbrev three_five : Vector ℕ
three_five = record { base_key = 118 ∷ []; size = 2; cache = (1, 5) ∷ []; is_destroyed = false }

abbrev elements : ℕ → ℕ
elements zero = 3
elements (suc i) = 5

abbrev ge : ℕ → ℕ → Bool
ge a b = leb b a

reads_elements :
    (i : ℕ)
    → i < 2
    → value_at ⦃u = boost⦄ (uint256_stored ⦃u = boost⦄) index_byte vector_storage three_five i
      ≡ ok (elements i)
unfolding value_at at at_storage read_stored put_cache get lookup eq_bytes find uint256_stored
    read_int varint_decode decode_loop shift_left bits_of
reads_elements zero h = refl
reads_elements (suc zero) h = refl
reads_elements (suc (suc i)) h = absurd (omega arith)

rising : (i j : ℕ) → i ≤ j → j < 2 → ge (elements i) 5 ≡ true → ge (elements j) 5 ≡ true
rising zero j h h' e = ground arith
rising (suc i) zero h h' e = absurd (omega arith)
rising (suc i) (suc j) h h' e = refl

lower_bound_index_lem_example :
    (r : ℕ) × (v' : Vector ℕ) × (lower_bound_index ⦃u = boost⦄
        (uint256_stored ⦃u = boost⦄)
        index_byte
        ge
        vector_storage
        5
        three_five
      ≡ (ok r, v'))
    × Splits ⦃u = boost⦄ (uint256_stored ⦃u = boost⦄) index_byte vector_storage ge 5 elements 2 r
    × Holds ⦃u = boost⦄ (uint256_stored ⦃u = boost⦄) index_byte vector_storage ge 5 elements 2 v'
lower_bound_index_lem_example =
    lower_bound_index_lem ⦃u = boost⦄ (uint256_stored ⦃u = boost⦄) index_byte vector_storage ge 5
      elements 2 rising (omega arith) three_five (refl, reads_elements)

nothing_past : IsTight ⦃u = boost⦄ (uint256_stored ⦃u = boost⦄) index_byte vector_storage three_five
unfolding find
nothing_past j h = ground arith

push_back_lem_example :
    (v' : Vector ℕ) × (push_back ⦃u = boost⦄ 7 three_five ≡ (ok tt, v'))
    × (v'.size ≡ 3)
    × (value_at ⦃u = boost⦄ (uint256_stored ⦃u = boost⦄) index_byte vector_storage v' 2 ≡ ok 7)
    × ((j : ℕ)
        → j < 2
        → value_at ⦃u = boost⦄ (uint256_stored ⦃u = boost⦄) index_byte vector_storage v' j
          ≡ value_at ⦃u = boost⦄
              (uint256_stored ⦃u = boost⦄)
              index_byte
              vector_storage
              three_five
              j)
    × IsTight ⦃u = boost⦄ (uint256_stored ⦃u = boost⦄) index_byte vector_storage v'
push_back_lem_example =
    push_back_lem ⦃u = boost⦄ (uint256_stored ⦃u = boost⦄) index_byte vector_storage three_five 7
      refl nothing_past (omega arith)

byte_names : IsNaming index_byte
byte_names = record { apart = λ i j e. cc; some_digit = λ i e. absurd (ground arith) }

once : IsUnique three_five.cache
unfolding IsUnique find
once = (refl, tt)

abbrev flushed_storage : StorageMap
flushed_storage = record vector_storage {
  apply_cache = (118 ∷ 0 ∷ [], 3 ∷ []) ∷ (118 ∷ [], 2 ∷ []) ∷ (118 ∷ 1 ∷ [], 5 ∷ []) ∷ [];
}

is_flushed :
    flush ⦃u = boost⦄ (uint256_stored ⦃u = boost⦄) index_byte three_five vector_storage
    ≡ ok flushed_storage
unfolding flush put_each put insert eq_bytes uint256_stored write_int varint_encode encode_loop
    lt_wf dec_lt
is_flushed = refl

five_back :
    (j a : ℕ) (raw : Bytes)
    → find j three_five.cache ≡ some a
    → (uint256_stored ⦃u = boost⦄).to_raw a ≡ ok raw
    → (uint256_stored ⦃u = boost⦄).from_raw raw ≡ ok a
unfolding find uint256_stored write_int varint_encode encode_loop lt_wf dec_lt read_int
    varint_decode decode_loop shift_left bits_of
five_back j a raw found to_raw =
    let a_is : a ≡ 5 = ground arith in
    rw (a_is, raw_is (ap (uint256_stored ⦃u = boost⦄).to_raw (sym a_is) ∙ to_raw)) read_five
  where
    written_five : (uint256_stored ⦃u = boost⦄).to_raw 5 ≡ ok (5 ∷ [])
    written_five = refl

    raw_is : (uint256_stored ⦃u = boost⦄).to_raw 5 ≡ ok raw → raw ≡ 5 ∷ []
    raw_is e = cc

    read_five : (uint256_stored ⦃u = boost⦄).from_raw (5 ∷ []) ≡ ok 5
    read_five = refl

flush-new_example :
    (v' : Vector ℕ) × (new ⦃u = boost⦄ (118 ∷ []) flushed_storage ≡ ok v')
    × (v'.size ≡ 2)
    × ((j : ℕ)
        → j < 2
        → value_at ⦃u = boost⦄ (uint256_stored ⦃u = boost⦄) index_byte flushed_storage v' j
          ≡ value_at ⦃u = boost⦄
              (uint256_stored ⦃u = boost⦄)
              index_byte
              vector_storage
              three_five
              j)
flush-new_example =
    flush-new ⦃u = boost⦄ (uint256_stored ⦃u = boost⦄) index_byte byte_names three_five
      vector_storage flushed_storage refl (omega arith) once five_back is_flushed
