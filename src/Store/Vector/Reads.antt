-- ===== src/Store/Vector/Reads.antt =====
-- What the elements of a vector of src/store/vector.h read as.
use bandchain_legacy.Common.{
  ℕ, ◌+◌, ◌≤◌, ◌<◌, ◌≡◌, refl, false, inl, inr, ◌⊎◌, none, find, emplace, find-emplace, arith,
}
use bandchain_legacy.Thrown.{Result, ok}
use bandchain_legacy.Uint256.{CheckedUint, u256_mod, add_ok}
use bandchain_legacy.Buffer.{Bytes}
use bandchain_legacy.Store.Backend.{StorageMap}
use bandchain_legacy.Store.Data.{Stored}
use bandchain_legacy.Store.Vector.{Vector, put_cache, push_back, at_storage, at}

module _ ⦃u : CheckedUint⦄ {A : Type 0} (st : Stored A) (str : ℕ → Bytes) (m : StorageMap) where
  -- The value that an index reads as, or the exception.
  unfoldable pub value_at : Vector A → ℕ → Result A
  value_at v i = (at st str m i v).0

  value_at-put_cache :
      (v : Vector A) (i j : ℕ) (a : A)
      → find i v.cache ≡ none
      → value_at v i ≡ ok a
      → value_at (put_cache i a v) j ≡ value_at v j
  unfolding value_at at at_storage put_cache
  value_at-put_cache v i j a h r = ground (arith, find-emplace i j a v.cache h)

  -- A vector that reads alike at every index.
  pub record Alike (v v' : Vector A) : Type 0 where
    pub base_key : v'.base_key ≡ v.base_key
    pub size : v'.size ≡ v.size
    pub is_destroyed : v'.is_destroyed ≡ v.is_destroyed
    pub values : (j : ℕ) → value_at v' j ≡ value_at v j

  at_cases :
      (v : Vector A) (i : ℕ) (a : A)
      → value_at v i ≡ ok a
      → (at st str m i v ≡ (ok a, v))
        ⊎ ((find i v.cache ≡ none) × (at st str m i v ≡ (ok a, put_cache i a v)))
  unfolding value_at at at_storage
  at_cases v i a h = ground arith

  -- A read that returns leaves a vector that reads alike.
  pub at_lem :
      (v : Vector A) (i : ℕ) (a : A)
      → value_at v i ≡ ok a
      → (v' : Vector A) × (at st str m i v ≡ (ok a, v')) × Alike v v'
  at_lem v i a h = elim (at_cases v i a h) [
    | inl e ↦
        (v, e, record { base_key = refl; size = refl; is_destroyed = refl; values = λ j. refl })
    | inr (absent, e) ↦ (
      put_cache i a v,
      e,
      unfold put_cache in
          record {
            base_key = refl;
            size = refl;
            is_destroyed = refl;
            values = λ j. value_at-put_cache v i j a absent h;
          },
    )
  ]

  -- Nothing is cached past the end.
  abbrev pub IsTight : Vector A → Type 0
  IsTight v = (j : ℕ) → v.size ≤ j → find j v.cache ≡ none

  -- Pushing a value onto a vector that is not destroyed, that has nothing cached past its end,
  -- and whose new size is below 2 ^ 256: the size grows by one, the value is read at the old
  -- size, every index before it reads as before, and nothing is cached past the new end.
  pub push_back_lem :
      (v : Vector A) (value : A)
      → v.is_destroyed ≡ false
      → IsTight v
      → v.size + 1 < u256_mod
      → (v' : Vector A) × (push_back value v ≡ (ok tt, v'))
        × (v'.size ≡ v.size + 1)
        × (value_at v' v.size ≡ ok value)
        × ((j : ℕ) → j < v.size → value_at v' j ≡ value_at v j)
        × IsTight v'
  unfolding push_back put_cache value_at at at_storage
  push_back_lem v value alive tight fits = (
    record v { size = v.size + 1; cache = emplace v.size value v.cache },
    rw (alive, add_ok v.size 1 fits) refl,
    refl,
    ground (arith, find-emplace v.size v.size value v.cache (tight v.size (omega arith))),
    λ j h. ground (arith, find-emplace v.size j value v.cache (tight v.size (omega arith))),
    λ j h.
        ground (arith, find-emplace v.size j value v.cache (tight v.size (omega arith)), tight j),
  )
