-- ===== src/Store/Vector/Reload.antt =====
-- What the destructor of a vector of src/store/vector.h writes, and what a new vector reads of it.
use bandchain_legacy.Common.{
  ℕ, ◌<◌, ◌≡◌, refl, sym, ap, ◌∙◌, false, Bool-cases, inl, inr, Option, Option-cases, none, some,
  [], ◌∷◌, ◌++◌, append-nil, Indexed, find, ◌==◌, ==_iff, eq_bytes_self, arith,
}
use bandchain_legacy.Thrown
use bandchain_legacy.Thrown.{Result, ok, err, >>=-eq-ok}
use bandchain_legacy.Uint256.{CheckedUint, u256_mod}
use bandchain_legacy.Buffer.{Bytes, uint256, bits_of}
use bandchain_legacy.Buffer.Values.{write_int}
use bandchain_legacy.Buffer.ValuesRoundTrip.{read_int-write_int}
use bandchain_legacy.Store.Backend.{StorageMap, get, put}
use bandchain_legacy.Store.Sides.{get-put}
use bandchain_legacy.Store.Data.{Stored}
use bandchain_legacy.Ledger.Contracts.{uint256_stored}
use bandchain_legacy.Store.Naming.{IsUnique, IsNaming, index_apart, key_apart, apart_key}
use bandchain_legacy.Store.Vector.{Vector, new, read_stored, at_storage, at, put_each, flush}
use bandchain_legacy.Store.Vector.Reads.{value_at}

ok_eq : {m m' : StorageMap} → ◌≡◌ {A = Result StorageMap} (ok m) (ok m') → m ≡ m'
ok_eq e = cc

module _ ⦃u : CheckedUint⦄ {A : Type 0} (st : Stored A) (str : ℕ → Bytes) (naming : IsNaming str)
    (key : Bytes) where
  -- What one write of the destructor leaves.
  put_other :
      (i j : ℕ) (raw : Bytes) (m m1 : StorageMap)
      → put (key ++ str i) raw m ≡ ok m1
      → (i == j) ≡ false
      → get (key ++ str j) m1 ≡ get (key ++ str j) m
  put_other i j raw m m1 h e =
      get-put (key ++ str i) (key ++ str j) raw m m1 h ∙ rw (index_apart str naming key i j e) refl

  put_key :
      (i : ℕ) (raw : Bytes) (m m1 : StorageMap)
      → put (key ++ str i) raw m ≡ ok m1
      → get key m1 ≡ get key m
  put_key i raw m m1 h =
      get-put (key ++ str i) key raw m m1 h ∙ rw (apart_key str naming key i) refl

  -- The writes of the cached values, for the key of the vector and for each index.
  put_each-key :
      (cache : Indexed A) (m m' : StorageMap)
      → put_each st str key cache m ≡ ok m'
      → get key m' ≡ get key m
  unfolding put_each
  put_each-key [] m m' h = ap (get key) (sym (ok_eq h))
  put_each-key ((i, v) ∷ rest) m m' h =
      let (raw, _, h1) = >>=-eq-ok (st.to_raw v) _ h in
      let (m1, written, h2) = >>=-eq-ok (put (key ++ str i) raw m) _ h1 in
      put_each-key rest m1 m' h2 ∙ put_key i raw m m1 written

  put_each-absent :
      (cache : Indexed A) (m m' : StorageMap) (j : ℕ)
      → put_each st str key cache m ≡ ok m'
      → find j cache ≡ none
      → get (key ++ str j) m' ≡ get (key ++ str j) m
  unfolding put_each find
  put_each-absent [] m m' j h none_j = ap (get (key ++ str j)) (sym (ok_eq h))
  put_each-absent ((i, v) ∷ rest) m m' j h none_j =
      let (raw, _, h1) = >>=-eq-ok (st.to_raw v) _ h in
      let (m1, written, h2) = >>=-eq-ok (put (key ++ str i) raw m) _ h1 in
      let apart : (i == j) ≡ false = ground arith in
      put_each-absent rest m1 m' j h2 (ground arith) ∙ put_other i j raw m m1 written apart

  put_each-cached :
      (cache : Indexed A) (m m' : StorageMap) (j : ℕ) (a : A)
      → IsUnique cache
      → put_each st str key cache m ≡ ok m'
      → find j cache ≡ some a
      → (raw : Bytes) × (st.to_raw a ≡ ok raw) × (get (key ++ str j) m' ≡ ok (some raw))
  unfolding put_each find IsUnique
  put_each-cached [] m m' j a unique h found = absurd (cc)
  put_each-cached ((i, v) ∷ rest) m m' j a (alone, unique) h found =
      let (raw, to_raw, h1) = >>=-eq-ok (st.to_raw v) _ h in
      let (m1, written, h2) = >>=-eq-ok (put (key ++ str i) raw m) _ h1 in
      elim (Bool-cases (i == j)) [
        | inr e ↦ put_each-cached rest m1 m' j a unique h2 (ground arith)
        | inl e ↦
            let same : i ≡ j = (==_iff i j).0 e in
            let v_eq : v ≡ a = value_eq (ground arith) in
            (
              raw,
              ap st.to_raw (sym v_eq) ∙ to_raw,
              put_each-absent rest m1 m' j h2 (ap (λ (x : ℕ). find x rest) (sym same) ∙ alone)
                  ∙ ap (λ (x : ℕ). get (key ++ str x) m1) (sym same)
                  ∙ get-put (key ++ str i) (key ++ str i) raw m m1 written
                  ∙ rw (eq_bytes_self (key ++ str i)) refl,
            )
      ]
    where
      value_eq : {x y : A} → ◌≡◌ {A = Option A} (some x) (some y) → x ≡ y
      value_eq e = cc

module _ ⦃u : CheckedUint⦄ {A : Type 0} (st : Stored A) (str : ℕ → Bytes)
    (naming : IsNaming str) where
  size_back : (n : ℕ) → n < u256_mod → (uint256_stored).from_raw (write_int [] n) ≡ ok n
  unfolding uint256_stored bits_of
  size_back n small =
      rw (sym (append-nil (write_int [] n)), read_int-write_int uint256 n [] small) refl

  new_lem :
      (key : Bytes) (n : ℕ) (m : StorageMap)
      → n < u256_mod
      → get key m ≡ ok (some (write_int [] n))
      → new {A = A} key m
        ≡ ok (record { base_key = key; size = n; cache = []; is_destroyed = false })
  unfolding new
  new_lem key n m small h = rw (h, size_back n small) refl

  value_at-cached :
      (m : StorageMap) (v : Vector A) (j : ℕ) (a : A)
      → v.is_destroyed ≡ false
      → j < v.size
      → find j v.cache ≡ some a
      → value_at st str m v j ≡ ok a
  unfolding value_at at
  value_at-cached m v j a alive inside found = ground arith

  value_at-stored :
      (m : StorageMap) (v : Vector A) (j : ℕ)
      → v.is_destroyed ≡ false
      → j < v.size
      → find j v.cache ≡ none
      → value_at st str m v j ≡ read_stored st str m v.base_key j
  unfolding value_at at at_storage
  value_at-stored m v j alive inside absent = ground arith

  read_stored-get :
      (m m' : StorageMap) (key : Bytes) (j : ℕ)
      → get (key ++ str j) m' ≡ get (key ++ str j) m
      → read_stored st str m' key j ≡ read_stored st str m key j
  unfolding read_stored
  read_stored-get m m' key j e = rw e refl

  read_stored-raw :
      (m : StorageMap) (key raw : Bytes) (j : ℕ) (a : A)
      → get (key ++ str j) m ≡ ok (some raw)
      → st.from_raw raw ≡ ok a
      → read_stored st str m key j ≡ ok a
  unfolding read_stored
  read_stored-raw m key raw j a e back = rw (e, back) refl

  no_cache : (j : ℕ) → find {V = A} j [] ≡ none
  unfolding find
  no_cache j = refl

  flushed :
      (v : Vector A) (m m' : StorageMap)
      → v.is_destroyed ≡ false
      → flush st str v m ≡ ok m'
      → Thrown.◌>>=◌ (put v.base_key (write_int [] v.size) m) (put_each st str v.base_key v.cache)
        ≡ ok m'
  unfolding flush uint256_stored
  flushed v m m' e k = ground arith

  -- Where a vector that is not destroyed, of a size below 2 ^ 256, with no index cached twice, is
  -- flushed, its cached values are read back from their bytes, and different indices have
  -- different digits, at least one each: a new vector at the key has the size, and every index
  -- below it reads as before the flush.
  pub flush-new :
      (v : Vector A) (m m' : StorageMap)
      → v.is_destroyed ≡ false
      → v.size < u256_mod
      → IsUnique v.cache
      → ((j : ℕ) (a : A) (raw : Bytes)
          → find j v.cache ≡ some a
          → st.to_raw a ≡ ok raw
          → st.from_raw raw ≡ ok a)
      → flush st str v m ≡ ok m'
      → (v' : Vector A) × (new v.base_key m' ≡ ok v')
        × (v'.size ≡ v.size)
        × ((j : ℕ) → j < v.size → value_at st str m' v' j ≡ value_at st str m v j)
  unfolding flush uint256_stored
  flush-new v m m' alive small unique back h =
      let key = v.base_key in
      let written = flushed v m m' alive h in
      let (m1, sized, h1) = >>=-eq-ok (put key (write_int [] v.size) m) _ written in
      let v' : Vector A = record {
        base_key = key;
        size = v.size;
        cache = [];
        is_destroyed = false;
      } in
      let there =
        put_each-key st str naming key v.cache m1 m' h1
        ∙ get-put key key (write_int [] v.size) m m1 sized
        ∙ rw (eq_bytes_self key) refl in
      (
        v',
        new_lem key v.size m' small there,
        refl,
        λ j inside.
            value_at-stored m' v' j refl inside (no_cache j)
            ∙ elim (Option-cases (find j v.cache)) [
              | inl absent ↦
                  read_stored-get m m' key j (
                    put_each-absent st str naming key v.cache m1 m' j h1 absent
                    ∙ get-put key (key ++ str j) (write_int [] v.size) m m1 sized
                    ∙ rw (key_apart str naming key j) refl)
                  ∙ sym (value_at-stored m v j alive inside absent)
              | inr (a, found) ↦
                  let (raw, to_raw, got) =
                    put_each-cached st str naming key v.cache m1 m' j a unique h1 found in
                  read_stored-raw m' key raw j a got (back j a raw found to_raw)
                  ∙ sym (value_at-cached m v j a alive inside found)
            ],
      )
