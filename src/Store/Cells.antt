-- ===== src/Store/Cells.antt =====
-- What a `Data` of src/store/data.h promises: it reads what was assigned, and what it flushed is
-- read back by a new one.
use bandchain_legacy.Common.{◌≡◌, ◌≢◌, refl, false, none, some, arith, eq_bytes_self, eq_bytes_iff}
use bandchain_legacy.Thrown.{ok, err, error}
use bandchain_legacy.Buffer.{Bytes}
use bandchain_legacy.Store.Backend.{StorageMap, get, put}
use bandchain_legacy.Store.Sides.{get-put, get-del}
use bandchain_legacy.Store.Data.{Data, erased, Stored, new, read, exist, assign, forget, flush}

module _ {A : Type 0} (st : Stored A) where
  pub read-assign :
      (v : A) (d : Data A) (m : StorageMap) → read st (assign v d) m ≡ ok (v, assign v d)
  unfolding read assign
  read-assign v d m = refl

  -- Reading only fills the cache.
  pub read_shape :
      (d d' : Data A) (m : StorageMap) (v : A)
      → read st d m ≡ ok (v, d')
      → (d'.key ≡ d.key) × (d'.status ≡ d.status) × (d'.cache ≡ some v) × (d.status ≢ erased)
  unfolding read
  read_shape d d' m v h = ground arith

  pub read_cached :
      (d : Data A) (m : StorageMap) (v : A)
      → d.status ≢ erased
      → d.cache ≡ some v
      → read st d m ≡ ok (v, d)
  unfolding read
  read_cached d m v h c = ground arith

  -- After a read that returned a value, a second read returns the same value and changes nothing,
  -- whatever the storage then holds.
  pub read-read :
      (d d' : Data A) (m m' : StorageMap) (v : A)
      → read st d m ≡ ok (v, d')
      → read st d' m' ≡ ok (v, d')
  read-read d d' m m' v h = ground (arith, read_shape d d' m v h, read_cached d' m' v)

  pub read-forget : (d : Data A) (m : StorageMap) → read st (forget d) m ≡ err error
  unfolding read forget
  read-forget d m = refl

  pub exist-forget : (d : Data A) (m : StorageMap) → exist (forget d) m ≡ ok false
  unfolding exist forget
  exist-forget d m = refl

  -- Where the bytes of a value read back as the value, and flushing a Data that the value was
  -- assigned to returns, a new Data at the key reads the value, and every other key reads as
  -- before.
  pub flush-assign :
      (v : A) (d : Data A) (m m' : StorageMap) (raw : Bytes)
      → st.to_raw v ≡ ok raw
      → st.from_raw raw ≡ ok v
      → flush st (assign v d) m ≡ ok m'
      → (read st (new d.key) m' ≡ ok (v, record (new d.key) { cache = some v }))
        × ((k : Bytes) → d.key ≢ k → get k m' ≡ get k m)
  unfolding flush assign new read
  flush-assign v d m m' raw hw hr h = (
    rw (own, hr) refl,
    λ k n. ground (arith, get-put d.key k raw m m' written, eq_bytes_iff d.key k),
  )
    where
      written : put d.key raw m ≡ ok m'
      written = ground arith

      own : get d.key m' ≡ ok (some raw)
      own = ground (arith, get-put d.key d.key raw m m' written, eq_bytes_self d.key)

  -- Where flushing an erased Data returns, a new Data at the key reads the initial value of its
  -- type, and does not exist.
  pub flush-forget :
      (d : Data A) (m m' : StorageMap)
      → flush st (forget d) m ≡ ok m'
      → (read st (new d.key) m' ≡ ok (st.initial, record (new d.key) { cache = some st.initial }))
        × (exist (new {A = A} d.key) m' ≡ ok false)
  unfolding flush forget new read exist
  flush-forget d m m' h = (rw own refl, rw own refl)
    where
      own : get d.key m' ≡ ok none
      own = ground (arith, get-del d.key d.key m m' h, eq_bytes_self d.key)
