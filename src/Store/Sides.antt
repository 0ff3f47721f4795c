-- ===== src/Store/Sides.antt =====
-- The two maps of src/store/storage_map.cc, and what a commit makes of them.
use bandchain_legacy.Common.{
  ◌≡◌, refl, none, some, arith, eq_bytes, eq_bytes_self, lookup-insert, lookup-erase, if◌then◌else◌,
}
use bandchain_legacy.Thrown.{ok, err, failure}
use bandchain_legacy.Buffer.{Bytes}
use bandchain_legacy.Store.Backend.{
  StorageMap, get, put, del, commit, switch_to_check, switch_to_apply,
}

-- Writing one key changes what that key reads, and no other, on the current side.
pub get-put :
    (k j raw : Bytes) (m m' : StorageMap)
    → put k raw m ≡ ok m'
    → get j m' ≡ (if eq_bytes k j then ok (some raw) else get j m)
unfolding put get
get-put k j raw m m' h =
    ground (arith, lookup-insert k j raw m.check_cache, lookup-insert k j raw m.apply_cache)

pub get-del :
    (k j : Bytes) (m m' : StorageMap)
    → del k m ≡ ok m'
    → get j m' ≡ (if eq_bytes k j then ok none else get j m)
unfolding del get
get-del k j m m' h = ground (arith, lookup-erase k j m.check_cache, lookup-erase k j m.apply_cache)

-- What is written to the applied side is read there, and the checked side stays as it was.
pub put_sides :
    (k raw : Bytes) (m m' : StorageMap)
    → put k raw (switch_to_apply m) ≡ ok m'
    → (m'.check_cache ≡ m.check_cache) × (get k (switch_to_apply m') ≡ ok (some raw))
unfolding put get switch_to_apply
put_sides k raw m m' h = ground (arith, lookup-insert k k raw m.apply_cache, eq_bytes_self k)

-- After a commit both sides of the storage read what the applied side read before it, and no side
-- is selected: reading without a switch is a Failure.
pub commit_sides :
    (k : Bytes) (m : StorageMap)
    → (get k (switch_to_check (commit m)) ≡ get k (switch_to_apply m))
      × (get k (switch_to_apply (commit m)) ≡ get k (switch_to_apply m))
      × (get k (commit m) ≡ err failure)
unfolding get commit switch_to_check switch_to_apply
commit_sides k m = (refl, refl, refl)
