-- ===== src/Common/Maps.antt =====
-- `std::unordered_map` with string keys, as an association list without repeated keys.
use Prim.Native.Nat.{ℕ}
use mathlib.Core.Path.{◌≡◌, refl}
use mathlib.Core.Option.{Option, none, some}
use mathlib.Core.List.{List, [], ◌∷◌}
use native.Mathlib.Omega.{arith}
use bandchain_legacy.Common.Tests.{if◌then◌else◌, eq_bytes, eq_bytes_iff}

abbrev pub Assoc {ℓ} : Type ℓ → Type ℓ
Assoc V = List (List ℕ × V)

module _ {ℓ} {V : Type ℓ} where
  -- `find(key)`
  unfoldable pub lookup : List ℕ → Assoc V → Option V
  lookup k [] = none
  lookup k ((j, v) ∷ m) = if eq_bytes j k then some v else lookup k m

  -- `operator[](key) = value`
  unfoldable pub insert : List ℕ → V → Assoc V → Assoc V
  insert k v [] = (k, v) ∷ []
  insert k v ((j, w) ∷ m) = if eq_bytes j k then (k, v) ∷ m else (j, w) ∷ insert k v m

  -- `erase(key)`
  unfoldable pub erase : List ℕ → Assoc V → Assoc V
  erase k [] = []
  erase k ((j, v) ∷ m) = let rest = erase k m in if eq_bytes j k then rest else (j, v) ∷ rest

  pub lookup-insert :
      (k j : List ℕ) (v : V) (m : Assoc V)
      → lookup j (insert k v m) ≡ (if eq_bytes k j then some v else lookup j m)
  unfolding lookup insert
  lookup-insert k j v [] = refl
  lookup-insert k j v ((i, w) ∷ m) =
      ground (arith, eq_bytes_iff k j, eq_bytes_iff i k, eq_bytes_iff i j, lookup-insert k j v m)

  pub lookup-erase :
      (k j : List ℕ) (m : Assoc V)
      → lookup j (erase k m) ≡ (if eq_bytes k j then none else lookup j m)
  unfolding lookup erase
  lookup-erase k j [] = ground arith
  lookup-erase k j ((i, w) ∷ m) =
      ground (arith, eq_bytes_iff k j, eq_bytes_iff i k, eq_bytes_iff i j, lookup-erase k j m)
