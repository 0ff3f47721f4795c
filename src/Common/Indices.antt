-- ===== src/Common/Indices.antt =====
-- `std::unordered_map` with integer keys, as an association list without repeated keys.
use Prim.Native.Nat.{ℕ}
use mathlib.Core.Path.{◌≡◌, refl}
use mathlib.Core.Option.{Option, none, some}
use mathlib.Core.List.{List, [], ◌∷◌}
use native.Mathlib.Omega.{arith}
use bandchain_legacy.Common.Tests.{if◌then◌else◌, ◌==◌}

abbrev pub Indexed {ℓ} : Type ℓ → Type ℓ
Indexed V = List (ℕ × V)

module _ {ℓ} {V : Type ℓ} where
  -- `find(i)`
  unfoldable pub find : ℕ → Indexed V → Option V
  find i [] = none
  find i ((j, v) ∷ m) = if j == i then some v else find i m

  -- A write through a reference to the value at `i`, or `operator[](i) = value`.
  unfoldable pub write_at : ℕ → V → Indexed V → Indexed V
  write_at i v [] = (i, v) ∷ []
  write_at i v ((j, w) ∷ m) = if j == i then (i, v) ∷ m else (j, w) ∷ write_at i v m

  -- `emplace(i, value)`, which keeps a value that is there.
  unfoldable pub emplace : ℕ → V → Indexed V → Indexed V
  emplace i v [] = (i, v) ∷ []
  emplace i v ((j, w) ∷ m) = if j == i then (j, w) ∷ m else (j, w) ∷ emplace i v m

  pub find-write_at :
      (i j : ℕ) (v : V) (m : Indexed V)
      → find j (write_at i v m) ≡ (if i == j then some v else find j m)
  unfolding find write_at
  find-write_at i j v [] = refl
  find-write_at i j v ((k, w) ∷ m) = ground (arith, find-write_at i j v m)

  pub find-emplace :
      (i j : ℕ) (v : V) (m : Indexed V)
      → find i m ≡ none
      → find j (emplace i v m) ≡ (if i == j then some v else find j m)
  unfolding find emplace
  find-emplace i j v [] h = refl
  find-emplace i j v ((k, w) ∷ m) h = ground (arith, find-emplace i j v m)
