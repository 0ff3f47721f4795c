-- ===== src/Tests/Reloads.antt =====
-- A set of src/store/set.h that is flushed and opened again, at concrete elements.
use bandchain_legacy.Common.{
  ℕ, ◌^◌, ◌<◌, ◌≡◌, refl, sym, inl, inr, ◌⊎◌, none, some, [], find, ◌==◌, Bool-cases, Option, arith,
}
use bandchain_legacy.Thrown.{ok}
use bandchain_legacy.Buffer.{uint64, bits_of}
use bandchain_legacy.Buffer.ValuesRoundTrip.{read_int-write_int, write_int-append}
use bandchain_legacy.Store.Backend.{StorageMap, apply_side}
use bandchain_legacy.Store.Naming.{IsUnique, IsNaming}
use bandchain_legacy.Store.Set.{Set, Node, changed, unchanged, flush, new, stored_node}
use bandchain_legacy.Store.Set.Written.{IsCoded, IsFit}
use bandchain_legacy.Store.Set.Restored.{IsFlushable}
use bandchain_legacy.Store.Set.Reopened.{new-flush}
use bandchain_legacy.Store.Set.Inserted.Whole.{IsValid}
use bandchain_legacy.Tests.Boost.{boost}
use bandchain_legacy.Tests.Sets.{numbers, nothing_stored, as_byte}
use bandchain_legacy.Tests.Inserts.{high_node, low_node, two_nodes, two_tree, two_nodes-IsValid}

as_byte-IsNaming : IsNaming as_byte
as_byte-IsNaming = record { apart = λ i j e. cc; some_digit = λ i e. absurd (ground arith) }

numbers-IsCoded : IsCoded numbers
unfolding bits_of
numbers-IsCoded = record {
  Fits = λ n. n < 2 ^ 64;
  write-append = write_int-append;
  read-write = λ n rest fits. read_int-write_int ⦃u = boost⦄ uint64 n rest fits;
}

abbrev Cached : ℕ → Node ℕ → Type 0
Cached j node =
    ((node.status ≡ unchanged)
      × (stored_node ⦃u = boost⦄ numbers as_byte nothing_stored [] j ≡ ok node))
    ⊎ ((node.status ≡ changed) × IsFit numbers numbers-IsCoded node)

fits_high : (j : ℕ) → Cached j high_node
unfolding numbers-IsCoded
fits_high j = inr (
  refl,
  record {
    left = omega arith;
    right = omega arith;
    height = omega arith;
    parent = omega arith;
    val = omega arith;
  },
)

fits_low : (j : ℕ) → Cached j low_node
unfolding numbers-IsCoded
fits_low j = inr (
  refl,
  record {
    left = omega arith;
    right = omega arith;
    height = omega arith;
    parent = omega arith;
    val = omega arith;
  },
)

same_node : {a b : Node ℕ} → ◌≡◌ {A = Option (Node ℕ)} (some a) (some b) → a ≡ b
same_node e = cc

both_changed : (j : ℕ) (node : Node ℕ) → find j two_nodes.cache ≡ some node → Cached j node
unfolding find
both_changed j node found = elim (Bool-cases (1 == j)) [
  | inl e ↦ let q : high_node ≡ node = same_node (ground arith) in rw (sym q) (fits_high j)
  | inr e ↦ elim (Bool-cases (2 == j)) [
    | inl e' ↦ let q : low_node ≡ node = same_node (ground arith) in rw (sym q) (fits_low j)
    | inr e' ↦ absurd (nothing (ground arith))
  ]
]
  where
    nothing : ◌≡◌ {A = Option (Node ℕ)} none (some node) → ⊥
    nothing q = cc

two_nodes-IsFlushable :
    IsFlushable ⦃u = boost⦄ numbers as_byte numbers-IsCoded nothing_stored two_nodes
unfolding IsUnique find
two_nodes-IsFlushable = record {
  unique = (refl, (refl, tt));
  nonce_node = omega arith;
  nonce_root = omega arith;
  set_size = omega arith;
  cached = both_changed;
}

new-flush_example :
    (m' : StorageMap) × (s' : Set ℕ) × (flush numbers as_byte two_nodes nothing_stored ≡ ok m')
    × (new ⦃u = boost⦄ [] m' ≡ ok s')
    × IsValid ⦃u = boost⦄ numbers as_byte m' s' two_tree
new-flush_example =
    new-flush ⦃u = boost⦄ numbers as_byte as_byte-IsNaming numbers-IsCoded apply_side two_tree
      two_nodes nothing_stored refl two_nodes-IsFlushable two_nodes-IsValid
