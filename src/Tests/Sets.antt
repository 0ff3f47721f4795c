-- ===== src/Tests/Sets.antt =====
-- Sets of src/store/set.h, at concrete elements.
use bandchain_legacy.Common.{
  ℕ, zero, suc, ◌≡◌, refl, [], ◌∷◌, List, some, ltb, ◌==◌, lookup, find, write_at, emplace,
}
use bandchain_legacy.Thrown.{ok, err}
use bandchain_legacy.Buffer.{Bytes, uint64}
use bandchain_legacy.Buffer.Values.{write_int, read_int}
use bandchain_legacy.Store.Backend.{StorageMap, apply_side, get}
use bandchain_legacy.Ledger.Action.{Action, ◌>>=◌, pure}
use bandchain_legacy.Store.Set.{
  Set, Element, set_node, add_node, new_node, stored_node, fetch_node, get_node, update, get_height,
  update_parent,
}
use bandchain_legacy.Store.Set.Rotate.{
  update_height, move_subtree, finish_rotation, right_rotate, left_rotate, get_balance,
  left_right_case, right_left_case,
}
use bandchain_legacy.Store.Set.Insert.{
  insert_right, insert_left, balance_inserted, insert_node, insert,
}
use bandchain_legacy.Store.Set.Delete.{
  min_value_node, delete_here, rotate_erased, balance_kept, balance_erased, delete_node, erase,
}
use bandchain_legacy.Store.Set.Iterate.{next, up_right, value_of}
use bandchain_legacy.Store.Set.Lookup.{begin_loop, begin}
use bandchain_legacy.Tests.Boost.{boost}

abbrev pub numbers : Element ℕ
numbers = record {
  write = write_int;
  read = read_int ⦃u = boost⦄ uint64;
  initial = 0;
  less = λ a b. ltb a b;
  greater = λ a b. ltb b a;
  equal = λ a b. a == b;
}

abbrev pub nothing_stored : StorageMap
nothing_stored = record { check_cache = []; apply_cache = []; current = some apply_side }

abbrev empty_set : Set ℕ
empty_set = record { base_key = []; nonce_node = 0; nonce_root = 0; set_size = 0; cache = [] }

abbrev pub as_byte : ℕ → Bytes
as_byte i = i ∷ []

unfoldable insert_all : List ℕ → Action (Set ℕ) (Unit {0})
unfolding insert
insert_all [] = pure tt
insert_all (v ∷ vs) = insert ⦃u = boost⦄ numbers as_byte nothing_stored v >>= λ b. insert_all vs

-- The elements from an iterator on, so many of them at most.
unfoldable iterate : ℕ → ℕ → Set ℕ → List ℕ
unfolding next value_of
iterate zero it s = []
iterate (suc n) zero s = []
iterate (suc n) (suc i) s = elim (value_of ⦃u = boost⦄ numbers as_byte nothing_stored (suc i) s).0 [
  | err e ↦ []
  | ok v ↦ elim (next ⦃u = boost⦄ numbers as_byte nothing_stored (suc i) s).0 [
    | err e ↦ v ∷ []
    | ok j ↦ v ∷ iterate n j s
  ]
]

abbrev eight : Set ℕ
eight = (insert_all (50 ∷ 30 ∷ 80 ∷ 20 ∷ 60 ∷ 90 ∷ 55 ∷ 95 ∷ []) empty_set).1

abbrev after_20 : Set ℕ
after_20 = (erase ⦃u = boost⦄ numbers as_byte nothing_stored 20 eight).1

abbrev after_80 : Set ℕ
after_80 = (erase ⦃u = boost⦄ numbers as_byte nothing_stored 80 after_20).1

abbrev first : Set ℕ → ℕ
first s = elim (begin ⦃u = boost⦄ numbers as_byte nothing_stored s).0 [ ok i ↦ i | err e ↦ 0 ]

-- The eight elements in order.
iterates_eight : iterate 12 (first eight) eight ≡ 20 ∷ 30 ∷ 50 ∷ 55 ∷ 60 ∷ 80 ∷ 90 ∷ 95 ∷ []
unfolding iterate next up_right value_of begin begin_loop insert_all insert insert_node
    balance_inserted insert_left insert_right get_node fetch_node stored_node set_node add_node
    new_node update get_height update_parent update_height move_subtree finish_rotation right_rotate
    left_rotate get_balance left_right_case right_left_case get lookup find write_at emplace
iterates_eight = refl

-- Without 20 the tree is rotated into one that is not balanced, and without 80 then 95 keeps as its
-- parent the node that was erased: `++` goes from the last element back, and never reaches the end.
iterates_forever :
    iterate 12 (first after_80) after_80
    ≡ 30 ∷ 50 ∷ 55 ∷ 60 ∷ 90 ∷ 95 ∷ 90 ∷ 95 ∷ 90 ∷ 95 ∷ 90 ∷ 95 ∷ []
unfolding iterate next up_right value_of begin begin_loop insert_all insert insert_node
    balance_inserted insert_left insert_right get_node fetch_node stored_node set_node add_node
    new_node update get_height update_parent update_height move_subtree finish_rotation right_rotate
    left_rotate get_balance left_right_case right_left_case get lookup find write_at emplace erase
    delete_node balance_erased balance_kept rotate_erased delete_here min_value_node
iterates_forever = refl
