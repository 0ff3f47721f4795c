-- ===== src/Tests/Trees.antt =====
-- The trees of src/store/set.h, at concrete elements.
use bandchain_legacy.Common.{ℕ, ◌≡◌, refl, [], ◌∷◌, length, find, arith}
use bandchain_legacy.Thrown.{ok}
use bandchain_legacy.Store.Set.{Set, Node, changed, get_node}
use bandchain_legacy.Store.Set.Tree.{
  Tree, leaf, fork, elements, IsSearch, IsOrder, Represents, node_at, Alike,
}
use bandchain_legacy.Store.Set.Members.{member, contains_lem}
use bandchain_legacy.Store.Set.Lookup.{contains}
use bandchain_legacy.Store.Set.Rotate.{right_rotate}
use bandchain_legacy.Store.Set.Rotate.Shapes.{right_rotate_lem}
use bandchain_legacy.Store.Set.Parts.{Apart, Separate}
use bandchain_legacy.Store.Set.Ends.{begin_lem}
use bandchain_legacy.Store.Set.Lookup.{begin}
use bandchain_legacy.Common.{List}
use bandchain_legacy.Tests.Boost.{boost}
use bandchain_legacy.Tests.Sets.{numbers, nothing_stored, as_byte}

pub numbers-IsOrder : IsOrder numbers
numbers-IsOrder = record {
  less_apart = λ a b h. (ground arith, ground arith);
  less_trans = λ a b c h k. ground arith;
  less_total = λ a b h k. ground arith;
}

abbrev node_of : ℕ → ℕ → ℕ → ℕ → Node ℕ
node_of l r p v = record { left = l; right = r; height = 1; parent = p; val = v; status = changed }

-- 30 under 50, and 20 under 30.
abbrev left_chain : Set ℕ
left_chain = record {
  base_key = [];
  nonce_node = 3;
  nonce_root = 1;
  set_size = 3;
  cache = (1, node_of 2 0 0 50) ∷ (2, node_of 3 0 1 30) ∷ (3, node_of 0 0 2 20) ∷ [];
}

abbrev twenty : Tree ℕ
twenty = fork 2 leaf 20 leaf

abbrev left_tree : Tree ℕ
left_tree = fork 0 (fork 1 twenty 30 leaf) 50 leaf

is_left_tree : Represents ⦃u = boost⦄ numbers as_byte nothing_stored left_chain 1 left_tree
unfolding Represents node_at get_node find
is_left_tree = (
  refl,
  (
    node_of 2 0 0 50,
    refl,
    refl,
    (
      refl,
      (node_of 3 0 1 30, refl, refl, (refl, (node_of 0 0 2 20, refl, refl, refl, refl)), refl),
    ),
    refl,
  ),
)

in_order : IsSearch numbers left_tree
unfolding IsSearch elements
in_order = ((refl, (refl, tt)), tt, ((refl, tt), tt, (tt, tt, tt, tt), tt), tt)

three_elements : left_chain.set_size ≡ length (elements left_tree)
unfolding elements
three_elements = refl

contains_lem_example :
    (s' : Set ℕ) × (contains ⦃u = boost⦄ numbers as_byte nothing_stored 30 left_chain
      ≡ (ok (member numbers 30 (elements left_tree)), s'))
    × Alike ⦃u = boost⦄ numbers as_byte nothing_stored left_chain s'
unfolding elements
contains_lem_example =
    contains_lem ⦃u = boost⦄ numbers as_byte nothing_stored numbers-IsOrder 30 left_tree left_chain
      in_order is_left_tree three_elements

begin_lem_example :
    (id : ℕ) × (s' : Set ℕ) × (node : Node ℕ) × (rest : List ℕ) × (begin ⦃u = boost⦄ numbers as_byte
        nothing_stored left_chain
      ≡ (ok id, s'))
    × (node_at ⦃u = boost⦄ numbers as_byte nothing_stored left_chain id ≡ ok node)
    × (elements left_tree ≡ node.val ∷ rest)
    × ((j : ℕ)
        → node_at ⦃u = boost⦄ numbers as_byte nothing_stored s' j
          ≡ node_at ⦃u = boost⦄ numbers as_byte nothing_stored left_chain j)
begin_lem_example =
    begin_lem ⦃u = boost⦄ numbers as_byte nothing_stored 0 (fork 1 twenty 30 leaf) leaf 50
      left_chain is_left_tree three_elements

chain_apart : Separate 1 0 twenty leaf leaf
unfolding Apart
chain_apart = record {
  apart = λ e. absurd (omega arith);
  x_a = (λ e. absurd (omega arith), tt, tt);
  x_b = tt;
  x_c = tt;
  y_a = (λ e. absurd (omega arith), tt, tt);
  y_b = tt;
  y_c = tt;
}

right_rotate_lem_example :
    (s' : Set ℕ) × (right_rotate ⦃u = boost⦄ numbers as_byte nothing_stored 1 left_chain
      ≡ (ok 2, s'))
    × Represents ⦃u = boost⦄ numbers as_byte nothing_stored s' 2
        (fork 1 twenty 30 (fork 0 leaf 50 leaf))
    × (elements (fork 1 twenty 30 (fork 0 leaf 50 leaf)) ≡ elements left_tree)
right_rotate_lem_example =
    right_rotate_lem ⦃u = boost⦄ numbers as_byte nothing_stored 1 0 twenty leaf leaf 30 50
      left_chain chain_apart is_left_tree
