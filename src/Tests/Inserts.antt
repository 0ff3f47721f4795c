-- ===== src/Tests/Inserts.antt =====
-- Insertion into a set of src/store/set.h, at concrete elements.
use bandchain_legacy.Common.{ℕ, lookup, ◌<◌, ◌≡◌, refl, not, ◌||◌, inr, [], ◌∷◌, find, arith}
use bandchain_legacy.Thrown.{Thrown, ok, err, error}
use bandchain_legacy.Store.Backend.{get}
use bandchain_legacy.Store.Set.{Set, Node, changed, get_node, stored_node}
use bandchain_legacy.Store.Set.Tree.{Tree, leaf, fork, elements, IsSearch, node_at, Alike, height}
use bandchain_legacy.Store.Set.Members.{member}
use bandchain_legacy.Store.Set.Parts.{Apart}
use bandchain_legacy.Store.Set.Insert.{insert}
use bandchain_legacy.Store.Set.Stored.{IsBalanced, IsProper, Stored}
use bandchain_legacy.Store.Set.Balance.{IsStrict}
use bandchain_legacy.Store.Set.Sorted.{insert_sorted}
use bandchain_legacy.Store.Set.Inserted.Whole.{IsValid, insert_lem}
use bandchain_legacy.Store.Set.Reached.{
  node_at-none, contains-insert, insert_each, insert_each-IsValid,
}
use bandchain_legacy.Store.Set.Lookup.{contains, contains_loop}
use bandchain_legacy.Store.Set.Depth.{contains_loop-steps}
use bandchain_legacy.Ledger.Action.{◌>>=◌}
use bandchain_legacy.Tests.Boost.{boost}
use bandchain_legacy.Tests.Sets.{numbers, nothing_stored, as_byte}
use bandchain_legacy.Tests.Trees.{numbers-IsOrder}

numbers-IsStrict : IsStrict numbers
numbers-IsStrict = record {
  less_asym = λ a b h. ground arith;
  greater_less = λ a b. refl;
  equal_same = λ a b h. ground arith;
}

abbrev pub high_node : Node ℕ
high_node = record { left = 2; right = 0; height = 2; parent = 0; val = 50; status = changed }

abbrev pub low_node : Node ℕ
low_node = record { left = 0; right = 0; height = 1; parent = 1; val = 30; status = changed }

-- 30 under 50: one more below leans too far to the left.
abbrev pub two_nodes : Set ℕ
two_nodes = record {
  base_key = [];
  nonce_node = 2;
  nonce_root = 1;
  set_size = 2;
  cache = (1, high_node) ∷ (2, low_node) ∷ [];
}

abbrev pub two_tree : Tree ℕ
two_tree = fork 0 (fork 1 leaf 30 leaf) 50 leaf

nothing_else :
    (j : ℕ)
    → 2 < j
    → (e : Thrown) × (node_at ⦃u = boost⦄ numbers as_byte nothing_stored two_nodes j ≡ err e)
unfolding find stored_node get lookup
nothing_else j h = (
  error,
  node_at-none ⦃u = boost⦄ numbers as_byte nothing_stored two_nodes j error (ground arith) refl,
)

pub two_nodes-IsValid : IsValid ⦃u = boost⦄ numbers as_byte nothing_stored two_nodes two_tree
unfolding Stored IsProper IsSearch IsBalanced Apart elements height node_at get_node find
two_nodes-IsValid = record {
  stored = (
    refl,
    (
      2,
      0,
      record {
        node = high_node;
        here = refl;
        left = refl;
        right = refl;
        height = refl;
        val = refl;
      },
      (
        refl,
        (
          0,
          0,
          record {
            node = low_node;
            here = refl;
            left = refl;
            right = refl;
            height = refl;
            val = refl;
          },
          refl,
          refl,
        ),
      ),
      refl,
    ),
  );
  proper = (
    (λ e. absurd (omega (arith, e)), tt, tt),
    tt,
    λ j. inr tt,
    (tt, tt, λ j. inr tt, tt, tt),
    tt,
  );
  search = ((refl, tt), tt, (tt, tt, tt, tt), tt);
  balanced = (omega arith, omega arith, (omega arith, omega arith, tt, tt), tt);
  counts = refl;
  missing = nothing_else;
  apart =
      λ j h. (λ e. absurd (omega (arith, e, h)), (λ e. absurd (omega (arith, e, h)), tt, tt), tt);
}

insert_lem_example :
    (s' : Set ℕ) × (t' : Tree ℕ) × (insert ⦃u = boost⦄ numbers as_byte nothing_stored 20 two_nodes
      ≡ (ok (not (member numbers 20 (elements two_tree))), s'))
    × IsValid ⦃u = boost⦄ numbers as_byte nothing_stored s' t'
    × (elements t' ≡ insert_sorted numbers 20 (elements two_tree))
insert_lem_example =
    insert_lem ⦃u = boost⦄ numbers as_byte nothing_stored numbers-IsOrder numbers-IsStrict 20
      two_tree two_nodes two_nodes-IsValid (omega arith) (omega arith)

contains-insert_example :
    (s' : Set ℕ) × ((insert ⦃u = boost⦄ numbers as_byte nothing_stored 20 >>= λ b.
    contains ⦃u = boost⦄ numbers as_byte nothing_stored 30)
        two_nodes
      ≡ (ok (numbers.equal 30 20 || member numbers 30 (elements two_tree)), s'))
contains-insert_example =
    contains-insert ⦃u = boost⦄ numbers as_byte nothing_stored numbers-IsOrder numbers-IsStrict 20
      30 two_tree two_nodes two_nodes-IsValid (omega arith) (omega arith)

contains_loop-steps_example :
    (s' : Set ℕ) × (contains_loop ⦃u = boost⦄ numbers as_byte nothing_stored 4 1 30 two_nodes
      ≡ (ok (member numbers 30 (elements two_tree)), s'))
    × Alike ⦃u = boost⦄ numbers as_byte nothing_stored two_nodes s'
contains_loop-steps_example =
    contains_loop-steps ⦃u = boost⦄ numbers as_byte nothing_stored 2 numbers-IsOrder 30 two_tree
      two_nodes two_nodes-IsValid (omega arith)

insert_each-IsValid_example :
    (s' : Set ℕ) × (t' : Tree ℕ) × (insert_each ⦃u = boost⦄ numbers as_byte nothing_stored
        (20 ∷ 70 ∷ [])
        two_nodes
      ≡ (ok tt, s'))
    × IsValid ⦃u = boost⦄ numbers as_byte nothing_stored s' t'
    × ((w : ℕ)
        → member numbers w (elements t')
          ≡ (member numbers w (20 ∷ 70 ∷ []) || member numbers w (elements two_tree)))
insert_each-IsValid_example =
    insert_each-IsValid ⦃u = boost⦄ numbers as_byte nothing_stored numbers-IsOrder numbers-IsStrict
      (20 ∷ 70 ∷ []) two_tree two_nodes two_nodes-IsValid (omega arith) (omega arith)
