-- ===== src/Tests/Graphs.antt =====
-- Edges of src/store/graph_set.h, at concrete values.
use bandchain_legacy.Common.{◌≡◌, refl, true, codes}
use bandchain_legacy.Graph.{Edge, less_bytes, is_equivalent}
use bandchain_legacy.Graph.Order.{edge_less_lost}

-- Two facts about a: that it is made of b, and that it is made of c.
abbrev made_of_b : Edge
made_of_b = record {
  subject = codes "a";
  predicate = codes "made of";
  object = codes "b";
  label = codes "old";
}

abbrev made_of_c : Edge
made_of_c = record {
  subject = codes "a";
  predicate = codes "made of";
  object = codes "c";
  label = codes "new";
}

after_a : (less_bytes (codes "a") (codes "b") ≡ true) × (less_bytes (codes "a") (codes "c") ≡ true)
unfolding less_bytes
after_a = (refl, refl)

edge_less_lost_example : is_equivalent made_of_b made_of_c ≡ true
edge_less_lost_example = edge_less_lost made_of_b made_of_c refl refl after_a.0 after_a.1
