-- ===== src/Graph.antt =====
-- src/store/graph_set.h and src/store/graph_set.cc: the edges of the graph in a `std::set`. The set
-- is the standard library's: it keeps, of the edges that its order cannot tell apart, the one that
-- was inserted first.
pub mod Order
use bandchain_legacy.Common.{
  ℕ, Bool, true, false, not, ◌&&◌, ◌||◌, List, [], ◌∷◌, ltb, ◌==◌, if◌then◌else◌,
}
use bandchain_legacy.Buffer.{Bytes}

pub record Edge : Type 0 where
  pub subject : Bytes
  pub predicate : Bytes
  pub object : Bytes
  pub label : Bytes

-- `operator<` of `std::string`
unfoldable pub less_bytes : Bytes → Bytes → Bool
less_bytes xs [] = false
less_bytes [] (y ∷ ys) = true
less_bytes (x ∷ xs) (y ∷ ys) =
    let rest = less_bytes xs ys in if ltb x y then true else if ltb y x then false else rest

-- `operator<` of a `std::tuple`: the first components that differ decide.
unfoldable pub less_tuple : List (Bytes × Bytes) → Bool
unfolding less_bytes
less_tuple [] = false
less_tuple ((a, b) ∷ rest) =
    let later = less_tuple rest in
    if less_bytes a b then true else if less_bytes b a then false else later

-- `Edge::operator<`, whose right tuple has the subject where the left one has the object.
unfoldable pub edge_less : Edge → Edge → Bool
unfolding less_tuple
edge_less e edge = less_tuple (
    (e.subject, edge.subject)
    ∷ (e.predicate, edge.predicate)
    ∷ (e.object, edge.subject)
    ∷ (e.label, edge.label)
    ∷ [])

-- Two edges are one to the set if neither is less than the other.
unfoldable pub is_equivalent : Edge → Edge → Bool
unfolding edge_less
is_equivalent a b = not (edge_less a b) && not (edge_less b a)
